-- ===== src/Prelude/Lists.antt =====
-- Lists measured by native numbers, membership, and the array methods that the program calls.
use Prim.Native.Nat.{ℕ, zero, suc, ◌+◌, ◌≤◌}
use mathlib.Core.Path.{◌≡◌, refl, ap}
use mathlib.Core.Logic.{◌⊎◌, inl, inr, ◌↔◌, ⊎_elim}
use mathlib.Core.List.{List, [], ◌∷◌, ◌++◌, map}
use mathlib.Core.Bool.{Bool, true, false, ◌&&◌, ◌||◌}
use mathlib.Core.Option.{Option, none, some}
use native.Mathlib.Omega.{arith}
use background_jobs.Prelude.Tests.{Bool-cases}

module _ {ℓ} {A : Type ℓ} where
  abbrev pub length : List A → ℕ
  length [] = 0
  length (x ∷ xs) = suc (length xs)

  abbrev pub get_elem? : List A → ℕ → Option A
  get_elem? [] i = none
  get_elem? (x ∷ xs) zero = some x
  get_elem? (x ∷ xs) (suc i) = get_elem? xs i

  -- `filter`, `some` and `every` with a Boolean callback.
  abbrev pub filter : (A → Bool) → List A → List A
  filter p [] = []
  filter p (x ∷ xs) = elim (p x) [ true ↦ x ∷ filter p xs | false ↦ filter p xs ]

  abbrev pub any : (A → Bool) → List A → Bool
  any p [] = false
  any p (x ∷ xs) = p x || any p xs

  abbrev pub all : (A → Bool) → List A → Bool
  all p [] = true
  all p (x ∷ xs) = p x && all p xs

  pub List-cases : (xs : List A) → (xs ≡ []) ⊎ ((x : A) × (rest : List A) × (xs ≡ x ∷ rest))
  List-cases [] = inl refl
  List-cases (x ∷ xs) = inr (x, xs, refl)

  pub length-append : (xs ys : List A) → length (xs ++ ys) ≡ length xs + length ys
  length-append [] ys = omega arith
  length-append (x ∷ xs) ys = omega (arith, length-append xs ys)

  pub length-filter-le : (p : A → Bool) (xs : List A) → length (filter p xs) ≤ length xs
  length-filter-le p [] = omega arith
  length-filter-le p (x ∷ xs) = ground (arith, length-filter-le p xs)

pub length-map {ℓ κ} :
    {A : Type ℓ} {B : Type κ} (f : A → B) (xs : List A) → length (map f xs) ≡ length xs
length-map f [] = refl
length-map f (x ∷ xs) = ap suc (length-map f xs)

-- Membership, by recursion: at a list that is known it computes to a sum of equations.
abbrev pub In : {A : Type 0} → A → List A → Type 0
In a [] = ⊥
In a (x ∷ xs) = (a ≡ x) ⊎ In a xs

abbrev pub AllIn : {A : Type 0} → (A → Type 0) → List A → Type 0
AllIn P [] = Unit
AllIn P (x ∷ xs) = P x × AllIn P xs

abbrev pub Distinct : {A : Type 0} → List A → Type 0
Distinct [] = Unit
Distinct (x ∷ xs) = (¬ In x xs) × Distinct xs

module _ {A : Type 0} where
  pub In-append : (a : A) (xs ys : List A) → In a (xs ++ ys) ↔ (In a xs ⊎ In a ys)
  In-append a [] ys = (inr, ⊎_elim (λ n. absurd n) (λ h. h))
  In-append a (x ∷ xs) ys = ground (arith, In-append a xs ys)

  pub Distinct-append : (xs : List A) (a : A) → Distinct xs → (¬ In a xs) → Distinct (xs ++ a ∷ [])
  Distinct-append [] a d n = ((λ m. m), tt)
  Distinct-append (x ∷ xs) a d n = (
    λ m. ground (arith, (In-append x xs (a ∷ [])).0 m),
    Distinct-append xs a d.1 (λ m. n (inr m)),
  )

  pub In-filter :
      (p : A → Bool) (a : A) (xs : List A) → In a (filter p xs) ↔ (In a xs × (p a ≡ true))
  In-filter p a [] = ground arith
  In-filter p a (x ∷ xs) = ground (arith, In-filter p a xs)

  pub AllIn-in : (P : A → Type 0) (xs : List A) → AllIn P xs → (a : A) → In a xs → P a
  AllIn-in P [] h a m = absurd m
  AllIn-in P (x ∷ xs) h a (inl e) = rw e h.0
  AllIn-in P (x ∷ xs) h a (inr m) = AllIn-in P xs h.1 a m

  pub all_iff : (p : A → Bool) (xs : List A) → (all p xs ≡ true) ↔ ((a : A) → In a xs → p a ≡ true)
  all_iff p [] = (λ _ a m. absurd m, λ _. refl)
  all_iff p (x ∷ xs) = (
    λ h a m. ⊎_elim (λ e. ground arith) (λ r. (all_iff p xs).0 (ground arith) a r) m,
    λ h. ground (arith, h x (inl refl), (all_iff p xs).1 (λ a r. h a (inr r))),
  )

  pub any_iff : (p : A → Bool) (xs : List A) → (any p xs ≡ true) → (a : A) × In a xs × (p a ≡ true)
  any_iff p [] h = cc
  any_iff p (x ∷ xs) h = elim (Bool-cases (p x)) [
    | inl e ↦ (x, inl refl, e)
    | inr e ↦ let (a, m, q) = any_iff p xs (ground arith) in (a, inr m, q)
  ]

  pub any_of_In : (p : A → Bool) (xs : List A) (a : A) → In a xs → p a ≡ true → any p xs ≡ true
  any_of_In p [] a m h = absurd m
  any_of_In p (x ∷ xs) a (inl e) h = ground arith
  any_of_In p (x ∷ xs) a (inr m) h = ground (arith, any_of_In p xs a m h)

pub In-map : {A B : Type 0} (f : A → B) (a : A) (xs : List A) → In a xs → In (f a) (map f xs)
In-map f a [] m = absurd m
In-map f a (x ∷ xs) (inl e) = inl (ap f e)
In-map f a (x ∷ xs) (inr m) = inr (In-map f a xs m)
