-- ===== src/Prelude/Maps.antt =====
-- `Map` and `Set` over string keys, and the plain objects that the program uses as maps: entries
-- stand in the order of insertion, and a write at a present key keeps its place.
use Prim.Native.String.{String}
use background_jobs.Prelude.Lists.{length}
use Prim.Native.Nat.{◌<◌, ◌+◌, ◌≤◌}
use mathlib.Core.Path.{◌∙◌, subst, ◌≡◌, refl}
use mathlib.Core.Logic.{inl, inr, ⊎_elim, ◌≢◌, ◌⊎◌, ◌↔◌}
use mathlib.Core.List.{List, [], ◌∷◌, ◌++◌}
use mathlib.Core.Bool.{Bool, true, false}
use mathlib.Core.Option.{Option, none, some}
use native.Mathlib.Omega.{arith}
use background_jobs.Prelude.Tests.{◌==◌, String_discrete, if◌then◌else◌}
use background_jobs.Prelude.Lists.{In, Distinct, In-append}

-- `Set.prototype.has` and `Array.prototype.includes`.
unfoldable pub has : String → List String → Bool
has k [] = false
has k (x ∷ xs) = if x == k then true else has k xs

pub has_iff : (k : String) (xs : List String) → (has k xs ≡ true) ↔ In k xs
unfolding has
has_iff k [] = ground arith
has_iff k (x ∷ xs) = ground (arith, has_iff k xs)

pub has-false_iff : (k : String) (xs : List String) → (has k xs ≡ false) ↔ (¬ In k xs)
has-false_iff k xs = ground (arith, has_iff k xs)

-- `Set.prototype.add`.
unfoldable pub add : String → List String → List String
add k xs = if has k xs then xs else xs ++ k ∷ []

pub In-add : (a k : String) (xs : List String) → In a (add k xs) ↔ ((a ≡ k) ⊎ In a xs)
unfolding add
In-add a k xs = ground (arith, has_iff k xs, In-append a xs (k ∷ []))

abbrev pub Map {ℓ} : Type ℓ → Type ℓ
Map V = List (String × V)

module _ {ℓ} {V : Type ℓ} where
  unfoldable pub get : String → Map V → Option V
  get k [] = none
  get k ((j, v) ∷ m) = if j == k then some v else get k m

  unfoldable pub put : String → V → Map V → Map V
  put k v [] = (k, v) ∷ []
  put k v ((j, w) ∷ m) = if j == k then (j, v) ∷ m else (j, w) ∷ put k v m

  -- `Map.prototype.delete`.
  unfoldable pub delete : String → Map V → Map V
  delete k [] = []
  delete k ((j, v) ∷ m) = if j == k then delete k m else (j, v) ∷ delete k m

  abbrev pub keys : Map V → List String
  keys [] = []
  keys ((j, v) ∷ m) = j ∷ keys m

  abbrev pub values : Map V → List V
  values [] = []
  values ((j, v) ∷ m) = v ∷ values m

  pub get-put :
      (j k : String) (v : V) (m : Map V)
      → get j (put k v m) ≡ (elim (String_discrete k j) [ yes _ ↦ some v | no _ ↦ get j m ])
  unfolding get put
  get-put j k v [] = ground arith
  get-put j k v ((i, w) ∷ m) = ground (arith, get-put j k v m)

  pub get-put_self : (k : String) (v : V) (m : Map V) → get k (put k v m) ≡ some v
  get-put_self k v m = ground (arith, get-put k k v m)

  pub get-put_ne : (j k : String) (v : V) (m : Map V) → k ≢ j → get j (put k v m) ≡ get j m
  get-put_ne j k v m h = ground (arith, get-put j k v m)

  pub get-delete :
      (j k : String) (m : Map V)
      → get j (delete k m) ≡ (elim (String_discrete k j) [ yes _ ↦ none | no _ ↦ get j m ])
  unfolding get delete
  get-delete j k [] = ground arith
  get-delete j k ((i, w) ∷ m) = ground (arith, get-delete j k m)

  pub In-keys_iff : (k : String) (m : Map V) → In k (keys m) ↔ (get k m ≢ none)
  unfolding get
  In-keys_iff k [] = (λ n. absurd n, λ h. h refl)
  In-keys_iff k ((j, v) ∷ m) = ground (arith, In-keys_iff k m)

  pub In-keys-put :
      (j k : String) (v : V) (m : Map V) → In j (keys (put k v m)) ↔ ((j ≡ k) ⊎ In j (keys m))
  unfolding put
  In-keys-put j k v [] = ground arith
  In-keys-put j k v ((i, w) ∷ m) = ground (arith, In-keys-put j k v m)

  pub In-keys-delete :
      (j k : String) (m : Map V) → In j (keys (delete k m)) ↔ (In j (keys m) × (j ≢ k))
  unfolding delete
  In-keys-delete j k [] = ground arith
  In-keys-delete j k ((i, w) ∷ m) = ground (arith, In-keys-delete j k m)

  pub Distinct-keys-put :
      (k : String) (v : V) (m : Map V) → Distinct (keys m) → Distinct (keys (put k v m))
  unfolding put
  Distinct-keys-put k v [] h = ground arith
  Distinct-keys-put k v ((i, w) ∷ m) h =
      ground (arith, In-keys-put i k v m, Distinct-keys-put k v m h.1)

  pub length-keys-put :
      (k : String) (v : V) (m : Map V) → length (keys (put k v m)) ≤ length (keys m) + 1
  unfolding put
  length-keys-put k v [] = omega arith
  length-keys-put k v ((i, w) ∷ m) = ground (arith, length-keys-put k v m)

  pub length-delete-le : (k : String) (m : Map V) → length (delete k m) ≤ length m
  unfolding delete
  length-delete-le k [] = omega arith
  length-delete-le k ((i, w) ∷ m) = ground (arith, length-delete-le k m)

  pub length-delete-lt : (k : String) (m : Map V) → In k (keys m) → length (delete k m) < length m
  unfolding delete
  length-delete-lt k [] h = absurd h
  length-delete-lt k ((i, w) ∷ m) h = ground (arith, length-delete-lt k m, length-delete-le k m)

  pub Distinct-keys-delete :
      (k : String) (m : Map V) → Distinct (keys m) → Distinct (keys (delete k m))
  unfolding delete
  Distinct-keys-delete k [] h = tt
  Distinct-keys-delete k ((i, w) ∷ m) h =
      ground (arith, In-keys-delete i k m, Distinct-keys-delete k m h.1)

module _ {V : Type 0} where
  pub key_of_entry : (k : String) (v : V) (m : Map V) → In (k, v) m → In k (keys m)
  key_of_entry k v [] h = absurd h
  key_of_entry k v ((i, w) ∷ m) (inl e) = inl (λ t. (e t).0)
  key_of_entry k v ((i, w) ∷ m) (inr h) = inr (key_of_entry k v m h)

  pub entry_of_key : (k : String) (m : Map V) → In k (keys m) → (v : V) × In (k, v) m
  entry_of_key k [] h = absurd h
  entry_of_key k ((i, w) ∷ m) (inl e) = (w, inl (λ t. (e t, w)))
  entry_of_key k ((i, w) ∷ m) (inr h) = let (v, j) = entry_of_key k m h in (v, inr j)

  pub In-delete : (j k : String) (v : V) (m : Map V) → In (j, v) (delete k m) → In (j, v) m
  unfolding delete
  In-delete j k v [] h = h
  In-delete j k v ((i, w) ∷ m) h = elim (String_discrete i k) [
    | yes e ↦ inr (In-delete j k v m (ground arith))
    | no n ↦
        let q : delete k ((i, w) ∷ m) ≡ (i, w) ∷ delete k m = ground arith in
        ⊎_elim inl (λ r. inr (In-delete j k v m r)) (subst (In (j, v)) q h)
  ]

  pub In-put :
      (j k : String) (v w : V) (m : Map V)
      → In (j, v) (put k w m)
      → ((j ≡ k) × (v ≡ w)) ⊎ In (j, v) m
  unfolding put
  In-put j k v w [] h = ⊎_elim (λ e. inl (λ t. (e t).0, λ t. (e t).1)) (λ n. absurd n) h
  In-put j k v w ((i, u) ∷ m) h = elim (String_discrete i k) [
    | yes e ↦
        let q : put k w ((i, u) ∷ m) ≡ (i, w) ∷ m = ground arith in
        ⊎_elim (λ p. inl ((λ t. (p t).0) ∙ e, λ t. (p t).1)) (λ r. inr (inr r))
          (subst (In (j, v)) q h)
    | no n ↦
        let q : put k w ((i, u) ∷ m) ≡ (i, u) ∷ put k w m = ground arith in
        ⊎_elim (λ p. inr (inl p)) (λ r. ⊎_elim inl (λ z. inr (inr z)) (In-put j k v w m r))
          (subst (In (j, v)) q h)
  ]

  pub In-values : (v : V) (m : Map V) → In v (values m) → (k : String) × In (k, v) m
  In-values v [] h = absurd h
  In-values v ((i, w) ∷ m) (inl e) = (i, inl (λ t. (i, e t)))
  In-values v ((i, w) ∷ m) (inr h) = let (k, j) = In-values v m h in (k, inr j)
