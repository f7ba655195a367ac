-- ===== src/Validation/Silence.antt =====
-- What a list of issues that is empty tells of its parts.
use background_jobs.Prelude.{
  ℕ, ◌+◌, String, Bool, true, false, List, [], ◌∷◌, ◌++◌, In, ◌≡◌, refl, sym, subst, inl, inr,
  arith,
}
use background_jobs.Validation.{FieldPath, ValidationIssue, unless, for_each}

pub append_silent : {A : Type 0} (xs ys : List A) → xs ++ ys ≡ [] → (xs ≡ []) × (ys ≡ [])
append_silent [] ys h = (refl, h)
append_silent (x ∷ xs) ys h = ground arith

pub unless_silent :
    (b : Bool) (path : FieldPath) (code : String) → unless b path code ≡ [] → b ≡ true
unless_silent true path code h = refl
unless_silent false path code h = ground arith

pub for_each_silent :
    {A : Type 0} (f : ℕ → A → List ValidationIssue) (i : ℕ) (xs : List A)
    → for_each f i xs ≡ []
    → (x : A) → In x xs
    → (j : ℕ) × (f j x ≡ [])
for_each_silent f i [] h x m = absurd m
for_each_silent f i (y ∷ ys) h x (inl e) =
    (i, subst (λ z. f i z ≡ []) (sym e) (append_silent (f i y) _ h).0)
for_each_silent f i (y ∷ ys) h x (inr m) =
    for_each_silent f (i + 1) ys (append_silent (f i y) _ h).1 x m
