-- ===== src/Redaction/Values.antt =====
-- src/security/redaction.ts: which texts are replaced, in which order, and where.
use background_jobs.Prelude.{
  ℕ, ◌≤◌, String, List, [], ◌∷◌, ◌++◌, Map, add, has, has-false_iff, values, filter, not, leb, In,
  In-add, In-filter, Distinct, Distinct-append, ◌≡◌, ◌≢◌, ◌⊎◌, ◌↔◌, refl, sym, subst, inl, inr,
  ⊎_elim, arith, Bool-cases, ◌==◌,
}
use background_jobs.Json.{
  Json, null, boolean, number, string, array, object, Items, nil, cons, Fields, end, field,
}
use background_jobs.Json.Within.{
  Within, WithinItems, WithinFields, here, item, property, first, later, first_field, later_field,
}
use background_jobs.Redaction.{
  set_from, insert_by_size, sort_by_size, secret_values, replace_all, redact_value, redact_items,
  redact_fields,
}

In-set_from : (x : String) (met xs : List String) → In x (set_from met xs) ↔ (In x met ⊎ In x xs)
unfolding set_from
In-set_from x met [] = ground arith
In-set_from x met (y ∷ ys) = ground (arith, In-set_from x (add y met) ys, In-add x y met)

add-Distinct : (x : String) (met : List String) → Distinct met → Distinct (add x met)
unfolding add
add-Distinct x met d = elim (Bool-cases (has x met)) [
  | inl e ↦ let q : add x met ≡ met = ground arith in subst Distinct (sym q) d
  | inr e ↦
      let q : add x met ≡ met ++ x ∷ [] = ground arith in
      subst Distinct (sym q) (Distinct-append met x d ((has-false_iff x met).0 e))
]

set_from-Distinct : (met xs : List String) → Distinct met → Distinct (set_from met xs)
unfolding set_from
set_from-Distinct met [] d = d
set_from-Distinct met (x ∷ xs) d = set_from-Distinct (add x met) xs (add-Distinct x met d)

module _ (size : String → ℕ) (replace : String → String → String) where
  In-insert_by_size :
      (a x : String) (xs : List String)
      → In a (insert_by_size size replace x xs) ↔ ((a ≡ x) ⊎ In a xs)
  unfolding insert_by_size
  In-insert_by_size a x [] = ground arith
  In-insert_by_size a x (y ∷ ys) = ground (arith, In-insert_by_size a x ys)

  In-sort_by_size : (a : String) (xs : List String) → In a (sort_by_size size replace xs) ↔ In a xs
  unfolding sort_by_size
  In-sort_by_size a [] = ground arith
  In-sort_by_size a (x ∷ xs) =
      ground (arith, In-insert_by_size a x (sort_by_size size replace xs), In-sort_by_size a xs)

  -- No text is longer than one before it, and none is there twice.
  abbrev pub Descending : List String → Type 0
  Descending [] = Unit
  Descending (x ∷ xs) = (((y : String) → In y xs → size y ≤ size x) × (¬ In x xs)) × Descending xs

  insert_by_size-Descending :
      (x : String) (xs : List String)
      → (¬ In x xs)
      → Descending xs
      → Descending (insert_by_size size replace x xs)
  unfolding insert_by_size
  insert_by_size-Descending x [] n d = ((λ y m. absurd m, λ m. m), tt)
  insert_by_size-Descending x (y ∷ ys) n d = elim (Bool-cases (leb (size y) (size x))) [
    | inl e ↦
        let q : insert_by_size size replace x (y ∷ ys) ≡ x ∷ y ∷ ys = ground arith in
        let le : size y ≤ size x = ground arith in
        subst Descending (sym q) (
          (
            λ z m.
                ⊎_elim (λ p. subst (λ t. size t ≤ size x) (sym p) le)
                  (λ k. omega (arith, d.0.0 z k, le)) m,
            n,
          ),
          d,
        )
    | inr e ↦
        let q : insert_by_size size replace x (y ∷ ys) ≡ y ∷ insert_by_size size replace x ys =
          ground arith in
        let le : size x ≤ size y = ground arith in
        subst Descending (sym q) (
          (
            λ z m.
                ⊎_elim (λ p. subst (λ t. size t ≤ size y) (sym p) le) (d.0.0 z)
                  ((In-insert_by_size z x ys).0 m),
            λ m. ⊎_elim (λ p. n (inl (sym p))) d.0.1 ((In-insert_by_size y x ys).0 m),
          ),
          insert_by_size-Descending x ys (λ m. n (inr m)) d.1,
        )
  ]

  sort_by_size-Descending :
      (xs : List String) → Distinct xs → Descending (sort_by_size size replace xs)
  unfolding sort_by_size
  sort_by_size-Descending [] d = tt
  sort_by_size-Descending (x ∷ xs) d =
      insert_by_size-Descending x (sort_by_size size replace xs)
        (λ m. d.0 ((In-sort_by_size x xs).0 m)) (sort_by_size-Descending xs d.1)

  -- The texts to replace are the values of the secrets that are not empty, each once, and a longer one
  -- before a shorter one.
  pub secret_values-Descending :
      (secrets : Map String)
      → ((x : String)
          → In x (secret_values size replace secrets) ↔ (In x (values secrets) × (x ≢ "")))
        × Descending (secret_values size replace secrets)
  unfolding secret_values
  secret_values-Descending secrets =
      let kept = filter (λ v. not (v == "")) (values secrets) in
      (
        λ x. ground (
          arith,
          In-sort_by_size x (set_from [] kept),
          In-set_from x [] kept,
          In-filter (λ v. not (v == "")) x (values secrets),
        ),
        sort_by_size-Descending (set_from [] kept) (set_from-Distinct [] kept tt),
      )

  mutual
    unfolding redact_value

    value_text :
        (ss : List String) (v : Json) (t : String)
        → Within t (redact_value size replace ss v)
        → (u : String) × Within u v × (t ≡ replace_all size replace ss u)
    value_text ss (string s) t here = (s, here, refl)
    value_text ss null t w = elim w [ ]
    value_text ss (boolean _) t w = elim w [ ]
    value_text ss (number _) t w = elim w [ ]
    value_text ss (array xs) t (item w) = let (u, k, e) = items_text ss xs t w in (u, item k, e)
    value_text ss (object fs) t (property w) =
        let (u, k, e) = fields_text ss fs t w in (u, property k, e)

    items_text :
        (ss : List String) (xs : Items) (t : String)
        → WithinItems t (redact_items size replace ss xs)
        → (u : String) × WithinItems u xs × (t ≡ replace_all size replace ss u)
    items_text ss nil t w = elim w [ ]
    items_text ss (cons x xs) t (first w) = let (u, k, e) = value_text ss x t w in (u, first k, e)
    items_text ss (cons x xs) t (later w) = let (u, k, e) = items_text ss xs t w in (u, later k, e)

    fields_text :
        (ss : List String) (fs : Fields) (t : String)
        → WithinFields t (redact_fields size replace ss fs)
        → (u : String) × WithinFields u fs × (t ≡ replace_all size replace ss u)
    fields_text ss end t w = elim w [ ]
    fields_text ss (field k v fs) t (first_field w) =
        let (u, i, e) = value_text ss v t w in (u, first_field i, e)
    fields_text ss (field k v fs) t (later_field w) =
        let (u, i, e) = fields_text ss fs t w in (u, later_field i, e)
