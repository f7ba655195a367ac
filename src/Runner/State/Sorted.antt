-- ===== src/Runner/State/Sorted.antt =====
-- The steps in their order, as `run` sorts them: the same steps, and distinct ids stay distinct.
use background_jobs.Prelude.{
  List, [], ◌∷◌, leb, In, ◌≡◌, ◌≢◌, ◌⊎◌, ◌↔◌, refl, sym, ap, ◌∙◌, inl, inr, ⊎_elim, arith,
  Bool-cases,
}
use background_jobs.Types.{Step}
use background_jobs.Runner.State.{insert_step, sort_steps}
use background_jobs.Runner.State.Invariant.{Unique}

module _ {C : Type 0} where
  -- No two steps have one id.
  abbrev pub DistinctIds : List (Step C) → Type 0
  DistinctIds [] = Unit
  DistinctIds (s ∷ ss) = ((a : Step C) → In a ss → a.id ≢ s.id) × DistinctIds ss

  pub DistinctIds-Unique : (steps : List (Step C)) → DistinctIds steps → Unique steps
  DistinctIds-Unique [] d a b m n e = absurd m
  DistinctIds-Unique (s ∷ ss) d a b (inl p) (inl q) e = p ∙ sym q
  DistinctIds-Unique (s ∷ ss) d a b (inl p) (inr n) e =
      absurd (d.0 b n (sym e ∙ ap (λ (x : Step C). x.id) p))
  DistinctIds-Unique (s ∷ ss) d a b (inr m) (inl q) e =
      absurd (d.0 a m (e ∙ ap (λ (x : Step C). x.id) q))
  DistinctIds-Unique (s ∷ ss) d a b (inr m) (inr n) e = DistinctIds-Unique ss d.1 a b m n e

  In-insert_step :
      (a s : Step C) (ts : List (Step C)) → In a (insert_step s ts) ↔ ((a ≡ s) ⊎ In a ts)
  unfolding insert_step
  In-insert_step a s [] = ground arith
  In-insert_step a s (t ∷ ts) = ground (arith, In-insert_step a s ts)

  pub In-sort_steps : (a : Step C) (ss : List (Step C)) → In a (sort_steps ss) ↔ In a ss
  unfolding sort_steps
  In-sort_steps a [] = ground arith
  In-sort_steps a (s ∷ ss) = ground (arith, In-sort_steps a ss, In-insert_step a s (sort_steps ss))

  insert_step-DistinctIds :
      (s : Step C) (ts : List (Step C))
      → DistinctIds ts
      → ((a : Step C) → In a ts → a.id ≢ s.id)
      → DistinctIds (insert_step s ts)
  unfolding insert_step
  insert_step-DistinctIds s [] d f = ((λ a m. absurd m), tt)
  insert_step-DistinctIds s (t ∷ ts) d f = elim (Bool-cases (leb s.order t.order)) [
    | inl le ↦ rw le (f, d)
    | inr gt ↦ rw gt (
      λ a m.
          ⊎_elim (λ e k. f t (inl refl) (sym (sym (ap (λ (x : Step C). x.id) e) ∙ k))) (d.0 a)
            ((In-insert_step a s ts).0 m),
      insert_step-DistinctIds s ts d.1 (λ a m. f a (inr m)),
    )
  ]

  pub sort_steps-DistinctIds : (ss : List (Step C)) → DistinctIds ss → DistinctIds (sort_steps ss)
  unfolding sort_steps
  sort_steps-DistinctIds [] d = tt
  sort_steps-DistinctIds (s ∷ ss) d =
      insert_step-DistinctIds s (sort_steps ss) (sort_steps-DistinctIds ss d.1)
        (λ a m. d.0 a ((In-sort_steps a ss).0 m))
