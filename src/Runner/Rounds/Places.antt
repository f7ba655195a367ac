-- ===== src/Runner/Rounds/Places.antt =====
-- The steps of a batch and the results of its pool, by their places.
use background_jobs.Prelude.{
  ℕ, zero, suc, String, Bool, Option, none, some, List, [], ◌∷◌, Map, map, keys, values, filter,
  get_elem?, In, Distinct, all_iff, has_iff, has, In-filter, In-values, key_of_entry, ◌≡◌, ◌≢◌,
  refl, sym, ap, subst, ◌∙◌, inl, inr, arith, Bool-cases,
}
use background_jobs.Types.{Step}
use background_jobs.Runner.Pool.{settled}
use background_jobs.Runner.State.{RunState, is_runnable, runnable}
use background_jobs.Runner.State.Invariant.{RunInv}
use background_jobs.Runner.State.Sorted.{DistinctIds}
use background_jobs.Runner.Rounds.{Task}
use background_jobs.Runner.Rounds.Merge.{step_of}

module _ {A : Type 0} where
  pub In-get_elem? : (xs : List A) (i : ℕ) (a : A) → get_elem? xs i ≡ some a → In a xs
  In-get_elem? [] i a h = cc
  In-get_elem? (x ∷ xs) zero a h = ground arith
  In-get_elem? (x ∷ xs) (suc i) a h = inr (In-get_elem? xs i a h)

  pub place_of_settled :
      (rs : List (Option A)) (a : A)
      → In a (settled rs)
      → (i : ℕ) × (get_elem? rs i ≡ some (some a))
  place_of_settled [] a h = absurd h
  place_of_settled (none ∷ rs) a h = let (i, e) = place_of_settled rs a h in (suc i, e)
  place_of_settled (some r ∷ rs) a (inl e) = (0, ap (λ x. some (some x)) (sym e))
  place_of_settled (some r ∷ rs) a (inr h) = let (i, e) = place_of_settled rs a h in (suc i, e)

  pub settled_of_place :
      (rs : List (Option A)) (i : ℕ) (a : A) → get_elem? rs i ≡ some (some a) → In a (settled rs)
  settled_of_place [] i a h = cc
  settled_of_place (none ∷ rs) zero a h = cc
  settled_of_place (none ∷ rs) (suc i) a h = settled_of_place rs i a h
  settled_of_place (some r ∷ rs) zero a h = ground arith
  settled_of_place (some r ∷ rs) (suc i) a h = inr (settled_of_place rs i a h)

some_injective : {A : Type 0} (x y : A) → some x ≡ some y → x ≡ y
some_injective x y h = ground arith

module _ {C : Type 0} where
  pub DistinctIds-places :
      (list : List (Step C)) (i j : ℕ) (a b : Step C)
      → DistinctIds list
      → get_elem? list i ≡ some a
      → get_elem? list j ≡ some b
      → i ≢ j
      → a.id ≢ b.id
  DistinctIds-places [] i j a b d p q n = cc
  DistinctIds-places (s ∷ list) zero zero a b d p q n = absurd (n refl)
  DistinctIds-places (s ∷ list) zero (suc j) a b d p q n = λ e.
      d.0 b (In-get_elem? list j b q)
        (sym e ∙ sym (ap (λ (x : Step C). x.id) (some_injective s a p)))
  DistinctIds-places (s ∷ list) (suc i) zero a b d p q n = λ e.
      d.0 a (In-get_elem? list i a p) (e ∙ sym (ap (λ (x : Step C). x.id) (some_injective s b q)))
  DistinctIds-places (s ∷ list) (suc i) (suc j) a b d p q n =
      DistinctIds-places list i j a b d.1 p q (λ e. n (ap suc e))

  DistinctIds-filter :
      (p : Step C → Bool) (list : List (Step C)) → DistinctIds list → DistinctIds (filter p list)
  DistinctIds-filter p [] d = tt
  DistinctIds-filter p (s ∷ list) d = elim (Bool-cases (p s)) [
    | inl e ↦
        rw (e, filter) (λ a m. d.0 a ((In-filter p a list).0 m).0, DistinctIds-filter p list d.1)
    | inr e ↦ rw (e, filter) (DistinctIds-filter p list d.1)
  ]

  DistinctIds-values :
      (m : Map (Step C))
      → ((id : String) (a : Step C) → In (id, a) m → a.id ≡ id)
      → Distinct (keys m)
      → DistinctIds (values m)
  DistinctIds-values [] h d = tt
  DistinctIds-values ((id, s) ∷ m) h d = (
    λ a k e.
        let (j, e') = In-values a m k in
        d.0 (
          subst (λ x. In x (keys m)) (sym (h j a (inr e')) ∙ e ∙ h id s (inl refl))
            (key_of_entry j a m e')),
    DistinctIds-values m (λ j a k. h j a (inr k)) d.1,
  )

module _ {V C : Type 0} where
  In-map-inv :
      (ts : List (Task V C)) (a : Step C)
      → In a (map step_of ts)
      → (t : Task V C) × In t ts × (a ≡ t.step)
  In-map-inv [] a h = absurd h
  In-map-inv (t ∷ ts) a (inl e) = (t, inl refl, e)
  In-map-inv (t ∷ ts) a (inr h) = let (x, m, e) = In-map-inv ts a h in (x, inr m, e)

  -- The results of a pool over a list of distinct steps are of distinct steps.
  pub DistinctIds-settled :
      (list : List (Step C)) (rs : List (Option (Task V C)))
      → DistinctIds list
      → ((i : ℕ) (t : Task V C) → get_elem? rs i ≡ some (some t) → get_elem? list i ≡ some t.step)
      → DistinctIds (map step_of (settled rs))
  DistinctIds-settled list [] d h = tt
  DistinctIds-settled [] (none ∷ rs) d h = DistinctIds-settled [] rs d (λ i t e. h (suc i) t e)
  DistinctIds-settled (s ∷ list) (none ∷ rs) d h =
      DistinctIds-settled list rs d.1 (λ i t e. h (suc i) t e)
  DistinctIds-settled [] (some t ∷ rs) d h = absurd (none-some t.step (h 0 t refl))
    where
      none-some : (a : Step C) → none ≢ some a
      none-some a e = cc
  DistinctIds-settled (s ∷ list) (some t ∷ rs) d h = (
    λ a m e.
        let (x, k, q) = In-map-inv (settled rs) a m in
        let (i, at) = place_of_settled rs x k in
        d.0 x.step (In-get_elem? list i x.step (h (suc i) x at)) (
          ap (λ (y : Step C). y.id) (sym q)
          ∙ e
          ∙ ap (λ (y : Step C). y.id) (sym (some_injective s t.step (h 0 t refl)))),
    DistinctIds-settled list rs d.1 (λ i t e. h (suc i) t e),
  )

  -- What is runnable.
  pub record Chosen (steps : List (Step C)) (s : RunState V C) (a : Step C) : Type 0 where
    pub member : In a steps
    pub open_still : In a.id (keys s.pending_steps)
    pub ready : (x : String) → In x a.depends_on → In x s.successful

  pub runnable-Chosen :
      (steps : List (Step C)) (s : RunState V C) (a : Step C)
      → RunInv steps s
      → In a (runnable s)
      → Chosen steps s a
  runnable-Chosen steps s a v m =
      let (k, ok) = (In-filter (is_runnable s) a (values s.pending_steps)).0 m in
      let (id, e) = In-values a s.pending_steps k in
      let (same, member) = v.entries id a e in
      record {
        member = member;
        open_still =
            subst (λ x. In x (keys s.pending_steps)) (sym same)
              (key_of_entry id a s.pending_steps e);
        ready = λ x n.
            (has_iff x s.successful).0 ((all_iff (λ d. has d s.successful) a.depends_on).0 ok x n);
      }

  pub runnable-DistinctIds :
      (steps : List (Step C)) (s : RunState V C) → RunInv steps s → DistinctIds (runnable s)
  runnable-DistinctIds steps s v =
      DistinctIds-filter (is_runnable s) (values s.pending_steps)
        (DistinctIds-values s.pending_steps (λ id a h. (v.entries id a h).0) v.distinct)
