-- ===== src/Graph/Closure/Reach.antt =====
-- A closure holds exactly the ids that can be reached.
use background_jobs.Prelude.{
  ℕ, zero, suc, ◌≤◌, ◌<◌, String, not, Option, some, List, [], ◌∷◌, ◌++◌, has, has_iff,
  has-false_iff, length, length-filter-le, filter, In, In-append, ◌≡◌, ◌⊎◌, ◌↔◌, refl, subst, inl,
  inr, ⊎_elim, arith, Bool-cases,
}
use background_jobs.Graph.Closure.{visit, visit_each}

module _ (next : String → List String) where
  -- Walks of any length along `next`.
  pub data Reach : String → String → Type 0 where
    here : {x : String} → Reach x x
    step : {x y z : String} → In y (next x) → Reach y z → Reach x z

  -- The ids of a universe that are not in the closure yet: each descent takes one of them.
  abbrev pub missing : List String → List String → ℕ
  missing all closure = length (filter (λ k. not (has k closure)) all)

  -- What a call adds: reachable ids only, and all that they lead to (`skip` leaves out the ids whose
  -- own neighbours are still being visited).
  pub record Extends (from : String → Type 0) (c d : List String) : Type 0 where
    pub keeps : (x : String) → In x c → In x d
    pub only : (x : String) → In x d → In x c ⊎ ((y : String) × from y × Reach y x)
    pub hits : (x : String) → from x → In x d
    pub closed : (x y : String) → In x d → (¬ In x c) → In y (next x) → In y d

  module _ (all : List String) where
    abbrev pub Total : (String → Type 0) → List String → Option (List String) → Type 0
    Total from c r =
        (d : List String) × (r ≡ some d) × Extends from c d × (missing all d ≤ missing all c)

    missing-append-le : (x : String) (c ks : List String) → missing ks (c ++ x ∷ []) ≤ missing ks c
    missing-append-le x c [] = omega arith
    missing-append-le x c (k ∷ ks) = ground (
      arith,
      missing-append-le x c ks,
      has_iff k (c ++ x ∷ []),
      has_iff k c,
      In-append k c (x ∷ []),
    )

    missing-append-lt :
        (x : String) (c ks : List String)
        → In x ks
        → (¬ In x c)
        → missing ks (c ++ x ∷ []) < missing ks c
    missing-append-lt x c [] m h = absurd m
    missing-append-lt x c (k ∷ ks) m h = ground (
      arith,
      missing-append-le x c ks,
      missing-append-lt x c ks,
      has_iff k (c ++ x ∷ []),
      has_iff k c,
      In-append k c (x ∷ []),
    )

    Extends-done : (id : String) (c : List String) → In id c → Extends (λ y. y ≡ id) c c
    Extends-done id c m = record {
      keeps = λ x h. h;
      only = λ x h. inl h;
      hits = λ x e. rw e m;
      closed = λ x y h n. absurd (n h);
    }

    Extends-nil : (c : List String) → Extends (λ y. In y []) c c
    Extends-nil c = record {
      keeps = λ x h. h;
      only = λ x h. inl h;
      hits = λ x n. absurd n;
      closed = λ x y h n. absurd (n h);
    }

    In-cases : (x : String) (c : List String) → In x c ⊎ (¬ In x c)
    In-cases x c = elim (Bool-cases (has x c)) [
      | inl h ↦ inl ((has_iff x c).0 h)
      | inr h ↦ inr ((has-false_iff x c).0 h)
    ]

    Extends-cons :
        (d : String) (ds c c' c'' : List String)
        → Extends (λ y. y ≡ d) c c'
        → Extends (λ y. In y ds) c' c''
        → Extends (λ y. In y (d ∷ ds)) c c''
    Extends-cons d ds c c' c'' a b = record {
      keeps = λ x h. b.keeps x (a.keeps x h);
      only = λ x h.
          ⊎_elim (λ k. ⊎_elim inl (λ (y, e, r). inr (y, inl e, r)) (a.only x k))
            (λ (y, m, r). inr (y, inr m, r)) (b.only x h);
      hits = λ x m. ⊎_elim (λ e. b.keeps x (a.hits x e)) (b.hits x) m;
      closed = λ x y h n k.
          ⊎_elim (λ i. b.keeps y (a.closed x y i n k)) (λ i. b.closed x y h i k) (In-cases x c');
    }

    -- The call that adds `id` and goes on to its neighbours.
    Extends-visit :
        (id : String) (c d : List String)
        → (¬ In id c)
        → Extends (λ y. In y (next id)) (c ++ id ∷ []) d
        → Extends (λ y. y ≡ id) c d
    Extends-visit id c d new b = record {
      keeps = λ x h. b.keeps x ((In-append x c (id ∷ [])).1 (inl h));
      only = λ x h.
          ⊎_elim (λ k. ⊎_elim inl (λ m. inr (x, at_end m, here)) ((In-append x c (id ∷ [])).0 k))
            (λ (y, m, r). inr (id, refl, step m r)) (b.only x h);
      hits = λ x e. b.keeps x ((In-append x c (id ∷ [])).1 (inr (inl e)));
      closed = λ x y h n k.
          ⊎_elim
            (λ i. b.hits y (
              ⊎_elim (λ o. absurd (n o)) (λ m. subst (λ z. In y (next z)) (at_end m) k)
                ((In-append x c (id ∷ [])).0 i)))
            (λ i. b.closed x y h i k) (In-cases x (c ++ id ∷ []));
    }
      where
        at_end : {x : String} → In x (id ∷ []) → x ≡ id
        at_end m = ⊎_elim (λ e. e) (λ n. absurd n) m

    module _ (complete : (x y : String) → In x all → In y (next x) → In y all) where
      abbrev VisitOk : ℕ → (String → List String → Option (List String)) → Type 0
      VisitOk fuel visit_id =
          (id : String) (c : List String)
          → In id all
          → missing all c ≤ fuel
          → Total (λ y. y ≡ id) c (visit_id id c)

      visit_each-Total :
          (fuel : ℕ) (visit_id : String → List String → Option (List String))
          → VisitOk fuel visit_id
          → (ds c : List String) → ((d : String) → In d ds → In d all)
          → missing all c ≤ fuel
          → Total (λ y. In y ds) c (visit_each next visit_id ds c)
      unfolding visit_each
      visit_each-Total fuel visit_id ok [] c sub room = (c, refl, Extends-nil c, omega arith)
      visit_each-Total fuel visit_id ok (d ∷ ds) c sub room =
          let (c', e, a, l) = ok d c (sub d (inl refl)) room in
          let (c'', e', b, l') =
            visit_each-Total fuel visit_id ok ds c' (λ x m. sub x (inr m)) (omega arith) in
          (c'', ground arith, Extends-cons d ds c c' c'' a b, omega arith)

      visit_total : (fuel : ℕ) → VisitOk fuel (visit next fuel)
      unfolding visit
      visit_total zero id c m room = elim (In-cases id c) [
        | inl old ↦ (c, ground (arith, has_iff id c), Extends-done id c old, omega arith)
        | inr new ↦ absurd (omega (arith, missing-append-lt id c all m new))
      ]
      visit_total (suc fuel) id c m room = elim (In-cases id c) [
        | inl old ↦ (c, ground (arith, has_iff id c), Extends-done id c old, omega arith)
        | inr new ↦
            let less = missing-append-lt id c all m new in
            let (d, e, b, l) =
              visit_each-Total fuel (visit next fuel) (visit_total fuel) (next id) (c ++ id ∷ [])
                (λ x k. complete id x m k) (omega arith) in
            (d, ground (arith, has_iff id c), Extends-visit id c d new b, omega arith)
      ]

  -- From nothing, with as much fuel as there are ids: the result holds what can be reached.
  pub visit_reaches :
      (all : List String)
      → ((x y : String) → In x all → In y (next x) → In y all)
      → (id : String) → In id all
      → (c : List String) × (visit next (length all) id [] ≡ some c)
        × ((x : String) → In x c ↔ Reach id x)
  visit_reaches all complete id m =
      let (c, e, b, l) =
        visit_total all complete (length all) id [] m
          (length-filter-le (λ k. not (has k [])) all) in
      (
        c,
        e,
        λ x. (
          λ h. ⊎_elim (λ n. absurd n) (λ (y, q, r). subst (λ z. Reach z x) q r) (b.only x h),
          λ r. walk_in c b (b.hits id refl) r,
        ),
      )
    where
      walk_in :
          (c : List String)
          → Extends (λ y. y ≡ id) [] c
          → {x y : String} → In x c
          → Reach x y
          → In y c
      walk_in c b k here = k
      walk_in c b k (step i r) = walk_in c b (b.closed _ _ k (λ n. n) i) r
