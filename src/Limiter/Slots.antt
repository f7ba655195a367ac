-- ===== src/Limiter/Slots.antt =====
-- The slots of the limiter: how many are taken, and to whom a slot that is released goes.
use background_jobs.Prelude.{
  ℕ, ◌+◌, ◌-◌, ◌≤◌, Bool, true, false, List, [], ◌∷◌, ◌++◌, map, any, ltb, length, length-append,
  AllIn, In, append_assoc, append-nil, ◌≡◌, ◌⊎◌, refl, sym, ap, subst, ◌∙◌, inl, inr, ⊎_elim, arith,
  Bool-cases, ◌==ℕ◌,
}
use background_jobs.Types.{Signal, is_fired, abort_error}
use background_jobs.Runner.Pool.{has_ℕ, remove}
use background_jobs.Runner.Pool.Places.{has_ℕ_iff, length-remove}
use background_jobs.Limiter.{
  Waiter, Limiter, idle, reject, acquire, hand_over, release, without, on_abort, Event, acquires,
  releases, aborts, handle_all,
}

-- The count is that of the holders and within the limit, and nobody waits while a slot is free.
pub record LimiterInv (limit : ℕ) (s : Limiter) : Type 0 where
  pub counted : s.active ≡ length s.holders
  pub bounded : s.active ≤ limit
  pub full : (s.waiters ≡ []) ⊎ (s.active ≡ limit)

acquire-LimiterInv :
    (limit owner signal : ℕ) (now : Signal) (s : Limiter)
    → LimiterInv limit s
    → LimiterInv limit (acquire limit owner signal now s)
unfolding acquire
acquire-LimiterInv limit owner signal now s v = elim (Bool-cases (is_fired now)) [
  | inl e ↦
      let q : acquire limit owner signal now s ≡ reject owner (abort_error now) s = ground arith in
      subst (LimiterInv limit) (sym q)
        (record { counted = v.counted; bounded = v.bounded; full = v.full })
  | inr e ↦ elim (Bool-cases (ltb s.active limit)) [
    | inl lt ↦
        let q : acquire limit owner signal now s
            ≡ record s { active = s.active + 1; holders = s.holders ++ owner ∷ [] } =
          ground arith in
        subst (LimiterInv limit) (sym q) (record {
          counted = omega (arith, v.counted, length-append s.holders (owner ∷ []));
          bounded = ground arith;
          full = ⊎_elim inl (λ f. absurd (ground arith)) v.full;
        })
    | inr ge ↦
        let q : acquire limit owner signal now s
            ≡ record s { waiters = s.waiters ++ record { owner = owner; signal = signal } ∷ [] } =
          ground arith in
        subst (LimiterInv limit) (sym q) (record {
          counted = v.counted;
          bounded = v.bounded;
          full = inr (ground (arith, v.bounded));
        })
  ]
]

-- The waiters in `passed`, whose signals have fired, were rejected; `rest` stands behind them.
pub record Passed (now : ℕ → Signal) (ws : List Waiter) (s t : Limiter) (passed rest : List Waiter)
    : Type 0 where
  pub queue : ws ≡ passed ++ rest
  pub gone : AllIn (λ w. is_fired (now w.signal) ≡ true) passed
  pub told : t.rejected ≡ s.rejected ++ map (λ w. (w.owner, abort_error (now w.signal))) passed

-- A slot goes to the first waiter whose signal is live; where there is none it is free.
abbrev pub Goes : (ℕ → Signal) → List Waiter → Limiter → Limiter → Type 0
Goes now ws s t =
    ((passed : List Waiter) × (w : Waiter) × (rest : List Waiter) × Passed now ws s t passed
        (w ∷ rest)
      × (is_fired (now w.signal) ≡ false)
      × (t.waiters ≡ rest)
      × (t.holders ≡ s.holders ++ w.owner ∷ [])
      × (t.active ≡ s.active))
    ⊎ (Passed now ws s t ws []
        × (t.waiters ≡ [])
        × (t.holders ≡ s.holders)
        × (t.active ≡ s.active - 1))

Passed-more :
    (now : ℕ → Signal) (w : Waiter) (ws : List Waiter) (s t : Limiter) (passed rest : List Waiter)
    → is_fired (now w.signal) ≡ true
    → Passed now ws (reject w.owner (abort_error (now w.signal)) s) t passed rest
    → Passed now (w ∷ ws) s t (w ∷ passed) rest
Passed-more now w ws s t passed rest e p = record {
  queue = ap (λ x. w ∷ x) p.queue;
  gone = (e, p.gone);
  told = p.told ∙ append_assoc s.rejected ((w.owner, abort_error (now w.signal)) ∷ []) _;
}

hand_over-Goes :
    (now : ℕ → Signal) (ws : List Waiter) (s : Limiter) → Goes now ws s (hand_over now ws s)
unfolding hand_over
hand_over-Goes now [] s =
    inr (record { queue = refl; gone = tt; told = sym (append-nil s.rejected) }, refl, refl, refl)
hand_over-Goes now (w ∷ ws) s = by_signal (is_fired (now w.signal)) refl (hand_over-Goes now ws _)
  where
    by_signal :
        (b : Bool)
        → is_fired (now w.signal) ≡ b
        → Goes now ws
            (reject w.owner (abort_error (now w.signal)) s)
            (hand_over now ws (reject w.owner (abort_error (now w.signal)) s))
        → Goes now (w ∷ ws) s (hand_over now (w ∷ ws) s)
    by_signal true e rest =
        let q : hand_over now (w ∷ ws) s
            ≡ hand_over now ws (reject w.owner (abort_error (now w.signal)) s) =
          ground arith in
        subst (Goes now (w ∷ ws) s) (sym q) (
          ⊎_elim
            (λ (passed, x, more, p, l, a, b, c).
              inl (w ∷ passed, x, more, Passed-more now w ws s _ passed (x ∷ more) e p, l, a, b, c))
            (λ (p, a, b, c). inr (Passed-more now w ws s _ ws [] e p, a, b, c)) rest)
    by_signal false e rest =
        let q : hand_over now (w ∷ ws) s
            ≡ record s { waiters = ws; holders = s.holders ++ w.owner ∷ [] } =
          ground arith in
        subst (Goes now (w ∷ ws) s) (sym q) (
          inl (
            [],
            w,
            ws,
            record { queue = refl; gone = tt; told = sym (append-nil s.rejected) },
            e,
            refl,
            refl,
            refl,
          ))

-- A release by a holder takes the slot from it and gives it to the first waiter, in the order of the
-- queue, whose signal is live; the waiters before that one are rejected with the errors of their
-- signals, and those behind it stay. With no such waiter all are rejected and the slot is free.
pub release-Goes :
    (owner : ℕ) (now : ℕ → Signal) (s : Limiter)
    → In owner s.holders
    → Goes now s.waiters (record s { holders = remove owner s.holders }) (release owner now s)
unfolding release
release-Goes owner now s m =
    let h = (has_ℕ_iff owner s.holders).1 m in
    let q : release owner now s
        ≡ hand_over now s.waiters (record s { holders = remove owner s.holders }) =
      ground arith in
    subst (Goes now s.waiters (record s { holders = remove owner s.holders })) (sym q)
      (hand_over-Goes now s.waiters (record s { holders = remove owner s.holders }))

release-idle :
    (owner : ℕ) (now : ℕ → Signal) (s : Limiter)
    → has_ℕ owner s.holders ≡ false
    → release owner now s ≡ s
unfolding release
release-idle owner now s h = ground arith

release-LimiterInv :
    (limit owner : ℕ) (now : ℕ → Signal) (s : Limiter)
    → LimiterInv limit s
    → LimiterInv limit (release owner now s)
release-LimiterInv limit owner now s v = elim (Bool-cases (has_ℕ owner s.holders)) [
  | inr h ↦ subst (LimiterInv limit) (sym (release-idle owner now s h)) v
  | inl h ↦
      let m = (has_ℕ_iff owner s.holders).0 h in
      let n = length-remove owner s.holders m in
      ⊎_elim
        (λ (passed, w, rest, p, l, a, b, c). record {
          counted =
              c
              ∙ v.counted
              ∙ sym (ap length b ∙ length-append (remove owner s.holders) (w.owner ∷ []) ∙ n);
          bounded = omega (arith, c, v.bounded);
          full = inr (c ∙ someone_waits passed w rest p.queue);
        })
        (λ (p, a, b, c). record {
          counted = omega (arith, c, v.counted, n, ap length b);
          bounded = omega (arith, c, v.bounded);
          full = inl a;
        })
        (release-Goes owner now s m)
]
  where
    someone_waits :
        (passed : List Waiter) (w : Waiter) (rest : List Waiter)
        → s.waiters ≡ passed ++ w ∷ rest
        → s.active ≡ limit
    someone_waits passed w rest q =
        ⊎_elim (λ e. absurd (omega (arith, ap length (sym e ∙ q), length-append passed (w ∷ rest))))
          (λ f. f) v.full

without_none : (owner : ℕ) → without owner [] ≡ []
unfolding without
without_none owner = refl

on_abort-LimiterInv :
    (limit owner : ℕ) (now : Signal) (s : Limiter)
    → LimiterInv limit s
    → LimiterInv limit (on_abort owner now s)
unfolding on_abort
on_abort-LimiterInv limit owner now s v =
    elim (Bool-cases (any (λ w. w.owner ==ℕ owner) s.waiters)) [
      | inl h ↦
          let q : on_abort owner now s
              ≡ reject owner (abort_error now) (record s { waiters = without owner s.waiters }) =
            ground arith in
          subst (LimiterInv limit) (sym q) (record {
            counted = v.counted;
            bounded = v.bounded;
            full = ⊎_elim (λ e. inl (ap (without owner) e ∙ without_none owner)) inr v.full;
          })
      | inr h ↦
          let q : on_abort owner now s ≡ s = ground arith in subst (LimiterInv limit) (sym q) v
    ]

handle_all-kept :
    (limit : ℕ) (events : List Event) (s : Limiter)
    → LimiterInv limit s
    → LimiterInv limit (handle_all limit events s)
unfolding handle_all
handle_all-kept limit [] s v = v
handle_all-kept limit (acquires owner signal now ∷ es) s v =
    handle_all-kept limit es _ (acquire-LimiterInv limit owner signal now s v)
handle_all-kept limit (releases owner now ∷ es) s v =
    handle_all-kept limit es _ (release-LimiterInv limit owner now s v)
handle_all-kept limit (aborts owner now ∷ es) s v =
    handle_all-kept limit es _ (on_abort-LimiterInv limit owner now s v)

-- After any sequence of calls, aborts included, the count is the number of holders, it is within the
-- limit, and nobody waits unless the limit is reached.
pub handle_all-LimiterInv :
    (limit : ℕ) (events : List Event) → LimiterInv limit (handle_all limit events idle)
handle_all-LimiterInv limit events =
    handle_all-kept limit events idle
      (record { counted = refl; bounded = omega arith; full = inl refl })
