-- ===== src/Graph/Cycle/Chains.antt =====
-- Paths of the graph as lists, and walks.
use background_jobs.Prelude.{
  String, none, some, List, [], ◌∷◌, ◌++◌, Map, In, ◌≡◌, ◌≢◌, refl, inl, inr, arith, Option-cases,
  append_assoc,
}
use background_jobs.Graph.{DependencyNode, Edge}
use background_jobs.Graph.Cycle.{from_last, cycle_from, drop_last}

pub drop_last-append : (p : List String) (a : String) → drop_last (p ++ a ∷ []) ≡ p
unfolding drop_last
drop_last-append [] a = refl
drop_last-append (x ∷ []) a = refl
drop_last-append (x ∷ y ∷ p) a = rw (drop_last-append (y ∷ p) a)

module _ (by_id : Map DependencyNode) where
  abbrev pub Linked : String → List String → Type 0
  Linked x [] = Unit
  Linked x (y ∷ ys) = Edge by_id x y

  -- Each entry of the list has an edge to the next one.
  abbrev pub Chain : List String → Type 0
  Chain [] = Unit
  Chain (x ∷ xs) = Linked x xs × Chain xs

  -- A closed path along edges, its first entry repeated at the end.
  abbrev pub IsCycle : List String → Type 0
  IsCycle c = (x : String) × (mid : List String) × (c ≡ x ∷ (mid ++ x ∷ [])) × Chain c

  -- Walks of one edge or more.
  pub data Walk : String → String → Type 0 where
    one : {x y : String} → Edge by_id x y → Walk x y
    more : {x y z : String} → Edge by_id x y → Walk y z → Walk x z

  pub Chain-append :
      (p : List String) (a b : String)
      → Chain (p ++ a ∷ [])
      → Edge by_id a b
      → Chain ((p ++ a ∷ []) ++ b ∷ [])
  Chain-append [] a b h e = (e, (tt, tt))
  Chain-append (x ∷ []) a b h e = (h.0, (e, (tt, tt)))
  Chain-append (x ∷ y ∷ p) a b h e = (h.0, Chain-append (y ∷ p) a b h.1 e)

  pub Chain-drop : (pre t : List String) → Chain (pre ++ t) → Chain t
  Chain-drop [] t h = h
  Chain-drop (x ∷ pre) t h = Chain-drop pre t h.1

  pub from_last_suffix :
      (d : String) (path t : List String)
      → from_last d path ≡ some t
      → (pre : List String) × (rest : List String) × (path ≡ pre ++ t) × (t ≡ d ∷ rest)
  unfolding from_last
  from_last_suffix d [] t h = cc
  from_last_suffix d (x ∷ xs) t h = elim (Option-cases (from_last d xs)) [
    | inl e ↦ ([], xs, ground arith, ground arith)
    | inr (u, e) ↦
        let (pre, rest, p, q) = from_last_suffix d xs u e in
        (x ∷ pre, rest, ground arith, ground arith)
  ]

  pub from_last-ne-none : (d : String) (path : List String) → In d path → from_last d path ≢ none
  unfolding from_last
  from_last-ne-none d [] m = absurd m
  from_last-ne-none d (x ∷ xs) (inl e) = ground arith
  from_last-ne-none d (x ∷ xs) (inr m) = ground (arith, from_last-ne-none d xs m)

  pub cycle_from-IsCycle :
      (d : String) (path : List String)
      → In d path
      → Chain (path ++ d ∷ [])
      → IsCycle (cycle_from d path)
  unfolding cycle_from
  cycle_from-IsCycle d path m h = elim (Option-cases (from_last d path)) [
    | inl e ↦ absurd (from_last-ne-none d path m e)
    | inr (t, e) ↦
        let (pre, rest, p, q) = from_last_suffix d path t e in
        (
          d,
          rest,
          ground arith,
          rw (e, cycle_from) (Chain-drop pre (t ++ d ∷ []) (rw (p, append_assoc) at h)),
        )
  ]

  pub Chain-init : (p : List String) (a : String) → Chain (p ++ a ∷ []) → Chain p
  Chain-init [] a h = tt
  Chain-init (x ∷ []) a h = (tt, tt)
  Chain-init (x ∷ y ∷ p) a h = (h.0, Chain-init (y ∷ p) a h.1)
