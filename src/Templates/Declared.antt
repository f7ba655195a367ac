-- ===== src/Templates/Declared.antt =====
-- src/utils/contextResolver.ts: what is true of the templates of a value when it is resolved.
use background_jobs.Prelude.{
  String, true, Option, none, some, List, [], ◌∷◌, any, has, has_iff, has-false_iff, In, ◌||◌, ◌≡◌,
  ◌≢◌, ◌⊎◌, refl, sym, ap, subst, inl, inr, ⊎_elim, arith, Bool-cases, Option-cases, List-cases,
  ◌==◌,
}
use background_jobs.Json.{Json, Items, Fields}
use background_jobs.Json.Within.{
  Within, WithinItems, WithinFields, here, item, property, first, later, first_field, later_field,
}
use background_jobs.Platform.{Platform, Piece, literal, template}
use background_jobs.Workflow.{is_empty_list}
use background_jobs.Workflow.Conditions.{own_property, walk}
use background_jobs.Templates.{
  Templated, made, fails, then_with, forbidden_segments, runtime_roots, forbidden_in, may_use,
  walk_segments, resolve_segments, segments_of_path, resolve_context_path, resolve_piece,
  resolve_pieces, as_text, resolve_string, resolve_value, resolve_items, resolve_fields,
}

then_with-made :
    {A B : Type 0} (r : Templated A) (k : A → Templated B) (b : B)
    → then_with r k ≡ made b
    → (a : A) × (r ≡ made a) × (k a ≡ made b)
then_with-made (made a) k b h = (a, refl, h)
then_with-made (fails e) k b h = absurd (ground arith)

forbidden_in-none :
    (ss : List String) → forbidden_in ss ≡ none → (s : String) → In s ss → ¬ In s forbidden_segments
forbidden_in-none [] h s m = absurd m
forbidden_in-none (x ∷ ss) h s m = elim (Bool-cases (has x forbidden_segments)) [
  | inl e ↦ absurd (ground arith)
  | inr e ↦
      ⊎_elim
        (λ q.
          subst (λ z. ¬ In z forbidden_segments) (sym q) ((has-false_iff x forbidden_segments).0 e))
        (forbidden_in-none ss (ground arith) s) m
]

-- The paths that a text mentions.
abbrev pub templates_of : List Piece → List String
templates_of [] = []
templates_of (literal s ∷ ps) = templates_of ps
templates_of (template raw ∷ ps) = raw ∷ templates_of ps

abbrev pub paths_of : Platform → String → List String
paths_of js text = elim (js.exact_path text) [
  | some raw ↦ raw ∷ []
  | none ↦ templates_of (js.pieces text)
]

-- A template may begin with the root: no steps are declared, or it is one of the runtime's or of a
-- declared step.
abbrev pub MayUse : Option (List String) → String → Type 0
MayUse none root = Unit
MayUse (some ids) root =
    (root ≡ "input") ⊎ ((root ≡ "secrets") ⊎ ((root ≡ "item") ⊎ ((root ≡ "index") ⊎ In root ids)))

may_use-MayUse :
    (allowed : Option (List String)) (root : String)
    → may_use allowed root ≡ true
    → MayUse allowed root
may_use-MayUse none root h = tt
may_use-MayUse (some ids) root h = elim (Bool-cases (has root runtime_roots)) [
  | inl e ↦ by_root ((has_iff root runtime_roots).0 e)
  | inr e ↦ inr (inr (inr (inr ((has_iff root ids).0 (ground arith)))))
]
  where
    by_root : In root runtime_roots → MayUse (some ids) root
    by_root (inl e) = inl e
    by_root (inr (inl e)) = inr (inl e)
    by_root (inr (inr (inl e))) = inr (inr (inl e))
    by_root (inr (inr (inr (inl e)))) = inr (inr (inr (inl e)))
    by_root (inr (inr (inr (inr n)))) = absurd n

not_forbidden :
    (s : String)
    → (¬ In s forbidden_segments)
    → (s ≢ "__proto__") × (s ≢ "prototype") × (s ≢ "constructor")
not_forbidden s h = (λ e. h (inl e), λ e. h (inr (inl e)), λ e. h (inr (inr (inl e))))

module _ (js : Platform) (allowed : Option (List String)) (context : Json) where
  -- The path begins at a root that may be used, has no segment of a prototype, and leads to the value.
  pub record LeadsTo (raw : String) (v : Json) : Type 0 where
    pub root : String
    pub rest : List String
    pub shape : segments_of_path js allowed context raw ≡ root ∷ rest
    pub declared : MayUse allowed root
    pub safe :
        (s : String)
        → In s (root ∷ rest)
        → (s ≢ "__proto__") × (s ≢ "prototype") × (s ≢ "constructor")
    pub value : walk js (root ∷ rest) context ≡ some v

  walk_segments-walk :
      (raw : String) (ss : List String) (c v : Json)
      → walk_segments js allowed context raw ss c ≡ made v
      → walk js ss c ≡ some v
  unfolding walk_segments walk
  walk_segments-walk raw [] c v h = ground arith
  walk_segments-walk raw (s ∷ ss) c v h = elim (Option-cases (own_property js c s)) [
    | inl e ↦ absurd (ground arith)
    | inr (w, e) ↦ let q = walk_segments-walk raw ss w v (ground arith) in ground arith
  ]

  path_LeadsTo :
      (raw : String) (v : Json)
      → resolve_context_path js allowed context raw ≡ made v
      → LeadsTo raw v
  unfolding resolve_context_path
  path_LeadsTo raw v h =
      let segments = segments_of_path js allowed context raw in
      elim (Bool-cases (is_empty_list segments || any (λ s. s == "") segments)) [
        | inl e ↦ absurd (ground arith)
        | inr e ↦ elim (Option-cases (forbidden_in segments)) [
          | inr (s, q) ↦ absurd (ground arith)
          | inl q ↦ elim (List-cases segments) [
            | inl z ↦ absurd (ground arith)
            | inr (root, rest, z) ↦
                let g : resolve_segments js allowed context (js.trim raw) segments ≡ made v =
                  ground arith in
                let g2 =
                  subst (λ t. resolve_segments js allowed context (js.trim raw) t ≡ made v) z g in
                elim (Bool-cases (may_use allowed root)) [
                  | inr n ↦ absurd (ground arith)
                  | inl y ↦ record {
                    root = root;
                    rest = rest;
                    shape = z;
                    declared = may_use-MayUse allowed root y;
                    safe = λ s m.
                        not_forbidden s (forbidden_in-none segments q s (subst (In s) (sym z) m));
                    value = walk_segments-walk (js.trim raw) (root ∷ rest) context v (ground arith);
                  }
                ]
          ]
        ]
      ]

  abbrev pub Resolves : String → Type 0
  Resolves raw = (v : Json) × LeadsTo raw v

  pieces_Resolve :
      (ps : List Piece) (t : String)
      → resolve_pieces js allowed context ps ≡ made t
      → (raw : String) → In raw (templates_of ps)
      → Resolves raw
  unfolding resolve_pieces
  pieces_Resolve [] t h raw m = absurd m
  pieces_Resolve (literal s ∷ ps) t h raw m =
      let (u, a, b) = then_with-made (resolve_pieces js allowed context ps) _ t h in
      pieces_Resolve ps u a raw m
  pieces_Resolve (template x ∷ ps) t h raw m =
      let (u, a, b) = then_with-made (resolve_piece js allowed context (template x)) _ t h in
      let (w, c, d) = then_with-made (resolve_pieces js allowed context ps) _ t b in
      let (v, e, f) = then_with-made (resolve_context_path js allowed context x) _ u a in
      ⊎_elim (λ q. (v, subst (λ z. LeadsTo z v) (sym q) (path_LeadsTo x v e)))
        (pieces_Resolve ps w c raw) m

  text_Resolves :
      (text : String) (v : Json)
      → resolve_string js allowed context text ≡ made v
      → (raw : String) → In raw (paths_of js text)
      → Resolves raw
  unfolding resolve_string
  text_Resolves text v h raw m = elim (Option-cases (js.exact_path text)) [
    | inr (x, e) ↦
        let l : LeadsTo x v = path_LeadsTo x v (ground arith) in
        let q : raw ≡ x = ground arith in (v, subst (λ z. LeadsTo z v) (sym q) l)
    | inl e ↦
        let g : then_with (resolve_pieces js allowed context (js.pieces text))
              (as_text js allowed context)
            ≡ made v =
          ground arith in
        let (t, a, b) = then_with-made (resolve_pieces js allowed context (js.pieces text)) _ v g in
        pieces_Resolve (js.pieces text) t a raw (
          subst (In raw)
            (ap (λ o. elim o [ some x ↦ x ∷ [] | none ↦ templates_of (js.pieces text) ]) e) m)
  ]

  mutual
    unfolding resolve_value

    value_Resolves :
        {text : String} {v : Json}
        → Within text v
        → (w : Json) → resolve_value js allowed context v ≡ made w
        → (raw : String) → In raw (paths_of js text)
        → Resolves raw
    value_Resolves {text} here w h = text_Resolves text w h
    value_Resolves (item {xs} i) w h =
        let (ys, a, b) = then_with-made (resolve_items js allowed context xs) _ w h in
        items_Resolve i ys a
    value_Resolves (property {fs} i) w h =
        let (gs, a, b) = then_with-made (resolve_fields js allowed context fs) _ w h in
        fields_Resolve i gs a

    items_Resolve :
        {text : String} {xs : Items}
        → WithinItems text xs
        → (ys : Items) → resolve_items js allowed context xs ≡ made ys
        → (raw : String) → In raw (paths_of js text)
        → Resolves raw
    items_Resolve (first {x} {xs} i) ys h =
        let (y, a, b) = then_with-made (resolve_value js allowed context x) _ ys h in
        value_Resolves i y a
    items_Resolve (later {x} {xs} i) ys h =
        let (y, a, b) = then_with-made (resolve_value js allowed context x) _ ys h in
        let (zs, c, d) = then_with-made (resolve_items js allowed context xs) _ ys b in
        items_Resolve i zs c

    fields_Resolve :
        {text : String} {fs : Fields}
        → WithinFields text fs
        → (gs : Fields) → resolve_fields js allowed context fs ≡ made gs
        → (raw : String) → In raw (paths_of js text)
        → Resolves raw
    fields_Resolve (first_field {k} {v} {fs} i) gs h =
        let (w, a, b) = then_with-made (resolve_value js allowed context v) _ gs h in
        value_Resolves i w a
    fields_Resolve (later_field {k} {v} {fs} i) gs h =
        let (w, a, b) = then_with-made (resolve_value js allowed context v) _ gs h in
        let (hs, c, d) = then_with-made (resolve_fields js allowed context fs) _ gs b in
        fields_Resolve i hs c

  -- When the templates of a value are resolved, the path of each, at any depth, leads to a value of the
  -- context; where the steps that may be used are given it begins at one of them, or at input, secrets,
  -- item or index; and no segment is __proto__, prototype or constructor.
  pub resolve_value-Resolves :
      (v w : Json) (text raw : String)
      → resolve_value js allowed context v ≡ made w
      → Within text v
      → In raw (paths_of js text)
      → Resolves raw
  resolve_value-Resolves v w text raw h i m = value_Resolves i w h raw m
