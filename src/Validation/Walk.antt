-- ===== src/Validation/Walk.antt =====
-- The loop over the steps without an issue: each step is sound, and its ID and ORDER are new.
use background_jobs.Prelude.{
  ℕ, ◌+◌, ◌≤◌, String, Bool, true, false, Option, none, some, List, [], ◌∷◌, ◌++◌, Map, map, get,
  has, has-false_iff, add, not, In, In-append, Distinct, leb, ◌≡◌, refl, sym, ap, subst, ◌∙◌, inl,
  inr, ⊎_elim, arith, Bool-cases, ◌==◌, append_assoc, append-nil,
}
use background_jobs.Json.{
  Json, whole, negative, fractional, infinite, null, boolean, number, string, array, object, Fields,
  entries,
}
use background_jobs.Platform.{Platform}
use background_jobs.Registry.{Plugin}
use background_jobs.Runner.Pool.{has_ℕ}
use background_jobs.Runner.Pool.Places.{has_ℕ_iff}
use background_jobs.Validation.{FieldPath, unless, key, at, ◌◂◌, is_text}
use background_jobs.Validation.Silence.{append_silent, unless_silent}
use background_jobs.Validation.Steps.{reserved_context_roots}
use background_jobs.Validation.Parameters.{PluginValidator}
use background_jobs.Validation.Definition.{
  Met, validate_id, validate_order, validate_type, validate_step_rest, validate_raw_step,
  validate_steps,
}

module _ (js : Platform) where
  -- The trimmed ID of a step.
  abbrev pub text_id : Option Json → String
  text_id (some (string s)) = js.trim s
  text_id _ = ""

  abbrev pub step_id : Json → String
  step_id (object fs) = text_id (get "ID" (entries fs))
  step_id _ = ""

abbrev pub order_number : Option Json → ℕ
order_number (some (number (whole n))) = n
order_number _ = 0

abbrev pub step_order : Json → ℕ
step_order (object fs) = order_number (get "ORDER" (entries fs))
step_order _ = 0

module _ (js : Platform) (plugins : Map (Plugin (Option PluginValidator))) where
  pub record SoundStep (s : Json) : Type 0 where
    pub fields : Fields
    pub shape : s ≡ object fields
    pub id : String
    pub has_id : get "ID" (entries fields) ≡ some (string id)
    pub not_blank : (js.trim id == "") ≡ false
    pub no_dot : js.includes (js.trim id) "." ≡ false
    pub not_reserved : has (js.trim id) reserved_context_roots ≡ false
    pub order : ℕ
    pub has_order : get "ORDER" (entries fields) ≡ some (number (whole order))
    pub from_one : 1 ≤ order
    pub named : is_text js (get "NAME" (entries fields)) ≡ true
    pub typed :
        (path : FieldPath) × (validate_type js plugins (get "TYPE" (entries fields)) path ≡ [])
    pub place : FieldPath
    pub rest : validate_step_rest js plugins (entries fields) place ≡ []

  record NewId (ids : List String) (v : Option Json) (next : List String) : Type 0 where
    id : String
    shape : v ≡ some (string id)
    not_blank : (js.trim id == "") ≡ false
    no_dot : js.includes (js.trim id) "." ≡ false
    not_reserved : has (js.trim id) reserved_context_roots ≡ false
    is_new : has (js.trim id) ids ≡ false
    added : next ≡ ids ++ js.trim id ∷ []

  add_new : (id : String) (ids : List String) → has id ids ≡ false → add id ids ≡ ids ++ id ∷ []
  unfolding add
  add_new id ids h = ground arith

  not_silent : (b : Bool) → not b ≡ true → b ≡ false
  not_silent b h = ground arith

  id_silent :
      (ids : List String) (v : Option Json) (path : FieldPath)
      → (validate_id js plugins ids v path).0 ≡ []
      → NewId ids v (validate_id js plugins ids v path).1
  id_silent ids none path h = absurd (ground arith)
  id_silent ids (some null) path h = absurd (ground arith)
  id_silent ids (some (boolean b)) path h = absurd (ground arith)
  id_silent ids (some (number n)) path h = absurd (ground arith)
  id_silent ids (some (array xs)) path h = absurd (ground arith)
  id_silent ids (some (object fs)) path h = absurd (ground arith)
  id_silent ids (some (string s)) path h = elim (Bool-cases (js.trim s == "")) [
    | inl blank ↦ absurd (ground arith)
    | inr text ↦
        let parts : unless (not (js.includes (js.trim s) ".")) path "INVALID_STEP_ID"
              ++ (unless (not (has (js.trim s) reserved_context_roots)) path "RESERVED_STEP_ID"
                  ++ unless (not (has (js.trim s) ids)) path "DUPLICATE_STEP_ID")
            ≡ [] =
          ground arith in
        let (a, r) = append_silent _ _ parts in
        let (b, c) = append_silent _ _ r in
        let new = not_silent _ (unless_silent _ path "DUPLICATE_STEP_ID" c) in
        record {
          id = s;
          shape = refl;
          not_blank = text;
          no_dot = not_silent _ (unless_silent _ path "INVALID_STEP_ID" a);
          not_reserved = not_silent _ (unless_silent _ path "RESERVED_STEP_ID" b);
          is_new = new;
          added =
              (let q : (validate_id js plugins ids (some (string s)) path).1 ≡ add (js.trim s) ids =
                  ground arith in
                q ∙ add_new (js.trim s) ids new);
        }
  ]

  record NewOrder (orders : List ℕ) (v : Option Json) (next : List ℕ) : Type 0 where
    order : ℕ
    shape : v ≡ some (number (whole order))
    from_one : 1 ≤ order
    is_new : has_ℕ order orders ≡ false
    added : next ≡ orders ++ order ∷ []

  order_silent :
      (orders : List ℕ) (v : Option Json) (path : FieldPath)
      → (validate_order js plugins orders v path).0 ≡ []
      → NewOrder orders v (validate_order js plugins orders v path).1
  order_silent orders none path h = absurd (ground arith)
  order_silent orders (some null) path h = absurd (ground arith)
  order_silent orders (some (boolean b)) path h = absurd (ground arith)
  order_silent orders (some (string n)) path h = absurd (ground arith)
  order_silent orders (some (array xs)) path h = absurd (ground arith)
  order_silent orders (some (object fs)) path h = absurd (ground arith)
  order_silent orders (some (number (negative n))) path h = absurd (ground arith)
  order_silent orders (some (number (fractional b n))) path h = absurd (ground arith)
  order_silent orders (some (number (infinite n))) path h = absurd (ground arith)
  order_silent orders (some (number (whole n))) path h = elim (Bool-cases (leb 1 n)) [
    | inr low ↦ absurd (ground arith)
    | inl ok ↦ elim (Bool-cases (has_ℕ n orders)) [
      | inl old ↦ absurd (ground arith)
      | inr new ↦ record {
        order = n;
        shape = refl;
        from_one = ground arith;
        is_new = new;
        added = ground arith;
      }
    ]
  ]

  record Passed (met next : Met) (s : Json) : Type 0 where
    sound : SoundStep s
    new_id : ¬ In (step_id js s) met.ids
    new_order : ¬ In (step_order s) met.orders
    ids : next.ids ≡ met.ids ++ step_id js s ∷ []
    orders : next.orders ≡ met.orders ++ step_order s ∷ []

  step_silent :
      (met : Met) (i : ℕ) (s : Json)
      → (validate_raw_step js plugins met i s).0 ≡ []
      → Passed met (validate_raw_step js plugins met i s).1 s
  step_silent met i null h = absurd (ground arith)
  step_silent met i (boolean b) h = absurd (ground arith)
  step_silent met i (number b) h = absurd (ground arith)
  step_silent met i (string b) h = absurd (ground arith)
  step_silent met i (array b) h = absurd (ground arith)
  step_silent met i (object fs) h =
      let path : FieldPath = key "STEPS" ∷ at i ∷ [] in
      let (a, r) =
        append_silent (validate_id js plugins met.ids (get "ID" (entries fs)) (path ◂ "ID")).0 _
          h in
      let (b, r2) = append_silent _ _ r in
      let (c, r3) =
        append_silent (validate_type js plugins (get "TYPE" (entries fs)) (path ◂ "TYPE")) _ r2 in
      let (d, e) =
        append_silent
          (validate_order js plugins met.orders (get "ORDER" (entries fs)) (path ◂ "ORDER")).0 _
          r3 in
      let v = id_silent met.ids (get "ID" (entries fs)) (path ◂ "ID") a in
      let w = order_silent met.orders (get "ORDER" (entries fs)) (path ◂ "ORDER") d in
      let same_id : text_id js (get "ID" (entries fs)) ≡ js.trim v.id = ap (text_id js) v.shape in
      let same_order : order_number (get "ORDER" (entries fs)) ≡ w.order =
        ap order_number w.shape in
      record {
        sound = record {
          fields = fs;
          shape = refl;
          id = v.id;
          has_id = v.shape;
          not_blank = v.not_blank;
          no_dot = v.no_dot;
          not_reserved = v.not_reserved;
          order = w.order;
          has_order = w.shape;
          from_one = w.from_one;
          named = unless_silent _ (path ◂ "NAME") "STEP_NAME_REQUIRED" b;
          typed = (path ◂ "TYPE", c);
          place = path;
          rest = e;
        };
        new_id = λ m.
            (has-false_iff (js.trim v.id) met.ids).0 v.is_new (subst (λ x. In x met.ids) same_id m);
        new_order = λ m. ground (
          arith,
          (has_ℕ_iff w.order met.orders).1 (subst (λ x. In x met.orders) same_order m),
          w.is_new,
        );
        ids = v.added ∙ ap (λ x. met.ids ++ x ∷ []) (sym same_id);
        orders = w.added ∙ ap (λ x. met.orders ++ x ∷ []) (sym same_order);
      }

  abbrev step_ids : List Json → List String
  step_ids steps = map (step_id js) steps

  pub record Walked (met last : Met) (steps : List Json) : Type 0 where
    pub sound : (s : Json) → In s steps → SoundStep s
    pub ids : last.ids ≡ met.ids ++ map (step_id js) steps
    pub distinct_ids : Distinct (map (step_id js) steps)
    pub new_ids : (x : String) → In x (map (step_id js) steps) → ¬ In x met.ids
    pub distinct_orders : Distinct (map step_order steps)
    pub new_orders : (x : ℕ) → In x (map step_order steps) → ¬ In x met.orders

  pub steps_silent :
      (met : Met) (i : ℕ) (steps : List Json)
      → (validate_steps js plugins met i steps).0 ≡ []
      → Walked met (validate_steps js plugins met i steps).1 steps
  unfolding validate_steps
  steps_silent met i [] h = record {
    sound = λ s m. absurd m;
    ids = sym (append-nil met.ids);
    distinct_ids = tt;
    new_ids = λ x m. absurd m;
    distinct_orders = tt;
    new_orders = λ x m. absurd m;
  }
  steps_silent met i (s ∷ ss) h =
      let (a, r) = append_silent (validate_raw_step js plugins met i s).0 _ h in
      let p = step_silent met i s a in
      let w = steps_silent (validate_raw_step js plugins met i s).1 (i + 1) ss r in
      record {
        sound = λ x m. ⊎_elim (λ e. subst SoundStep (sym e) p.sound) (w.sound x) m;
        ids =
            w.ids
            ∙ ap (λ t. t ++ map (step_id js) ss) p.ids
            ∙ append_assoc met.ids (step_id js s ∷ []) (map (step_id js) ss);
        distinct_ids = (
          λ m.
              w.new_ids (step_id js s) m (
                subst (In (step_id js s)) (sym p.ids) ((In-append _ met.ids _).1 (inr (inl refl)))),
          w.distinct_ids,
        );
        new_ids = λ x m k.
            ⊎_elim (λ e. p.new_id (subst (λ y. In y met.ids) e k))
              (λ n. w.new_ids x n (subst (In x) (sym p.ids) ((In-append x met.ids _).1 (inl k)))) m;
        distinct_orders = (
          λ m. w.new_orders (step_order s) m (
              subst (In (step_order s)) (sym p.orders)
                ((In-append _ met.orders _).1 (inr (inl refl)))),
          w.distinct_orders,
        );
        new_orders = λ x m k.
            ⊎_elim (λ e. p.new_order (subst (λ y. In y met.orders) e k))
              (λ n.
                w.new_orders x n
                  (subst (In x) (sym p.orders) ((In-append x met.orders _).1 (inl k))))
              m;
      }
