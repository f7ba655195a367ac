-- ===== src/Validation/Sound.antt =====
-- Steps without an issue: src/utils/jobValidator.ts, the loop over the steps with what follows it.
use background_jobs.Prelude.{
  ℕ, String, false, Option, none, some, List, [], ◌∷◌, ◌++◌, Map, map, get, has-false_iff, In,
  In-append, Distinct, ◌⊎◌, ◌≡◌, refl, sym, ap, subst, ◌∙◌, inl, inr, ⊎_elim, arith, ◌==◌,
}
use background_jobs.Json.{
  Json, null, boolean, number, string, array, object, Fields, Items, end, entries, elements,
}
use background_jobs.Platform.{Platform}
use background_jobs.Graph.{DependencyNode, nodes_by_id}
use background_jobs.Graph.Cycle.{find_dependency_cycle, Answer, cycle, acyclic, exhausted}
use background_jobs.Graph.Cycle.Chains.{Walk}
use background_jobs.Graph.Cycle.Answers.{Says, find_dependency_cycle_correct}
use background_jobs.Registry.{Plugin}
use background_jobs.Validation.{FieldPath, key, at}
use background_jobs.Validation.Silence.{append_silent, for_each_silent}
use background_jobs.Validation.Parameters.{PluginValidator}
use background_jobs.Validation.Steps.{
  json_node, node_of, node_id, node_dependencies, dependency_ids, nodes_from,
  build_dependency_nodes, validate_depends_on, validate_step_dependencies, validate_dependencies,
  validate_workflow_references, is_own_id,
}
use background_jobs.Validation.Nodes.{id_of, dependency_list_silent, dependency_list_texts}
use background_jobs.Validation.Walk.{text_id, step_id, step_order, SoundStep, steps_silent}
use background_jobs.Validation.Definition.{Met, validate_steps, steps_issues, cycle_issues}

of_object : Json → Fields
of_object (object fs) = fs
of_object _ = end

pub object_inj : {fs gs : Fields} → object fs ≡ object gs → fs ≡ gs
unfolding of_object
object_inj e = ap of_object e

-- A text in the step's DEPENDS_ON.
abbrev pub Needs : Json → String → Type 0
Needs s t =
    (fs : Fields) × (ds : Items) × (s ≡ object fs)
    × (get "DEPENDS_ON" (entries fs) ≡ some (array ds))
    × In (string t) (elements ds)

-- A step has no DEPENDS_ON, or a list of texts.
abbrev pub Listed : Json → Type 0
Listed s =
    (fs : Fields) × (s ≡ object fs)
    × ((get "DEPENDS_ON" (entries fs) ≡ none)
        ⊎ ((ds : Items) × (get "DEPENDS_ON" (entries fs) ≡ some (array ds))
            × ((d : Json) → In d (elements ds) → (t : String) × (d ≡ string t))))

abbrev pub raw_id : Json → Option Json
raw_id (object fs) = get "ID" (entries fs)
raw_id _ = none

none-some : {v : Json} → none ≡ some v → ⊥
none-some e = cc

array_inj : {xs ys : Items} → some (array xs) ≡ some (array ys) → elements xs ≡ elements ys
array_inj {xs} {ys} e = ground arith

string_inj : {s t : String} → string s ≡ string t → s ≡ t
string_inj {s} {t} e = ground arith

module _ (js : Platform) where
  -- A step as a node of the graph.
  pub record Node (ids : List String) (s : Json) : Type 0 where
    pub node : DependencyNode
    pub of_step : json_node js s ≡ some node
    pub same_id : node.id ≡ step_id js s
    pub known_ids : (d : String) → In d node.depends_on → In d ids
    pub other : (d : String) → In d node.depends_on → is_own_id (raw_id s) d ≡ false
    pub needed : (t : String) → Needs s t → In (js.trim t) node.depends_on
    pub listed : Listed s

  record Dependencies (ids : List String) (own v : Option Json) : Type 0 where
    list : List String
    shape : node_dependencies js v ≡ some list
    known_ids : (d : String) → In d list → In d ids × (is_own_id own d ≡ false)
    texts :
        (v ≡ none)
        ⊎ ((ds : Items) × (v ≡ some (array ds))
            × ((d : Json)
                → In d (elements ds)
                → (t : String) × (d ≡ string t) × In (js.trim t) list))

  depends_on_silent :
      (ids : List String) (step : Map Json) (path : FieldPath) (v : Option Json)
      → validate_depends_on js ids step path v ≡ []
      → Dependencies ids (get "ID" step) v
  depends_on_silent ids step path none h = record {
    list = [];
    shape = refl;
    known_ids = λ d m. absurd m;
    texts = inl refl;
  }
  depends_on_silent ids step path (some (array xs)) h = record {
    list = dependency_ids js (elements xs);
    shape = refl;
    known_ids = dependency_list_silent js ids (get "ID" step) path 0 [] (elements xs) h;
    texts = inr (xs, refl, dependency_list_texts js ids (get "ID" step) path 0 [] (elements xs) h);
  }
  depends_on_silent ids step path (some null) h = absurd (ground arith)
  depends_on_silent ids step path (some (boolean _)) h = absurd (ground arith)
  depends_on_silent ids step path (some (number _)) h = absurd (ground arith)
  depends_on_silent ids step path (some (string _)) h = absurd (ground arith)
  depends_on_silent ids step path (some (object _)) h = absurd (ground arith)

  node_id_shape :
      (v : Option Json) (id : String)
      → v ≡ some (string id)
      → (js.trim id == "") ≡ false
      → node_id js v ≡ some (text_id js v)
  node_id_shape v id e h = ground arith

  node_of_parts :
      (step : Map Json) (id : String) (ds : List String)
      → node_id js (get "ID" step) ≡ some id
      → node_dependencies js (get "DEPENDS_ON" step) ≡ some ds
      → node_of js step ≡ some (record { id = id; depends_on = ds })
  node_of_parts step id ds e d = ground arith

module _ (js : Platform) (plugins : Map (Plugin (Option PluginValidator))) where
  step_Node :
      (ids : List String) (s : Json) (i : ℕ)
      → SoundStep js plugins s
      → validate_step_dependencies js ids i s ≡ []
      → Node js ids s
  step_Node ids (object fs) i h e =
      let same : entries fs ≡ entries h.fields = ap entries (object_inj h.shape) in
      let has_id : get "ID" (entries fs) ≡ some (string h.id) = ap (get "ID") same ∙ h.has_id in
      let d =
        depends_on_silent js ids (entries fs) (key "STEPS" ∷ at i ∷ key "DEPENDS_ON" ∷ [])
          (get "DEPENDS_ON" (entries fs)) e in
      let q = node_id_shape js (get "ID" (entries fs)) h.id has_id h.not_blank in
      record {
        node = record { id = text_id js (get "ID" (entries fs)); depends_on = d.list };
        of_step = node_of_parts js (entries fs) _ d.list q d.shape;
        same_id = refl;
        known_ids = λ x m. (d.known_ids x m).0;
        other = λ x m. (d.known_ids x m).1;
        needed = λ t (gs, ds, shape, has_ds, m).
            let at_own : get "DEPENDS_ON" (entries fs) ≡ some (array ds) =
              ap (λ z. get "DEPENDS_ON" (entries z)) (object_inj shape) ∙ has_ds in
            ⊎_elim (λ e. absurd (none-some (sym e ∙ at_own)))
              (λ (xs, e, f).
                let same : elements xs ≡ elements ds = array_inj (sym e ∙ at_own) in
                let (u, q, i) = f (string t) (subst (In (string t)) (sym same) m) in
                subst (λ z. In (js.trim z) d.list) (sym (string_inj q)) i)
              d.texts;
        listed = (
          fs,
          refl,
          ⊎_elim inl (λ (xs, e, f). inr (xs, e, λ x m. let (t, q, _) = f x m in (t, q))) d.texts,
        );
      }
  step_Node ids null i h e = absurd (ground (arith, h.shape))
  step_Node ids (boolean _) i h e = absurd (ground (arith, h.shape))
  step_Node ids (number _) i h e = absurd (ground (arith, h.shape))
  step_Node ids (string _) i h e = absurd (ground (arith, h.shape))
  step_Node ids (array _) i h e = absurd (ground (arith, h.shape))

  -- The nodes of all steps.
  build :
      (met : List String) (steps : List Json)
      → ((s : Json)
          → In s steps
          → (n : DependencyNode) × (json_node js s ≡ some n) × (n.id ≡ step_id js s))
      → Distinct (map (step_id js) steps)
      → ((x : String) → In x (map (step_id js) steps) → ¬ In x met)
      → (nodes : List DependencyNode) × (nodes_from js met steps ≡ some nodes)
        × (map id_of nodes ≡ map (step_id js) steps)
  unfolding nodes_from
  build met [] h d f = ([], refl, refl)
  build met (s ∷ ss) h d f =
      let (n, e, i) = h s (inl refl) in
      let fresh : ¬ In n.id met = λ m. f (step_id js s) (inl refl) (subst (λ x. In x met) i m) in
      let (ns, b, q) =
        build (met ++ n.id ∷ []) ss (λ t m. h t (inr m)) d.1
          (λ x m k.
            ⊎_elim (f x (inr m))
              (λ r.
                ⊎_elim (λ e2. d.0 (subst (λ y. In y (map (step_id js) ss)) (e2 ∙ i) m))
                  (λ z. absurd z) r)
              ((In-append x met (n.id ∷ [])).0 k)) in
      (
        n ∷ ns,
        ground (arith, (has-false_iff n.id met).1 fresh),
        ap (λ x. x ∷ map id_of ns) i ∙ ap (λ t. step_id js s ∷ t) q,
      )

  -- What the runner relies on: each step is sound and has its node, no ID or ORDER is there twice, the
  -- dependencies of a step are IDs of other steps, and no walk along them is closed.
  pub record SoundSteps (steps : List Json) : Type 0 where
    pub each : (s : Json) → In s steps → SoundStep js plugins s
    pub linked : (s : Json) → In s steps → Node js (map (step_id js) steps) s
    pub distinct_ids : Distinct (map (step_id js) steps)
    pub distinct_orders : Distinct (map step_order steps)
    pub nodes : List DependencyNode
    pub built : build_dependency_nodes js steps ≡ some nodes
    pub node_ids : map id_of nodes ≡ map (step_id js) steps
    pub no_cycle : (x : String) → ¬ Walk (nodes_by_id nodes) x x

  says_acyclic :
      (nodes : List DependencyNode) (a : Answer)
      → find_dependency_cycle nodes ≡ a
      → cycle_issues js plugins (some nodes) ≡ []
      → (x : String) → ¬ Walk (nodes_by_id nodes) x x
  says_acyclic nodes (cycle c) e h = absurd (ground arith)
  says_acyclic nodes acyclic e h = subst (Says nodes) e (find_dependency_cycle_correct nodes)
  says_acyclic nodes exhausted e h = absurd (ground arith)

  abbrev first : Met
  first = record { ids = []; orders = [] }

  -- Steps in which the validator finds no issue have distinct IDs and ORDERs, depend on IDs of other
  -- steps, and their graph has no closed walk.
  pub steps_issues-SoundSteps :
      (steps : List Json) → steps_issues js plugins steps ≡ [] → SoundSteps steps
  unfolding steps_issues validate_dependencies build_dependency_nodes
  steps_issues-SoundSteps steps h =
      let (a, r) = append_silent (validate_steps js plugins first 0 steps).0 _ h in
      let (b, r2) =
        append_silent
          (validate_dependencies js steps (validate_steps js plugins first 0 steps).1.ids) _ r in
      let (c, d) =
        append_silent
          (validate_workflow_references js steps (validate_steps js plugins first 0 steps).1.ids) _
          r2 in
      let w = steps_silent js plugins first 0 steps a in
      let linked : (s : Json) → In s steps → Node js (map (step_id js) steps) s = λ s m.
        let (j, q) =
          for_each_silent
            (validate_step_dependencies js (validate_steps js plugins first 0 steps).1.ids) 0 steps
            b s m in
        step_Node (map (step_id js) steps) s j (w.sound s m)
          (subst (λ ids. validate_step_dependencies js ids j s ≡ []) w.ids q) in
      let (nodes, built, node_ids) =
        build [] steps (λ s m. let n = linked s m in (n.node, n.of_step, n.same_id)) w.distinct_ids
          (λ x m k. k) in
      record {
        each = w.sound;
        linked = linked;
        distinct_ids = w.distinct_ids;
        distinct_orders = w.distinct_orders;
        nodes = nodes;
        built = built;
        node_ids = node_ids;
        no_cycle =
            says_acyclic nodes (find_dependency_cycle nodes) refl
              (subst (λ o. cycle_issues js plugins o ≡ []) built d);
      }
