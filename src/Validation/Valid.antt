-- ===== src/Validation/Valid.antt =====
-- validateJobDefinition of src/utils/jobValidator.ts as a whole: what a definition is that it accepts.
use background_jobs.Prelude.{
  String, Bool, true, Option, none, some, List, [], ◌∷◌, ◌++◌, Map, map, get, In, ◌≡◌, ◌≢◌, refl,
  sym, ap, subst, ◌∙◌, inl, inr, arith, Option-cases,
}
use background_jobs.Json.{
  Json, null, boolean, number, string, array, object, Fields, entries, of_entries, array_of,
  record_of, entries-of_entries,
}
use background_jobs.Platform.{Platform}
use background_jobs.Registry.{Plugin}
use background_jobs.Validation.{ValidationIssue}
use background_jobs.Validation.Silence.{append_silent}
use background_jobs.Validation.Parameters.{PluginValidator}
use background_jobs.Validation.Steps.{is_own_id}
use background_jobs.Validation.Normalize.{
  normalize_job_definition, normalize_job_fields, normalize_steps,
}
use background_jobs.Validation.Trimmed.{
  IsTrimmed, normalize_steps-IsTrimmed, normalize_job_fields-steps,
}
use background_jobs.Validation.Walk.{text_id, step_id, SoundStep}
use background_jobs.Validation.Sound.{
  object_inj, raw_id, Node, Needs, Listed, SoundSteps, steps_issues-SoundSteps,
}
use background_jobs.Validation.Dependencies.{DependsOnAll, DependsOnAll-irreflexive}
use background_jobs.Validation.Definition.{
  valid, result_of, settings_issues, steps_issues, validate_fields, validate_job_definition,
}

result_of-valid :
    (es : List ValidationIssue) (v job : Json) → result_of es v ≡ valid job → (es ≡ []) × (v ≡ job)
result_of-valid [] v job e = (refl, ground arith)
result_of-valid (x ∷ es) v job e = absurd (ground arith)

module _ (js : Platform) (plugins : Map (Plugin (Option PluginValidator))) where
  record Passes (m : Map Json) (v job : Json) : Type 0 where
    steps : List Json
    has_steps : array_of (get "STEPS" m) ≡ some steps
    some_step : steps ≢ []
    settings : settings_issues js plugins m ≡ []
    between : steps_issues js plugins steps ≡ []
    same : v ≡ job

  fields_valid :
      (m : Map Json) (v job : Json) → validate_fields js plugins m v ≡ valid job → Passes m v job
  fields_valid m v job h = elim (Option-cases (array_of (get "STEPS" m))) [
    | inl e ↦ absurd (ground arith)
    | inr ([], e) ↦ absurd (ground arith)
    | inr (s ∷ ss, e) ↦
        let q : result_of (settings_issues js plugins m ++ steps_issues js plugins (s ∷ ss)) v
            ≡ valid job =
          ground arith in
        let (silent, same) = result_of-valid _ v job q in
        let (a, b) =
          append_silent (settings_issues js plugins m) (steps_issues js plugins (s ∷ ss)) silent in
        record {
          steps = s ∷ ss;
          has_steps = e;
          some_step = λ z. ground arith;
          settings = a;
          between = b;
          same = same;
        }
  ]

  own_id :
      (v : Option Json) (id : String)
      → v ≡ some (string id)
      → js.trim id ≡ id
      → is_own_id v (text_id js v) ≡ true
  own_id v id e t = ground arith

  -- A step whose ID is trimmed does not depend on itself.
  own_dependency :
      (ids : List String) (s : Json) (h : SoundStep js plugins s) (n : Node js ids s)
      → IsTrimmed js (get "ID" (entries h.fields))
      → ¬ In (step_id js s) n.node.depends_on
  own_dependency ids s h n t m =
      let by_shape : (f : Json → Bool) → f s ≡ f (object h.fields) = λ f. ap f h.shape in
      let own : is_own_id (raw_id s) (step_id js s) ≡ true =
        by_shape (λ x. is_own_id (raw_id x) (step_id js x))
        ∙ own_id (get "ID" (entries h.fields)) h.id h.has_id (t h.id h.has_id) in
      ground (arith, own, n.other (step_id js s) m)

  -- A definition that the runner can take: what SoundSteps says of its steps; DEPENDS_ON of a step is
  -- absent or a list of texts, which are IDs of other steps; and no step depends on itself, directly or
  -- not.
  pub record SoundJob (job : Json) : Type 0 where
    pub fields : Fields
    pub shape : job ≡ object fields
    pub steps : List Json
    pub has_steps : array_of (get "STEPS" (entries fields)) ≡ some steps
    pub some_step : steps ≢ []
    pub settings : settings_issues js plugins (entries fields) ≡ []
    pub sound : SoundSteps js plugins steps
    pub listed : (s : Json) → In s steps → Listed s
    pub depends :
        (s : Json) (t : String)
        → In s steps
        → Needs s t
        → In (js.trim t) (map (step_id js) steps) × (js.trim t ≢ step_id js s)
    pub acyclic : (x : String) → ¬ DependsOnAll js steps x x

  normalized_steps :
      (o : Option (List Json)) (steps : List Json)
      → (elim o [ none ↦ none | some xs ↦ some (normalize_steps js 0 xs) ]) ≡ some steps
      → (xs : List Json) × (normalize_steps js 0 xs ≡ steps)
  normalized_steps none steps h = absurd (ground arith)
  normalized_steps (some xs) steps h = (xs, ground arith)

  module _ (trims : (s : String) → js.trim (js.trim s) ≡ js.trim s) where
    fields-IsTrimmed :
        (fs : Fields) (steps : List Json) (s : Json) (gs : Fields)
        → array_of (get "STEPS" (entries (of_entries (normalize_job_fields js (entries fs)))))
          ≡ some steps
        → In s steps
        → s ≡ object gs
        → IsTrimmed js (get "ID" (entries gs))
    fields-IsTrimmed fs steps s gs h m e =
        let m2 = normalize_job_fields js (entries fs) in
        let at_list : array_of (get "STEPS" m2) ≡ some steps =
          ap (λ z. array_of (get "STEPS" z)) (sym (entries-of_entries m2)) ∙ h in
        let (xs, q) =
          normalized_steps (array_of (get "STEPS" (entries fs))) steps
            (sym (normalize_job_fields-steps js (entries fs)) ∙ at_list) in
        normalize_steps-IsTrimmed js trims 0 xs s (entries gs) (subst (In s) (sym q) m)
          (ap (λ z. record_of (some z)) e)

    -- A definition that validateJobDefinition accepts has steps with distinct IDs and ORDERs; DEPENDS_ON
    -- of each is absent or a list of texts which, trimmed, are IDs of other steps; and no step depends
    -- on itself, directly or by way of others. The condition: a text that was trimmed is not changed by
    -- trimming it again.
    pub validate_job_definition-SoundJob :
        (input job : Json) → validate_job_definition js plugins input ≡ valid job → SoundJob job
    unfolding validate_job_definition normalize_job_definition normalize_job_fields
    validate_job_definition-SoundJob null job h = absurd (ground arith)
    validate_job_definition-SoundJob (boolean _) job h = absurd (ground arith)
    validate_job_definition-SoundJob (number _) job h = absurd (ground arith)
    validate_job_definition-SoundJob (string _) job h = absurd (ground arith)
    validate_job_definition-SoundJob (array _) job h = absurd (ground arith)
    validate_job_definition-SoundJob (object fs) job h =
        let fields = of_entries (normalize_job_fields js (entries fs)) in
        let p = fields_valid (entries fields) (object fields) job h in
        let sound = steps_issues-SoundSteps js plugins p.steps p.between in
        let other : (s : Json) (t : String) → In s p.steps → Needs s t → js.trim t ≢ step_id js s =
          λ s t m n q.
            let e = sound.each s m in
            let l = sound.linked s m in
            own_dependency (map (step_id js) p.steps) s e l
              (fields-IsTrimmed fs p.steps s e.fields p.has_steps m e.shape)
              (subst (λ z. In z l.node.depends_on) q (l.needed t n)) in
        record {
          fields = fields;
          shape = sym p.same;
          steps = p.steps;
          has_steps = p.has_steps;
          some_step = p.some_step;
          settings = p.settings;
          sound = sound;
          listed = λ s m. (sound.linked s m).listed;
          depends = λ s t m n.
              let l = sound.linked s m in (l.known_ids (js.trim t) (l.needed t n), other s t m n);
          acyclic = DependsOnAll-irreflexive js plugins p.steps sound other;
        }

-- `job.STEPS` has this object among its elements.
pub record StepOf (job : Json) (step : Fields) : Type 0 where
  pub fields : Fields
  pub of_job : job ≡ object fields
  pub steps : List Json
  pub has_steps : array_of (get "STEPS" (entries fields)) ≡ some steps
  pub place : In (object step) steps

steps_inj : {xs ys : List Json} → some xs ≡ some ys → xs ≡ ys
steps_inj {xs} {ys} e = ground arith

module _ (js : Platform) (plugins : Map (Plugin (Option PluginValidator))) where
  -- The step among those of SoundJob.
  pub sound_step :
      (job : Json) (step : Fields)
      → SoundJob js plugins job
      → StepOf job step
      → SoundStep js plugins (object step)
  sound_step job step j o =
      let same : o.fields ≡ j.fields = object_inj (sym o.of_job ∙ j.shape) in
      let lists : o.steps ≡ j.steps =
        steps_inj
          (sym o.has_steps ∙ ap (λ f. array_of (get "STEPS" (entries f))) same ∙ j.has_steps) in
      j.sound.each (object step) (subst (In (object step)) lists o.place)
