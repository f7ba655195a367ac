-- ===== src/Validation/Safety.antt =====
-- src/utils/jobValidator.ts: what parameters are in which the validator finds no issue. What comes from
-- the input of a run cannot choose a shell command, an executable, a directory or the origin of a request.
use background_jobs.Prelude.{
  String, Bool, true, false, Option, none, some, List, [], ◌∷◌, Map, get, In, not, ◌&&◌, ◌≡◌, refl,
  sym, ap, subst, inl, inr, arith, Bool-cases, Option-cases, ◌==◌, String_discrete,
}
use background_jobs.Json.{
  Json, null, boolean, number, string, array, object, Fields, entries, record_of, is_present,
}
use background_jobs.Platform.{Platform}
use background_jobs.Registry.{Plugin}
use background_jobs.Validation.{
  FieldPath, ValidationIssue, unless, ◌◂◌, is_text, absent_or, is_boolean, required_string,
}
use background_jobs.Validation.Silence.{append_silent, unless_silent}
use background_jobs.Validation.Settings.{validate_retry_policy}
use background_jobs.Validation.Steps.{validate_workflow_shape}
use background_jobs.Validation.Definition.{validate_step_rest, validate_job_definition, valid}
use background_jobs.Validation.Sound.{object_inj}
use background_jobs.Validation.Walk.{SoundStep}
use background_jobs.Validation.Valid.{StepOf, sound_step, validate_job_definition-SoundJob}
use background_jobs.Validation.Parameters.{
  PluginValidator, each_entry, validate_literal, is_literal, validate_cwd, validate_variable,
  validate_environment, exactly_one, validate_command_parameters, validate_step_parameters,
  validate_typed, validate_by_type, validate_args, validate_timeout,
}

each_entry_silent :
    (f : String → Json → List ValidationIssue) (m : Map Json)
    → each_entry f m ≡ []
    → (k : String) (v : Json) → In (k, v) m
    → f k v ≡ []
each_entry_silent f [] h k v m = absurd m
each_entry_silent f ((j, w) ∷ rest) h k v (inl e) =
    subst (λ p. f p.0 p.1 ≡ []) (sym e) (append_silent (f j w) _ h).0
each_entry_silent f ((j, w) ∷ rest) h k v (inr m) =
    each_entry_silent f rest (append_silent (f j w) _ h).1 k v m

from_some : {v w : Json} → some v ≡ some w → v ≡ w
from_some {v} {w} e = ground arith

from_text : {v w : String} → string v ≡ string w → v ≡ w
from_text {v} {w} e = ground arith

module _ (js : Platform) where
  -- A text that is not blank and that no value of the run can change.
  pub record Fixed (v : Json) : Type 0 where
    pub text : String
    pub shape : v ≡ string text
    pub not_blank : (js.trim text == "") ≡ false
    pub no_template : js.has_template text ≡ false

  fixed : (v : Json) → is_text js (some v) ≡ true → is_literal js (some v) ≡ true → Fixed v
  fixed (string s) h l = record {
    text = s;
    shape = refl;
    not_blank = ground arith;
    no_template = ground arith;
  }
  fixed null h l = absurd (ground arith)
  fixed (boolean _) h l = absurd (ground arith)
  fixed (number _) h l = absurd (ground arith)
  fixed (array _) h l = absurd (ground arith)
  fixed (object _) h l = absurd (ground arith)

  literal_silent :
      (o : Option Json) (path : FieldPath) (missing dynamic : String)
      → validate_literal js o path missing dynamic ≡ []
      → (v : Json) → o ≡ some v
      → Fixed v
  literal_silent none path missing dynamic h v e = absurd (ground arith)
  literal_silent (some w) path missing dynamic h v e =
      let (a, b) = append_silent (required_string js (some w) path missing) _ h in
      subst Fixed (from_some e)
        (fixed w (unless_silent _ path missing a) (unless_silent _ path dynamic b))

  cwd_silent :
      (o : Option Json) (path : FieldPath)
      → validate_cwd js o path ≡ []
      → (v : Json) → o ≡ some v
      → Fixed v
  cwd_silent none path h v e = absurd (ground arith)
  cwd_silent (some w) path h v e = elim (Bool-cases (is_text js (some w))) [
    | inl t ↦
        let q : unless (is_literal js (some w)) path "DYNAMIC_WORKING_DIRECTORY" ≡ [] =
          ground arith in
        subst Fixed (from_some e) (fixed w t (unless_silent _ path "DYNAMIC_WORKING_DIRECTORY" q))
    | inr t ↦ absurd (ground arith)
  ]

  -- A value of an environment: a text with no template in it, unless it is a reference to a secret.
  pub record Variable (v : Json) : Type 0 where
    pub text : String
    pub shape : v ≡ string text
    pub secret_only : js.has_template text ≡ true → js.is_exact_secret text ≡ true

  Variable-silent :
      (path : FieldPath) (k : String) (v : Json) → validate_variable js path k v ≡ [] → Variable v
  Variable-silent path k (string s) h =
      let q =
        unless_silent (not (js.has_template s && not (js.is_exact_secret s))) (path ◂ k)
          "UNSAFE_ENV_TEMPLATE" h in
      record { text = s; shape = refl; secret_only = λ t. ground arith }
  Variable-silent path k null h = absurd (ground arith)
  Variable-silent path k (boolean _) h = absurd (ground arith)
  Variable-silent path k (number _) h = absurd (ground arith)
  Variable-silent path k (array _) h = absurd (ground arith)
  Variable-silent path k (object _) h = absurd (ground arith)

  abbrev pub Environment : Option Json → Type 0
  Environment o =
      (v : Json)
      → o ≡ some v
      → (m : Map Json) × (record_of (some v) ≡ some m)
        × ((k : String) (w : Json) → In (k, w) m → Variable w)

  Environment-silent :
      (o : Option Json) (path : FieldPath) → validate_environment js o path ≡ [] → Environment o
  unfolding validate_environment
  Environment-silent none path h v e = absurd (ground arith)
  Environment-silent (some (object fs)) path h v e =
      subst
        (λ w.
          (m : Map Json) × (record_of (some w) ≡ some m)
          × ((k : String) (u : Json) → In (k, u) m → Variable u))
        (from_some e)
        (
          entries fs,
          refl,
          λ k w i.
              Variable-silent path k w
                (each_entry_silent (validate_variable js path) (entries fs) h k w i),
        )
  Environment-silent (some null) path h v e = absurd (ground arith)
  Environment-silent (some (boolean _)) path h v e = absurd (ground arith)
  Environment-silent (some (number _)) path h v e = absurd (ground arith)
  Environment-silent (some (string _)) path h v e = absurd (ground arith)
  Environment-silent (some (array _)) path h v e = absurd (ground arith)

  pub record SafeCommand (params : Map Json) : Type 0 where
    pub one_mode : is_present (get "COMMAND" params) ≡ not (is_present (get "EXECUTABLE" params))
    pub command : (v : Json) → get "COMMAND" params ≡ some v → Fixed v
    pub executable : (v : Json) → get "EXECUTABLE" params ≡ some v → Fixed v
    pub directory : (v : Json) → get "CWD" params ≡ some v → Fixed v
    pub environment : Environment (get "ENV" params)

  one_of : (a b : Bool) → exactly_one js a b ≡ true → a ≡ not b
  one_of a b h = ground arith

  command_silent :
      (params : Map Json) (path : FieldPath)
      → validate_command_parameters js params path ≡ []
      → SafeCommand params
  unfolding validate_command_parameters
  command_silent params path h =
      let (a, r) =
        append_silent
          (unless
            (exactly_one js (is_present (get "COMMAND" params))
              (is_present (get "EXECUTABLE" params)))
            path "COMMAND_MODE_REQUIRED")
          _ h in
      let (b, r2) =
        append_silent
          (validate_literal js (get "COMMAND" params) (path ◂ "COMMAND") "COMMAND_REQUIRED"
            "DYNAMIC_SHELL_COMMAND")
          _ r in
      let (c, r3) =
        append_silent
          (validate_literal js (get "EXECUTABLE" params) (path ◂ "EXECUTABLE") "EXECUTABLE_REQUIRED"
            "DYNAMIC_EXECUTABLE")
          _ r2 in
      let (_, r4) = append_silent (validate_args (get "ARGS" params) (path ◂ "ARGS")) _ r3 in
      let (_, r5) = append_silent (validate_timeout params path) _ r4 in
      let (d, e) = append_silent (validate_cwd js (get "CWD" params) (path ◂ "CWD")) _ r5 in
      record {
        one_mode = one_of _ _ (unless_silent _ path "COMMAND_MODE_REQUIRED" a);
        command =
            literal_silent (get "COMMAND" params) (path ◂ "COMMAND") "COMMAND_REQUIRED"
              "DYNAMIC_SHELL_COMMAND" b;
        executable =
            literal_silent (get "EXECUTABLE" params) (path ◂ "EXECUTABLE") "EXECUTABLE_REQUIRED"
              "DYNAMIC_EXECUTABLE" c;
        directory = cwd_silent (get "CWD" params) (path ◂ "CWD") d;
        environment = Environment-silent (get "ENV" params) (path ◂ "ENV") e;
      }

module _ (js : Platform) (plugins : Map (Plugin (Option PluginValidator))) where
  -- The parameters of a step without an issue, for its type.
  pub record Parameters (step : Map Json) (type : String) : Type 0 where
    pub params : Map Json
    pub shape : record_of (get "STEP_PARAMS" step) ≡ some params
    pub place : FieldPath
    pub by_type : validate_by_type js type params place ≡ []

  typed_silent :
      (v : Option Json) (params : Map Json) (path : FieldPath) (text : String)
      → v ≡ some (string text)
      → validate_typed js plugins v params path ≡ []
      → validate_by_type js (js.upper (js.trim text)) params path ≡ []
  typed_silent none params path text e h = absurd (ground arith)
  typed_silent (some (string s)) params path text e h =
      let a = (append_silent (validate_by_type js (js.upper (js.trim s)) params path) _ h).0 in
      subst (λ t. validate_by_type js (js.upper (js.trim t)) params path ≡ [])
        (from_text (from_some e)) a
  typed_silent (some null) params path text e h = absurd (ground arith)
  typed_silent (some (boolean _)) params path text e h = absurd (ground arith)
  typed_silent (some (number _)) params path text e h = absurd (ground arith)
  typed_silent (some (array _)) params path text e h = absurd (ground arith)
  typed_silent (some (object _)) params path text e h = absurd (ground arith)

  pub Parameters-silent :
      (step : Map Json) (path : FieldPath) (text : String)
      → get "TYPE" step ≡ some (string text)
      → validate_step_parameters js plugins step path ≡ []
      → Parameters step (js.upper (js.trim text))
  unfolding validate_step_parameters
  Parameters-silent step path text e h = elim (Option-cases (record_of (get "STEP_PARAMS" step))) [
    | inl q ↦ absurd (ground arith)
    | inr (params, q) ↦
        let t : validate_typed js plugins (get "TYPE" step) params (path ◂ "STEP_PARAMS") ≡ [] =
          ground arith in
        record {
          params = params;
          shape = q;
          place = path ◂ "STEP_PARAMS";
          by_type = typed_silent (get "TYPE" step) params (path ◂ "STEP_PARAMS") text e t;
        }
  ]

  pub sound-Parameters :
      (step : Fields)
      → SoundStep js plugins (object step)
      → (text : String) → get "TYPE" (entries step) ≡ some (string text)
      → Parameters (entries step) (js.upper (js.trim text))
  sound-Parameters step sound text type =
      let same : entries sound.fields ≡ entries step = ap entries (object_inj (sym sound.shape)) in
      let path = sound.place in
      let fields = entries step in
      let h = subst (λ z. validate_step_rest js plugins z path ≡ []) same sound.rest in
      let (_, r) =
        append_silent
          (unless (absent_or is_boolean (get "FAIL_JOB_ON_FAILURE" fields))
            (path ◂ "FAIL_JOB_ON_FAILURE") "INVALID_FAIL_JOB_ON_FAILURE")
          _ h in
      let (_, r2) =
        append_silent
          (unless (absent_or is_boolean (get "REPLAY_SAFE" fields)) (path ◂ "REPLAY_SAFE")
            "INVALID_REPLAY_SAFE")
          _ r in
      let (_, r3) =
        append_silent (validate_retry_policy (get "RETRY" fields) (path ◂ "RETRY")) _ r2 in
      Parameters-silent fields path text type
        (append_silent (validate_workflow_shape js fields path) _ r3).1

  -- In a definition that validateJobDefinition accepts, a step of type COMMAND has exactly one of COMMAND
  -- and EXECUTABLE; that and CWD are texts, not blank and without a template; and the values of ENV are
  -- texts without a template, unless they refer to a secret as a whole. The condition: a text that was
  -- trimmed is not changed by trimming it again.
  pub command-SafeCommand :
      (trims : (s : String) → js.trim (js.trim s) ≡ js.trim s) (input job : Json) (step : Fields)
      (text : String)
      → validate_job_definition js plugins input ≡ valid job
      → StepOf job step
      → get "TYPE" (entries step) ≡ some (string text)
      → js.upper (js.trim text) ≡ "COMMAND"
      → (params : Map Json) × (record_of (get "STEP_PARAMS" (entries step)) ≡ some params)
        × SafeCommand js params
  unfolding String_discrete
  command-SafeCommand trims input job step text accepted here type is_command =
      let p =
        sound-Parameters step
          (sound_step js plugins job step
            (validate_job_definition-SoundJob js plugins trims input job accepted) here)
          text type in
      (
        p.params,
        p.shape,
        command_silent js p.params p.place
            (subst (λ t. validate_by_type js t p.params p.place ≡ []) is_command p.by_type),
      )
