-- ===== src/Validation/Execution.antt =====
-- The settings on execution of a definition in which the validator finds no issue: the checks of
-- src/utils/jobValidator.ts before and at them.
use background_jobs.Prelude.{Option, [], ◌∷◌, Map, get, ◌≡◌}
use background_jobs.Json.{Json}
use background_jobs.Platform.{Platform}
use background_jobs.Registry.{Plugin}
use background_jobs.Validation.{key, required_string}
use background_jobs.Validation.Silence.{append_silent}
use background_jobs.Validation.Parameters.{PluginValidator}
use background_jobs.Validation.Settings.{
  validate_job_status, validate_schedule, validate_execution_settings,
}
use background_jobs.Validation.Definition.{forbid, settings_issues}

module _ (js : Platform) (plugins : Map (Plugin (Option PluginValidator))) where
  pub settings_silent :
      (job : Map Json)
      → settings_issues js plugins job ≡ []
      → validate_execution_settings js job ≡ []
  unfolding settings_issues
  settings_silent job h =
      let (_, r) =
        append_silent (required_string js (get "id" job) (key "id" ∷ []) "JOB_ID_REQUIRED") _ h in
      let (_, r2) =
        append_silent (required_string js (get "name" job) (key "name" ∷ []) "JOB_NAME_REQUIRED") _
          r in
      let (_, r3) = append_silent (forbid "last_run" job) _ r2 in
      let (_, r4) = append_silent (forbid "next_run" job) _ r3 in
      let (_, r5) = append_silent (forbid "version" job) _ r4 in
      let (_, r6) = append_silent (validate_job_status (get "status" job)) _ r5 in
      let (_, r7) =
        append_silent (validate_schedule js (get "schedule" job) (get "timezone" job)) _ r6 in
      (append_silent (validate_execution_settings js job) _ r7).0
