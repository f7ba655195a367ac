-- ===== src/Tests/Redactions.antt =====
-- A value with a secret in it.
use background_jobs.Prelude.{ℕ, String, [], ◌∷◌, Map, values, In, ◌≢◌, ◌↔◌, ◌==◌, if◌then◌else◌}
use background_jobs.Json.{Json, string, object, end, field}
use background_jobs.Json.Within.{Within}
use background_jobs.Redaction.{secret_values}
use background_jobs.Redaction.Values.{Descending, secret_values-Descending}

abbrev size : String → ℕ
size s = if s == "" then 0 else if s == "key" then 3 else 6

-- A text that is the secret is replaced.
abbrev replace : String → String → String
replace secret text = if text == secret then "[REDACTED]" else text

abbrev secrets : Map String
secrets = ("SHORT", "key") ∷ ("LONG", "secret") ∷ ("NONE", "") ∷ []

secret_values_example :
    ((x : String) → In x (secret_values size replace secrets) ↔ (In x (values secrets) × (x ≢ "")))
    × Descending size replace (secret_values size replace secrets)
secret_values_example = secret_values-Descending size replace secrets

abbrev output : Json
output = object (field "token" (string "key") end)
