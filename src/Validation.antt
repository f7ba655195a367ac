-- ===== src/Validation.antt =====
-- src/utils/jobValidator.ts: issues, and the tests that its parts share. The message of an issue goes
-- with its code and is left out; a validator returns the issues that it appends.
pub mod Normalize
pub mod Settings
pub mod Steps
pub mod Parameters
pub mod Definition
pub mod Silence
pub mod Nodes
pub mod Walk
pub mod Trimmed
pub mod Sound
pub mod Dependencies
pub mod Valid
pub mod Safety
pub mod Requests
pub mod Execution
pub mod Errors
use background_jobs.Prelude.{
  ℕ, suc, ◌+◌, String, Bool, true, false, Option, none, some, List, [], ◌∷◌, ◌++◌, Map, has, not,
  ◌&&◌, ◌||◌, all, leb, length, ◌==ℕ◌, if◌then◌else◌, ◌==◌,
}
use background_jobs.Json.{
  Json, Number, whole, negative, fractional, infinite, number, string, boolean, null, object,
  entries, string_of,
}
use background_jobs.Platform.{Platform}
use background_jobs.Registry.{codes, is_upper, is_digit, is_type_char}

-- `STEPS[2].ID` is `key "STEPS" ∷ at 2 ∷ key "ID" ∷ []`, and `$` is `[]`.
pub data Segment : Type 0 where
  key : String → Segment
  at : ℕ → Segment

abbrev pub FieldPath : Type 0
FieldPath = List Segment

pub record ValidationIssue : Type 0 where
  pub path : FieldPath
  pub code : String

-- addIssue, for a list of its own.
abbrev pub issue : FieldPath → String → List ValidationIssue
issue path code = record { path = path; code = code } ∷ []

infixl 66 ◌◂◌
abbrev pub ◌◂◌ : FieldPath → String → FieldPath
path ◂ k = path ++ key k ∷ []

-- An issue unless the test holds.
abbrev pub unless : Bool → FieldPath → String → List ValidationIssue
unless ok path code = if ok then [] else issue path code

-- `forEach((item, index) => …)`
abbrev pub for_each {ℓ} :
    {A : Type ℓ} → (ℕ → A → List ValidationIssue) → ℕ → List A → List ValidationIssue
for_each f i [] = []
for_each f i (x ∷ xs) = f i x ++ for_each f (i + 1) xs

-- `value === undefined || test(value)`
abbrev pub absent_or : (Json → Bool) → Option Json → Bool
absent_or test none = true
absent_or test (some v) = test v

abbrev pub is_boolean : Json → Bool
is_boolean (boolean _) = true
is_boolean _ = false

-- `Number.isInteger(value) && value >= low`
abbrev pub is_integer_from : ℕ → Json → Bool
is_integer_from low (number (whole n)) = leb low n
is_integer_from low _ = false

abbrev pub is_integer_within : ℕ → ℕ → Json → Bool
is_integer_within low high (number (whole n)) = leb low n && leb n high
is_integer_within low high _ = false

-- An integer between -100 and 100.
abbrev pub is_priority : Json → Bool
is_priority (number (whole n)) = leb n 100
is_priority (number (negative n)) = leb (n + 1) 100
is_priority _ = false

-- `Number.isFinite(value) && value >= 0`
abbrev pub is_delay : Json → Bool
is_delay (number (whole n)) = true
is_delay (number (fractional below _)) = not below
is_delay _ = false

abbrev pub is_one_of : List String → Json → Bool
is_one_of options (string s) = has s options
is_one_of options _ = false

-- isScalar
abbrev pub is_scalar : Json → Bool
is_scalar (string _) = true
is_scalar (number _) = true
is_scalar (boolean _) = true
is_scalar _ = false

-- isQueryPrimitive
abbrev pub is_query_primitive : Json → Bool
is_query_primitive null = true
is_query_primitive v = is_scalar v

-- SECRET_NAME, `/^[A-Z][A-Z0-9_]{1,63}$/u`
abbrev pub is_secret_text : List ℕ → Bool
is_secret_text [] = false
is_secret_text (c ∷ cs) =
    is_upper c && all is_type_char cs && leb 1 (length cs) && leb (length cs) 63

unfoldable pub is_secret_name : String → Bool
is_secret_name s = is_secret_text (codes s)

abbrev pub is_lower : ℕ → Bool
is_lower c = leb b'a' c && leb c b'z'

abbrev pub is_queue_char : ℕ → Bool
is_queue_char c = is_lower c || is_digit c || c ==ℕ b'_' || c ==ℕ b'-'

-- QUEUE_NAME, `/^[a-z][a-z0-9_-]{0,63}$/u`
abbrev pub is_queue_text : List ℕ → Bool
is_queue_text [] = false
is_queue_text (c ∷ cs) = is_lower c && all is_queue_char cs && leb (length cs) 63

unfoldable pub is_queue_name : String → Bool
is_queue_name s = is_queue_text (codes s)

module _ (js : Platform) where
  -- The value is a text that is not blank.
  abbrev pub is_text : Option Json → Bool
  is_text (some (string s)) = not (js.trim s == "")
  is_text _ = false

  -- validateRequiredString; its result is `is_text`.
  abbrev pub required_string : Option Json → FieldPath → String → List ValidationIssue
  required_string v path code = unless (is_text v) path code
