-- ===== src/Platform.antt =====
-- What the program uses of the language and of libraries: operations on texts, regular expressions,
-- the parsers of URLs and of cron expressions, the table of time zones, and the compiler of schemas.
use background_jobs.Prelude.{ℕ, String, Bool, Option, List}
use background_jobs.Json.{Json, Number}

-- `protocol` and `hostname` of a URL that `new URL` accepts.
pub record Url : Type 0 where
  pub protocol : String
  pub hostname : String

-- What a comparison with 0 sees of a number, which may be none at all.
pub data Sign : Type 0 where
  below level above nan : Sign

-- A text as a global search of TEMPLATE_PATTERN takes it apart; `template` has the group.
pub data Piece : Type 0 where
  literal : String → Piece
  template : String → Piece

pub record Platform : Type 0 where
  pub trim : String → String
  pub upper : String → String
  pub lower : String → String
  pub includes : String → String → Bool
  -- `text.split('.')` and `text.split(/\s+/u)`
  pub split_dots : String → List String
  pub split_spaces : String → List String
  -- `texts.join(' ')`, and one text after another.
  pub join_spaces : List String → String
  pub concat : String → String → String
  -- `indexOf`, `slice(0, n)` and `slice(n)`
  pub index_of : String → String → Option ℕ
  pub slice_to : ℕ → String → String
  pub slice_from : ℕ → String → String
  -- `text.search(/[/?#]/u)`
  pub search_delimiter : String → Option ℕ
  -- CONTEXT_TEMPLATE, EXACT_SECRET_TEMPLATE, and the groups of SECRET_TEMPLATE in a text.
  pub has_template : String → Bool
  pub is_exact_secret : String → Bool
  pub secret_references : String → List String
  pub parse_url : String → Option Url
  pub knows_timezone : String → Bool
  pub parses_cron : String → String → Bool
  -- Whether a schema compiles at the call, and the places at which a value violates it.
  pub compiles : Json → Bool
  pub violations : Json → Json → List (List String)
  -- The sign of a difference, and that of `localeCompare`.
  pub difference : Number → Number → Sign
  pub locale_compare : String → String → Sign
  -- The index that a property name is of an array.
  pub array_index : String → Option ℕ
  -- EXACT_TEMPLATE_PATTERN and TEMPLATE_PATTERN of src/utils/contextResolver.ts, and `String(value)`.
  pub exact_path : String → Option String
  pub pieces : String → List Piece
  pub text_of : Json → String
  -- `JSON.stringify(value)`
  pub stringify : Json → String
