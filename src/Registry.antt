-- ===== src/Registry.antt =====
-- src/executors/ExecutorRegistry.ts: the table of executor plugins. `P` is what a plugin has besides
-- its type; that it has an `execute` function is a test given from outside.
pub mod Laws
use Prim.Native.Char.{code}
use Prim.Native.String.{String}
use background_jobs.Prelude.{
  ℕ, Bool, true, false, Option, none, some, List, [], ◌∷◌, Map, get, put, delete, keys, ◌&&◌, ◌||◌,
  all, leb, ◌==ℕ◌, if◌then◌else◌, ◌==◌,
}
use background_jobs.Platform.{Platform}

-- The code points of a text.
abbrev pub codes : String → List ℕ
codes String.[] = []
codes (String.◌∷◌ c s) = code c ∷ codes s

abbrev pub is_upper : ℕ → Bool
is_upper c = leb b'A' c && leb c b'Z'

abbrev pub is_digit : ℕ → Bool
is_digit c = leb b'0' c && leb c b'9'

-- `[A-Z0-9_]`
abbrev pub is_type_char : ℕ → Bool
is_type_char c = is_upper c || is_digit c || c ==ℕ b'_'

-- PLUGIN_TYPE, `/^[A-Z][A-Z0-9_]*$/u`
abbrev pub is_type_text : List ℕ → Bool
is_type_text [] = false
is_type_text (c ∷ cs) = is_upper c && all is_type_char cs

abbrev pub is_plugin_type : String → Bool
is_plugin_type s = is_type_text (codes s)

pub record Plugin (P : Type 0) : Type 0 where
  pub type : String
  pub rest : P

pub data PluginError : Type 0 where
  bad_type no_execute : PluginError
  already_registered : String → PluginError

pub data Registered (P : Type 0) : Type 0 where
  done : Map (Plugin P) → Registered P
  failed : PluginError → Registered P

-- normalizeType
abbrev pub normalize_type : Platform → String → String
normalize_type js type = js.upper (js.trim type)

module _ {P : Type 0} (js : Platform) (has_execute : P → Bool) where
  -- normalizePlugin, for a plugin that is an object with a text as its type.
  unfoldable pub normalize_plugin : Plugin P → Option PluginError
  normalize_plugin plugin =
      if is_plugin_type (normalize_type js plugin.type)
      then (if has_execute plugin.rest then none else some no_execute)
      else some bad_type

  unfoldable pub register : Plugin P → Map (Plugin P) → Registered P
  unfolding normalize_plugin
  register plugin plugins = elim (normalize_plugin plugin) [
    | some e ↦ failed e
    | none ↦
        let type = normalize_type js plugin.type in
        elim (get type plugins) [
          | some _ ↦ failed (already_registered type)
          | none ↦ done (put type (record plugin { type = type }) plugins)
        ]
  ]

module _ {P : Type 0} (js : Platform) where
  unfoldable pub get_plugin : String → Map (Plugin P) → Option (Plugin P)
  get_plugin type plugins = get (normalize_type js type) plugins

  unfoldable pub supports : String → Map (Plugin P) → Bool
  supports type plugins = elim (get (normalize_type js type) plugins) [
    | none ↦ false
    | some _ ↦ true
  ]

  abbrev pub get_supported_types : Map (Plugin P) → List String
  get_supported_types plugins = keys plugins

  -- What `register` returns: the plugin is taken out if the table still has it. `is_own` is the test for
  -- the object that was registered.
  unfoldable pub unregister : (Plugin P → Bool) → String → Map (Plugin P) → Map (Plugin P)
  unregister is_own type plugins = elim (get (normalize_type js type) plugins) [
    | none ↦ plugins
    | some p ↦ if is_own p then delete (normalize_type js type) plugins else plugins
  ]
