-- ===== src/Json.antt =====
-- The JSON values that the program reads: the `unknown` values of src/utils and src/jobs. A missing
-- property is `none`. Numbers are told apart as far as the program looks at them.
pub mod Output
pub mod Within
use background_jobs.Prelude.{
  ℕ, String, Bool, true, false, Option, none, some, List, [], ◌∷◌, Map, ◌≡◌, refl, ap, get,
}

-- `negative n` is -(n + 1); `fractional` and `infinite` tell whether the number is below zero.
pub data Number : Type 0 where
  whole : ℕ → Number
  negative : ℕ → Number
  fractional : Bool → String → Number
  infinite : Bool → Number

mutual
  pub data Json : Type 0 where
    null : Json
    boolean : Bool → Json
    number : Number → Json
    string : String → Json
    array : Items → Json
    object : Fields → Json

  pub data Items : Type 0 where
    nil : Items
    cons : Json → Items → Items

  pub data Fields : Type 0 where
    end : Fields
    field : String → Json → Fields → Fields

abbrev pub elements : Items → List Json
elements nil = []
elements (cons x xs) = x ∷ elements xs

abbrev pub of_elements : List Json → Items
of_elements [] = nil
of_elements (x ∷ xs) = cons x (of_elements xs)

-- `Object.entries`
abbrev pub entries : Fields → Map Json
entries end = []
entries (field k v fs) = (k, v) ∷ entries fs

-- `Object.fromEntries`
abbrev pub of_entries : Map Json → Fields
of_entries [] = end
of_entries ((k, v) ∷ m) = field k v (of_entries m)

-- `isRecord(value)`, with the properties.
abbrev pub record_of : Option Json → Option (Map Json)
record_of (some (object fs)) = some (entries fs)
record_of _ = none

-- `Array.isArray(value)`, with the elements.
abbrev pub array_of : Option Json → Option (List Json)
array_of (some (array xs)) = some (elements xs)
array_of _ = none

-- `typeof value === 'string'`, with the text.
abbrev pub string_of : Option Json → Option String
string_of (some (string s)) = some s
string_of _ = none

-- `isRecord(value) ? value.key : undefined`
abbrev pub property : Option Json → String → Option Json
property v k = elim (record_of v) [ none ↦ none | some m ↦ get k m ]

abbrev pub is_present : {A : Type 0} → Option A → Bool
is_present none = false
is_present (some _) = true

pub elements-of_elements : (xs : List Json) → elements (of_elements xs) ≡ xs
elements-of_elements [] = refl
elements-of_elements (x ∷ xs) = ap (λ t. x ∷ t) (elements-of_elements xs)

pub entries-of_entries : (m : Map Json) → entries (of_entries m) ≡ m
entries-of_entries [] = refl
entries-of_entries ((k, v) ∷ m) = ap (λ t. (k, v) ∷ t) (entries-of_entries m)
