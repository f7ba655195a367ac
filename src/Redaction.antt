-- ===== src/Redaction.antt =====
-- src/security/redaction.ts: the values of managed secrets are taken out of texts and of JSON values.
pub mod Values
use background_jobs.Prelude.{
  ℕ, String, Bool, true, false, List, [], ◌∷◌, Map, add, values, filter, not, leb, if◌then◌else◌,
  ◌==◌,
}
use background_jobs.Json.{Json, string, array, object, Items, nil, cons, Fields, end, field}

-- `new Set(list)`, in the order of insertion.
unfoldable pub set_from : List String → List String → List String
set_from met [] = met
set_from met (x ∷ xs) = set_from (add x met) xs

-- `size` is the length of a text, `replace` is `text.split(secret).join(REDACTED)`.
module _ (size : String → ℕ) (replace : String → String → String) where
  -- `sort((first, second) => second.length - first.length)`, a stable sort.
  unfoldable pub insert_by_size : String → List String → List String
  insert_by_size x [] = x ∷ []
  insert_by_size x (y ∷ ys) =
      let rest = insert_by_size x ys in if leb (size y) (size x) then x ∷ y ∷ ys else y ∷ rest

  unfoldable pub sort_by_size : List String → List String
  sort_by_size [] = []
  sort_by_size (x ∷ xs) = insert_by_size x (sort_by_size xs)

  -- `values`
  unfoldable pub secret_values : Map String → List String
  unfolding sort_by_size insert_by_size set_from
  secret_values secrets = sort_by_size (set_from [] (filter (λ v. not (v == "")) (values secrets)))

  abbrev pub replace_all : List String → String → String
  replace_all [] text = text
  replace_all (s ∷ ss) text = replace_all ss (replace s text)

  -- redactManagedSecretText
  unfoldable pub redact_managed_secret_text : Map String → String → String
  unfolding secret_values
  redact_managed_secret_text secrets text = replace_all (secret_values secrets) text

  unfoldable mutual
    pub redact_value : List String → Json → Json
    redact_value sensitive (string s) = string (replace_all sensitive s)
    redact_value sensitive (array xs) = array (redact_items sensitive xs)
    redact_value sensitive (object fs) = object (redact_fields sensitive fs)
    redact_value sensitive v = v

    pub redact_items : List String → Items → Items
    redact_items sensitive nil = nil
    redact_items sensitive (cons x xs) = cons (redact_value sensitive x) (redact_items sensitive xs)

    pub redact_fields : List String → Fields → Fields
    redact_fields sensitive end = end
    redact_fields sensitive (field k v fs) =
        field k (redact_value sensitive v) (redact_fields sensitive fs)

  abbrev pub redact_with : List String → Json → Json
  redact_with [] v = v
  redact_with (s ∷ ss) v = redact_value (s ∷ ss) v

  -- redactManagedSecrets
  unfoldable pub redact_managed_secrets : Map String → Json → Json
  unfolding redact_value secret_values
  redact_managed_secrets secrets v = redact_with (secret_values secrets) v
