-- ===== src/Json/Within.antt =====
-- The texts that stand in a JSON value, at any depth.
use background_jobs.Prelude.{String}
use background_jobs.Json.{Json, string, array, object, Items, cons, Fields, field}

mutual
  -- The text stands in the value, as itself, in an element, or in the value of a property.
  pub data Within (text : String) : Json → Type 0 where
    here : Within text (string text)
    item : {xs : Items} → WithinItems text xs → Within text (array xs)
    property : {fs : Fields} → WithinFields text fs → Within text (object fs)

  pub data WithinItems (text : String) : Items → Type 0 where
    first : {x : Json} {xs : Items} → Within text x → WithinItems text (cons x xs)
    later : {x : Json} {xs : Items} → WithinItems text xs → WithinItems text (cons x xs)

  pub data WithinFields (text : String) : Fields → Type 0 where
    first_field :
        {k : String} {v : Json} {fs : Fields} → Within text v → WithinFields text (field k v fs)
    later_field :
        {k : String} {v : Json} {fs : Fields}
        → WithinFields text fs
        → WithinFields text (field k v fs)
