-- ===== src/Registry/Laws.antt =====
-- src/executors/ExecutorRegistry.ts: what a registration does to the table.
use background_jobs.Prelude.{
  String, Bool, true, false, none, some, [], ◌∷◌, Map, get, put, delete, get-put_self, get-put_ne,
  ◌≡◌, ◌≢◌, refl, sym, ap, subst, ◌∙◌, inl, inr, arith, Bool-cases, Option-cases, String_discrete,
}
use background_jobs.Platform.{Platform}
use background_jobs.Registry.{
  Plugin, bad_type, no_execute, already_registered, Registered, done, failed, is_plugin_type,
  normalize_type, normalize_plugin, register, get_plugin, supports, unregister,
}

delete-absent : {V : Type 0} (k : String) (m : Map V) → get k m ≡ none → delete k m ≡ m
unfolding get delete
delete-absent k [] h = refl
delete-absent k ((j, w) ∷ m) h = elim (String_discrete j k) [
  | yes e ↦ absurd (ground arith)
  | no n ↦
      let q : delete k ((j, w) ∷ m) ≡ (j, w) ∷ delete k m = ground arith in
      q ∙ ap (λ t. (j, w) ∷ t) (delete-absent k m (ground arith))
]

delete-put :
    {V : Type 0} (k : String) (v : V) (m : Map V) → get k m ≡ none → delete k (put k v m) ≡ m
unfolding get put delete
delete-put k v [] h = ground arith
delete-put k v ((j, w) ∷ m) h = elim (String_discrete j k) [
  | yes e ↦ absurd (ground arith)
  | no n ↦
      let q : delete k (put k v ((j, w) ∷ m)) ≡ (j, w) ∷ delete k (put k v m) = ground arith in
      q ∙ ap (λ t. (j, w) ∷ t) (delete-put k v m (ground arith))
]

module _ {P : Type 0} (js : Platform) (has_execute : P → Bool) (is_own : Plugin P → Bool) where
  -- What each result of a registration says.
  abbrev pub Registers : Plugin P → Map (Plugin P) → Registered P → Type 0
  Registers plugin table (done next) =
      (get_plugin js plugin.type next
        ≡ some (record plugin { type = normalize_type js plugin.type }))
      × ((other : String)
          → normalize_type js other ≢ normalize_type js plugin.type
          → get_plugin js other next ≡ get_plugin js other table)
      × (is_plugin_type (normalize_type js plugin.type) ≡ true)
      × (has_execute plugin.rest ≡ true)
      × (unregister js is_own plugin.type next ≡ table)
  Registers plugin table (failed (already_registered type)) =
      (type ≡ normalize_type js plugin.type) × (supports js plugin.type table ≡ true)
  Registers plugin table (failed bad_type) = is_plugin_type (normalize_type js plugin.type) ≡ false
  Registers plugin table (failed no_execute) = has_execute plugin.rest ≡ false

  -- A plugin that is registered is found under its type, which is well formed; the plugins of other types
  -- stay; and to unregister it gives the table as it was. A refusal names a fault that is there. The
  -- condition: the test for the object that was registered holds for it.
  pub register-Registers :
      (plugin : Plugin P) (table : Map (Plugin P))
      → is_own (record plugin { type = normalize_type js plugin.type }) ≡ true
      → Registers plugin table (register js has_execute plugin table)
  unfolding register normalize_plugin get_plugin supports unregister
  register-Registers plugin table own =
      elim (Bool-cases (is_plugin_type (normalize_type js plugin.type))) [
        | inr e ↦
            let q : register js has_execute plugin table ≡ failed bad_type = ground arith in
            subst (Registers plugin table) (sym q) e
        | inl e ↦ elim (Bool-cases (has_execute plugin.rest)) [
          | inr f ↦
              let q : register js has_execute plugin table ≡ failed no_execute = ground arith in
              subst (Registers plugin table) (sym q) f
          | inl f ↦
              let type = normalize_type js plugin.type in
              let held = record plugin { type = type } in
              elim (Option-cases (get type table)) [
                | inr (p, g) ↦
                    let q : register js has_execute plugin table
                        ≡ failed (already_registered type) =
                      ground arith in
                    subst (Registers plugin table) (sym q) (refl, ground arith)
                | inl g ↦
                    let q : register js has_execute plugin table ≡ done (put type held table) =
                      ground arith in
                    subst (Registers plugin table) (sym q) (
                      get-put_self type held table,
                      λ other n.
                          get-put_ne (normalize_type js other) type held table (λ z. n (sym z)),
                      e,
                      f,
                      ground (arith, get-put_self type held table, delete-put type held table g),
                    )
              ]
        ]
      ]
