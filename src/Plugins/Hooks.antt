-- ===== src/Plugins/Hooks.antt =====
-- crates/plugins/src/lib.rs: a plugin that fails or says nothing changes nothing.
use clawpod.Base.{
  String, Option, none, some, List, [], ◌∷◌, ◌≡◌, refl, ap, arith, inl, inr, Option-cases, ok,
  and_then, unwrap_or,
}
use clawpod.Plugins.{
  HookResult, HookOutput, PluginManifest, Runs, hook_result, command_of, transform_step,
  transform_all, run_transform_hooks,
}

module _ (read_json : String → Option HookOutput) (run : Runs) where
  -- The result that a plugin offers for a value, if its command runs and prints something.
  abbrev offer : String → String → PluginManifest → HookResult → Option HookResult
  offer hook_kind dir plugin current =
      and_then (command_of hook_kind plugin)
        (λ command. and_then (run dir plugin command current) (hook_result read_json))

  -- The answers of the plugins in their order: each that answers replaces the value.
  pub data Answers (hook_kind : String)
      : List (String × PluginManifest) → HookResult → HookResult → Type 0 where
    done : {current : HookResult} → Answers hook_kind [] current current
    answers :
        {dir : String} {plugin : PluginManifest} {plugins : List (String × PluginManifest)}
        {current next last : HookResult}
        → offer hook_kind dir plugin current ≡ some next
        → Answers hook_kind plugins next last
        → Answers hook_kind ((dir, plugin) ∷ plugins) current last
    silent :
        {dir : String} {plugin : PluginManifest} {plugins : List (String × PluginManifest)}
        {current last : HookResult}
        → offer hook_kind dir plugin current ≡ none
        → Answers hook_kind plugins current last
        → Answers hook_kind ((dir, plugin) ∷ plugins) current last

  transform_step-offer :
      (hook_kind dir : String) (plugin : PluginManifest) (current : HookResult)
      → transform_step read_json run hook_kind dir plugin current
        ≡ unwrap_or (offer hook_kind dir plugin current) current
  unfolding transform_step
  transform_step-offer hook_kind dir plugin current = ground arith

  transform_all-cons :
      (hook_kind dir : String) (plugin : PluginManifest) (plugins : List (String × PluginManifest))
      (current : HookResult)
      → transform_all read_json run hook_kind ((dir, plugin) ∷ plugins) current
        ≡ transform_all read_json run hook_kind plugins
            (unwrap_or (offer hook_kind dir plugin current) current)
  unfolding transform_all
  transform_all-cons hook_kind dir plugin plugins current =
      ap (transform_all read_json run hook_kind plugins)
        (transform_step-offer hook_kind dir plugin current)

  transform_all-Answers :
      (hook_kind : String) (plugins : List (String × PluginManifest)) (current : HookResult)
      → Answers hook_kind plugins current (transform_all read_json run hook_kind plugins current)
  transform_all-Answers hook_kind [] current = unfold transform_all in Answers.done
  transform_all-Answers hook_kind ((dir, plugin) ∷ plugins) current =
      rw (transform_all-cons hook_kind dir plugin plugins current)
        (elim (Option-cases (offer hook_kind dir plugin current)) [
          | inl quiet ↦
              rw quiet (Answers.silent quiet (transform_all-Answers hook_kind plugins current))
          | inr (next, says) ↦
              rw says (Answers.answers says (transform_all-Answers hook_kind plugins next))
        ])

  -- Where the plugins can be read, the hooks end with a result: each plugin in its turn that has a
  -- command of the kind, runs and prints something replaces the text and all of the metadata, and one
  -- that fails or is silent leaves both as they are.
  pub run_transform_hooks-Answers :
      (hook_kind text : String) (plugins : List (String × PluginManifest))
      → (last : HookResult) × (run_transform_hooks read_json run (ok plugins) hook_kind text
          ≡ ok last)
        × Answers hook_kind plugins (record { text = text; metadata = [] }) last
  unfolding run_transform_hooks
  run_transform_hooks-Answers hook_kind text plugins =
      (_, refl, transform_all-Answers hook_kind plugins (record { text = text; metadata = [] }))
