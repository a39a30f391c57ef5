-- ===== src/Plugins.antt =====
-- crates/plugins/src/lib.rs: the hooks that may change a text on its way in or out. Running a command
-- is outside: `run` gives what the command of a plugin prints, none where it fails. A JSON object is read by
-- serde, which `read_json` stands for.
pub mod Hooks
mod Tests
use clawpod.Base.{
  String, Bool, Option, none, some, List, [], ◌∷◌, Map, ◌==◌, if◌then◌else◌, unwrap_or, Result, ok,
  err, panic,
}
use clawpod.Base.Text

pub record HookContext : Type 0 where
  pub channel : String
  pub sender : String
  pub sender_id : Option String
  pub message_id : String
  pub original_message : String
  pub agent_id : Option String

pub record HookResult : Type 0 where
  pub text : String
  pub metadata : Map String

pub record PluginManifest : Type 0 where
  pub name : String
  pub incoming : Option String
  pub outgoing : Option String
  pub event : Option String

-- What `run_command` looks up in a value that serde read: the text, and the entries of the metadata,
-- of which those that are no text count as none.
pub record HookOutput : Type 0 where
  pub text : Option String
  pub metadata : Option (Map (Option String))

-- The `filter_map` over the metadata.
unfoldable pub texts_of : Map (Option String) → Map String
texts_of [] = []
texts_of ((key, none) ∷ entries) = texts_of entries
texts_of ((key, some v) ∷ entries) = (key, v) ∷ texts_of entries

-- What `run_command` makes of the command's output.
unfoldable pub hook_result : (String → Option HookOutput) → String → Option HookResult
unfolding Text.trim texts_of
hook_result read_json stdout =
    let text = Text.trim stdout in
    if Text.is_empty text
    then none
    else some (elim (read_json text) [
      | none ↦ record { text = text; metadata = [] }
      | some output ↦ elim output.text [
        | none ↦ record { text = text; metadata = [] }
        | some t ↦ record { text = t; metadata = texts_of (unwrap_or output.metadata []) }
      ]
    ])

-- The command that a plugin has for a kind of hook.
unfoldable pub command_of : String → PluginManifest → Option String
command_of hook_kind plugin =
    if hook_kind == "incoming"
    then plugin.incoming
    else if hook_kind == "outgoing"
    then plugin.outgoing
    else none

-- The command's output from the plugin's folder, the plugin, the command and the value so far.
abbrev pub Runs : Type 0
Runs = String → PluginManifest → String → HookResult → Option String

module _ (read_json : String → Option HookOutput) (run : Runs) where
  -- One round of `run_transform_hooks`.
  unfoldable pub transform_step : String → String → PluginManifest → HookResult → HookResult
  unfolding command_of hook_result
  transform_step hook_kind dir plugin current = elim (command_of hook_kind plugin) [
    | none ↦ current
    | some command ↦ elim (run dir plugin command current) [
      | none ↦ current
      | some stdout ↦ unwrap_or (hook_result read_json stdout) current
    ]
  ]

  unfoldable pub transform_all : String → List (String × PluginManifest) → HookResult → HookResult
  unfolding transform_step
  transform_all hook_kind [] current = current
  transform_all hook_kind ((dir, plugin) ∷ plugins) current =
      transform_all hook_kind plugins (transform_step hook_kind dir plugin current)

  -- `run_transform_hooks`, with what `load_plugins` returns.
  unfoldable pub run_transform_hooks :
      Result (List (String × PluginManifest)) → String → String → Result HookResult
  unfolding transform_all
  run_transform_hooks (ok plugins) hook_kind text =
      ok (transform_all hook_kind plugins (record { text = text; metadata = [] }))
  run_transform_hooks (err e) hook_kind text = err e
  run_transform_hooks (panic e) hook_kind text = panic e
