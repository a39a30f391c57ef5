-- ===== src/Plugins/Tests.antt =====
-- The hooks at concrete inputs.
use clawpod.Base.{String, none, some, List, [], ◌∷◌, if◌then◌else◌, ◌==◌, ◌≡◌, refl, ok}
use clawpod.Plugins.{HookResult, PluginManifest, Runs, run_transform_hooks}
use clawpod.Plugins.Hooks.{Answers, run_transform_hooks-Answers}

abbrev plugin : String → PluginManifest
plugin name = record { name = name; incoming = some name; outgoing = none; event = none }

-- The command `shout` prints, `broken` fails, and any other prints nothing.
abbrev run : Runs
run dir p command current =
    if command == "shout" then some " LOUD " else if command == "broken" then none else some "  "

abbrev plugins : List (String × PluginManifest)
plugins = ("a", plugin "shout") ∷ ("b", plugin "broken") ∷ ("c", plugin "quiet") ∷ []

last_word :
    run_transform_hooks (λ s. none) run (ok plugins) "incoming" "hello"
    ≡ ok (record { text = "LOUD"; metadata = [] })
unfolding run_transform_hooks
last_word = refl

run_transform_hooks-Answers_example :
    (last : HookResult) × (run_transform_hooks (λ s. none) run (ok plugins) "incoming" "hello"
      ≡ ok last)
    × Answers (λ s. none) run "incoming" plugins (record { text = "hello"; metadata = [] }) last
run_transform_hooks-Answers_example =
    run_transform_hooks-Answers (λ s. none) run "incoming" "hello" plugins
