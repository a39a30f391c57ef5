-- ===== src/Routing/Mentions.antt =====
-- crates/routing/src/lib.rs: the teammates that a response hands over to.
use clawpod.Base.{
  String, Bool, false, not, ◌&&◌, Option, none, some, List, [], ◌∷◌, Map, ◌==◌, if◌then◌else◌,
  unwrap_or, option_map, some_is, contains, is_empty,
}
use clawpod.Base.Maps
use clawpod.Base.Text
use clawpod.Domain.Core.{AgentConfig, TeamConfig, MentionHandoff}
use clawpod.Extern.{Captures, TextLib}

-- `is_valid_teammate`.
unfoldable pub is_valid_teammate :
    String → String → Option String → TeamConfig → Map AgentConfig → Bool
unfolding Maps.contains_key
is_valid_teammate mentioned_id current_agent_id from_agent team agents =
    if mentioned_id == current_agent_id
    then false
    else if some_is from_agent mentioned_id
    then false
    else contains team.agents mentioned_id && Maps.contains_key agents mentioned_id

-- The name in a match, in lower case.
abbrev pub mentioned : TextLib → Captures → String
mentioned lib caps = unwrap_or (option_map lib.to_lowercase caps.group_1) ""

module _ (lib : TextLib) (current_agent_id : String) (from_agent : Option String)
    (team : TeamConfig) (agents : Map AgentConfig) where
  -- The loop over the tags `[@agent: message]`; `seen` is the set of the agents handed to so far.
  unfoldable pub tagged_handoffs : List String → List Captures → List MentionHandoff
  unfolding Text.trim
  tagged_handoffs seen [] = []
  tagged_handoffs seen (caps ∷ more) =
      let id = mentioned lib caps in
      let skipped = tagged_handoffs seen more in
      let handed = tagged_handoffs (id ∷ seen) more in
      if not (is_valid_teammate id current_agent_id from_agent team agents)
      then skipped
      else if contains seen id
      then skipped
      else record { teammate_id = id; message = unwrap_or (option_map Text.trim caps.group_2) "" }
        ∷ handed

  -- The loop over the bare mentions `@agent`: the first valid one gets the whole response.
  unfoldable pub bare_handoff : String → List Captures → List MentionHandoff
  bare_handoff response [] = []
  bare_handoff response (caps ∷ more) =
      let rest = bare_handoff response more in
      if is_valid_teammate (mentioned lib caps) current_agent_id from_agent team agents
      then record { teammate_id = mentioned lib caps; message = response } ∷ []
      else rest

  -- The body of `extract_teammate_mentions`, once the team is found.
  unfoldable pub team_mentions : String → List MentionHandoff
  team_mentions response =
      let handoffs =
        tagged_handoffs [] (lib.captures_iter "\\[@(\\S+?):\\s*([\\s\\S]*?)\\]" response) in
      if not (is_empty handoffs)
      then handoffs
      else bare_handoff response (lib.captures_iter "@(\\S+)" response)

-- `extract_teammate_mentions`.
unfoldable pub extract_teammate_mentions :
    TextLib
    → String
    → String
    → Option String
    → String
    → Map TeamConfig
    → Map AgentConfig
    → List MentionHandoff
extract_teammate_mentions lib response current_agent_id from_agent team_id teams agents =
    elim (Maps.get teams team_id) [
      | none ↦ []
      | some team ↦ team_mentions lib current_agent_id from_agent team agents response
    ]
