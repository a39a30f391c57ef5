-- ===== src/Routing/Handoffs.antt =====
-- crates/routing/src/lib.rs: whom `extract_teammate_mentions` may hand over to.
use clawpod.Base.{
  String, false, Option, some, List, [], ◌∷◌, Map, ◌≡◌, refl, ◌⊎◌, inl, inr, ◌≢◌, All,
}
use clawpod.Base.Maps
use clawpod.Domain.Core.{AgentConfig, TeamConfig, MentionHandoff}
use clawpod.Extern.{Captures, TextLib}
use clawpod.Routing.Mentions.{tagged_handoffs, team_mentions, extract_teammate_mentions}
use clawpod.Routing.Tagged.{
  IsHandoffTarget, Distinct, ids, valid, bare, tagged-IsHandoffTarget, bare-IsHandoffTarget,
  tagged-Distinct, bare-Distinct,
}

module _ (lib : TextLib) (current : String) (from_agent : Option String) (team : TeamConfig)
    (agents : Map AgentConfig) where
  abbrev tags_of : String → List Captures
  tags_of response = lib.captures_iter "\\[@(\\S+?):\\s*([\\s\\S]*?)\\]" response

  abbrev names_of : String → List Captures
  names_of response = lib.captures_iter "@(\\S+)" response

  abbrev mentions : String → List MentionHandoff
  mentions response = team_mentions lib current from_agent team agents response

  abbrev all_tagged : String → List MentionHandoff
  all_tagged response = tagged_handoffs lib current from_agent team agents [] (tags_of response)

  -- The tags decide unless none of them is handed to; then the bare lib current from_agent team agents mentions do.
  abbrev IsDecided : String → Type 0
  IsDecided response =
      ((all_tagged response ≢ []) × (mentions response ≡ all_tagged response))
      ⊎ ((all_tagged response ≡ [])
          × (mentions response
              ≡ bare lib current from_agent team agents response (names_of response)))

  team_mentions-IsDecided : (response : String) → IsDecided response
  unfolding team_mentions
  team_mentions-IsDecided response = go (all_tagged response) refl
    where
      go : (l : List MentionHandoff) → all_tagged response ≡ l → IsDecided response
      go [] e = inr (e, rw e)
      go (x ∷ l) e = inl (λ n. cc, rw e)

  abbrev IsInvalid : Captures → Type 0
  IsInvalid caps = valid lib current from_agent team agents caps ≡ false

module _ (lib : TextLib) (response current : String) (from_agent : Option String) (team_id : String)
    (team : TeamConfig) (teams : Map TeamConfig) (agents : Map AgentConfig)
    (found : Maps.get teams team_id ≡ some team) where
  abbrev handoffs : List MentionHandoff
  handoffs = extract_teammate_mentions lib response current from_agent team_id teams agents

  handoffs_lem : handoffs ≡ team_mentions lib current from_agent team agents response
  unfolding extract_teammate_mentions
  handoffs_lem = rw (found, extract_teammate_mentions)

  -- Every agent that a response is handed over to is a configured member of the team, and neither
  -- the agent that responds nor the one that it heard from.
  pub extract_teammate_mentions-IsHandoffTarget :
      All (IsHandoffTarget current from_agent team agents) (ids handoffs)
  extract_teammate_mentions-IsHandoffTarget =
      rw handoffs_lem (elim (team_mentions-IsDecided lib current from_agent team agents response) [
        | inl (_, e) ↦ rw e (tagged-IsHandoffTarget lib current from_agent team agents [] _)
        | inr (_, e) ↦ rw e (bare-IsHandoffTarget lib current from_agent team agents response _)
      ])

  -- No agent is handed to twice.
  pub extract_teammate_mentions-Distinct : Distinct (ids handoffs)
  extract_teammate_mentions-Distinct =
      rw handoffs_lem (elim (team_mentions-IsDecided lib current from_agent team agents response) [
        | inl (_, e) ↦ rw e (tagged-Distinct lib current from_agent team agents [] _)
        | inr (_, e) ↦ rw e (bare-Distinct lib current from_agent team agents response _)
      ])
