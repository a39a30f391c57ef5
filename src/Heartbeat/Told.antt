-- ===== src/Heartbeat/Told.antt =====
-- crates/heartbeat/src/lib.rs: whom a delivery reaches.
use mathlib.Core.Path.{subst}
use mathlib.Core.List.{Memᴰ}
use clawpod.Base.Maps
use clawpod.Base.{
  ◌∙◌, ap, List, ◌∷◌, ◌==◌, eq_iff, String, true, Option, none, some, [], Map, ◌≢◌, ◌≡◌, refl, ◌↔◌,
  Bool-cases, inl, inr,
}
use clawpod.Domain.Core.{AgentConfig, TeamConfig}
use clawpod.Heartbeat.Delivery.{DeliveryKind, outbound, chatroom}
use clawpod.Heartbeat.Outcome.{
  tell_team, tell_teammates, Action, enqueue_outgoing, record_chatroom, enqueue_chatroom,
}

-- The agent is a configured member of the team, other than the one who speaks.
abbrev pub IsTeammate : Map AgentConfig → Option TeamConfig → String → String → Type 0
IsTeammate agents none agent_id mate = ⊥
IsTeammate agents (some team) agent_id mate =
    Memᴰ mate team.agents × (mate ≢ agent_id) × (Maps.contains_key agents mate ≡ true)

-- What a delivery of a text asks for.
unfoldable pub IsDelivered :
    Map AgentConfig → Map TeamConfig → String → String → DeliveryKind → List Action → Type 0
IsDelivered agents teams agent_id text (outbound d) actions = actions ≡ enqueue_outgoing d text ∷ []
IsDelivered agents teams agent_id text (chatroom team_id) actions =
    (told : List Action) × (actions ≡ record_chatroom team_id text ∷ told)
    × ((action : Action)
        → Memᴰ action told ↔ (
            (mate : String) × (action ≡ enqueue_chatroom team_id mate text)
            × IsTeammate agents (Maps.get teams team_id) agent_id mate))

module _ (agents : Map AgentConfig) (team_id agent_id text : String) where
  IsTold : List String → Action → Type 0
  IsTold members action =
      (mate : String) × (action ≡ enqueue_chatroom team_id mate text)
      × (Memᴰ mate members × (mate ≢ agent_id) × (Maps.contains_key agents mate ≡ true))

  later-IsTold :
      (m : String) (members : List String) (action : Action)
      → IsTold members action
      → IsTold (m ∷ members) action
  unfolding IsTold
  later-IsTold m members action (mate, is, (listed, other, known)) =
      (mate, is, (Memᴰ.tail listed, other, known))

  -- A member who is told first.
  tells :
      (m : String) (members : List String) (action : Action)
      → Memᴰ action (tell_teammates agents team_id agent_id text members) ↔ IsTold members action
      → m ≢ agent_id
      → Maps.contains_key agents m ≡ true
      → Memᴰ action
          (enqueue_chatroom team_id m text ∷ tell_teammates agents team_id agent_id text members)
        ↔ IsTold (m ∷ members) action
  unfolding IsTold
  tells m members action ih other known = (there, back)
    where
      there :
          Memᴰ action
            (enqueue_chatroom team_id m text ∷ tell_teammates agents team_id agent_id text members)
          → IsTold (m ∷ members) action
      there (Memᴰ.head is) = (m, is, (Memᴰ.head refl, other, known))
      there (Memᴰ.tail h) = later-IsTold m members action (ih.0 h)

      back :
          IsTold (m ∷ members) action
          → Memᴰ action (
              enqueue_chatroom team_id m text ∷ tell_teammates agents team_id agent_id text members)
      back (mate, is, (Memᴰ.head same, _, _)) =
          Memᴰ.head (is ∙ ap (λ a. enqueue_chatroom team_id a text) same)
      back (mate, is, (Memᴰ.tail listed, elsewhere, there)) =
          Memᴰ.tail (ih.1 (mate, is, (listed, elsewhere, there)))

  -- A member who is not to be told is not among those told.
  not-IsTold :
      (m : String) (members : List String) (action : Action)
      → ((mate : String)
          → mate ≡ m
          → mate ≢ agent_id
          → Maps.contains_key agents mate ≡ true
          → IsTold members action)
      → IsTold (m ∷ members) action
      → IsTold members action
  unfolding IsTold
  not-IsTold m members action never (mate, is, (Memᴰ.head same, other, known)) =
      never mate same other known
  not-IsTold m members action never (mate, is, (Memᴰ.tail listed, other, known)) =
      (mate, is, (listed, other, known))

  tell_teammates-tells :
      (members : List String) (action : Action)
      → Memᴰ action (tell_teammates agents team_id agent_id text members) ↔ IsTold members action
  unfolding tell_teammates IsTold
  tell_teammates-tells [] action = (λ h. elim h [ ], λ (mate, is, (listed, _, _)). elim listed [ ])
  tell_teammates-tells (m ∷ members) action =
      let ih = tell_teammates-tells members action in
      elim (Bool-cases (m == agent_id)) [
        | inl same ↦
            let itself : m ≡ agent_id = (eq_iff m agent_id).0 same in
            rw same (
              λ h. later-IsTold m members action (ih.0 h),
              λ h. ih.1 (
                  not-IsTold m members action (λ mate is other known. absurd (other (is ∙ itself)))
                    h),
            )
        | inr differs ↦ elim (Bool-cases (Maps.contains_key agents m)) [
          | inr unknown ↦
              rw (differs, unknown)
                (
                  λ h. later-IsTold m members action (ih.0 h),
                  λ h. ih.1 (
                      not-IsTold m members action
                        (λ mate is other known.
                          let there : Maps.contains_key agents m ≡ true =
                            subst (λ a. Maps.contains_key agents a ≡ true) is known in
                          absurd (cc))
                        h),
                )
          | inl known ↦
              let other : m ≢ agent_id =
                (λ e. let same : (m == agent_id) ≡ true = (eq_iff m agent_id).1 e in cc) in
              rw (differs, known) (tells m members action ih other known)
        ]
      ]

pub team_told :
    (agents : Map AgentConfig) (team_id agent_id text : String) (team : Option TeamConfig)
    (action : Action)
    → Memᴰ action (tell_team agents team_id agent_id text team) ↔ (
        (mate : String) × (action ≡ enqueue_chatroom team_id mate text)
        × IsTeammate agents team agent_id mate)
unfolding tell_team IsTold
team_told agents team_id agent_id text none action =
    (λ h. elim h [ ], λ (mate, is, nobody). absurd nobody)
team_told agents team_id agent_id text (some team) action =
    tell_teammates-tells agents team_id agent_id text team.agents action
