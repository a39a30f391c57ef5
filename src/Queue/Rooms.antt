-- ===== src/Queue/Rooms.antt =====
-- crates/queue/src/lib.rs: who is told of a post in a chatroom.
use clawpod.Base.{
  ℕ, ◌+◌, arith, String, Bool, true, false, not, ◌&&◌, ◌||◌, none, some, List, [], ◌∷◌, ◌++◌, Map,
  ◌==◌, eq_iff, any, contains, some_is, length, Result, ok, err, panic, Bool-cases, ◌≡◌, refl, ap,
  ◌∙◌, inl, inr, Option-cases,
}
use clawpod.Base.Maps
use clawpod.Domain.Core.{AgentConfig, TeamConfig, ChatroomPost}
use clawpod.Queue.{EnqueueMessage}
use clawpod.Queue.Answer.{
  Stamps, chatroom_message, tell_room, with_posts, after_record, post_chatroom_messages,
}
use clawpod.Store.Records.{StoreSnapshot}
use clawpod.Store.State.{StateStore, StateFile, refresh_locked, normalize_ids}
use clawpod.Store.Steps.{updating-saves, refresh_locked-holds}
use clawpod.Store.Messages.{with_message, record_chatroom_message}

-- The agents that a post of an agent in a room goes to: the team's others that are configured.
abbrev pub is_listener : Map AgentConfig → String → String → TeamConfig → Bool
is_listener agents from_agent agent team =
    contains team.agents agent && (not (agent == from_agent) && Maps.contains_key agents agent)

abbrev pub hears : Map AgentConfig → Map TeamConfig → String → String → String → Bool
hears agents teams from_agent room agent = elim (Maps.get teams room) [
  | none ↦ false
  | some team ↦ is_listener agents from_agent agent team
]

-- A message for an agent from a room.
abbrev pub is_told : String → String → EnqueueMessage → Bool
is_told room agent m = m.peer_id == room && some_is m.pre_routed_agent agent

tell_room-any :
    (agents : Map AgentConfig) (stamps : Stamps) (n : ℕ) (team_id from_agent message : String)
    (teammates : List String) (room agent : String)
    → any (is_told room agent) (tell_room agents stamps n team_id from_agent message teammates) ≡ (
        team_id == room
        && (contains teammates agent
            && (not (agent == from_agent) && Maps.contains_key agents agent)))
unfolding tell_room chatroom_message
tell_room-any agents stamps n team_id from_agent message [] room agent = ground arith
tell_room-any agents stamps n team_id from_agent message (a ∷ teammates) room agent = ground (
  arith,
  tell_room-any agents stamps (n + 1) team_id from_agent message teammates room agent,
  eq_iff a agent,
  same_self a,
  same_known a,
)
  where
    same_self : (a : String) → (a == agent) ≡ true → (a == from_agent) ≡ (agent == from_agent)
    same_self a e = ap (λ (x : String). x == from_agent) ((eq_iff a agent).0 e)

    same_known :
        (a : String)
        → (a == agent) ≡ true
        → Maps.contains_key agents a ≡ Maps.contains_key agents agent
    same_known a e = ap (Maps.contains_key agents) ((eq_iff a agent).0 e)

any-append :
    (p : EnqueueMessage → Bool) (xs ys : List EnqueueMessage)
    → any p (xs ++ ys) ≡ (any p xs || any p ys)
any-append p [] ys = refl
any-append p (x ∷ xs) ys = ground (arith, any-append p xs ys)

with_posts-ok :
    (xs : List EnqueueMessage) {ys : List EnqueueMessage}
    (r : Result (List EnqueueMessage) × StateStore)
    → r.0 ≡ ok ys
    → (with_posts xs r).0 ≡ ok (xs ++ ys)
with_posts-ok xs (ok zs, st) e = cc
with_posts-ok xs (err m, st) e = cc
with_posts-ok xs (panic m, st) e = cc

-- The posts that an agent is to hear of in a room.
abbrev pub is_heard :
    Map AgentConfig → Map TeamConfig → String → String → String → ChatroomPost → Bool
is_heard agents teams from_agent room agent post =
    post.team_id == room && hears agents teams from_agent room agent

module _ (agents : Map AgentConfig) (teams : Map TeamConfig) (stamps : Stamps)
    (from_agent now : String) where
  abbrev pub posted : ℕ → List ChatroomPost → StateStore → Result (List EnqueueMessage) × StateStore
  posted = post_chatroom_messages agents teams stamps from_agent now true

  abbrev pub Tells : List EnqueueMessage → List ChatroomPost → Type 0
  Tells messages posts =
      (room agent : String)
      → any (is_told room agent) messages ≡ any (is_heard agents teams from_agent room agent) posts

  abbrev pub IsPosted : ℕ → List ChatroomPost → StateStore → Type 0
  IsPosted n posts st =
      (messages : List EnqueueMessage) × ((posted n posts st).0 ≡ ok messages)
      × Tells messages posts

  unknown_room :
      (post : ChatroomPost) (room agent : String)
      → Maps.get teams post.team_id ≡ none
      → is_heard agents teams from_agent room agent post ≡ false
  unknown_room post room agent e = elim (Bool-cases (post.team_id == room)) [
    | inr other ↦ rw other refl
    | inl same ↦
        let same' : post.team_id ≡ room = (eq_iff post.team_id room).0 same in
        let missing : Maps.get teams room ≡ none = rw (← same') e in rw (same, hears, missing) refl
  ]

  known_room :
      (post : ChatroomPost) (team : TeamConfig) (n : ℕ) (room agent : String)
      → Maps.get teams post.team_id ≡ some team
      → any
          (is_told room agent)
          (tell_room agents stamps n post.team_id from_agent post.message team.agents)
        ≡ is_heard agents teams from_agent room agent post
  known_room post team n room agent e =
      tell_room-any agents stamps n post.team_id from_agent post.message team.agents room agent
      ∙ elim (Bool-cases (post.team_id == room)) [
        | inr other ↦ rw other refl
        | inl same ↦
            let same' : post.team_id ≡ room = (eq_iff post.team_id room).0 same in
            let found : Maps.get teams room ≡ some team = rw (← same') e in
            rw (same, hears, found) refl
      ]

  -- A post to a room that is configured, in a file that can be read and written.
  module _ (n : ℕ) (post : ChatroomPost) (posts : List ChatroomPost) (team : TeamConfig)
      (st : StateStore) (s : StoreSnapshot) where
    abbrev after : StoreSnapshot
    after = (with_message post.team_id from_agent post.message now s).1

    abbrev st_after : StateStore
    st_after = record { file = StateFile.holds after; snapshot = after }

    abbrev told_first : List EnqueueMessage
    told_first = tell_room agents stamps n post.team_id from_agent post.message team.agents

    abbrev onwards : StateStore → Result (List EnqueueMessage) × StateStore
    onwards st' = with_posts told_first (posted (n + length team.agents) posts st')

    opened :
        Maps.get teams post.team_id ≡ some team
        → posted n (post ∷ posts) st
          ≡ after_record
              (record_chatroom_message post.team_id from_agent post.message now true st)
              onwards
    unfolding post_chatroom_messages
    opened found = rw (post_chatroom_messages, found) refl

    saved :
        refresh_locked st ≡ ok s
        → record_chatroom_message post.team_id from_agent post.message now true st
          ≡ (ok (with_message post.team_id from_agent post.message now s).0, st_after)
    unfolding record_chatroom_message
    saved read = updating-saves st s read (with_message post.team_id from_agent post.message now)

    step :
        Maps.get teams post.team_id ≡ some team
        → refresh_locked st ≡ ok s
        → posted n (post ∷ posts) st ≡ onwards st_after
    step found read = opened found ∙ ap (λ r. after_record r onwards) (saved read)

  -- Where the state file can be read and written, an agent's posts are put into the queue for exactly
  -- those that are to hear of them: for an agent in a room there is a message if and only if one of the
  -- posts is to that room, the room is that of a configured team, and the agent is another member of
  -- the team and configured.
  pub post_chatroom_messages-Tells :
      (n : ℕ) (posts : List ChatroomPost) (st : StateStore) (s : StoreSnapshot)
      → refresh_locked st ≡ ok s
      → IsPosted n posts st
  unfolding post_chatroom_messages
  post_chatroom_messages-Tells n [] st s read = ([], refl, λ room agent. refl)
  post_chatroom_messages-Tells n (post ∷ posts) st s read =
      elim (Option-cases (Maps.get teams post.team_id)) [
        | inl missing ↦
            let (messages, e, told) = post_chatroom_messages-Tells n posts st s read in
            (
              messages,
              rw (post_chatroom_messages, missing) e,
              λ room agent. rw (unknown_room post room agent missing) (told room agent),
            )
        | inr (team, found) ↦
            let (messages, e, told) =
              post_chatroom_messages-Tells (n + length team.agents) posts
                (st_after n post posts team st s) (normalize_ids (after n post posts team st s))
                (refresh_locked-holds (st_after n post posts team st s)
                  (after n post posts team st s) refl) in
            (
              tell_room agents stamps n post.team_id from_agent post.message team.agents
                  ++ messages,
              ap (λ r. r.0) (step n post posts team st s found read)
                  ∙ with_posts-ok (told_first n post posts team st s) _ e,
              λ room agent.
                  any-append (is_told room agent)
                    (tell_room agents stamps n post.team_id from_agent post.message team.agents)
                    messages
                  ∙ rw (known_room post team n room agent found, told room agent) refl,
            )
      ]
