-- ===== src/Queue/Depths.antt =====
-- crates/queue/src/lib.rs: a chain of handoffs from message to message ends.
use mathlib.Core.List.{Memᴰ}
use clawpod.Base.{
  ℕ, zero, suc, ◌+◌, ◌%◌, ◌^◌, ◌≤◌, ◌<◌, arith, String, false, Option, none, some, List, [], ◌∷◌,
  Map, ltb, ◌≡◌, ap, inl, inr, Bool-cases,
}
use clawpod.Domain.Core.{AgentConfig, TeamConfig, InboundEvent, MentionHandoff}
use clawpod.Extern.{TextLib}
use clawpod.Queue.{EnqueueMessage}
use clawpod.Queue.Answer.{Stamps, handoff_message, handoff_loop, handoffs}

handoff_loop-depth :
    (stamps : Stamps) (n : ℕ) (agent_id : String) (event : InboundEvent) (next limit : ℕ)
    (mentions : List MentionHandoff) (m : EnqueueMessage)
    → Memᴰ m (handoff_loop stamps n agent_id event next limit mentions)
    → (m.chain_depth ≡ next) × (next ≤ limit)
unfolding handoff_loop handoff_message
handoff_loop-depth stamps n agent_id event next limit [] m h = elim h [ ]
handoff_loop-depth stamps n agent_id event next limit (mention ∷ mentions) m h =
    elim (Bool-cases (ltb limit next)) [
      | inl over ↦ absurd (elim (rw over at h) [ ])
      | inr within ↦
          go within (handoff_loop-depth stamps (n + 1) agent_id event next limit mentions m)
            (rw within at h)
    ]
  where
    go :
        ltb limit next ≡ false
        → (Memᴰ m (handoff_loop stamps (n + 1) agent_id event next limit mentions)
            → (m.chain_depth ≡ next) × (next ≤ limit))
        → Memᴰ m (
            handoff_message stamps n agent_id event next mention
            ∷ handoff_loop stamps (n + 1) agent_id event next limit mentions)
        → (m.chain_depth ≡ next) × (next ≤ limit)
    go within rest (Memᴰ.head e) = (ap (λ r. r.chain_depth) e, ground arith)
    go within rest (Memᴰ.tail more) = rest more

-- A chain of handoffs: in answer to the event some agent hands a message over, and the chain goes on
-- with an event that carries the message's depth.
pub data Chain (lib : TextLib) (max_chain_steps : ℕ) : InboundEvent → ℕ → Type 0 where
  ends : {event : InboundEvent} → Chain lib max_chain_steps event zero
  hands :
      {event next : InboundEvent} {n : ℕ} (agents : Map AgentConfig) (teams : Map TeamConfig)
      (stamps : Stamps) (team_id : Option String) (agent_id text : String) (m : EnqueueMessage)
      → Memᴰ m (handoffs lib agents teams max_chain_steps stamps team_id agent_id event text)
      → next.chain_depth ≡ m.chain_depth
      → Chain lib max_chain_steps next n
      → Chain lib max_chain_steps event (suc n)

handoffs-depth :
    (lib : TextLib) (agents : Map AgentConfig) (teams : Map TeamConfig) (max_chain_steps : ℕ)
    (stamps : Stamps) (team_id : Option String) (agent_id : String) (event : InboundEvent)
    (text : String) (m : EnqueueMessage)
    → Memᴰ m (handoffs lib agents teams max_chain_steps stamps team_id agent_id event text)
    → (m.chain_depth ≡ (event.chain_depth + 1) % 2 ^ 32)
      × ((event.chain_depth + 1) % 2 ^ 32 ≤ max_chain_steps % 2 ^ 32)
unfolding handoffs
handoffs-depth lib agents teams limit stamps none agent_id event text m h = elim h [ ]
handoffs-depth lib agents teams limit stamps (some team_id) agent_id event text m h =
    handoff_loop-depth stamps 0 agent_id event _ _ _ m h

-- However agents are configured and whatever they answer, a chain of handoffs from message to message
-- is never longer than the limit less the depth that the first message has; a message from a channel
-- has depth 0. The limit is less than the largest u32, at which the depth would start over.
pub handoffs_end :
    (lib : TextLib) (max_chain_steps : ℕ) (event : InboundEvent) (n : ℕ)
    → max_chain_steps + 1 < 2 ^ 32
    → event.chain_depth ≤ max_chain_steps
    → Chain lib max_chain_steps event n
    → event.chain_depth + n ≤ max_chain_steps
handoffs_end lib limit event n small within ends = omega arith
handoffs_end lib limit event n small within
      (hands agents teams stamps team_id agent_id text m h e c) =
    let (depth, below) =
      handoffs-depth lib agents teams limit stamps team_id agent_id event text m h in
    let rest = handoffs_end lib limit _ _ small (omega (arith, depth, below, e)) c in
    omega (arith, depth, below, e, rest)
