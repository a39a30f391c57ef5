-- ===== src/Heartbeat/Ticks.antt =====
-- crates/heartbeat/src/lib.rs: how often the loop of the heartbeats wakes.
use clawpod.Base.{
  ◌∙◌, ◌⊎◌, inl, inr, Bool-cases, leb, ℕ, ◌≤◌, String, Option, none, some, [], ◌∷◌, Map, unwrap_or,
  and_then, min, max, ok, ◌≡◌, refl, arith, sym, ap,
}
use clawpod.Base.Maps
use mathlib.Core.List.{Memᴰ}
use clawpod.Config.Durations.{parse_duration_str}
use clawpod.Domain.Beat.{AgentHeartbeatConfig}
use clawpod.Domain.Core.{AgentConfig}

abbrev pub parsed : Option String → Option ℕ
parsed none = none
parsed (some every) = elim (parse_duration_str every) [ ok secs ↦ some secs | _ ↦ none ]

-- An agent's own interval, where it has one that reads.
abbrev pub own_interval : Option AgentHeartbeatConfig → Option ℕ
own_interval heartbeat = parsed (and_then heartbeat (λ c. c.every))

-- `Some(min_secs.map_or(secs, |m| m.min(secs)))`.
abbrev pub keep_min : Option ℕ → ℕ → Option ℕ
keep_min none secs = some secs
keep_min (some m) secs = some (min m secs)

abbrev pub keep_interval : Option ℕ → Option ℕ → Option ℕ
keep_interval min_secs none = min_secs
keep_interval min_secs (some secs) = keep_min min_secs secs

-- The loop over the agents.
unfoldable pub min_interval : Option ℕ → Map AgentConfig → Option ℕ
min_interval min_secs [] = min_secs
min_interval min_secs ((id, agent) ∷ agents) =
    min_interval (keep_interval min_secs (own_interval agent.heartbeat)) agents

abbrev or_default : Option ℕ → Option ℕ → Option ℕ
or_default none secs = secs
or_default (some m) secs = some m

-- `resolve_tick_interval`, in seconds: the agents, their defaults, and `interval_sec`.
unfoldable pub resolve_tick_interval : Map AgentConfig → Option AgentHeartbeatConfig → ℕ → ℕ
unfolding min_interval
resolve_tick_interval agents defaults interval_sec =
    max (unwrap_or (or_default (min_interval none agents) (own_interval defaults)) interval_sec) 10

-- The interval found is at most some number.
abbrev AtMost : Option ℕ → ℕ → Type 0
AtMost o n = (m : ℕ) × (o ≡ some m) × (m ≤ n)

keep_interval-AtMost : (o p : Option ℕ) (n : ℕ) → AtMost o n → AtMost (keep_interval o p) n
keep_interval-AtMost o none n h = h
keep_interval-AtMost none (some secs) n (m, e, le) = cc
keep_interval-AtMost (some k) (some secs) n (m, e, le) =
    (min k secs, refl, (let same : k ≡ m = cc in omega (arith, same, le)))

min_interval-AtMost :
    (o : Option ℕ) (agents : Map AgentConfig) (n : ℕ)
    → AtMost o n
    → AtMost (min_interval o agents) n
unfolding min_interval
min_interval-AtMost o [] n h = h
min_interval-AtMost o ((id, agent) ∷ agents) n h =
    min_interval-AtMost (keep_interval o (own_interval agent.heartbeat)) agents n
      (keep_interval-AtMost o (own_interval agent.heartbeat) n h)

keep_interval-new : (o p : Option ℕ) (n : ℕ) → p ≡ some n → AtMost (keep_interval o p) n
keep_interval-new o none n e = cc
keep_interval-new none (some secs) n e =
    (secs, refl, (let same : secs ≡ n = cc in omega (arith, same)))
keep_interval-new (some k) (some secs) n e =
    (min k secs, refl, (let same : secs ≡ n = cc in omega (arith, same)))

min_interval-finds :
    (o : Option ℕ) (agents : Map AgentConfig) (id : String) (agent : AgentConfig) (n : ℕ)
    → Memᴰ (id, agent) agents
    → own_interval agent.heartbeat ≡ some n
    → AtMost (min_interval o agents) n
unfolding min_interval
min_interval-finds o [] id agent n h e = elim h [ ]
min_interval-finds o ((j, other) ∷ agents) id agent n (Memᴰ.head p) e =
    let same : other ≡ agent = sym (ap (λ q. q.1) p) in
    min_interval-AtMost (keep_interval o (own_interval other.heartbeat)) agents n
      (keep_interval-new o (own_interval other.heartbeat) n (rw same e))
min_interval-finds o ((j, other) ∷ agents) id agent n (Memᴰ.tail h) e =
    min_interval-finds (keep_interval o (own_interval other.heartbeat)) agents id agent n h e

min_interval-cases :
    (o : Option ℕ) (agents : Map AgentConfig)
    → (min_interval o agents ≡ o)
      ⊎ ((id : String) × (agent : AgentConfig) × (n : ℕ) × Memᴰ (id, agent) agents
          × (own_interval agent.heartbeat ≡ some n)
          × (min_interval o agents ≡ some n))
unfolding min_interval
min_interval-cases o [] = inl refl
min_interval-cases o ((id, agent) ∷ agents) =
    let own = own_interval agent.heartbeat in
    elim (min_interval-cases (keep_interval o own) agents) [
      | inr (j, other, n, h, e, is) ↦ inr (j, other, n, Memᴰ.tail h, e, is)
      | inl kept ↦ elim (keep_interval-cases o own) [
        | inl same ↦ inl (kept ∙ same)
        | inr (n, e, is) ↦ inr (id, agent, n, Memᴰ.head refl, e, kept ∙ is)
      ]
    ]
  where
    leb_cases : (m n : ℕ) → (m ≤ n) ⊎ (n ≤ m)
    leb_cases m n = elim (Bool-cases (leb m n)) [
      | inl le ↦ inl (ground arith)
      | inr gt ↦ inr (ground arith)
    ]

    keep_interval-cases :
        (o p : Option ℕ)
        → (keep_interval o p ≡ o) ⊎ ((n : ℕ) × (p ≡ some n) × (keep_interval o p ≡ some n))
    keep_interval-cases o none = inl refl
    keep_interval-cases none (some secs) = inr (secs, refl, refl)
    keep_interval-cases (some m) (some secs) = elim (leb_cases m secs) [
      | inl le ↦ inl (let e : min m secs ≡ m = omega (arith, le) in ap some e)
      | inr le ↦ inr (secs, refl, (let e : min m secs ≡ secs = omega (arith, le) in ap some e))
    ]

-- No agent has an interval of its own that reads.
abbrev pub HaveNone : Map AgentConfig → Type 0
HaveNone agents =
    (id : String) (agent : AgentConfig)
    → Memᴰ (id, agent) agents
    → own_interval agent.heartbeat ≡ none

min_interval-none : (agents : Map AgentConfig) → HaveNone agents → min_interval none agents ≡ none
min_interval-none agents h = elim (min_interval-cases none agents) [
  | inl is ↦ is
  | inr (id, agent, n, listed, e, is) ↦ absurd (let bad = sym (h id agent listed) ∙ e in cc)
]

-- The loop never wakes more often than every ten seconds. Where an agent has an interval of its own
-- that reads, the loop wakes at that interval or sooner, or every ten seconds where that is longer,
-- and it wakes at the own interval of some agent, or every ten seconds: the interval of the defaults
-- then counts for no agent. Where no agent has one, it wakes at the interval of the defaults, and
-- without that at the global one, or every ten seconds where that is longer.
pub resolve_tick_interval_bounds :
    (agents : Map AgentConfig) (defaults : Option AgentHeartbeatConfig) (interval_sec : ℕ)
    → (10 ≤ resolve_tick_interval agents defaults interval_sec)
      × ((id : String) (agent : AgentConfig) (n : ℕ)
          → Maps.get agents id ≡ some agent
          → own_interval agent.heartbeat ≡ some n
          → (resolve_tick_interval agents defaults interval_sec ≤ max n 10)
            × ((setter : String) × (other : AgentConfig) × (m : ℕ) × Memᴰ (setter, other) agents
                × (own_interval other.heartbeat ≡ some m)
                × (resolve_tick_interval agents defaults interval_sec ≡ max m 10)))
      × (HaveNone agents
          → resolve_tick_interval agents defaults interval_sec
            ≡ max (unwrap_or (own_interval defaults) interval_sec) 10)
unfolding resolve_tick_interval
resolve_tick_interval_bounds agents defaults interval_sec = (
  omega arith,
  λ id agent n found e.
      let (m, is, le) =
        min_interval-finds none agents id agent n (Maps.get-Mem agents id agent found) e in
      (
        rw is (omega (arith, le)),
        elim (min_interval-cases none agents) [
          | inl missing ↦ absurd (let bad = sym is ∙ missing in cc)
          | inr (setter, other, k, listed, own, set) ↦ (setter, other, k, listed, own, rw set refl)
        ],
      ),
  λ h. rw (min_interval-none agents h) refl,
)
