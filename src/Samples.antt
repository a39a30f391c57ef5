-- ===== src/Samples.antt =====
-- A small configuration and a text library for the tests: two agents in one team, and matches for a
-- few messages.
use Prim.Native.Char.{Char, code}
use clawpod.Base.Decimal.{ℤ, pos, negsuc}
use clawpod.Base.{
  leb, ◌^◌, ℕ, zero, suc, ◌+◌, ◌*◌, ◌/◌, ◌%◌, ◌≤◌, String, Bool, true, false, ◌&&◌, Option, none,
  some, [], ◌∷◌, Map, ◌==◌, if◌then◌else◌, nat_eq, Bool-cases, inl, inr, ◌≡◌, refl, ap, ◌∙◌, arith,
}
use clawpod.Domain.Core.{ProviderKind, AgentConfig, TeamConfig, ChatType, InboundEvent}
use clawpod.Extern.{Captures, TextLib, TimeLib}

abbrev pub agent_called : String → AgentConfig
agent_called name = record {
  name = name;
  provider = ProviderKind.mock;
  model = "m";
  think_level = none;
  provider_id = none;
  system_prompt = none;
  prompt_file = none;
  heartbeat = none;
  browser = none;
}

abbrev pub agents : Map AgentConfig
agents = ("default", agent_called "Default") ∷ ("reviewer", agent_called "Reviewer") ∷ []

abbrev pub dev : TeamConfig
dev = record {
  name = "Development";
  agents = "default" ∷ "reviewer" ∷ [];
  leader_agent = "default";
}

abbrev pub teams : Map TeamConfig
teams = ("dev", dev) ∷ []

abbrev pair : String → String → Captures
pair a b = record { group_1 = some a; group_2 = some b }

abbrev pub sample_lib : TextLib
sample_lib = record {
  captures = λ pattern text. if text == "@dev hello" then some (pair "dev" "hello") else none;
  captures_iter = λ pattern text.
      if pattern == "\\[@(\\S+?):\\s*([\\s\\S]*?)\\]"
        && text == "[@reviewer: look] [@reviewer: again]"
      then pair "reviewer" "look" ∷ pair "reviewer" "again" ∷ []
      else if pattern == "\\[#(\\S+?):\\s*([\\s\\S]*?)\\]" && text == "[#dev: hi]"
      then pair "dev" "hi" ∷ []
      else [];
  erase_all = λ pattern text. text;
  replace_all = λ pattern text f. text;
  to_lowercase = λ s. s;
  to_uppercase = λ s. s;
}

abbrev pub hello : InboundEvent
hello = record {
  message_id = "m1";
  channel = "telegram";
  sender = "alice";
  sender_id = "alice_1";
  text = "hello";
  timestamp = 0;
  chat_type = ChatType.direct;
  peer_id = "alice_1";
  account_id = some "work";
  files = [];
  pre_routed_agent = none;
  from_agent = none;
  chain_depth = 0;
}

-- Times as their binary digits, the lowest first.
abbrev pub digit : Bool → Char
digit true = "0"
digit false = "1"

unfoldable pub digits_of : ℕ → ℕ → String
digits_of zero n = String.[]
digits_of (suc fuel) n =
    let rest = digits_of fuel (n / 2) in
    if nat_eq n 0 then String.[] else String.◌∷◌ (digit (nat_eq (n % 2) 0)) rest

unfoldable pub read_time : String → Option ℕ
read_time String.[] = some 0
read_time (String.◌∷◌ c s) =
    let rest = read_time s in
    elim rest [
      | none ↦ none
      | some n ↦
          if nat_eq (code c) 48
          then some (2 * n)
          else if nat_eq (code c) 49
          then some (2 * n + 1)
          else none
    ]

abbrev with_digit : Bool → ℕ → ℕ
with_digit true n = 2 * n
with_digit false n = 2 * n + 1

read_time-digit :
    (even : Bool) (s : String) (n : ℕ)
    → read_time s ≡ some n
    → read_time (String.◌∷◌ (digit even) s) ≡ some (with_digit even n)
unfolding read_time
read_time-digit true s n e = rw e refl
read_time-digit false s n e = rw e refl

pub read_time-digits_of : (fuel n : ℕ) → n ≤ fuel → read_time (digits_of fuel n) ≡ some n
unfolding digits_of read_time
read_time-digits_of zero n h = ap some (omega arith)
read_time-digits_of (suc fuel) n h = elim (Bool-cases (nat_eq n 0)) [
  | inl none_left ↦ rw none_left (ap some (ground arith))
  | inr more ↦
      let ih = read_time-digits_of fuel (n / 2) (ground arith) in
      let read = read_time-digit (nat_eq (n % 2) 0) (digits_of fuel (n / 2)) (n / 2) ih in
      rw more (read ∙ ap some (halves n))
]
  where
    halves : (n : ℕ) → with_digit (nat_eq (n % 2) 0) (n / 2) ≡ n
    halves n = elim (Bool-cases (nat_eq (n % 2) 0)) [
      | inl even ↦ rw even (ground arith)
      | inr odd ↦ rw odd (ground arith)
    ]

abbrev last_time : ℕ
last_time = 10 ^ 21

abbrev add_seconds : ℕ → ℤ → Option ℕ
add_seconds t (pos n) =
    if leb (t + n * 1000000000) last_time then some (t + n * 1000000000) else none
add_seconds t (negsuc n) = none

abbrev pub sample_time : TimeLib
sample_time = record {
  parse_from_rfc3339 = read_time;
  to_rfc3339 = λ n. digits_of n n;
  add_seconds = add_seconds;
  last = last_time;
  parse-to_rfc3339 = λ n h. read_time-digits_of n n (omega arith);
  add_seconds-pos = λ t n h. ground arith;
}
