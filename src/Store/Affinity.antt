-- ===== src/Store/Affinity.antt =====
-- crates/store/src/lib.rs: routing affinity, and what one process writes and another reads.
use Prim.Native.Char.{Char, code}
use Prim.Native.String
use text.Mathlib.TextLemmas.{
  append_cancel_left, append_cancel_right, cons-append, nil-append, head-eq_of_cons-eq,
  tail-eq_of_cons-eq,
}
use mathlib.Core.Path.{subst}
use clawpod.Base.{
  nat_eq, false, ◌≢◌, eq_refl, eq_iff, ◌⊎◌, String, true, some, ok, ◌≡◌, refl, sym, ◌∙◌, ap, ◌==◌,
  if◌then◌else◌, Bool-cases, inl, inr,
}
use clawpod.Base.Maps
use clawpod.Store.Records.{StoreSnapshot, RoutingAffinityRecord}
use clawpod.Store.State.{StateStore, refresh_locked, normalize_ids}
use clawpod.Store.Steps.{updating-saves, reading-ok, refresh_locked-holds}
use clawpod.Store.Sessions.{
  with_affinity, affinity_in, routing_affinity_key, set_routing_affinity, get_routing_affinity,
}

affinity_in-with_affinity :
    (channel peer_id sender_id agent_id now : String) (s : StoreSnapshot)
    (channel' peer_id' sender_id' : String)
    → affinity_in channel' peer_id' sender_id'
        (normalize_ids (with_affinity channel peer_id sender_id agent_id now s))
      ≡ (if routing_affinity_key channel peer_id sender_id
            == routing_affinity_key channel' peer_id' sender_id'
          then some agent_id
          else affinity_in channel' peer_id' sender_id' s)
unfolding with_affinity affinity_in normalize_ids
affinity_in-with_affinity channel peer_id sender_id agent_id now s channel' peer_id' sender_id' =
    let key = routing_affinity_key channel peer_id sender_id in
    let key' = routing_affinity_key channel' peer_id' sender_id' in
    let r : RoutingAffinityRecord = record {
      channel = channel;
      sender_id = sender_id;
      agent_id = agent_id;
      updated_at = now;
    } in
    let e = Maps.get-insert s.routing_affinity key r key' in
    elim (Bool-cases (key == key')) [
      | inl same ↦ rw (e, same) refl
      | inr differ ↦ rw (e, differ) refl
    ]

-- A text without the sign that the key puts between its parts.
abbrev pub HasNoColon : String → Type 0
HasNoColon String.[] = Unit
HasNoColon (String.◌∷◌ c s) = (nat_eq (code c) 58 ≡ false) × HasNoColon s

colon_cons : (x : String) → String.◌++◌ ":" x ≡ String.◌∷◌ ":" x
colon_cons x = cons-append ":" "" x ∙ ap (String.◌∷◌ ":") (nil-append x)

-- A text that begins with the sign is not one that goes on after another character.
colon-first :
    (d : Char) (b x y : String)
    → nat_eq (code d) 58 ≡ false
    → String.◌++◌ ":" x ≢ String.◌++◌ (String.◌∷◌ d b) y
colon-first d b x y other e =
    let same : ":" ≡ d = head-eq_of_cons-eq (sym (colon_cons x) ∙ e ∙ cons-append d b y) in
    (let bad = subst (λ c. nat_eq (code c) 58 ≡ false) (sym same) other in cc)

colon-splits :
    (a b x y : String)
    → HasNoColon a
    → HasNoColon b
    → String.◌++◌ a (String.◌++◌ ":" x) ≡ String.◌++◌ b (String.◌++◌ ":" y)
    → (a ≡ b) × (x ≡ y)
colon-splits String.[] String.[] x y h k e =
    (refl, append_cancel_left ":" x y (append_cancel_left "" _ _ e))
colon-splits String.[] (String.◌∷◌ d b) x y h k e =
    absurd (colon-first d b x (String.◌++◌ ":" y) k.0 (sym (nil-append _) ∙ e))
colon-splits (String.◌∷◌ c a) String.[] x y h k e =
    absurd (colon-first c a y (String.◌++◌ ":" x) h.0 (sym (nil-append _) ∙ sym e))
colon-splits (String.◌∷◌ c a) (String.◌∷◌ d b) x y h k e =
    let apart = sym (cons-append c a _) ∙ e ∙ cons-append d b _ in
    let heads = head-eq_of_cons-eq apart in
    let tails = tail-eq_of_cons-eq apart in
    let (same, rest) = colon-splits a b x y h.1 k.1 tails in
    (ap (λ z. String.◌∷◌ z a) heads ∙ ap (String.◌∷◌ d) same, rest)

-- Where the key's first two parts have no such sign, the key tells every two conversations apart.
routing_affinity_key_injective :
    (channel peer_id sender_id channel' peer_id' sender_id' : String)
    → HasNoColon channel
    → HasNoColon channel'
    → HasNoColon peer_id
    → HasNoColon peer_id'
    → routing_affinity_key channel peer_id sender_id
      ≡ routing_affinity_key channel' peer_id' sender_id'
    → (channel ≡ channel') × (peer_id ≡ peer_id') × (sender_id ≡ sender_id')
unfolding routing_affinity_key
routing_affinity_key_injective channel peer_id sender_id channel' peer_id' sender_id' c c' p p' e =
    let (channels, rest) =
      colon-splits channel channel' _ _ c c' (append_cancel_left "affinity:" _ _ e) in
    let (peers, senders) = colon-splits peer_id peer_id' _ _ p p' rest in
    (channels, peers, append_cancel_right sender_id sender_id' "" senders)

routing_affinity_key_sender :
    (channel peer_id sender_id sender_id' : String)
    → routing_affinity_key channel peer_id sender_id
      ≡ routing_affinity_key channel peer_id sender_id'
    → sender_id ≡ sender_id'
unfolding routing_affinity_key
routing_affinity_key_sender channel peer_id sender_id sender_id' e =
    append_cancel_right sender_id sender_id' "" (
      append_cancel_left ":" _ _ (
        append_cancel_left peer_id _ _ (
          append_cancel_left ":" _ _
            (append_cancel_left channel _ _ (append_cancel_left "affinity:" _ _ e)))))

-- What every process finds, by the keys.
read_back :
    (channel peer_id sender_id agent_id now : String) (st other : StateStore) (s : StoreSnapshot)
    → refresh_locked st ≡ ok s
    → other.file ≡ (set_routing_affinity channel peer_id sender_id agent_id now true st).1.file
    → (channel' peer_id' sender_id' : String)
    → (get_routing_affinity channel' peer_id' sender_id' other).0 ≡ (
        if routing_affinity_key channel peer_id sender_id
          == routing_affinity_key channel' peer_id' sender_id'
        then ok (some agent_id)
        else (get_routing_affinity channel' peer_id' sender_id' st).0)
unfolding set_routing_affinity get_routing_affinity normalize_ids with_affinity affinity_in
read_back channel peer_id sender_id agent_id now st other s read shared channel' peer_id'
      sender_id' =
    let saved =
      updating-saves st s read
        (λ t. (tt, with_affinity channel peer_id sender_id agent_id now t)) in
    let reads =
      reading-ok other (normalize_ids (with_affinity channel peer_id sender_id agent_id now s))
        (refresh_locked-holds other (with_affinity channel peer_id sender_id agent_id now s)
          (shared ∙ ap (λ r. r.1.file) saved))
        (affinity_in channel' peer_id' sender_id') in
    reads
    ∙ elim (Bool-cases (
        routing_affinity_key channel peer_id sender_id
        == routing_affinity_key channel' peer_id' sender_id')) [
          | inl same ↦
              rw
                (
                  affinity_in-with_affinity channel peer_id sender_id agent_id now s channel'
                      peer_id' sender_id',
                  same,
                )
                refl
          | inr differ ↦
              rw
                (
                  affinity_in-with_affinity channel peer_id sender_id agent_id now s channel'
                      peer_id' sender_id',
                  differ,
                )
                (sym (reading-ok st s read (affinity_in channel' peer_id' sender_id')))
        ]

-- Once a sender's agent is set and the file written, every process that reads the file, whatever its
-- own snapshot, finds that agent for the sender in this conversation. What it finds for another sender
-- of the conversation is what was there, and so it is for each other channel, conversation or sender
-- where the identifiers of the channels and of the conversations have no colon.
pub set_routing_affinity-read_back :
    (channel peer_id sender_id agent_id now : String) (st other : StateStore) (s : StoreSnapshot)
    → refresh_locked st ≡ ok s
    → other.file ≡ (set_routing_affinity channel peer_id sender_id agent_id now true st).1.file
    → ((get_routing_affinity channel peer_id sender_id other).0 ≡ ok (some agent_id))
      × ((sender_id' : String)
          → sender_id ≢ sender_id'
          → (get_routing_affinity channel peer_id sender_id' other).0
            ≡ (get_routing_affinity channel peer_id sender_id' st).0)
      × ((channel' peer_id' sender_id' : String)
          → (channel ≢ channel') ⊎ ((peer_id ≢ peer_id') ⊎ (sender_id ≢ sender_id'))
          → HasNoColon channel
          → HasNoColon channel'
          → HasNoColon peer_id
          → HasNoColon peer_id'
          → (get_routing_affinity channel' peer_id' sender_id' other).0
            ≡ (get_routing_affinity channel' peer_id' sender_id' st).0)
set_routing_affinity-read_back channel peer_id sender_id agent_id now st other s read shared =
    let key = routing_affinity_key channel peer_id sender_id in
    let finds = read_back channel peer_id sender_id agent_id now st other s read shared in
    let apart : (j : String) → key ≢ j → (key == j) ≡ false = λ j differs.
      elim (Bool-cases (key == j)) [
        | inl same ↦ absurd (differs ((eq_iff key j).0 same))
        | inr e ↦ e
      ] in
    (
      rw (eq_refl key) at (finds channel peer_id sender_id),
      λ sender_id' differs.
          rw
            (apart (routing_affinity_key channel peer_id sender_id')
              (λ e. differs (routing_affinity_key_sender channel peer_id sender_id sender_id' e)))
            at (finds channel peer_id sender_id'),
      λ channel' peer_id' sender_id' differs c c' p p'.
          rw
            (apart (routing_affinity_key channel' peer_id' sender_id') (λ e.
              let (channels, peers, senders) =
                routing_affinity_key_injective channel peer_id sender_id channel' peer_id'
                  sender_id' c c' p p' e in
              elim differs [
                | inl d ↦ d channels
                | inr (inl d) ↦ d peers
                | inr (inr d) ↦ d senders
              ]))
            at (finds channel' peer_id' sender_id'),
    )
