-- ===== src/Config/Access/Laws.antt =====
-- crates/config/src/lib.rs: whom `evaluate_ingress_policy` lets in, by rules.
use clawpod.Base.{
  String, Bool, true, false, Option, none, some, ◌≡◌, refl, ◌≢◌, ◌↔◌, ◌⊎◌, inl, inr, Option-cases,
  contains, arith,
}
use clawpod.Domain.Core.{ChatType, direct, group, thread}
use clawpod.Config.Access.{
  DirectMessagePolicy, GroupPolicy, PerChannelAccessConfig, ChannelAccessConfig, allow,
  require_pairing, channel_override, override_policy, direct_policy, group_policy, shared_policy,
  evaluate_ingress_policy,
}

module _ (access : ChannelAccessConfig) (sender : String) (mentions approved : Bool)
    (channel_id : Option String) where
  -- Why a message is let in.
  pub data Admits : ChatType → Type 0 where
    dm_open : access.dm_policy ≡ DirectMessagePolicy.open_to_all → Admits direct
    dm_listed :
        access.dm_policy ≡ DirectMessagePolicy.allowlist
        → contains access.allow_from sender ≡ true
        → Admits direct
    dm_paired : access.dm_policy ≡ DirectMessagePolicy.pairing → approved ≡ true → Admits direct
    overridden :
        {chat : ChatType} (pc : PerChannelAccessConfig)
        → chat ≢ direct
        → channel_override access.channels channel_id ≡ some pc
        → pc.allow ≡ true
        → (pc.require_mention ≢ some true) ⊎ (mentions ≡ true)
        → Admits chat
    group_open :
        {chat : ChatType}
        → chat ≢ direct
        → channel_override access.channels channel_id ≡ none
        → access.group_policy ≡ GroupPolicy.open_to_all
        → Admits chat
    group_mentioned :
        {chat : ChatType}
        → chat ≢ direct
        → channel_override access.channels channel_id ≡ none
        → access.group_policy ≡ GroupPolicy.mention_only
        → mentions ≡ true
        → Admits chat
    group_listed :
        {chat : ChatType}
        → chat ≢ direct
        → channel_override access.channels channel_id ≡ none
        → access.group_policy ≡ GroupPolicy.allowlist
        → contains access.group_allow_from sender ≡ true
        → Admits chat

  dm_sound :
      (p : DirectMessagePolicy)
      → access.dm_policy ≡ p
      → direct_policy p access.allow_from sender approved ≡ allow
      → Admits direct
  unfolding direct_policy
  dm_sound DirectMessagePolicy.open_to_all p h = dm_open p
  dm_sound DirectMessagePolicy.allowlist p h = dm_listed p (ground arith)
  dm_sound DirectMessagePolicy.pairing p h = dm_paired p (ground arith)
  dm_sound DirectMessagePolicy.disabled p h = cc

  module _ {chat : ChatType} (shared : chat ≢ direct) where
    group_sound :
        (p : GroupPolicy)
        → access.group_policy ≡ p
        → channel_override access.channels channel_id ≡ none
        → group_policy p access.group_allow_from sender mentions ≡ allow
        → Admits chat
    unfolding group_policy
    group_sound GroupPolicy.open_to_all p o h = group_open shared o p
    group_sound GroupPolicy.mention_only p o h = group_mentioned shared o p (ground arith)
    group_sound GroupPolicy.allowlist p o h = group_listed shared o p (ground arith)
    group_sound GroupPolicy.disabled p o h = cc

    override_sound :
        (pc : PerChannelAccessConfig)
        → override_policy pc mentions ≡ allow
        → (pc.allow ≡ true) × ((pc.require_mention ≢ some true) ⊎ (mentions ≡ true))
    unfolding override_policy
    override_sound pc h = (ground arith, needs pc.require_mention refl)
      where
        needs :
            (r : Option Bool)
            → pc.require_mention ≡ r
            → (pc.require_mention ≢ some true) ⊎ (mentions ≡ true)
        needs none e = inl (λ t. cc)
        needs (some false) e = inl (λ t. cc)
        needs (some true) e = inr (ground arith)

    shared_sound : shared_policy access sender mentions channel_id ≡ allow → Admits chat
    unfolding shared_policy
    shared_sound h = elim (Option-cases (channel_override access.channels channel_id)) [
      | inl o ↦ group_sound access.group_policy refl o (rw (o, shared_policy) at h)
      | inr (pc, o) ↦
          let (a, m) = override_sound pc (rw (o, shared_policy) at h) in overridden pc shared o a m
    ]

  sound :
      (chat : ChatType)
      → evaluate_ingress_policy access chat sender mentions approved channel_id ≡ allow
      → Admits chat
  unfolding evaluate_ingress_policy
  sound direct h = dm_sound access.dm_policy refl h
  sound group h = shared_sound (λ e. cc) h
  sound thread h = shared_sound (λ e. cc) h

  override_complete :
      (pc : PerChannelAccessConfig)
      → pc.allow ≡ true
      → (pc.require_mention ≢ some true) ⊎ (mentions ≡ true)
      → override_policy pc mentions ≡ allow
  unfolding override_policy
  override_complete pc a (inr m) = ground arith
  override_complete pc a (inl m) = go pc.require_mention refl
    where
      go : (r : Option Bool) → pc.require_mention ≡ r → override_policy pc mentions ≡ allow
      go none e = ground arith
      go (some false) e = ground arith
      go (some true) e = absurd (m e)

  shared_lem :
      {chat : ChatType}
      → chat ≢ direct
      → evaluate_ingress_policy access chat sender mentions approved channel_id
        ≡ shared_policy access sender mentions channel_id
  unfolding evaluate_ingress_policy
  shared_lem {chat = direct} shared = absurd (shared refl)
  shared_lem {chat = group} shared = refl
  shared_lem {chat = thread} shared = refl

  complete :
      {chat : ChatType}
      → Admits chat
      → evaluate_ingress_policy access chat sender mentions approved channel_id ≡ allow
  unfolding evaluate_ingress_policy direct_policy group_policy
  complete (dm_open p) = rw p
  complete (dm_listed p l) = rw (p, direct_policy, l)
  complete (dm_paired p a) = rw (p, direct_policy, a)
  complete (overridden pc shared o a m) =
      rw (shared_lem shared, o, shared_policy) (override_complete pc a m)
  complete (group_open shared o p) = rw (shared_lem shared, o, shared_policy, p, group_policy)
  complete (group_mentioned shared o p m) =
      rw (shared_lem shared, o, shared_policy, p, group_policy, m)
  complete (group_listed shared o p l) =
      rw (shared_lem shared, o, shared_policy, p, group_policy, l)

-- A message is let in exactly by one of the rules: by the direct-message policy; in a group or a
-- thread by the channel's own entry (or that of "*") where one applies, and by the group policy
-- where none does.
pub evaluate_ingress_policy-Admits_iff :
    (access : ChannelAccessConfig) (chat : ChatType) (sender : String) (mentions approved : Bool)
    (channel_id : Option String)
    → (evaluate_ingress_policy access chat sender mentions approved channel_id ≡ allow)
      ↔ Admits access sender mentions approved channel_id chat
evaluate_ingress_policy-Admits_iff access chat sender mentions approved channel_id = (
  sound access sender mentions approved channel_id chat,
  complete access sender mentions approved channel_id,
)

-- Pairing is asked for exactly of a direct message whose sender is not approved, under the policy
-- of pairing: never in a group.
pub require_pairing_iff :
    (access : ChannelAccessConfig) (chat : ChatType) (sender : String) (mentions approved : Bool)
    (channel_id : Option String)
    → (evaluate_ingress_policy access chat sender mentions approved channel_id ≡ require_pairing)
      ↔ ((chat ≡ direct) × (access.dm_policy ≡ DirectMessagePolicy.pairing) × (approved ≡ false))
unfolding evaluate_ingress_policy
require_pairing_iff access direct sender mentions approved channel_id = ground arith
require_pairing_iff access group sender mentions approved channel_id = ground arith
require_pairing_iff access thread sender mentions approved channel_id = ground arith
