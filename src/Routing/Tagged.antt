-- ===== src/Routing/Tagged.antt =====
-- crates/routing/src/lib.rs: what the loops over the tags and over the bare mentions hand over.
use clawpod.Base.{
  ◌∙◌, ap, sym, ◌++◌, ◌↔◌, String, Bool, true, false, Option, none, some, List, [], ◌∷◌, Map, ◌≡◌,
  refl, ◌⊎◌, inl, inr, ◌≢◌, All, Bool-cases, contains, some_is, eq_iff, eq_refl, arith,
}
use clawpod.Base.Maps
use clawpod.Domain.Core.{AgentConfig, TeamConfig, MentionHandoff}
use clawpod.Extern.{Captures, TextLib}
use clawpod.Routing.Mentions.{is_valid_teammate, mentioned, tagged_handoffs, bare_handoff}

-- A member of the team with a configuration, other than the agent itself and the one it heard from.
pub record IsHandoffTarget (current : String) (from_agent : Option String) (team : TeamConfig)
    (agents : Map AgentConfig) (id : String) : Type 0 where
  pub not_self : id ≢ current
  pub not_sender : from_agent ≢ some id
  pub member : contains team.agents id ≡ true
  pub configured : Maps.contains_key agents id ≡ true

-- No element occurs again behind itself.
abbrev pub Distinct : List String → Type 0
Distinct [] = Unit
Distinct (x ∷ xs) = (contains xs x ≡ false) × Distinct xs

abbrev pub ids : List MentionHandoff → List String
ids [] = []
ids (h ∷ hs) = h.teammate_id ∷ ids hs

some_is_self : (o : Option String) (s : String) → o ≡ some s → some_is o s ≡ true
some_is_self none s e = cc
some_is_self (some t) s e = ground (arith, eq_iff t s)

is_valid_teammate-IsHandoffTarget :
    (id current : String) (from_agent : Option String) (team : TeamConfig)
    (agents : Map AgentConfig)
    → is_valid_teammate id current from_agent team agents ≡ true
    → IsHandoffTarget current from_agent team agents id
unfolding is_valid_teammate
is_valid_teammate-IsHandoffTarget id current from_agent team agents h = record {
  not_self = λ e. ground (arith, eq_iff id current);
  not_sender = λ e. ground (arith, some_is_self from_agent id e);
  member = ground arith;
  configured = ground arith;
}

contains-append_left :
    (xs ys : List String) (s : String) → contains xs s ≡ true → contains (xs ++ ys) s ≡ true
contains-append_left [] ys s h = cc
contains-append_left (x ∷ xs) ys s h = ground (arith, contains-append_left xs ys s)

contains-append_middle : (xs ys : List String) (s : String) → contains (xs ++ s ∷ ys) s ≡ true
contains-append_middle [] ys s = rw (eq_refl s)
contains-append_middle (x ∷ xs) ys s = ground (arith, contains-append_middle xs ys s)

contains_swap :
    (xs ys : List String) (y s : String)
    → contains (y ∷ xs ++ ys) s ≡ true
    → contains (xs ++ y ∷ ys) s ≡ true
contains_swap [] ys y s h = h
contains_swap (x ∷ xs) ys y s h = ground (arith, contains_swap xs ys y s)

contains_of_fresh :
    (seen xs : List String) (id : String)
    → All (λ x. contains (id ∷ seen) x ≡ false) xs
    → contains xs id ≡ false
contains_of_fresh seen [] id h = refl
contains_of_fresh seen (x ∷ xs) id (e, h) =
    ground (arith, eq_iff x id, eq_iff id x, contains_of_fresh seen xs id h)

All-fresh_tail :
    (seen xs : List String) (id : String)
    → All (λ x. contains (id ∷ seen) x ≡ false) xs
    → All (λ x. contains seen x ≡ false) xs
All-fresh_tail seen [] id h = tt
All-fresh_tail seen (x ∷ xs) id (e, h) = (ground arith, All-fresh_tail seen xs id h)

module _ (lib : TextLib) (current : String) (from_agent : Option String) (team : TeamConfig)
    (agents : Map AgentConfig) where
  abbrev pub valid : Captures → Bool
  valid caps = is_valid_teammate (mentioned lib caps) current from_agent team agents

  abbrev pub tagged : List String → List Captures → List String
  tagged seen tags = ids (tagged_handoffs lib current from_agent team agents seen tags)

  abbrev pub bare : String → List Captures → List MentionHandoff
  bare response found = bare_handoff lib current from_agent team agents response found

  -- A tag that names no valid teammate, or one that was handed to before or is handed to now.
  abbrev pub IsServed : List String → Captures → Type 0
  IsServed handed caps = (valid caps ≡ false) ⊎ (contains handed (mentioned lib caps) ≡ true)

  pub tagged-IsHandoffTarget :
      (seen : List String) (tags : List Captures)
      → All (IsHandoffTarget current from_agent team agents) (tagged seen tags)
  unfolding tagged_handoffs
  tagged-IsHandoffTarget seen [] = tt
  tagged-IsHandoffTarget seen (caps ∷ more) = elim (Bool-cases (valid caps)) [
    | inr bad ↦ rw bad (tagged-IsHandoffTarget seen more)
    | inl good ↦ elim (Bool-cases (contains seen (mentioned lib caps))) [
      | inl old ↦ rw (good, old) (tagged-IsHandoffTarget seen more)
      | inr new ↦
          rw (good, new)
            (
              is_valid_teammate-IsHandoffTarget _ current from_agent team agents good,
              tagged-IsHandoffTarget (mentioned lib caps ∷ seen) more,
            )
    ]
  ]

  pub bare-IsHandoffTarget :
      (response : String) (found : List Captures)
      → All (IsHandoffTarget current from_agent team agents) (ids (bare response found))
  unfolding bare_handoff
  bare-IsHandoffTarget response [] = tt
  bare-IsHandoffTarget response (caps ∷ more) = elim (Bool-cases (valid caps)) [
    | inr bad ↦ rw bad (bare-IsHandoffTarget response more)
    | inl good ↦
        rw good (is_valid_teammate-IsHandoffTarget _ current from_agent team agents good, tt)
  ]

  tagged_fresh :
      (seen : List String) (tags : List Captures)
      → All (λ id. contains seen id ≡ false) (tagged seen tags)
  unfolding tagged_handoffs
  tagged_fresh seen [] = tt
  tagged_fresh seen (caps ∷ more) = elim (Bool-cases (valid caps)) [
    | inr bad ↦ rw bad (tagged_fresh seen more)
    | inl good ↦ elim (Bool-cases (contains seen (mentioned lib caps))) [
      | inl old ↦ rw (good, old) (tagged_fresh seen more)
      | inr new ↦
          rw (good, new)
            (new, All-fresh_tail seen _ _ (tagged_fresh (mentioned lib caps ∷ seen) more))
    ]
  ]

  pub tagged-Distinct : (seen : List String) (tags : List Captures) → Distinct (tagged seen tags)
  unfolding tagged_handoffs
  tagged-Distinct seen [] = tt
  tagged-Distinct seen (caps ∷ more) = elim (Bool-cases (valid caps)) [
    | inr bad ↦ rw bad (tagged-Distinct seen more)
    | inl good ↦ elim (Bool-cases (contains seen (mentioned lib caps))) [
      | inl old ↦ rw (good, old) (tagged-Distinct seen more)
      | inr new ↦
          rw (good, new)
            (
              contains_of_fresh seen _ _ (tagged_fresh (mentioned lib caps ∷ seen) more),
              tagged-Distinct (mentioned lib caps ∷ seen) more,
            )
    ]
  ]

  pub bare-Distinct :
      (response : String) (found : List Captures) → Distinct (ids (bare response found))
  unfolding bare_handoff
  bare-Distinct response [] = tt
  bare-Distinct response (caps ∷ more) = ground (arith, bare-Distinct response more)

  -- A name stays handed to when the list of the names handed to grows.
  pub IsServed-mono :
      (small large : List String)
      → ((id : String) → contains small id ≡ true → contains large id ≡ true)
      → (tags : List Captures) → All (IsServed small) tags
      → All (IsServed large) tags
  IsServed-mono small large f [] h = tt
  IsServed-mono small large f (caps ∷ more) (e, h) = (
    elim e [ inl bad ↦ inl bad | inr c ↦ inr (f (mentioned lib caps) c) ],
    IsServed-mono small large f more h,
  )

  tagged_bad :
      (seen : List String) (caps : Captures) (more : List Captures)
      → valid caps ≡ false
      → tagged seen (caps ∷ more) ≡ tagged seen more
  unfolding tagged_handoffs
  tagged_bad seen caps more bad = rw bad

  tagged_old :
      (seen : List String) (caps : Captures) (more : List Captures)
      → valid caps ≡ true
      → contains seen (mentioned lib caps) ≡ true
      → tagged seen (caps ∷ more) ≡ tagged seen more
  unfolding tagged_handoffs
  tagged_old seen caps more good old = rw (good, old)

  tagged_new :
      (seen : List String) (caps : Captures) (more : List Captures)
      → valid caps ≡ true
      → contains seen (mentioned lib caps) ≡ false
      → tagged seen (caps ∷ more) ≡ mentioned lib caps ∷ tagged (mentioned lib caps ∷ seen) more
  unfolding tagged_handoffs
  tagged_new seen caps more good new = rw (good, new)

  pub tagged-IsServed :
      (seen : List String) (tags : List Captures) (handed : List String)
      → handed ≡ seen ++ tagged seen tags
      → All (IsServed handed) tags
  tagged-IsServed seen [] handed e = tt
  tagged-IsServed seen (caps ∷ more) handed e = elim (Bool-cases (valid caps)) [
    | inr bad ↦ (
      inl bad,
      tagged-IsServed seen more handed (e ∙ ap (λ l. seen ++ l) (tagged_bad seen caps more bad)),
    )
    | inl good ↦ elim (Bool-cases (contains seen (mentioned lib caps))) [
      | inl old ↦ (
        inr (rw e (contains-append_left seen _ _ old)),
        tagged-IsServed seen more handed
            (e ∙ ap (λ l. seen ++ l) (tagged_old seen caps more good old)),
      )
      | inr new ↦
          let e' = e ∙ ap (λ l. seen ++ l) (tagged_new seen caps more good new) in
          (
            inr (rw e' (contains-append_middle seen _ _)),
            IsServed-mono (mentioned lib caps ∷ seen ++ tagged (mentioned lib caps ∷ seen) more)
                handed (λ id c. rw e' (contains_swap seen _ _ id c)) more
                (tagged-IsServed (mentioned lib caps ∷ seen) more _ refl),
          )
    ]
  ]

  pub tagged_none :
      (tags : List Captures) → tagged [] tags ≡ [] → All (λ caps. valid caps ≡ false) tags
  tagged_none tags e = go tags (tagged-IsServed [] tags [] (sym e))
    where
      go : (l : List Captures) → All (IsServed []) l → All (λ caps. valid caps ≡ false) l
      go [] h = tt
      go (caps ∷ more) (s, h) = (elim s [ inl bad ↦ bad | inr c ↦ cc ], go more h)

  pub tagged_none_of_invalid :
      (seen : List String) (tags : List Captures)
      → All (λ caps. valid caps ≡ false) tags
      → tagged_handoffs lib current from_agent team agents seen tags ≡ []
  unfolding tagged_handoffs
  tagged_none_of_invalid seen [] h = refl
  tagged_none_of_invalid seen (caps ∷ more) (bad, h) = rw bad (tagged_none_of_invalid seen more h)

  pub bare-IsServed :
      (response : String) (found : List Captures)
      → (bare response found ≡ []) ↔ All (λ caps. valid caps ≡ false) found
  unfolding bare_handoff
  bare-IsServed response [] = (λ _. tt, λ _. refl)
  bare-IsServed response (caps ∷ more) = elim (Bool-cases (valid caps)) [
    | inr bad ↦
        rw bad
          (λ e. (refl, (bare-IsServed response more).0 e), λ h. (bare-IsServed response more).1 h.1)
    | inl good ↦ rw good (λ e. cc, λ h. cc)
  ]
