-- ===== src/Queue/Entries.antt =====
-- crates/queue/src/lib.rs: what stands under the keys of a run's metadata.
use clawpod.Base.{
  String, false, not, Option, none, some, Map, ◌==◌, unwrap_or, Option-cases, Bool-cases, is_some,
  if◌then◌else◌, inl, inr, eq_refl, ◌≡◌, refl,
}
use clawpod.Base.Maps
use clawpod.Base.Maps.{get-insert}
use clawpod.Config.Browser.{ResolvedBrowserProfile}
use clawpod.Config.Runtime.{CustomProviderConfig}
use clawpod.Config.Secrets.{is_blank}
use clawpod.Domain.Core.{ProviderKind, AgentConfig}
use clawpod.Queue.Metadata.{
  harness_str, provider_kind_str, or_insert, insert_some, add_browser, add_kind, add_codex,
  provider_entries, with_key,
}

pub get-or_insert-same :
    (m : Map String) (k v : String)
    → Maps.get (or_insert m k v) k ≡ some (unwrap_or (Maps.get m k) v)
unfolding or_insert Maps.contains_key
get-or_insert-same m k v = elim (Option-cases (Maps.get m k)) [
  | inl missing ↦ rw (missing, get-insert m k v k, eq_refl k) refl
  | inr (w, found) ↦ rw (found, found) refl
]

pub get-or_insert-other :
    (m : Map String) (k v j : String)
    → (k == j) ≡ false
    → Maps.get (or_insert m k v) j ≡ Maps.get m j
unfolding or_insert Maps.contains_key
get-or_insert-other m k v j e = elim (Bool-cases (is_some (Maps.get m k))) [
  | inl found ↦ rw found refl
  | inr missing ↦ rw (missing, get-insert m k v j, e) refl
]

pub get-insert_some-other :
    (m : Map String) (k : String) (v : Option String) (j : String)
    → (k == j) ≡ false
    → Maps.get (insert_some m k v) j ≡ Maps.get m j
unfolding insert_some
get-insert_some-other m k none j e = refl
get-insert_some-other m k (some v) j e = rw (get-insert m k v j, e) refl

-- The key is none of those that a profile sets.
pub record IsNoBrowserKey (j : String) : Type 0 where
  profile : ("browser_profile" == j) ≡ false
  cdp_port : ("browser_cdp_port" == j) ≡ false
  profile_dir : ("browser_profile_dir" == j) ≡ false
  display : ("browser_display" == j) ≡ false
  kasm_port : ("browser_kasm_port" == j) ≡ false
  view_path : ("browser_view_path" == j) ≡ false
  home_dir : ("browser_home_dir" == j) ≡ false

pub get-add_browser :
    (m : Map String) (profile : Option ResolvedBrowserProfile) (j : String)
    → IsNoBrowserKey j
    → Maps.get (add_browser m profile) j ≡ Maps.get m j
unfolding add_browser
get-add_browser m none j n = refl
get-add_browser m (some profile) j n =
    rw
      (
        get-insert_some-other _ "browser_home_dir" profile.home_dir j n.home_dir,
        get-insert,
        n.view_path,
        get-insert,
        n.kasm_port,
        get-insert,
        n.display,
        get-insert,
        n.profile_dir,
        get-insert,
        n.cdp_port,
        get-insert,
        n.profile,
      )
      refl

pub get-add_codex :
    (agent : AgentConfig) (token : Option String) (m : Map String) (j : String)
    → ("openai_api_key" == j) ≡ false
    → Maps.get (add_codex agent token m) j ≡ Maps.get m j
unfolding add_codex
get-add_codex agent token m j e = go agent.provider token
  where
    go :
        (kind : ProviderKind) (token : Option String)
        → Maps.get
            (elim kind as (λ _. Map String) [
              | ProviderKind.openai ↦ elim token [
                | none ↦ m
                | some token ↦ or_insert m "openai_api_key" token
              ]
              | _ ↦ m
            ])
            j
          ≡ Maps.get m j
    go ProviderKind.openai none = refl
    go ProviderKind.openai (some token) = get-or_insert-other m "openai_api_key" token j e
    go ProviderKind.anthropic token = refl
    go ProviderKind.custom token = refl
    go ProviderKind.mock token = refl

pub effective : IsNoBrowserKey "effective_provider"
effective = record {
  profile = refl;
  cdp_port = refl;
  profile_dir = refl;
  display = refl;
  kasm_port = refl;
  view_path = refl;
  home_dir = refl;
}

pub get-add_kind :
    (agent : AgentConfig) (m : Map String)
    → Maps.get (add_kind agent m) "effective_provider"
      ≡ some (unwrap_or (Maps.get m "effective_provider") (provider_kind_str agent.provider))
unfolding add_kind
get-add_kind agent m = elim (Bool-cases (is_blank agent.model)) [
  | inl blank ↦
      rw blank (get-or_insert-same m "effective_provider" (provider_kind_str agent.provider))
  | inr full ↦
      rw
        (
          full,
          get-or_insert-other (or_insert m "effective_provider" (provider_kind_str agent.provider))
              "effective_model" agent.model "effective_provider" refl,
        )
        (get-or_insert-same m "effective_provider" (provider_kind_str agent.provider))
]

get-with_key-other :
    (provider : CustomProviderConfig) (key : String) (m : Map String) (j : String)
    → ("custom_api_key" == j) ≡ false
    → ("effective_model" == j) ≡ false
    → Maps.get (with_key provider key m) j ≡ Maps.get m j
unfolding with_key
get-with_key-other provider key m j other no_model = go provider.model
  where
    m1 : Map String
    m1 = Maps.insert m "custom_api_key" key

    go :
        (model : Option String)
        → Maps.get
            (elim model as (λ _. Map String) [
              | none ↦ m1
              | some model ↦
                  if not (is_blank model) then Maps.insert m1 "effective_model" model else m1
            ])
            j
          ≡ Maps.get m j
    go none = rw (get-insert m "custom_api_key" key j, other) refl
    go (some model) = elim (Bool-cases (is_blank model)) [
      | inl blank ↦ rw (blank, get-insert m "custom_api_key" key j, other) refl
      | inr full ↦
          rw
            (
              full,
              get-insert m1 "effective_model" model j,
              no_model,
              get-insert m "custom_api_key" key j,
              other,
            )
            refl
    ]

get-with_key-key :
    (provider : CustomProviderConfig) (key : String) (m : Map String)
    → Maps.get (with_key provider key m) "custom_api_key" ≡ some key
unfolding with_key
get-with_key-key provider key m = go provider.model
  where
    m1 : Map String
    m1 = Maps.insert m "custom_api_key" key

    go :
        (model : Option String)
        → Maps.get
            (elim model as (λ _. Map String) [
              | none ↦ m1
              | some model ↦
                  if not (is_blank model) then Maps.insert m1 "effective_model" model else m1
            ])
            "custom_api_key"
          ≡ some key
    go none = rw (get-insert m "custom_api_key" key "custom_api_key") refl
    go (some model) = elim (Bool-cases (is_blank model)) [
      | inl blank ↦ rw (blank, get-insert m "custom_api_key" key "custom_api_key") refl
      | inr full ↦
          rw
            (
              full,
              get-insert m1 "effective_model" model "custom_api_key",
              get-insert m "custom_api_key" key "custom_api_key",
            )
            refl
    ]

-- The run is told of the provider and of its key.
pub record IsCustomRun (provider_id : String) (provider : CustomProviderConfig) (key : String)
    (m : Map String) : Type 0 where
  pub effective : Maps.get m "effective_provider" ≡ some "custom"
  pub named : Maps.get m "custom_provider_id" ≡ some provider_id
  pub api_key : Maps.get m "custom_api_key" ≡ some key
  pub base_url : Maps.get m "custom_base_url" ≡ some provider.base_url
  pub harness : Maps.get m "custom_harness" ≡ some (harness_str provider.harness)

pub entries-IsCustomRun :
    (agent : AgentConfig) (token : Option String) (provider_id : String)
    (provider : CustomProviderConfig) (key : String) (m : Map String)
    → IsCustomRun provider_id provider key
        (add_codex agent token (with_key provider key (provider_entries provider_id provider m)))
unfolding provider_entries
entries-IsCustomRun agent token provider_id provider key m = record {
  effective =
      rw
        (
          get-add_codex agent token _ "effective_provider" refl,
          get-with_key-other provider key _ "effective_provider" refl refl,
          get-insert,
          get-insert,
          get-insert,
          get-insert,
        )
        refl;
  named =
      rw
        (
          get-add_codex agent token _ "custom_provider_id" refl,
          get-with_key-other provider key _ "custom_provider_id" refl refl,
          get-insert,
          get-insert,
          get-insert,
        )
        refl;
  api_key =
      rw (get-add_codex agent token _ "custom_api_key" refl) (get-with_key-key provider key _);
  base_url =
      rw
        (
          get-add_codex agent token _ "custom_base_url" refl,
          get-with_key-other provider key _ "custom_base_url" refl refl,
          get-insert,
        )
        refl;
  harness =
      rw
        (
          get-add_codex agent token _ "custom_harness" refl,
          get-with_key-other provider key _ "custom_harness" refl refl,
          get-insert,
          get-insert,
        )
        refl;
}
