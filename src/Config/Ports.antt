-- ===== src/Config/Ports.antt =====
-- crates/config/src/lib.rs: the ports and displays of the browser profiles that validation accepts.
use clawpod.Base.{
  ℕ, String, true, false, ◌==◌, eq_refl, nat_eq, List, [], ◌∷◌, Map, contains, ok, Result,
  bind-eq-ok, then-eq-ok, ◌>>=◌, ok_injective, ◌≡◌, refl, sym, eq_iff, Bool-cases, inl, inr, arith,
}
use mathlib.Core.Path.{subst}
use clawpod.Config.Runtime.{BrowserProfileConfig}
use clawpod.Config.Checks.{bail_first, bail_first-eq-ok}
use clawpod.Config.Validate.{
  Seen, has_number, validate_profile, validate_profiles, checked_view_path, profile_tests,
  seen_with,
}

-- The two profiles have different CDP ports, different displays and different viewer ports. The CDP
-- port of one may be the viewer port of the other, or of itself.
pub record IsApart (p q : BrowserProfileConfig) : Type 0 where
  pub cdp : nat_eq p.cdp_port q.cdp_port ≡ false
  pub display : (p.display == q.display) ≡ false
  pub kasm : nat_eq p.kasm_port q.kasm_port ≡ false

-- The profile is apart from each of the list, and the profiles of a list are apart.
abbrev pub IsApartFromAll : BrowserProfileConfig → Map BrowserProfileConfig → Type 0
IsApartFromAll p [] = Unit
IsApartFromAll p ((name, q) ∷ profiles) = IsApart p q × IsApartFromAll p profiles

abbrev pub AreApart : Map BrowserProfileConfig → Type 0
AreApart [] = Unit
AreApart ((name, p) ∷ profiles) = IsApartFromAll p profiles × AreApart profiles

-- The sets have what the profile uses.
record Knows (seen : Seen) (p : BrowserProfileConfig) : Type 0 where
  cdp : has_number seen.cdp_ports p.cdp_port ≡ true
  display : contains seen.displays p.display ≡ true
  kasm : has_number seen.kasm_ports p.kasm_port ≡ true

-- What the sets do not have, an accepted profile has added to them.
validate_profile-adds :
    (name : String) (q : BrowserProfileConfig) (seen seen' : Seen)
    → validate_profile name q seen ≡ ok seen'
    → (has_number seen.cdp_ports q.cdp_port ≡ false)
      × (contains seen.displays q.display ≡ false)
      × (has_number seen.kasm_ports q.kasm_port ≡ false)
      × ((view_paths : List String) × (seen' ≡ seen_with q seen view_paths))
unfolding validate_profile profile_tests
validate_profile-adds name q seen seen' e =
    let paths : List String → Result Seen = λ vs. ok (seen_with q seen vs) in
    let viewed = checked_view_path name seen.view_paths q.view_path in
    let parts = then-eq-ok (bail_first (profile_tests name q seen)) (viewed >>= paths) e in
    let passed = (bail_first-eq-ok (profile_tests name q seen) parts.0).1.1.1.1.1 in
    let built = bind-eq-ok viewed paths parts.1 in
    (passed.0, passed.1.0, passed.1.1.0, (built.0, sym (ok_injective built.1.1)))

nat_eq_refl : (n : ℕ) → nat_eq n n ≡ true
nat_eq_refl n = ground arith

Knows-self :
    (q : BrowserProfileConfig) (seen : Seen) (vs : List String) → Knows (seen_with q seen vs) q
Knows-self q seen vs = record {
  cdp = rw (nat_eq_refl q.cdp_port) refl;
  display = rw (eq_refl q.display) refl;
  kasm = rw (nat_eq_refl q.kasm_port) refl;
}

Knows-more :
    (p q : BrowserProfileConfig) (seen : Seen) (vs : List String)
    → Knows seen p
    → Knows (seen_with q seen vs) p
Knows-more p q seen vs k = record {
  cdp = ground (arith, k.cdp);
  display = ground (arith, k.display);
  kasm = ground (arith, k.kasm);
}

differs_number :
    (ns : List ℕ) (a b : ℕ) → has_number ns a ≡ true → has_number ns b ≡ false → nat_eq a b ≡ false
differs_number ns a b ha hb = elim (Bool-cases (nat_eq a b)) [
  | inl same ↦
      let e : a ≡ b = ground arith in
      absurd (let h = subst (λ n. has_number ns n ≡ true) e ha in cc)
  | inr other ↦ other
]

differs_text :
    (xs : List String) (a b : String)
    → contains xs a ≡ true
    → contains xs b ≡ false
    → (a == b) ≡ false
differs_text xs a b ha hb = elim (Bool-cases (a == b)) [
  | inl same ↦ absurd (let h = subst (λ s. contains xs s ≡ true) ((eq_iff a b).0 same) ha in cc)
  | inr other ↦ other
]

-- A profile that uses nothing of the sets is apart from those that do.
IsApart-Knows :
    (p q : BrowserProfileConfig) (seen : Seen)
    → Knows seen p
    → has_number seen.cdp_ports q.cdp_port ≡ false
    → contains seen.displays q.display ≡ false
    → has_number seen.kasm_ports q.kasm_port ≡ false
    → IsApart p q
IsApart-Knows p q seen k a b c = record {
  cdp = differs_number seen.cdp_ports p.cdp_port q.cdp_port k.cdp a;
  display = differs_text seen.displays p.display q.display k.display b;
  kasm = differs_number seen.kasm_ports p.kasm_port q.kasm_port k.kasm c;
}

IsApartFromAll-Knows :
    (p : BrowserProfileConfig) (profiles : Map BrowserProfileConfig) (seen : Seen)
    → Knows seen p
    → validate_profiles profiles seen ≡ ok tt
    → IsApartFromAll p profiles
unfolding validate_profiles
IsApartFromAll-Knows p [] seen k e = tt
IsApartFromAll-Knows p ((name, q) ∷ profiles) seen k e =
    let (seen', (accepted, rest)) =
      bind-eq-ok (validate_profile name q seen) (validate_profiles profiles) e in
    let (a, b, c, (vs, seen'_eq)) = validate_profile-adds name q seen seen' accepted in
    let known = subst (λ s. Knows s p) (sym seen'_eq) (Knows-more p q seen vs k) in
    (IsApart-Knows p q seen k a b c, IsApartFromAll-Knows p profiles seen' known rest)

-- Of the profiles that validation accepts, no two have the same CDP port, the same display or the same
-- viewer port.
pub validate_profiles-AreApart :
    (profiles : Map BrowserProfileConfig) (seen : Seen)
    → validate_profiles profiles seen ≡ ok tt
    → AreApart profiles
unfolding validate_profiles
validate_profiles-AreApart [] seen e = tt
validate_profiles-AreApart ((name, q) ∷ profiles) seen e =
    let (seen', (accepted, rest)) =
      bind-eq-ok (validate_profile name q seen) (validate_profiles profiles) e in
    let (a, b, c, (vs, seen'_eq)) = validate_profile-adds name q seen seen' accepted in
    let known = subst (λ s. Knows s q) (sym seen'_eq) (Knows-self q seen vs) in
    (
      IsApartFromAll-Knows q profiles seen' known rest,
      validate_profiles-AreApart profiles seen' rest,
    )
