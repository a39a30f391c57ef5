-- ===== src/Config/Checks.antt =====
-- crates/config/src/lib.rs: the forms of the tests of validation, and what follows where they pass.
use mathlib.Core.Path.{subst}
use clawpod.Base.{
  Bool, Bool-cases, List, Map, Option, Result, String, [], ap, arith, eq_iff, err, false,
  if◌then◌else◌, inl, inr, is_some, none, not, ok, refl, some, then-eq-ok, true, unwrap_or, ◌==◌,
  ◌>>◌, ◌∷◌, ◌≡◌,
}
use clawpod.Base.Maps

-- `bail!` under a condition.
abbrev pub bail_if : Bool → String → Result (Unit {0})
bail_if true e = err e
bail_if false e = ok tt

-- A sequence of `if .. { bail!(..) }`.
abbrev pub bail_first : List (Bool × String) → Result (Unit {0})
bail_first [] = ok tt
bail_first ((test, e) ∷ tests) = if test then err e else bail_first tests

-- Every test passes.
abbrev pub Pass : List (Bool × String) → Type 0
Pass [] = Unit
Pass ((test, e) ∷ tests) = (test ≡ false) × Pass tests

pub bail_first-eq-ok : (tests : List (Bool × String)) → bail_first tests ≡ ok tt → Pass tests
bail_first-eq-ok [] e = tt
bail_first-eq-ok ((false, s) ∷ tests) e = (refl, bail_first-eq-ok tests e)
bail_first-eq-ok ((true, s) ∷ tests) e = cc

-- A test of every entry.
abbrev pub validate_each {ℓ} :
    {V : Type ℓ} → (String → V → Result (Unit {0})) → Map V → Result (Unit {0})
validate_each check [] = ok tt
validate_each check ((key, value) ∷ entries) = check key value >> validate_each check entries

pub bail_if-eq-ok : (b : Bool) (s : String) → bail_if b s ≡ ok tt → b ≡ false
bail_if-eq-ok true s e = cc
bail_if-eq-ok false s e = refl

pub not-eq-false : (b : Bool) → not b ≡ false → b ≡ true
not-eq-false true e = refl
not-eq-false false e = cc

pub is_some-get : {A : Type 0} (o : Option A) → is_some o ≡ true → (a : A) × (o ≡ some a)
is_some-get none e = cc
is_some-get (some a) e = (a, refl)

pub validate_each-eq-ok :
    {V : Type 0} (check : String → V → Result (Unit {0})) (m : Map V)
    → validate_each check m ≡ ok tt
    → (k : String) (v : V) → Maps.get m k ≡ some v
    → check k v ≡ ok tt
unfolding Maps.get
validate_each-eq-ok check [] e k v h = cc
validate_each-eq-ok check ((j, w) ∷ m) e k v h =
    let parts = then-eq-ok (check j w) (validate_each check m) e in
    elim (Bool-cases (j == k)) [
      | inl same ↦
          let found : some w ≡ some v = ground (arith, h) in
          subst (λ x. check x v ≡ ok tt) ((eq_iff j k).0 same)
            (subst (λ x. check j x ≡ ok tt) (ap (λ o. unwrap_or o w) found) parts.0)
      | inr other ↦
          let below : Maps.get m k ≡ some v = ground (arith, h) in
          validate_each-eq-ok check m parts.1 k v below
    ]
