-- ===== src/Base/Results.antt =====
-- `anyhow::Result`: a value, or an error with its message. A panic, which no caller here catches, is
-- the third case.
use Prim.Native.String.{String}
use mathlib.Core.Option.{Option, none, some}
use mathlib.Core.Path.{◌≡◌, refl}
use mathlib.Core.Logic.{◌⊎◌, inl, inr}

pub data Result {ℓ} (A : Type ℓ) : Type ℓ where
  ok : A → Result A
  err : String → Result A
  panic : String → Result A

infixl 5 ◌>>=◌ ◌>>◌
abbrev pub ◌>>=◌ {ℓ κ} : {A : Type ℓ} {B : Type κ} → Result A → (A → Result B) → Result B
ok a >>= f = f a
err e >>= f = err e
panic e >>= f = panic e

abbrev pub ◌>>◌ {ℓ} : {B : Type ℓ} → Result (Unit {0}) → Result B → Result B
m >> k = m >>= λ _. k

-- `ok_or_else(|| anyhow!(..))` and `with_context`.
abbrev pub ok_or {ℓ} : {A : Type ℓ} → Option A → String → Result A
ok_or none e = err e
ok_or (some a) e = ok a

-- `expect`.
abbrev pub or_panic {ℓ} : {A : Type ℓ} → Option A → String → Result A
or_panic none e = panic e
or_panic (some a) e = ok a

-- To split on a result and keep the equation.
pub Result-cases {ℓ} :
    {A : Type ℓ} (m : Result A)
    → ((a : A) × (m ≡ ok a)) ⊎ ((s : String) × ((m ≡ err s) ⊎ (m ≡ panic s)))
Result-cases (ok a) = inl (a, refl)
Result-cases (err s) = inr (s, inl refl)
Result-cases (panic s) = inr (s, inr refl)

pub ok_or-eq-ok {ℓ} :
    {A : Type ℓ} (o : Option A) (s : String) {a : A} → ok_or o s ≡ ok a → o ≡ some a
ok_or-eq-ok none s e = cc
ok_or-eq-ok (some b) s e = cc

pub ok_injective {ℓ} : {A : Type ℓ} {a b : A} → ok a ≡ ok b → a ≡ b
ok_injective e = cc

-- A chain that returns went on from a value of its first part.
pub bind-eq-ok {ℓ κ} :
    {A : Type ℓ} {B : Type κ} (first : Result A) (then : A → Result B) {r : B}
    → (first >>= then) ≡ ok r
    → (v : A) × ((first ≡ ok v) × (then v ≡ ok r))
bind-eq-ok (panic text) then returns = cc
bind-eq-ok (err text) then returns = cc
bind-eq-ok (ok v) then returns = (v, (refl, returns))

pub then-eq-ok {ℓ} :
    {B : Type ℓ} (first : Result (Unit {0})) (rest : Result B) {r : B}
    → (first >> rest) ≡ ok r
    → (first ≡ ok tt) × (rest ≡ ok r)
then-eq-ok first rest returns =
    let (v, parts) = bind-eq-ok first (λ _. rest) returns in (parts.0, parts.1)
