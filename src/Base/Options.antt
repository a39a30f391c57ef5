-- ===== src/Base/Options.antt =====
-- `Option` with the `?` operator: a chain of steps that stops at the first `None`.
use mathlib.Core.Option.{Option}
use clawpod.Base.Tests.{and_then}

infixl 5 ◌>>=◌
abbrev pub ◌>>=◌ {ℓ κ} : {A : Type ℓ} {B : Type κ} → Option A → (A → Option B) → Option B
o >>= f = and_then o f
