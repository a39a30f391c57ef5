-- ===== src/Base/Signed.antt =====
-- `i64`: its order, `max`, and the addition of one, which wraps.
use Prim.Native.Nat.{zero, suc, ◌+◌, ◌-◌}
use mathlib.Core.Path.{◌≡◌, refl}
use mathlib.Core.Bool.{true, false}
use mathlib.Core.Logic.{inl, inr}
use mathlib.Core.List.{List, [], ◌∷◌}
use native.Mathlib.Omega.{arith}
use clawpod.Base.Tests.{ltb, if◌then◌else◌, Bool-cases}
use clawpod.Base.Decimal.{ℤ, pos, negsuc, leb_int, i64_bound}

abbrev pub max_int : ℤ → ℤ → ℤ
max_int a b = if leb_int a b then b else a

-- `iter().max().unwrap_or_default()`.
abbrev pub largest : List ℤ → ℤ
largest [] = pos 0
largest (n ∷ []) = n
largest (n ∷ m ∷ ns) = max_int n (largest (m ∷ ns))

-- `+= 1`.
unfoldable pub add_one : ℤ → ℤ
add_one (pos n) = if ltb (n + 1) i64_bound then pos (n + 1) else negsuc (i64_bound - 1)
add_one (negsuc zero) = pos 0
add_one (negsuc (suc n)) = negsuc n

abbrev pub i64_max : ℤ
i64_max = pos (i64_bound - 1)

-- Strictly below.
abbrev pub IsBelow : ℤ → ℤ → Type 0
IsBelow a b = leb_int b a ≡ false

leb_int_refl : (a : ℤ) → leb_int a a ≡ true
leb_int_refl (pos n) = ground arith
leb_int_refl (negsuc n) = ground arith

leb_int_trans : (a b c : ℤ) → leb_int a b ≡ true → leb_int b c ≡ true → leb_int a c ≡ true
leb_int_trans (pos a) (pos b) (pos c) h k = ground arith
leb_int_trans (pos a) (pos b) (negsuc c) h k = cc
leb_int_trans (pos a) (negsuc b) c h k = cc
leb_int_trans (negsuc a) (pos b) (pos c) h k = refl
leb_int_trans (negsuc a) (pos b) (negsuc c) h k = cc
leb_int_trans (negsuc a) (negsuc b) (pos c) h k = refl
leb_int_trans (negsuc a) (negsuc b) (negsuc c) h k = ground arith

leb_int_total : (a b : ℤ) → leb_int a b ≡ false → leb_int b a ≡ true
leb_int_total (pos a) (pos b) h = ground arith
leb_int_total (pos a) (negsuc b) h = refl
leb_int_total (negsuc a) (pos b) h = cc
leb_int_total (negsuc a) (negsuc b) h = ground arith

max_int_left : (a b : ℤ) → leb_int a (max_int a b) ≡ true
max_int_left a b = elim (Bool-cases (leb_int a b)) [
  | inl le ↦ rw le le
  | inr gt ↦ rw gt (leb_int_refl a)
]

max_int_right : (a b : ℤ) → leb_int b (max_int a b) ≡ true
max_int_right a b = elim (Bool-cases (leb_int a b)) [
  | inl le ↦ rw le (leb_int_refl b)
  | inr gt ↦ rw gt (leb_int_total a b gt)
]

-- Nothing of the list is above its largest number.
abbrev pub AreUpTo : ℤ → List ℤ → Type 0
AreUpTo k [] = Unit
AreUpTo k (n ∷ ns) = (leb_int n k ≡ true) × AreUpTo k ns

AreUpTo-trans : (a b : ℤ) (ns : List ℤ) → leb_int a b ≡ true → AreUpTo a ns → AreUpTo b ns
AreUpTo-trans a b [] h u = tt
AreUpTo-trans a b (n ∷ ns) h u = (leb_int_trans n a b u.0 h, AreUpTo-trans a b ns h u.1)

pub largest-AreUpTo : (ns : List ℤ) → AreUpTo (largest ns) ns
largest-AreUpTo [] = tt
largest-AreUpTo (n ∷ []) = (leb_int_refl n, tt)
largest-AreUpTo (n ∷ m ∷ ns) = (
  max_int_left n (largest (m ∷ ns)),
  AreUpTo-trans (largest (m ∷ ns)) (max_int n (largest (m ∷ ns))) (m ∷ ns)
      (max_int_right n (largest (m ∷ ns))) (largest-AreUpTo (m ∷ ns)),
)

-- One more than a number below the maximum is above all that is up to the number.
pub add_one-IsBelow : (a b : ℤ) → IsBelow b i64_max → leb_int a b ≡ true → IsBelow a (add_one b)
unfolding add_one
add_one-IsBelow (pos a) (pos b) small le = ground arith
add_one-IsBelow (pos a) (negsuc b) small le = cc
add_one-IsBelow (negsuc a) (pos b) small le = ground arith
add_one-IsBelow (negsuc a) (negsuc zero) small le = refl
add_one-IsBelow (negsuc a) (negsuc (suc b)) small le = ground arith
