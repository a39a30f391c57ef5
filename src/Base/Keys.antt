-- ===== src/Base/Keys.antt =====
-- Maps whose keys are all different, as a folder's file names are, and sums over their values.
use Prim.Native.Nat.{ℕ, ◌+◌}
use Prim.Native.String.{String}
use mathlib.Core.Path.{◌≡◌, refl}
use mathlib.Core.Bool.{false}
use mathlib.Core.Option.{some}
use mathlib.Core.List.{[], ◌∷◌}
use mathlib.Core.Logic.{inl, inr}
use native.Mathlib.Omega.{arith}
use text.Mathlib.Text.{◌==◌}
use text.Mathlib.TextEquality.{eq_iff}
use clawpod.Base.Tests.{Bool-cases}
use clawpod.Base.Maps.{Map, get, insert, remove, Lacks}

module _ {ℓ} {V : Type ℓ} where
  -- No two entries have the same key.
  abbrev pub IsDistinct : Map V → Type 0
  IsDistinct [] = Unit
  IsDistinct ((j, w) ∷ m) = Lacks m j × IsDistinct m

  pub Lacks-insert :
      (m : Map V) (k j : String) (v : V) → (k == j) ≡ false → Lacks m j → Lacks (insert m k v) j
  unfolding insert
  Lacks-insert [] k j v other h = (other, tt)
  Lacks-insert ((i, w) ∷ m) k j v other h = elim (Bool-cases (i == k)) [
    | inl e ↦ rw e h
    | inr e ↦ rw e (h.0, Lacks-insert m k j v other h.1)
  ]

  pub Lacks-remove : (m : Map V) (k j : String) → Lacks m j → Lacks (remove m k) j
  unfolding remove
  Lacks-remove [] k j h = tt
  Lacks-remove ((i, w) ∷ m) k j h = elim (Bool-cases (i == k)) [
    | inl e ↦ rw e (Lacks-remove m k j h.1)
    | inr e ↦ rw e (h.0, Lacks-remove m k j h.1)
  ]

  pub insert-IsDistinct :
      (m : Map V) (k : String) (v : V) → IsDistinct m → IsDistinct (insert m k v)
  unfolding insert
  insert-IsDistinct [] k v d = (tt, tt)
  insert-IsDistinct ((i, w) ∷ m) k v d = elim (Bool-cases (i == k)) [
    | inl e ↦ rw e d
    | inr e ↦
        let flipped : (k == i) ≡ false = ground (arith, eq_iff i k, eq_iff k i) in
        rw e (Lacks-insert m k i v flipped d.0, insert-IsDistinct m k v d.1)
  ]

  pub remove-IsDistinct : (m : Map V) (k : String) → IsDistinct m → IsDistinct (remove m k)
  unfolding remove
  remove-IsDistinct [] k d = tt
  remove-IsDistinct ((i, w) ∷ m) k d = elim (Bool-cases (i == k)) [
    | inl e ↦ rw e (remove-IsDistinct m k d.1)
    | inr e ↦ rw e (Lacks-remove m k i d.0, remove-IsDistinct m k d.1)
  ]

  pub remove-eq_of_Lacks : (m : Map V) (k : String) → Lacks m k → remove m k ≡ m
  unfolding remove
  remove-eq_of_Lacks [] k h = refl
  remove-eq_of_Lacks ((i, w) ∷ m) k h = rw (h.0, remove-eq_of_Lacks m k h.1) refl

  module _ (weight : V → ℕ) where
    -- The sum of the values' weights.
    unfoldable pub total : Map V → ℕ
    total [] = 0
    total ((j, w) ∷ m) = weight w + total m

    pub total-insert :
        (m : Map V) (k : String) (v : V) → Lacks m k → total (insert m k v) ≡ weight v + total m
    unfolding total insert
    total-insert [] k v h = refl
    total-insert ((i, w) ∷ m) k v h = rw h.0 (omega (arith, total-insert m k v h.1))

    pub total-insert_over :
        (m : Map V) (k : String) (v w : V)
        → get m k ≡ some w
        → weight w + total (insert m k v) ≡ weight v + total m
    unfolding total insert get
    total-insert_over [] k v w h = cc
    total-insert_over ((i, u) ∷ m) k v w h = elim (Bool-cases (i == k)) [
      | inl e ↦ ground arith
      | inr e ↦ ground (arith, total-insert_over m k v w (rw e at h))
    ]

    pub total-remove :
        (m : Map V) (k : String) (w : V)
        → IsDistinct m
        → get m k ≡ some w
        → total m ≡ weight w + total (remove m k)
    unfolding total remove get
    total-remove [] k w d h = cc
    total-remove ((i, u) ∷ m) k w d h = elim (Bool-cases (i == k)) [
      | inl e ↦
          let same : i ≡ k = (eq_iff i k).0 e in
          let gone = remove-eq_of_Lacks m k (rw (← same) d.0) in rw (e, gone) (ground arith)
      | inr e ↦ rw e (omega (arith, total-remove m k w d.1 (rw e at h)))
    ]
