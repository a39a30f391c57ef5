-- ===== src/Base/Maps.antt =====
-- `std::collections::HashMap` with text keys, as the list of its entries in the order in which the
-- table iterates. The order is arbitrary, so a theorem over every such list holds of every order.
use Prim.Native.String.{String}
use mathlib.Core.Path.{◌≡◌, refl, sym, ap}
use mathlib.Core.Bool.{Bool, true, false}
use mathlib.Core.Option.{Option, none, some}
use mathlib.Core.List.{List, [], ◌∷◌, Memᴰ}
use mathlib.Core.Logic.{◌↔◌, inl, inr}
use native.Mathlib.Omega.{arith}
use text.Mathlib.Text.{◌==◌}
use text.Mathlib.TextEquality.{eq_iff}
use clawpod.Base.Tests.{Bool-cases, if◌then◌else◌, is_some, option_map}

abbrev pub Map {ℓ} : Type ℓ → Type ℓ
Map V = List (String × V)

module _ {ℓ} {V : Type ℓ} where
  unfoldable pub get : Map V → String → Option V
  get [] k = none
  get ((j, v) ∷ m) k = if j == k then some v else get m k

  unfoldable pub contains_key : Map V → String → Bool
  contains_key m k = is_some (get m k)

  unfoldable pub insert : Map V → String → V → Map V
  insert [] k v = (k, v) ∷ []
  insert ((j, w) ∷ m) k v = if j == k then (j, v) ∷ m else (j, w) ∷ insert m k v

  -- `if let Some(v) = map.get_mut(k) { .. }`.
  unfoldable pub modify : Map V → String → (V → V) → Map V
  modify [] k f = []
  modify ((j, w) ∷ m) k f = if j == k then (j, f w) ∷ m else (j, w) ∷ modify m k f

  unfoldable pub remove : Map V → String → Map V
  remove [] k = []
  remove ((j, w) ∷ m) k = let rest = remove m k in if j == k then rest else (j, w) ∷ rest

  unfoldable pub retain : (String → V → Bool) → Map V → Map V
  retain p [] = []
  retain p ((j, w) ∷ m) = let rest = retain p m in if p j w then (j, w) ∷ rest else rest

  unfoldable pub values : Map V → List V
  values [] = []
  values ((j, w) ∷ m) = w ∷ values m

  pub get-insert :
      (m : Map V) (k : String) (v : V) (j : String)
      → get (insert m k v) j ≡ (if k == j then some v else get m j)
  unfolding get insert
  get-insert [] k v j = refl
  get-insert ((i, w) ∷ m) k v j =
      ground (arith, eq_iff k j, eq_iff i k, eq_iff i j, get-insert m k v j)

  pub get-modify :
      (m : Map V) (k : String) (f : V → V) (j : String)
      → get (modify m k f) j ≡ (if k == j then option_map f (get m j) else get m j)
  unfolding get modify
  get-modify [] k f j = ground arith
  get-modify ((i, w) ∷ m) k f j =
      ground (arith, eq_iff k j, eq_iff i k, eq_iff i j, get-modify m k f j)

  pub get-remove :
      (m : Map V) (k j : String) → get (remove m k) j ≡ (if k == j then none else get m j)
  unfolding get remove
  get-remove [] k j = ground arith
  get-remove ((i, w) ∷ m) k j = ground (arith, eq_iff k j, eq_iff i k, eq_iff i j, get-remove m k j)

  pub get-Mem : (m : Map V) (k : String) (v : V) → get m k ≡ some v → Memᴰ (k, v) m
  unfolding get
  get-Mem [] k v e = cc
  get-Mem ((j, w) ∷ m) k v e = elim (Bool-cases (j == k)) [
    | inl same ↦ Memᴰ.head (ground (arith, eq_iff j k))
    | inr other ↦ Memᴰ.tail (get-Mem m k v (ground arith))
  ]

  pub contains_key-Mem : (m : Map V) (k : String) (v : V) → Memᴰ (k, v) m → contains_key m k ≡ true
  unfolding contains_key get
  contains_key-Mem [] k v h = elim h [ ]
  contains_key-Mem ((j, w) ∷ m) k v (Memᴰ.head e) = rw ((eq_iff j k).1 (sym (ap (λ p. p.0) e)))
  contains_key-Mem ((j, w) ∷ m) k v (Memᴰ.tail h) = ground (arith, contains_key-Mem m k v h)

  -- No entry has the key.
  abbrev pub Lacks : Map V → String → Type 0
  Lacks [] k = Unit
  Lacks ((j, w) ∷ m) k = ((j == k) ≡ false) × Lacks m k

  pub get-eq-none_iff : (m : Map V) (k : String) → (get m k ≡ none) ↔ Lacks m k
  unfolding get
  get-eq-none_iff [] k = (λ _. tt, λ _. refl)
  get-eq-none_iff ((j, w) ∷ m) k = ground (arith, get-eq-none_iff m k)
