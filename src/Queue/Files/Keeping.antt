-- ===== src/Queue/Files/Keeping.antt =====
-- crates/queue/src/lib.rs: what a restart keeps, also one that stops at a move that fails.
use clawpod.Base.{
  ℕ, ◌+◌, arith, String, Bool, none, [], ◌∷◌, Map, ◌≡◌, refl, ◌⊎◌, inl, inr, eq_refl, ◌==◌, eq_iff,
  Bool-cases, true,
}
use clawpod.Base.Maps
use clawpod.Base.Maps.{get-insert, get-eq-none_iff}
use clawpod.Base.Keys.{IsDistinct, insert-IsDistinct, total, total-insert}
use clawpod.Queue.Names.{is_json}
use clawpod.Queue.Files.{Payload, recover_entries}

-- No name stands in both.
abbrev pub IsApart : Map Payload → Map Payload → Type 0
IsApart m n = (name : String) → (Maps.get m name ≡ none) ⊎ (Maps.get n name ≡ none)

-- What the loop keeps, whichever moves succeed: the files' weights over both folders, and that names
-- are different.
pub record Keeps (weight : Payload → ℕ) (entries incoming left back : Map Payload) : Type 0 where
  pub weights : total weight left + total weight back ≡ total weight entries + total weight incoming
  pub left_IsDistinct : IsDistinct left
  pub back_IsDistinct : IsDistinct back
  pub left_of : (name : String) → Maps.get entries name ≡ none → Maps.get left name ≡ none
  pub back_of :
      (name : String) → Maps.get entries name ≡ none → Maps.get back name ≡ Maps.get incoming name
  pub apart : IsApart left back

module _ (weight : Payload → ℕ) (a : String) (p : Payload) (entries incoming : Map Payload)
    (d : IsDistinct ((a, p) ∷ entries)) (di : IsDistinct incoming)
    (apart : IsApart ((a, p) ∷ entries) incoming) where
  first_free : Maps.get incoming a ≡ none
  unfolding Maps.get
  first_free = elim (apart a) [ inl e ↦ absurd (let e' = rw (eq_refl a) at e in cc) | inr e ↦ e ]

  gone : Maps.get entries a ≡ none
  gone = (get-eq-none_iff entries a).1 d.0

  rest-IsApart : IsApart entries incoming
  unfolding Maps.get
  rest-IsApart name = ground (arith, apart name, gone, eq_iff a name, same name)
    where
      same : (name : String) → (a == name) ≡ true → Maps.get entries name ≡ none
      same name e = rw (← ((eq_iff a name).0 e)) gone

  moved-IsApart : IsApart entries (Maps.insert incoming a p)
  unfolding Maps.get
  moved-IsApart name = ground (arith, rest-IsApart name, same name, get-insert incoming a p name)
    where
      same : (name : String) → (a == name) ≡ true → Maps.get entries name ≡ none
      same name e = rw (← ((eq_iff a name).0 e)) gone

  moved-Keeps :
      (left back : Map Payload)
      → Keeps weight entries (Maps.insert incoming a p) left back
      → Keeps weight ((a, p) ∷ entries) incoming left back
  unfolding Maps.get total
  moved-Keeps left back k = record {
    weights = omega (
      arith,
      k.weights,
      total-insert weight incoming a p ((get-eq-none_iff incoming a).0 first_free),
    );
    left_IsDistinct = k.left_IsDistinct;
    back_IsDistinct = k.back_IsDistinct;
    left_of = λ name e. ground (arith, k.left_of name);
    back_of = λ name e. ground (arith, k.back_of name, get-insert incoming a p name);
    apart = k.apart;
  }

  kept-Keeps :
      (left back : Map Payload)
      → Keeps weight entries incoming left back
      → Keeps weight ((a, p) ∷ entries) incoming ((a, p) ∷ left) back
  unfolding Maps.get total
  kept-Keeps left back k = record {
    weights = omega (arith, k.weights);
    left_IsDistinct = ((get-eq-none_iff left a).0 (k.left_of a gone), k.left_IsDistinct);
    back_IsDistinct = k.back_IsDistinct;
    left_of = λ name e. ground (arith, k.left_of name);
    back_of = λ name e. ground (arith, k.back_of name);
    apart = λ name. ground (arith, k.apart name, same name (k.back_of a gone));
  }
    where
      same :
          (name : String)
          → Maps.get back a ≡ Maps.get incoming a
          → (a == name) ≡ true
          → Maps.get back name ≡ none
      same name free e = rw (← ((eq_iff a name).0 e), free) first_free

  stopped-Keeps : Keeps weight ((a, p) ∷ entries) incoming ((a, p) ∷ entries) incoming
  stopped-Keeps = record {
    weights = refl;
    left_IsDistinct = d;
    back_IsDistinct = di;
    left_of = λ name e. e;
    back_of = λ name e. refl;
    apart = apart;
  }

pub recover_entries-Keeps :
    (weight : Payload → ℕ) (renames : String → Bool) (entries incoming : Map Payload)
    → IsDistinct entries
    → IsDistinct incoming
    → IsApart entries incoming
    → Keeps weight entries incoming
        (recover_entries renames entries incoming).1
        (recover_entries renames entries incoming).2
unfolding recover_entries
recover_entries-Keeps weight renames [] incoming d di apart = record {
  weights = refl;
  left_IsDistinct = tt;
  back_IsDistinct = di;
  left_of = λ name e. e;
  back_of = λ name e. refl;
  apart = apart;
}
recover_entries-Keeps weight renames ((a, p) ∷ entries) incoming d di apart =
    elim (Bool-cases (is_json a)) [
      | inr other ↦ rw other (
          kept-Keeps weight a p entries incoming d di apart _ _ (
            recover_entries-Keeps weight renames entries incoming d.1 di
              (rest-IsApart weight a p entries incoming d di apart)))
      | inl json ↦ elim (Bool-cases (renames a)) [
        | inr fails ↦ rw (json, fails) (stopped-Keeps weight a p entries incoming d di apart)
        | inl moves ↦
            rw (json, moves)
              (moved-Keeps weight a p entries incoming d di apart _ _ (
                recover_entries-Keeps weight renames entries (Maps.insert incoming a p) d.1
                  (insert-IsDistinct incoming a p di)
                  (moved-IsApart weight a p entries incoming d di apart)))
      ]
    ]
