-- ===== src/Store/Steps.antt =====
-- crates/store/src/lib.rs: how an operation's work on the snapshot shows in its result and its file.
use clawpod.Base.{
  Result, err, panic, ap, Bool, true, false, ok, ◌≡◌, refl, Bool-cases, Result-cases, ok_injective,
  inl, inr,
}
use clawpod.Store.Records.{StoreSnapshot}
use clawpod.Store.State.{
  StateStore, StateFile, refresh_locked, refreshed, updating, transact, reading, persist_locked,
  normalize_ids, flatten,
}

module _ {ℓ} {A : Type ℓ} (st : StateStore) (s : StoreSnapshot)
    (read : refresh_locked st ≡ ok s) where
  pub transact-saves :
      (f : StoreSnapshot → A × StoreSnapshot × Bool) (a : A) (after : StoreSnapshot)
      → f s ≡ (a, after, true)
      → transact f true st ≡ (ok a, record { file = StateFile.holds after; snapshot = after })
  unfolding transact persist_locked
  transact-saves f a after e = rw (transact, read, e) refl

  pub transact-returns :
      (f : StoreSnapshot → A × StoreSnapshot × Bool) (a : A) (after : StoreSnapshot) (writes : Bool)
      → f s ≡ (a, after, false)
      → transact f writes st ≡ (ok a, record { file = st.file; snapshot = after })
  unfolding transact
  transact-returns f a after writes e = rw (transact, read, e) refl

  pub updating-saves :
      (f : StoreSnapshot → A × StoreSnapshot)
      → updating f true st
        ≡ (ok (f s).0, record { file = StateFile.holds (f s).1; snapshot = (f s).1 })
  unfolding updating
  updating-saves f =
      transact-saves (λ t. let (a, after) = f t in (a, after, true)) (f s).0 (f s).1 refl

  pub reading-ok : (f : StoreSnapshot → A) → (reading f st).0 ≡ ok (f s)
  unfolding reading
  reading-ok f = rw (reading, read) refl

-- What a process reads from a file that holds a snapshot.
pub refresh_locked-holds :
    (st : StateStore) (s : StoreSnapshot)
    → st.file ≡ StateFile.holds s
    → refresh_locked st ≡ ok (normalize_ids s)
unfolding refresh_locked refreshed
refresh_locked-holds st s e = rw (refreshed, e) refl

pub flatten-eq-ok {ℓ} :
    {A : Type ℓ} (r : Result (Result A)) {a : A} → flatten r ≡ ok a → r ≡ ok (ok a)
flatten-eq-ok (ok a) e = ap ok e
flatten-eq-ok (err s) e = cc
flatten-eq-ok (panic s) e = cc

-- A result of an operation comes of its work on the snapshot read.
pub transact-ok {ℓ} :
    {A : Type ℓ} (f : StoreSnapshot → A × StoreSnapshot × Bool) (writes : Bool) (st : StateStore)
    (a : A)
    → (transact f writes st).0 ≡ ok a
    → (s : StoreSnapshot) × (refresh_locked st ≡ ok s) × ((f s).0 ≡ a)
unfolding transact persist_locked
transact-ok f writes st a e = elim (Result-cases (refresh_locked st)) [
  | inr (m, inl failed) ↦ absurd (let e' = rw (transact, failed) at e in cc)
  | inr (m, inr failed) ↦ absurd (let e' = rw (transact, failed) at e in cc)
  | inl (s, read) ↦ elim (Bool-cases (f s).2) [
    | inr lost ↦ (s, read, ok_injective (rw (transact, read, lost) at e))
    | inl kept ↦ elim (Bool-cases writes) [
      | inl w ↦ (s, read, ok_injective (rw (transact, read, kept, w) at e))
      | inr w ↦ absurd (let e' = rw (transact, read, kept, w) at e in cc)
    ]
  ]
]
