-- ===== src/Queue/Files/Scans.antt =====
-- crates/queue/src/lib.rs: which files a scan of incoming gives, and in which order.
use clawpod.Base.{
  arith, String, true, false, ◌&&◌, ◌||◌, contains, ◌==◌, eq_iff, List, [], ◌∷◌, Map, ◌≡◌, refl, ap,
  inl, inr, Bool-cases,
}
use clawpod.Base.Maps
use clawpod.Base.Decimal.{ℤ, pos, negsuc, leb_int}
use clawpod.Queue.Names.{due_key}
use clawpod.Queue.Files.{Payload, is_due, not_after, insert_name, scan_incoming_files}

-- Neighbours in a scan are in the order of their due times.
abbrev pub IsOrdered : List String → Type 0
IsOrdered [] = Unit
IsOrdered (a ∷ []) = Unit
IsOrdered (a ∷ b ∷ names) = (leb_int (due_key a) (due_key b) ≡ true) × IsOrdered (b ∷ names)

leb_int_total : (a b : ℤ) → leb_int a b ≡ false → leb_int b a ≡ true
leb_int_total (pos m) (pos n) h = ground arith
leb_int_total (pos m) (negsuc n) h = refl
leb_int_total (negsuc m) (pos n) h = cc
leb_int_total (negsuc m) (negsuc n) h = ground arith

not_after-key : (a b : String) → not_after a b ≡ true → leb_int (due_key a) (due_key b) ≡ true
unfolding not_after
not_after-key a b h = ground arith

not_after-other : (a b : String) → not_after a b ≡ false → leb_int (due_key b) (due_key a) ≡ true
unfolding not_after
not_after-other a b h = ground (arith, leb_int_total (due_key a) (due_key b))

insert_name-IsOrdered :
    (a : String) (names : List String) → IsOrdered names → IsOrdered (insert_name a names)
unfolding insert_name
insert_name-IsOrdered a [] h = tt
insert_name-IsOrdered a (b ∷ []) h = elim (Bool-cases (not_after a b)) [
  | inl e ↦ rw e (not_after-key a b e, tt)
  | inr e ↦ rw e (not_after-other a b e, tt)
]
insert_name-IsOrdered a (b ∷ c ∷ names) h = elim (Bool-cases (not_after a b)) [
  | inl e ↦ rw e (not_after-key a b e, h)
  | inr e ↦ elim (Bool-cases (not_after a c)) [
    | inl f ↦ rw (e, f) (not_after-other a b e, (not_after-key a c f, h.1))
    | inr f ↦ rw (e, f) (h.0, rw f at (insert_name-IsOrdered a (c ∷ names) h.1))
  ]
]

contains-insert_name :
    (name a : String) (names : List String)
    → contains (insert_name a names) name ≡ (a == name || contains names name)
unfolding insert_name
contains-insert_name name a [] = refl
contains-insert_name name a (b ∷ names) = ground (arith, contains-insert_name name a names)

-- A scan gives exactly the files of the folder that are due, and it gives them in the order of their
-- due times.
pub scan_incoming_files-IsOrdered :
    (now : ℤ) (incoming : Map Payload)
    → ((name : String)
        → contains (scan_incoming_files now incoming) name
          ≡ (Maps.contains_key incoming name && is_due now name))
      × IsOrdered (scan_incoming_files now incoming)
unfolding scan_incoming_files Maps.contains_key Maps.get
scan_incoming_files-IsOrdered now [] = (λ name. refl, tt)
scan_incoming_files-IsOrdered now ((a, payload) ∷ entries) =
    let (found, sorted) = scan_incoming_files-IsOrdered now entries in
    (
      λ name. listed name (found name),
      elim (Bool-cases (is_due now a)) [
        | inl e ↦ rw e (insert_name-IsOrdered a (scan_incoming_files now entries) sorted)
        | inr e ↦ rw e sorted
      ],
    )
  where
    same_due : (name : String) → (a == name) ≡ true → is_due now a ≡ is_due now name
    same_due name e = ap (is_due now) ((eq_iff a name).0 e)

    listed :
        (name : String)
        → contains (scan_incoming_files now entries) name
          ≡ (Maps.contains_key entries name && is_due now name)
        → contains (scan_incoming_files now ((a, payload) ∷ entries)) name
          ≡ (Maps.contains_key ((a, payload) ∷ entries) name && is_due now name)
    listed name found = ground (
      arith,
      found,
      eq_iff a name,
      contains-insert_name name a (scan_incoming_files now entries),
      same_due name,
    )
