-- ===== src/Queue/Files/Recovery.antt =====
-- crates/queue/src/lib.rs: what a restart does with the files that were worked on when the program
-- stopped.
use clawpod.Base.{
  arith, String, Bool, true, false, none, some, [], ◌∷◌, Map, if◌then◌else◌, ◌≡◌, refl, inl, inr,
  ◌==◌, eq_iff, Bool-cases, or_else, contains, ok,
}
use clawpod.Base.Maps
use clawpod.Base.Maps.{Lacks, get-insert, get-eq-none_iff}
use clawpod.Base.Keys.{IsDistinct}
use clawpod.Base.Decimal.{ℤ}
use clawpod.Queue.Names.{is_json}
use clawpod.Queue.Files.{
  Payload, Folders, recover_entries, recover_processing_files, scan_incoming_files, is_due,
}
use clawpod.Queue.Files.Scans.{scan_incoming_files-IsOrdered}

abbrev pub always : String → Bool
always name = true

recover_entries-always :
    (entries incoming : Map Payload)
    → IsDistinct entries
    → ((recover_entries always entries incoming).0 ≡ ok tt)
      × ((name : String)
          → Maps.get (recover_entries always entries incoming).1 name
            ≡ (if is_json name then none else Maps.get entries name))
      × ((name : String)
          → Maps.get (recover_entries always entries incoming).2 name ≡ (
              if is_json name
              then or_else (Maps.get entries name) (Maps.get incoming name)
              else Maps.get incoming name))
unfolding recover_entries Maps.get
recover_entries-always [] incoming d = (refl, λ name. ground arith, λ name. ground arith)
recover_entries-always ((a, p) ∷ entries) incoming d = elim (Bool-cases (is_json a)) [
  | inl json ↦
      let (fine, left, back) = recover_entries-always entries (Maps.insert incoming a p) d.1 in
      rw json (
        fine,
        λ name. ground (arith, left name, eq_iff a name, json_of name json),
        λ name. ground (
          arith,
          back name,
          eq_iff a name,
          json_of name json,
          get-insert incoming a p name,
          only name,
        ),
      )
  | inr other ↦
      let (fine, left, back) = recover_entries-always entries incoming d.1 in
      rw other (
        fine,
        λ name. ground (arith, left name, eq_iff a name, not_json name other),
        λ name. ground (arith, back name, eq_iff a name, not_json name other, only name),
      )
]
  where
    json_of : (name : String) → is_json a ≡ true → (a == name) ≡ true → is_json name ≡ true
    json_of name json e = rw (← ((eq_iff a name).0 e)) json

    not_json : (name : String) → is_json a ≡ false → (a == name) ≡ true → is_json name ≡ false
    not_json name json e = rw (← ((eq_iff a name).0 e)) json

    only : (name : String) → (a == name) ≡ true → Maps.get entries name ≡ none
    only name e = (get-eq-none_iff entries name).1 (rw (← ((eq_iff a name).0 e)) d.0)

-- After a stop at any moment, a restart at which every move succeeds puts each file that was worked
-- on back among the waiting files, with its contents, and the next scan gives it as soon as it is
-- due; it is not in processing any more, and no waiting file is lost.
pub recover_processing_files_waits :
    (fs : Folders) (now : ℤ) (name : String) (payload : Payload)
    → IsDistinct fs.processing
    → Maps.get fs.processing name ≡ some payload
    → is_due now name ≡ true
    → let (result, after) = recover_processing_files always fs in
      (result ≡ ok tt)
      × (Maps.get after.incoming name ≡ some payload)
      × (Maps.get after.processing name ≡ none)
      × (contains (scan_incoming_files now after.incoming) name ≡ true)
      × ((other : String)
          → Maps.contains_key fs.incoming other ≡ true
          → Maps.contains_key after.incoming other ≡ true)
unfolding recover_processing_files Maps.contains_key
recover_processing_files_waits fs now name payload d held due =
    let (fine, left, back) = recover_entries-always fs.processing fs.incoming d in
    let json : is_json name ≡ true = (unfold is_due in ground arith) in
    let incoming : Map Payload = (recover_entries always fs.processing fs.incoming).2 in
    let waits : Maps.get incoming name ≡ some payload = ground (arith, back name) in
    let listed = (scan_incoming_files-IsOrdered now incoming).0 name in
    (
      fine,
      waits,
      ground (arith, left name),
      ground (arith, listed),
      λ other kept. ground (arith, back other),
    )
