-- ===== src/RunEvents/Recall.antt =====
-- crates/store/src/run_events.rs: what `get_events` returns, against the history of the pushes.
use mathlib.Core.List.{append_assoc, append-nil}
use clawpod.Base.{
  min, ℕ, zero, suc, ◌+◌, ◌≤◌, ◌<◌, String, Bool, true, false, List, [], ◌∷◌, ◌++◌, Map, ◌≡◌, refl,
  sym, ap, ◌∙◌, inl, inr, Bool-cases, ltb, length, length-append, take, eq_iff, ◌==◌, arith,
  if◌then◌else◌,
}
use clawpod.Base.Maps
use clawpod.Domain.Core.{RunEvent}
use clawpod.RunEvents.{RunEventBuffer, new, push, evict, mark_completed, get_events}
use clawpod.RunEvents.Bounds.{Op, pushed, marked, run}

-- The events pushed for a run, oldest first.
abbrev pub history : String → List Op → List RunEvent
history id [] = []
history id (pushed event ∷ ops) =
    let rest = history id ops in if event.run_id == id then event ∷ rest else rest
history id (marked run_id ∷ ops) = history id ops

-- How many runs were marked as completed.
abbrev pub completions : List Op → ℕ
completions [] = 0
completions (pushed event ∷ ops) = completions ops
completions (marked run_id ∷ ops) = suc (completions ops)

take_of_short {ℓ} : {A : Type ℓ} (n : ℕ) (xs : List A) → length xs ≤ n → take n xs ≡ xs
take_of_short zero [] h = refl
take_of_short zero (x ∷ xs) h = absurd (omega arith)
take_of_short (suc n) [] h = refl
take_of_short (suc n) (x ∷ xs) h = ap (λ l. x ∷ l) (take_of_short n xs (omega arith))

-- One more element changes nothing behind a full prefix.
take-concat_full {ℓ} :
    {A : Type ℓ} (n : ℕ) (xs ys zs : List A) → n ≤ length xs → take n (xs ++ ys) ≡ take n (xs ++ zs)
take-concat_full zero xs ys zs h = refl
take-concat_full (suc n) [] ys zs h = absurd (omega arith)
take-concat_full (suc n) (x ∷ xs) ys zs h =
    ap (λ l. x ∷ l) (take-concat_full n xs ys zs (omega arith))

length-take {ℓ} : {A : Type ℓ} (n : ℕ) (xs : List A) → length (take n xs) ≡ min n (length xs)
length-take zero xs = omega arith
length-take (suc n) [] = omega arith
length-take (suc n) (x ∷ xs) = omega (arith, length-take n xs)

-- Pushing onto the kept prefix is keeping a prefix of the longer history.
take-push {ℓ} :
    {A : Type ℓ} (n : ℕ) (past : List A) (x : A)
    → (if ltb (length (take n past)) n then take n past ++ x ∷ [] else take n past)
      ≡ take n (past ++ x ∷ [])
take-push n past x = elim (Bool-cases (ltb (length past) n)) [
  | inl short ↦
      let lt : length past < n = ground arith in
      rw (take_of_short n past (omega arith), short)
        (sym (take_of_short n (past ++ x ∷ []) (rw length-append (omega arith))))
  | inr long ↦
      let le : n ≤ length past = ground arith in
      let full : ltb (length (take n past)) n ≡ false = ground (arith, length-take n past) in
      rw full (ap (take n) (sym (append-nil past)) ∙ take-concat_full n past [] (x ∷ []) le)
]

evict_room :
    (limit : ℕ) (completed : List String) (runs : Map (List RunEvent))
    → length completed ≤ limit
    → evict limit completed runs ≡ (completed, runs)
unfolding evict
evict_room limit [] runs h = refl
evict_room limit (oldest ∷ completed) runs h = ground arith

-- What is kept of the events so far, with the limits of the buffer.
record Keeps (max_runs max_events left : ℕ) (past : String → List RunEvent) (b : RunEventBuffer)
    : Type 0 where
  runs_limit : b.max_completed_runs ≡ max_runs
  events_limit : b.max_events_per_run ≡ max_events
  room : length b.completed + left ≤ max_runs
  kept : (id : String) → get_events id b ≡ take max_events (past id)

module _ (max_runs max_events : ℕ) where
  abbrev longer : RunEvent → (String → List RunEvent) → String → List RunEvent
  longer event past id = past id ++ (if event.run_id == id then event ∷ [] else [])

  push-Keeps :
      (event : RunEvent) (left : ℕ) (past : String → List RunEvent) (b : RunEventBuffer)
      → Keeps max_runs max_events left past b
      → Keeps max_runs max_events left (longer event past) (push event b)
  unfolding push get_events
  push-Keeps event left past b h = record {
    runs_limit = h.runs_limit;
    events_limit = h.events_limit;
    room = h.room;
    kept = λ id.
        rw
          (
            Maps.get-insert,
            h.events_limit,
            h.kept event.run_id,
            take-push max_events (past event.run_id) event,
          )
          (elim (Bool-cases (event.run_id == id)) [
            | inl same ↦ rw (same, (eq_iff event.run_id id).0 same)
            | inr other ↦ rw (other, append-nil) (h.kept id)
          ]);
  }

  mark_completed-Keeps :
      (run_id : String) (left : ℕ) (past : String → List RunEvent) (b : RunEventBuffer)
      → Keeps max_runs max_events (suc left) past b
      → Keeps max_runs max_events left past (mark_completed run_id b)
  unfolding mark_completed get_events
  mark_completed-Keeps run_id left past b h =
      let room : length (b.completed ++ run_id ∷ []) + left ≤ max_runs =
        omega (arith, h.room, length-append b.completed (run_id ∷ [])) in
      let same =
        evict_room b.max_completed_runs (b.completed ++ run_id ∷ []) b.runs
          (rw h.runs_limit (omega arith)) in
      record {
        runs_limit = h.runs_limit;
        events_limit = h.events_limit;
        room = rw same room;
        kept = λ id. rw same (h.kept id);
      }

  run-Keeps :
      (ops : List Op) (past : String → List RunEvent) (b : RunEventBuffer)
      → Keeps max_runs max_events (completions ops) past b
      → (id : String) → get_events id (run ops b) ≡ take max_events (past id ++ history id ops)
  run-Keeps [] past b h id = rw append-nil (h.kept id)
  run-Keeps (pushed event ∷ ops) past b h id =
      run-Keeps ops (longer event past) (push event b) (push-Keeps event (completions ops) past b h)
        id
      ∙ ap (take max_events)
          (rw append_assoc (ap (λ l. past id ++ l) (joined (event.run_id == id))))
    where
      joined :
          (same : Bool)
          → (if same then event ∷ [] else []) ++ history id ops
            ≡ (if same then event ∷ history id ops else history id ops)
      joined true = refl
      joined false = refl
  run-Keeps (marked run_id ∷ ops) past b h id =
      run-Keeps ops past (mark_completed run_id b)
        (mark_completed-Keeps run_id (completions ops) past b h) id

  new-Keeps :
      (left : ℕ)
      → left ≤ max_runs
      → Keeps max_runs max_events left (λ id. []) (new max_runs max_events)
  unfolding new get_events Maps.get
  new-Keeps left h = record {
    runs_limit = refl;
    events_limit = refl;
    room = omega arith;
    kept = λ id. empty max_events;
  }
    where
      empty : (n : ℕ) → ◌≡◌ {A = List RunEvent} [] (take n [])
      empty zero = refl
      empty (suc n) = refl

-- As long as no more runs complete than the buffer retains, `get_events` returns the events pushed
-- for the run, in the order of the pushes, up to the limit of events, however the runs interleave.
pub get_events-eq-history :
    (max_runs max_events : ℕ) (ops : List Op) (id : String)
    → completions ops ≤ max_runs
    → get_events id (run ops (new max_runs max_events)) ≡ take max_events (history id ops)
get_events-eq-history max_runs max_events ops id h =
    run-Keeps max_runs max_events ops (λ k. []) _
      (new-Keeps max_runs max_events (completions ops) h) id
