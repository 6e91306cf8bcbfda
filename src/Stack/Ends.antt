-- ===== src/Stack/Ends.antt =====
-- src/stack.rs: when a job is on its way to an end, and what a task must leave for that.
use braids_rs.Base.{
  Bool-cases, Option-cases, arith, done, false, inl, inr, none, panic, refl, some, true, ℕ, ◌+◌,
  ◌-◌, ◌<◌, ◌∙◌, ◌≡◌, ◌≤◌, ◌⊎◌,
}
use braids_rs.Error.{BraidError, BraidResult, ok, err, cancelled}
use braids_rs.Call.{Call, and_call}
use braids_rs.Packet.{JobPacket}
use braids_rs.Stack.{JobRecordState, queued, running}
use braids_rs.Stack.Jobs.{
  Job, Task, state_of_error, encode_task, decode_task, stage_task, cleanup_packet, settle,
  reject_scheduled_task, run_caught, schedule_plain, schedule_stage,
}

-- How many turns a task leaves at most, itself included, in a plan of `n` stages.
abbrev pub turns_of : ℕ → Task → ℕ
turns_of n encode_task = n + 2
turns_of n (stage_task i) = n - i + 1
turns_of n decode_task = 1

abbrev pub EndedState : {R : Type 0} → JobRecordState R → Type 0
EndedState queued = ⊥
EndedState running = ⊥
EndedState _ = Unit {0}

error_ends : (R : Type 0) (e : BraidError) → EndedState (state_of_error {R = R} e)
error_ends R cancelled = tt
error_ends R e = tt

module _ {R : Type 0} where
  -- No task is to come, the status is final, and no packet is kept, unless a stage panicked with it.
  abbrev pub IsEnded : Job R → Type 0
  IsEnded j = (j.next ≡ none) × EndedState j.state × ((j.slot ≡ none) ⊎ (j.slot_poisoned ≡ true))

  -- The packet is where the task looks for it.
  abbrev pub FitsTask : ℕ → Task → Job R → Type 0
  FitsTask n encode_task j = (j.slot ≡ none) × (j.slot_poisoned ≡ false)
  FitsTask n decode_task j = ((p : JobPacket) × (j.slot ≡ some p)) × (j.slot_poisoned ≡ false)
  FitsTask n (stage_task i) j =
      (i < n) × ((p : JobPacket) × (j.slot ≡ some p)) × (j.slot_poisoned ≡ false)

  abbrev pub IsReady : ℕ → ℕ → Job R → Type 0
  IsReady n turns j = (t : Task) × (j.next ≡ some t) × (turns_of n t ≤ turns) × FitsTask n t j

  abbrev pub IsOnTrack : ℕ → ℕ → Job R → Type 0
  IsOnTrack n turns j = IsEnded j ⊎ IsReady n turns j

  -- What a step must leave for `run_caught`.
  abbrev pub IsSound : ℕ → ℕ → Call (Unit {0}) (Job R) → Type 0
  IsSound n turns (done (ok _), j) = IsOnTrack n turns j
  IsSound n turns (done (err e), j) = j.next ≡ none
  IsSound n turns (panic, j) = j.next ≡ none

  cleanup_packet_lem :
      (j : Job R)
      → ((cleanup_packet j).next ≡ j.next)
        × (((cleanup_packet j).slot ≡ none) ⊎ ((cleanup_packet j).slot_poisoned ≡ true))
  unfolding cleanup_packet
  cleanup_packet_lem j = elim (Bool-cases j.slot_poisoned) [
    | inl q ↦ ground arith
    | inr q ↦ elim (Option-cases j.slot) [ inl e ↦ ground arith | inr e ↦ ground (arith, e.1) ]
  ]

  settle-IsEnded : (e : BraidError) (j : Job R) → j.next ≡ none → IsEnded (settle e j)
  unfolding settle
  settle-IsEnded e j h = let (same, gone) = cleanup_packet_lem j in (same ∙ h, error_ends R e, gone)

  pub reject-IsEnded :
      (j : Job R) (e : BraidError) → j.next ≡ none → IsEnded (reject_scheduled_task j e)
  unfolding reject_scheduled_task
  reject-IsEnded j e h = let (same, gone) = cleanup_packet_lem j in (same ∙ h, tt, gone)

  pub run_caught-IsOnTrack :
      (n turns : ℕ) (c : Call (Unit {0}) (Job R))
      → IsSound n turns c
      → IsOnTrack n turns (run_caught c)
  unfolding run_caught
  run_caught-IsOnTrack n turns (done (ok _), j) h = h
  run_caught-IsOnTrack n turns (done (err e), j) h = inl (settle-IsEnded e j h)
  run_caught-IsOnTrack n turns (panic, j) h =
      let (same, gone) = cleanup_packet_lem j in inl (same ∙ h, tt, gone)

  pub and_call-IsSound :
      {A : Type 0} (n turns : ℕ) (c : Call A (Job R)) (f : A → Job R → Call (Unit {0}) (Job R))
      → c.1.next ≡ none
      → ((a : A) (j : Job R) → j ≡ c.1 → IsSound n turns (f a j))
      → IsSound n turns (and_call c f)
  and_call-IsSound n turns (done (ok a), j) f e h = h a j refl
  and_call-IsSound n turns (done (err _), j) f e h = e
  and_call-IsSound n turns (panic, j) f e h = e

  pub schedule_plain-IsSound :
      (n : ℕ) (answer : BraidResult (Unit {0})) (j : Job R) (p : JobPacket)
      → j.next ≡ none
      → j.slot ≡ some p
      → j.slot_poisoned ≡ false
      → IsSound n 1 (schedule_plain answer decode_task j)
  unfolding schedule_plain
  schedule_plain-IsSound n (ok _) j p e s u = inr (decode_task, refl, omega arith, ((p, s), u))
  schedule_plain-IsSound n (err _) j p e s u = e

  pub schedule_stage-IsSound :
      (n i : ℕ) (answer : BraidResult (Unit {0})) (j : Job R) (p : JobPacket)
      → i < n
      → j.next ≡ none
      → j.slot ≡ some p
      → j.slot_poisoned ≡ false
      → IsSound n (n - i + 1) (schedule_stage answer i j)
  unfolding schedule_stage
  schedule_stage-IsSound n i (ok _) j p l e s u =
      inr (stage_task i, refl, omega arith, (l, (p, s), u))
  schedule_stage-IsSound n i (err w) j p l e s u = (reject-IsEnded j w e).0

  pub IsSound-le :
      (n k turns : ℕ) (c : Call (Unit {0}) (Job R)) → k ≤ turns → IsSound n k c → IsSound n turns c
  IsSound-le n k turns (done (ok _), j) l (inl h) = inl h
  IsSound-le n k turns (done (ok _), j) l (inr (t, e, r, f)) = inr (t, e, omega arith, f)
  IsSound-le n k turns (done (err _), j) l h = h
  IsSound-le n k turns (panic, j) l h = h
