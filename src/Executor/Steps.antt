-- ===== src/Executor/Steps.antt =====
-- src/executor.rs: any interleaving of the critical sections, by any number of threads.
use braids_rs.Base.{List, [], ap, arith, length, refl, suc, true, ℕ, ◌++◌, ◌+◌, ◌<◌, ◌∷◌, ◌≡◌}
use braids_rs.Executor.{
  Executor, Queued, plain, wrapped, schedule, submit, submit_ready, push_task, take_task,
  finish_task, finish_lane, acquire_prepare, granted, finish_prepare, set_shutdown, drain_waiting,
}

-- A step, with the tasks that its caller hands over. Which of the tasks on their way moves next is
-- free; only the queue and the backend's own line are in order.
pub data Step (x : Executor) : List ℕ → Executor → Type 0 where
  schedules : (t : ℕ) → Step x (t ∷ []) (schedule x t)
  submits : (t : ℕ) → Step x (t ∷ []) (submit x t).0
  readies :
      (xs : List ℕ) (t : ℕ) (bs : List ℕ)
      → x.ready ≡ xs ++ (t ∷ bs)
      → Step x [] (submit_ready x t (xs ++ bs)).0
  pushes :
      (xs : List Queued) (q : Queued) (bs : List Queued)
      → x.cleared ≡ xs ++ (q ∷ bs)
      → Step x [] (push_task x q (xs ++ bs))
  takes : (q : Queued) (rest : List Queued) → x.queue ≡ q ∷ rest → Step x [] (take_task x q rest)
  finishes :
      (xs : List Queued) (q : Queued) (bs : List Queued)
      → x.running ≡ xs ++ (q ∷ bs)
      → Step x [] (finish_task x q (xs ++ bs))
  releases : 0 < x.releasing → Step x [] (finish_lane x)
  acquires : (u : Executor) → acquire_prepare x ≡ granted u → Step x [] u
  drops : 0 < x.preparing → Step x [] (finish_prepare x)
  shuts : Step x [] (set_shutdown x)
  drains : x.shutdown ≡ true → Step x [] (drain_waiting x)

-- The states that a sequence of steps leads to, with the tasks handed over on the way.
pub data Reach (start : Executor) : List ℕ → Executor → Type 0 where
  here : Reach start [] start
  next :
      {ts os : List ℕ} {x u : Executor} → Reach start ts x → Step x os u → Reach start (os ++ ts) u

-- How many of the tasks hold a lane.
abbrev pub wraps : List Queued → ℕ
wraps [] = 0
wraps (plain t ∷ qs) = wraps qs
wraps (wrapped t ∷ qs) = suc (wraps qs)

abbrev pub name : Queued → ℕ
name (plain t) = t
name (wrapped t) = t

pub wraps-pick :
    (xs : List Queued) (q : Queued) (bs : List Queued)
    → wraps (xs ++ (q ∷ bs)) ≡ wraps (q ∷ []) + wraps (xs ++ bs)
wraps-pick [] (plain t) bs = omega arith
wraps-pick [] (wrapped t) bs = omega arith
wraps-pick (plain t ∷ xs) q bs = wraps-pick xs q bs
wraps-pick (wrapped t ∷ xs) q bs = omega (arith, wraps-pick xs q bs)

pub wraps-push : (xs : List Queued) (q : Queued) → wraps (xs ++ q ∷ []) ≡ wraps xs + wraps (q ∷ [])
wraps-push [] q = omega arith
wraps-push (plain t ∷ xs) q = wraps-push xs q
wraps-push (wrapped t ∷ xs) q = omega (arith, wraps-push xs q)

pub length-pick {ℓ} :
    {A : Type ℓ} (xs : List A) (a : A) (bs : List A)
    → length (xs ++ (a ∷ bs)) ≡ suc (length (xs ++ bs))
length-pick [] a bs = refl
length-pick (y ∷ xs) a bs = ap suc (length-pick xs a bs)
