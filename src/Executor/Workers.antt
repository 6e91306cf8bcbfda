-- ===== src/Executor/Workers.antt =====
-- src/executor.rs: the workers' loop against `shutdown`, with the lock of the queue and its condvar.
-- A worker is woken by a notification only: the platform may wake it without one, but need not.
use braids_rs.Base.{
  All, All-get_elem?, Bool, Bool-cases, List, [], arith, false, get_elem?, get_elem?-set_ne,
  get_elem?-set_self, if◌then◌else◌, inl, inr, lt-length, map, ne_of_==, not, refl, set, some, suc,
  true, zero, ℕ, ◌+◌, ◌-◌, ◌<◌, ◌==◌, ◌∙◌, ◌∷◌, ◌≡◌, ◌≢◌, ◌≤◌,
}

-- `idle`: about to take the lock. `poised`: it holds the lock, has found the queue empty and the flag
-- down, and is about to wait. `asleep`: it waits on the condvar. `busy`: it runs a task.
pub data Worker : Type 0 where
  idle poised asleep busy exited : Worker

-- How far `shutdown` has come: its notification follows the swap of the flag, with no lock taken.
pub data Shutdown : Type 0 where
  up flagged notified : Shutdown

-- `tasks` are in the queue, `cleared` have passed the test in `submit_boxed` and are not yet pushed, and
-- `signals` counts the calls of `notify_one` that are due.
pub record Pool : Type 0 where
  pub shutdown : Shutdown
  pub tasks : ℕ
  pub cleared : ℕ
  pub signals : ℕ
  pub workers : List Worker

abbrev pub is_up : Shutdown → Bool
is_up up = true
is_up _ = false

-- The body of the loop, once the lock is taken: what the worker does, and the tasks left.
unfoldable pub look : Pool → ℕ → Pool
look p i =
    if not (p.tasks == 0)
    then record p { workers = set p.workers i busy; tasks = p.tasks - 1 }
    else record p { workers = set p.workers i (if is_up p.shutdown then poised else exited) }

abbrev pub wake : Worker → Worker
wake asleep = idle
wake w = w

-- No worker holds the lock of the queue.
abbrev pub Unlocked : Pool → Type 0
Unlocked p = All (λ w. w ≢ poised) p.workers

pub data Step (p : Pool) : Pool → Type 0 where
  looks : (i : ℕ) → get_elem? p.workers i ≡ some idle → Unlocked p → Step p (look p i)
  waits :
      (i : ℕ)
      → get_elem? p.workers i ≡ some poised
      → Step p (record p { workers = set p.workers i asleep })
  returns :
      (i : ℕ)
      → get_elem? p.workers i ≡ some busy
      → Step p (record p { workers = set p.workers i idle })
  clears : p.shutdown ≡ up → Step p (record p { cleared = p.cleared + 1 })
  pushes :
      0 < p.cleared
      → Unlocked p
      → Step p (record p { tasks = p.tasks + 1; cleared = p.cleared - 1; signals = p.signals + 1 })
  signals_one :
      (i : ℕ)
      → 0 < p.signals
      → get_elem? p.workers i ≡ some asleep
      → Step p (record p { signals = p.signals - 1; workers = set p.workers i idle })
  signals_none :
      0 < p.signals
      → All (λ w. w ≢ asleep) p.workers
      → Step p (record p { signals = p.signals - 1 })
  flags : p.shutdown ≡ up → Step p (record p { shutdown = flagged })
  notifies :
      p.shutdown ≡ flagged → Step p (record p { shutdown = notified; workers = map wake p.workers })

pub data Steps (p : Pool) : Pool → Type 0 where
  here : Steps p p
  next : {q r : Pool} → Steps p q → Step q r → Steps p r

-- Nothing is left that could notify.
abbrev IsSilent : Pool → Type 0
IsSilent p = (p.shutdown ≡ notified) × (p.cleared ≡ 0) × (p.signals ≡ 0)

-- Such a worker is never woken.
abbrev Stuck : ℕ → Pool → Type 0
Stuck i p = IsSilent p × (get_elem? p.workers i ≡ some asleep)

set_other :
    (i j : ℕ) (ws : List Worker) (v w : Worker)
    → get_elem? ws i ≡ some asleep
    → get_elem? ws j ≡ some w
    → w ≢ asleep
    → get_elem? (set ws j v) i ≡ some asleep
set_other i j ws v w e f ne = elim (Bool-cases (j == i)) [
  | inl q ↦ absurd (ground arith)
  | inr q ↦ get_elem?-set_ne ws j i v (ne_of_== j i q) ∙ e
]

look-Stuck :
    (i j : ℕ) (p : Pool) → Stuck i p → get_elem? p.workers j ≡ some idle → Stuck i (look p j)
unfolding look
look-Stuck i j p (s, a) e = elim (Bool-cases (p.tasks == 0)) [
  | inl q ↦
      rw q (
        s,
        set_other i j p.workers (if is_up p.shutdown then poised else exited) idle a e (λ q. cc),
      )
  | inr q ↦ rw q (s, set_other i j p.workers busy idle a e (λ q. cc))
]

Stuck-Step : (i : ℕ) {p q : Pool} → Step p q → Stuck i p → Stuck i q
Stuck-Step i {p} (looks j e free) ((s, c, z), a) = look-Stuck i j p ((s, c, z), a) e
Stuck-Step i {p} (waits j e) (s, a) = (s, set_other i j p.workers asleep poised a e (λ q. cc))
Stuck-Step i {p} (returns j e) (s, a) = (s, set_other i j p.workers idle busy a e (λ q. cc))
Stuck-Step i (clears e) ((s, c, z), a) = absurd (cc)
Stuck-Step i (pushes h free) ((s, c, z), a) = absurd (omega arith)
Stuck-Step i (signals_one j h e) ((s, c, z), a) = absurd (omega arith)
Stuck-Step i (signals_none h free) ((s, c, z), a) = absurd (omega arith)
Stuck-Step i (flags e) ((s, c, z), a) = absurd (cc)
Stuck-Step i (notifies e) ((s, c, z), a) = absurd (cc)

Stuck-Steps : (i : ℕ) {p q : Pool} → Steps p q → Stuck i p → Stuck i q
Stuck-Steps i here s = s
Stuck-Steps i (next r t) s = Stuck-Step i t (Stuck-Steps i r s)

poised_lt :
    (ws : List Worker) (i : ℕ)
    → get_elem? ws i ≡ some poised
    → get_elem? (map wake ws) i ≡ some poised
poised_lt [] i e = cc
poised_lt (w ∷ ws) zero e = ground arith
poised_lt (w ∷ ws) (suc i) e = poised_lt ws i e

-- The pool after a whole `shutdown` that came between a worker's test of the flag and its wait.
abbrev missed : Pool → ℕ → Pool
missed p i = record p { shutdown = notified; workers = set (map wake p.workers) i asleep }

-- If a worker is between its test of the flag and its wait, and no submission is under way, then
-- `shutdown` can swap the flag and notify before the wait begins; from then on the worker sleeps in every
-- state that any steps lead to, so that the join on its thread does not return.
pub missed_wakeup :
    (p : Pool) (i : ℕ)
    → p.shutdown ≡ up
    → p.cleared ≡ 0
    → p.signals ≡ 0
    → get_elem? p.workers i ≡ some poised
    → (u : Pool) × Steps p u
      × (u.shutdown ≡ notified)
      × ((v : Pool) → Steps u v → get_elem? v.workers i ≡ some asleep)
missed_wakeup p i s c z e = (
  missed p i,
  next (next (next here (flags s)) (notifies refl)) (waits i (poised_lt p.workers i e)),
  refl,
  λ v r.
      (Stuck-Steps i r (
        (refl, c, z),
        get_elem?-set_self (map wake p.workers) i asleep
            (lt-length (map wake p.workers) i (poised_lt p.workers i e)),
      )).1,
)

abbrev pub AllExited : Pool → Type 0
AllExited p = All (λ w. w ≡ exited) p.workers

All-exited_get :
    (ws : List Worker) (i : ℕ) (w : Worker)
    → All (λ w. w ≡ exited) ws
    → get_elem? ws i ≡ some w
    → w ≡ exited
All-exited_get ws i w a e = All-get_elem? (λ w. w ≡ exited) ws i w a e

wake_exited : (ws : List Worker) → All (λ w. w ≡ exited) ws → map wake ws ≡ ws
wake_exited [] a = refl
wake_exited (w ∷ ws) a = ground (arith, a.0, wake_exited ws a.1)

-- With no worker left the queue never shrinks.
left_Step :
    {p q : Pool} (n : ℕ) → Step p q → AllExited p × (n ≤ p.tasks) → AllExited q × (n ≤ q.tasks)
left_Step {p} n (looks j e free) (a, h) =
    absurd (ground (arith, All-exited_get p.workers j idle a e))
left_Step {p} n (waits j e) (a, h) = absurd (ground (arith, All-exited_get p.workers j poised a e))
left_Step {p} n (returns j e) (a, h) = absurd (ground (arith, All-exited_get p.workers j busy a e))
left_Step n (clears e) (a, h) = (a, h)
left_Step n (pushes z free) (a, h) = (a, omega arith)
left_Step {p} n (signals_one j z e) (a, h) =
    absurd (ground (arith, All-exited_get p.workers j asleep a e))
left_Step n (signals_none z free) (a, h) = (a, h)
left_Step n (flags e) (a, h) = (a, h)
left_Step {p} n (notifies e) (a, h) = (rw (wake_exited p.workers a) a, h)

left_Steps :
    {p q : Pool} (n : ℕ) → Steps p q → AllExited p × (n ≤ p.tasks) → AllExited q × (n ≤ q.tasks)
left_Steps n here h = h
left_Steps n (next r s) h = left_Step n s (left_Steps n r h)

exited_unlocked : (ws : List Worker) → All (λ w. w ≡ exited) ws → All (λ w. w ≢ poised) ws
exited_unlocked [] a = tt
exited_unlocked (w ∷ ws) a = ((λ e. ground (arith, a.0)), exited_unlocked ws a.1)

-- If every worker has left while a submission has passed the test of the flag and not yet pushed, then
-- the submission succeeds, and its task stays in the queue in every state that any steps lead to.
pub lost_task :
    (p : Pool)
    → AllExited p
    → 0 < p.cleared
    → (u : Pool) × Step p u × (u.tasks ≡ p.tasks + 1) × ((v : Pool) → Steps u v → p.tasks < v.tasks)
lost_task p a pos = (
  record p { tasks = p.tasks + 1; cleared = p.cleared - 1; signals = p.signals + 1 },
  pushes pos (exited_unlocked p.workers a),
  refl,
  λ v r. omega (arith, (left_Steps (p.tasks + 1) r (a, omega arith)).1),
)
