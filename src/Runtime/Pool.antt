-- ===== src/Runtime/Pool.antt =====
-- The thread pool of src/runtime/thread_rt.c, in the same way as its channels: what a thread does
-- between two waits, with the mutex held, is one step. Memory never runs out, every thread is made, no
-- handle is null, and the pool is not freed while it is in use. A task is a number for its function
-- and argument; what it does is not modelled, but that it ends at some time, or never.
pub mod Served
pub mod Turns
pub mod Abandoned
use dux_lang.Prelude.{
  ℕ, zero, suc, ◌+◌, ◌-◌, Bool, true, false, List, [], ◌∷◌, ◌++◌, ltb, nat_eq, if◌then◌else◌, ◌≡◌,
}
use dux_lang.Ast.{LongLong, pos, negsuc}
use dux_lang.Runtime.Channel.{Queue, sleeps, signalled, broadcast, goes_on, spurious, nobody}

-- The tasks from `head` on, and how many are not done; the workers that sleep or are awake in the
-- loop before a task, those that run a task, and those that have left; the threads in
-- duxrt_pool_wait (`all_done`); and, for the record, the tasks submitted and started so far.
pub record DuxPool : Type 0 where
  pub tasks : List ℕ
  pub pending : ℕ
  pub shutdown : Bool
  pub n_workers : ℕ
  pub workers : Queue
  pub running : ℕ
  pub gone : ℕ
  pub all_done : Queue
  pub submitted : List ℕ
  pub started : List ℕ

-- One worker at least; each begins at the loop.
abbrev pub worker_count : LongLong → ℕ
worker_count (pos n) = if nat_eq n 0 then 1 else n
worker_count (negsuc n) = 1

unfoldable pub pool_new : LongLong → DuxPool
pool_new n = record {
  tasks = [];
  pending = 0;
  shutdown = false;
  n_workers = worker_count n;
  workers = record { asleep = 0; awake = worker_count n };
  running = 0;
  gone = 0;
  all_done = nobody;
  submitted = [];
  started = [];
}

unfoldable pub pool_submit : DuxPool → ℕ → DuxPool
pool_submit p task = record p {
  tasks = p.tasks ++ (task ∷ []);
  pending = p.pending + 1;
  workers = signalled p.workers;
  submitted = p.submitted ++ (task ∷ []);
}

-- A worker with the mutex, from the test of its inner loop on: it sleeps, leaves or takes a task.
abbrev pub idle : DuxPool → DuxPool
idle p =
    if p.shutdown then record p { gone = p.gone + 1 } else record p { workers = sleeps p.workers }

abbrev pub take_task : DuxPool → ℕ → List ℕ → DuxPool
take_task p task rest = record p {
  tasks = rest;
  running = p.running + 1;
  started = p.started ++ (task ∷ []);
}

unfoldable pub worker_turn : DuxPool → DuxPool
worker_turn p = elim p.tasks [ [] ↦ idle p | task ∷ rest ↦ take_task p task rest ]

-- What a worker does behind its task, back to the loop.
abbrev pub less_pending : DuxPool → DuxPool
less_pending p = record p {
  pending = p.pending - 1;
  running = p.running - 1;
  workers = record (p.workers) { awake = p.workers.awake + 1 };
}

unfoldable pub worker_done : DuxPool → DuxPool
worker_done p =
    if nat_eq (p.pending - 1) 0
    then record (less_pending p) { all_done = broadcast p.all_done }
    else less_pending p

-- duxrt_pool_wait from the test of its loop on: it sleeps or returns.
unfoldable pub pool_wait : DuxPool → DuxPool
pool_wait p = if ltb 0 p.pending then record p { all_done = sleeps p.all_done } else p

-- duxrt_pool_shutdown up to the joins, which wait for every worker to leave.
unfoldable pub pool_shutdown : DuxPool → DuxPool
pool_shutdown p = record p { shutdown = true; workers = broadcast p.workers }

-- One step of one thread.
pub data Step : DuxPool → DuxPool → Type 0 where
  submit : (p : DuxPool) (task : ℕ) → Step p (pool_submit p task)
  turn :
      (p : DuxPool)
      → ltb 0 p.workers.awake ≡ true
      → Step p (worker_turn (record p { workers = goes_on p.workers }))
  finish : (p : DuxPool) → ltb 0 p.running ≡ true → Step p (worker_done p)
  wait : (p : DuxPool) → Step p (pool_wait p)
  wait_again :
      (p : DuxPool)
      → ltb 0 p.all_done.awake ≡ true
      → Step p (pool_wait (record p { all_done = goes_on p.all_done }))
  shut : (p : DuxPool) → Step p (pool_shutdown p)
  worker_wakes :
      (p : DuxPool)
      → ltb 0 p.workers.asleep ≡ true
      → Step p (record p { workers = spurious p.workers })
  waiter_wakes :
      (p : DuxPool)
      → ltb 0 p.all_done.asleep ≡ true
      → Step p (record p { all_done = spurious p.all_done })

pub data Reachable (n : LongLong) : DuxPool → Type 0 where
  start : Reachable n (pool_new n)
  step : (p p' : DuxPool) → Reachable n p → Step p p' → Reachable n p'
