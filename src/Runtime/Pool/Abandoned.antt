-- ===== src/Runtime/Pool/Abandoned.antt =====
-- A thread pool of src/runtime/thread_rt.c whose workers have all left, as they have when
-- duxrt_pool_shutdown returns, still takes tasks.
use dux_lang.Prelude.{ℕ, ◌+◌, ◌≤◌, ◌<◌, ◌≡◌, ◌∙◌, refl, arith}
use dux_lang.Runtime.Pool.{
  DuxPool, pool_submit, pool_wait, pool_shutdown, Step, submit, turn, finish, wait, wait_again,
  shut, worker_wakes, waiter_wakes,
}

-- No worker is left, and a task is pending.
pub record IsAbandoned (p : DuxPool) : Type 0 where
  pub nobody_left : p.workers.asleep + p.workers.awake + p.running ≡ 0
  pub pending : 0 < p.pending

pub data Steps : DuxPool → DuxPool → Type 0 where
  none_more : (p : DuxPool) → Steps p p
  one_more : (p q r : DuxPool) → Steps p q → Step q r → Steps p r

submitted-IsAbandoned :
    (p : DuxPool) (task : ℕ)
    → p.workers.asleep + p.workers.awake + p.running ≡ 0
    → IsAbandoned (pool_submit p task)
unfolding pool_submit
submitted-IsAbandoned p task h = record { nobody_left = ground (arith, h); pending = omega arith }

Step-IsAbandoned : {p p' : DuxPool} → Step p p' → IsAbandoned p → IsAbandoned p'
unfolding pool_wait pool_shutdown
Step-IsAbandoned (submit p task) s = submitted-IsAbandoned p task s.nobody_left
Step-IsAbandoned (turn p h) s = absurd (ground (arith, h, s.nobody_left))
Step-IsAbandoned (finish p h) s = absurd (ground (arith, h, s.nobody_left))
Step-IsAbandoned (wait p) s = record {
  nobody_left = ground (arith, s.nobody_left);
  pending = ground (arith, s.pending);
}
Step-IsAbandoned (wait_again p h) s = record {
  nobody_left = ground (arith, s.nobody_left);
  pending = ground (arith, s.pending);
}
Step-IsAbandoned (shut p) s = record {
  nobody_left = omega (arith, s.nobody_left);
  pending = s.pending;
}
Step-IsAbandoned (worker_wakes p h) s = absurd (ground (arith, h, s.nobody_left))
Step-IsAbandoned (waiter_wakes p h) s = record { nobody_left = s.nobody_left; pending = s.pending }

-- The threads that are in pool_wait.
abbrev pub in_wait : DuxPool → ℕ
in_wait p = p.all_done.asleep + p.all_done.awake

-- No thread leaves pool_wait, and no task is started.
pub record IsStuck (p p' : DuxPool) : Type 0 where
  pub waiting : in_wait p ≤ in_wait p'
  pub same_started : p'.started ≡ p.started

Step-IsStuck : {p p' : DuxPool} → Step p p' → IsAbandoned p → IsStuck p p'
unfolding pool_wait pool_shutdown pool_submit
Step-IsStuck (submit p task) s = record { waiting = omega arith; same_started = refl }
Step-IsStuck (turn p h) s = absurd (ground (arith, h, s.nobody_left))
Step-IsStuck (finish p h) s = absurd (ground (arith, h, s.nobody_left))
Step-IsStuck (wait p) s = record {
  waiting = ground (arith, s.pending);
  same_started = ground (arith, s.pending);
}
Step-IsStuck (wait_again p h) s = record {
  waiting = ground (arith, h, s.pending);
  same_started = ground (arith, h, s.pending);
}
Step-IsStuck (shut p) s = record { waiting = omega arith; same_started = refl }
Step-IsStuck (worker_wakes p h) s = absurd (ground (arith, h, s.nobody_left))
Step-IsStuck (waiter_wakes p h) s = record { waiting = ground (arith, h); same_started = refl }

Steps-IsAbandoned : {p p' : DuxPool} → Steps p p' → IsAbandoned p → IsAbandoned p'
Steps-IsAbandoned (none_more p) s = s
Steps-IsAbandoned (one_more p q r m n) s = Step-IsAbandoned n (Steps-IsAbandoned m s)

Steps-IsStuck : {p p' : DuxPool} → Steps p p' → IsAbandoned p → IsStuck p p'
Steps-IsStuck (none_more p) s = record { waiting = omega arith; same_started = refl }
Steps-IsStuck (one_more p q r m n) s =
    let before = Steps-IsStuck m s in
    let last = Step-IsStuck n (Steps-IsAbandoned m s) in
    record {
      waiting = omega (arith, before.waiting, last.waiting);
      same_started = last.same_started ∙ before.same_started;
    }

-- A thread that tests the condition of pool_wait sleeps.
pool_wait-asleep :
    (p : DuxPool) → IsAbandoned p → (pool_wait p).all_done.asleep ≡ p.all_done.asleep + 1
unfolding pool_wait
pool_wait-asleep p s = ground (arith, s.pending)

-- When a task has been submitted to a pool with no worker left, then after any steps of any threads
-- there is still no worker and something is pending, and a thread that calls pool_wait, or tests its
-- condition again, sleeps. From any such moment to any later one, no task is started and no thread
-- leaves pool_wait.
pub pool_submit-IsAbandoned :
    (p q r : DuxPool) (task : ℕ)
    → p.workers.asleep + p.workers.awake + p.running ≡ 0
    → Steps (pool_submit p task) q
    → Steps q r
    → IsAbandoned r
      × ((pool_wait r).all_done.asleep ≡ r.all_done.asleep + 1)
      × (in_wait q ≤ in_wait r)
      × (r.started ≡ q.started)
pool_submit-IsAbandoned p q r task h m n =
    let at_q = Steps-IsAbandoned m (submitted-IsAbandoned p task h) in
    let at_r = Steps-IsAbandoned n at_q in
    let stuck = Steps-IsStuck n at_q in
    (at_r, pool_wait-asleep r at_r, stuck.waiting, stuck.same_started)
