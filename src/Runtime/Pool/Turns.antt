-- ===== src/Runtime/Pool/Turns.antt =====
-- The steps of a thread pool of src/runtime/thread_rt.c, one after another.
use dux_lang.Prelude.{
  ℕ, ◌+◌, ◌<◌, true, List, [], ◌∷◌, ltb, ◌≡◌, ◌⊎◌, inl, inr, refl, arith, Bool-cases,
}
use dux_lang.Ast.{LongLong, pos, negsuc}
use dux_lang.Runtime.Channel.{goes_on, spurious}
use dux_lang.Runtime.Pool.{
  DuxPool, worker_count, pool_new, pool_wait, pool_shutdown, Step, submit, turn, finish, wait,
  wait_again, shut, worker_wakes, waiter_wakes, Reachable, start, step,
}
use dux_lang.Runtime.Pool.Served.{
  IsServed, pool_submit-IsServed, worker_goes_on, worker_turn-IsServed, worker_done-IsServed,
}

pool_wait-IsServed : (p : DuxPool) → IsServed 0 p → IsServed 0 (pool_wait p)
unfolding pool_wait
pool_wait-IsServed p s = record {
  counted = ground (arith, s.counted);
  in_order = ground (arith, s.in_order);
  attended = ground (arith, s.attended);
  awaited = ground (arith, s.awaited);
  staffed = ground (arith, s.staffed);
  some_worker = ground (arith, s.some_worker);
  shut_awake = ground (arith, s.shut_awake);
  gone_shut = ground (arith, s.gone_shut);
}

waiter_goes_on :
    (p : DuxPool) → IsServed 0 p → IsServed 0 (record p { all_done = goes_on p.all_done })
waiter_goes_on p s = record {
  counted = s.counted;
  in_order = s.in_order;
  attended = s.attended;
  awaited = s.awaited;
  staffed = s.staffed;
  some_worker = s.some_worker;
  shut_awake = s.shut_awake;
  gone_shut = s.gone_shut;
}

pool_shutdown-IsServed : (p : DuxPool) → IsServed 0 p → IsServed 0 (pool_shutdown p)
unfolding pool_shutdown
pool_shutdown-IsServed p s = record {
  counted = s.counted;
  in_order = s.in_order;
  attended = inl refl;
  awaited = s.awaited;
  staffed = omega (arith, s.staffed);
  some_worker = s.some_worker;
  shut_awake = inr refl;
  gone_shut = inr refl;
}

worker_spurious :
    (p : DuxPool)
    → ltb 0 p.workers.asleep ≡ true
    → IsServed 0 p
    → IsServed 0 (record p { workers = spurious p.workers })
worker_spurious p h s = record {
  counted = s.counted;
  in_order = s.in_order;
  attended = ground (arith, h, s.attended);
  awaited = s.awaited;
  staffed = ground (arith, h, s.staffed);
  some_worker = s.some_worker;
  shut_awake = ground (arith, h, s.shut_awake);
  gone_shut = s.gone_shut;
}

waiter_spurious :
    (p : DuxPool)
    → ltb 0 p.all_done.asleep ≡ true
    → IsServed 0 p
    → IsServed 0 (record p { all_done = spurious p.all_done })
waiter_spurious p h s = record {
  counted = s.counted;
  in_order = s.in_order;
  attended = s.attended;
  awaited = ground (arith, h, s.awaited);
  staffed = s.staffed;
  some_worker = s.some_worker;
  shut_awake = s.shut_awake;
  gone_shut = s.gone_shut;
}

Step-IsServed : {p p' : DuxPool} → Step p p' → IsServed 0 p → IsServed 0 p'
Step-IsServed (submit p task) s = pool_submit-IsServed p task s
Step-IsServed (turn p h) s =
    worker_turn-IsServed (record p { workers = goes_on p.workers }) (worker_goes_on p h s)
Step-IsServed (finish p h) s = worker_done-IsServed p h s
Step-IsServed (wait p) s = pool_wait-IsServed p s
Step-IsServed (wait_again p h) s =
    pool_wait-IsServed (record p { all_done = goes_on p.all_done }) (waiter_goes_on p s)
Step-IsServed (shut p) s = pool_shutdown-IsServed p s
Step-IsServed (worker_wakes p h) s = worker_spurious p h s
Step-IsServed (waiter_wakes p h) s = waiter_spurious p h s

worker_count-positive : (n : LongLong) → 0 < worker_count n
worker_count-positive (pos n) = ground arith
worker_count-positive (negsuc n) = omega arith

pool_new-IsServed : (n : LongLong) → IsServed 0 (pool_new n)
unfolding pool_new
pool_new-IsServed n = record {
  counted = refl;
  in_order = refl;
  attended = inl refl;
  awaited = inl refl;
  staffed = omega arith;
  some_worker = worker_count-positive n;
  shut_awake = inl refl;
  gone_shut = inl refl;
}

reachable-IsServed : (n : LongLong) (p : DuxPool) → Reachable n p → IsServed 0 p
reachable-IsServed n _ start = pool_new-IsServed n
reachable-IsServed n p' (step p _ r m) = Step-IsServed m (reachable-IsServed n p r)

-- However the threads that use a new pool take turns, for whatever number of workers was asked:
-- as many tasks are pending as wait or run; the tasks are started in the order of their
-- submission, each once; nobody sleeps in pool_wait when all is done; no worker has left before
-- the shutdown; and while a task waits and the pool is not shut down, a worker is awake or runs a task.
pub pool-IsServed :
    (n : LongLong) (p : DuxPool)
    → Reachable n p
    → IsServed 0 p × ((p.tasks ≡ []) ⊎ (p.shutdown ≡ true) ⊎ (0 < p.workers.awake + p.running))
pool-IsServed n p r = let s = reachable-IsServed n p r in (s, attended_by p.tasks refl s)
  where
    attended_by :
        (ts : List ℕ)
        → p.tasks ≡ ts
        → IsServed 0 p
        → (p.tasks ≡ []) ⊎ (p.shutdown ≡ true) ⊎ (0 < p.workers.awake + p.running)
    attended_by [] e s = inl e
    attended_by (t ∷ ts) e s = elim (Bool-cases p.shutdown) [
      | inl h ↦ inr (inl h)
      | inr h ↦ inr (inr (ground (arith, h, s.attended, s.staffed, s.some_worker, s.gone_shut, e)))
    ]
