-- ===== src/Runtime/Pool/Served.antt =====
-- What always holds of a thread pool of src/runtime/thread_rt.c, however its threads take turns.
use mathlib.Core.List.{append_assoc}
use dux_lang.Prelude.{
  ℕ, ◌+◌, ◌≤◌, ◌<◌, true, false, List, [], ◌∷◌, ◌++◌, ltb, length, length-append, ◌≡◌, ◌⊎◌, inl,
  inr, refl, sym, ap, subst, ◌∙◌, arith,
}
use dux_lang.Runtime.Channel.{goes_on}
use dux_lang.Runtime.Pool.{DuxPool, pool_submit, idle, take_task, worker_turn, worker_done}

-- `k` workers are awake besides those that are counted: they hold the mutex.
pub record IsServed (k : ℕ) (p : DuxPool) : Type 0 where
  pub counted : p.pending ≡ length p.tasks + p.running
  -- started in the order of their submission, each once
  pub in_order : p.started ++ p.tasks ≡ p.submitted
  -- while a worker sleeps, as many are awake as there are tasks
  pub attended : (p.workers.asleep ≡ 0) ⊎ (length p.tasks ≤ p.workers.awake + k)
  -- nobody sleeps in a wait for tasks that are all done
  pub awaited : (p.all_done.asleep ≡ 0) ⊎ (0 < p.pending)
  pub staffed : p.workers.asleep + (p.workers.awake + k) + p.running + p.gone ≡ p.n_workers
  pub some_worker : 0 < p.n_workers
  pub shut_awake : (p.shutdown ≡ false) ⊎ (p.workers.asleep ≡ 0)
  pub gone_shut : (p.gone ≡ 0) ⊎ (p.shutdown ≡ true)

pub pool_submit-IsServed : (p : DuxPool) (task : ℕ) → IsServed 0 p → IsServed 0 (pool_submit p task)
unfolding pool_submit
pool_submit-IsServed p task s = record {
  counted = ground (arith, s.counted, length-append p.tasks (task ∷ []));
  in_order = ground (arith, s.in_order, append_assoc p.started p.tasks (task ∷ []));
  attended = ground (arith, s.attended, length-append p.tasks (task ∷ []));
  awaited = ground (arith, s.awaited);
  staffed = ground (arith, s.staffed);
  some_worker = s.some_worker;
  shut_awake = ground (arith, s.shut_awake);
  gone_shut = s.gone_shut;
}

pub worker_goes_on :
    (p : DuxPool)
    → ltb 0 p.workers.awake ≡ true
    → IsServed 0 p
    → IsServed 1 (record p { workers = goes_on p.workers })
worker_goes_on p h s = record {
  counted = s.counted;
  in_order = s.in_order;
  attended = ground (arith, h, s.attended);
  awaited = s.awaited;
  staffed = ground (arith, h, s.staffed);
  some_worker = s.some_worker;
  shut_awake = s.shut_awake;
  gone_shut = s.gone_shut;
}

idle-IsServed : (p : DuxPool) → p.tasks ≡ [] → IsServed 1 p → IsServed 0 (idle p)
idle-IsServed p e s = record {
  counted = ground (arith, s.counted);
  in_order = ground (arith, s.in_order);
  attended = ground (arith, s.attended, s.shut_awake, e);
  awaited = ground (arith, s.awaited);
  staffed = ground (arith, s.staffed);
  some_worker = ground (arith, s.some_worker);
  shut_awake = ground (arith, s.shut_awake);
  gone_shut = ground (arith, s.gone_shut);
}

take_task-IsServed :
    (p : DuxPool) (task : ℕ) (rest : List ℕ)
    → p.tasks ≡ task ∷ rest
    → IsServed 1 p
    → IsServed 0 (take_task p task rest)
take_task-IsServed p task rest e s = record {
  counted = ground (arith, s.counted, e);
  in_order =
      append_assoc p.started (task ∷ []) rest
      ∙ ap (λ (xs : List ℕ). p.started ++ xs) (sym e)
      ∙ s.in_order;
  attended = ground (arith, s.attended, e);
  awaited = s.awaited;
  staffed = ground (arith, s.staffed);
  some_worker = s.some_worker;
  shut_awake = s.shut_awake;
  gone_shut = s.gone_shut;
}

tasks_cases : (xs : List ℕ) → (xs ≡ []) ⊎ ((task : ℕ) × (rest : List ℕ) × (xs ≡ task ∷ rest))
tasks_cases [] = inl refl
tasks_cases (task ∷ rest) = inr (task, rest, refl)

pub worker_turn-IsServed : (p : DuxPool) → IsServed 1 p → IsServed 0 (worker_turn p)
unfolding worker_turn
worker_turn-IsServed p s = elim (tasks_cases p.tasks) [
  | inl e ↦
      let same : idle p ≡ worker_turn p = ground (arith, e) in
      subst (IsServed 0) same (idle-IsServed p e s)
  | inr (task, rest, e) ↦
      let same : take_task p task rest ≡ worker_turn p = ground (arith, e) in
      subst (IsServed 0) same (take_task-IsServed p task rest e s)
]

pub worker_done-IsServed :
    (p : DuxPool) → ltb 0 p.running ≡ true → IsServed 0 p → IsServed 0 (worker_done p)
unfolding worker_done
worker_done-IsServed p h s = record {
  counted = ground (arith, h, s.counted);
  in_order = ground (arith, s.in_order);
  attended = ground (arith, s.attended);
  awaited = ground (arith, s.awaited);
  staffed = ground (arith, h, s.staffed);
  some_worker = ground (arith, s.some_worker);
  shut_awake = ground (arith, s.shut_awake);
  gone_shut = ground (arith, s.gone_shut);
}
