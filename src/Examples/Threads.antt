-- ===== src/Examples/Threads.antt =====
-- Runs of the channels and the pool of src/runtime/thread_rt.c, and each result at one of them.
use dux_lang.Prelude.{◌+◌, ◌≤◌, ◌<◌, true, [], ◌∷◌, ◌≡◌, ◌⊎◌, refl}
use dux_lang.Ast.{pos}
use dux_lang.Runtime.Channel
use dux_lang.Runtime.Channel.{
  World, chan_send, chan_recv, chan_try_recv, chan_close, chan_len, goes_on, opened, send_called,
  recv_called,
}
use dux_lang.Runtime.Channel.Sound.{IsSound}
use dux_lang.Runtime.Channel.Turns.{bound_of, channel-IsSound}
use dux_lang.Runtime.Pool
use dux_lang.Runtime.Pool.{
  DuxPool, pool_new, pool_submit, worker_turn, worker_done, pool_wait, pool_shutdown,
}
use dux_lang.Runtime.Pool.Served.{IsServed}
use dux_lang.Runtime.Pool.Turns.{pool-IsServed}
use dux_lang.Runtime.Pool.Abandoned
use dux_lang.Runtime.Pool.Abandoned.{IsAbandoned, in_wait, pool_submit-IsAbandoned}

-- A channel for one value with a value in it, and a second sender that sleeps.
abbrev one_sent : World
one_sent = chan_send (send_called (opened (pos 1))) 5

abbrev two_senders : World
two_senders = chan_send (send_called one_sent) 6

second_sleeps : two_senders.not_full.asleep ≡ 1
unfolding chan_send Channel.chan_new
second_sleeps = refl

one_value : chan_len two_senders ≡ 1
unfolding chan_len chan_send Channel.chan_new
one_value = refl

second_let_go : (chan_recv two_senders).not_full.awake ≡ 1
unfolding chan_recv chan_send Channel.chan_new
second_let_go = refl

both_in_order : (chan_recv (chan_send (chan_recv two_senders) 6)).taken ≡ 5 ∷ 6 ∷ []
unfolding chan_recv chan_send Channel.chan_new
both_in_order = refl

-- A value sent to a closed channel is dropped, and one that is in it can be received.
closed_drops : (chan_try_recv (chan_send (chan_close one_sent) 7)).taken ≡ 5 ∷ []
unfolding chan_try_recv chan_send chan_close Channel.chan_new
closed_drops = refl

two_senders-Reachable : Channel.Reachable (pos 1) two_senders
two_senders-Reachable =
    Channel.Reachable.step one_sent two_senders
      (Channel.Reachable.step (opened (pos 1)) one_sent Channel.Reachable.start
        (Channel.Step.send (opened (pos 1)) 5))
      (Channel.Step.send one_sent 6)

channel-IsSound_example :
    IsSound 0 0 (chan_recv (recv_called two_senders))
    × ((chan_recv (recv_called two_senders)).chan.cap ≡ bound_of (pos 1))
channel-IsSound_example = channel-IsSound (pos 1) (chan_recv (recv_called two_senders)) (
    Channel.Reachable.step two_senders (chan_recv (recv_called two_senders)) two_senders-Reachable
      (Channel.Step.recv two_senders))

-- A pool of one worker with a task.
abbrev one_task : DuxPool
one_task = pool_submit (pool_new (pos 1)) 9

pool-IsServed_example :
    IsServed 0 one_task
    × ((one_task.tasks ≡ [])
        ⊎ (one_task.shutdown ≡ true)
        ⊎ (0 < one_task.workers.awake + one_task.running))
pool-IsServed_example = pool-IsServed (pos 1) one_task (
    Pool.Reachable.step (pool_new (pos 1)) one_task Pool.Reachable.start
      (Pool.Step.submit (pool_new (pos 1)) 9))

-- The worker has left after the shutdown.
abbrev left : DuxPool
left = worker_turn (record (pool_shutdown (pool_new (pos 1))) {
  workers = goes_on (pool_shutdown (pool_new (pos 1))).workers;
})

worker_gone : left.gone ≡ 1
unfolding worker_turn pool_shutdown pool_new
worker_gone = refl

-- A thread that waits for a task behind the shutdown.
abbrev waiting : DuxPool
waiting = pool_wait (pool_submit left 9)

pool_submit-IsAbandoned_example :
    IsAbandoned waiting
    × ((pool_wait waiting).all_done.asleep ≡ waiting.all_done.asleep + 1)
    × (in_wait (pool_submit left 9) ≤ in_wait waiting)
    × (waiting.started ≡ (pool_submit left 9).started)
unfolding worker_turn pool_shutdown pool_new
pool_submit-IsAbandoned_example =
    pool_submit-IsAbandoned left (pool_submit left 9) waiting 9 refl
      (Abandoned.Steps.none_more (pool_submit left 9))
      (Abandoned.Steps.one_more (pool_submit left 9) (pool_submit left 9) waiting
        (Abandoned.Steps.none_more (pool_submit left 9)) (Pool.Step.wait (pool_submit left 9)))
