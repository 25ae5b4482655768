-- ===== src/Runtime/Channel.antt =====
-- The channels of src/runtime/thread_rt.c. What a function does between two waits, with the mutex
-- held, is one step, so the steps of different threads follow one another in some order; a thread
-- that pthread_cond_wait lets go on tests its condition again, and may be let go on with no signal.
-- Memory never runs out, no handle is null, and no channel is freed while it is in use.
pub mod Sound
pub mod Turns
use dux_lang.Prelude.{
  ℕ, zero, suc, ◌+◌, ◌-◌, Bool, true, false, ◌&&◌, not, List, [], ◌∷◌, ◌++◌, ltb, leb,
  if◌then◌else◌, ◌≡◌,
}
use dux_lang.Ast.{LongLong, pos, negsuc}

-- The nodes from `head` on as the list of their values; `tail` is the last of them. A capacity of 0
-- stands for each that is not above 0: unbounded.
pub record DuxChan : Type 0 where
  pub items : List ℕ
  pub len : ℕ
  pub cap : ℕ
  pub closed : Bool

unfoldable pub chan_new : LongLong → DuxChan
chan_new (pos cap) = record { items = []; len = 0; cap = cap; closed = false }
chan_new (negsuc n) = record { items = []; len = 0; cap = 0; closed = false }

-- How many threads sleep in a wait for a condition, and how many have been let go on and have not
-- tested it again.
pub record Queue : Type 0 where
  pub asleep : ℕ
  pub awake : ℕ

-- A channel with the threads in duxrt_chan_recv (`not_empty`) and in duxrt_chan_send (`not_full`),
-- and, for the record, the values put in and taken out so far and how often each of the two was called.
pub record World : Type 0 where
  pub chan : DuxChan
  pub not_empty : Queue
  pub not_full : Queue
  pub sent : List ℕ
  pub taken : List ℕ
  pub send_calls : ℕ
  pub recv_calls : ℕ

-- pthread_cond_wait; pthread_cond_signal; pthread_cond_broadcast; a thread that goes on
abbrev pub sleeps : Queue → Queue
sleeps q = record q { asleep = q.asleep + 1 }

abbrev pub signalled : Queue → Queue
signalled q = if ltb 0 q.asleep then record q { asleep = q.asleep - 1; awake = q.awake + 1 } else q

abbrev pub broadcast : Queue → Queue
broadcast q = record q { asleep = 0; awake = q.awake + q.asleep }

abbrev pub goes_on : Queue → Queue
goes_on q = record q { awake = q.awake - 1 }

abbrev pub is_full : DuxChan → Bool
is_full c = ltb 0 c.cap && leb c.cap c.len

-- The node at the end of the list.
abbrev pub enqueued : DuxChan → ℕ → DuxChan
enqueued c val = record c { items = c.items ++ (val ∷ []); len = c.len + 1 }

-- duxrt_chan_send from the test of its loop on.
unfoldable pub chan_send : World → ℕ → World
chan_send w val =
    if is_full w.chan && not w.chan.closed
    then record w { not_full = sleeps w.not_full }
    else if w.chan.closed
    then w
    else record w {
      chan = enqueued w.chan val;
      not_empty = signalled w.not_empty;
      sent = w.sent ++ (val ∷ []);
    }

-- The node at the front, which is there, taken off.
abbrev pub take_front : World → ℕ → List ℕ → World
take_front w val rest = record w {
  chan = record (w.chan) { items = rest; len = w.chan.len - 1 };
  not_full = signalled w.not_full;
  taken = w.taken ++ (val ∷ []);
}

-- duxrt_chan_recv from the test of its loop on; it returns NULL where nothing is taken and it does not
-- sleep.
unfoldable pub chan_recv : World → World
chan_recv w = elim w.chan.items [
  | [] ↦ if not w.chan.closed then record w { not_empty = sleeps w.not_empty } else w
  | val ∷ rest ↦ take_front w val rest
]

unfoldable pub chan_try_recv : World → World
chan_try_recv w = elim w.chan.items [ [] ↦ w | val ∷ rest ↦ take_front w val rest ]

unfoldable pub chan_close : World → World
chan_close w = record w {
  chan = record (w.chan) { closed = true };
  not_empty = broadcast w.not_empty;
  not_full = broadcast w.not_full;
}

unfoldable pub chan_is_closed : World → Bool
chan_is_closed w = w.chan.closed

unfoldable pub chan_len : World → ℕ
chan_len w = w.chan.len

-- A thread is let go on with no signal.
abbrev pub spurious : Queue → Queue
spurious q = record q { asleep = q.asleep - 1; awake = q.awake + 1 }

abbrev pub send_called : World → World
send_called w = record w { send_calls = w.send_calls + 1 }

abbrev pub recv_called : World → World
recv_called w = record w { recv_calls = w.recv_calls + 1 }

-- One step of one thread: a call, or a thread that goes on after a wait.
pub data Step : World → World → Type 0 where
  send : (w : World) (val : ℕ) → Step w (chan_send (send_called w) val)
  send_again :
      (w : World) (val : ℕ)
      → ltb 0 w.not_full.awake ≡ true
      → Step w (chan_send (record w { not_full = goes_on w.not_full }) val)
  recv : (w : World) → Step w (chan_recv (recv_called w))
  recv_again :
      (w : World)
      → ltb 0 w.not_empty.awake ≡ true
      → Step w (chan_recv (record w { not_empty = goes_on w.not_empty }))
  try_recv : (w : World) → Step w (chan_try_recv w)
  close : (w : World) → Step w (chan_close w)
  send_wakes :
      (w : World)
      → ltb 0 w.not_full.asleep ≡ true
      → Step w (record w { not_full = spurious w.not_full })
  recv_wakes :
      (w : World)
      → ltb 0 w.not_empty.asleep ≡ true
      → Step w (record w { not_empty = spurious w.not_empty })

abbrev pub nobody : Queue
nobody = record { asleep = 0; awake = 0 }

abbrev pub opened : LongLong → World
opened cap = record {
  chan = chan_new cap;
  not_empty = nobody;
  not_full = nobody;
  sent = [];
  taken = [];
  send_calls = 0;
  recv_calls = 0;
}

-- What threads can come to, from a new channel on.
pub data Reachable (cap : LongLong) : World → Type 0 where
  start : Reachable cap (opened cap)
  step : (w w' : World) → Reachable cap w → Step w w' → Reachable cap w'
