-- ===== src/Runtime/Channel/Sound.antt =====
-- What always holds of a channel of src/runtime/thread_rt.c, however its threads take turns.
use mathlib.Core.List.{append_assoc}
use dux_lang.Prelude.{
  ℕ, ◌+◌, ◌≤◌, ◌<◌, true, false, not, List, [], ◌∷◌, ◌++◌, ltb, length, length-append,
  if◌then◌else◌, ◌≡◌, ◌⊎◌, inl, inr, refl, sym, ap, subst, ◌∙◌, arith,
}
use dux_lang.Runtime.Channel.{
  World, chan_send, chan_recv, chan_try_recv, chan_close, goes_on, take_front, sleeps, send_called,
  recv_called,
}

-- `r` receivers and `t` senders are awake besides those that are counted: they hold the mutex.
pub record IsSound (r t : ℕ) (w : World) : Type 0 where
  pub counted : w.chan.len ≡ length w.chan.items
  pub bounded : (w.chan.cap ≡ 0) ⊎ (w.chan.len ≤ w.chan.cap)
  -- first in, first out, and nothing lost
  pub in_order : w.taken ++ w.chan.items ≡ w.sent
  -- while one sleeps, as many are awake as there are values to receive, or free places to send to
  pub receivers : (w.not_empty.asleep ≡ 0) ⊎ (w.chan.len ≤ w.not_empty.awake + r)
  -- and at an unbounded channel no sender sleeps
  pub senders :
      (w.not_full.asleep ≡ 0)
      ⊎ ((0 < w.chan.cap) × (w.chan.cap ≤ w.chan.len + (w.not_full.awake + t)))
  pub closed_none : (w.chan.closed ≡ false) ⊎ (w.not_empty.asleep + w.not_full.asleep ≡ 0)
  -- until it is closed, a call of send puts its value in or is not over
  pub none_dropped :
      (w.chan.closed ≡ true)
      ⊎ (w.send_calls ≡ length w.sent + (w.not_full.asleep + (w.not_full.awake + t)))
  -- and a call of recv takes a value out or is not over
  pub none_in_vain :
      (w.chan.closed ≡ true)
      ⊎ (w.recv_calls ≤ length w.taken + (w.not_empty.asleep + (w.not_empty.awake + r)))

pub one_sender : (w : World) → IsSound 0 0 w → IsSound 0 1 (send_called w)
one_sender w s = record {
  counted = s.counted;
  bounded = s.bounded;
  in_order = s.in_order;
  receivers = s.receivers;
  senders = ground (arith, s.senders);
  closed_none = s.closed_none;
  none_dropped = ground (arith, s.none_dropped);
  none_in_vain = s.none_in_vain;
}

pub one_receiver : (w : World) → IsSound 0 0 w → IsSound 1 0 (recv_called w)
one_receiver w s = record {
  counted = s.counted;
  bounded = s.bounded;
  in_order = s.in_order;
  receivers = ground (arith, s.receivers);
  senders = s.senders;
  closed_none = s.closed_none;
  none_dropped = s.none_dropped;
  none_in_vain = ground (arith, s.none_in_vain);
}

-- A call of try_recv, which is not counted.
with_slack : (w : World) → IsSound 0 0 w → IsSound 1 0 w
with_slack w s = record {
  counted = s.counted;
  bounded = s.bounded;
  in_order = s.in_order;
  receivers = ground (arith, s.receivers);
  senders = s.senders;
  closed_none = s.closed_none;
  none_dropped = s.none_dropped;
  none_in_vain = ground (arith, s.none_in_vain);
}

pub sender_goes_on :
    (w : World)
    → ltb 0 w.not_full.awake ≡ true
    → IsSound 0 0 w
    → IsSound 0 1 (record w { not_full = goes_on w.not_full })
sender_goes_on w h s = record {
  counted = s.counted;
  bounded = s.bounded;
  in_order = s.in_order;
  receivers = s.receivers;
  senders = ground (arith, h, s.senders);
  closed_none = s.closed_none;
  none_dropped = ground (arith, h, s.none_dropped);
  none_in_vain = s.none_in_vain;
}

pub receiver_goes_on :
    (w : World)
    → ltb 0 w.not_empty.awake ≡ true
    → IsSound 0 0 w
    → IsSound 1 0 (record w { not_empty = goes_on w.not_empty })
receiver_goes_on w h s = record {
  counted = s.counted;
  bounded = s.bounded;
  in_order = s.in_order;
  receivers = ground (arith, h, s.receivers);
  senders = s.senders;
  closed_none = s.closed_none;
  none_dropped = s.none_dropped;
  none_in_vain = ground (arith, h, s.none_in_vain);
}

pub chan_send-IsSound : (w : World) (val : ℕ) → IsSound 0 1 w → IsSound 0 0 (chan_send w val)
unfolding chan_send
chan_send-IsSound w val s = record {
  counted = ground (arith, s.counted, length-append w.chan.items (val ∷ []));
  bounded = ground (arith, s.bounded);
  in_order = ground (arith, s.in_order, append_assoc w.taken w.chan.items (val ∷ []));
  receivers = ground (arith, s.receivers);
  senders = ground (arith, s.senders, s.closed_none);
  closed_none = ground (arith, s.closed_none);
  none_dropped = ground (arith, s.none_dropped, length-append w.sent (val ∷ []));
  none_in_vain = ground (arith, s.none_in_vain);
}

-- A value taken off the front.
take_front-IsSound :
    (w : World) (val : ℕ) (rest : List ℕ)
    → w.chan.items ≡ val ∷ rest
    → IsSound 1 0 w
    → IsSound 0 0 (take_front w val rest)
take_front-IsSound w val rest e s = record {
  counted = ground (arith, s.counted, e);
  bounded = ground (arith, s.bounded);
  in_order =
      append_assoc w.taken (val ∷ []) rest
      ∙ ap (λ (xs : List ℕ). w.taken ++ xs) (sym e)
      ∙ s.in_order;
  receivers = ground (arith, s.receivers, s.counted, e);
  senders = ground (arith, s.senders, s.counted, e);
  closed_none = ground (arith, s.closed_none);
  none_dropped = ground (arith, s.none_dropped);
  none_in_vain = ground (arith, s.none_in_vain, length-append w.taken (val ∷ []));
}

pub chan_close-IsSound : (w : World) → IsSound 0 0 w → IsSound 0 0 (chan_close w)
unfolding chan_close
chan_close-IsSound w s = record {
  counted = s.counted;
  bounded = s.bounded;
  in_order = s.in_order;
  receivers = inl refl;
  senders = inl refl;
  closed_none = inr (omega arith);
  none_dropped = inl refl;
  none_in_vain = inl refl;
}

items_cases : (xs : List ℕ) → (xs ≡ []) ⊎ ((val : ℕ) × (rest : List ℕ) × (xs ≡ val ∷ rest))
items_cases [] = inl refl
items_cases (val ∷ rest) = inr (val, rest, refl)

-- A receiver that finds nothing: it sleeps, or returns as the channel is closed.
finds_nothing : World → World
finds_nothing w = if not w.chan.closed then record w { not_empty = sleeps w.not_empty } else w

finds_nothing-IsSound :
    (w : World) → w.chan.items ≡ [] → IsSound 1 0 w → IsSound 0 0 (finds_nothing w)
unfolding finds_nothing
finds_nothing-IsSound w e s = record {
  counted = ground (arith, s.counted);
  bounded = ground (arith, s.bounded);
  in_order = ground (arith, s.in_order);
  receivers = ground (arith, s.receivers, s.closed_none, s.counted, e);
  senders = ground (arith, s.senders);
  closed_none = ground (arith, s.closed_none);
  none_dropped = ground (arith, s.none_dropped);
  none_in_vain = ground (arith, s.none_in_vain);
}

pub chan_recv-IsSound : (w : World) → IsSound 1 0 w → IsSound 0 0 (chan_recv w)
unfolding chan_recv finds_nothing
chan_recv-IsSound w s = elim (items_cases w.chan.items) [
  | inl e ↦
      let same : finds_nothing w ≡ chan_recv w = ground (arith, e) in
      subst (IsSound 0 0) same (finds_nothing-IsSound w e s)
  | inr (val, rest, e) ↦
      let same : take_front w val rest ≡ chan_recv w = ground (arith, e) in
      subst (IsSound 0 0) same (take_front-IsSound w val rest e s)
]

pub chan_try_recv-IsSound : (w : World) → IsSound 0 0 w → IsSound 0 0 (chan_try_recv w)
unfolding chan_try_recv
chan_try_recv-IsSound w s = elim (items_cases w.chan.items) [
  | inl e ↦ let same : w ≡ chan_try_recv w = ground (arith, e) in subst (IsSound 0 0) same s
  | inr (val, rest, e) ↦
      let same : take_front w val rest ≡ chan_try_recv w = ground (arith, e) in
      subst (IsSound 0 0) same (take_front-IsSound w val rest e (with_slack w s))
]
