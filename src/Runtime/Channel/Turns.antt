-- ===== src/Runtime/Channel/Turns.antt =====
-- The steps of a channel of src/runtime/thread_rt.c, one after another.
use dux_lang.Prelude.{ℕ, ◌∙◌, true, ltb, ◌≡◌, inl, inr, refl, arith}
use dux_lang.Ast.{LongLong, pos, negsuc}
use dux_lang.Runtime.Channel.{
  World, chan_new, chan_send, chan_recv, chan_try_recv, chan_close, send_called, recv_called,
  goes_on, spurious, Step, send, send_again, recv, recv_again, try_recv, close, send_wakes,
  recv_wakes, opened, Reachable, start, step,
}
use dux_lang.Runtime.Channel.Sound.{
  IsSound, one_sender, one_receiver, sender_goes_on, receiver_goes_on, chan_send-IsSound,
  chan_close-IsSound, chan_recv-IsSound, chan_try_recv-IsSound,
}

spurious-IsSound :
    (w : World)
    → IsSound 0 0 w
    → (ltb 0 w.not_full.asleep ≡ true → IsSound 0 0 (record w { not_full = spurious w.not_full }))
      × (ltb 0 w.not_empty.asleep ≡ true
          → IsSound 0 0 (record w { not_empty = spurious w.not_empty }))
spurious-IsSound w s = (
  λ h. record {
    counted = s.counted;
    bounded = s.bounded;
    in_order = s.in_order;
    receivers = s.receivers;
    senders = ground (arith, h, s.senders);
    closed_none = ground (arith, h, s.closed_none);
    none_dropped = ground (arith, h, s.none_dropped);
    none_in_vain = s.none_in_vain;
  },
  λ h. record {
    counted = s.counted;
    bounded = s.bounded;
    in_order = s.in_order;
    receivers = ground (arith, h, s.receivers);
    senders = s.senders;
    closed_none = ground (arith, h, s.closed_none);
    none_dropped = s.none_dropped;
    none_in_vain = ground (arith, h, s.none_in_vain);
  },
)

Step-IsSound : {w w' : World} → Step w w' → IsSound 0 0 w → IsSound 0 0 w'
Step-IsSound (send w val) s = chan_send-IsSound (send_called w) val (one_sender w s)
Step-IsSound (send_again w val h) s =
    chan_send-IsSound (record w { not_full = goes_on w.not_full }) val (sender_goes_on w h s)
Step-IsSound (recv w) s = chan_recv-IsSound (recv_called w) (one_receiver w s)
Step-IsSound (recv_again w h) s =
    chan_recv-IsSound (record w { not_empty = goes_on w.not_empty }) (receiver_goes_on w h s)
Step-IsSound (try_recv w) s = chan_try_recv-IsSound w s
Step-IsSound (close w) s = chan_close-IsSound w s
Step-IsSound (send_wakes w h) s = (spurious-IsSound w s).0 h
Step-IsSound (recv_wakes w h) s = (spurious-IsSound w s).1 h

opened-IsSound : (cap : LongLong) → IsSound 0 0 (opened cap)
unfolding chan_new
opened-IsSound (pos cap) = record {
  counted = refl;
  bounded = inr (omega arith);
  in_order = refl;
  receivers = inl refl;
  senders = inl refl;
  closed_none = inl refl;
  none_dropped = inr refl;
  none_in_vain = inr (omega arith);
}
opened-IsSound (negsuc n) = record {
  counted = refl;
  bounded = inl refl;
  in_order = refl;
  receivers = inl refl;
  senders = inl refl;
  closed_none = inl refl;
  none_dropped = inr refl;
  none_in_vain = inr (omega arith);
}

-- The capacity that was asked for, 0 for one that is not above 0.
abbrev pub bound_of : LongLong → ℕ
bound_of (pos cap) = cap
bound_of (negsuc n) = 0

Step-same_cap : {w w' : World} → Step w w' → w'.chan.cap ≡ w.chan.cap
unfolding chan_send chan_close chan_recv chan_try_recv
Step-same_cap (send w val) = ground arith
Step-same_cap (send_again w val h) = ground arith
Step-same_cap (recv w) = ground arith
Step-same_cap (recv_again w h) = ground arith
Step-same_cap (try_recv w) = ground arith
Step-same_cap (close w) = refl
Step-same_cap (send_wakes w h) = refl
Step-same_cap (recv_wakes w h) = refl

-- However the threads that use a new channel take turns, and whatever waits are let go on with no
-- signal: the length is the number of values; the capacity is the one asked for (0, unbounded, for one
-- that is not above 0), and the length is not above a capacity above 0. The values taken out and then
-- those in it are the values put in, in their order. Until the channel is closed, there are as many
-- calls of send as values put in and senders that wait, and no more calls of recv than values taken
-- out and receivers that wait. While a receiver sleeps, no fewer receivers are awake than there are
-- values; a sender sleeps at a channel with a capacity above 0 only, and then no fewer senders are
-- awake than there are free places; nobody sleeps at a closed channel.
pub channel-IsSound :
    (cap : LongLong) (w : World) → Reachable cap w → IsSound 0 0 w × (w.chan.cap ≡ bound_of cap)
unfolding chan_new
channel-IsSound (pos cap) _ start = (opened-IsSound (pos cap), refl)
channel-IsSound (negsuc n) _ start = (opened-IsSound (negsuc n), refl)
channel-IsSound cap w' (step w _ r m) =
    let (s, e) = channel-IsSound cap w r in (Step-IsSound m s, Step-same_cap m ∙ e)
