-- ===== src/Sema/LoopExits/Flags.antt =====
-- The measure of Sema/LoopExits.antt through the actions that set a flag or push a scope.
use dux_lang.Prelude.{ℕ, Bool, true, ◌≡◌, refl}
use dux_lang.Types.{TypeId}
use dux_lang.Symbol.{push, pop}
use dux_lang.Sema.{
  Sema, Outcome, done, aborted, hangs, M, in_scope, looping, unsafely, awaiting, returning,
}
use dux_lang.Sema.LoopExits.{Adds, Added}

module _ (b : Bool) (n : ℕ) {A : Type 0} where
  in_scope_outcome :
      (c : Bool) (s : Sema) (o : Outcome A)
      → s.in_loop ≡ b
      → Added b n (record s { scopes = push c s.scopes }) o
      → Added b n s (elim o [
        | done a t ↦ done a (record t { scopes = pop t.scopes })
        | aborted t ↦ aborted t
        | hangs ↦ hangs
      ])
  in_scope_outcome c s (done a t) e h = (h.0, h.1)
  in_scope_outcome c s (aborted t) e h = tt
  in_scope_outcome c s hangs e h = tt

  looping_outcome :
      (s : Sema) (o : Outcome A)
      → s.in_loop ≡ b
      → Added true n (record s { in_loop = true }) o
      → Added b n s (elim o [
        | done a t ↦ done a (record t { in_loop = s.in_loop })
        | aborted t ↦ aborted t
        | hangs ↦ hangs
      ])
  looping_outcome s (done a t) e h = (h.0, e)
  looping_outcome s (aborted t) e h = tt
  looping_outcome s hangs e h = tt

  unsafely_outcome :
      (s : Sema) (o : Outcome A)
      → s.in_loop ≡ b
      → Added b n (record s { in_unsafe = true }) o
      → Added b n s (elim o [
        | done a t ↦ done a (record t { in_unsafe = s.in_unsafe })
        | aborted t ↦ aborted t
        | hangs ↦ hangs
      ])
  unsafely_outcome s (done a t) e h = (h.0, h.1)
  unsafely_outcome s (aborted t) e h = tt
  unsafely_outcome s hangs e h = tt

  awaiting_outcome :
      (s : Sema) (o : Outcome A)
      → s.in_loop ≡ b
      → Added b n (record s { in_await = true }) o
      → Added b n s (elim o [
        | done a t ↦ done a (record t { in_await = s.in_await })
        | aborted t ↦ aborted t
        | hangs ↦ hangs
      ])
  awaiting_outcome s (done a t) e h = (h.0, h.1)
  awaiting_outcome s (aborted t) e h = tt
  awaiting_outcome s hangs e h = tt

  returning_outcome :
      (r : TypeId) (s : Sema) (o : Outcome A)
      → s.in_loop ≡ b
      → Added b n (record s { current_return_type = r }) o
      → Added b n s (elim o [
        | done a t ↦ done a (record t { current_return_type = s.current_return_type })
        | aborted t ↦ aborted t
        | hangs ↦ hangs
      ])
  returning_outcome r s (done a t) e h = (h.0, h.1)
  returning_outcome r s (aborted t) e h = tt
  returning_outcome r s hangs e h = tt

module _ {b : Bool} {n : ℕ} {A : Type 0} {m : M A} where
  pub Adds-in_scope : (c : Bool) → Adds b n m → Adds b n (in_scope c m)
  unfolding in_scope
  Adds-in_scope c h = record {
    at = λ s e.
        in_scope_outcome b n c s (m (record s { scopes = push c s.scopes })) e
          (h.at (record s { scopes = push c s.scopes }) e);
  }

  pub Adds-looping : Adds true n m → Adds b n (looping m)
  unfolding looping
  Adds-looping h = record {
    at = λ s e.
        looping_outcome b n s (m (record s { in_loop = true })) e
          (h.at (record s { in_loop = true }) refl);
  }

  pub Adds-unsafely : Adds b n m → Adds b n (unsafely m)
  unfolding unsafely
  Adds-unsafely h = record {
    at = λ s e.
        unsafely_outcome b n s (m (record s { in_unsafe = true })) e
          (h.at (record s { in_unsafe = true }) e);
  }

  pub Adds-awaiting : Adds b n m → Adds b n (awaiting m)
  unfolding awaiting
  Adds-awaiting h = record {
    at = λ s e.
        awaiting_outcome b n s (m (record s { in_await = true })) e
          (h.at (record s { in_await = true }) e);
  }

  pub Adds-returning : (r : TypeId) → Adds b n m → Adds b n (returning r m)
  unfolding returning
  Adds-returning r h = record {
    at = λ s e.
        returning_outcome b n r s (m (record s { current_return_type = r })) e
          (h.at (record s { current_return_type = r }) e);
  }
