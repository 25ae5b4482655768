-- ===== src/Sema/FrameFlags.antt =====
-- Frames for the actions of Sema.antt that set a flag, or push a scope, and put it back.
use dux_lang.Prelude.{String, Bool, true, refl}
use dux_lang.Types.{TypeId}
use dux_lang.Symbol.{push, pop}
use dux_lang.Symbol.Growth.{Grows-refl, pop-Grows-push}
use dux_lang.Sema.{
  Sema, Outcome, done, aborted, hangs, M, in_scope, looping, unsafely, awaiting, returning,
  within_class,
}
use dux_lang.Sema.Frame.{Framed, Keeps}

module _ {A : Type 0} where
  in_scope_framed :
      (is_class : Bool) (s : Sema) (o : Outcome A)
      → Framed (record s { scopes = push is_class s.scopes }) o
      → Framed s (elim o [
        | done a t ↦ done a (record t { scopes = pop t.scopes })
        | aborted t ↦ aborted t
        | hangs ↦ hangs
      ])
  in_scope_framed is_class s (done a t) h = record {
    return_type = h.return_type;
    class_name = h.class_name;
    class_type = h.class_type;
    loop = h.loop;
    unsafe = h.unsafe;
    await = h.await;
    scopes = rw (pop-Grows-push is_class h.scopes) (Grows-refl s.scopes);
    types = h.types;
    errors = h.errors;
    counted = h.counted;
    below = h.below;
  }
  in_scope_framed is_class s (aborted t) h = record {
    counted = h.counted;
    errors = h.errors;
    limit = h.limit;
  }
  in_scope_framed is_class s hangs h = tt

  pub Keeps-in_scope : (is_class : Bool) (m : M A) → Keeps m → Keeps (in_scope is_class m)
  unfolding in_scope
  Keeps-in_scope is_class m k = record {
    at =
        λ s. in_scope_framed is_class s (m (record s { scopes = push is_class s.scopes })) (k.at _);
  }

  looping_framed :
      (s : Sema) (o : Outcome A)
      → Framed (record s { in_loop = true }) o
      → Framed s (elim o [
        | done a t ↦ done a (record t { in_loop = s.in_loop })
        | aborted t ↦ aborted t
        | hangs ↦ hangs
      ])
  looping_framed s (done a t) h = record {
    return_type = h.return_type;
    class_name = h.class_name;
    class_type = h.class_type;
    loop = refl;
    unsafe = h.unsafe;
    await = h.await;
    scopes = h.scopes;
    types = h.types;
    errors = h.errors;
    counted = h.counted;
    below = h.below;
  }
  looping_framed s (aborted t) h = record {
    counted = h.counted;
    errors = h.errors;
    limit = h.limit;
  }
  looping_framed s hangs h = tt

  pub Keeps-looping : (m : M A) → Keeps m → Keeps (looping m)
  unfolding looping
  Keeps-looping m k = record {
    at = λ s. looping_framed s (m (record s { in_loop = true })) (k.at _);
  }

  unsafely_framed :
      (s : Sema) (o : Outcome A)
      → Framed (record s { in_unsafe = true }) o
      → Framed s (elim o [
        | done a t ↦ done a (record t { in_unsafe = s.in_unsafe })
        | aborted t ↦ aborted t
        | hangs ↦ hangs
      ])
  unsafely_framed s (done a t) h = record {
    return_type = h.return_type;
    class_name = h.class_name;
    class_type = h.class_type;
    loop = h.loop;
    unsafe = refl;
    await = h.await;
    scopes = h.scopes;
    types = h.types;
    errors = h.errors;
    counted = h.counted;
    below = h.below;
  }
  unsafely_framed s (aborted t) h = record {
    counted = h.counted;
    errors = h.errors;
    limit = h.limit;
  }
  unsafely_framed s hangs h = tt

  pub Keeps-unsafely : (m : M A) → Keeps m → Keeps (unsafely m)
  unfolding unsafely
  Keeps-unsafely m k = record {
    at = λ s. unsafely_framed s (m (record s { in_unsafe = true })) (k.at _);
  }

  awaiting_framed :
      (s : Sema) (o : Outcome A)
      → Framed (record s { in_await = true }) o
      → Framed s (elim o [
        | done a t ↦ done a (record t { in_await = s.in_await })
        | aborted t ↦ aborted t
        | hangs ↦ hangs
      ])
  awaiting_framed s (done a t) h = record {
    return_type = h.return_type;
    class_name = h.class_name;
    class_type = h.class_type;
    loop = h.loop;
    unsafe = h.unsafe;
    await = refl;
    scopes = h.scopes;
    types = h.types;
    errors = h.errors;
    counted = h.counted;
    below = h.below;
  }
  awaiting_framed s (aborted t) h = record {
    counted = h.counted;
    errors = h.errors;
    limit = h.limit;
  }
  awaiting_framed s hangs h = tt

  pub Keeps-awaiting : (m : M A) → Keeps m → Keeps (awaiting m)
  unfolding awaiting
  Keeps-awaiting m k = record {
    at = λ s. awaiting_framed s (m (record s { in_await = true })) (k.at _);
  }

  returning_framed :
      (r : TypeId) (s : Sema) (o : Outcome A)
      → Framed (record s { current_return_type = r }) o
      → Framed s (elim o [
        | done a t ↦ done a (record t { current_return_type = s.current_return_type })
        | aborted t ↦ aborted t
        | hangs ↦ hangs
      ])
  returning_framed r s (done a t) h = record {
    return_type = refl;
    class_name = h.class_name;
    class_type = h.class_type;
    loop = h.loop;
    unsafe = h.unsafe;
    await = h.await;
    scopes = h.scopes;
    types = h.types;
    errors = h.errors;
    counted = h.counted;
    below = h.below;
  }
  returning_framed r s (aborted t) h = record {
    counted = h.counted;
    errors = h.errors;
    limit = h.limit;
  }
  returning_framed r s hangs h = tt

  pub Keeps-returning : (r : TypeId) (m : M A) → Keeps m → Keeps (returning r m)
  unfolding returning
  Keeps-returning r m k = record {
    at = λ s. returning_framed r s (m (record s { current_return_type = r })) (k.at _);
  }

  within_class_framed :
      (name : String) (c : TypeId) (s : Sema) (o : Outcome A)
      → Framed (record s { current_class_name = name; current_class_type = c }) o
      → Framed s (elim o [
        | done a t ↦ done a (record t {
          current_class_name = s.current_class_name;
          current_class_type = s.current_class_type;
        })
        | aborted t ↦ aborted t
        | hangs ↦ hangs
      ])
  within_class_framed name c s (done a t) h = record {
    return_type = h.return_type;
    class_name = refl;
    class_type = refl;
    loop = h.loop;
    unsafe = h.unsafe;
    await = h.await;
    scopes = h.scopes;
    types = h.types;
    errors = h.errors;
    counted = h.counted;
    below = h.below;
  }
  within_class_framed name c s (aborted t) h = record {
    counted = h.counted;
    errors = h.errors;
    limit = h.limit;
  }
  within_class_framed name c s hangs h = tt

  pub Keeps-within_class :
      (name : String) (c : TypeId) (m : M A) → Keeps m → Keeps (within_class name c m)
  unfolding within_class
  Keeps-within_class name c m k = record {
    at = λ s.
        within_class_framed name c s
          (m (record s { current_class_name = name; current_class_type = c })) (k.at _);
  }
