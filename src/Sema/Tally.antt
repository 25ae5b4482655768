-- ===== src/Sema/Tally.antt =====
-- The count of errors across the passes over declarations: how many an action adds at least, and
-- that the analyser and the driver count the same ones.
pub mod Hoist
pub mod Declarations
use dux_lang.Prelude.{
  ℕ, ◌+◌, ◌≤◌, ◌<◌, String, Bool, true, false, ◌≡◌, refl, ◌∙◌, Option, none, some, arith,
  if◌then◌else◌,
}
use dux_lang.Types.{TypeId, TypeRegistry}
use dux_lang.Symbol.{Symbol, push, pop}
use dux_lang.Diagnostics.{max_errors}
use dux_lang.Sema.{
  Sema, Outcome, done, aborted, hangs, M, pure, ◌>>=◌, on_types, in_scope, returning, within_class,
}
use dux_lang.Sema.Hoist.{define_in_global}
use dux_lang.Sema.Frame.{Keeps, Framed, Aborted, Keeps-pure, keeps_rules}
use dux_lang.Sema.LoopExits.{Adds, Added, quiet}

pub record Tallied (b : Bool) (n : ℕ) (s t : Sema) : Type 0 where
  pub added : s.error_count + n ≤ t.error_count
  pub loop : t.in_loop ≡ b
  pub counted : t.error_count + s.driver.error_count ≡ s.error_count + t.driver.error_count
  pub below : s.driver.error_count < max_errors → t.driver.error_count < max_errors

abbrev pub Tallies : {A : Type 0} → Bool → ℕ → Sema → Outcome A → Type 0
Tallies b n s (done a t) = Tallied b n s t
Tallies b n s (aborted t) = Aborted s t
Tallies b n s hangs = Unit

pub record Tally {A : Type 0} (b : Bool) (n : ℕ) (m : M A) : Type 0 where
  pub at : (s : Sema) → s.in_loop ≡ b → Tallies b n s (m s)

module _ (b : Bool) where
  of_outcome :
      {A : Type 0} (n : ℕ) (s : Sema) (o : Outcome A) → Framed s o → Added b n s o → Tallies b n s o
  of_outcome n s (done a t) f h = record {
    added = h.0;
    loop = h.1;
    counted = f.counted;
    below = f.below;
  }
  of_outcome n s (aborted t) f h = f
  of_outcome n s hangs f h = tt

  weaken_outcome :
      {A : Type 0} (n k : ℕ) (s : Sema) (o : Outcome A) → k ≤ n → Tallies b n s o → Tallies b k s o
  weaken_outcome n k s (done a t) h f = record {
    added = omega (arith, f.added);
    loop = f.loop;
    counted = f.counted;
    below = f.below;
  }
  weaken_outcome n k s (aborted t) h f = f
  weaken_outcome n k s hangs h f = tt

  after_outcome :
      {A : Type 0} (n k : ℕ) (s t : Sema) (o : Outcome A)
      → Tallied b n s t
      → Tallies b k t o
      → Tallies b (n + k) s o
  after_outcome n k s t (done a u) h f = record {
    added = omega (arith, h.added, f.added);
    loop = f.loop;
    counted = omega (arith, h.counted, f.counted);
    below = λ l. f.below (h.below l);
  }
  after_outcome n k s t (aborted u) h f = record {
    counted = omega (arith, h.counted, f.counted);
    errors = omega (arith, h.added, f.errors);
    limit = λ l. f.limit (h.below l);
  }
  after_outcome n k s t hangs h f = tt

  bind_outcome :
      {A B : Type 0} (n k : ℕ) (s : Sema) (o : Outcome A) (f : A → M B)
      → Tallies b n s o
      → ((a : A) → Tally b k (f a))
      → Tallies b (n + k) s (elim o [ done a t ↦ f a t | aborted t ↦ aborted t | hangs ↦ hangs ])
  bind_outcome n k s (done a t) f h g = after_outcome n k s t (f a t) h ((g a).at t h.loop)
  bind_outcome n k s (aborted t) f h g = h
  bind_outcome n k s hangs f h g = tt

module _ {b : Bool} {A : Type 0} {m : M A} {n : ℕ} where
  pub tally : Keeps m → Adds b n m → Tally b n m
  tally k a = record { at = λ s e. of_outcome b n s (m s) (k.at s) (a.at s e) }

  pub Tally-weaken : {k : ℕ} → Tally b n m → k ≤ n → Tally b k m
  Tally-weaken {k} t h = record { at = λ s e. weaken_outcome b n k s (m s) h (t.at s e) }

  infixl 1 ◌then_tally◌
  pub ◌then_tally◌ :
      {B : Type 0} {f : A → M B} {k : ℕ}
      → Tally b n m
      → ((a : A) → Tally b k (f a))
      → Tally b (n + k) (m >>= f)
  unfolding ◌>>=◌
  ◌then_tally◌ {f} {k} h g = record { at = λ s e. bind_outcome b n k s (m s) f (h.at s e) g }

module _ {b : Bool} {A : Type 0} where
  -- What adds no error of its own.
  pub Tally-quiet : (m : M A) → Keeps m → Tally b 0 m
  Tally-quiet m k = tally k (quiet k)

  pub Tally-bind :
      {B : Type 0} (m : M A) (f : A → M B)
      → Tally b 0 m
      → ((a : A) → Tally b 0 (f a))
      → Tally b 0 (m >>= f)
  Tally-bind m f h g = h then_tally g

  pub Tally-if :
      {n : ℕ} (c : Bool) (m k : M A) → Tally b n m → Tally b n k → Tally b n (if c then m else k)
  Tally-if true m k h g = h
  Tally-if false m k h g = g

  pub Tally-on_types : (f : TypeRegistry → A × TypeRegistry) → Tally b 0 (on_types f)
  unfolding on_types
  Tally-on_types f = record {
    at = λ s e. record { added = omega arith; loop = e; counted = refl; below = λ h. h };
  }

pub Tally-define_in_global :
    {b : Bool} (name : String) (sym : Symbol) → Tally b 0 (define_in_global name sym)
unfolding define_in_global
Tally-define_in_global name sym = record {
  at = λ s e. record { added = omega arith; loop = e; counted = refl; below = λ h. h };
}

module _ (b : Bool) (n : ℕ) {A : Type 0} where
  in_scope_outcome :
      (c : Bool) (s : Sema) (o : Outcome A)
      → Tallies b n (record s { scopes = push c s.scopes }) o
      → Tallies b n s (elim o [
        | done a t ↦ done a (record t { scopes = pop t.scopes })
        | aborted t ↦ aborted t
        | hangs ↦ hangs
      ])
  in_scope_outcome c s (done a t) h = record {
    added = h.added;
    loop = h.loop;
    counted = h.counted;
    below = h.below;
  }
  in_scope_outcome c s (aborted t) h = record {
    counted = h.counted;
    errors = h.errors;
    limit = h.limit;
  }
  in_scope_outcome c s hangs h = tt

  returning_outcome :
      (r : TypeId) (s : Sema) (o : Outcome A)
      → Tallies b n (record s { current_return_type = r }) o
      → Tallies b n s (elim o [
        | done a t ↦ done a (record t { current_return_type = s.current_return_type })
        | aborted t ↦ aborted t
        | hangs ↦ hangs
      ])
  returning_outcome r s (done a t) h = record {
    added = h.added;
    loop = h.loop;
    counted = h.counted;
    below = h.below;
  }
  returning_outcome r s (aborted t) h = record {
    counted = h.counted;
    errors = h.errors;
    limit = h.limit;
  }
  returning_outcome r s hangs h = tt

  within_class_outcome :
      (name : String) (c : TypeId) (s : Sema) (o : Outcome A)
      → Tallies b n (record s { current_class_name = name; current_class_type = c }) o
      → Tallies b n s (elim o [
        | done a t ↦ done a (record t {
          current_class_name = s.current_class_name;
          current_class_type = s.current_class_type;
        })
        | aborted t ↦ aborted t
        | hangs ↦ hangs
      ])
  within_class_outcome name c s (done a t) h = record {
    added = h.added;
    loop = h.loop;
    counted = h.counted;
    below = h.below;
  }
  within_class_outcome name c s (aborted t) h = record {
    counted = h.counted;
    errors = h.errors;
    limit = h.limit;
  }
  within_class_outcome name c s hangs h = tt

module _ {b : Bool} {n : ℕ} {A : Type 0} where
  pub Tally-in_scope : (c : Bool) (m : M A) → Tally b n m → Tally b n (in_scope c m)
  unfolding in_scope
  Tally-in_scope c m h = record {
    at = λ s e.
        in_scope_outcome b n c s (m (record s { scopes = push c s.scopes }))
          (h.at (record s { scopes = push c s.scopes }) e);
  }

  pub Tally-returning : (r : TypeId) (m : M A) → Tally b n m → Tally b n (returning r m)
  unfolding returning
  Tally-returning r m h = record {
    at = λ s e.
        returning_outcome b n r s (m (record s { current_return_type = r }))
          (h.at (record s { current_return_type = r }) e);
  }

  pub Tally-within_class :
      (name : String) (c : TypeId) (m : M A) → Tally b n m → Tally b n (within_class name c m)
  unfolding within_class
  Tally-within_class name c m h = record {
    at = λ s e.
        within_class_outcome b n name c s
          (m (record s { current_class_name = name; current_class_type = c }))
          (h.at (record s { current_class_name = name; current_class_type = c }) e);
  }

pub ruleset tally_rules = (
  Tally-quiet, Tally-bind, Tally-if, Tally-on_types, Tally-define_in_global, Tally-in_scope,
  Tally-returning, Tally-within_class,
)
