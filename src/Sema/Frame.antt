-- ===== src/Sema/Frame.antt =====
-- What an action of the analyser leaves as it was: the frame of every check of a statement or an
-- expression, with a rule for each way to build an action.
use dux_lang.Prelude.{
  ℕ, ◌+◌, ◌≤◌, ◌<◌, String, Bool, true, false, ◌≡◌, refl, ◌∙◌, Option, none, some, arith, leb,
  if◌then◌else◌,
}
use dux_lang.Types.{TypeId, TypeRegistry}
use dux_lang.Types.Growth.{RegistryGrows, RegistryGrows-refl, RegistryGrows-trans}
use dux_lang.Symbol.{Symbol, ScopeStack}
use dux_lang.Symbol.Growth.{Grows, Grows-refl, Grows-trans, define-Grows}
use dux_lang.Ast.{SourceLoc}
use dux_lang.Diagnostics.{Message, Driver, driver_error, driver_warning, max_errors}
use dux_lang.Sema.{
  Sema, Outcome, done, aborted, hangs, M, pure, ◌>>=◌, gets, ask, on_types, err, warn,
  define_symbol, set_type_id, set_inferred_ret,
}

-- From `s` to `t` the flags are as before, scopes and types have only grown, and the analyser has
-- counted as many new errors as the driver, which is still below its limit if it was.
pub record Frame (s t : Sema) : Type 0 where
  pub return_type : t.current_return_type ≡ s.current_return_type
  pub class_name : t.current_class_name ≡ s.current_class_name
  pub class_type : t.current_class_type ≡ s.current_class_type
  pub loop : t.in_loop ≡ s.in_loop
  pub unsafe : t.in_unsafe ≡ s.in_unsafe
  pub await : t.in_await ≡ s.in_await
  pub scopes : Grows s.scopes t.scopes
  pub types : RegistryGrows s.types t.types
  pub errors : s.error_count ≤ t.error_count
  pub counted : t.error_count + s.driver.error_count ≡ s.error_count + t.driver.error_count
  pub below : s.driver.error_count < max_errors → t.driver.error_count < max_errors

-- At an abort the driver stands at its limit if it was below, one error ahead of the analyser.
pub record Aborted (s t : Sema) : Type 0 where
  pub counted : t.error_count + s.driver.error_count + 1 ≡ s.error_count + t.driver.error_count
  pub errors : s.error_count ≤ t.error_count
  pub limit : s.driver.error_count < max_errors → t.driver.error_count ≡ max_errors

abbrev pub Framed : {A : Type 0} → Sema → Outcome A → Type 0
Framed s (done a t) = Frame s t
Framed s (aborted t) = Aborted s t
Framed s hangs = Unit

pub record Keeps {A : Type 0} (m : M A) : Type 0 where
  pub at : (s : Sema) → Framed s (m s)

pub Frame-refl : (s : Sema) → Frame s s
Frame-refl s = record {
  return_type = refl;
  class_name = refl;
  class_type = refl;
  loop = refl;
  unsafe = refl;
  await = refl;
  scopes = Grows-refl _;
  types = RegistryGrows-refl _;
  errors = omega arith;
  counted = refl;
  below = λ h. h;
}

-- A change of what is no flag.
pub Frame-change :
    (s : Sema) (d : Driver) (r : TypeRegistry) (st : ScopeStack) (n : ℕ) (ids : ℕ → TypeId)
    (rets : ℕ → String)
    → RegistryGrows s.types r
    → Grows s.scopes st
    → s.error_count ≤ n
    → n + s.driver.error_count ≡ s.error_count + d.error_count
    → (s.driver.error_count < max_errors → d.error_count < max_errors)
    → Frame s (record s {
      driver = d;
      types = r;
      scopes = st;
      error_count = n;
      type_ids = ids;
      inferred_rets = rets;
    })
Frame-change s d r st n ids rets types scopes errors counted below = record {
  return_type = refl;
  class_name = refl;
  class_type = refl;
  loop = refl;
  unsafe = refl;
  await = refl;
  scopes = scopes;
  types = types;
  errors = errors;
  counted = counted;
  below = below;
}

-- The same where no error is counted.
pub Frame-write :
    (s : Sema) (r : TypeRegistry) (st : ScopeStack) (ids : ℕ → TypeId) (rets : ℕ → String)
    → RegistryGrows s.types r
    → Grows s.scopes st
    → Frame s (record s { types = r; scopes = st; type_ids = ids; inferred_rets = rets })
Frame-write s r st ids rets types scopes =
    Frame-change s s.driver r st s.error_count ids rets types scopes (omega arith) refl (λ h. h)

pub Frame-trans : {s t u : Sema} → Frame s t → Frame t u → Frame s u
Frame-trans f g = record {
  return_type = g.return_type ∙ f.return_type;
  class_name = g.class_name ∙ f.class_name;
  class_type = g.class_type ∙ f.class_type;
  loop = g.loop ∙ f.loop;
  unsafe = g.unsafe ∙ f.unsafe;
  await = g.await ∙ f.await;
  scopes = Grows-trans f.scopes g.scopes;
  types = RegistryGrows-trans f.types g.types;
  errors = omega (arith, f.errors, g.errors);
  counted = omega (arith, f.counted, g.counted);
  below = λ h. g.below (f.below h);
}

Framed-trans : {A : Type 0} {s t : Sema} → Frame s t → (o : Outcome A) → Framed t o → Framed s o
Framed-trans f (done a u) g = Frame-trans f g
Framed-trans f (aborted u) g = record {
  counted = omega (arith, f.counted, g.counted);
  errors = omega (arith, f.errors, g.errors);
  limit = λ h. g.limit (f.below h);
}
Framed-trans f hangs g = tt

pub Keeps-pure : {A : Type 0} (a : A) → Keeps (pure a)
unfolding pure
Keeps-pure a = record { at = λ s. Frame-refl s }

pub Keeps-gets : {A : Type 0} (f : Sema → A) → Keeps (gets f)
unfolding gets
Keeps-gets f = record { at = λ s. Frame-refl s }

bind_framed :
    {A B : Type 0} (s : Sema) (o : Outcome A) (f : A → M B)
    → Framed s o
    → ((a : A) → Keeps (f a))
    → Framed s (elim o [ done a t ↦ f a t | aborted t ↦ aborted t | hangs ↦ hangs ])
bind_framed s (done a t) f h k = Framed-trans h (f a t) ((k a).at t)
bind_framed s (aborted t) f h k = h
bind_framed s hangs f h k = tt

pub Keeps-bind :
    {A B : Type 0} (m : M A) (f : A → M B) → Keeps m → ((a : A) → Keeps (f a)) → Keeps (m >>= f)
unfolding ◌>>=◌
Keeps-bind m f h k = record { at = λ s. bind_framed s (m s) f (h.at s) k }

pub Keeps-if : {A : Type 0} (b : Bool) (m n : M A) → Keeps m → Keeps n → Keeps (if b then m else n)
Keeps-if true m n h k = h
Keeps-if false m n h k = k

pub Keeps-option :
    {A B : Type 0} (o : Option A) (f : A → M B) (n : M B)
    → ((a : A) → Keeps (f a))
    → Keeps n
    → Keeps (elim o [ some a ↦ f a | none ↦ n ])
Keeps-option (some a) f n h k = h a
Keeps-option none f n h k = k

pub Keeps-ask : {A : Type 0} (q : TypeRegistry → Option A) → Keeps (ask q)
unfolding ask
Keeps-ask q = record { at = λ s. answer s (q s.types) }
  where
    answer :
        {A : Type 0} (s : Sema) (o : Option A)
        → Framed s (elim o [ some a ↦ done a s | none ↦ hangs ])
    answer s none = tt
    answer s (some a) = Frame-refl s

-- A change of the registry that keeps what the types had.
pub Keeps-on_types :
    {A : Type 0} (f : TypeRegistry → A × TypeRegistry)
    → ((r : TypeRegistry) → RegistryGrows r (f r).1)
    → Keeps (on_types f)
unfolding on_types
Keeps-on_types f h = record {
  at = λ s. Frame-write s _ s.scopes s.type_ids s.inferred_rets (h s.types) (Grows-refl _);
}

err_framed :
    (loc : SourceLoc) (msg : Message) (s : Sema) (b : Bool)
    → leb max_errors (s.driver.error_count + 1) ≡ b
    → Framed s (err loc msg s)
unfolding err driver_error
err_framed loc msg s true e =
    rw e (record { counted = omega arith; errors = omega arith; limit = λ h. ground arith })
err_framed loc msg s false e = rw e (
    Frame-change s _ s.types s.scopes _ s.type_ids s.inferred_rets (RegistryGrows-refl _)
      (Grows-refl _) (omega arith) (omega arith) (λ h. ground arith))

pub Keeps-err : (loc : SourceLoc) (msg : Message) → Keeps (err loc msg)
Keeps-err loc msg = record { at = λ s. err_framed loc msg s _ refl }

pub Keeps-warn : (loc : SourceLoc) (msg : Message) → Keeps (warn loc msg)
unfolding warn driver_warning
Keeps-warn loc msg = record {
  at = λ s.
      Frame-change s _ s.types s.scopes _ s.type_ids s.inferred_rets (RegistryGrows-refl _)
        (Grows-refl _) (omega arith) refl (λ h. h);
}

pub Keeps-define_symbol : (name : String) (sym : Symbol) → Keeps (define_symbol name sym)
unfolding define_symbol
Keeps-define_symbol name sym = record {
  at = λ s.
      Frame-write s s.types _ s.type_ids s.inferred_rets (RegistryGrows-refl _)
        (define-Grows name sym s.scopes);
}

pub Keeps-set_type_id : (n : ℕ) (t : TypeId) → Keeps (set_type_id n t)
unfolding set_type_id
Keeps-set_type_id n t = record {
  at = λ s. Frame-write s s.types s.scopes _ s.inferred_rets (RegistryGrows-refl _) (Grows-refl _);
}

pub Keeps-set_inferred_ret : (n : ℕ) (name : String) → Keeps (set_inferred_ret n name)
unfolding set_inferred_ret
Keeps-set_inferred_ret n name = record {
  at = λ s. Frame-write s s.types s.scopes s.type_ids _ (RegistryGrows-refl _) (Grows-refl _);
}

pub ruleset keeps_rules = (
  Keeps-pure, Keeps-gets, Keeps-bind, Keeps-if, Keeps-option, Keeps-ask, Keeps-err, Keeps-warn,
  Keeps-define_symbol, Keeps-set_type_id, Keeps-set_inferred_ret,
)

-- The rule for a bind as an operator, one for each line of a `do` block.
infixl 1 ◌⟫◌
pub ◌⟫◌ :
    {A B : Type 0} {m : M A} {f : A → M B} → Keeps m → ((a : A) → Keeps (f a)) → Keeps (m >>= f)
k ⟫ h = Keeps-bind _ _ k h
