-- ===== src/Sema/Constants.antt =====
-- Assignments to constants (check_assign of src/sema/sema.cpp).
use dux_lang.Prelude.{
  ◌+◌, ◌≤◌, ◌<◌, String, Bool, true, false, ◌≡◌, refl, subst, ap, some, none, arith, leb,
}
use dux_lang.Types.{TypeId}
use dux_lang.Symbol.{
  Symbol, lookup, lookup_local, current_scope, global, nested, ScopeStack, or_else,
}
use dux_lang.Ast.{SourceLoc, Node, Expr}
use dux_lang.Ast.Views.{expr_loc}
use dux_lang.Diagnostics.{Message, driver_error, max_errors, assign_to_const}
use dux_lang.Sema.{Sema, Outcome, done, aborted, hangs, M, pure, ◌>>=◌, gets, err}
use dux_lang.Sema.Steps.{assign_early, assign_late, typed, assign_to}
use dux_lang.Sema.Check.{check_expr}
use dux_lang.Sema.Frame.{Frame, Framed, Keeps, Keeps-set_type_id, Keeps-pure, ◌⟫◌}
use dux_lang.Sema.FrameSteps.{Keeps-assign_late}
use dux_lang.Sema.FrameCheck.{Keeps-check_expr}
use dux_lang.Sema.Statements.{kept_local, Frame-of}

lookup_of_local :
    (st : ScopeStack) (x : String) (y : Symbol)
    → lookup_local x (current_scope st) ≡ some y
    → lookup x st ≡ some y
unfolding lookup
lookup_of_local (global sc) x y h = h
lookup_of_local (nested sc st) x y h = ap (λ o. or_else o (lookup x st)) h

-- More errors than at `s`, where the action ends with a value.
abbrev Reports : {A : Type 0} → Sema → Outcome A → Type 0
Reports s (done a t) = s.error_count < t.error_count
Reports s (aborted t) = Unit
Reports s hangs = Unit

err-Reports :
    (loc : SourceLoc) (msg : Message) (s : Sema) (over : Bool)
    → leb max_errors (s.driver.error_count + 1) ≡ over
    → Reports s (err loc msg s)
unfolding err driver_error
err-Reports loc msg s true h = rw h tt
err-Reports loc msg s false h = rw h (omega arith)

module _ {A : Type 0} where
  -- What comes first keeps the count; what comes later reports.
  later-Reports :
      (s t : Sema) (o : Outcome A) → s.error_count ≤ t.error_count → Reports t o → Reports s o
  later-Reports s t (done a u) h r = omega (arith, h, r)
  later-Reports s t (aborted u) h r = tt
  later-Reports s t hangs h r = tt

  -- What comes first reports; what comes later keeps the count.
  still-Reports :
      (s t : Sema) (o : Outcome A) → s.error_count < t.error_count → Framed t o → Reports s o
  still-Reports s t (done a u) h f = omega (arith, h, f.errors)
  still-Reports s t (aborted u) h f = tt
  still-Reports s t hangs h f = tt

module _ {A : Type 0} where
  first-Reports :
      {B : Type 0} (s : Sema) (o : Outcome A) (f : A → M B)
      → Reports s o
      → ((a : A) → Keeps (f a))
      → Reports s (elim o [ done a t ↦ f a t | aborted t ↦ aborted t | hangs ↦ hangs ])
  first-Reports s (done a t) f h k = still-Reports s t (f a t) h ((k a).at t)
  first-Reports s (aborted t) f h k = tt
  first-Reports s hangs f h k = tt

  second-Reports :
      {B : Type 0} (s : Sema) (o : Outcome A) (f : A → M B)
      → Framed s o
      → ((a : A) (t : Sema) → Frame s t → Reports t (f a t))
      → Reports s (elim o [ done a t ↦ f a t | aborted t ↦ aborted t | hangs ↦ hangs ])
  second-Reports s (done a t) f h k = later-Reports s t (f a t) h.errors (k a t h)
  second-Reports s (aborted t) f h k = tt
  second-Reports s hangs f h k = tt

-- The early test of the assignment reports where the name is a constant of the current scope.
assign_early-Reports :
    (op : String) (k : Node) (x : String) (rhs : TypeId) (s : Sema) (y : Symbol)
    → lookup x s.scopes ≡ some y
    → y.is_const ≡ true
    → Reports s (assign_early op (Expr.ident k x) rhs s)
unfolding assign_early assign_to gets ◌>>=◌ pure
assign_early-Reports op k x rhs s y e c =
    rw (e, c)
      (first-Reports s (err k.loc (assign_to_const x) s) (λ _. pure (some y.type))
        (err-Reports k.loc (assign_to_const x) s _ refl) (λ _. Keeps-pure _))

assign-Reports :
    (op : String) (n k : Node) (x : String) (v : Expr) (s : Sema) (y : Symbol)
    → lookup_local x (current_scope s.scopes) ≡ some y
    → y.is_const ≡ true
    → Reports s (check_expr (Expr.assign n op (Expr.ident k x) v) s)
unfolding check_expr typed ◌>>=◌
assign-Reports op n k x v s y e c =
    first-Reports s _ _
      (second-Reports s (check_expr v s) _ ((Keeps-check_expr v).at s) λ rhs t f.
        first-Reports t (assign_early op (Expr.ident k x) rhs t) _
          (assign_early-Reports op k x rhs t y
            (lookup_of_local t.scopes x y (kept_local x y f.scopes e)) c)
          (elim [ some u ↦ Keeps-pure u | none ↦ rest rhs ]))
      λ u. Keeps-set_type_id n.id u ⟫ λ _. Keeps-pure u
  where
    rest :
        (rhs : TypeId)
        → Keeps (check_expr (Expr.ident k x) >>= λ l. assign_late op l rhs k.loc (expr_loc v))
    rest rhs = Keeps-check_expr (Expr.ident k x) ⟫ λ l. Keeps-assign_late op l rhs _ _

-- An assignment to a constant that the current scope declares, with `=` or a compound operator
-- and whatever value, is an error: where its check ends with a type, the analyser has counted at
-- least one error more, and the constant's symbol is as it was.
pub assign-const :
    (op : String) (n k : Node) (x : String) (v : Expr) (s t : Sema) (u : TypeId) (y : Symbol)
    → lookup_local x (current_scope s.scopes) ≡ some y
    → y.is_const ≡ true
    → check_expr (Expr.assign n op (Expr.ident k x) v) s ≡ done u t
    → (s.error_count < t.error_count) × (lookup_local x (current_scope t.scopes) ≡ some y)
assign-const op n k x v s t u y e c h = (
  subst (Reports s) h (assign-Reports op n k x v s y e c),
  kept_local x y (Frame-of (Keeps-check_expr _) s h).scopes e,
)
