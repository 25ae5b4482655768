-- ===== src/Sema/Statements.antt =====
-- What a statement leaves behind (check_stmt of src/sema/sema.cpp): flags, scopes, types, errors.
use dux_lang.Prelude.{
  ℕ, ◌+◌, ◌≤◌, ◌<◌, String, Bool, false, ◌≡◌, refl, ◌∙◌, sym, subst, ap, some, length,
}
use dux_lang.Types.{pos, info}
use dux_lang.Types.Growth.{SameType, info-RegistryGrows}
use dux_lang.Symbol.{
  Symbol, depth, lookup_local, current_scope, global, nested, ScopeStack, push, lookup,
}
use dux_lang.Symbol.Growth.{Grows, depth-Grows, pop-Grows-push}
use dux_lang.Ast.{Node, Stmt, Stmts}
use dux_lang.Sema.{Sema, Outcome, done, aborted, hangs, M, in_scope}
use dux_lang.Sema.Check.{check_stmt}
use dux_lang.Sema.Frame.{Frame, Framed, Keeps}
use dux_lang.Sema.FrameCheck.{Keeps-check_stmt, Keeps-check_stmts}
use dux_lang.Sema.LoopExits.{stray, Added}
use dux_lang.Sema.LoopExits.Check.{stmt-Adds-stray}

pub Frame-of :
    {A : Type 0} {m : M A} → Keeps m → (s : Sema) {a : A} {t : Sema} → m s ≡ done a t → Frame s t
Frame-of k s e = subst (λ o. Framed s o) e (k.at s)

-- A statement that is checked to its end leaves the class, the return type, `in_loop_`,
-- `in_unsafe_`, `in_await_` and the number of scopes as they were.
pub check_stmt-flags :
    (st : Stmt) (s t : Sema)
    → check_stmt st s ≡ done tt t
    → (t.current_return_type ≡ s.current_return_type)
      × (t.current_class_name ≡ s.current_class_name)
      × (t.current_class_type ≡ s.current_class_type)
      × (t.in_loop ≡ s.in_loop)
      × (t.in_unsafe ≡ s.in_unsafe)
      × (t.in_await ≡ s.in_await)
      × (depth t.scopes ≡ depth s.scopes)
check_stmt-flags st s t e =
    let f = Frame-of (Keeps-check_stmt st) s e in
    (f.return_type, f.class_name, f.class_type, f.loop, f.unsafe, f.await, depth-Grows f.scopes)

pub kept_local :
    {a b : ScopeStack} (x : String) (y : Symbol)
    → Grows a b
    → lookup_local x (current_scope a) ≡ some y
    → lookup_local x (current_scope b) ≡ some y
kept_local x y (Grows.at_global g) h = g.kept x y h
kept_local x y (Grows.at_nested g) h = g.kept x y h

-- A symbol of the current scope still stands there, unchanged, when a statement has been checked
-- to its end: no statement redefines or removes it.
pub check_stmt-keeps_symbol :
    (st : Stmt) (s t : Sema) (x : String) (y : Symbol)
    → check_stmt st s ≡ done tt t
    → lookup_local x (current_scope s.scopes) ≡ some y
    → lookup_local x (current_scope t.scopes) ≡ some y
check_stmt-keeps_symbol st s t x y e h =
    kept_local x y (Frame-of (Keeps-check_stmt st) s e).scopes h

-- A type that exists before a statement has its kind, name, parent, interfaces and variants when
-- the statement has been checked to its end: statements and expressions only add types.
pub check_stmt-keeps_type :
    (st : Stmt) (s t : Sema) (n : ℕ)
    → check_stmt st s ≡ done tt t
    → n < length s.types.types
    → SameType (info s.types (pos n)) (info t.types (pos n))
check_stmt-keeps_type st s t n e h =
    info-RegistryGrows (Frame-of (Keeps-check_stmt st) s e).types n h

abbrev scopes_of : {A : Type 0} → ScopeStack → Outcome A → ScopeStack
scopes_of st (done a t) = t.scopes
scopes_of st (aborted t) = st
scopes_of st hangs = st

scope_outcome :
    {A : Type 0} (c : Bool) (s : Sema) (o : Outcome A) (a : A) (t : Sema)
    → Framed (record s { scopes = push c s.scopes }) o
    → elim o [
      | done a u ↦ done a (record u { scopes = dux_lang.Symbol.pop u.scopes })
      | aborted u ↦ aborted u
      | hangs ↦ hangs
    ]
      ≡ done a t
    → t.scopes ≡ s.scopes
scope_outcome c s (done a u) b t f e = ap (scopes_of s.scopes) (sym e) ∙ pop-Grows-push c f.scopes
scope_outcome c s (aborted u) b t f e = cc
scope_outcome c s hangs b t f e = cc

-- A block that is checked to its end leaves the stack of scopes exactly as it was, whatever its
-- statements declare.
pub block-scopes :
    (n : Node) (ss : Stmts) (s t : Sema)
    → check_stmt (Stmt.block n ss) s ≡ done tt t
    → t.scopes ≡ s.scopes
unfolding check_stmt in_scope
block-scopes n ss s t e = scope_outcome false s _ tt t ((Keeps-check_stmts ss).at _) e

stray_outcome :
    (b : Bool) (n : ℕ) (s t : Sema) (o : Outcome (Unit {0}))
    → Added b n s o
    → o ≡ done tt t
    → s.error_count + n ≤ t.error_count
stray_outcome b n s t o h e = (subst (Added b n s) e h).0

-- A statement that is checked to its end has added at least as many errors as it has `break` and
-- `continue` statements outside every loop and switch, where the statement itself stands in a loop
-- if `in_loop_` says so, a lambda's body counts as inside the loops around it, and a variable of a
-- function type counts as one. The driver has counted exactly the errors that the analyser has.
pub check_stmt-stray :
    (st : Stmt) (s t : Sema)
    → check_stmt st s ≡ done tt t
    → (s.error_count + stray s.in_loop st ≤ t.error_count)
      × (t.error_count + s.driver.error_count ≡ s.error_count + t.driver.error_count)
check_stmt-stray st s t e = (
  stray_outcome s.in_loop (stray s.in_loop st) s t (check_stmt st s)
      ((stmt-Adds-stray s.in_loop st).at s refl) e,
  (Frame-of (Keeps-check_stmt st) s e).counted,
)
