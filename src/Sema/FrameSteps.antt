-- ===== src/Sema/FrameSteps.antt =====
-- The frame of each step of check_expr and check_stmt (src/sema/sema.cpp) that does not recur.
use dux_lang.Prelude.{ℕ, String, Bool, Option, none, some}
use dux_lang.Types.{TypeId, tid_unknown}
use dux_lang.Symbol.{Symbol, lookup}
use dux_lang.Ast.{SourceLoc, Node, TypeExpr, VarFlags, Expr}
use dux_lang.Ast.Views.{as_ident}
use dux_lang.Diagnostics.{Message}
use dux_lang.Sema.{M, pure, gets, type_from_te, ◌>>=◌, ◌>>◌}
use dux_lang.Sema.Frame.{
  Keeps, Keeps-pure, Keeps-gets, Keeps-if, Keeps-err, Keeps-define_symbol, Keeps-set_type_id, ◌⟫◌,
  keeps_rules,
}
use dux_lang.Sema.FrameParts.{part_rules, Keeps-type_from_te}
use dux_lang.Sema.Steps.{
  typed, ident_type, this_type, super_type, assign_to, call_type, assign_early, assign_late,
  check_callable, define_var, declare, initialised_type, define_catch_var, check_loop_exit,
  check_bare_return, check_iterable,
}

pub Keeps-typed : {m : M TypeId} (n : Node) → Keeps m → Keeps (typed n m)
unfolding typed
Keeps-typed n k = k ⟫ λ t. Keeps-set_type_id n.id t ⟫ λ _. Keeps-pure t

pub Keeps-ident_type : (n : Node) (x : String) → Keeps (ident_type n x)
unfolding ident_type
Keeps-ident_type n x =
    Keeps-gets _ ⟫ elim [ some sym ↦ Keeps-pure sym.type | none ↦ search keeps_rules depth 8 ]

pub Keeps-this_type : (n : Node) → Keeps (this_type n)
unfolding this_type
Keeps-this_type n =
    Keeps-gets _
    ⟫ elim [ some sym ↦ search keeps_rules depth 8 | none ↦ search keeps_rules depth 8 ]

pub Keeps-super_type : Keeps super_type
unfolding super_type
Keeps-super_type = Keeps-gets _

Keeps-assign_to :
    (op : String) (target : Expr) (rhs : TypeId) (x : String) (o : Option Symbol)
    → Keeps (assign_to op target rhs x o)
unfolding assign_to
Keeps-assign_to op target rhs x none = search keeps_rules depth 12
Keeps-assign_to op target rhs x (some sym) = search keeps_rules depth 12

assign_early_of :
    (op : String) (target : Expr) (rhs : TypeId) (o : Option String)
    → Keeps {A = Option TypeId} (elim o [
      | none ↦ pure none
      | some x ↦ gets (λ s. lookup x s.scopes) >>= assign_to op target rhs x
    ])
assign_early_of op target rhs none = Keeps-pure none
assign_early_of op target rhs (some x) = Keeps-gets _ ⟫ Keeps-assign_to op target rhs x

pub Keeps-assign_early :
    (op : String) (target : Expr) (rhs : TypeId) → Keeps (assign_early op target rhs)
unfolding assign_early
Keeps-assign_early op target rhs = assign_early_of op target rhs (as_ident target)

pub Keeps-assign_late :
    (op : String) (l r : TypeId) (a b : SourceLoc) → Keeps (assign_late op l r a b)
unfolding assign_late
Keeps-assign_late op l r a b = search part_rules depth 16

pub Keeps-check_callable :
    (sym : Symbol) (n : ℕ) (loc : SourceLoc) → Keeps (check_callable sym n loc)
unfolding check_callable
Keeps-check_callable sym n loc = search keeps_rules depth 12

pub Keeps-call_type :
    (x : String) (callee : Expr) (n : ℕ) {all : M (Unit {0})} {against : Symbol → M (Unit {0})}
    → Keeps all
    → ((sym : Symbol) → Keeps (against sym))
    → (o : Option Symbol) → Keeps (call_type x callee n all against o)
unfolding call_type
Keeps-call_type x callee n h k none = Keeps-err _ _ ⟫ λ _. h ⟫ λ _. Keeps-pure tid_unknown
Keeps-call_type x callee n h k (some sym) = Keeps-set_type_id _ _ ⟫ λ _.
    Keeps-if _ _ _ (Keeps-check_callable sym n _ ⟫ λ _. k sym ⟫ λ _. Keeps-pure sym.return_type) (
      Keeps-if _ _ _ (h ⟫ λ _. Keeps-pure sym.type) (
        h ⟫ λ _.
        Keeps-gets _ ⟫ elim [ none ↦ Keeps-pure tid_unknown | some ret ↦ h ⟫ λ _. Keeps-pure ret ]))

pub Keeps-define_var :
    (x : String) (t : TypeId) (b : Bool) (loc : SourceLoc) → Keeps (define_var x t b loc)
unfolding define_var
Keeps-define_var x t b loc = Keeps-define_symbol x _

pub Keeps-declare :
    (x : String) (t : TypeId) (flags : VarFlags) (loc : SourceLoc) → Keeps (declare x t flags loc)
unfolding declare
Keeps-declare x t flags loc = search (keeps_rules, Keeps-define_var) depth 12

pub Keeps-initialised_type :
    (x : String) (t : TypeId) (e : Expr) (u : TypeId) → Keeps (initialised_type x t e u)
unfolding initialised_type
Keeps-initialised_type x t e u = search part_rules depth 12

Keeps-catch_type :
    (o : Option TypeExpr) (t : TypeId)
    → Keeps (elim o [ some te ↦ type_from_te te | none ↦ pure t ])
Keeps-catch_type none t = Keeps-pure t
Keeps-catch_type (some te) t = Keeps-type_from_te te

pub Keeps-define_catch_var :
    (b : Bool) (t : Option TypeExpr) (x : Option String) → Keeps (define_catch_var b t x)
unfolding define_catch_var
Keeps-define_catch_var b t none = Keeps-pure tt
Keeps-define_catch_var b t (some x) =
    Keeps-if _ _ _ (Keeps-catch_type t _ ⟫ λ _. Keeps-define_symbol x _ ⟫ λ _. Keeps-pure tt)
      (Keeps-pure tt)

pub Keeps-check_loop_exit : (loc : SourceLoc) (msg : Message) → Keeps (check_loop_exit loc msg)
unfolding check_loop_exit
Keeps-check_loop_exit loc msg = search keeps_rules depth 12

pub Keeps-check_bare_return : (loc : SourceLoc) → Keeps (check_bare_return loc)
unfolding check_bare_return
Keeps-check_bare_return loc = search keeps_rules depth 12

pub Keeps-check_iterable : (t : TypeId) (loc : SourceLoc) → Keeps (check_iterable t loc)
unfolding check_iterable
Keeps-check_iterable t loc = search keeps_rules depth 12

pub stdlib_call :
    (o : Option TypeId) {callee : M TypeId} {args : M (Unit {0})}
    → Keeps callee
    → Keeps args
    → Keeps (elim o [ some ret ↦ args >> pure ret | none ↦ callee >> (args >> pure tid_unknown) ])
stdlib_call none h k = h ⟫ λ _. k ⟫ λ _. Keeps-pure tid_unknown
stdlib_call (some ret) h k = k ⟫ λ _. Keeps-pure ret

pub any_call :
    (x : Option String) {named : String → M TypeId} {other : M TypeId}
    → ((y : String) → Keeps (named y))
    → Keeps other
    → Keeps (elim x [ some y ↦ named y | none ↦ other ])
any_call none h k = k
any_call (some y) h k = h y

-- Behind a value that may end the check.
pub early_or :
    {m : M (Option TypeId)} {n : M TypeId}
    → Keeps m
    → Keeps n
    → Keeps (m >>= λ o. elim o [ some t ↦ pure t | none ↦ n ])
early_or h k = h ⟫ elim [ some t ↦ Keeps-pure t | none ↦ k ]
