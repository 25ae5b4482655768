-- ===== src/Sema/Steps.antt =====
-- The steps of check_stmt and check_expr in src/sema/sema.cpp that do not recur: what is done with
-- the types of the parts once these are checked.
use dux_lang.Prelude.{
  ℕ, suc, String, Bool, not, ◌&&◌, ◌||◌, Option, none, some, ◌==◌, nat_eq, if◌then◌else◌, length,
}
use dux_lang.Types.{
  TypeId, TypeKind, id_eq, nonneg, kind_eq, tid_unknown, tid_void, tid_str, tid_dict, tid_tuple,
  tid_object, info, name_of,
}
use dux_lang.Symbol.{Symbol, SymKind, symbol, sym_kind_eq, lookup}
use dux_lang.Ast.{SourceLoc, Node, TypeExpr, VarFlags, Expr, Exprs, no_exprs, expr_then}
use dux_lang.Ast.Views.{expr_node, expr_loc, as_ident, is_lambda}
use dux_lang.Diagnostics.{
  Message, assignment, str_append, compound_target, compound_value, variable_initialiser,
  for_in_needs_list, missing_return_value, undefined_identifier, undefined_function,
  assign_to_const, async_needs_await, this_in_static, argument_count, variable_redeclared,
}
use dux_lang.Sema.{
  Sema, M, pure, ◌>>=◌, ◌>>◌, gets, skip, when, err, warn, lookup_symbol, define_symbol,
  set_type_id, type_from_te, require_assignable, require_numeric,
}

-- The end of check_expr: the result goes to the node.
unfoldable pub typed : Node → M TypeId → M TypeId
typed n m = do t ← m; set_type_id n.id t; pure t

-- The IdentExpr branch of check_expr.
unfoldable pub ident_type : Node → String → M TypeId
ident_type n x = do
  found ← lookup_symbol x
  elim found [
    | some sym ↦ pure sym.type
    | none ↦ do err n.loc (undefined_identifier x); pure tid_unknown
  ]

unfoldable pub this_type : Node → M TypeId
this_type n = do
  found ← lookup_symbol "this"
  elim found [ some sym ↦ skip | none ↦ err n.loc this_in_static ]
  gets (λ s. s.current_class_type)

unfoldable pub super_type : M TypeId
super_type = gets (λ s.
    let parent = (info s.types s.current_class_type).parent in
    if nonneg parent then parent else tid_object)

-- The two tests of check_assign that come before the check of the target, for a target that is
-- the identifier `x` and what it stands for. `some` is the result of check_assign.
unfoldable pub assign_to : String → Expr → TypeId → String → Option Symbol → M (Option TypeId)
assign_to op target rhs x none =
    if op == "="
    then (do
      define_symbol x (record (symbol x SymKind.var rhs) { loc = expr_loc target })
      set_type_id (expr_node target).id rhs
      pure (some rhs))
    else pure none
assign_to op target rhs x (some sym) =
    if sym.is_const
    then (do err (expr_loc target) (assign_to_const x); pure (some sym.type))
    else pure none

unfoldable pub assign_early : String → Expr → TypeId → M (Option TypeId)
assign_early op target rhs = elim (as_ident target) [
  | none ↦ pure none
  | some x ↦ do found ← lookup_symbol x; assign_to op target rhs x found
]

-- The rest of check_assign behind the check of the target.
unfoldable pub assign_late : String → TypeId → TypeId → SourceLoc → SourceLoc → M TypeId
assign_late op lhs rhs target value =
    if op == "="
    then (do require_assignable rhs lhs value assignment; pure lhs)
    else if op == "+=" && id_eq lhs tid_str
    then (do require_assignable rhs tid_str value str_append; pure lhs)
    else do
      require_numeric lhs target compound_target
      require_numeric rhs value compound_value
      pure lhs

abbrev pub is_callable : Symbol → Bool
is_callable sym = sym_kind_eq sym.kind SymKind.function || sym_kind_eq sym.kind SymKind.built_in

-- What check_call asks of a function before it looks at the arguments.
unfoldable pub check_callable : Symbol → ℕ → SourceLoc → M (Unit {0})
check_callable sym given loc = do
  awaited ← gets (λ s. s.in_await)
  when (sym.is_async && not awaited) (err loc (async_needs_await sym.name))
  let expected = length sym.params
  when (not (nat_eq expected 0) && not (nat_eq expected given))
      (err loc (argument_count sym.name expected given))

-- The return type of the closure that a variable holds.
unfoldable pub closure_return : String → Sema → Option TypeId
closure_return x s = elim (lookup x s.scopes) [
  | none ↦ none
  | some sym ↦
      if (sym_kind_eq sym.kind SymKind.var || sym_kind_eq sym.kind SymKind.param)
        && nonneg sym.type
        && kind_eq (info s.types sym.type).kind TypeKind.function
      then some (info s.types sym.type).return_type
      else none
]

abbrev pub count_exprs : Exprs → ℕ
count_exprs no_exprs = 0
count_exprs (expr_then e es) = suc (count_exprs es)

-- check_call for a callee that is the identifier `x` and what it stands for. The check of the
-- arguments, alone and against the parameters of a function, is handed in.
unfoldable pub call_type :
    String → Expr → ℕ → M (Unit {0}) → (Symbol → M (Unit {0})) → Option Symbol → M TypeId
call_type x callee given check_all check_against none = do
  err (expr_loc callee) (undefined_function x)
  check_all
  pure tid_unknown
call_type x callee given check_all check_against (some sym) = do
  set_type_id (expr_node callee).id sym.type
  if is_callable sym
      then (do check_callable sym given (expr_loc callee); check_against sym; pure sym.return_type)
      else if sym_kind_eq sym.kind SymKind.class
      then (do check_all; pure sym.type)
      else do
        check_all
        closure ← gets (closure_return x)
        elim closure [ none ↦ pure tid_unknown | some ret ↦ do check_all; pure ret ]

-- The parts of the statements that do not recur.
unfoldable pub define_var : String → TypeId → Bool → SourceLoc → M Bool
define_var x t is_const loc =
    define_symbol x (record (symbol x SymKind.var t) { is_const = is_const; loc = loc })

unfoldable pub declare : String → TypeId → VarFlags → SourceLoc → M (Unit {0})
declare x t flags loc = do
  fresh ← define_var x t flags.is_const loc
  when (not fresh) (err loc (variable_redeclared x))

-- The type of a declared variable, from the type of its initialiser.
unfoldable pub initialised_type : String → TypeId → Expr → TypeId → M TypeId
initialised_type x var_type e init_t =
    if id_eq var_type tid_unknown || is_lambda e
    then pure init_t
    else do require_assignable init_t var_type (expr_loc e) (variable_initialiser x); pure var_type

unfoldable pub define_catch_var : Bool → Option TypeExpr → Option String → M (Unit {0})
define_catch_var catch_all catch_type none = skip
define_catch_var catch_all catch_type (some x) = when (not catch_all) (do
  t ← elim catch_type [ some te ↦ type_from_te te | none ↦ pure tid_object ]
  define_symbol x (symbol x SymKind.var t)
  skip)

unfoldable pub check_loop_exit : SourceLoc → Message → M (Unit {0})
check_loop_exit loc msg = do inside ← gets (λ s. s.in_loop); when (not inside) (err loc msg)

unfoldable pub check_bare_return : SourceLoc → M (Unit {0})
check_bare_return loc = do
  t ← gets (λ s. s.current_return_type)
  when (not (id_eq t tid_void) && not (id_eq t tid_unknown)) (warn loc missing_return_value)

unfoldable pub check_iterable : TypeId → SourceLoc → M (Unit {0})
check_iterable t loc = do
  reg ← gets (λ s. s.types)
  when (id_eq t tid_dict || id_eq t tid_tuple || id_eq t tid_str)
      (err loc (for_in_needs_list (name_of reg t)))
