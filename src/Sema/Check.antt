-- ===== src/Sema/Check.antt =====
-- Statements and expressions of src/sema/sema.cpp: check_stmts and every check_ function that it
-- reaches. A function of the source that recurs is a clause here, over the parts of the node that
-- it checks; what it does without recursion is in Steps, Operators, Members, Patterns and Lambda.
use dux_lang.Prelude.{
  ℕ, suc, String, false, not, ◌&&◌, none, some, List, [], ◌∷◌, ◌==◌, ltb, if◌then◌else◌,
}
use dux_lang.Types.{
  TypeId, id_eq, tid_unknown, tid_bool, tid_int, tid_long, tid_real, tid_double, tid_str, tid_list,
  tid_dict, tid_null, is_numeric,
}
use dux_lang.Symbol.{SymKind, symbol, depth}
use dux_lang.Ast.{
  SourceLoc, VarFlags, Expr, Exprs, no_exprs, expr_then, Pairs, no_pairs, pair_then, no_expr,
  an_expr, Inits, no_inits, init_then, Stmt, MaybeStmt, no_stmt, a_stmt, Stmts, no_stmts, stmt_then,
  Cases, no_cases, case_then, Arms, no_arms, arm_then,
}
use dux_lang.Ast.Views.{te_name, te_loc, expr_loc, as_ident, is_literal}
use dux_lang.Diagnostics.{
  if_condition, while_condition, do_while_condition, assert_condition, for_init, return_value,
  argument, break_outside_loop, continue_outside_loop, fn_variable, thread_local_scope,
  thread_local_constant, const_needs_initializer, delete_numeric, unknown_new_type,
}
use dux_lang.Sema.{
  M, pure, ◌>>=◌, ◌>>◌, gets, skip, when, err, warn, lookup_symbol, define_symbol, in_scope,
  looping, unsafely, awaiting, returning, type_from_te, require_assignable, require_bool,
}
use dux_lang.Sema.Operators.{binary_type, unary_type, index_type}
use dux_lang.Sema.Members.{enum_access, member_type, stdlib_return}
use dux_lang.Sema.Patterns.{check_pattern, bind_pattern, arm_patterns, check_scrutinee}
use dux_lang.Sema.Lambda.{define_lambda_params, inferred_return, lambda_type}
use dux_lang.Sema.Steps.{
  typed, ident_type, this_type, super_type, assign_early, assign_late, count_exprs, call_type,
  define_var, declare, initialised_type, define_catch_var, check_loop_exit, check_bare_return,
  check_iterable,
}

unfoldable mutual
  pub check_expr : Expr → M TypeId
  check_expr (Expr.int_lit n v) = typed n (pure tid_int)
  check_expr (Expr.long_lit n v) = typed n (pure tid_long)
  check_expr (Expr.float_lit n v) = typed n (pure tid_double)
  check_expr (Expr.real_lit n v) = typed n (pure tid_real)
  check_expr (Expr.string_lit n v) = typed n (pure tid_str)
  check_expr (Expr.bool_lit n v) = typed n (pure tid_bool)
  check_expr (Expr.null_lit n) = typed n (pure tid_null)
  check_expr (Expr.ident n x) = typed n (ident_type n x)
  check_expr (Expr.this n) = typed n (this_type n)
  check_expr (Expr.super n) = typed n super_type
  check_expr (Expr.binary n op left right) =
      typed n (do l ← check_expr left; r ← check_expr right; binary_type n op left right l r)
  check_expr (Expr.unary n op operand prefix) =
      typed n (do t ← check_expr operand; unary_type op t (expr_loc operand))
  check_expr (Expr.assign n op target value) = typed n (do
    rhs ← check_expr value
    early ← assign_early op target rhs
    elim early [
      | some t ↦ pure t
      | none ↦ do lhs ← check_expr target; assign_late op lhs rhs (expr_loc target) (expr_loc value)
    ])
  check_expr (Expr.call n callee args) = typed n (elim (as_ident callee) [
    | some x ↦ do
      found ← lookup_symbol x
      call_type x callee (count_exprs args) (check_exprs args)
          (λ sym. check_args 1 sym.name sym.params args) found
    | none ↦ elim (stdlib_return callee) [
      | some ret ↦ do check_exprs args; pure ret
      | none ↦ do check_expr callee; check_exprs args; pure tid_unknown
    ]
  ])
  check_expr (Expr.member n object name) = typed n (do
    variant ← enum_access n object name
    elim variant [
      | some t ↦ pure t
      | none ↦ do obj_t ← check_expr object; member_type n object name obj_t
    ])
  check_expr (Expr.index n object idx) = typed n (do
    obj_t ← check_expr object
    idx_t ← check_expr idx
    index_type object obj_t (expr_loc idx) idx_t)
  check_expr (Expr.new n te args) = typed n (do
    t ← type_from_te te
    when (id_eq t tid_unknown) (err n.loc (unknown_new_type (te_name te)))
    check_exprs args
    pure t)
  check_expr (Expr.list n elements) = typed n (do check_exprs elements; pure tid_list)
  check_expr (Expr.dict n pairs) = typed n (do check_pairs pairs; pure tid_dict)
  check_expr (Expr.lambda n params body explicit_ret) = typed n (do
    inferred ← in_scope false (do
      define_lambda_params params
      returning tid_unknown (check_body body)
      gets (inferred_return body))
    lambda_type n params explicit_ret inferred)
  check_expr (Expr.await n operand) = typed n (awaiting (check_expr operand))

  pub check_exprs : Exprs → M (Unit {0})
  check_exprs no_exprs = skip
  check_exprs (expr_then e es) = do check_expr e; check_exprs es

  -- The arguments of a function against its parameters, numbered from `i`.
  pub check_args : ℕ → String → List (String × TypeId) → Exprs → M (Unit {0})
  check_args i name params no_exprs = skip
  check_args i name [] (expr_then e es) = do check_expr e; check_args (suc i) name [] es
  check_args i name ((x, t) ∷ params) (expr_then e es) = do
    at ← check_expr e
    require_assignable at t (expr_loc e) (argument i name)
    check_args (suc i) name params es

  pub check_pairs : Pairs → M (Unit {0})
  check_pairs no_pairs = skip
  check_pairs (pair_then k v ps) = do check_expr k; check_expr v; check_pairs ps

  -- The body of a lambda, always a block, with no scope of its own.
  pub check_body : Stmt → M (Unit {0})
  check_body (Stmt.block n ss) = check_stmts ss
  check_body _ = skip

  pub check_stmts : Stmts → M (Unit {0})
  check_stmts no_stmts = skip
  check_stmts (stmt_then s ss) = do check_stmt s; check_stmts ss

  pub check_stmt : Stmt → M (Unit {0})
  check_stmt (Stmt.block n ss) = in_scope false (check_stmts ss)
  check_stmt (Stmt.expr n e) = do check_expr e; skip
  check_stmt (Stmt.var_decl n te flags inits) =
      if te_name te == "__fn" then err n.loc fn_variable else do
        t ← type_from_te te
        nested ← gets (λ s. ltb 1 (depth s.scopes))
        when (flags.is_thread_local && nested) (err n.loc thread_local_scope)
        check_inits n.loc t flags inits
  check_stmt (Stmt.if_stmt n cond then_br else_br) = do
    ct ← check_expr cond
    require_bool ct (expr_loc cond) if_condition
    check_stmt then_br
    check_maybe_stmt else_br
  check_stmt (Stmt.while_stmt n label cond body) = do
    ct ← check_expr cond
    require_bool ct (expr_loc cond) while_condition
    looping (check_stmt body)
  check_stmt (Stmt.do_while n body cond) = do
    looping (check_stmt body)
    ct ← check_expr cond
    require_bool ct (expr_loc cond) do_while_condition
    skip
  check_stmt (Stmt.for_in n te x iterable body) = do
    iter_t ← check_expr iterable
    check_iterable iter_t (expr_loc iterable)
    in_scope false
        (do t ← type_from_te te; define_var x t false (te_loc te); looping (check_stmt body))
  check_stmt (Stmt.for_c n te x init cond incr body) = in_scope false (do
    t ← type_from_te te
    define_symbol x (symbol x SymKind.var t)
    init_t ← check_expr init
    require_assignable init_t t (expr_loc init) for_init
    check_expr cond
    check_expr incr
    looping (check_stmt body))
  check_stmt (Stmt.switch n e cases) = do check_expr e; looping (check_cases cases)
  check_stmt (Stmt.match_stmt n e arms) = do
    t ← check_expr e
    check_arms arms
    check_scrutinee t (expr_loc e) (arm_patterns arms)
  check_stmt (Stmt.try_catch n try_body catch_all catch_type catch_var catch_body) = do
    check_stmt try_body
    in_scope false (do define_catch_var catch_all catch_type catch_var; check_stmt catch_body)
  check_stmt (Stmt.return_stmt n (an_expr e)) = do
    t ← check_expr e
    expected ← gets (λ s. s.current_return_type)
    require_assignable t expected (expr_loc e) return_value
    skip
  check_stmt (Stmt.return_stmt n no_expr) = check_bare_return n.loc
  check_stmt (Stmt.break_stmt n label) = check_loop_exit n.loc break_outside_loop
  check_stmt (Stmt.continue_stmt n label) = check_loop_exit n.loc continue_outside_loop
  check_stmt (Stmt.assert_stmt n cond) = do
    t ← check_expr cond
    require_bool t (expr_loc cond) assert_condition
    skip
  check_stmt (Stmt.delete_stmt n e) = do
    t ← check_expr e
    when (not (id_eq t tid_unknown) && is_numeric t) (warn (expr_loc e) delete_numeric)
  check_stmt (Stmt.labeled n label s) = check_stmt s
  check_stmt (Stmt.defer n ss) = check_stmts ss
  check_stmt (Stmt.throw_stmt n e) = do check_expr e; skip
  check_stmt (Stmt.unsafe n ss) = unsafely (check_stmts ss)

  pub check_maybe_stmt : MaybeStmt → M (Unit {0})
  check_maybe_stmt no_stmt = skip
  check_maybe_stmt (a_stmt s) = check_stmt s

  -- The loop of check_var_decl over the declared names.
  pub check_inits : SourceLoc → TypeId → VarFlags → Inits → M (Unit {0})
  check_inits loc t flags no_inits = skip
  check_inits loc t flags (init_then x no_expr rest) = do
    when flags.is_const (err loc (const_needs_initializer x))
    declare x t flags loc
    check_inits loc t flags rest
  check_inits loc t flags (init_then x (an_expr e) rest) = do
    when (flags.is_thread_local && not (is_literal e)) (err (expr_loc e) thread_local_constant)
    init_t ← check_expr e
    var_type ← initialised_type x t e init_t
    declare x var_type flags loc
    check_inits loc t flags rest

  pub check_cases : Cases → M (Unit {0})
  check_cases no_cases = skip
  check_cases (case_then no_expr body rest) = do in_scope false (check_stmts body); check_cases rest
  check_cases (case_then (an_expr e) body rest) = do
    check_expr e
    in_scope false (check_stmts body)
    check_cases rest

  pub check_arms : Arms → M (Unit {0})
  check_arms no_arms = skip
  check_arms (arm_then p body loc rest) = do
    check_pattern p loc
    in_scope false (do bind_pattern p; check_stmts body)
    check_arms rest
