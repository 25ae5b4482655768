-- ===== src/Sema/FrameCheck.antt =====
-- The frame of the checks of statements and expressions: by induction on the syntax tree.
use dux_lang.Prelude.{ℕ, String, false, List, [], ◌∷◌}
use dux_lang.Types.{TypeId, tid_unknown}
use dux_lang.Ast.{
  SourceLoc, VarFlags, Expr, Exprs, no_exprs, expr_then, Pairs, no_pairs, pair_then, no_expr,
  an_expr, Inits, no_inits, init_then, Stmt, MaybeStmt, no_stmt, a_stmt, Stmts, no_stmts, stmt_then,
  Cases, no_cases, case_then, Arms, no_arms, arm_then,
}
use dux_lang.Ast.Views.{expr_loc, as_ident}
use dux_lang.Sema.Frame.{
  Keeps, Keeps-pure, Keeps-gets, Keeps-if, Keeps-err, Keeps-define_symbol, ◌⟫◌, keeps_rules,
}
use dux_lang.Sema.FrameFlags.{
  Keeps-in_scope, Keeps-looping, Keeps-unsafely, Keeps-awaiting, Keeps-returning,
}
use dux_lang.Sema.FrameParts.{
  Keeps-type_from_te, Keeps-require_assignable, Keeps-require_bool, Keeps-binary_type,
  Keeps-unary_type, Keeps-index_type, Keeps-enum_access, Keeps-member_type, Keeps-check_pattern,
  Keeps-bind_pattern, Keeps-check_scrutinee, Keeps-define_lambda_params, Keeps-lambda_type,
}
use dux_lang.Sema.Members.{stdlib_return}
use dux_lang.Sema.Check.{
  check_expr, check_exprs, check_args, check_pairs, check_body, check_stmts, check_stmt,
  check_maybe_stmt, check_inits, check_cases, check_arms,
}
use dux_lang.Sema.FrameSteps.{
  Keeps-typed, Keeps-ident_type, Keeps-this_type, Keeps-super_type, Keeps-assign_early,
  Keeps-assign_late, Keeps-call_type, Keeps-define_var, Keeps-declare, Keeps-initialised_type,
  Keeps-define_catch_var, Keeps-check_loop_exit, Keeps-check_bare_return, Keeps-check_iterable,
  stdlib_call, any_call, early_or,
}

mutual
  unfolding check_expr

  expr_frame : (e : Expr) → Keeps (check_expr e)
  expr_frame (Expr.int_lit n v) = Keeps-typed n (Keeps-pure _)
  expr_frame (Expr.long_lit n v) = Keeps-typed n (Keeps-pure _)
  expr_frame (Expr.float_lit n v) = Keeps-typed n (Keeps-pure _)
  expr_frame (Expr.real_lit n v) = Keeps-typed n (Keeps-pure _)
  expr_frame (Expr.string_lit n v) = Keeps-typed n (Keeps-pure _)
  expr_frame (Expr.bool_lit n v) = Keeps-typed n (Keeps-pure _)
  expr_frame (Expr.null_lit n) = Keeps-typed n (Keeps-pure _)
  expr_frame (Expr.ident n x) = Keeps-typed n (Keeps-ident_type n x)
  expr_frame (Expr.this n) = Keeps-typed n (Keeps-this_type n)
  expr_frame (Expr.super n) = Keeps-typed n Keeps-super_type
  expr_frame (Expr.binary n op a b) =
      Keeps-typed n (expr_frame a ⟫ λ l. expr_frame b ⟫ λ r. Keeps-binary_type n op a b l r)
  expr_frame (Expr.unary n op e p) =
      Keeps-typed n (expr_frame e ⟫ λ t. Keeps-unary_type op t (expr_loc e))
  expr_frame (Expr.assign n op a b) = Keeps-typed n (
      expr_frame b ⟫ λ r.
      early_or (Keeps-assign_early op a r)
        (expr_frame a ⟫ λ l. Keeps-assign_late op l r (expr_loc a) (expr_loc b)))
  expr_frame (Expr.call n f args) = Keeps-typed n (
      any_call (as_ident f)
        (λ x.
          Keeps-gets _
          ⟫ Keeps-call_type x f _ (exprs_frame args) (λ sym. args_frame 1 sym.name sym.params args))
        (stdlib_call (stdlib_return f) (expr_frame f) (exprs_frame args)))
  expr_frame (Expr.member n e x) =
      Keeps-typed n
        (early_or (Keeps-enum_access n e x) (expr_frame e ⟫ λ t. Keeps-member_type n e x t))
  expr_frame (Expr.index n e i) =
      Keeps-typed n (expr_frame e ⟫ λ t. expr_frame i ⟫ λ u. Keeps-index_type e t (expr_loc i) u)
  expr_frame (Expr.new n te args) =
      Keeps-typed n (
        Keeps-type_from_te te ⟫ λ t. search keeps_rules ⟫ λ _. exprs_frame args ⟫ λ _. Keeps-pure t)
  expr_frame (Expr.list n es) = Keeps-typed n (exprs_frame es ⟫ λ _. Keeps-pure _)
  expr_frame (Expr.dict n ps) = Keeps-typed n (pairs_frame ps ⟫ λ _. Keeps-pure _)
  expr_frame (Expr.lambda n ps body ret) = Keeps-typed n (
      Keeps-in_scope false _ (
        Keeps-define_lambda_params ps ⟫ λ _.
        Keeps-returning tid_unknown _ (body_frame body) ⟫ λ _. Keeps-gets _)
      ⟫ λ t. Keeps-lambda_type n ps ret t)
  expr_frame (Expr.await n e) = Keeps-typed n (Keeps-awaiting _ (expr_frame e))

  exprs_frame : (es : Exprs) → Keeps (check_exprs es)
  exprs_frame no_exprs = Keeps-pure tt
  exprs_frame (expr_then e es) = expr_frame e ⟫ λ _. exprs_frame es

  args_frame :
      (i : ℕ) (name : String) (ps : List (String × TypeId)) (es : Exprs)
      → Keeps (check_args i name ps es)
  args_frame i name ps no_exprs = Keeps-pure tt
  args_frame i name [] (expr_then e es) = expr_frame e ⟫ λ _. args_frame _ name [] es
  args_frame i name ((x, t) ∷ ps) (expr_then e es) =
      expr_frame e ⟫ λ u. Keeps-require_assignable u t (expr_loc e) _ ⟫ λ _. args_frame _ name ps es

  pairs_frame : (ps : Pairs) → Keeps (check_pairs ps)
  pairs_frame no_pairs = Keeps-pure tt
  pairs_frame (pair_then k v ps) = expr_frame k ⟫ λ _. expr_frame v ⟫ λ _. pairs_frame ps

  body_frame : (s : Stmt) → Keeps (check_body s)
  body_frame (Stmt.block n ss) = stmts_frame ss
  body_frame _ = Keeps-pure tt

  stmts_frame : (ss : Stmts) → Keeps (check_stmts ss)
  stmts_frame no_stmts = Keeps-pure tt
  stmts_frame (stmt_then s ss) = stmt_frame s ⟫ λ _. stmts_frame ss

  stmt_frame : (s : Stmt) → Keeps (check_stmt s)
  stmt_frame (Stmt.block n ss) = Keeps-in_scope false _ (stmts_frame ss)
  stmt_frame (Stmt.expr n e) = expr_frame e ⟫ λ _. Keeps-pure tt
  stmt_frame (Stmt.var_decl n te flags inits) = Keeps-if _ _ _ (Keeps-err _ _) (
      Keeps-type_from_te te ⟫ λ t.
      Keeps-gets _ ⟫ λ _. search keeps_rules ⟫ λ _. inits_frame n.loc t flags inits)
  stmt_frame (Stmt.if_stmt n c a b) =
      expr_frame c ⟫ λ t. Keeps-require_bool t _ _ ⟫ λ _. stmt_frame a ⟫ λ _. maybe_stmt_frame b
  stmt_frame (Stmt.while_stmt n label c body) =
      expr_frame c ⟫ λ t. Keeps-require_bool t _ _ ⟫ λ _. Keeps-looping _ (stmt_frame body)
  stmt_frame (Stmt.do_while n body c) = Keeps-looping _ (stmt_frame body) ⟫ λ _.
      expr_frame c ⟫ λ t. Keeps-require_bool t _ _ ⟫ λ _. Keeps-pure tt
  stmt_frame (Stmt.for_in n te x e body) = expr_frame e ⟫ λ t. Keeps-check_iterable t _ ⟫ λ _.
      Keeps-in_scope false _ (
        Keeps-type_from_te te ⟫ λ u.
        Keeps-define_var x u false _ ⟫ λ _. Keeps-looping _ (stmt_frame body))
  stmt_frame (Stmt.for_c n te x a b c body) = Keeps-in_scope false _ (
      Keeps-type_from_te te ⟫ λ t. Keeps-define_symbol x _ ⟫ λ _. expr_frame a ⟫ λ u.
      Keeps-require_assignable u t _ _ ⟫ λ _.
      expr_frame b ⟫ λ _. expr_frame c ⟫ λ _. Keeps-looping _ (stmt_frame body))
  stmt_frame (Stmt.switch n e cases) = expr_frame e ⟫ λ _. Keeps-looping _ (cases_frame cases)
  stmt_frame (Stmt.match_stmt n e arms) =
      expr_frame e ⟫ λ t. arms_frame arms ⟫ λ _. Keeps-check_scrutinee t _ _
  stmt_frame (Stmt.try_catch n a all t x b) = stmt_frame a ⟫ λ _.
      Keeps-in_scope false _ (Keeps-define_catch_var all t x ⟫ λ _. stmt_frame b)
  stmt_frame (Stmt.return_stmt n (an_expr e)) =
      expr_frame e ⟫ λ t. Keeps-gets _ ⟫ λ u. Keeps-require_assignable t u _ _ ⟫ λ _. Keeps-pure tt
  stmt_frame (Stmt.return_stmt n no_expr) = Keeps-check_bare_return n.loc
  stmt_frame (Stmt.break_stmt n label) = Keeps-check_loop_exit n.loc _
  stmt_frame (Stmt.continue_stmt n label) = Keeps-check_loop_exit n.loc _
  stmt_frame (Stmt.assert_stmt n c) =
      expr_frame c ⟫ λ t. Keeps-require_bool t _ _ ⟫ λ _. Keeps-pure tt
  stmt_frame (Stmt.delete_stmt n e) = expr_frame e ⟫ λ t. search keeps_rules
  stmt_frame (Stmt.labeled n label s) = stmt_frame s
  stmt_frame (Stmt.defer n ss) = stmts_frame ss
  stmt_frame (Stmt.throw_stmt n e) = expr_frame e ⟫ λ _. Keeps-pure tt
  stmt_frame (Stmt.unsafe n ss) = Keeps-unsafely _ (stmts_frame ss)

  maybe_stmt_frame : (s : MaybeStmt) → Keeps (check_maybe_stmt s)
  maybe_stmt_frame no_stmt = Keeps-pure tt
  maybe_stmt_frame (a_stmt s) = stmt_frame s

  inits_frame :
      (loc : SourceLoc) (t : TypeId) (flags : VarFlags) (inits : Inits)
      → Keeps (check_inits loc t flags inits)
  inits_frame loc t flags no_inits = Keeps-pure tt
  inits_frame loc t flags (init_then x no_expr rest) =
      search keeps_rules ⟫ λ _. Keeps-declare x t flags loc ⟫ λ _. inits_frame loc t flags rest
  inits_frame loc t flags (init_then x (an_expr e) rest) = search keeps_rules ⟫ λ _.
      expr_frame e ⟫ λ u. Keeps-initialised_type x t e u ⟫ λ v.
      Keeps-declare x v flags loc ⟫ λ _. inits_frame loc t flags rest

  cases_frame : (cs : Cases) → Keeps (check_cases cs)
  cases_frame no_cases = Keeps-pure tt
  cases_frame (case_then no_expr body rest) =
      Keeps-in_scope false _ (stmts_frame body) ⟫ λ _. cases_frame rest
  cases_frame (case_then (an_expr e) body rest) =
      expr_frame e ⟫ λ _. Keeps-in_scope false _ (stmts_frame body) ⟫ λ _. cases_frame rest

  arms_frame : (arms : Arms) → Keeps (check_arms arms)
  arms_frame no_arms = Keeps-pure tt
  arms_frame (arm_then p body loc rest) = Keeps-check_pattern p loc ⟫ λ _.
      Keeps-in_scope false _ (Keeps-bind_pattern p ⟫ λ _. stmts_frame body) ⟫ λ _. arms_frame rest

pub Keeps-check_expr : (e : Expr) → Keeps (check_expr e)
Keeps-check_expr e = expr_frame e

pub Keeps-check_stmt : (s : Stmt) → Keeps (check_stmt s)
Keeps-check_stmt s = stmt_frame s

pub Keeps-check_stmts : (ss : Stmts) → Keeps (check_stmts ss)
Keeps-check_stmts ss = stmts_frame ss
