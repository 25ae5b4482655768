-- ===== src/Sema/LoopExits/Check.antt =====
-- Every stray `break` and `continue` of a tree makes its check report an error.
use dux_lang.Prelude.{ℕ, String, Bool, true, false, List, [], ◌∷◌, arith, Option-cases, ◌==◌}
use dux_lang.Types.{TypeId, tid_unknown}
use dux_lang.Ast.{
  SourceLoc, VarFlags, Expr, Exprs, no_exprs, expr_then, Pairs, no_pairs, pair_then, no_expr,
  an_expr, Inits, no_inits, init_then, Stmt, MaybeStmt, no_stmt, a_stmt, Stmts, no_stmts, stmt_then,
  Cases, no_cases, case_then, Arms, no_arms, arm_then,
}
use dux_lang.Ast.Views.{te_name, expr_loc, as_ident}
use dux_lang.Sema.Frame.{Keeps-pure, Keeps-gets, Keeps-define_symbol, keeps_rules}
use dux_lang.Sema.FrameParts.{
  Keeps-type_from_te, Keeps-require_assignable, Keeps-require_bool, Keeps-binary_type,
  Keeps-unary_type, Keeps-index_type, Keeps-check_pattern, Keeps-bind_pattern,
  Keeps-check_scrutinee, Keeps-define_lambda_params, Keeps-lambda_type,
}
use dux_lang.Sema.FrameSteps.{
  Keeps-check_bare_return, Keeps-check_iterable, Keeps-define_var, Keeps-declare,
  Keeps-initialised_type, Keeps-define_catch_var,
}
use dux_lang.Sema.FrameCheck.{Keeps-check_expr}
use dux_lang.Sema.Check.{
  check_expr, check_exprs, check_args, check_pairs, check_body, check_stmts, check_stmt,
  check_maybe_stmt, check_inits, check_cases, check_arms,
}
use dux_lang.Sema.LoopExits.{
  stray, stray_expr, stray_exprs, stray_pairs, stray_body, stray_stmts, stray_maybe, stray_inits,
  stray_cases, stray_arms, Adds, quiet, weaken, ◌then_adds◌,
}
use dux_lang.Sema.LoopExits.Flags.{
  Adds-in_scope, Adds-looping, Adds-unsafely, Adds-awaiting, Adds-returning,
}
use dux_lang.Sema.LoopExits.Parts.{
  Adds-typed, Adds-choice, Adds-err, Adds-loop_exit, early_target, early_object, call-Adds,
}

mutual
  unfolding check_expr stray_expr

  expr-Adds : (b : Bool) (e : Expr) → Adds b (stray_expr b e) (check_expr e)
  expr-Adds b (Expr.binary n op l r) = Adds-typed n (
      weaken
        (expr-Adds b l then_adds λ t.
          expr-Adds b r then_adds λ u. quiet (Keeps-binary_type n op l r t u))
        (omega arith))
  expr-Adds b (Expr.unary n op e p) = Adds-typed n (
      weaken (expr-Adds b e then_adds λ t. quiet (Keeps-unary_type op t (expr_loc e)))
        (omega arith))
  expr-Adds b (Expr.assign n op e v) = Adds-typed n (
      weaken
        (expr-Adds b v then_adds λ r.
          early_target b op e r (expr_loc v) (expr-Adds b e) (Option-cases (as_ident e)))
        (omega arith))
  expr-Adds b (Expr.call n f args) = Adds-typed n (
      call-Adds b f args (expr-Adds b f) (exprs-Adds b args)
        (λ s. args-Adds b 1 s.name s.params args) (Option-cases (as_ident f)))
  expr-Adds b (Expr.member n e x) =
      Adds-typed n (early_object b n e x (expr-Adds b e) (Option-cases (as_ident e)))
  expr-Adds b (Expr.index n e i) = Adds-typed n (
      weaken
        (expr-Adds b e then_adds λ t.
          expr-Adds b i then_adds λ u. quiet (Keeps-index_type e t (expr_loc i) u))
        (omega arith))
  expr-Adds b (Expr.new n te args) = Adds-typed n (
      weaken
        (quiet (Keeps-type_from_te te) then_adds λ t. quiet (search keeps_rules) then_adds λ _.
          exprs-Adds b args then_adds λ _. quiet (Keeps-pure t))
        (omega arith))
  expr-Adds b (Expr.list n es) =
      Adds-typed n (weaken (exprs-Adds b es then_adds λ _. quiet (Keeps-pure _)) (omega arith))
  expr-Adds b (Expr.dict n ps) =
      Adds-typed n (weaken (pairs-Adds b ps then_adds λ _. quiet (Keeps-pure _)) (omega arith))
  expr-Adds b (Expr.lambda n ps body ret) = Adds-typed n (
      weaken
        (Adds-in_scope false (
            quiet (Keeps-define_lambda_params ps) then_adds λ _.
            Adds-returning tid_unknown (body-Adds b body) then_adds λ _. quiet (Keeps-gets _))
          then_adds λ t. quiet (Keeps-lambda_type n ps ret t))
        (omega arith))
  expr-Adds b (Expr.await n e) = Adds-typed n (Adds-awaiting (expr-Adds b e))
  expr-Adds b (Expr.int_lit n v) = quiet (Keeps-check_expr (Expr.int_lit n v))
  expr-Adds b (Expr.long_lit n v) = quiet (Keeps-check_expr (Expr.long_lit n v))
  expr-Adds b (Expr.float_lit n v) = quiet (Keeps-check_expr (Expr.float_lit n v))
  expr-Adds b (Expr.real_lit n v) = quiet (Keeps-check_expr (Expr.real_lit n v))
  expr-Adds b (Expr.string_lit n v) = quiet (Keeps-check_expr (Expr.string_lit n v))
  expr-Adds b (Expr.bool_lit n v) = quiet (Keeps-check_expr (Expr.bool_lit n v))
  expr-Adds b (Expr.null_lit n) = quiet (Keeps-check_expr (Expr.null_lit n))
  expr-Adds b (Expr.ident n x) = quiet (Keeps-check_expr (Expr.ident n x))
  expr-Adds b (Expr.this n) = quiet (Keeps-check_expr (Expr.this n))
  expr-Adds b (Expr.super n) = quiet (Keeps-check_expr (Expr.super n))

  exprs-Adds : (b : Bool) (es : Exprs) → Adds b (stray_exprs b es) (check_exprs es)
  exprs-Adds b no_exprs = quiet (Keeps-pure tt)
  exprs-Adds b (expr_then e es) = expr-Adds b e then_adds λ _. exprs-Adds b es

  args-Adds :
      (b : Bool) (i : ℕ) (name : String) (ps : List (String × TypeId)) (es : Exprs)
      → Adds b (stray_exprs b es) (check_args i name ps es)
  args-Adds b i name ps no_exprs = quiet (Keeps-pure tt)
  args-Adds b i name [] (expr_then e es) = expr-Adds b e then_adds λ _. args-Adds b _ name [] es
  args-Adds b i name ((x, t) ∷ ps) (expr_then e es) =
      weaken
        (expr-Adds b e then_adds λ u.
          quiet (Keeps-require_assignable u t (expr_loc e) _) then_adds λ _.
          args-Adds b _ name ps es)
        (omega arith)

  pairs-Adds : (b : Bool) (ps : Pairs) → Adds b (stray_pairs b ps) (check_pairs ps)
  pairs-Adds b no_pairs = quiet (Keeps-pure tt)
  pairs-Adds b (pair_then k v ps) =
      expr-Adds b k then_adds λ _. expr-Adds b v then_adds λ _. pairs-Adds b ps

  body-Adds : (b : Bool) (s : Stmt) → Adds b (stray_body b s) (check_body s)
  body-Adds b (Stmt.block n ss) = stmts-Adds b ss
  body-Adds b _ = quiet (Keeps-pure tt)

  stmts-Adds : (b : Bool) (ss : Stmts) → Adds b (stray_stmts b ss) (check_stmts ss)
  stmts-Adds b no_stmts = quiet (Keeps-pure tt)
  stmts-Adds b (stmt_then s ss) = stmt-Adds b s then_adds λ _. stmts-Adds b ss

  stmt-Adds : (b : Bool) (s : Stmt) → Adds b (stray b s) (check_stmt s)
  stmt-Adds b (Stmt.block n ss) = Adds-in_scope false (stmts-Adds b ss)
  stmt-Adds b (Stmt.expr n e) =
      weaken (expr-Adds b e then_adds λ _. quiet (Keeps-pure tt)) (omega arith)
  stmt-Adds b (Stmt.var_decl n te flags inits) =
      Adds-choice (te_name te == "__fn") (Adds-err b n.loc _) (
        weaken
          (quiet (Keeps-type_from_te te) then_adds λ t. quiet (Keeps-gets _) then_adds λ _.
            quiet (search keeps_rules) then_adds λ _. inits-Adds b n.loc t flags inits)
          (omega arith))
  stmt-Adds b (Stmt.if_stmt n c x y) =
      weaken
        (expr-Adds b c then_adds λ t. quiet (Keeps-require_bool t _ _) then_adds λ _.
          stmt-Adds b x then_adds λ _. maybe-Adds b y)
        (omega arith)
  stmt-Adds b (Stmt.while_stmt n label c body) =
      weaken
        (expr-Adds b c then_adds λ t.
          quiet (Keeps-require_bool t _ _) then_adds λ _. Adds-looping (stmt-Adds true body))
        (omega arith)
  stmt-Adds b (Stmt.do_while n body c) =
      weaken
        (Adds-looping (stmt-Adds true body) then_adds λ _. expr-Adds b c then_adds λ t.
          quiet (Keeps-require_bool t _ _) then_adds λ _. quiet (Keeps-pure tt))
        (omega arith)
  stmt-Adds b (Stmt.for_in n te x e body) =
      weaken
        (expr-Adds b e then_adds λ t. quiet (Keeps-check_iterable t _) then_adds λ _.
          Adds-in_scope false (
            quiet (Keeps-type_from_te te) then_adds λ u.
            quiet (Keeps-define_var x u false _) then_adds λ _. Adds-looping (stmt-Adds true body)))
        (omega arith)
  stmt-Adds b (Stmt.for_c n te x i c u body) =
      weaken
        (Adds-in_scope false (
          quiet (Keeps-type_from_te te) then_adds λ t.
          quiet (Keeps-define_symbol x _) then_adds λ _. expr-Adds b i then_adds λ v.
          quiet (Keeps-require_assignable v t _ _) then_adds λ _. expr-Adds b c then_adds λ _.
          expr-Adds b u then_adds λ _. Adds-looping (stmt-Adds true body)))
        (omega arith)
  stmt-Adds b (Stmt.switch n e cases) =
      expr-Adds b e then_adds λ _. Adds-looping (cases-Adds true cases)
  stmt-Adds b (Stmt.match_stmt n e arms) =
      weaken
        (expr-Adds b e then_adds λ t.
          arms-Adds b arms then_adds λ _. quiet (Keeps-check_scrutinee t _ _))
        (omega arith)
  stmt-Adds b (Stmt.try_catch n x all t v y) =
      weaken
        (stmt-Adds b x then_adds λ _.
          Adds-in_scope false (quiet (Keeps-define_catch_var all t v) then_adds λ _. stmt-Adds b y))
        (omega arith)
  stmt-Adds b (Stmt.return_stmt n (an_expr e)) =
      weaken
        (expr-Adds b e then_adds λ t. quiet (Keeps-gets _) then_adds λ u.
          quiet (Keeps-require_assignable t u _ _) then_adds λ _. quiet (Keeps-pure tt))
        (omega arith)
  stmt-Adds b (Stmt.return_stmt n no_expr) = quiet (Keeps-check_bare_return n.loc)
  stmt-Adds b (Stmt.break_stmt n label) = Adds-loop_exit b n.loc _
  stmt-Adds b (Stmt.continue_stmt n label) = Adds-loop_exit b n.loc _
  stmt-Adds b (Stmt.assert_stmt n e) =
      weaken
        (expr-Adds b e then_adds λ t.
          quiet (Keeps-require_bool t _ _) then_adds λ _. quiet (Keeps-pure tt))
        (omega arith)
  stmt-Adds b (Stmt.delete_stmt n e) =
      weaken (expr-Adds b e then_adds λ t. quiet (search keeps_rules)) (omega arith)
  stmt-Adds b (Stmt.labeled n label s) = stmt-Adds b s
  stmt-Adds b (Stmt.defer n ss) = stmts-Adds b ss
  stmt-Adds b (Stmt.throw_stmt n e) =
      weaken (expr-Adds b e then_adds λ _. quiet (Keeps-pure tt)) (omega arith)
  stmt-Adds b (Stmt.unsafe n ss) = Adds-unsafely (stmts-Adds b ss)

  maybe-Adds : (b : Bool) (s : MaybeStmt) → Adds b (stray_maybe b s) (check_maybe_stmt s)
  maybe-Adds b no_stmt = quiet (Keeps-pure tt)
  maybe-Adds b (a_stmt s) = stmt-Adds b s

  inits-Adds :
      (b : Bool) (loc : SourceLoc) (t : TypeId) (flags : VarFlags) (inits : Inits)
      → Adds b (stray_inits b inits) (check_inits loc t flags inits)
  inits-Adds b loc t flags no_inits = quiet (Keeps-pure tt)
  inits-Adds b loc t flags (init_then x no_expr rest) =
      weaken
        (quiet (search keeps_rules) then_adds λ _.
          quiet (Keeps-declare x t flags loc) then_adds λ _. inits-Adds b loc t flags rest)
        (omega arith)
  inits-Adds b loc t flags (init_then x (an_expr e) rest) =
      weaken
        (quiet (search keeps_rules) then_adds λ _. expr-Adds b e then_adds λ u.
          quiet (Keeps-initialised_type x t e u) then_adds λ v.
          quiet (Keeps-declare x v flags loc) then_adds λ _. inits-Adds b loc t flags rest)
        (omega arith)

  cases-Adds : (b : Bool) (cs : Cases) → Adds b (stray_cases b cs) (check_cases cs)
  cases-Adds b no_cases = quiet (Keeps-pure tt)
  cases-Adds b (case_then no_expr body rest) =
      Adds-in_scope false (stmts-Adds b body) then_adds λ _. cases-Adds b rest
  cases-Adds b (case_then (an_expr e) body rest) = expr-Adds b e then_adds λ _.
      Adds-in_scope false (stmts-Adds b body) then_adds λ _. cases-Adds b rest

  arms-Adds : (b : Bool) (arms : Arms) → Adds b (stray_arms b arms) (check_arms arms)
  arms-Adds b no_arms = quiet (Keeps-pure tt)
  arms-Adds b (arm_then p body loc rest) =
      weaken
        (quiet (Keeps-check_pattern p loc) then_adds λ _.
          Adds-in_scope false (quiet (Keeps-bind_pattern p) then_adds λ _. stmts-Adds b body)
          then_adds λ _. arms-Adds b rest)
        (omega arith)

pub stmt-Adds-stray : (b : Bool) (s : Stmt) → Adds b (stray b s) (check_stmt s)
stmt-Adds-stray b s = stmt-Adds b s

pub expr-Adds-stray : (b : Bool) (e : Expr) → Adds b (stray_expr b e) (check_expr e)
expr-Adds-stray b e = expr-Adds b e

pub stmts-Adds-stray : (b : Bool) (ss : Stmts) → Adds b (stray_stmts b ss) (check_stmts ss)
stmts-Adds-stray b ss = stmts-Adds b ss
