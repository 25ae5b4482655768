-- ===== src/Generics/Fix.antt =====
-- The walk of src/sema/generics.cpp over trees: fix_expr, fix_stmt, fix_func_decl and fix_decl.
-- It does not come to what stands in an AwaitExpr, a MatchStmt, an explicit return type of a
-- lambda, the initialiser of a field or the initialisation list of a constructor, nor to the
-- members of an interface or the declaration of an enum or an extern function.
use dux_lang.Prelude.{
  String, Bool, true, false, ◌&&◌, Option, some, none, List, [], ◌∷◌, if◌then◌else◌,
}
use dux_lang.Ast.{
  Expr, Exprs, no_exprs, expr_then, Pairs, no_pairs, pair_then, MaybeExpr, no_expr, an_expr, Inits,
  no_inits, init_then, Stmt, MaybeStmt, no_stmt, a_stmt, Stmts, no_stmts, stmt_then, Cases,
  no_cases, case_then,
}
use dux_lang.Ast.Declarations.{FunctionDecl, MemberDecl, ClassMember, ClassDecl, Decl, Decls}
use dux_lang.Generics.FixTypes.{Walked, fix_te, fix_params, fix_option}

unfoldable mutual
  pub fix_expr : List String → Expr → Walked Expr
  fix_expr done (Expr.new n te args) p =
      let (te', p1) = fix_te done te p in
      let (args', p2) = fix_exprs done args p1 in (Expr.new n te' args', p2)
  fix_expr done (Expr.binary n op l r) p =
      let (l', p1) = fix_expr done l p in
      let (r', p2) = fix_expr done r p1 in (Expr.binary n op l' r', p2)
  fix_expr done (Expr.unary n op e prefix) p =
      let (e', p1) = fix_expr done e p in (Expr.unary n op e' prefix, p1)
  fix_expr done (Expr.assign n op t v) p =
      let (t', p1) = fix_expr done t p in
      let (v', p2) = fix_expr done v p1 in (Expr.assign n op t' v', p2)
  fix_expr done (Expr.call n f args) p =
      let (f', p1) = fix_expr done f p in
      let (args', p2) = fix_exprs done args p1 in (Expr.call n f' args', p2)
  fix_expr done (Expr.member n e m) p = let (e', p1) = fix_expr done e p in (Expr.member n e' m, p1)
  fix_expr done (Expr.index n e i) p =
      let (e', p1) = fix_expr done e p in
      let (i', p2) = fix_expr done i p1 in (Expr.index n e' i', p2)
  fix_expr done (Expr.list n es) p = let (es', p1) = fix_exprs done es p in (Expr.list n es', p1)
  fix_expr done (Expr.dict n ps) p = let (ps', p1) = fix_pairs done ps p in (Expr.dict n ps', p1)
  fix_expr done (Expr.lambda n ps body ret) p =
      let (ps', p1) = fix_params done ps p in
      let (body', p2) = fix_stmt done body p1 in (Expr.lambda n ps' body' ret, p2)
  fix_expr done e p = (e, p)

  pub fix_exprs : List String → Exprs → Walked Exprs
  fix_exprs done no_exprs p = (no_exprs, p)
  fix_exprs done (expr_then e es) p =
      let (e', p1) = fix_expr done e p in
      let (es', p2) = fix_exprs done es p1 in (expr_then e' es', p2)

  pub fix_pairs : List String → Pairs → Walked Pairs
  fix_pairs done no_pairs p = (no_pairs, p)
  fix_pairs done (pair_then k v ps) p =
      let (k', p1) = fix_expr done k p in
      let (v', p2) = fix_expr done v p1 in
      let (ps', p3) = fix_pairs done ps p2 in (pair_then k' v' ps', p3)

  pub fix_maybe : List String → MaybeExpr → Walked MaybeExpr
  fix_maybe done no_expr p = (no_expr, p)
  fix_maybe done (an_expr e) p = let (e', p1) = fix_expr done e p in (an_expr e', p1)

  pub fix_inits : List String → Inits → Walked Inits
  fix_inits done no_inits p = (no_inits, p)
  fix_inits done (init_then x e is) p =
      let (e', p1) = fix_maybe done e p in
      let (is', p2) = fix_inits done is p1 in (init_then x e' is', p2)

  pub fix_stmt : List String → Stmt → Walked Stmt
  fix_stmt done (Stmt.block n ss) p = let (ss', p1) = fix_stmts done ss p in (Stmt.block n ss', p1)
  fix_stmt done (Stmt.expr n e) p = let (e', p1) = fix_expr done e p in (Stmt.expr n e', p1)
  fix_stmt done (Stmt.var_decl n te flags is) p =
      let (te', p1) = fix_te done te p in
      let (is', p2) = fix_inits done is p1 in (Stmt.var_decl n te' flags is', p2)
  fix_stmt done (Stmt.if_stmt n c x y) p =
      let (c', p1) = fix_expr done c p in
      let (x', p2) = fix_stmt done x p1 in
      let (y', p3) = fix_else done y p2 in (Stmt.if_stmt n c' x' y', p3)
  fix_stmt done (Stmt.while_stmt n label c body) p =
      let (c', p1) = fix_expr done c p in
      let (body', p2) = fix_stmt done body p1 in (Stmt.while_stmt n label c' body', p2)
  fix_stmt done (Stmt.do_while n body c) p =
      let (body', p1) = fix_stmt done body p in
      let (c', p2) = fix_expr done c p1 in (Stmt.do_while n body' c', p2)
  fix_stmt done (Stmt.for_in n te x e body) p =
      let (te', p1) = fix_te done te p in
      let (e', p2) = fix_expr done e p1 in
      let (body', p3) = fix_stmt done body p2 in (Stmt.for_in n te' x e' body', p3)
  fix_stmt done (Stmt.for_c n te x i c u body) p =
      let (te', p1) = fix_te done te p in
      let (i', p2) = fix_expr done i p1 in
      let (c', p3) = fix_expr done c p2 in
      let (u', p4) = fix_expr done u p3 in
      let (body', p5) = fix_stmt done body p4 in (Stmt.for_c n te' x i' c' u' body', p5)
  fix_stmt done (Stmt.switch n e cs) p =
      let (e', p1) = fix_expr done e p in
      let (cs', p2) = fix_cases done cs p1 in (Stmt.switch n e' cs', p2)
  fix_stmt done (Stmt.match_stmt n e arms) p = (Stmt.match_stmt n e arms, p)
  fix_stmt done (Stmt.try_catch n x all te v y) p =
      let (x', p1) = fix_stmt done x p in
      let (te', p2) = fix_option done te p1 in
      let (y', p3) = fix_stmt done y p2 in (Stmt.try_catch n x' all te' v y', p3)
  fix_stmt done (Stmt.return_stmt n e) p =
      let (e', p1) = fix_maybe done e p in (Stmt.return_stmt n e', p1)
  fix_stmt done (Stmt.break_stmt n label) p = (Stmt.break_stmt n label, p)
  fix_stmt done (Stmt.continue_stmt n label) p = (Stmt.continue_stmt n label, p)
  fix_stmt done (Stmt.assert_stmt n e) p =
      let (e', p1) = fix_expr done e p in (Stmt.assert_stmt n e', p1)
  fix_stmt done (Stmt.delete_stmt n e) p =
      let (e', p1) = fix_expr done e p in (Stmt.delete_stmt n e', p1)
  fix_stmt done (Stmt.labeled n label st) p =
      let (st', p1) = fix_stmt done st p in (Stmt.labeled n label st', p1)
  fix_stmt done (Stmt.defer n ss) p = let (ss', p1) = fix_stmts done ss p in (Stmt.defer n ss', p1)
  fix_stmt done (Stmt.throw_stmt n e) p =
      let (e', p1) = fix_expr done e p in (Stmt.throw_stmt n e', p1)
  fix_stmt done (Stmt.unsafe n ss) p =
      let (ss', p1) = fix_stmts done ss p in (Stmt.unsafe n ss', p1)

  pub fix_else : List String → MaybeStmt → Walked MaybeStmt
  fix_else done no_stmt p = (no_stmt, p)
  fix_else done (a_stmt st) p = let (st', p1) = fix_stmt done st p in (a_stmt st', p1)

  pub fix_stmts : List String → Stmts → Walked Stmts
  fix_stmts done no_stmts p = (no_stmts, p)
  fix_stmts done (stmt_then st ss) p =
      let (st', p1) = fix_stmt done st p in
      let (ss', p2) = fix_stmts done ss p1 in (stmt_then st' ss', p2)

  pub fix_cases : List String → Cases → Walked Cases
  fix_cases done no_cases p = (no_cases, p)
  fix_cases done (case_then e body cs) p =
      let (e', p1) = fix_maybe done e p in
      let (body', p2) = fix_stmts done body p1 in
      let (cs', p3) = fix_cases done cs p2 in (case_then e' body' cs', p3)

unfoldable pub fix_body : List String → Option Stmts → Walked (Option Stmts)
fix_body done none p = (none, p)
fix_body done (some ss) p = let (ss', p1) = fix_stmts done ss p in (some ss', p1)

unfoldable pub fix_func_decl : List String → FunctionDecl → Walked FunctionDecl
fix_func_decl done f p =
    let (ret, p1) = fix_te done f.return_type p in
    let (params, p2) = fix_params done f.params p1 in
    let (body, p3) = fix_body done f.body p2 in
    (record f { return_type = ret; params = params; body = body }, p3)

unfoldable pub fix_member : List String → MemberDecl → Walked MemberDecl
fix_member done (MemberDecl.method f) p =
    let (f', p1) = fix_func_decl done f p in (MemberDecl.method f', p1)
fix_member done (MemberDecl.field f) p =
    let (te, p1) = fix_te done f.type p in (MemberDecl.field (record f { type = te }), p1)
fix_member done MemberDecl.empty p = (MemberDecl.empty, p)

unfoldable pub fix_members : List String → List ClassMember → Walked (List ClassMember)
fix_members done [] p = ([], p)
fix_members done (m ∷ ms) p =
    let (d, p1) = fix_member done m.decl p in
    let (ms', p2) = fix_members done ms p1 in (record m { decl = d } ∷ ms', p2)

abbrev pub is_generic_class : ClassDecl → Bool
is_generic_class c = elim c.type_params [ [] ↦ false | _ ↦ true ]

abbrev pub is_generic_func : FunctionDecl → Bool
is_generic_func f = elim f.type_params [ [] ↦ false | _ ↦ true ]

unfoldable pub fix_class : List String → ClassDecl → Walked ClassDecl
fix_class done c p = let (ms, p1) = fix_members done c.members p in (record c { members = ms }, p1)

unfoldable mutual
  pub fix_decl : Bool → List String → Decl → Walked Decl
  fix_decl skip_generic done (Decl.class_decl c) p =
      let (c', p1) = fix_class done c p in
      if skip_generic && is_generic_class c
      then (Decl.class_decl c, p)
      else (Decl.class_decl c', p1)
  fix_decl skip_generic done (Decl.func f) p =
      let (f', p1) = fix_func_decl done f p in
      if skip_generic && is_generic_func f then (Decl.func f, p) else (Decl.func f', p1)
  fix_decl skip_generic done (Decl.namespace_decl n name ds ss is_package_decl) p =
      let (ds', p1) = fix_decls skip_generic done ds p in
      let (ss', p2) = fix_stmts done ss p1 in
      (Decl.namespace_decl n name ds' ss' is_package_decl, p2)
  fix_decl skip_generic done d p = (d, p)

  pub fix_decls : Bool → List String → Decls → Walked Decls
  fix_decls skip_generic done Decls.nil p = (Decls.nil, p)
  fix_decls skip_generic done (Decls.cons d ds) p =
      let (d', p1) = fix_decl skip_generic done d p in
      let (ds', p2) = fix_decls skip_generic done ds p1 in (Decls.cons d' ds', p2)
