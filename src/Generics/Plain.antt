-- ===== src/Generics/Plain.antt =====
-- What the walk of src/sema/generics.cpp leaves: no type with arguments, wherever it comes to.
pub mod Declarations
use dux_lang.Prelude.{
  String, Bool, true, false, not, ◌&&◌, ◌||◌, Option, some, none, List, [], ◌∷◌, if◌then◌else◌,
}
use dux_lang.Ast.{
  Expr, Exprs, no_exprs, expr_then, Pairs, no_pairs, pair_then, MaybeExpr, no_expr, an_expr, Inits,
  no_inits, init_then, Stmt, MaybeStmt, no_stmt, a_stmt, Stmts, no_stmts, stmt_then, Cases,
  no_cases, case_then,
}
use dux_lang.Ast.Declarations.{
  FunctionDecl, FieldDecl, MemberDecl, ClassMember, ClassDecl, Decl, Decls,
}
use dux_lang.Ast.{SourceLoc, TypeExpr, TypeExprs, type_expr, Param}
use dux_lang.Generics.FixTypes.{InstKey, name_te, fix_te, fix_tes, fix_params, fix_option}
use dux_lang.Generics.Fix.{
  fix_expr, fix_exprs, fix_pairs, fix_maybe, fix_inits, fix_stmt, fix_else, fix_stmts, fix_cases,
  fix_body, fix_func_decl, fix_member, fix_members, fix_class, fix_decl, fix_decls,
  is_generic_class, is_generic_func,
}

-- A type, and the types of its parameters where it is a function type, have no arguments.
unfoldable mutual
  pub PlainTe : TypeExpr → Type 0
  PlainTe (type_expr name is_const loc fn_params fn_ret TypeExprs.nil) = PlainTes fn_params
  PlainTe (type_expr name is_const loc fn_params fn_ret (TypeExprs.cons t ts)) = ⊥

  pub PlainTes : TypeExprs → Type 0
  PlainTes TypeExprs.nil = Unit
  PlainTes (TypeExprs.cons t ts) = PlainTe t × PlainTes ts

abbrev pub PlainParams : List Param → Type 0
PlainParams [] = Unit
PlainParams (x ∷ xs) = PlainTe x.type × PlainParams xs

abbrev pub PlainOption : Option TypeExpr → Type 0
PlainOption none = Unit
PlainOption (some te) = PlainTe te

-- The same for the trees, but for what stands in `await`, `match` and a lambda's explicit type.
unfoldable mutual
  pub PlainExpr : Expr → Type 0
  PlainExpr (Expr.new n te args) = PlainTe te × PlainExprs args
  PlainExpr (Expr.binary n op l r) = PlainExpr l × PlainExpr r
  PlainExpr (Expr.unary n op e prefix) = PlainExpr e
  PlainExpr (Expr.assign n op t v) = PlainExpr t × PlainExpr v
  PlainExpr (Expr.call n f args) = PlainExpr f × PlainExprs args
  PlainExpr (Expr.member n e m) = PlainExpr e
  PlainExpr (Expr.index n e i) = PlainExpr e × PlainExpr i
  PlainExpr (Expr.list n es) = PlainExprs es
  PlainExpr (Expr.dict n ps) = PlainPairs ps
  PlainExpr (Expr.lambda n ps body ret) = PlainParams ps × PlainStmt body
  PlainExpr _ = Unit

  pub PlainExprs : Exprs → Type 0
  PlainExprs no_exprs = Unit
  PlainExprs (expr_then e es) = PlainExpr e × PlainExprs es

  pub PlainPairs : Pairs → Type 0
  PlainPairs no_pairs = Unit
  PlainPairs (pair_then k v ps) = PlainExpr k × PlainExpr v × PlainPairs ps

  pub PlainMaybe : MaybeExpr → Type 0
  PlainMaybe no_expr = Unit
  PlainMaybe (an_expr e) = PlainExpr e

  pub PlainInits : Inits → Type 0
  PlainInits no_inits = Unit
  PlainInits (init_then x e is) = PlainMaybe e × PlainInits is

  pub PlainStmt : Stmt → Type 0
  PlainStmt (Stmt.block n ss) = PlainStmts ss
  PlainStmt (Stmt.expr n e) = PlainExpr e
  PlainStmt (Stmt.var_decl n te flags is) = PlainTe te × PlainInits is
  PlainStmt (Stmt.if_stmt n c x y) = PlainExpr c × PlainStmt x × PlainElse y
  PlainStmt (Stmt.while_stmt n label c body) = PlainExpr c × PlainStmt body
  PlainStmt (Stmt.do_while n body c) = PlainStmt body × PlainExpr c
  PlainStmt (Stmt.for_in n te x e body) = PlainTe te × PlainExpr e × PlainStmt body
  PlainStmt (Stmt.for_c n te x i c u body) =
      PlainTe te × PlainExpr i × PlainExpr c × PlainExpr u × PlainStmt body
  PlainStmt (Stmt.switch n e cs) = PlainExpr e × PlainCases cs
  PlainStmt (Stmt.match_stmt n e arms) = Unit
  PlainStmt (Stmt.try_catch n x all te v y) = PlainStmt x × PlainOption te × PlainStmt y
  PlainStmt (Stmt.return_stmt n e) = PlainMaybe e
  PlainStmt (Stmt.break_stmt n label) = Unit
  PlainStmt (Stmt.continue_stmt n label) = Unit
  PlainStmt (Stmt.assert_stmt n e) = PlainExpr e
  PlainStmt (Stmt.delete_stmt n e) = PlainExpr e
  PlainStmt (Stmt.labeled n label st) = PlainStmt st
  PlainStmt (Stmt.defer n ss) = PlainStmts ss
  PlainStmt (Stmt.throw_stmt n e) = PlainExpr e
  PlainStmt (Stmt.unsafe n ss) = PlainStmts ss

  pub PlainElse : MaybeStmt → Type 0
  PlainElse no_stmt = Unit
  PlainElse (a_stmt st) = PlainStmt st

  pub PlainStmts : Stmts → Type 0
  PlainStmts no_stmts = Unit
  PlainStmts (stmt_then st ss) = PlainStmt st × PlainStmts ss

  pub PlainCases : Cases → Type 0
  PlainCases no_cases = Unit
  PlainCases (case_then e body cs) = PlainMaybe e × PlainStmts body × PlainCases cs

name_te-PlainTe :
    (done : List String) (name : String) (c : Bool) (loc : SourceLoc) (ps : TypeExprs)
    (ret : String) (args : TypeExprs) (p : List InstKey)
    → PlainTes ps
    → PlainTe (name_te done name c loc ps ret args p).0
unfolding name_te PlainTe
name_te-PlainTe done name c loc ps ret TypeExprs.nil p h = h
name_te-PlainTe done name c loc ps ret (TypeExprs.cons t ts) p h = h

mutual
  unfolding fix_te PlainTe

  te_PlainTe :
      (done : List String) (te : TypeExpr) (p : List InstKey) → PlainTe (fix_te done te p).0
  te_PlainTe done (type_expr name c loc ps ret args) p =
      name_te-PlainTe done name c loc _ ret _ _ (tes_PlainTes done ps _)

  tes_PlainTes :
      (done : List String) (ts : TypeExprs) (p : List InstKey) → PlainTes (fix_tes done ts p).0
  tes_PlainTes done TypeExprs.nil p = tt
  tes_PlainTes done (TypeExprs.cons t ts) p = (te_PlainTe done t p, tes_PlainTes done ts _)

pub fix_te-PlainTe :
    (done : List String) (te : TypeExpr) (p : List InstKey) → PlainTe (fix_te done te p).0
fix_te-PlainTe done te p = te_PlainTe done te p

pub fix_params-PlainParams :
    (done : List String) (xs : List Param) (p : List InstKey) → PlainParams (fix_params done xs p).0
unfolding fix_params
fix_params-PlainParams done [] p = tt
fix_params-PlainParams done (x ∷ xs) p =
    (fix_te-PlainTe done x.type p, fix_params-PlainParams done xs _)

fix_option-PlainOption :
    (done : List String) (o : Option TypeExpr) (p : List InstKey)
    → PlainOption (fix_option done o p).0
unfolding fix_option
fix_option-PlainOption done none p = tt
fix_option-PlainOption done (some te) p = fix_te-PlainTe done te p

mutual
  unfolding PlainCases PlainElse PlainExpr PlainExprs PlainInits PlainMaybe PlainPairs PlainStmt
      PlainStmts fix_expr fix_exprs fix_pairs fix_maybe fix_inits fix_stmt fix_else fix_stmts
      fix_cases

  fix_expr-PlainExpr_at :
      (done : List String) (x : Expr) (p : List InstKey) → PlainExpr (fix_expr done x p).0
  fix_expr-PlainExpr_at done (Expr.new n te args) p =
      (fix_te-PlainTe done te p, fix_exprs-PlainExprs_at done args ((fix_te done te p).1))
  fix_expr-PlainExpr_at done (Expr.binary n op l r) p =
      (fix_expr-PlainExpr_at done l p, fix_expr-PlainExpr_at done r ((fix_expr done l p).1))
  fix_expr-PlainExpr_at done (Expr.unary n op e prefix) p = fix_expr-PlainExpr_at done e p
  fix_expr-PlainExpr_at done (Expr.assign n op t v) p =
      (fix_expr-PlainExpr_at done t p, fix_expr-PlainExpr_at done v ((fix_expr done t p).1))
  fix_expr-PlainExpr_at done (Expr.call n f args) p =
      (fix_expr-PlainExpr_at done f p, fix_exprs-PlainExprs_at done args ((fix_expr done f p).1))
  fix_expr-PlainExpr_at done (Expr.member n e m) p = fix_expr-PlainExpr_at done e p
  fix_expr-PlainExpr_at done (Expr.index n e i) p =
      (fix_expr-PlainExpr_at done e p, fix_expr-PlainExpr_at done i ((fix_expr done e p).1))
  fix_expr-PlainExpr_at done (Expr.list n es) p = fix_exprs-PlainExprs_at done es p
  fix_expr-PlainExpr_at done (Expr.dict n ps) p = fix_pairs-PlainPairs_at done ps p
  fix_expr-PlainExpr_at done (Expr.lambda n ps body ret) p =
      (fix_params-PlainParams done ps p, fix_stmt-PlainStmt_at done body ((fix_params done ps p).1))
  fix_expr-PlainExpr_at done _ p = tt

  fix_exprs-PlainExprs_at :
      (done : List String) (x : Exprs) (p : List InstKey) → PlainExprs (fix_exprs done x p).0
  fix_exprs-PlainExprs_at done no_exprs p = tt
  fix_exprs-PlainExprs_at done (expr_then e es) p =
      (fix_expr-PlainExpr_at done e p, fix_exprs-PlainExprs_at done es ((fix_expr done e p).1))

  fix_pairs-PlainPairs_at :
      (done : List String) (x : Pairs) (p : List InstKey) → PlainPairs (fix_pairs done x p).0
  fix_pairs-PlainPairs_at done no_pairs p = tt
  fix_pairs-PlainPairs_at done (pair_then k v ps) p = (
    fix_expr-PlainExpr_at done k p,
    fix_expr-PlainExpr_at done v ((fix_expr done k p).1),
    fix_pairs-PlainPairs_at done ps ((fix_expr done v ((fix_expr done k p).1)).1),
  )

  fix_maybe-PlainMaybe_at :
      (done : List String) (x : MaybeExpr) (p : List InstKey) → PlainMaybe (fix_maybe done x p).0
  fix_maybe-PlainMaybe_at done no_expr p = tt
  fix_maybe-PlainMaybe_at done (an_expr e) p = fix_expr-PlainExpr_at done e p

  fix_inits-PlainInits_at :
      (done : List String) (x : Inits) (p : List InstKey) → PlainInits (fix_inits done x p).0
  fix_inits-PlainInits_at done no_inits p = tt
  fix_inits-PlainInits_at done (init_then x e is) p =
      (fix_maybe-PlainMaybe_at done e p, fix_inits-PlainInits_at done is ((fix_maybe done e p).1))

  fix_stmt-PlainStmt_at :
      (done : List String) (x : Stmt) (p : List InstKey) → PlainStmt (fix_stmt done x p).0
  fix_stmt-PlainStmt_at done (Stmt.block n ss) p = fix_stmts-PlainStmts_at done ss p
  fix_stmt-PlainStmt_at done (Stmt.expr n e) p = fix_expr-PlainExpr_at done e p
  fix_stmt-PlainStmt_at done (Stmt.var_decl n te flags is) p =
      (fix_te-PlainTe done te p, fix_inits-PlainInits_at done is ((fix_te done te p).1))
  fix_stmt-PlainStmt_at done (Stmt.if_stmt n c x y) p = (
    fix_expr-PlainExpr_at done c p,
    fix_stmt-PlainStmt_at done x ((fix_expr done c p).1),
    fix_else-PlainElse_at done y ((fix_stmt done x ((fix_expr done c p).1)).1),
  )
  fix_stmt-PlainStmt_at done (Stmt.while_stmt n label c body) p =
      (fix_expr-PlainExpr_at done c p, fix_stmt-PlainStmt_at done body ((fix_expr done c p).1))
  fix_stmt-PlainStmt_at done (Stmt.do_while n body c) p =
      (fix_stmt-PlainStmt_at done body p, fix_expr-PlainExpr_at done c ((fix_stmt done body p).1))
  fix_stmt-PlainStmt_at done (Stmt.for_in n te x e body) p = (
    fix_te-PlainTe done te p,
    fix_expr-PlainExpr_at done e ((fix_te done te p).1),
    fix_stmt-PlainStmt_at done body ((fix_expr done e ((fix_te done te p).1)).1),
  )
  fix_stmt-PlainStmt_at done (Stmt.for_c n te x i c u body) p = (
    fix_te-PlainTe done te p,
    fix_expr-PlainExpr_at done i ((fix_te done te p).1),
    fix_expr-PlainExpr_at done c ((fix_expr done i ((fix_te done te p).1)).1),
    fix_expr-PlainExpr_at done u ((fix_expr done c ((fix_expr done i ((fix_te done te p).1)).1)).1),
    fix_stmt-PlainStmt_at done body
        ((fix_expr done u ((fix_expr done c ((fix_expr done i ((fix_te done te p).1)).1)).1)).1),
  )
  fix_stmt-PlainStmt_at done (Stmt.switch n e cs) p =
      (fix_expr-PlainExpr_at done e p, fix_cases-PlainCases_at done cs ((fix_expr done e p).1))
  fix_stmt-PlainStmt_at done (Stmt.match_stmt n e arms) p = tt
  fix_stmt-PlainStmt_at done (Stmt.try_catch n x all te v y) p = (
    fix_stmt-PlainStmt_at done x p,
    fix_option-PlainOption done te ((fix_stmt done x p).1),
    fix_stmt-PlainStmt_at done y ((fix_option done te ((fix_stmt done x p).1)).1),
  )
  fix_stmt-PlainStmt_at done (Stmt.return_stmt n e) p = fix_maybe-PlainMaybe_at done e p
  fix_stmt-PlainStmt_at done (Stmt.break_stmt n label) p = tt
  fix_stmt-PlainStmt_at done (Stmt.continue_stmt n label) p = tt
  fix_stmt-PlainStmt_at done (Stmt.assert_stmt n e) p = fix_expr-PlainExpr_at done e p
  fix_stmt-PlainStmt_at done (Stmt.delete_stmt n e) p = fix_expr-PlainExpr_at done e p
  fix_stmt-PlainStmt_at done (Stmt.labeled n label st) p = fix_stmt-PlainStmt_at done st p
  fix_stmt-PlainStmt_at done (Stmt.defer n ss) p = fix_stmts-PlainStmts_at done ss p
  fix_stmt-PlainStmt_at done (Stmt.throw_stmt n e) p = fix_expr-PlainExpr_at done e p
  fix_stmt-PlainStmt_at done (Stmt.unsafe n ss) p = fix_stmts-PlainStmts_at done ss p

  fix_else-PlainElse_at :
      (done : List String) (x : MaybeStmt) (p : List InstKey) → PlainElse (fix_else done x p).0
  fix_else-PlainElse_at done no_stmt p = tt
  fix_else-PlainElse_at done (a_stmt st) p = fix_stmt-PlainStmt_at done st p

  fix_stmts-PlainStmts_at :
      (done : List String) (x : Stmts) (p : List InstKey) → PlainStmts (fix_stmts done x p).0
  fix_stmts-PlainStmts_at done no_stmts p = tt
  fix_stmts-PlainStmts_at done (stmt_then st ss) p =
      (fix_stmt-PlainStmt_at done st p, fix_stmts-PlainStmts_at done ss ((fix_stmt done st p).1))

  fix_cases-PlainCases_at :
      (done : List String) (x : Cases) (p : List InstKey) → PlainCases (fix_cases done x p).0
  fix_cases-PlainCases_at done no_cases p = tt
  fix_cases-PlainCases_at done (case_then e body cs) p = (
    fix_maybe-PlainMaybe_at done e p,
    fix_stmts-PlainStmts_at done body ((fix_maybe done e p).1),
    fix_cases-PlainCases_at done cs ((fix_stmts done body ((fix_maybe done e p).1)).1),
  )

pub fix_stmts-PlainStmts :
    (done : List String) (ss : Stmts) (p : List InstKey) → PlainStmts (fix_stmts done ss p).0
fix_stmts-PlainStmts done ss p = fix_stmts-PlainStmts_at done ss p
