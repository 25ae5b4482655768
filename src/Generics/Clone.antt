-- ===== src/Generics/Clone.antt =====
-- The copy of a template in src/sema/generics.cpp: clone_expr to clone_generic_func.
-- A copied node has an address of its own: the copy takes the next free one and gives back the one
-- behind its last node. clone_expr knows no AwaitExpr and clone_stmt no MatchStmt: they give a
-- null pointer. Where a null pointer is allowed the copy has one there; where the compiler
-- follows it later without a test the copy is `none`.
use dux_lang.Prelude.{ℕ, ◌+◌, false, Option, some, none, List, [], ◌∷◌}
use dux_lang.Ast.{
  Node, TypeExpr, Param, VarFlags, Expr, Exprs, no_exprs, expr_then, Pairs, no_pairs, pair_then,
  MaybeExpr, no_expr, an_expr, Inits, no_inits, init_then, Stmt, MaybeStmt, no_stmt, a_stmt, Stmts,
  no_stmts, stmt_then, Cases, no_cases, case_then,
}
use dux_lang.Generics.{SubstMap, subst_te}

-- The copy of an `A`, from the next free address on.
abbrev pub Copy : Type 0 → Type 0
Copy A = ℕ → Option (A × ℕ)

abbrev pub copied : {A : Type 0} → A → Copy A
copied a k = some (a, k)

infixl 5 ◌>>=◌
unfoldable pub ◌>>=◌ : {A B : Type 0} → Copy A → (A → Copy B) → Copy B
◌>>=◌ m f k = elim (m k) [ none ↦ none | some (a, k') ↦ f a k' ]

-- `std::make_unique`, and the location of the original.
unfoldable pub fresh : Node → Copy Node
fresh n k = some (record { id = k; loc = n.loc }, k + 1)

abbrev pub subst_params : SubstMap → List Param → List Param
subst_params s [] = []
subst_params s (p ∷ ps) = record { type = subst_te s p.type; name = p.name } ∷ subst_params s ps

abbrev pub subst_option : SubstMap → Option TypeExpr → Option TypeExpr
subst_option s none = none
subst_option s (some te) = some (subst_te s te)

-- The flags of a variable that the copy keeps.
abbrev pub cloned_flags : VarFlags → VarFlags
cloned_flags flags = record {
  is_const = flags.is_const;
  is_static = false;
  is_thread_local = false;
}

unfoldable mutual
  unfolding ◌>>=◌

  pub clone_expr : SubstMap → Expr → Copy Expr
  clone_expr s (Expr.int_lit n v) = do n' ← fresh n; copied (Expr.int_lit n' v)
  clone_expr s (Expr.long_lit n v) = do n' ← fresh n; copied (Expr.long_lit n' v)
  clone_expr s (Expr.float_lit n v) = do n' ← fresh n; copied (Expr.float_lit n' v)
  clone_expr s (Expr.real_lit n v) = do n' ← fresh n; copied (Expr.real_lit n' v)
  clone_expr s (Expr.string_lit n v) = do n' ← fresh n; copied (Expr.string_lit n' v)
  clone_expr s (Expr.bool_lit n v) = do n' ← fresh n; copied (Expr.bool_lit n' v)
  clone_expr s (Expr.null_lit n) = do n' ← fresh n; copied (Expr.null_lit n')
  clone_expr s (Expr.ident n x) = do n' ← fresh n; copied (Expr.ident n' x)
  clone_expr s (Expr.this n) = do n' ← fresh n; copied (Expr.this n')
  clone_expr s (Expr.super n) = do n' ← fresh n; copied (Expr.super n')
  clone_expr s (Expr.binary n op l r) = do
    n' ← fresh n
    l' ← clone_expr s l
    r' ← clone_expr s r
    copied (Expr.binary n' op l' r')
  clone_expr s (Expr.unary n op e prefix) = do
    n' ← fresh n
    e' ← clone_expr s e
    copied (Expr.unary n' op e' prefix)
  clone_expr s (Expr.assign n op t v) = do
    n' ← fresh n
    t' ← clone_expr s t
    v' ← clone_expr s v
    copied (Expr.assign n' op t' v')
  clone_expr s (Expr.call n f args) = do
    n' ← fresh n
    f' ← clone_expr s f
    args' ← clone_exprs s args
    copied (Expr.call n' f' args')
  clone_expr s (Expr.member n e m) = do
    n' ← fresh n
    e' ← clone_expr s e
    copied (Expr.member n' e' m)
  clone_expr s (Expr.index n e i) = do
    n' ← fresh n
    e' ← clone_expr s e
    i' ← clone_expr s i
    copied (Expr.index n' e' i')
  clone_expr s (Expr.new n te args) = do
    n' ← fresh n
    args' ← clone_exprs s args
    copied (Expr.new n' (subst_te s te) args')
  clone_expr s (Expr.list n es) = do n' ← fresh n; es' ← clone_exprs s es; copied (Expr.list n' es')
  clone_expr s (Expr.dict n ps) = do n' ← fresh n; ps' ← clone_pairs s ps; copied (Expr.dict n' ps')
  clone_expr s (Expr.lambda n ps body ret) = do
    n' ← fresh n
    body' ← clone_stmt s body
    copied (Expr.lambda n' (subst_params s ps) body' none)
  clone_expr s (Expr.await n e) = λ k. none

  pub clone_exprs : SubstMap → Exprs → Copy Exprs
  clone_exprs s no_exprs = copied no_exprs
  clone_exprs s (expr_then e es) = do
    e' ← clone_expr s e
    es' ← clone_exprs s es
    copied (expr_then e' es')

  pub clone_pairs : SubstMap → Pairs → Copy Pairs
  clone_pairs s no_pairs = copied no_pairs
  clone_pairs s (pair_then k v ps) = do
    k' ← clone_expr s k
    v' ← clone_expr s v
    ps' ← clone_pairs s ps
    copied (pair_then k' v' ps')

  -- The initialiser of a variable, where a null pointer is none.
  pub clone_init : SubstMap → MaybeExpr → Copy MaybeExpr
  clone_init s no_expr = copied no_expr
  clone_init s (an_expr (Expr.await n e)) = copied no_expr
  clone_init s (an_expr e) = do e' ← clone_expr s e; copied (an_expr e')

  -- An optional pointer, which the analysis follows where it is present.
  pub clone_value : SubstMap → MaybeExpr → Copy MaybeExpr
  clone_value s no_expr = copied no_expr
  clone_value s (an_expr e) = do e' ← clone_expr s e; copied (an_expr e')

  pub clone_inits : SubstMap → Inits → Copy Inits
  clone_inits s no_inits = copied no_inits
  clone_inits s (init_then x e is) = do
    e' ← clone_init s e
    is' ← clone_inits s is
    copied (init_then x e' is')

  pub clone_stmts : SubstMap → Stmts → Copy Stmts
  clone_stmts s no_stmts = copied no_stmts
  clone_stmts s (stmt_then st ss) = do
    st' ← clone_stmt s st
    ss' ← clone_stmts s ss
    copied (stmt_then st' ss')

  pub clone_stmt : SubstMap → Stmt → Copy Stmt
  clone_stmt s (Stmt.block n ss) = do
    n' ← fresh n
    ss' ← clone_stmts s ss
    copied (Stmt.block n' ss')
  clone_stmt s (Stmt.expr n e) = do n' ← fresh n; e' ← clone_expr s e; copied (Stmt.expr n' e')
  clone_stmt s (Stmt.var_decl n te flags is) = do
    n' ← fresh n
    is' ← clone_inits s is
    copied (Stmt.var_decl n' (subst_te s te) (cloned_flags flags) is')
  clone_stmt s (Stmt.if_stmt n c x y) = do
    n' ← fresh n
    c' ← clone_expr s c
    x' ← clone_stmt s x
    y' ← clone_else s y
    copied (Stmt.if_stmt n' c' x' y')
  clone_stmt s (Stmt.while_stmt n label c body) = do
    n' ← fresh n
    c' ← clone_expr s c
    body' ← clone_stmt s body
    copied (Stmt.while_stmt n' label c' body')
  clone_stmt s (Stmt.do_while n body c) = do
    n' ← fresh n
    body' ← clone_stmt s body
    c' ← clone_expr s c
    copied (Stmt.do_while n' body' c')
  clone_stmt s (Stmt.for_in n te x e body) = do
    n' ← fresh n
    e' ← clone_expr s e
    body' ← clone_stmt s body
    copied (Stmt.for_in n' (subst_te s te) x e' body')
  clone_stmt s (Stmt.for_c n te x i c u body) = do
    n' ← fresh n
    i' ← clone_expr s i
    c' ← clone_expr s c
    u' ← clone_expr s u
    body' ← clone_stmt s body
    copied (Stmt.for_c n' (subst_te s te) x i' c' u' body')
  clone_stmt s (Stmt.switch n e cs) = do
    n' ← fresh n
    e' ← clone_expr s e
    cs' ← clone_cases s cs
    copied (Stmt.switch n' e' cs')
  clone_stmt s (Stmt.match_stmt n e arms) = λ k. none
  clone_stmt s (Stmt.try_catch n x all te v y) = do
    n' ← fresh n
    x' ← clone_stmt s x
    y' ← clone_stmt s y
    copied (Stmt.try_catch n' x' all (subst_option s te) v y')
  clone_stmt s (Stmt.return_stmt n e) = do
    n' ← fresh n
    e' ← clone_value s e
    copied (Stmt.return_stmt n' e')
  clone_stmt s (Stmt.break_stmt n label) = do n' ← fresh n; copied (Stmt.break_stmt n' label)
  clone_stmt s (Stmt.continue_stmt n label) = do n' ← fresh n; copied (Stmt.continue_stmt n' label)
  clone_stmt s (Stmt.assert_stmt n e) = do
    n' ← fresh n
    e' ← clone_expr s e
    copied (Stmt.assert_stmt n' e')
  clone_stmt s (Stmt.delete_stmt n e) = do
    n' ← fresh n
    e' ← clone_expr s e
    copied (Stmt.delete_stmt n' e')
  clone_stmt s (Stmt.labeled n label st) = do
    n' ← fresh n
    st' ← clone_stmt s st
    copied (Stmt.labeled n' label st')
  clone_stmt s (Stmt.defer n ss) = do
    n' ← fresh n
    ss' ← clone_stmts s ss
    copied (Stmt.defer n' ss')
  clone_stmt s (Stmt.throw_stmt n e) = do
    n' ← fresh n
    e' ← clone_expr s e
    copied (Stmt.throw_stmt n' e')
  clone_stmt s (Stmt.unsafe n ss) = do
    n' ← fresh n
    ss' ← clone_stmts s ss
    copied (Stmt.unsafe n' ss')

  -- The else branch, where a null pointer is none.
  pub clone_else : SubstMap → MaybeStmt → Copy MaybeStmt
  clone_else s no_stmt = copied no_stmt
  clone_else s (a_stmt (Stmt.match_stmt n e arms)) = copied no_stmt
  clone_else s (a_stmt st) = do st' ← clone_stmt s st; copied (a_stmt st')

  pub clone_cases : SubstMap → Cases → Copy Cases
  clone_cases s no_cases = copied no_cases
  clone_cases s (case_then e body cs) = do
    e' ← clone_value s e
    body' ← clone_stmts s body
    cs' ← clone_cases s cs
    copied (case_then e' body' cs')
