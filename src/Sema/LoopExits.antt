-- ===== src/Sema/LoopExits.antt =====
-- How many `break` and `continue` statements of a tree stand outside every loop and switch, read
-- off the syntax alone, and a measure of the errors that an action adds (src/sema/sema.cpp).
-- `b` says whether the tree stands inside a loop. A lambda in a loop counts as inside, as the
-- analyser does not reset `in_loop_` there. A variable of a function type is refused whole, with
-- what initialises it: it counts as one.
pub mod Flags
pub mod Parts
pub mod Check
use dux_lang.Prelude.{
  ℕ, suc, ◌+◌, ◌≤◌, Bool, true, false, ◌≡◌, refl, ◌∙◌, Option, none, some, arith, if◌then◌else◌,
  ◌==◌, String,
}
use dux_lang.Types.{TypeId}
use dux_lang.Symbol.{push, pop}
use dux_lang.Ast.{
  Expr, Exprs, no_exprs, expr_then, Pairs, no_pairs, pair_then, MaybeExpr, no_expr, an_expr, Inits,
  no_inits, init_then, Stmt, MaybeStmt, no_stmt, a_stmt, Stmts, no_stmts, stmt_then, Cases,
  no_cases, case_then, Arms, no_arms, arm_then,
}
use dux_lang.Ast.Views.{te_name}
use dux_lang.Sema.{
  Sema, Outcome, done, aborted, hangs, M, pure, ◌>>=◌, in_scope, looping, unsafely, awaiting,
  returning,
}
use dux_lang.Sema.Frame.{Keeps, Framed}

unfoldable mutual
  pub stray_expr : Bool → Expr → ℕ
  stray_expr b (Expr.binary n op l r) = stray_expr b l + stray_expr b r
  stray_expr b (Expr.unary n op e p) = stray_expr b e
  stray_expr b (Expr.assign n op t v) = stray_expr b v + stray_expr b t
  stray_expr b (Expr.call n f args) = stray_expr b f + stray_exprs b args
  stray_expr b (Expr.member n e m) = stray_expr b e
  stray_expr b (Expr.index n e i) = stray_expr b e + stray_expr b i
  stray_expr b (Expr.new n t args) = stray_exprs b args
  stray_expr b (Expr.list n es) = stray_exprs b es
  stray_expr b (Expr.dict n ps) = stray_pairs b ps
  stray_expr b (Expr.lambda n ps body ret) = stray_body b body
  stray_expr b (Expr.await n e) = stray_expr b e
  stray_expr b _ = 0

  pub stray_exprs : Bool → Exprs → ℕ
  stray_exprs b no_exprs = 0
  stray_exprs b (expr_then e es) = stray_expr b e + stray_exprs b es

  pub stray_pairs : Bool → Pairs → ℕ
  stray_pairs b no_pairs = 0
  stray_pairs b (pair_then k v ps) = stray_expr b k + (stray_expr b v + stray_pairs b ps)

  pub stray_body : Bool → Stmt → ℕ
  stray_body b (Stmt.block n ss) = stray_stmts b ss
  stray_body b _ = 0

  pub stray_stmts : Bool → Stmts → ℕ
  stray_stmts b no_stmts = 0
  stray_stmts b (stmt_then s ss) = stray b s + stray_stmts b ss

  pub stray : Bool → Stmt → ℕ
  stray b (Stmt.block n ss) = stray_stmts b ss
  stray b (Stmt.expr n e) = stray_expr b e
  stray b (Stmt.var_decl n t flags is) = if te_name t == "__fn" then 1 else stray_inits b is
  stray b (Stmt.if_stmt n c x y) = stray_expr b c + (stray b x + stray_maybe b y)
  stray b (Stmt.while_stmt n label c body) = stray_expr b c + stray true body
  stray b (Stmt.do_while n body c) = stray true body + stray_expr b c
  stray b (Stmt.for_in n t x e body) = stray_expr b e + stray true body
  stray b (Stmt.for_c n t x i c u body) =
      stray_expr b i + (stray_expr b c + (stray_expr b u + stray true body))
  stray b (Stmt.switch n e cases) = stray_expr b e + stray_cases true cases
  stray b (Stmt.match_stmt n e arms) = stray_expr b e + stray_arms b arms
  stray b (Stmt.try_catch n x all t v y) = stray b x + stray b y
  stray b (Stmt.return_stmt n (an_expr e)) = stray_expr b e
  stray b (Stmt.return_stmt n no_expr) = 0
  stray b (Stmt.break_stmt n label) = if b then 0 else 1
  stray b (Stmt.continue_stmt n label) = if b then 0 else 1
  stray b (Stmt.assert_stmt n e) = stray_expr b e
  stray b (Stmt.delete_stmt n e) = stray_expr b e
  stray b (Stmt.labeled n label s) = stray b s
  stray b (Stmt.defer n ss) = stray_stmts b ss
  stray b (Stmt.throw_stmt n e) = stray_expr b e
  stray b (Stmt.unsafe n ss) = stray_stmts b ss

  pub stray_maybe : Bool → MaybeStmt → ℕ
  stray_maybe b no_stmt = 0
  stray_maybe b (a_stmt s) = stray b s

  pub stray_inits : Bool → Inits → ℕ
  stray_inits b no_inits = 0
  stray_inits b (init_then x no_expr is) = stray_inits b is
  stray_inits b (init_then x (an_expr e) is) = stray_expr b e + stray_inits b is

  pub stray_cases : Bool → Cases → ℕ
  stray_cases b no_cases = 0
  stray_cases b (case_then no_expr body cs) = stray_stmts b body + stray_cases b cs
  stray_cases b (case_then (an_expr e) body cs) =
      stray_expr b e + (stray_stmts b body + stray_cases b cs)

  pub stray_arms : Bool → Arms → ℕ
  stray_arms b no_arms = 0
  stray_arms b (arm_then p body loc rest) = stray_stmts b body + stray_arms b rest

-- From a state inside a loop (or outside, by `b`) an action that ends with a value adds at least
-- `n` errors, and `in_loop` is as before.
abbrev pub Added : {A : Type 0} → Bool → ℕ → Sema → Outcome A → Type 0
Added b n s (done a t) = (s.error_count + n ≤ t.error_count) × (t.in_loop ≡ b)
Added b n s (aborted t) = Unit
Added b n s hangs = Unit

pub record Adds {A : Type 0} (b : Bool) (n : ℕ) (m : M A) : Type 0 where
  pub at : (s : Sema) → s.in_loop ≡ b → Added b n s (m s)

module _ (b : Bool) where
  quiet_outcome :
      {A : Type 0} (s : Sema) (o : Outcome A) → s.in_loop ≡ b → Framed s o → Added b 0 s o
  quiet_outcome s (done a t) e f = (omega (arith, f.errors), f.loop ∙ e)
  quiet_outcome s (aborted t) e f = tt
  quiet_outcome s hangs e f = tt

  weaken_outcome :
      {A : Type 0} (n k : ℕ) (s : Sema) (o : Outcome A) → k ≤ n → Added b n s o → Added b k s o
  weaken_outcome n k s (done a t) h f = (omega (arith, f.0), f.1)
  weaken_outcome n k s (aborted t) h f = tt
  weaken_outcome n k s hangs h f = tt

  after_outcome :
      {A : Type 0} (n k : ℕ) (s t : Sema) (o : Outcome A)
      → s.error_count + n ≤ t.error_count
      → Added b k t o
      → Added b (n + k) s o
  after_outcome n k s t (done a u) h f = (omega (arith, f.0), f.1)
  after_outcome n k s t (aborted u) h f = tt
  after_outcome n k s t hangs h f = tt

  bind_outcome :
      {A B : Type 0} (n k : ℕ) (s : Sema) (o : Outcome A) (f : A → M B)
      → Added b n s o
      → ((a : A) → Adds b k (f a))
      → Added b (n + k) s (elim o [ done a t ↦ f a t | aborted t ↦ aborted t | hangs ↦ hangs ])
  bind_outcome n k s (done a t) f h g = after_outcome n k s t (f a t) h.0 ((g a).at t h.1)
  bind_outcome n k s (aborted t) f h g = tt
  bind_outcome n k s hangs f h g = tt

module _ {b : Bool} where
  pub quiet : {A : Type 0} {m : M A} → Keeps m → Adds b 0 m
  quiet {m} k = record { at = λ s e. quiet_outcome b s (m s) e (k.at s) }

  pub weaken : {A : Type 0} {m : M A} {n k : ℕ} → Adds b n m → k ≤ n → Adds b k m
  weaken {m} {n} {k} a h = record { at = λ s e. weaken_outcome b n k s (m s) h (a.at s e) }

  infixl 1 ◌then_adds◌
  pub ◌then_adds◌ :
      {A B : Type 0} {m : M A} {f : A → M B} {n k : ℕ}
      → Adds b n m
      → ((a : A) → Adds b k (f a))
      → Adds b (n + k) (m >>= f)
  unfolding ◌>>=◌
  ◌then_adds◌ {m} {f} {n} {k} h g = record { at = λ s e. bind_outcome b n k s (m s) f (h.at s e) g }
