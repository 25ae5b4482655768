-- ===== src/Ast.antt =====
-- src/ast/ast.hpp: the syntax tree that the parser builds.
-- A pointer to a node is the node. What the analysis writes into nodes (`type_id`, `inferred_ret`)
-- goes to maps from the node's address, its `id`, in the analyser's state. A double is kept as its
-- 64-bit pattern, since the analysis never reads it. A null pointer and an absent optional are
-- `none` or a constructor of their own, and lists of nodes are types of the block.
pub mod Declarations
pub mod Views
use dux_lang.Prelude.{ℕ, String, Bool, List, Option}

pub record SourceLoc : Type 0 where
  pub file : String
  pub line : ℕ
  pub col : ℕ

-- What every node has: its address and its place in the text.
pub record Node : Type 0 where
  pub id : ℕ
  pub loc : SourceLoc

-- `long long`: `pos n` is n and `negsuc n` is -(n + 1).
pub data LongLong : Type 0 where
  pos : ℕ → LongLong
  negsuc : ℕ → LongLong

-- `type_expr name is_const loc fn_params fn_ret type_args`
mutual
  pub data TypeExpr : Type 0 where
    type_expr : String → Bool → SourceLoc → TypeExprs → String → TypeExprs → TypeExpr

  pub data TypeExprs : Type 0 where
    nil : TypeExprs
    cons : TypeExpr → TypeExprs → TypeExprs

pub record Param : Type 0 where
  pub type : TypeExpr
  pub name : String

pub data PatternKind : Type 0 where
  wildcard enum_variant int_lit bool_lit str_lit : PatternKind

pub record MatchPattern : Type 0 where
  pub kind : PatternKind
  pub enum_name : String
  pub variant_name : String
  pub bindings : List String
  pub int_value : LongLong
  pub bool_value : Bool
  pub str_value : String
  pub loc : SourceLoc

pub record VarFlags : Type 0 where
  pub is_const : Bool
  pub is_static : Bool
  pub is_thread_local : Bool

-- Fields in the order of the structs, behind the node. `unary` has op, operand, prefix.
mutual
  pub data Expr : Type 0 where
    int_lit : Node → LongLong → Expr
    long_lit : Node → LongLong → Expr
    float_lit : Node → ℕ → Expr
    real_lit : Node → ℕ → Expr
    string_lit : Node → String → Expr
    bool_lit : Node → Bool → Expr
    null_lit : Node → Expr
    ident : Node → String → Expr
    this : Node → Expr
    super : Node → Expr
    binary : Node → String → Expr → Expr → Expr
    unary : Node → String → Expr → Bool → Expr
    assign : Node → String → Expr → Expr → Expr
    call : Node → Expr → Exprs → Expr
    member : Node → Expr → String → Expr
    index : Node → Expr → Expr → Expr
    new : Node → TypeExpr → Exprs → Expr
    list : Node → Exprs → Expr
    dict : Node → Pairs → Expr
    -- params, body, explicit_ret
    lambda : Node → List Param → Stmt → Option TypeExpr → Expr
    await : Node → Expr → Expr

  pub data Exprs : Type 0 where
    no_exprs : Exprs
    expr_then : Expr → Exprs → Exprs

  pub data Pairs : Type 0 where
    no_pairs : Pairs
    pair_then : Expr → Expr → Pairs → Pairs

  pub data MaybeExpr : Type 0 where
    no_expr : MaybeExpr
    an_expr : Expr → MaybeExpr

  -- The `decls` of a VarDeclStmt: a name and its initialiser, which may be null.
  pub data Inits : Type 0 where
    no_inits : Inits
    init_then : String → MaybeExpr → Inits → Inits

  pub data Stmt : Type 0 where
    block : Node → Stmts → Stmt
    expr : Node → Expr → Stmt
    var_decl : Node → TypeExpr → VarFlags → Inits → Stmt
    if_stmt : Node → Expr → Stmt → MaybeStmt → Stmt
    while_stmt : Node → Option String → Expr → Stmt → Stmt
    do_while : Node → Stmt → Expr → Stmt
    -- var_type, var_name, iterable, body
    for_in : Node → TypeExpr → String → Expr → Stmt → Stmt
    -- var_type, var_name, init, cond, incr, body
    for_c : Node → TypeExpr → String → Expr → Expr → Expr → Stmt → Stmt
    switch : Node → Expr → Cases → Stmt
    match_stmt : Node → Expr → Arms → Stmt
    -- try_body, catch_all, catch_type, catch_var, catch_body
    try_catch : Node → Stmt → Bool → Option TypeExpr → Option String → Stmt → Stmt
    return_stmt : Node → MaybeExpr → Stmt
    break_stmt : Node → Option String → Stmt
    continue_stmt : Node → Option String → Stmt
    assert_stmt : Node → Expr → Stmt
    delete_stmt : Node → Expr → Stmt
    labeled : Node → String → Stmt → Stmt
    defer : Node → Stmts → Stmt
    throw_stmt : Node → Expr → Stmt
    unsafe : Node → Stmts → Stmt

  pub data MaybeStmt : Type 0 where
    no_stmt : MaybeStmt
    a_stmt : Stmt → MaybeStmt

  pub data Stmts : Type 0 where
    no_stmts : Stmts
    stmt_then : Stmt → Stmts → Stmts

  pub data Cases : Type 0 where
    no_cases : Cases
    case_then : MaybeExpr → Stmts → Cases → Cases

  pub data Arms : Type 0 where
    no_arms : Arms
    arm_then : MatchPattern → Stmts → SourceLoc → Arms → Arms
