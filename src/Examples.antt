-- ===== src/Examples.antt =====
-- Small programs in the abstract syntax, for tests and witnesses. Nodes are numbered by hand.
pub mod Runs
pub mod Statements
pub mod Registry
pub mod Generics
pub mod Lists
pub mod FrontEnds
pub mod Dicts
pub mod Strings
pub mod Loads
pub mod Threads
use dux_lang.Prelude.{ℕ, String, Bool, true, false, none, some, List, [], ◌∷◌}
use dux_lang.Ast.{
  SourceLoc, Node, TypeExpr, TypeExprs, type_expr, VarFlags, Expr, Exprs, no_exprs, expr_then,
  MaybeExpr, no_expr, an_expr, no_inits, init_then, Stmt, Stmts, no_stmts, stmt_then, Param,
}
use dux_lang.Ast.Declarations.{
  AccessMod, none_mod, FunctionDecl, MemberDecl, ClassMember, BaseClass, ClassDecl, Decl, Decls,
  Program, InterfaceDecl,
}
use dux_lang.Diagnostics.{Driver}
use dux_lang.Sema.{Sema, Outcome, done, aborted, hangs}
use dux_lang.Sema.Run.{run, start}

abbrev pub at : ℕ → SourceLoc
at line = record { file = "a.dux"; line = line; col = 1 }

abbrev pub node : ℕ → Node
node k = record { id = k; loc = at k }

abbrev pub te : String → TypeExpr
te name = type_expr name false (at 0) TypeExprs.nil "" TypeExprs.nil

abbrev pub plain : VarFlags
plain = record { is_const = false; is_static = false; is_thread_local = false }

abbrev pub const : VarFlags
const = record { is_const = true; is_static = false; is_thread_local = false }

abbrev pub fresh_driver : Driver
fresh_driver = record { error_count = 0; log = [] }

abbrev pub method : String → MemberDecl
method name = MemberDecl.method (record {
  node = node 0;
  return_type = te "int";
  name = name;
  type_params = [];
  type_bounds = [];
  params = [];
  modifier = none;
  body = some no_stmts;
  is_ctor = false;
  is_dtor = false;
  is_static = false;
  is_async = false;
  init_list = [];
})

abbrev pub base : String → BaseClass
base name = record { access = none_mod; name = name }

abbrev pub class_of : String → List BaseClass → List ClassMember → Decl
class_of name bases members = Decl.class_decl (record {
  node = node 0;
  decorators = [];
  name = name;
  type_params = [];
  type_bounds = [];
  bases = bases;
  members = members;
})

abbrev pub program : Decls → Stmts → Program
program decls stmts = record { node = node 0; decls = decls; stmts = stmts }

-- The number of errors; a run that does not end has none.
abbrev pub errors_of : {A : Type 0} → Outcome A → ℕ
errors_of (done a s) = s.error_count
errors_of (aborted s) = s.driver.error_count
errors_of hangs = 0

abbrev pub ends : {A : Type 0} → Outcome A → Bool
ends (done a s) = true
ends (aborted s) = true
ends hangs = false

-- The state that an outcome ends in.
abbrev pub state_of : {A : Type 0} → Sema → Outcome A → Sema
state_of s (done a t) = t
state_of s (aborted t) = t
state_of s hangs = s
