-- ===== src/Sema/Run.antt =====
-- The constructor, run and check_decls of src/sema/sema.cpp.
use dux_lang.Prelude.{String, Bool, List, [], ◌∷◌, nat_eq, false}
use dux_lang.Types.{
  TypeId, tid_unknown, tid_void, tid_bool, tid_int, tid_double, tid_str, tid_list, tid_object,
  builtin_types,
}
use dux_lang.Symbol.{SymKind, symbol, ScopeStack, empty_stack, define}
use dux_lang.Ast.Declarations.{Decls, Program}
use dux_lang.Diagnostics.{Driver}
use dux_lang.Sema.{Sema, M, ◌>>◌, gets}
use dux_lang.Sema.Hoist.{hoist_top}
use dux_lang.Sema.Check.{check_stmts}
use dux_lang.Sema.Declarations.{check_decl_list}

-- The local `builtin`.
unfoldable pub builtin : String → TypeId → List (String × TypeId) → ScopeStack → ScopeStack
builtin name ret params st =
    (define name (record (symbol name SymKind.built_in ret) { return_type = ret; params = params })
      st).0

-- The local `builtin_class`.
unfoldable pub builtin_class : String → TypeId → ScopeStack → ScopeStack
builtin_class name tid st = (define name (symbol name SymKind.class tid) st).0

unfoldable pub builtin_scope : ScopeStack
unfolding builtin builtin_class
builtin_scope =
    let s0 = builtin "println" tid_void (("value", tid_object) ∷ []) empty_stack in
    let s1 = builtin "print" tid_void (("value", tid_object) ∷ []) s0 in
    let s2 = builtin "readline" tid_str [] s1 in
    let s3 = builtin "len" tid_int (("x", tid_object) ∷ []) s2 in
    let s4 = builtin "str" tid_str (("x", tid_object) ∷ []) s3 in
    let s5 = builtin "int" tid_int (("x", tid_object) ∷ []) s4 in
    let s6 = builtin "double" tid_double (("x", tid_object) ∷ []) s5 in
    let s7 = builtin "range" tid_list (("end", tid_int) ∷ []) s6 in
    let s8 = builtin "assert" tid_void (("cond", tid_bool) ∷ []) s7 in
    let s9 = builtin "__fstr_to_str" tid_str (("x", tid_object) ∷ []) s8 in
    builtin_class "any" tid_object (builtin_class "object" tid_object s9)

-- `Sema(driver)`: the driver may have counted errors before.
unfoldable pub start : Driver → Sema
start driver = record {
  driver = driver;
  types = builtin_types;
  scopes = builtin_scope;
  current_return_type = tid_void;
  current_class_name = "";
  current_class_type = tid_unknown;
  in_loop = false;
  in_unsafe = false;
  in_await = false;
  error_count = 0;
  type_ids = λ n. tid_unknown;
  inferred_rets = λ n. "";
}

unfoldable pub run : Program → M Bool
run prog = do
  hoist_top prog.decls
  check_decl_list prog.decls
  check_stmts prog.stmts
  gets (λ s. nat_eq s.error_count 0)

unfoldable pub check_decls : Decls → M (Unit {0})
check_decls decls = do hoist_top decls; check_decl_list decls
