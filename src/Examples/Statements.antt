-- ===== src/Examples/Statements.antt =====
-- Statements and assignments checked in a small state.
use dux_lang.Prelude.{
  ℕ, ◌+◌, ◌≤◌, ◌<◌, Bool, true, false, ◌≡◌, refl, some, none, List, [], ◌∷◌, arith,
}
use dux_lang.Types.{TypeId, pos, tid_int, info, in_range}
use dux_lang.Types.Growth.{SameType}
use dux_lang.Symbol.{
  Symbol, SymKind, symbol, ScopeStack, global, lookup_local, current_scope, depth,
}
use dux_lang.Ast.{LongLong, Expr, Stmt, Stmts, no_stmts, stmt_then, an_expr, init_then, no_inits}
use dux_lang.Ast.Declarations.{BaseClass}
use dux_lang.Sema.{Sema, Outcome, done, aborted, hangs}
use dux_lang.Sema.Run.{start}
use dux_lang.Sema.Check.{check_stmt, check_expr}
use dux_lang.Sema.Declarations.{check_bases}
use dux_lang.Sema.LoopExits.{stray}
use dux_lang.Sema.Statements.{
  check_stmt-flags, check_stmt-keeps_symbol, check_stmt-keeps_type, check_stmt-stray, block-scopes,
}
use dux_lang.Sema.Constants.{assign-const}
use dux_lang.Sema.Bases.{check_bases-parent, parent_after}
use dux_lang.Examples.{at, node, te, plain, fresh_driver, state_of, base}

-- const int limit;
abbrev limit : Symbol
limit = record (symbol "limit" SymKind.var tid_int) { is_const = true }

abbrev before : Sema
before = record (start fresh_driver) {
  scopes = global (record { is_class = false; symbols = ("limit", limit) ∷ [] });
}

-- { int a = 1; break; }
abbrev block : Stmt
block = Stmt.block (node 1) (
    stmt_then
      (Stmt.var_decl (node 2) (te "int") plain
        (init_then "a" (an_expr (Expr.int_lit (node 3) (LongLong.pos 1))) no_inits))
      (stmt_then (Stmt.break_stmt (node 4) none) no_stmts))

abbrev after : Sema
after = state_of before (check_stmt block before)

block_is_checked : check_stmt block before ≡ done tt after
unfolding check_stmt start dux_lang.Sema.in_scope dux_lang.Sema.◌>>=◌ dux_lang.Sema.type_from_te
    dux_lang.Sema.gets dux_lang.Sema.pure dux_lang.Sema.Steps.typed dux_lang.Sema.set_type_id
    dux_lang.Sema.Steps.initialised_type dux_lang.Prelude.Tables.find dux_lang.Types.builtin_types
    dux_lang.Sema.require_assignable dux_lang.Sema.ask dux_lang.Types.assignable
    dux_lang.Sema.Steps.declare dux_lang.Sema.Steps.define_var dux_lang.Sema.define_symbol
    dux_lang.Symbol.define dux_lang.Symbol.define_local dux_lang.Prelude.Tables.emplace
    dux_lang.Prelude.Tables.assign dux_lang.Types.from_name dux_lang.Symbol.push dux_lang.Symbol.pop
    dux_lang.Sema.Steps.check_loop_exit dux_lang.Sema.err dux_lang.Diagnostics.driver_error
block_is_checked = refl

check_stmt-flags_example :
    (after.current_return_type ≡ before.current_return_type)
    × (after.current_class_name ≡ before.current_class_name)
    × (after.current_class_type ≡ before.current_class_type)
    × (after.in_loop ≡ before.in_loop)
    × (after.in_unsafe ≡ before.in_unsafe)
    × (after.in_await ≡ before.in_await)
    × (depth after.scopes ≡ depth before.scopes)
check_stmt-flags_example = check_stmt-flags block before after block_is_checked

check_stmt-keeps_symbol_example : lookup_local "limit" (current_scope after.scopes) ≡ some limit
unfolding lookup_local dux_lang.Prelude.Tables.find
check_stmt-keeps_symbol_example =
    check_stmt-keeps_symbol block before after "limit" limit block_is_checked refl

check_stmt-keeps_type_example : SameType (info before.types (pos 2)) (info after.types (pos 2))
unfolding start dux_lang.Types.builtin_types
check_stmt-keeps_type_example =
    check_stmt-keeps_type block before after 2 block_is_checked (omega arith)

check_stmt-stray_example :
    (before.error_count + stray before.in_loop block ≤ after.error_count)
    × (after.error_count + before.driver.error_count
        ≡ before.error_count + after.driver.error_count)
check_stmt-stray_example = check_stmt-stray block before after block_is_checked

abbrev inner : Stmts
inner =
    stmt_then
      (Stmt.var_decl (node 2) (te "int") plain
        (init_then "a" (an_expr (Expr.int_lit (node 3) (LongLong.pos 1))) no_inits))
      (stmt_then (Stmt.break_stmt (node 4) none) no_stmts)

block-scopes_example : after.scopes ≡ before.scopes
block-scopes_example = block-scopes (node 1) inner before after block_is_checked

-- limit += 2
abbrev assignment : Expr
assignment =
    Expr.assign (node 5) "+=" (Expr.ident (node 6) "limit") (Expr.int_lit (node 7) (LongLong.pos 2))

abbrev assigned : Sema
assigned = state_of before (check_expr assignment before)

assignment_is_checked : check_expr assignment before ≡ done tid_int assigned
unfolding check_expr start dux_lang.Sema.Steps.typed dux_lang.Sema.◌>>=◌ dux_lang.Sema.pure
    dux_lang.Sema.set_type_id dux_lang.Sema.Steps.assign_early dux_lang.Sema.gets
    dux_lang.Sema.Steps.assign_to dux_lang.Symbol.lookup dux_lang.Prelude.Tables.find
    dux_lang.Sema.err dux_lang.Diagnostics.driver_error
assignment_is_checked = refl

assign-const_example :
    (before.error_count < assigned.error_count)
    × (lookup_local "limit" (current_scope assigned.scopes) ≡ some limit)
unfolding lookup_local dux_lang.Prelude.Tables.find
assign-const_example =
    assign-const "+=" (node 5) (node 6) "limit" (Expr.int_lit (node 7) (LongLong.pos 2)) before
      assigned tid_int limit refl refl assignment_is_checked

-- Two bases, of which `limit` is neither a class nor an interface.
abbrev two_bases : List BaseClass
two_bases = base "limit" ∷ base "object" ∷ []

check_bases-parent_example :
    (t : Sema) × (check_bases (at 1) tid_int two_bases (start fresh_driver) ≡ done tt t)
    × ((info t.types tid_int).parent
        ≡ parent_after
            (start fresh_driver).scopes
            two_bases
            (info (start fresh_driver).types tid_int).parent)
    × (t.scopes ≡ (start fresh_driver).scopes)
    × (t.error_count ≡ (start fresh_driver).error_count)
unfolding start dux_lang.Types.builtin_types
check_bases-parent_example = check_bases-parent (at 1) tid_int two_bases (start fresh_driver) refl
