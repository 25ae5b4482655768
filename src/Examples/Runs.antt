-- ===== src/Examples/Runs.antt =====
-- Runs of the analysis on small programs.
use dux_lang.Prelude.{◌+◌, ◌<◌, true, ◌≡◌, refl, none, List, [], nat_eq, arith}
use dux_lang.Ast.{Expr, Stmt, no_stmts, stmt_then}
use dux_lang.Ast.Declarations.{Decls, Program, FunctionDecl, InitEntry}
use dux_lang.Diagnostics.{Driver, max_errors}
use dux_lang.Sema.{Sema, Outcome, done, aborted, hangs}
use dux_lang.Sema.Run.{run, start}
use dux_lang.Sema.Declarations.{check_func}
use dux_lang.Sema.Tally.Declarations.{stray_program}
use dux_lang.Sema.Verdict.{run-verdict, run-aborted, run-stray}
use dux_lang.Examples.{node, program, fresh_driver, state_of}

-- while (true) break;
abbrev loop_program : Program
loop_program = program Decls.nil (
    stmt_then
      (Stmt.while_stmt (node 1) none (Expr.bool_lit (node 2) true) (Stmt.break_stmt (node 3) none))
      no_stmts)

abbrev loop_end : Sema
loop_end = state_of (start fresh_driver) (run loop_program (start fresh_driver))

loop_is_accepted : run loop_program (start fresh_driver) ≡ done true loop_end
unfolding run start dux_lang.Sema.◌>>=◌ dux_lang.Sema.Hoist.hoist_top dux_lang.Sema.pure
    dux_lang.Sema.Declarations.check_decl_list dux_lang.Sema.Check.check_stmts
    dux_lang.Sema.Steps.typed dux_lang.Sema.set_type_id dux_lang.Sema.require_bool
    dux_lang.Sema.looping dux_lang.Sema.Steps.check_loop_exit dux_lang.Sema.gets
loop_is_accepted = refl

run-verdict_example :
    (true ≡ nat_eq loop_end.error_count 0)
    × (loop_end.driver.error_count ≡ 0 + loop_end.error_count)
    × (loop_end.driver.error_count < max_errors)
run-verdict_example =
    run-verdict loop_program fresh_driver true loop_end (omega arith) loop_is_accepted

run-stray_example : stray_program loop_program ≡ 0
run-stray_example = run-stray loop_program fresh_driver loop_end loop_is_accepted

-- break; behind 19 errors of the import resolution.
abbrev break_program : Program
break_program = program Decls.nil (stmt_then (Stmt.break_stmt (node 1) none) no_stmts)

abbrev nearly_full : Driver
nearly_full = record { error_count = 19; log = [] }

abbrev break_end : Sema
break_end = state_of (start nearly_full) (run break_program (start nearly_full))

break_is_aborted : run break_program (start nearly_full) ≡ aborted break_end
unfolding run start dux_lang.Sema.◌>>=◌ dux_lang.Sema.Hoist.hoist_top dux_lang.Sema.pure
    dux_lang.Sema.Declarations.check_decl_list dux_lang.Sema.Check.check_stmts
    dux_lang.Sema.Steps.check_loop_exit dux_lang.Sema.gets dux_lang.Sema.err
    dux_lang.Diagnostics.driver_error
break_is_aborted = refl

run-aborted_example :
    (break_end.driver.error_count ≡ max_errors)
    × (19 + break_end.error_count + 1 ≡ break_end.driver.error_count)
run-aborted_example = run-aborted break_program nearly_full break_end (omega arith) break_is_aborted

-- An initialisation list is not checked, whatever stands in it.
check_func-init_list :
    (f : FunctionDecl) (entries : List InitEntry)
    → check_func (record f { init_list = entries }) ≡ check_func f
unfolding check_func
check_func-init_list f entries = refl
