-- ===== src/FrontEnd/Whole.antt =====
-- The imports, the expansion and the analysis of src/main.cpp, one after another.
use dux_lang.Prelude.{ℕ, ◌<◌, true, false, String, Option, some, List, [], ◌==◌, length, ◌≡◌, arith}
use dux_lang.Ast.Declarations.{Program}
use dux_lang.Diagnostics.{Driver, max_errors}
use dux_lang.Imports.{import_paths}
use dux_lang.Imports.Missing.{all_in}
use dux_lang.Imports.Loading.{Merged, merge_stdlib_imports-Ends}
use dux_lang.FrontEnd.{front_end, compiled}
use dux_lang.FrontEnd.Composition.{Judged, front_end-Judged}

-- For a directory of library files that, with the program, import only paths of a finite list, and a
-- driver below its limit of 20 errors: the imports are loaded to the end, and the front end judges the
-- program with some declarations put before its own, whose imports are loaded too, each path once. A
-- program that goes to the code generator is expanded, and has no error of the analysis and no stray
-- break or continue in what the analysis checks (statements, the bodies of functions and methods, and
-- field initialisers, but not the initialisation lists of constructors, the arguments of decorators,
-- the members of interfaces and package declarations); the driver then counts just what it did behind
-- the expansion; a rejected program has an error of the analysis, and the driver is below its limit;
-- and a DiagnosticAbort that nothing catches comes at exactly 20 errors.
pub compiled-Judged :
    (load : String → String → Option Program) (dir : String) (names : List String) (loads : ℕ)
    (fuel : ℕ) (prog : Program) (driver : Driver) (next : ℕ)
    → dir == "" ≡ false
    → ((file : String) (sub : Program)
        → load dir file ≡ some sub
        → all_in (import_paths sub.decls) names ≡ true)
    → all_in (import_paths prog.decls) names ≡ true
    → length names < loads
    → driver.error_count < max_errors
    → (prog' : Program) × (loaded : List String) × Merged
        (import_paths prog.decls)
        prog
        []
        prog'
        loaded
      × (compiled load dir loads fuel prog driver next ≡ some (front_end fuel prog' driver next))
      × Judged prog' driver (front_end fuel prog' driver next)
unfolding compiled
compiled-Judged load dir names loads fuel prog driver next e closed named h l =
    let r = merge_stdlib_imports-Ends load dir names prog loads e closed named h in
    (
      r.prog',
      r.loaded',
      r.merged,
      ground (arith, r.result),
      front_end-Judged fuel r.prog' driver next l,
    )
