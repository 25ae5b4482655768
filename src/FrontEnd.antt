-- ===== src/FrontEnd.antt =====
-- src/main.cpp between the parser and the code generator, with an option that needs the analysis: the
-- imports, the expansion of generics, and then Sema on what it leaves. A DiagnosticAbort is caught
-- nowhere there. The parser has given the program and the driver.
pub mod Composition
pub mod Whole
use dux_lang.Prelude.{ℕ, Bool, ltb, if◌then◌else◌, String, Option, none, some, []}
use dux_lang.Ast.Declarations.{Program}
use dux_lang.Diagnostics.{Driver}
use dux_lang.Imports.{merge_stdlib_imports}
use dux_lang.Sema.{Sema, Outcome, done, aborted, hangs}
use dux_lang.Sema.Run.{run, start}
use dux_lang.Generics.Expand.{Expansion, expanded, null_node, out_of_fuel, expand_generics}

pub data FrontEnd : Type 0 where
  -- `rc` is 0: the program goes to the code generator, with the analyser that has seen it
  accepted : Program → Sema → FrontEnd
  -- `rc` is 1
  rejected : Sema → FrontEnd
  -- DiagnosticAbort
  uncaught : Driver → FrontEnd
  -- a null pointer is followed, or the expansion or the analysis goes on for ever
  crashes expands_on analyses_on : FrontEnd

abbrev pub verdict : Program → Outcome Bool → FrontEnd
verdict prog (done ok s) = if ltb 0 s.error_count then rejected s else accepted prog s
verdict prog (aborted s) = uncaught s.driver
verdict prog hangs = analyses_on

abbrev pub analysed : Expansion (Program × Driver) → FrontEnd
analysed (expanded (prog, driver)) = verdict prog (run prog (start driver))
analysed (Expansion.aborted d) = uncaught d
analysed null_node = crashes
analysed out_of_fuel = expands_on

unfoldable pub front_end : ℕ → Program → Driver → ℕ → FrontEnd
front_end fuel prog driver next = analysed (expand_generics fuel prog driver next)

-- main from the parser's tree on; `none` when the fuel for the imports is used up.
unfoldable pub compiled :
    (String → String → Option Program) → String → ℕ → ℕ → Program → Driver → ℕ → Option FrontEnd
compiled load dir loads fuel prog driver next = elim (merge_stdlib_imports load dir loads prog []) [
  | none ↦ none
  | some (prog', loaded) ↦ some (front_end fuel prog' driver next)
]
