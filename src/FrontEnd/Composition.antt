-- ===== src/FrontEnd/Composition.antt =====
-- What the two passes of src/main.cpp come to together.
use dux_lang.Prelude.{
  ℕ, ◌+◌, ◌≤◌, ◌<◌, Bool, true, false, ◌≡◌, refl, subst, ◌∙◌, ltb, nat_eq_iff, if◌then◌else◌, arith,
}
use dux_lang.Ast.Declarations.{Program}
use dux_lang.Diagnostics.{Driver, max_errors}
use dux_lang.Sema.{Sema, Outcome, done, aborted, hangs}
use dux_lang.Sema.Run.{run, start}
use dux_lang.Sema.Tally.Declarations.{stray_program}
use dux_lang.Sema.Verdict.{run-verdict, run-aborted, run-stray}
use dux_lang.Generics.Expand.{Expansion, expanded, null_node, out_of_fuel, expand_generics}
use dux_lang.Generics.Bounds.{Kept, expand_generics-Kept}
use dux_lang.Generics.Result.{IsResult, expand_generics-IsResult}
use dux_lang.FrontEnd.{
  FrontEnd, accepted, rejected, uncaught, crashes, expands_on, analyses_on, verdict, analysed,
  front_end,
}

-- A program that goes to the code generator, from the one that was parsed.
pub record IsAccepted (prog : Program) (driver : Driver) (prog' : Program) (s : Sema) : Type 0 where
  -- what the expansion left to the driver
  pub between : Driver
  pub result : IsResult prog driver (prog', between)
  -- in what the analysis checks: see stray_program
  pub none_stray : stray_program prog' ≡ 0
  pub none_counted : s.error_count ≡ 0
  pub same_count : s.driver.error_count ≡ between.error_count
  pub no_fewer : driver.error_count ≤ between.error_count
  pub below_limit : s.driver.error_count < max_errors

-- A rejected program has an error of the analysis, and one that is not caught has all 20.
abbrev pub Judged : Program → Driver → FrontEnd → Type 0
Judged prog driver (accepted prog' s) = IsAccepted prog driver prog' s
Judged prog driver (rejected s) =
    (0 < s.error_count)
    × (driver.error_count + s.error_count ≤ s.driver.error_count)
    × (s.driver.error_count < max_errors)
Judged prog driver (uncaught d) = d.error_count ≡ max_errors
Judged prog driver crashes = Unit
Judged prog driver expands_on = Unit
Judged prog driver analyses_on = Unit

module _ (prog : Program) (driver : Driver) (prog' : Program) (d : Driver)
    (result : IsResult prog driver (prog', d)) (fewer : driver.error_count ≤ d.error_count)
    (below : d.error_count < max_errors) where
  done-Judged :
      (ok b : Bool) (s : Sema)
      → b ≡ ltb 0 s.error_count
      → run prog' (start d) ≡ done ok s
      → Judged prog driver (if b then rejected s else accepted prog' s)
  done-Judged ok true s t e =
      let (answer, counted, limit) = run-verdict prog' d ok s below e in
      (ground arith, omega arith, limit)
  done-Judged ok false s t e =
      let (answer, counted, limit) = run-verdict prog' d ok s below e in
      let none : s.error_count ≡ 0 = ground arith in
      let yes : ok ≡ true = answer ∙ (nat_eq_iff s.error_count 0).1 none in
      record {
        between = d;
        result = result;
        none_stray = run-stray prog' d s (subst (λ b. run prog' (start d) ≡ done b s) yes e);
        none_counted = none;
        same_count = omega arith;
        no_fewer = fewer;
        below_limit = limit;
      }

  verdict-Judged :
      (o : Outcome Bool) → run prog' (start d) ≡ o → Judged prog driver (verdict prog' o)
  verdict-Judged (done ok s) e = done-Judged ok _ s refl e
  verdict-Judged (aborted s) e = (run-aborted prog' d s below e).0
  verdict-Judged hangs e = tt

analysed-Judged :
    (fuel next : ℕ) (prog : Program) (driver : Driver) (o : Expansion (Program × Driver))
    → expand_generics fuel prog driver next ≡ o
    → Kept driver o
    → Judged prog driver (analysed o)
analysed-Judged fuel next prog driver (expanded (prog', d)) e k =
    verdict-Judged prog driver prog' d (expand_generics-IsResult fuel prog prog' driver d next e)
      k.0 k.1 (run prog' (start d)) refl
analysed-Judged fuel next prog driver (Expansion.aborted d) e k = k
analysed-Judged fuel next prog driver null_node e k = tt
analysed-Judged fuel next prog driver out_of_fuel e k = tt

-- From a driver below its limit of 20 errors: a program that goes to the code generator is expanded,
-- has no error of the analysis and no stray break or continue in what the analysis checks, and the
-- driver then counts just what it did behind the expansion; a rejected program has an error of the
-- analysis, and the driver is below its limit; and a DiagnosticAbort that nothing catches comes at
-- exactly 20 errors.
pub front_end-Judged :
    (fuel : ℕ) (prog : Program) (driver : Driver) (next : ℕ)
    → driver.error_count < max_errors
    → Judged prog driver (front_end fuel prog driver next)
unfolding front_end
front_end-Judged fuel prog driver next l =
    analysed-Judged fuel next prog driver (expand_generics fuel prog driver next) refl
      (expand_generics-Kept fuel prog driver next l)
