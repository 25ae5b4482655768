-- ===== src/Sema/Verdict.antt =====
-- What Sema::run answers (src/sema/sema.cpp), and the driver that main.cpp then looks at.
use dux_lang.Prelude.{◌+◌, ◌<◌, Bool, true, false, ◌≡◌, refl, sym, subst, nat_eq, nat_eq_iff, arith}
use dux_lang.Ast.Declarations.{Program}
use dux_lang.Diagnostics.{Driver, max_errors}
use dux_lang.Sema.{Sema, Outcome, done, aborted, hangs, M, ◌>>=◌, gets}
use dux_lang.Sema.Run.{run, start}
use dux_lang.Sema.Tally.{Tallied, Tallies}
use dux_lang.Sema.Tally.Declarations.{stray_program, Tally-run}

-- What an action that ends with `gets f` answers.
abbrev Answers : {A : Type 0} → (Sema → A) → Outcome A → Type 0
Answers f (done a t) = a ≡ f t
Answers f (aborted t) = Unit
Answers f hangs = Unit

record EndsWith {A : Type 0} (f : Sema → A) (m : M A) : Type 0 where
  at : (s : Sema) → Answers f (m s)

EndsWith-gets : {A : Type 0} (f : Sema → A) → EndsWith f (gets f)
unfolding gets
EndsWith-gets f = record { at = λ s. refl }

bind_answers :
    {A B : Type 0} (f : Sema → B) (o : Outcome A) (k : A → M B)
    → ((a : A) → EndsWith f (k a))
    → Answers f (elim o [ done a t ↦ k a t | aborted t ↦ aborted t | hangs ↦ hangs ])
bind_answers f (done a t) k h = (h a).at t
bind_answers f (aborted t) k h = tt
bind_answers f hangs k h = tt

EndsWith-bind :
    {A B : Type 0} {f : Sema → B} (m : M A) {k : A → M B}
    → ((a : A) → EndsWith f (k a))
    → EndsWith f (m >>= k)
unfolding ◌>>=◌
EndsWith-bind {f} m {k} h = record { at = λ s. bind_answers f (m s) k h }

run_answers : (p : Program) → EndsWith (λ s. nat_eq s.error_count 0) (run p)
unfolding run
run_answers p = EndsWith-bind _ λ _. EndsWith-bind _ λ _. EndsWith-bind _ λ _. EndsWith-gets _

run-Tallied :
    (p : Program) (d : Driver) (ok : Bool) (t : Sema)
    → run p (start d) ≡ done ok t
    → Tallied false (stray_program p) (start d) t
unfolding start
run-Tallied p d ok t e =
    subst (λ o. Tallies false (stray_program p) (start d) o) e ((Tally-run p).at (start d) refl)

-- For a driver below its limit of 20 errors: when `run` answers, it says yes exactly if it reported
-- no error, the driver has counted the errors it reported and is still below the limit.
pub run-verdict :
    (p : Program) (d : Driver) (ok : Bool) (t : Sema)
    → d.error_count < max_errors
    → run p (start d) ≡ done ok t
    → (ok ≡ nat_eq t.error_count 0)
      × (t.driver.error_count ≡ d.error_count + t.error_count)
      × (t.driver.error_count < max_errors)
unfolding start
run-verdict p d ok t below e =
    let h = run-Tallied p d ok t e in
    (
      subst (λ o. Answers (λ s. nat_eq s.error_count 0) o) e ((run_answers p).at (start d)),
      omega (arith, h.counted),
      h.below below,
    )

-- For a driver below its limit of 20 errors: when `run` is aborted, the driver stands at exactly
-- 20 errors, of which the analyser has counted all its own but the last.
pub run-aborted :
    (p : Program) (d : Driver) (t : Sema)
    → d.error_count < max_errors
    → run p (start d) ≡ aborted t
    → (t.driver.error_count ≡ max_errors)
      × (d.error_count + t.error_count + 1 ≡ t.driver.error_count)
unfolding start
run-aborted p d t below e =
    let h =
      subst (λ o. Tallies false (stray_program p) (start d) o) e
        ((Tally-run p).at (start d) refl) in
    (h.limit below, omega (arith, h.counted))

-- In a program that `run` accepts, no `break` or `continue` that the analysis comes to stands outside
-- every loop and switch: not in the statements, nor in the body of any function or method, nor in a
-- field's initialiser, with their lambdas and arguments, in namespaces too. Nothing is said of the
-- initialisation lists of constructors, the arguments of decorators, the members of interfaces and
-- package declarations, which the analysis never checks. A lambda's body counts as inside the loops
-- around the lambda. A variable declared with a function type counts as stray too, and there is none.
pub run-stray :
    (p : Program) (d : Driver) (t : Sema) → run p (start d) ≡ done true t → stray_program p ≡ 0
unfolding start
run-stray p d t e =
    let h = run-Tallied p d true t e in
    let a = subst (λ o. Answers (λ s. nat_eq s.error_count 0) o) e ((run_answers p).at (start d)) in
    omega (arith, h.added, (nat_eq_iff t.error_count 0).0 (sym a))
