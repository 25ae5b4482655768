-- ===== src/Generics/Bounds.antt =====
-- The errors that expand_generics of src/sema/generics.cpp reports, for bounds that do not hold.
use dux_lang.Prelude.{
  ℕ, ◌+◌, ◌≤◌, ◌<◌, Bool, true, false, not, leb, ◌≡◌, refl, subst, Option, some, none, List, [],
  ◌∷◌, if◌then◌else◌, arith, ltb, ltb→lt, Bool-cases, inl, inr, sym,
}
use dux_lang.Prelude.Tables.{find, mem_name}
use dux_lang.Ast.{SourceLoc, TypeExpr}
use dux_lang.Ast.Views.{te_name}
use dux_lang.Ast.Declarations.{TypeBound, Decl, Decls, Program}
use dux_lang.Diagnostics.{Driver, driver_error, max_errors, missing_bound}
use dux_lang.Generics.{SubstMap}
use dux_lang.Generics.FixTypes.{InstKey}
use dux_lang.Generics.Unmet.{lacks, unmet, ast_satisfies_bound_lem}
use dux_lang.Generics.Rounds.{Holds, work_list-Holds, popped}
use dux_lang.Generics.Expand.{
  ast_satisfies_bound, Found, Work, Expansion, expanded, aborted, null_node, out_of_fuel, Template,
  template_of, add_copy, instantiate, work_step, work_list, check_bounds, expand_generics,
}

-- `n` errors more, or the throw at the limit.
abbrev Counted : ℕ → Driver × Bool → Type 0
Counted n (d', throws) =
    (n < max_errors → (throws ≡ false) × (d'.error_count ≡ n))
    × (max_errors ≤ n → (throws ≡ true) × (d'.error_count ≡ max_errors))

report-Counted :
    (m : ℕ) (n : ℕ) (t : Bool) (d' : Driver) (r : Driver × Bool)
    → t ≡ leb max_errors (m + 1)
    → d'.error_count ≡ m + 1
    → m < max_errors
    → (d'.error_count < max_errors → Counted (d'.error_count + n) r)
    → Counted (m + (1 + n)) (if t then (d', true) else r)
report-Counted m n true d' r e c l h =
    let full : max_errors ≡ m + 1 = ground arith in
    let far : (m + (1 + n) < max_errors) → ⊥ = λ k. omega arith in
    ((λ k. elim (far k) [ ]), (λ k. (refl, omega arith)))
report-Counted m n false d' r e c l h =
    let below : m + 1 < max_errors = ground arith in
    let g = h (omega arith) in
    let e' : d'.error_count + n ≡ m + (1 + n) = omega arith in subst (λ x. Counted x r) e' g

missing-Counted :
    (loc : SourceLoc) (te : TypeExpr) (b : TypeBound) (k : ℕ) (d : Driver)
    → (rest : Driver → Driver × Bool) → d.error_count < max_errors
    → ((d' : Driver) → d'.error_count < max_errors → Counted (d'.error_count + k) (rest d'))
    → Counted (d.error_count + (1 + k)) (
        let (d', throws) =
          driver_error loc (missing_bound (te_name te) b.interface_name b.param) d in
        if throws then (d', true) else rest d')
unfolding driver_error
missing-Counted loc te b k d rest l h = report-Counted d.error_count k _ _ _ refl refl l (h _)

nothing-Counted : (d : Driver) → d.error_count < max_errors → Counted (d.error_count + 0) (d, false)
nothing-Counted d l =
    let far : (max_errors ≤ d.error_count + 0) → ⊥ = λ k. omega arith in
    ((λ k. (refl, omega arith)), (λ k. elim (far k) [ ]))

holds-Counted :
    (a : Bool) (m k : ℕ) (x y : Driver × Bool)
    → Counted (m + k) x
    → Counted (m + (1 + k)) y
    → Counted (m + (if not a then 1 + k else k)) (if a then x else y)
holds-Counted true m k x y h g = h
holds-Counted false m k x y h g = g

-- A bound more, for what its parameter stands for.
bound-Counted :
    (loc : SourceLoc) (decls : Decls) (b : TypeBound) (k : ℕ) (d : Driver)
    → (rest : Driver → Driver × Bool) → d.error_count < max_errors
    → ((d' : Driver) → d'.error_count < max_errors → Counted (d'.error_count + k) (rest d'))
    → (o : Option TypeExpr)
    → Counted
        (d.error_count
          + (if elim o [ none ↦ false | some te ↦ lacks decls (te_name te) b.interface_name ]
              then 1 + k
              else k))
        (elim o [
          | none ↦ rest d
          | some te ↦
              if ast_satisfies_bound (te_name te) b.interface_name decls
              then rest d
              else (let (d', throws) =
                    driver_error loc (missing_bound (te_name te) b.interface_name b.param) d in
                  if throws then (d', true) else rest d')
        ])
bound-Counted loc decls b k d rest l h none = h d l
bound-Counted loc decls b k d rest l h (some te) =
    rw (ast_satisfies_bound_lem (te_name te) b.interface_name decls) (
      holds-Counted (ast_satisfies_bound (te_name te) b.interface_name decls) d.error_count k _ _
        (h d l) (missing-Counted loc te b k d rest l h))

check-Counted :
    (loc : SourceLoc) (decls : Decls) (s : SubstMap) (bs : List TypeBound) (d : Driver)
    → d.error_count < max_errors
    → Counted (d.error_count + unmet decls s bs) (check_bounds loc decls s bs d)
unfolding check_bounds unmet
check-Counted loc decls s [] d l = nothing-Counted d l
check-Counted loc decls s (b ∷ bs) d l =
    bound-Counted loc decls b (unmet decls s bs) d (check_bounds loc decls s bs) l
      (check-Counted loc decls s bs) (find b.param s)

Counted-test :
    (n : ℕ) (r : Driver × Bool)
    → Counted n r
    → (b : Bool) → b ≡ leb max_errors n
    → (r.1 ≡ b) × (r.0.error_count ≡ (if b then max_errors else n))
Counted-test n r h true e = let full : max_errors ≤ n = ground arith in h.1 full
Counted-test n r h false e = let below : n < max_errors = ground arith in h.0 below

-- From a driver below the limit of 20 errors, the check of the bounds reports one error for every
-- bound whose parameter stands for a class at the top of the program, the first of its name, that does
-- not have the named interface among its bases, and none for any other; it throws at the limit, with
-- exactly 20 errors, just if they would come to it.
pub check_bounds-unmet :
    (loc : SourceLoc) (decls : Decls) (s : SubstMap) (bs : List TypeBound) (d : Driver)
    → d.error_count < max_errors
    → let n = d.error_count + unmet decls s bs in
      let (d', throws) = check_bounds loc decls s bs d in
      (throws ≡ leb max_errors n) × (d'.error_count ≡ (if leb max_errors n then max_errors else n))
check_bounds-unmet loc decls s bs d l =
    Counted-test _ (check_bounds loc decls s bs d) (check-Counted loc decls s bs d l) _ refl

-- Between `m` errors and the limit, or at the limit when it has thrown.
abbrev Within : ℕ → Work → Type 0
Within m w = (m ≤ w.driver.error_count) × (w.driver.error_count < max_errors)

abbrev pub AtLimit : Driver → Type 0
AtLimit d = d.error_count ≡ max_errors

abbrev Limited : ℕ → Expansion Work → Type 0
Limited m o = Holds (Within m) AtLimit o

tests-Limited :
    (m : ℕ) (a : Bool) (w : Work) (n : ℕ) (r : Driver × Bool) (o : Expansion Work)
    → Within m w
    → m ≤ n
    → Counted n r
    → (r.0.error_count < max_errors → m ≤ r.0.error_count → Limited m o)
    → Limited m (if not a then expanded w else if r.1 then aborted r.0 else o)
tests-Limited m false w n r o h l c g = h
tests-Limited m true w n (d, t) o h l c g = elim (Bool-cases (ltb n max_errors)) [
  | inl below ↦
      let less = ltb→lt n max_errors below in
      let (go, e) = c.0 less in
      subst (λ b. Limited m (if b then aborted d else o)) (sym go) (g (omega arith) (omega arith))
  | inr full ↦
      let (stop, e) = c.1 (ground arith) in
      subst (λ b. Limited m (if b then aborted d else o)) (sym stop) e
]

copied-Limited :
    (m : ℕ) (w : Work) (d : Driver) (o : Option (Decl × ℕ))
    → d.error_count < max_errors
    → m ≤ d.error_count
    → Limited m (elim o [ none ↦ null_node | some copy ↦ expanded (add_copy w d copy) ])
unfolding add_copy
copied-Limited m w d none l k = tt
copied-Limited m w d (some (c, next)) l k = (k, l)

instantiate-Limited :
    (m : ℕ) (decls : Decls) (key : InstKey) (tmpl : Template) (w : Work)
    → Within m w
    → Limited m (instantiate decls key tmpl w)
unfolding instantiate
instantiate-Limited m decls key tmpl w h =
    tests-Limited m _ w _ _ _ h (omega (arith, h.0))
      (check-Counted key.loc decls _ tmpl.type_bounds w.driver h.1) (copied-Limited m w _ _)

template-Limited :
    (m : ℕ) (decls : Decls) (key : InstKey) (w : Work) (o : Option Template)
    → Within m w
    → Limited m (elim o [ none ↦ expanded w | some tmpl ↦ instantiate decls key tmpl w ])
template-Limited m decls key w none h = h
template-Limited m decls key w (some tmpl) h = instantiate-Limited m decls key tmpl w h

done-Limited :
    (m : ℕ) (b : Bool) (w : Work) (o : Expansion Work)
    → Within m w
    → Limited m o
    → Limited m (if b then expanded w else o)
done-Limited m true w o h g = h
done-Limited m false w o h g = g

step-Limited :
    (m : ℕ) (t : Found) (decls : Decls) (key : InstKey) (w : Work)
    → Within m w
    → Limited m (work_step t decls key w)
unfolding work_step
step-Limited m t decls key w h = done-Limited m (mem_name key.mangled w.done) w _ h (
    template-Limited m decls key (record w { done = key.mangled ∷ w.done })
      (template_of t key.generic_name) h)

pub work_list-Limited :
    (m fuel : ℕ) (t : Found) (decls : Decls) (w : Work)
    → Within m w
    → Limited m (work_list fuel t decls w)
work_list-Limited m fuel t decls w h =
    work_list-Holds t decls (Within m) AtLimit
      (λ v key rest g. step-Limited m t decls key (popped v rest) g) fuel w h

-- What an expansion makes of the driver.
abbrev pub Kept : Driver → Expansion (Program × Driver) → Type 0
Kept driver o =
    Holds (λ r. (driver.error_count ≤ r.1.error_count) × (r.1.error_count < max_errors)) AtLimit o

module _ (fuel : ℕ) (prog : Program) (driver : Driver) (next : ℕ) where
  result-Kept :
      (b : Bool) (f : Work → Program) (o : Expansion Work)
      → driver.error_count < max_errors
      → Limited driver.error_count o
      → Kept driver (
          if b then expanded (prog, driver) else elim o [
            | expanded w ↦ expanded (f w, w.driver)
            | aborted d ↦ aborted d
            | null_node ↦ null_node
            | out_of_fuel ↦ out_of_fuel
          ])
  result-Kept true f o l h = (omega arith, l)
  result-Kept false f (expanded w) l h = h
  result-Kept false f (aborted d) l h = h
  result-Kept false f null_node l h = tt
  result-Kept false f out_of_fuel l h = tt

  expand-Kept :
      driver.error_count < max_errors → Kept driver (expand_generics fuel prog driver next)
  unfolding expand_generics
  expand-Kept l =
      result-Kept _ _ _ l (work_list-Limited driver.error_count fuel _ _ _ (omega arith, l))

-- From a driver below its limit of 20 errors, an expansion that ends leaves one that has at least as
-- many errors and is below the limit, and one that throws leaves exactly 20 errors.
pub expand_generics-Kept :
    (fuel : ℕ) (prog : Program) (driver : Driver) (next : ℕ)
    → driver.error_count < max_errors
    → Kept driver (expand_generics fuel prog driver next)
expand_generics-Kept fuel prog driver next l = expand-Kept fuel prog driver next l
