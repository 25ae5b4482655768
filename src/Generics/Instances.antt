-- ===== src/Generics/Instances.antt =====
-- What the work-list of expand_generics in src/sema/generics.cpp makes.
use dux_lang.Prelude.{
  absurd_bool, ℕ, String, Bool, true, false, not, ◌||◌, ◌≡◌, inl, inr, refl, sym, subst, Option,
  some, none, List, [], ◌∷◌, if◌then◌else◌, Bool-cases, ◌==◌,
}
use dux_lang.Prelude.Tables.{mem_name}
use dux_lang.Ast.Declarations.{Decl, Decls}
use dux_lang.Diagnostics.{Driver}
use dux_lang.Generics.FixTypes.{InstKey}
use dux_lang.Generics.Rounds.{Holds, work_list-Holds, popped}
use dux_lang.Generics.Plain.Declarations.{PlainDecl, fix_decl-PlainDecl}
use dux_lang.Generics.Expand.{
  Found, Work, Expansion, expanded, aborted, null_node, Template, template_of, add_copy,
  instantiate, work_step, work_list, is_template,
}
use dux_lang.Generics.Copies.{
  decl_name, IsInstance, Made, IsTemplate, template_of-IsTemplate, fix_decl-IsInstance,
}

abbrev pub names_of : List Decl → List String
names_of [] = []
names_of (d ∷ ds) = decl_name d ∷ names_of ds

abbrev pub DistinctNames : List String → Type 0
DistinctNames [] = Unit
DistinctNames (x ∷ xs) = (mem_name x xs ≡ false) × DistinctNames xs

-- New declarations are no templates, and no type in them has arguments.
abbrev pub AllConcrete : List Decl → Type 0
AllConcrete [] = Unit
AllConcrete (d ∷ ds) = (is_template d ≡ false) × PlainDecl d × AllConcrete ds

-- The invariant of the work-list.
pub record IsSound (w : Work) : Type 0 where
  pub distinct : DistinctNames (names_of w.new_decls)
  pub concrete : AllConcrete w.new_decls
  pub recorded : (x : String) → mem_name x (names_of w.new_decls) ≡ true → mem_name x w.done ≡ true

abbrev Sound : Expansion Work → Type 0
Sound o = Holds IsSound (λ d. Unit) o

not_recorded :
    (w : Work) (x : String)
    → IsSound w
    → mem_name x w.done ≡ false
    → mem_name x (names_of w.new_decls) ≡ false
not_recorded w x h e = elim (Bool-cases (mem_name x (names_of w.new_decls))) [
  | inl there ↦ elim (absurd_bool (h.recorded x there) e) [ ]
  | inr absent ↦ absent
]

or_true : (b : Bool) {p : Bool} → p ≡ true → (b || p) ≡ true
or_true true h = refl
or_true false h = h

or_mono : (b : Bool) {p q : Bool} → (p ≡ true → q ≡ true) → (b || p) ≡ true → (b || q) ≡ true
or_mono true h m = refl
or_mono false h m = h m

-- A copy under a name that was not done before, and now is.
add_copy-IsSound :
    (w : Work) (name : String) (driver : Driver) (d : Decl) (k : ℕ)
    → IsSound w
    → mem_name name w.done ≡ false
    → IsInstance name d
    → IsSound (add_copy (record w { done = name ∷ w.done }) driver (d, k))
unfolding add_copy
add_copy-IsSound w name driver d k h e i =
    let done = name ∷ w.done in
    let i' = fix_decl-IsInstance done w.pending name d i in
    record {
      distinct = (
        subst (λ x. mem_name x (names_of w.new_decls) ≡ false) (sym i'.named)
            (not_recorded w name h e),
        h.distinct,
      );
      concrete = (i'.concrete, fix_decl-PlainDecl false done d w.pending, h.concrete);
      recorded = λ x m.
          or_mono (name == x) (h.recorded x)
            (subst (λ y. mem_name x (y ∷ names_of w.new_decls) ≡ true) i'.named m);
    }

marked-IsSound :
    (w : Work) (name : String) → IsSound w → IsSound (record w { done = name ∷ w.done })
marked-IsSound w name h = record {
  distinct = h.distinct;
  concrete = h.concrete;
  recorded = λ x m. or_true (name == x) (h.recorded x m);
}

copy-Sound :
    (w : Work) (name : String) (driver : Driver) (o : Option (Decl × ℕ))
    → IsSound w
    → mem_name name w.done ≡ false
    → Made name o
    → Sound (elim o [
      | none ↦ null_node
      | some copy ↦ expanded (add_copy (record w { done = name ∷ w.done }) driver copy)
    ])
copy-Sound w name driver none h e m = tt
copy-Sound w name driver (some (d, k)) h e m = add_copy-IsSound w name driver d k h e m

tests-Sound :
    (a b : Bool) (w : Work) (d : Driver) (o : Expansion Work)
    → IsSound w
    → Sound o
    → Sound (if not a then expanded w else if b then aborted d else o)
tests-Sound true true w d o h g = tt
tests-Sound true false w d o h g = g
tests-Sound false b w d o h g = h

instantiate-Sound :
    (decls : Decls) (key : InstKey) (tmpl : Template) (w : Work)
    → IsTemplate tmpl
    → IsSound w
    → mem_name key.mangled w.done ≡ false
    → Sound (instantiate decls key tmpl (record w { done = key.mangled ∷ w.done }))
unfolding instantiate
instantiate-Sound decls key tmpl w i h e =
    tests-Sound _ _ _ _ _ (marked-IsSound w key.mangled h)
      (copy-Sound w key.mangled _ _ h e (i.makes key.mangled _ w.next))

step_template-Sound :
    (t : Found) (decls : Decls) (key : InstKey) (w : Work) (o : Option Template)
    → ((tmpl : Template) → o ≡ some tmpl → IsTemplate tmpl)
    → IsSound w
    → mem_name key.mangled w.done ≡ false
    → Sound (elim o [
      | none ↦ expanded (record w { done = key.mangled ∷ w.done })
      | some tmpl ↦ instantiate decls key tmpl (record w { done = key.mangled ∷ w.done })
    ])
step_template-Sound t decls key w none i h e = marked-IsSound w key.mangled h
step_template-Sound t decls key w (some tmpl) i h e =
    instantiate-Sound decls key tmpl w (i tmpl refl) h e

step_done-Sound :
    (b : Bool) (w : Work) (o : Expansion Work)
    → IsSound w
    → (b ≡ false → Sound o)
    → Sound (if b then expanded w else o)
step_done-Sound true w o h g = h
step_done-Sound false w o h g = g refl

work_step-Sound :
    (t : Found) (decls : Decls) (key : InstKey) (w : Work)
    → IsSound w
    → Sound (work_step t decls key w)
unfolding work_step
work_step-Sound t decls key w h = step_done-Sound (mem_name key.mangled w.done) w _ h λ e.
    step_template-Sound t decls key w (template_of t key.generic_name)
      (template_of-IsTemplate t key.generic_name) h e

popped-IsSound : (w : Work) (rest : List InstKey) → IsSound w → IsSound (popped w rest)
popped-IsSound w rest h = record {
  distinct = h.distinct;
  concrete = h.concrete;
  recorded = h.recorded;
}

start-IsSound : (w : Work) → w.new_decls ≡ [] → IsSound w
start-IsSound w e = record {
  distinct = subst (λ ds. DistinctNames (names_of ds)) (sym e) tt;
  concrete = subst AllConcrete (sym e) tt;
  recorded = λ x m. elim (absurd_bool (subst (λ ds. mem_name x (names_of ds) ≡ true) e m) refl) [ ];
}

-- A work-list that starts with no new declarations and becomes empty has instantiated no name
-- twice, and its declarations are no templates and have no type with arguments where the walk
-- comes to.
pub work_list-IsSound :
    (fuel : ℕ) (t : Found) (decls : Decls) (w w' : Work)
    → w.new_decls ≡ []
    → work_list fuel t decls w ≡ expanded w'
    → DistinctNames (names_of w'.new_decls) × AllConcrete w'.new_decls
work_list-IsSound fuel t decls w w' e r =
    let h : IsSound w' = subst Sound r (
      work_list-Holds t decls IsSound (λ d. Unit)
        (λ v key rest h. work_step-Sound t decls key (popped v rest) (popped-IsSound v rest h)) fuel
        w (start-IsSound w e)) in
    (h.distinct, h.concrete)
