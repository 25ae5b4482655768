-- ===== src/Generics/Result.antt =====
-- What expand_generics of src/sema/generics.cpp ends with.
use dux_lang.Prelude.{
  absurd_bool, ℕ, Bool, true, false, not, ◌≡◌, refl, subst, ◌∙◌, List, [], if◌then◌else◌,
}
use dux_lang.Ast.{Stmts}
use dux_lang.Ast.Declarations.{Decl, Decls, Program}
use dux_lang.Diagnostics.{Driver}
use dux_lang.Generics.Plain.{PlainStmts, fix_stmts-PlainStmts}
use dux_lang.Generics.Plain.Declarations.{PlainDecls, fix_decls-PlainDecls}
use dux_lang.Generics.Instances.{AllConcrete, work_list-IsSound}
use dux_lang.Generics.Rounds.{Holds}
use dux_lang.Generics.Stripped.{NoTemplates, StrippedNamespaces, final-StrippedDecls}
use dux_lang.Generics.Expand.{
  Work, Expansion, expanded, aborted, null_node, out_of_fuel, without_templates, strip_namespaces,
  prepend, expand_generics,
}
use dux_lang.Generics.Collected.{
  have_template, not-true, not-false, and_true, collect_all_empty, none-NoTemplates,
  none-StrippedNamespaces,
}

-- One property or the other.
abbrev pub Either : Bool → Type 0 → Type 0 → Type 0
Either true P Q = P
Either false P Q = Q

-- What a finished expansion is to the program and the driver it began with.
pub record IsResult (prog : Program) (driver : Driver) (r : Program × Driver) : Type 0 where
  pub top : NoTemplates r.0.decls
  pub namespaces : StrippedNamespaces r.0.decls
  pub changed :
      Either
        (have_template prog.decls)
        (PlainDecls r.0.decls × PlainStmts r.0.stmts)
        (r ≡ (prog, driver))

abbrev Result : Program → Driver → Expansion (Program × Driver) → Type 0
Result prog driver o = Holds (IsResult prog driver) (λ d. Unit) o

at_true : (b : Bool) (P Q : Type 0) → b ≡ true → P → Either b P Q
at_true true P Q e h = h
at_true false P Q e h = elim (absurd_bool e refl) [ ]

at_false : (b : Bool) (P Q : Type 0) → b ≡ false → Q → Either b P Q
at_false true P Q e h = elim (absurd_bool refl e) [ ]
at_false false P Q e h = h

unchanged-IsResult :
    (prog : Program) (driver : Driver)
    → have_template prog.decls ≡ false
    → IsResult prog driver (prog, driver)
unchanged-IsResult prog driver h = record {
  top = none-NoTemplates prog.decls h;
  namespaces = none-StrippedNamespaces prog.decls h;
  changed = at_false _ _ _ h refl;
}

changed-IsResult :
    (prog : Program) (driver d : Driver) (new : List Decl) (ds : Decls) (stmts : Stmts)
    → have_template prog.decls ≡ true
    → AllConcrete new
    → PlainDecls ds
    → PlainStmts stmts
    → IsResult prog driver (
      record prog { decls = strip_namespaces (prepend new (without_templates ds)); stmts = stmts },
      d,
    )
changed-IsResult prog driver d new ds stmts h c p q =
    let f = final-StrippedDecls new ds c p in
    record { top = f.0; namespaces = f.1; changed = at_true _ _ _ h (f.2, q) }

after-Result :
    (b : Bool) (prog : Program) (driver : Driver) (ds : Decls) (stmts : Stmts) (o : Expansion Work)
    → b ≡ not (have_template prog.decls)
    → PlainDecls ds
    → PlainStmts stmts
    → ((w : Work) → o ≡ expanded w → AllConcrete w.new_decls)
    → Result prog driver (
        if b then expanded (prog, driver) else elim o [
          | expanded w ↦ expanded (
            record prog {
              decls = strip_namespaces (prepend w.new_decls (without_templates ds));
              stmts = stmts;
            },
            w.driver,
          )
          | aborted d ↦ aborted d
          | null_node ↦ null_node
          | out_of_fuel ↦ out_of_fuel
        ])
after-Result true prog driver ds stmts o e p q h = unchanged-IsResult prog driver (not-true _ e)
after-Result false prog driver ds stmts (expanded w) e p q h =
    changed-IsResult prog driver w.driver w.new_decls ds stmts (not-false _ e) (h w refl) p q
after-Result false prog driver ds stmts (aborted d) e p q h = tt
after-Result false prog driver ds stmts null_node e p q h = tt
after-Result false prog driver ds stmts out_of_fuel e p q h = tt

expand-Result :
    (fuel : ℕ) (prog : Program) (driver : Driver) (next : ℕ)
    → Result prog driver (expand_generics fuel prog driver next)
unfolding expand_generics
expand-Result fuel prog driver next =
    after-Result _ prog driver _ _ _
      (collect_all_empty prog.decls (record { classes = []; funcs = [] }) ∙ and_true _)
      (fix_decls-PlainDecls true [] prog.decls []) (fix_stmts-PlainStmts [] prog.stmts _)
      (λ w e. (work_list-IsSound fuel _ _ _ w refl e).1)

-- A finished expansion has no template at the top nor among the declarations of a namespace there.
-- If the program had a template anywhere, no type that the walk comes to has arguments any more, in
-- statements and in declarations that are no templates; if it had none, the program and the driver
-- are as they were.
pub expand_generics-IsResult :
    (fuel : ℕ) (prog prog' : Program) (driver d : Driver) (next : ℕ)
    → expand_generics fuel prog driver next ≡ expanded (prog', d)
    → IsResult prog driver (prog', d)
expand_generics-IsResult fuel prog prog' driver d next e =
    subst (Result prog driver) e (expand-Result fuel prog driver next)
