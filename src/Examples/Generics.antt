-- ===== src/Examples/Generics.antt =====
-- Expansions of small programs with templates.
use dux_lang.Prelude.{
  ℕ, ◌+◌, ◌≤◌, ◌<◌, String, Bool, true, false, ◌≡◌, refl, subst, Option, none, some, leb,
  if◌then◌else◌, ◌==◌, List, [], ◌∷◌, arith,
}
use dux_lang.Prelude.Tables.{find}
use dux_lang.Ast.{
  TypeExpr, TypeExprs, type_expr, Stmt, no_stmts, stmt_then, no_expr, no_inits, init_then,
}
use dux_lang.Ast.Declarations.{none_mod, MemberDecl, TypeBound, Decl, Decls, Program}
use dux_lang.Diagnostics.{Driver, max_errors}
use dux_lang.Generics.{SubstMap, subst_te}
use dux_lang.Generics.FixTypes.{InstKey}
use dux_lang.Generics.Expand.{
  Found, collect_templates, Work, Expansion, expanded, aborted, null_node, out_of_fuel, work_list,
  expand_generics, check_bounds,
}
use dux_lang.Generics.Instances.{DistinctNames, AllConcrete, names_of, work_list-IsSound}
use dux_lang.Generics.Unmet.{unmet}
use dux_lang.Generics.Bounds.{check_bounds-unmet, Kept, expand_generics-Kept}
use dux_lang.Generics.Substitution.{Free, subst_te-Free}
use dux_lang.Generics.Result.{IsResult, expand_generics-IsResult}
use dux_lang.Examples.{at, node, te, plain, program, fresh_driver}

abbrev te_of : String → TypeExpr → TypeExpr
te_of name arg = type_expr name false (at 3) TypeExprs.nil "" (TypeExprs.cons arg TypeExprs.nil)

-- class Box<T : Show> { T item; }
abbrev box : List TypeBound → Decl
box bounds = Decl.class_decl (record {
  node = node 1;
  decorators = [];
  name = "Box";
  type_params = "T" ∷ [];
  type_bounds = bounds;
  bases = [];
  members =
      record {
        access = none_mod;
        decorators = [];
        decl = MemberDecl.field (record {
          node = node 2;
          type = te "T";
          name = "item";
          init = no_expr;
          is_static = false;
        });
      }
      ∷ [];
})

abbrev shown : List TypeBound
shown = record { param = "T"; interface_name = "Show" } ∷ []

-- Box<Box<int>> b;
abbrev boxes : Program
boxes = program (Decls.cons (box shown) Decls.nil) (
    stmt_then
      (Stmt.var_decl (node 3) (te_of "Box" (te_of "Box" (te "int"))) plain
        (init_then "b" no_expr no_inits))
      no_stmts)

abbrev result_of : Program → Expansion (Program × Driver) → Program × Driver
result_of prog (expanded r) = r
result_of prog (aborted d) = (prog, d)
result_of prog null_node = (prog, fresh_driver)
result_of prog out_of_fuel = (prog, fresh_driver)

abbrev boxes_end : Program × Driver
boxes_end = result_of boxes (expand_generics 5 boxes fresh_driver 10)

boxes_are_expanded : expand_generics 5 boxes fresh_driver 10 ≡ expanded boxes_end
unfolding expand_generics work_list dux_lang.Generics.Expand.work_step
    dux_lang.Generics.Expand.template_of find collect_templates dux_lang.Prelude.Tables.assign
    dux_lang.Generics.Expand.instantiate dux_lang.Generics.Expand.class_template check_bounds
    dux_lang.Generics.Expand.bind_params dux_lang.Generics.Expand.ast_satisfies_bound
    dux_lang.Generics.Expand.declares_bound dux_lang.Generics.Templates.clone_class_decl
    dux_lang.Generics.Clone.◌>>=◌ dux_lang.Generics.Clone.fresh
    dux_lang.Generics.Templates.clone_members dux_lang.Generics.Templates.clone_member
    dux_lang.Generics.Templates.clone_field_decl dux_lang.Generics.Expand.add_copy
    dux_lang.Generics.Fix.fix_class dux_lang.Generics.Fix.fix_decl dux_lang.Generics.Fix.fix_decls
    dux_lang.Generics.Fix.fix_member dux_lang.Generics.Fix.fix_members
    dux_lang.Generics.Fix.fix_stmts dux_lang.Generics.FixTypes.fix_te
    dux_lang.Generics.FixTypes.name_te dux_lang.Generics.mangle_generic subst_te
    dux_lang.Generics.Expand.prepend dux_lang.Generics.Expand.strip_namespaces
    dux_lang.Generics.Expand.without_templates dux_lang.Generics.Clone.clone_value
boxes_are_expanded = refl

expand_generics-IsResult_example : IsResult boxes fresh_driver boxes_end
expand_generics-IsResult_example =
    expand_generics-IsResult 5 boxes boxes_end.0 fresh_driver boxes_end.1 10 boxes_are_expanded

expand_generics-Kept_example : Kept fresh_driver (expand_generics 5 boxes fresh_driver 10)
expand_generics-Kept_example = expand_generics-Kept 5 boxes fresh_driver 10 (omega arith)

-- The work-list of that program: the type of `b` and its argument wait for their classes.
abbrev found : Found
found = collect_templates boxes.decls (record { classes = []; funcs = [] })

abbrev key : String → TypeExpr → String → InstKey
key name arg mangled = record {
  generic_name = name;
  type_args = TypeExprs.cons arg TypeExprs.nil;
  mangled = mangled;
  loc = at 3;
}

abbrev waiting : Work
waiting = record {
  done = [];
  pending =
      key "Box" (te "Box__int") "Box__Box__int"
      ∷ key "Box" (te "int") "Box__int"
      ∷ key "Box" (te "int") "Box__int"
      ∷ [];
  new_decls = [];
  driver = fresh_driver;
  next = 10;
}

abbrev work_of : Work → Expansion Work → Work
work_of w (expanded w') = w'
work_of w (aborted d) = w
work_of w null_node = w
work_of w out_of_fuel = w

abbrev worked : Work
worked = work_of waiting (work_list 4 found boxes.decls waiting)

work_ends : work_list 4 found boxes.decls waiting ≡ expanded worked
unfolding work_list dux_lang.Generics.Expand.work_step dux_lang.Generics.Expand.template_of find
    collect_templates dux_lang.Prelude.Tables.assign dux_lang.Generics.Expand.instantiate
    dux_lang.Generics.Expand.class_template check_bounds dux_lang.Generics.Expand.bind_params
    dux_lang.Generics.Expand.ast_satisfies_bound dux_lang.Generics.Expand.declares_bound
    dux_lang.Generics.Templates.clone_class_decl dux_lang.Generics.Clone.◌>>=◌
    dux_lang.Generics.Clone.fresh dux_lang.Generics.Templates.clone_members
    dux_lang.Generics.Templates.clone_member dux_lang.Generics.Templates.clone_field_decl
    dux_lang.Generics.Expand.add_copy dux_lang.Generics.Fix.fix_class dux_lang.Generics.Fix.fix_decl
    dux_lang.Generics.Fix.fix_decls dux_lang.Generics.Fix.fix_member
    dux_lang.Generics.Fix.fix_members dux_lang.Generics.Fix.fix_stmts
    dux_lang.Generics.FixTypes.fix_te dux_lang.Generics.FixTypes.name_te
    dux_lang.Generics.mangle_generic subst_te dux_lang.Generics.Clone.clone_value
work_ends = refl

two_instances : names_of worked.new_decls ≡ "Box__int" ∷ "Box__Box__int" ∷ []
unfolding work_list dux_lang.Generics.Expand.work_step dux_lang.Generics.Expand.template_of find
    collect_templates dux_lang.Prelude.Tables.assign dux_lang.Generics.Expand.instantiate
    dux_lang.Generics.Expand.class_template check_bounds dux_lang.Generics.Expand.bind_params
    dux_lang.Generics.Expand.ast_satisfies_bound dux_lang.Generics.Expand.declares_bound
    dux_lang.Generics.Templates.clone_class_decl dux_lang.Generics.Clone.◌>>=◌
    dux_lang.Generics.Clone.fresh dux_lang.Generics.Templates.clone_members
    dux_lang.Generics.Templates.clone_member dux_lang.Generics.Templates.clone_field_decl
    dux_lang.Generics.Expand.add_copy dux_lang.Generics.Fix.fix_class dux_lang.Generics.Fix.fix_decl
    dux_lang.Generics.Fix.fix_decls dux_lang.Generics.Fix.fix_member
    dux_lang.Generics.Fix.fix_members dux_lang.Generics.Fix.fix_stmts
    dux_lang.Generics.FixTypes.fix_te dux_lang.Generics.FixTypes.name_te
    dux_lang.Generics.mangle_generic subst_te dux_lang.Generics.Clone.clone_value
two_instances = refl

work_list-IsSound_example : DistinctNames (names_of worked.new_decls) × AllConcrete worked.new_decls
work_list-IsSound_example = work_list-IsSound 4 found boxes.decls waiting worked refl work_ends

-- `Box` does not declare `Show`.
abbrev box_for_t : SubstMap
box_for_t = ("T", te "Box") ∷ []

check_bounds-unmet_example :
    let n = 19 + unmet boxes.decls box_for_t shown in
    let (d', throws) =
      check_bounds (at 3) boxes.decls box_for_t shown (record { error_count = 19; log = [] }) in
    (throws ≡ leb max_errors n) × (d'.error_count ≡ (if leb max_errors n then max_errors else n))
check_bounds-unmet_example =
    check_bounds-unmet (at 3) boxes.decls box_for_t shown (record { error_count = 19; log = [] })
      (omega arith)

one_unmet : unmet boxes.decls box_for_t shown ≡ 1
unfolding unmet find
one_unmet = refl

abbrev int_for_t : SubstMap
int_for_t = ("T", te "int") ∷ []

int_or_none :
    (b : Bool) (x : TypeExpr) → (if b then some (te "int") else none) ≡ some x → te "int" ≡ x
int_or_none true x e = cc
int_or_none false x e = cc

int_is_Free : (x : String) (t : TypeExpr) → find x int_for_t ≡ some t → Free int_for_t t
unfolding find Free
int_is_Free x t e = subst (Free int_for_t) (int_or_none ("T" == x) t e) (refl, tt, tt)

subst_te-Free_example :
    Free int_for_t (subst_te int_for_t (te_of "Box" (te "T")))
    × (subst_te int_for_t (subst_te int_for_t (te_of "Box" (te "T")))
        ≡ subst_te int_for_t (te_of "Box" (te "T")))
subst_te-Free_example = subst_te-Free int_for_t int_is_Free (te_of "Box" (te "T"))
