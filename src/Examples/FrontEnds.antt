-- ===== src/Examples/FrontEnds.antt =====
-- Runs of the two passes of src/main.cpp together.
use dux_lang.Prelude.{String, ℕ, zero, suc, ◌≡◌, refl, Bool, true, false, List, [], ◌∷◌, arith}
use dux_lang.Ast.{
  Stmt, no_stmts, stmt_then, no_expr, no_inits, init_then, TypeExpr, TypeExprs, type_expr,
}
use dux_lang.Ast.Declarations.{Decl, Decls, Program}
use dux_lang.Diagnostics.{Driver}
use dux_lang.FrontEnd.{
  FrontEnd, accepted, rejected, uncaught, crashes, expands_on, analyses_on, front_end,
}
use dux_lang.Examples.{at, node, te, plain, class_of, program, fresh_driver}

-- class Box<T : Show> { }
abbrev bounded_box : Decl
bounded_box = Decl.class_decl (record {
  node = node 1;
  decorators = [];
  name = "Box";
  type_params = "T" ∷ [];
  type_bounds = record { param = "T"; interface_name = "Show" } ∷ [];
  bases = [];
  members = [];
})

abbrev box_of : String → TypeExpr
box_of name = type_expr "Box" false (at 3) TypeExprs.nil "" (TypeExprs.cons (te name) TypeExprs.nil)

-- class Plain { }  Box<Plain> b;
abbrev unmet_program : Program
unmet_program = program (Decls.cons bounded_box (Decls.cons (class_of "Plain" [] []) Decls.nil)) (
    stmt_then (Stmt.var_decl (node 3) (box_of "Plain") plain (init_then "b" no_expr no_inits))
      no_stmts)

-- The errors of the driver in a program that goes to the code generator.
abbrev errors_kept : FrontEnd → ℕ
errors_kept (accepted p s) = s.driver.error_count
errors_kept (rejected s) = 100
errors_kept (uncaught d) = 100
errors_kept crashes = 100
errors_kept expands_on = 100
errors_kept analyses_on = 100

unmet_is_accepted : errors_kept (front_end 5 unmet_program fresh_driver 10) ≡ 1
unfolding dux_lang.Prelude.Tables.find dux_lang.Prelude.Tables.assign
    dux_lang.Prelude.Tables.emplace dux_lang.Diagnostics.driver_error dux_lang.Symbol.lookup_local
    dux_lang.Symbol.define_local dux_lang.Symbol.push dux_lang.Symbol.pop dux_lang.Symbol.define
    dux_lang.Symbol.define_global dux_lang.Generics.mangle_generic dux_lang.Generics.subst_te
    dux_lang.Generics.Clone.fresh dux_lang.Generics.Clone.clone_expr
    dux_lang.Generics.Templates.clone_members dux_lang.Generics.Templates.clone_class_decl
    dux_lang.Generics.Templates.clone_generic_func dux_lang.Generics.FixTypes.name_te
    dux_lang.Generics.FixTypes.fix_te dux_lang.Generics.FixTypes.fix_tes
    dux_lang.Generics.Fix.fix_expr dux_lang.Generics.Fix.fix_exprs dux_lang.Generics.Fix.fix_members
    dux_lang.Generics.Fix.fix_class dux_lang.Generics.Fix.fix_decl dux_lang.Generics.Fix.fix_decls
    dux_lang.Generics.Expand.declares_bound dux_lang.Generics.Expand.ast_satisfies_bound
    dux_lang.Generics.Expand.collect dux_lang.Generics.Expand.collect_templates
    dux_lang.Generics.Expand.bind_params dux_lang.Generics.Expand.check_bounds
    dux_lang.Generics.Expand.class_template dux_lang.Generics.Expand.func_template
    dux_lang.Generics.Expand.template_of dux_lang.Generics.Expand.add_copy
    dux_lang.Generics.Expand.instantiate dux_lang.Generics.Expand.work_step
    dux_lang.Generics.Expand.work_list dux_lang.Generics.Expand.without_templates
    dux_lang.Generics.Expand.strip_namespaces dux_lang.Generics.Expand.prepend
    dux_lang.Generics.Expand.expand_generics dux_lang.Sema.pure dux_lang.Sema.◌>>=◌
    dux_lang.Sema.gets dux_lang.Sema.ask dux_lang.Sema.on_types dux_lang.Sema.define_symbol
    dux_lang.Sema.set_type_id dux_lang.Sema.set_inferred_ret dux_lang.Sema.in_scope
    dux_lang.Sema.within_class dux_lang.Sema.join dux_lang.Sema.fn_type dux_lang.Sema.type_from_te
    dux_lang.Sema.Hoist.wire_bases dux_lang.Sema.Hoist.hoist_class dux_lang.Sema.Hoist.hoist_top
    dux_lang.Sema.Operators.op_methods dux_lang.Sema.Steps.call_type dux_lang.Sema.Steps.define_var
    dux_lang.Sema.Steps.declare dux_lang.Sema.Steps.initialised_type dux_lang.Sema.Check.check_arms
    dux_lang.Sema.Declarations.define_self dux_lang.Sema.Declarations.check_bases
    dux_lang.Sema.Declarations.defined_methods dux_lang.Sema.Declarations.check_contract
    dux_lang.Sema.Declarations.check_contracts dux_lang.Sema.Declarations.define_members
    dux_lang.Sema.Declarations.check_field dux_lang.Sema.Declarations.check_members
    dux_lang.Sema.Declarations.check_class dux_lang.Sema.Declarations.check_decl_list
    dux_lang.Sema.Run.builtin dux_lang.Sema.Run.builtin_class dux_lang.Sema.Run.builtin_scope
    dux_lang.Sema.Run.start dux_lang.Sema.Run.run dux_lang.Sema.Run.check_decls
    dux_lang.FrontEnd.front_end
unmet_is_accepted = refl
