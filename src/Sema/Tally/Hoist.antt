-- ===== src/Sema/Tally/Hoist.antt =====
-- Pass 1 leaves the counts of the analyser and of the driver in step.
use dux_lang.Prelude.{String, Bool, List, [], ◌∷◌}
use dux_lang.Prelude.Tables.{Table}
use dux_lang.Types.{TypeId}
use dux_lang.Symbol.{Symbol}
use dux_lang.Ast.{Param}
use dux_lang.Ast.Declarations.{
  FunctionDecl, ClassDecl, InterfaceDecl, ExternDecl, EnumVariant, EnumDecl, Decl, Decls,
}
use dux_lang.Sema.Frame.{Keeps, Keeps-pure, ◌⟫◌, keeps_rules}
use dux_lang.Sema.FrameParts.{part_rules, Keeps-type_from_te}
use dux_lang.Sema.Hoist.{
  param_types, define_variants, hoist_enum, hoist_extern, hoist_class, hoist_interface,
  hoist_function, promote, hoist_decl, hoist_top,
}
use dux_lang.Sema.Tally.{
  Tally, Tally-quiet, Tally-bind, Tally-if, Tally-in_scope, Tally-define_in_global, tally_rules,
}

pub Keeps-param_types : (ps : List Param) → Keeps (param_types ps)
unfolding param_types
Keeps-param_types [] = Keeps-pure []
Keeps-param_types (p ∷ ps) =
    Keeps-type_from_te p.type ⟫ λ t. Keeps-param_types ps ⟫ λ rest. Keeps-pure ((p.name, t) ∷ rest)

module _ {b : Bool} where
  Tally-define_variants :
      (enum : String) (id : TypeId) (vs : List EnumVariant) → Tally b 0 (define_variants enum id vs)
  unfolding define_variants
  Tally-define_variants enum id [] = Tally-quiet _ (Keeps-pure tt)
  Tally-define_variants enum id (v ∷ vs) =
      Tally-bind _ _ (Tally-define_in_global _ _) (λ _. Tally-define_variants enum id vs)

  Tally-hoist_enum : (e : EnumDecl) → Tally b 0 (hoist_enum e)
  unfolding hoist_enum
  Tally-hoist_enum e = search (keeps_rules, tally_rules, Tally-define_variants) depth 20

  Tally-hoist_extern : (e : ExternDecl) → Tally b 0 (hoist_extern e)
  unfolding hoist_extern
  Tally-hoist_extern e = Tally-quiet _ (search (part_rules, Keeps-param_types) depth 20)

  Tally-hoist_class : (c : ClassDecl) → Tally b 0 (hoist_class c)
  unfolding hoist_class
  Tally-hoist_class c = search (keeps_rules, tally_rules) depth 20

  Tally-hoist_interface : (i : InterfaceDecl) → Tally b 0 (hoist_interface i)
  unfolding hoist_interface
  Tally-hoist_interface i = search (keeps_rules, tally_rules) depth 20

  Tally-hoist_function : (f : FunctionDecl) → Tally b 0 (hoist_function f)
  unfolding hoist_function
  Tally-hoist_function f = Tally-quiet _ (search (part_rules, Keeps-param_types) depth 20)

  Tally-promote : (ns : String) (table : Table Symbol) → Tally b 0 (promote ns table)
  unfolding promote
  Tally-promote ns [] = Tally-quiet _ (Keeps-pure tt)
  Tally-promote ns ((name, sym) ∷ rest) =
      Tally-bind _ _ (Tally-define_in_global _ _)
        λ _. Tally-bind _ _ (Tally-define_in_global _ _) (λ _. Tally-promote ns rest)

mutual
  unfolding hoist_decl

  hoist_decl-Tally : (b : Bool) (d : Decl) → Tally b 0 (hoist_decl d)
  hoist_decl-Tally b (Decl.class_decl c) = Tally-hoist_class c
  hoist_decl-Tally b (Decl.interface_decl i) = Tally-hoist_interface i
  hoist_decl-Tally b (Decl.enum_decl e) = Tally-hoist_enum e
  hoist_decl-Tally b (Decl.namespace_decl n name ds ss pkg) =
      Tally-if _ _ _ (Tally-quiet _ (Keeps-pure tt)) (
        Tally-bind _ _ (Tally-quiet _ (search keeps_rules)) λ _. Tally-in_scope _ _ (
          Tally-bind _ _ (hoist_top-Tally b ds)
            λ _. search (keeps_rules, tally_rules, Tally-promote)))
  hoist_decl-Tally b (Decl.func f) = Tally-hoist_function f
  hoist_decl-Tally b (Decl.extern_decl e) = Tally-hoist_extern e
  hoist_decl-Tally b (Decl.import_decl i) = Tally-quiet _ (Keeps-pure tt)
  hoist_decl-Tally b (Decl.field_decl f) = Tally-quiet _ (Keeps-pure tt)

  hoist_top-Tally : (b : Bool) (ds : Decls) → Tally b 0 (hoist_top ds)
  hoist_top-Tally b Decls.nil = Tally-quiet _ (Keeps-pure tt)
  hoist_top-Tally b (Decls.cons d ds) =
      Tally-bind _ _ (hoist_decl-Tally b d) (λ _. hoist_top-Tally b ds)

pub Tally-hoist_top : (b : Bool) (ds : Decls) → Tally b 0 (hoist_top ds)
Tally-hoist_top b ds = hoist_top-Tally b ds
