-- ===== src/Generics/Unmet.antt =====
-- Which type bounds do not hold, told apart from the test of src/sema/generics.cpp (ast_satisfies_bound)
-- and compared with it.
use dux_lang.Prelude.{
  ℕ, ◌+◌, String, Bool, true, false, not, ◌&&◌, ◌==◌, ◌≡◌, refl, Option, some, none, List, [], ◌∷◌,
  map, if◌then◌else◌, arith, Bool-cases, inl, inr,
}
use dux_lang.Prelude.Tables.{find, mem_name}
use dux_lang.Ast.Views.{te_name}
use dux_lang.Ast.Declarations.{TypeBound, BaseClass, ClassDecl, Decl, Decls}
use dux_lang.Generics.{SubstMap}
use dux_lang.Generics.Expand.{has_base, declares_bound, ast_satisfies_bound}

-- The first class of this name among the declarations, those of namespaces left out.
abbrev pub first_class : String → Decls → Option ClassDecl
first_class name Decls.nil = none
first_class name (Decls.cons d ds) =
    let rest = first_class name ds in
    elim d [ Decl.class_decl c ↦ if c.name == name then some c else rest | other ↦ rest ]

-- The first class of this name at the top of the program does not have the interface among its bases. A
-- type that is no such class (a built-in one, a class of a namespace, an instance of a template) is
-- taken to lack nothing, and nobody lacks an interface with no name.
abbrev pub lacks : Decls → String → String → Bool
lacks decls type interface_name = not (interface_name == "") && elim (first_class type decls) [
  | none ↦ false
  | some c ↦ not (mem_name interface_name (map (λ (b : BaseClass). b.name) c.bases))
]

-- The parameter stands for a type that lacks the interface.
abbrev pub is_unmet : Decls → SubstMap → TypeBound → Bool
is_unmet decls s b = elim (find b.param s) [
  | none ↦ false
  | some te ↦ lacks decls (te_name te) b.interface_name
]

unfoldable pub unmet : Decls → SubstMap → List TypeBound → ℕ
unmet decls s [] = 0
unmet decls s (b ∷ bs) =
    let rest = unmet decls s bs in if is_unmet decls s b then 1 + rest else rest

has_base_lem :
    (name : String) (bs : List BaseClass)
    → has_base name bs ≡ mem_name name (map (λ (b : BaseClass). b.name) bs)
has_base_lem name [] = refl
has_base_lem name (b ∷ bs) = ground (arith, has_base_lem name bs)

declares_bound_lem :
    (type interface_name : String) (ds : Decls)
    → declares_bound type interface_name ds ≡ elim (first_class type ds) [
      | none ↦ true
      | some c ↦ mem_name interface_name (map (λ (b : BaseClass). b.name) c.bases)
    ]
unfolding declares_bound
declares_bound_lem type i Decls.nil = refl
declares_bound_lem type i (Decls.cons (Decl.class_decl c) ds) = elim (Bool-cases (c.name == type)) [
  | inl e ↦ rw e (has_base_lem i c.bases)
  | inr e ↦ rw e (declares_bound_lem type i ds)
]
declares_bound_lem type i (Decls.cons (Decl.func f) ds) = declares_bound_lem type i ds
declares_bound_lem type i (Decls.cons (Decl.interface_decl f) ds) = declares_bound_lem type i ds
declares_bound_lem type i (Decls.cons (Decl.import_decl f) ds) = declares_bound_lem type i ds
declares_bound_lem type i (Decls.cons (Decl.namespace_decl n m es ss b) ds) =
    declares_bound_lem type i ds
declares_bound_lem type i (Decls.cons (Decl.extern_decl f) ds) = declares_bound_lem type i ds
declares_bound_lem type i (Decls.cons (Decl.enum_decl f) ds) = declares_bound_lem type i ds
declares_bound_lem type i (Decls.cons (Decl.field_decl f) ds) = declares_bound_lem type i ds

-- The test of the code, against the description.
pub ast_satisfies_bound_lem :
    (type interface_name : String) (ds : Decls)
    → lacks ds type interface_name ≡ not (ast_satisfies_bound type interface_name ds)
unfolding ast_satisfies_bound
ast_satisfies_bound_lem type i ds = ground (arith, declares_bound_lem type i ds)
