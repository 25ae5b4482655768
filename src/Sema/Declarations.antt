-- ===== src/Sema/Declarations.antt =====
-- Pass 2 of src/sema/sema.cpp over declarations: check_decl and the functions that it calls.
use Prim.Native.Char.{code}
use dux_lang.Prelude.{
  String, Bool, true, false, not, ◌&&◌, ◌||◌, Option, none, some, List, [], ◌∷◌, ◌==◌, nat_eq,
  if◌then◌else◌,
}
use dux_lang.Prelude.Tables.{mem_name}
use dux_lang.Types.{TypeId, id_eq, nonneg, tid_unknown, tid_object, info, from_name, set_parent}
use dux_lang.Symbol.{Symbol, SymKind, symbol, sym_kind_eq}
use dux_lang.Ast.{SourceLoc, Param, Stmts, no_expr, an_expr}
use dux_lang.Ast.Declarations.{
  FunctionDecl, FieldDecl, MemberDecl, ClassMember, BaseClass, ClassDecl, InterfaceDecl, ImportDecl,
  Decl, Decls,
}
use dux_lang.Ast.Views.{te_name, te_loc, expr_loc}
use dux_lang.Diagnostics.{
  duplicate_parameter, unknown_base, not_a_base, missing_method, unknown_return_type,
  field_initialiser,
}
use dux_lang.Sema.{
  M, ◌>>=◌, ◌>>◌, gets, skip, when, err, warn, lookup_symbol, define_symbol, in_scope, returning,
  within_class, type_from_te, require_assignable,
}
use dux_lang.Sema.Hoist.{change_types, param_types, hoist_top}
use dux_lang.Sema.Check.{check_expr, check_stmts}

-- `this`, and `super` where the class has a parent.
unfoldable pub define_self : Bool → M (Unit {0})
define_self is_static = do
  name ← gets (λ s. s.current_class_name)
  t ← gets (λ s. s.current_class_type)
  parent ← gets (λ s. (info s.types s.current_class_type).parent)
  when (not (name == "") && not is_static) (do
    define_symbol "this" (symbol "this" SymKind.var t)
    when (not (id_eq parent tid_unknown) && nonneg parent)
        (do define_symbol "super" (symbol "super" SymKind.var parent); skip))

unfoldable pub define_params : List Param → M (Unit {0})
define_params [] = skip
define_params (p ∷ ps) = do
  t ← type_from_te p.type
  fresh ← define_symbol p.name (record (symbol p.name SymKind.param t) { loc = te_loc p.type })
  when (not fresh) (err (te_loc p.type) (duplicate_parameter p.name))
  define_params ps

abbrev pub check_optional : Option Stmts → M (Unit {0})
check_optional none = skip
check_optional (some ss) = check_stmts ss

unfoldable pub check_func : FunctionDecl → M (Unit {0})
check_func f = do
  ret ← type_from_te f.return_type
  in_scope false
      (do define_self f.is_static; define_params f.params; returning ret (check_optional f.body))

abbrev pub is_base_kind : SymKind → Bool
is_base_kind k = sym_kind_eq k SymKind.class || sym_kind_eq k SymKind.interface

-- The loop of check_class that validates the bases, and sets the parent to each in turn.
unfoldable pub check_bases : SourceLoc → TypeId → List BaseClass → M (Unit {0})
check_bases loc class_type [] = skip
check_bases loc class_type (b ∷ bs) = do
  found ← lookup_symbol b.name
  elim found [
    | none ↦ warn loc (unknown_base b.name)
    | some sym ↦
        if is_base_kind sym.kind
        then change_types (set_parent class_type sym.type)
        else warn loc (not_a_base b.name)
  ]
  check_bases loc class_type bs

unfoldable pub defined_methods : List ClassMember → List String
defined_methods [] = []
defined_methods (m ∷ ms) = elim m.decl [
  | MemberDecl.method f ↦
      if f.is_ctor || f.is_dtor then defined_methods ms else f.name ∷ defined_methods ms
  | _ ↦ defined_methods ms
]

-- A method of one interface that the class does not define is an error.
unfoldable pub check_contract : ClassDecl → String → List ClassMember → M (Unit {0})
check_contract c base [] = skip
check_contract c base (m ∷ ms) = do
  elim m.decl [
    | MemberDecl.method f ↦
        when (not (mem_name f.name (defined_methods c.members)))
          (err c.node.loc (missing_method c.name base f.name))
    | _ ↦ skip
  ]
  check_contract c base ms

-- `dynamic_cast<const ast::InterfaceDecl*>(bs->decl)`, for a symbol of kind Interface
abbrev pub interface_decl_of : Symbol → Option InterfaceDecl
interface_decl_of sym =
    if sym_kind_eq sym.kind SymKind.interface
    then elim sym.decl [ some (Decl.interface_decl i) ↦ some i | _ ↦ none ]
    else none

unfoldable pub check_contracts : ClassDecl → List BaseClass → M (Unit {0})
unfolding check_contract
check_contracts c [] = skip
check_contracts c (b ∷ bs) = do
  found ← lookup_symbol b.name
  elim found [
    | none ↦ skip
    | some sym ↦ elim (interface_decl_of sym) [
      | none ↦ skip
      | some i ↦ check_contract c b.name i.members
    ]
  ]
  check_contracts c bs

unfoldable pub define_method : FunctionDecl → M (Unit {0})
define_method f = do
  ret ← type_from_te f.return_type
  params ← param_types f.params
  define_symbol f.name (record (symbol f.name SymKind.function ret) {
    return_type = ret;
    params = params;
    decl = some (Decl.func f);
    loc = f.node.loc;
  })
  skip

unfoldable pub define_field : FieldDecl → M (Unit {0})
define_field f = do
  t ← type_from_te f.type
  define_symbol f.name
      (record (symbol f.name SymKind.var t) { decl = some (Decl.field_decl f); loc = f.node.loc })
  skip

unfoldable pub define_members : List ClassMember → M (Unit {0})
define_members [] = skip
define_members (m ∷ ms) = do
  elim m.decl [
    | MemberDecl.method f ↦ define_method f
    | MemberDecl.field f ↦ define_field f
    | MemberDecl.empty ↦ skip
  ]
  define_members ms

unfoldable pub check_field : FieldDecl → M (Unit {0})
check_field f = elim f.init [
  | no_expr ↦ skip
  | an_expr e ↦ do
    init_t ← check_expr e
    t ← type_from_te f.type
    require_assignable init_t t (expr_loc e) (field_initialiser f.name)
    skip
]

unfoldable pub check_members : List ClassMember → M (Unit {0})
unfolding check_field
check_members [] = skip
check_members (m ∷ ms) = do
  elim m.decl [
    | MemberDecl.method f ↦ check_func f
    | MemberDecl.field f ↦ check_field f
    | MemberDecl.empty ↦ skip
  ]
  check_members ms

unfoldable pub check_class : ClassDecl → M (Unit {0})
check_class c = do
  class_type ← gets (λ s. from_name s.types c.name)
  check_bases c.node.loc class_type c.bases
  check_contracts c c.bases
  within_class c.name class_type
      (in_scope true (do define_members c.members; check_members c.members))

unfoldable pub check_interface_members : List ClassMember → M (Unit {0})
check_interface_members [] = skip
check_interface_members (m ∷ ms) = do
  elim m.decl [
    | MemberDecl.method f ↦ do
      ret ← type_from_te f.return_type
      when (id_eq ret tid_unknown && not (te_name f.return_type == ""))
          (warn f.node.loc (unknown_return_type f.name (te_name f.return_type)))
    | _ ↦ skip
  ]
  check_interface_members ms

unfoldable pub check_interface : InterfaceDecl → M (Unit {0})
unfolding check_interface_members
check_interface i = check_interface_members i.members

-- What stands behind the last dot of a path.
unfoldable pub after_dot : String → Option String
after_dot String.[] = none
after_dot (String.◌∷◌ c s) = elim (after_dot s) [
  | some t ↦ some t
  | none ↦ if nat_eq (code c) b'.' then some s else none
]

unfoldable pub last_component : String → String
unfolding after_dot
last_component path = elim (after_dot path) [ none ↦ path | some t ↦ t ]

abbrev pub is_stdlib : String → Bool
is_stdlib name = name == "math" || name == "str" || name == "io"

unfoldable pub check_import : ImportDecl → M (Unit {0})
unfolding last_component
check_import i = do
  let last = last_component i.path
  let ns_name = if i.alias == "" then last else i.alias
  found ← lookup_symbol ns_name
  when (is_stdlib last) (elim found [
    | some sym ↦ skip
    | none ↦ do define_symbol ns_name (symbol ns_name SymKind.namespace tid_object); skip
  ])

unfoldable mutual
  pub check_decl : Decl → M (Unit {0})
  check_decl (Decl.func f) = check_func f
  check_decl (Decl.class_decl c) = check_class c
  check_decl (Decl.interface_decl i) = check_interface i
  check_decl (Decl.namespace_decl n name decls stmts is_package_decl) =
      if is_package_decl
      then skip
      else in_scope false (do hoist_top decls; check_decl_list decls; check_stmts stmts)
  check_decl (Decl.import_decl i) = check_import i
  check_decl (Decl.enum_decl e) = skip
  check_decl (Decl.extern_decl e) = skip
  check_decl (Decl.field_decl f) = skip

  pub check_decl_list : Decls → M (Unit {0})
  check_decl_list Decls.nil = skip
  check_decl_list (Decls.cons d ds) = do check_decl d; check_decl_list ds
