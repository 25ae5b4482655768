-- ===== src/Sema/Hoist.antt =====
-- Pass 1 of src/sema/sema.cpp: hoist_top and the functions that it calls.
-- hoist_namespace lists a scope's hash map in an unspecified order. Here it is the order of the
-- definitions; another order changes the result only where a qualified and a plain name coincide.
use Prim.Native.String.{◌++◌ as ◌⧺◌}
use dux_lang.Prelude.{ℕ, ◌+◌, String, true, false, not, some, List, [], ◌∷◌, map, if◌then◌else◌}
use dux_lang.Prelude.Tables.{Table}
use dux_lang.Types.{
  TypeId, TypeKind, TypeRegistry, EnumVariantInfo, kind_eq, id_eq, tid_unknown, tid_object, info,
  update_info, intern, from_name, set_parent, add_interface,
}
use dux_lang.Symbol.{Symbol, SymKind, symbol, define_global, current_scope}
use dux_lang.Ast.{Param}
use dux_lang.Ast.Declarations.{
  FunctionDecl, BaseClass, ClassDecl, InterfaceDecl, ExternDecl, EnumVariant, EnumDecl, Decl, Decls,
}
use dux_lang.Ast.Views.{te_name, te_list}
use dux_lang.Diagnostics.{
  function_redeclared, enum_redeclared, class_redeclared, interface_redeclared,
}
use dux_lang.Sema.{
  M, done, pure, ◌>>=◌, ◌>>◌, gets, skip, when, on_types, err, define_symbol, in_scope,
  type_from_te,
}

-- An action that only writes to the registry.
abbrev pub change_types : (TypeRegistry → TypeRegistry) → M (Unit {0})
change_types f = on_types (λ r. (tt, f r))

-- `scopes_.global_scope().define(...)`, whose answer no caller uses.
unfoldable pub define_in_global : String → Symbol → M (Unit {0})
define_in_global name sym s = done tt (record s { scopes = define_global name sym s.scopes })

-- The loop that fills `params` of a symbol.
unfoldable pub param_types : List Param → M (List (String × TypeId))
param_types [] = pure []
param_types (p ∷ ps) = do t ← type_from_te p.type; rest ← param_types ps; pure ((p.name, t) ∷ rest)

-- Variants are numbered from `tag`.
unfoldable pub variant_infos : TypeRegistry → ℕ → List EnumVariant → List EnumVariantInfo
variant_infos r tag [] = []
variant_infos r tag (v ∷ vs) =
    record {
      name = v.name;
      tag = tag;
      payload = map (λ t. from_name r (te_name t)) (te_list v.payload);
    }
    ∷ variant_infos r (tag + 1) vs

unfoldable pub define_variants : String → TypeId → List EnumVariant → M (Unit {0})
define_variants enum id [] = skip
define_variants enum id (v ∷ vs) = do
  let name = enum ⧺ ("." ⧺ v.name)
  define_in_global name (record (symbol name SymKind.var id) { is_const = true; loc = v.loc })
  define_variants enum id vs

unfoldable pub hoist_enum : EnumDecl → M (Unit {0})
hoist_enum e = do
  id ← on_types (intern e.name TypeKind.enum)
  change_types (λ r. update_info (λ ti. record ti { variants = variant_infos r 0 e.variants }) id r)
  define_variants e.name id e.variants
  let sym = record (symbol e.name SymKind.class id) {
    decl = some (Decl.enum_decl e);
    loc = e.node.loc;
  }
  fresh ← define_symbol e.name sym
  when (not fresh) (err e.node.loc (enum_redeclared e.name))

unfoldable pub hoist_extern : ExternDecl → M (Unit {0})
hoist_extern e = do
  ret ← type_from_te e.ret
  params ← param_types e.params
  let sym = record (symbol e.name SymKind.function ret) {
    return_type = ret;
    params = params;
    loc = e.node.loc;
  }
  define_symbol e.name sym
  skip

-- The loop over the bases that registers interfaces.
unfoldable pub add_interfaces : TypeId → List BaseClass → TypeRegistry → TypeRegistry
add_interfaces id [] r = r
add_interfaces id (b ∷ bs) r =
    let base = from_name r b.name in
    add_interfaces id bs (
      if id_eq base tid_unknown
      then r
      else if kind_eq (info r base).kind TypeKind.interface
      then add_interface id base r
      else r)

-- The parent is the first base, `object` if it is not known.
unfoldable pub wire_bases : TypeId → List BaseClass → TypeRegistry → TypeRegistry
unfolding add_interfaces
wire_bases id [] r = r
wire_bases id (b ∷ bs) r =
    let parent = from_name r b.name in
    add_interfaces id (b ∷ bs)
      (set_parent id (if id_eq parent tid_unknown then tid_object else parent) r)

unfoldable pub hoist_class : ClassDecl → M (Unit {0})
unfolding wire_bases
hoist_class c = do
  id ← on_types (intern c.name TypeKind.class)
  change_types (wire_bases id c.bases)
  let sym = record (symbol c.name SymKind.class id) {
    decl = some (Decl.class_decl c);
    loc = c.node.loc;
  }
  fresh ← define_symbol c.name sym
  when (not fresh) (err c.node.loc (class_redeclared c.name))

unfoldable pub hoist_interface : InterfaceDecl → M (Unit {0})
hoist_interface i = do
  id ← on_types (intern i.name TypeKind.interface)
  let sym = record (symbol i.name SymKind.interface id) {
    decl = some (Decl.interface_decl i);
    loc = i.node.loc;
  }
  fresh ← define_symbol i.name sym
  when (not fresh) (err i.node.loc (interface_redeclared i.name))

-- The FunctionDecl branch of hoist_top.
unfoldable pub hoist_function : FunctionDecl → M (Unit {0})
hoist_function f = do
  ret ← type_from_te f.return_type
  params ← param_types f.params
  let sym = record (symbol f.name SymKind.function ret) {
    return_type = ret;
    params = params;
    decl = some (Decl.func f);
    loc = f.node.loc;
    is_async = f.is_async;
  }
  fresh ← define_symbol f.name sym
  when (not fresh) (err f.node.loc (function_redeclared f.name))

-- Each symbol of a namespace goes to the global scope under its qualified and its plain name.
unfoldable pub promote : String → Table Symbol → M (Unit {0})
promote ns [] = skip
promote ns ((name, sym) ∷ rest) = do
  let qualified = ns ⧺ ("." ⧺ name)
  define_in_global qualified (record sym { name = qualified })
  define_in_global name sym
  promote ns rest

unfoldable mutual
  pub hoist_decl : Decl → M (Unit {0})
  hoist_decl (Decl.class_decl c) = hoist_class c
  hoist_decl (Decl.interface_decl i) = hoist_interface i
  hoist_decl (Decl.enum_decl e) = hoist_enum e
  hoist_decl (Decl.namespace_decl n name decls stmts is_package_decl) =
      if is_package_decl then skip else do
        define_symbol name (record (symbol name SymKind.namespace tid_unknown) {
          decl = some (Decl.namespace_decl n name decls stmts is_package_decl);
          loc = n.loc;
        })
        in_scope false
            (do hoist_top decls; sc ← gets (λ s. current_scope s.scopes); promote name sc.symbols)
  hoist_decl (Decl.func f) = hoist_function f
  hoist_decl (Decl.extern_decl e) = hoist_extern e
  hoist_decl (Decl.import_decl i) = skip
  hoist_decl (Decl.field_decl f) = skip

  pub hoist_top : Decls → M (Unit {0})
  hoist_top Decls.nil = skip
  hoist_top (Decls.cons d ds) = do hoist_decl d; hoist_top ds
