-- ===== src/Sema/Members.antt =====
-- check_member of src/sema/sema.cpp, and the table of stdlib return types of check_call.
use dux_lang.Prelude.{
  ℕ, zero, suc, String, Bool, true, false, not, ◌&&◌, ◌||◌, Option, none, some, List, [], ◌∷◌, ◌==◌,
  if◌then◌else◌,
}
use dux_lang.Prelude.Tables.{Table, find}
use dux_lang.Types.{
  TypeId, TypeKind, TypeRegistry, EnumVariantInfo, id_eq, nonneg, kind_eq, tid_unknown, tid_bool,
  tid_int, tid_long, tid_double, tid_str, tid_list, tid_object, info, is_enum, walk_fuel,
}
use dux_lang.Symbol.{SymKind, ScopeStack, sym_kind_eq, global_scope, lookup_local, lookup}
use dux_lang.Ast.{Node, Expr}
use dux_lang.Ast.Declarations.{MemberDecl, ClassMember}
use dux_lang.Ast.Views.{as_ident, as_member, is_this, expr_node}
use dux_lang.Diagnostics.{no_variant, no_member}
use dux_lang.Sema.{
  Sema, M, done, hangs, pure, ◌>>=◌, ◌>>◌, gets, when, err, lookup_symbol, set_type_id,
}
use dux_lang.Sema.Operators.{class_decl_of}

unfoldable pub has_variant : String → List EnumVariantInfo → Bool
has_variant name [] = false
has_variant name (v ∷ vs) = v.name == name || has_variant name vs

-- The enum that an identifier names.
unfoldable pub enum_named : Expr → Sema → Option (String × TypeId)
enum_named object s = elim (as_ident object) [
  | none ↦ none
  | some x ↦ elim (lookup x s.scopes) [
    | none ↦ none
    | some sym ↦
        if sym_kind_eq sym.kind SymKind.class && is_enum s.types sym.type
        then some (x, sym.type)
        else none
  ]
]

-- The first part of check_member, `Color.Red`: `some` is its return value.
unfoldable pub enum_access : Node → Expr → String → M (Option TypeId)
unfolding enum_named has_variant
enum_access n object member = do
  found ← gets (enum_named object)
  reg ← gets (λ s. s.types)
  elim found [
    | none ↦ pure none
    | some (x, enum_tid) ↦
        if has_variant member (info reg enum_tid).variants
        then (do set_type_id (expr_node object).id enum_tid; pure (some enum_tid))
        else do err n.loc (no_variant x member); pure (some tid_unknown)
  ]

-- The local `class_has_member`.
unfoldable pub class_has_member : String → List ClassMember → Bool
class_has_member name [] = false
class_has_member name (m ∷ ms) = elim m.decl [
  | MemberDecl.method f ↦ f.name == name || class_has_member name ms
  | MemberDecl.field f ↦ f.name == name || class_has_member name ms
  | MemberDecl.empty ↦ class_has_member name ms
]

-- What one turn of the walk finds in the class: `none` breaks the loop.
unfoldable pub declares_member : String → String → ScopeStack → Option Bool
unfolding class_has_member
declares_member cls member scopes = elim (lookup_local cls (global_scope scopes)) [
  | none ↦ none
  | some sym ↦ elim (class_decl_of sym) [
    | none ↦ none
    | some c ↦ some (class_has_member member c.members)
  ]
]

-- The loop of check_member up the class hierarchy. The outer `none`: the fuel is out.
unfoldable pub find_member : ℕ → TypeRegistry → ScopeStack → TypeId → String → Option Bool
find_member zero reg scopes cur member = none
find_member (suc fuel) reg scopes cur member =
    let parent = (info reg cur).parent in
    let rest = find_member fuel reg scopes parent member in
    if not (id_eq cur tid_unknown) && nonneg cur && not (id_eq cur tid_object)
    then elim (declares_member (info reg cur).name member scopes) [
      | none ↦ some false
      | some true ↦ some true
      | some false ↦ if id_eq parent cur then some false else rest
    ]
    else some false

unfoldable pub member_exists : TypeId → String → M Bool
member_exists t member s = elim (find_member (walk_fuel s.types) s.types s.scopes t member) [
  | none ↦ hangs
  | some b ↦ done b s
]

-- check_member behind the check of the object
unfoldable pub member_type : Node → Expr → String → TypeId → M TypeId
member_type n object member obj_t = do
  own ← if is_this object then lookup_symbol member else pure none
  reg ← gets (λ s. s.types)
  elim own [
    | some sym ↦ pure sym.type
    | none ↦
        if not (id_eq obj_t tid_unknown)
          && not (id_eq obj_t tid_object)
          && nonneg obj_t
          && kind_eq (info reg obj_t).kind TypeKind.class
        then (do
          found ← member_exists obj_t member
          when (not found) (err n.loc (no_member (info reg obj_t).name member))
          pure tid_unknown)
        else pure tid_unknown
  ]

unfoldable pub stdlib_returns : Table (Table TypeId)
stdlib_returns =
    (
      "math",
      ("sqrt", tid_double)
          ∷ ("pow", tid_double)
          ∷ ("abs", tid_double)
          ∷ ("floor", tid_double)
          ∷ ("ceil", tid_double)
          ∷ ("log", tid_double)
          ∷ ("log2", tid_double)
          ∷ ("sin", tid_double)
          ∷ ("cos", tid_double)
          ∷ ("tan", tid_double)
          ∷ ("min", tid_double)
          ∷ ("max", tid_double)
          ∷ ("abs_i", tid_long)
          ∷ ("min_i", tid_long)
          ∷ ("max_i", tid_long)
          ∷ [],
    )
    ∷ (
      "str",
      ("concat", tid_str)
          ∷ ("from_int", tid_str)
          ∷ ("from_double", tid_str)
          ∷ ("length", tid_long)
          ∷ ("slice", tid_str)
          ∷ ("index", tid_str)
          ∷ ("eq", tid_bool)
          ∷ ("ord", tid_long)
          ∷ ("chr", tid_str)
          ∷ ("cmp", tid_int)
          ∷ ("contains", tid_bool)
          ∷ ("find", tid_long)
          ∷ ("rfind", tid_long)
          ∷ ("starts_with", tid_bool)
          ∷ ("ends_with", tid_bool)
          ∷ ("replace", tid_str)
          ∷ ("replace_all", tid_str)
          ∷ ("to_upper", tid_str)
          ∷ ("to_lower", tid_str)
          ∷ ("trim", tid_str)
          ∷ ("trim_start", tid_str)
          ∷ ("trim_end", tid_str)
          ∷ ("repeat", tid_str)
          ∷ ("split", tid_list)
          ∷ [],
    )
    ∷ ("io", ("readline", tid_str) ∷ [])
    ∷ []

-- The return type that the table gives a callee such as `math.sqrt`.
unfoldable pub stdlib_return : Expr → Option TypeId
stdlib_return callee = elim (as_member callee) [
  | none ↦ none
  | some (object, member) ↦ elim (as_ident object) [
    | none ↦ none
    | some ns ↦ elim (find ns stdlib_returns) [ none ↦ none | some fns ↦ find member fns ]
  ]
]
