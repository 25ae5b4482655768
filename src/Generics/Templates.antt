-- ===== src/Generics/Templates.antt =====
-- The copies of declarations in src/sema/generics.cpp: clone_func_decl, clone_field_decl,
-- clone_class_decl and clone_generic_func. A copy starts with the defaults of the struct, so what
-- is not copied (is_static, is_async, the type parameters of a method, decorators) is off or empty.
use dux_lang.Prelude.{String, false, ◌||◌, Option, some, none, List, [], ◌∷◌, if◌then◌else◌}
use dux_lang.Ast.{Stmts}
use dux_lang.Ast.Declarations.{
  InitEntry, FunctionDecl, FieldDecl, MemberDecl, ClassMember, ClassDecl,
}
use dux_lang.Generics.{SubstMap, subst_te}
use dux_lang.Generics.Clone.{
  Copy, copied, ◌>>=◌, fresh, subst_params, clone_exprs, clone_value, clone_stmts,
}

unfoldable pub clone_entries : SubstMap → List InitEntry → Copy (List InitEntry)
clone_entries s [] = copied []
clone_entries s (ie ∷ ies) = do
  args ← clone_exprs s ie.args
  rest ← clone_entries s ies
  copied (record { field = ie.field; args = args } ∷ rest)

unfoldable pub clone_body : SubstMap → Option Stmts → Copy (Option Stmts)
clone_body s none = copied none
clone_body s (some ss) = do ss' ← clone_stmts s ss; copied (some ss')

unfoldable pub clone_func_decl : SubstMap → FunctionDecl → Copy FunctionDecl
clone_func_decl s f = do
  n ← fresh f.node
  init_list ← clone_entries s f.init_list
  body ← clone_body s f.body
  copied (record {
    node = n;
    return_type = subst_te s f.return_type;
    name = f.name;
    type_params = [];
    type_bounds = [];
    params = subst_params s f.params;
    modifier = f.modifier;
    body = body;
    is_ctor = f.is_ctor;
    is_dtor = f.is_dtor;
    is_static = false;
    is_async = false;
    init_list = init_list;
  })

unfoldable pub clone_field_decl : SubstMap → FieldDecl → Copy FieldDecl
clone_field_decl s f = do
  n ← fresh f.node
  init ← clone_value s f.init
  copied
      (record { node = n; type = subst_te s f.type; name = f.name; init = init; is_static = false })

-- A constructor or destructor takes the name of the instantiated class.
abbrev pub renamed : String → FunctionDecl → FunctionDecl
renamed new_name f = if f.is_ctor || f.is_dtor then record f { name = new_name } else f

unfoldable pub clone_member : String → SubstMap → MemberDecl → Copy MemberDecl
unfolding ◌>>=◌
clone_member new_name s (MemberDecl.method f) = do
  f' ← clone_func_decl s f
  copied (MemberDecl.method (renamed new_name f'))
clone_member new_name s (MemberDecl.field f) = do
  f' ← clone_field_decl s f
  copied (MemberDecl.field f')
clone_member new_name s MemberDecl.empty = copied MemberDecl.empty

unfoldable pub clone_members : String → SubstMap → List ClassMember → Copy (List ClassMember)
clone_members new_name s [] = copied []
clone_members new_name s (m ∷ ms) = do
  d ← clone_member new_name s m.decl
  rest ← clone_members new_name s ms
  copied (record { access = m.access; decorators = []; decl = d } ∷ rest)

unfoldable pub clone_class_decl : ClassDecl → String → SubstMap → Copy ClassDecl
clone_class_decl c new_name s = do
  n ← fresh c.node
  members ← clone_members new_name s c.members
  copied (record {
    node = n;
    decorators = [];
    name = new_name;
    type_params = [];
    type_bounds = [];
    bases = c.bases;
    members = members;
  })

unfoldable pub clone_generic_func : FunctionDecl → String → SubstMap → Copy FunctionDecl
clone_generic_func f new_name s = do
  f' ← clone_func_decl s f
  copied (record f' { name = new_name; type_params = []; type_bounds = [] })
