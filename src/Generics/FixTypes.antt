-- ===== src/Generics/FixTypes.antt =====
-- The walk of src/sema/generics.cpp that gives each type with arguments its mangled name, in place,
-- and notes what is to be instantiated: fix_te to fix_decl. `done` holds the names that are
-- instantiated already, and is not changed by the walk. The vector `pending` is pushed to and
-- popped from at its end: it is a list with the end first. Here are the types, in Fix the trees.
use dux_lang.Prelude.{String, Bool, Option, some, none, List, [], ◌∷◌, if◌then◌else◌}
use dux_lang.Ast.{SourceLoc, TypeExpr, TypeExprs, type_expr, Param}
use dux_lang.Prelude.Tables.{mem_name}
use dux_lang.Generics.{mangle_generic}

pub record InstKey : Type 0 where
  pub generic_name : String
  pub type_args : TypeExprs
  pub mangled : String
  pub loc : SourceLoc

-- What the walk gives: the tree as it is now, and what is pending.
abbrev pub Walked : Type 0 → Type 0
Walked A = List InstKey → A × List InstKey

-- The end of fix_te, for a type whose parts are walked.
unfoldable pub name_te :
    List String → String → Bool → SourceLoc → TypeExprs → String → TypeExprs → Walked TypeExpr
name_te done name is_const loc fn_params fn_ret TypeExprs.nil p =
    (type_expr name is_const loc fn_params fn_ret TypeExprs.nil, p)
name_te done name is_const loc fn_params fn_ret (TypeExprs.cons t ts) p =
    let mangled = mangle_generic name (TypeExprs.cons t ts) in
    let key : InstKey = record {
      generic_name = name;
      type_args = TypeExprs.cons t ts;
      mangled = mangled;
      loc = loc;
    } in
    (
      type_expr mangled is_const loc fn_params fn_ret TypeExprs.nil,
      if mem_name mangled done then p else key ∷ p,
    )

unfoldable mutual
  pub fix_te : List String → TypeExpr → Walked TypeExpr
  fix_te done (type_expr name is_const loc fn_params fn_ret type_args) p =
      let (args, p1) = fix_tes done type_args p in
      let (params, p2) = fix_tes done fn_params p1 in
      name_te done name is_const loc params fn_ret args p2

  pub fix_tes : List String → TypeExprs → Walked TypeExprs
  fix_tes done TypeExprs.nil p = (TypeExprs.nil, p)
  fix_tes done (TypeExprs.cons t ts) p =
      let (t', p1) = fix_te done t p in
      let (ts', p2) = fix_tes done ts p1 in (TypeExprs.cons t' ts', p2)

unfoldable pub fix_params : List String → List Param → Walked (List Param)
fix_params done [] p = ([], p)
fix_params done (x ∷ xs) p =
    let (t, p1) = fix_te done x.type p in
    let (xs', p2) = fix_params done xs p1 in (record x { type = t } ∷ xs', p2)

unfoldable pub fix_option : List String → Option TypeExpr → Walked (Option TypeExpr)
fix_option done none p = (none, p)
fix_option done (some te) p = let (te', p') = fix_te done te p in (some te', p')
