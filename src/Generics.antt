-- ===== src/Generics.antt =====
-- src/sema/generics.cpp: the names of instantiations and the substitution of type parameters. The
-- children hold the copy of a template (Clone), the walk that replaces `Stack<int>` by its name
-- and notes what to instantiate (Fix), and the work-list (Expand).
pub mod Clone
pub mod Templates
pub mod FixTypes
pub mod Fix
pub mod Expand
pub mod Plain
pub mod Rounds
pub mod Copies
pub mod Instances
pub mod Unmet
pub mod Bounds
pub mod Substitution
pub mod Stripped
pub mod Collected
pub mod Result
use Prim.Native.String.{◌++◌ as ◌⧺◌}
use dux_lang.Prelude.{
  String, Bool, true, false, not, ◌&&◌, ◌||◌, Option, some, none, ◌==◌, if◌then◌else◌,
}
use dux_lang.Prelude.Tables.{Table, find}
use dux_lang.Ast.{TypeExpr, TypeExprs, type_expr}

abbrev pub has_args : TypeExprs → Bool
has_args TypeExprs.nil = false
has_args (TypeExprs.cons t ts) = true

-- What one argument adds to the name.
unfoldable mutual
  pub mangle_arg : TypeExpr → String
  mangle_arg (type_expr name is_const loc fn_params fn_ret type_args) =
      mangle_generic name type_args

  pub mangle_generic : String → TypeExprs → String
  mangle_generic name TypeExprs.nil = name
  mangle_generic name (TypeExprs.cons t ts) = mangle_generic (name ⧺ ("__" ⧺ mangle_arg t)) ts

-- The parameters of a template and the types that stand for them.
abbrev pub SubstMap : Type 0
SubstMap = Table TypeExpr

abbrev pub or_const : Bool → TypeExpr → TypeExpr
or_const c (type_expr name is_const loc fn_params fn_ret type_args) =
    type_expr name (is_const || c) loc fn_params fn_ret type_args

unfoldable mutual
  pub subst_te : SubstMap → TypeExpr → TypeExpr
  subst_te s (type_expr name is_const loc fn_params fn_ret type_args) =
      let rest =
        type_expr name is_const loc (subst_tes s fn_params) fn_ret (subst_tes s type_args) in
      if not (name == "__fn") && not (has_args type_args)
      then elim (find name s) [ some te ↦ or_const is_const te | none ↦ rest ]
      else rest

  pub subst_tes : SubstMap → TypeExprs → TypeExprs
  subst_tes s TypeExprs.nil = TypeExprs.nil
  subst_tes s (TypeExprs.cons t ts) = TypeExprs.cons (subst_te s t) (subst_tes s ts)
