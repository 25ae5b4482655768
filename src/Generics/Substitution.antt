-- ===== src/Generics/Substitution.antt =====
-- What subst_te of src/sema/generics.cpp makes of a type expression.
use dux_lang.Prelude.{
  absurd_bool, String, Bool, true, false, not, ◌&&◌, ◌≡◌, refl, ap, ◌∙◌, Option, some, none,
  if◌then◌else◌, ◌==◌,
}
use dux_lang.Prelude.Tables.{find, is_some}
use dux_lang.Ast.{TypeExpr, TypeExprs, type_expr}
use dux_lang.Generics.{SubstMap, has_args, or_const, subst_te, subst_tes}

-- A name that may stand for a type: neither `__fn` nor with arguments.
abbrev pub is_plain_name : String → TypeExprs → Bool
is_plain_name name args = not (name == "__fn") && not (has_args args)

-- No parameter of `s` stands in the expression, but perhaps in the return type of a function type.
unfoldable mutual
  pub Free : SubstMap → TypeExpr → Type 0
  Free s (type_expr name is_const loc fn_params fn_ret type_args) =
      ((is_plain_name name type_args && is_some (find name s)) ≡ false)
      × AllFree s fn_params
      × AllFree s type_args

  pub AllFree : SubstMap → TypeExprs → Type 0
  AllFree s TypeExprs.nil = Unit
  AllFree s (TypeExprs.cons t ts) = Free s t × AllFree s ts

or_const-Free : (s : SubstMap) (c : Bool) (te : TypeExpr) → Free s te → Free s (or_const c te)
unfolding Free
or_const-Free s c (type_expr name is_const loc fn_params fn_ret type_args) h = h

has_args-subst_tes : (s : SubstMap) (ts : TypeExprs) → has_args (subst_tes s ts) ≡ has_args ts
unfolding subst_tes
has_args-subst_tes s TypeExprs.nil = refl
has_args-subst_tes s (TypeExprs.cons t ts) = refl

found-Free :
    (s : SubstMap) (c b : Bool) (o : Option TypeExpr) (rest : TypeExpr)
    → ((te : TypeExpr) → o ≡ some te → Free s te)
    → ((b && is_some o) ≡ false → Free s rest)
    → Free s (if b then elim o [ some te ↦ or_const c te | none ↦ rest ] else rest)
found-Free s c true (some te) rest h g = or_const-Free s c te (h te refl)
found-Free s c true none rest h g = g refl
found-Free s c false o rest h g = g refl

module _ (s : SubstMap)
    (concrete : (x : String) (te : TypeExpr) → find x s ≡ some te → Free s te) where
  mutual
    unfolding subst_te subst_tes Free

    subst-Free : (te : TypeExpr) → Free s (subst_te s te)
    subst-Free (type_expr name is_const loc fn_params fn_ret type_args) =
        found-Free s is_const (is_plain_name name type_args) (find name s) _ (concrete name)
          λ absent. (
            ap (λ b. (not (name == "__fn") && not b) && is_some (find name s))
                  (has_args-subst_tes s type_args)
                ∙ absent,
            substs_free fn_params,
            substs_free type_args,
          )

    substs_free : (ts : TypeExprs) → AllFree s (subst_tes s ts)
    substs_free TypeExprs.nil = tt
    substs_free (TypeExprs.cons t ts) = (subst-Free t, substs_free ts)

found_same :
    (c b : Bool) (o : Option TypeExpr) (rest : TypeExpr)
    → (b && is_some o) ≡ false
    → (if b then elim o [ some te ↦ or_const c te | none ↦ rest ] else rest) ≡ rest
found_same c true (some te) rest h = elim (absurd_bool refl h) [ ]
found_same c true none rest h = refl
found_same c false o rest h = refl

module _ (s : SubstMap) where
  mutual
    unfolding subst_te subst_tes Free

    subst_same : (te : TypeExpr) → Free s te → subst_te s te ≡ te
    subst_same (type_expr name is_const loc fn_params fn_ret type_args) h =
        found_same is_const (is_plain_name name type_args) (find name s) _ h.0
        ∙ ap (λ ps. type_expr name is_const loc ps fn_ret (subst_tes s type_args))
            (substs_same fn_params h.1)
        ∙ ap (λ ts. type_expr name is_const loc fn_params fn_ret ts) (substs_same type_args h.2)

    substs_same : (ts : TypeExprs) → AllFree s ts → subst_tes s ts ≡ ts
    substs_same TypeExprs.nil h = refl
    substs_same (TypeExprs.cons t ts) h =
        ap (λ t'. TypeExprs.cons t' (subst_tes s ts)) (subst_same t h.0)
        ∙ ap (λ ts'. TypeExprs.cons t ts') (substs_same ts h.1)

-- If no type that stands for a parameter has a parameter in it, a substitution leaves no parameter,
-- but in the return types of function types, and a second one changes nothing.
pub subst_te-Free :
    (s : SubstMap)
    → ((x : String) (te : TypeExpr) → find x s ≡ some te → Free s te)
    → (te : TypeExpr) → Free s (subst_te s te) × (subst_te s (subst_te s te) ≡ subst_te s te)
subst_te-Free s concrete te =
    let free = subst-Free s concrete te in (free, subst_same s (subst_te s te) free)
