-- ===== src/Sema/Lambda.antt =====
-- check_lambda of src/sema/sema.cpp around the check of the body: the parameters, the inferred
-- return type and the function type that the lambda gets.
use dux_lang.Prelude.{ℕ, Bool, Option, none, some, List, [], ◌∷◌, map, if◌then◌else◌}
use dux_lang.Types.{
  TypeId, TypeKind, nonneg, tid_void, info, update_info, with_return, with_params, intern, name_of,
}
use dux_lang.Symbol.{SymKind, symbol}
use dux_lang.Ast.{Node, TypeExpr, Param, Expr, Stmt, block}
use dux_lang.Ast.Views.{te_name, te_loc, expr_node, return_values}
use dux_lang.Sema.{
  Sema, M, pure, ◌>>=◌, ◌>>◌, gets, skip, on_types, define_symbol, set_type_id, set_inferred_ret,
  fn_sig, type_from_te,
}
use dux_lang.Sema.Hoist.{change_types}

unfoldable pub define_lambda_params : List Param → M (Unit {0})
define_lambda_params [] = skip
define_lambda_params (p ∷ ps) = do
  t ← type_from_te p.type
  define_symbol p.name (record (symbol p.name SymKind.var t) { loc = te_loc p.type })
  define_lambda_params ps

-- The first return value of the body that has a type.
unfoldable pub first_typed : List Expr → (ℕ → TypeId) → TypeId
first_typed [] type_ids = tid_void
first_typed (e ∷ es) type_ids =
    let t = type_ids (expr_node e).id in if nonneg t then t else first_typed es type_ids

unfoldable pub inferred_return : Stmt → Sema → TypeId
unfolding first_typed
inferred_return (block n ss) s = first_typed (return_values ss) s.type_ids
inferred_return _ s = tid_void

unfoldable pub types_of_params : List Param → M (List TypeId)
types_of_params [] = pure []
types_of_params (p ∷ ps) = do t ← type_from_te p.type; ts ← types_of_params ps; pure (t ∷ ts)

abbrev pub is_empty {ℓ} : {A : Type ℓ} → List A → Bool
is_empty [] = Bool.true
is_empty (x ∷ xs) = Bool.false

-- From the pop of the lambda's scope on; `inferred` is the type found in the body.
unfoldable pub lambda_type : Node → List Param → Option TypeExpr → TypeId → M TypeId
lambda_type n params explicit_ret inferred = do
  ret ← elim explicit_ret [ some te ↦ type_from_te te | none ↦ pure inferred ]
  sig ← gets (λ s. fn_sig (map (λ (p : Param). te_name p.type) params) (name_of s.types ret))
  fn_tid ← on_types (intern sig TypeKind.function)
  change_types (update_info (with_return ret) fn_tid)
  known ← gets (λ s. (info s.types fn_tid).param_types)
  if is_empty known
      then (do ts ← types_of_params params; change_types (update_info (with_params ts) fn_tid))
      else skip
  set_type_id n.id fn_tid
  name ← gets (λ s. name_of s.types ret)
  set_inferred_ret n.id name
  pure fn_tid
