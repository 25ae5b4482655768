-- ===== src/Sema/FrameParts.antt =====
-- Frames of the non-recursive parts of the checks: the helpers of Sema.antt, and Operators,
-- Members, Patterns and Lambda.
use dux_lang.Prelude.{Bool-cases, inl, inr, String, Bool, refl, List, [], ◌∷◌, Option, none, some}
use dux_lang.Types.{
  walk_fuel, TypeInfo, TypeId, TypeRegistry, TypeKind, nonneg, intern, info, update_info,
  with_return, with_params, with_signature, from_name,
}
use dux_lang.Types.Growth.{
  SameType, RegistryGrows, RegistryGrows-refl, RegistryGrows-trans, update_info-RegistryGrows,
  intern-RegistryGrows,
}
use dux_lang.Ast.{SourceLoc, Node, TypeExpr, Param, Expr, MatchPattern}
use dux_lang.Diagnostics.{Context}
use dux_lang.Sema.{
  Sema, done, hangs, pure, on_types, fill_fn_type, fn_param_types, fn_type, type_from_te,
  require_assignable, require_numeric, require_bool,
}
use dux_lang.Ast.Views.{expr_loc, te_fn_ret}
use dux_lang.Sema.Members.{enum_access, member_exists, find_member, member_type}
use dux_lang.Sema.Patterns.{
  check_pattern, define_bindings, bind_pattern, check_same_enum, check_scrutinee,
}
use dux_lang.Sema.Lambda.{define_lambda_params, types_of_params, lambda_type}
use dux_lang.Sema.Frame.{
  Framed, Frame-refl, Keeps-if, Keeps-define_symbol, Keeps, Keeps-on_types, Keeps-bind, Keeps-gets,
  Keeps-pure, keeps_rules,
}
use dux_lang.Sema.Hoist.{change_types}
use dux_lang.Sema.Operators.{
  concat_type, list_concat_type, arithmetic_type, comparison_type, builtin_binary, binary_type,
  unary_type, index_type,
}

same_return : (r : TypeId) (t : TypeInfo) → SameType t (with_return r t)
same_return r t = record { kind = refl; name = refl; parent = refl; ifaces = refl; variants = refl }

same_params : (ps : List TypeId) (t : TypeInfo) → SameType t (with_params ps t)
same_params ps t = record {
  kind = refl;
  name = refl;
  parent = refl;
  ifaces = refl;
  variants = refl;
}

same_signature : (r : TypeId) (ps : List TypeId) (t : TypeInfo) → SameType t (with_signature r ps t)
same_signature r ps t = record {
  kind = refl;
  name = refl;
  parent = refl;
  ifaces = refl;
  variants = refl;
}

fill_fn_type-RegistryGrows :
    (te : TypeExpr) (id : TypeId) (r : TypeRegistry) → RegistryGrows r (fill_fn_type te id r)
unfolding fill_fn_type
fill_fn_type-RegistryGrows te id r = elim (Bool-cases (nonneg (info r id).return_type)) [
  | inl e ↦ rw (e, fill_fn_type) (RegistryGrows-refl r)
  | inr e ↦
      rw (e, fill_fn_type)
        (update_info-RegistryGrows
          (with_signature (from_name r (te_fn_ret te)) (fn_param_types te r))
          (λ t. same_signature _ _ t) id r)
]

fn_type-RegistryGrows : (te : TypeExpr) (r : TypeRegistry) → RegistryGrows r (fn_type te r).1
unfolding fn_type
fn_type-RegistryGrows te r =
    RegistryGrows-trans (intern-RegistryGrows _ _ r) (fill_fn_type-RegistryGrows te _ _)

pub Keeps-type_from_te : (te : TypeExpr) → Keeps (type_from_te te)
unfolding type_from_te
Keeps-type_from_te te = search (keeps_rules, Keeps-on_types, fn_type-RegistryGrows)

pub Keeps-require_assignable :
    (from to : TypeId) (loc : SourceLoc) (ctx : Context)
    → Keeps (require_assignable from to loc ctx)
unfolding require_assignable
Keeps-require_assignable from to loc ctx = search keeps_rules depth 12

pub Keeps-require_numeric :
    (t : TypeId) (loc : SourceLoc) (ctx : Context) → Keeps (require_numeric t loc ctx)
unfolding require_numeric
Keeps-require_numeric t loc ctx = search keeps_rules depth 12

pub Keeps-require_bool :
    (t : TypeId) (loc : SourceLoc) (ctx : Context) → Keeps (require_bool t loc ctx)
unfolding require_bool
Keeps-require_bool t loc ctx = search keeps_rules depth 12

pub ruleset part_rules = (
  keeps_rules, Keeps-type_from_te, Keeps-require_assignable, Keeps-require_numeric,
  Keeps-require_bool,
)

Keeps-concat_type : (l r : TypeId) (a b : SourceLoc) → Keeps (concat_type l r a b)
unfolding concat_type
Keeps-concat_type l r a b = search keeps_rules depth 12

Keeps-list_concat_type : (l r : TypeId) (a b : SourceLoc) → Keeps (list_concat_type l r a b)
unfolding list_concat_type
Keeps-list_concat_type l r a b = search keeps_rules depth 12

Keeps-arithmetic_type :
    (op : String) (l r : TypeId) (a b : SourceLoc) → Keeps (arithmetic_type op l r a b)
unfolding arithmetic_type
Keeps-arithmetic_type op l r a b =
    search (part_rules, Keeps-concat_type, Keeps-list_concat_type) depth 12

Keeps-comparison_type : (l r : TypeId) (loc : SourceLoc) → Keeps (comparison_type l r loc)
unfolding comparison_type
Keeps-comparison_type l r loc = search keeps_rules depth 12

Keeps-builtin_binary :
    (n : Node) (op : String) (l r : TypeId) (a b : SourceLoc) → Keeps (builtin_binary n op l r a b)
unfolding builtin_binary
Keeps-builtin_binary n op l r a b =
    search (part_rules, Keeps-arithmetic_type, Keeps-comparison_type) depth 12

pub Keeps-binary_type :
    (n : Node) (op : String) (a b : Expr) (l r : TypeId) → Keeps (binary_type n op a b l r)
unfolding binary_type
Keeps-binary_type n op a b l r = Keeps-bind _ _ (Keeps-gets _) (elim [
  | some f ↦ Keeps-type_from_te f.return_type
  | none ↦ Keeps-builtin_binary n op l r (expr_loc a) (expr_loc b)
])

pub Keeps-unary_type : (op : String) (t : TypeId) (loc : SourceLoc) → Keeps (unary_type op t loc)
unfolding unary_type
Keeps-unary_type op t loc = search part_rules depth 14

pub Keeps-index_type :
    (e : Expr) (t : TypeId) (loc : SourceLoc) (i : TypeId) → Keeps (index_type e t loc i)
unfolding index_type
Keeps-index_type e t loc i =
    Keeps-bind _ _ (Keeps-gets _)
      (elim [ some f ↦ Keeps-type_from_te f.return_type | none ↦ search part_rules depth 14 ])

pub Keeps-enum_access : (n : Node) (e : Expr) (m : String) → Keeps (enum_access n e m)
unfolding enum_access
Keeps-enum_access n e m =
    Keeps-bind _ _ (Keeps-gets _)
      (elim [ none ↦ search keeps_rules depth 12 | some (x, t) ↦ search keeps_rules depth 12 ])

Keeps-member_exists : (t : TypeId) (m : String) → Keeps (member_exists t m)
unfolding member_exists
Keeps-member_exists t m = record {
  at = λ s. answer s (find_member (walk_fuel s.types) s.types s.scopes t m);
}
  where
    answer : (s : Sema) (o : Option Bool) → Framed s (elim o [ none ↦ hangs | some b ↦ done b s ])
    answer s none = tt
    answer s (some b) = Frame-refl s

pub Keeps-member_type :
    (n : Node) (e : Expr) (m : String) (t : TypeId) → Keeps (member_type n e m t)
unfolding member_type
Keeps-member_type n e m t = Keeps-bind _ _ (search keeps_rules) (elim [
  | some sym ↦ search keeps_rules depth 12
  | none ↦ search (keeps_rules, Keeps-member_exists) depth 14
])

pub Keeps-check_pattern : (p : MatchPattern) (loc : SourceLoc) → Keeps (check_pattern p loc)
unfolding check_pattern
Keeps-check_pattern p loc =
    Keeps-bind _ _ (Keeps-gets _)
      (elim [ none ↦ search keeps_rules depth 12 | some t ↦ search keeps_rules depth 12 ])

Keeps-define_bindings : (bs : List String) (ts : List TypeId) → Keeps (define_bindings bs ts)
unfolding define_bindings
Keeps-define_bindings [] ts = Keeps-pure tt
Keeps-define_bindings (b ∷ bs) [] =
    Keeps-bind _ _ (Keeps-define_symbol b _) (λ _. Keeps-define_bindings bs [])
Keeps-define_bindings (b ∷ bs) (t ∷ ts) =
    Keeps-bind _ _ (Keeps-define_symbol b _) (λ _. Keeps-define_bindings bs ts)

pub Keeps-bind_pattern : (p : MatchPattern) → Keeps (bind_pattern p)
unfolding bind_pattern
Keeps-bind_pattern p = search (keeps_rules, Keeps-define_bindings) depth 12

Keeps-check_same_enum :
    (t : TypeId) (ps : List (MatchPattern × SourceLoc)) → Keeps (check_same_enum t ps)
unfolding check_same_enum
Keeps-check_same_enum t [] = Keeps-pure tt
Keeps-check_same_enum t ((p, loc) ∷ ps) = Keeps-bind _ _ (Keeps-gets _) (elim [
  | none ↦ Keeps-bind _ _ (search keeps_rules) (λ _. Keeps-check_same_enum t ps)
  | some u ↦ Keeps-bind _ _ (search keeps_rules) (λ _. Keeps-check_same_enum t ps)
])

pub Keeps-check_scrutinee :
    (t : TypeId) (loc : SourceLoc) (ps : List (MatchPattern × SourceLoc))
    → Keeps (check_scrutinee t loc ps)
unfolding check_scrutinee
Keeps-check_scrutinee t loc ps = search (keeps_rules, Keeps-check_same_enum) depth 16

pub Keeps-define_lambda_params : (ps : List Param) → Keeps (define_lambda_params ps)
unfolding define_lambda_params
Keeps-define_lambda_params [] = Keeps-pure tt
Keeps-define_lambda_params (p ∷ ps) =
    Keeps-bind _ _ (Keeps-type_from_te p.type)
      λ t. Keeps-bind _ _ (Keeps-define_symbol p.name _) λ _. Keeps-define_lambda_params ps

Keeps-types_of_params : (ps : List Param) → Keeps (types_of_params ps)
unfolding types_of_params
Keeps-types_of_params [] = Keeps-pure []
Keeps-types_of_params (p ∷ ps) =
    Keeps-bind _ _ (Keeps-type_from_te p.type)
      λ t. Keeps-bind _ _ (Keeps-types_of_params ps) λ ts. Keeps-pure (t ∷ ts)

-- A write to a type that keeps what every expression keeps.
Keeps-fill :
    (f : TypeInfo → TypeInfo) (id : TypeId)
    → ((t : TypeInfo) → SameType t (f t))
    → Keeps (change_types (update_info f id))
Keeps-fill f id h = Keeps-on_types _ (λ r. update_info-RegistryGrows f h id r)

Keeps-fill_params :
    (id : TypeId) (ts : List TypeId) → Keeps (change_types (update_info (with_params ts) id))
Keeps-fill_params id ts = Keeps-fill (with_params ts) id (same_params ts)

Keeps-explicit :
    (o : Option TypeExpr) (t : TypeId)
    → Keeps (elim o [ some te ↦ type_from_te te | none ↦ pure t ])
Keeps-explicit none t = Keeps-pure t
Keeps-explicit (some te) t = Keeps-type_from_te te

Keeps-intern : (name : String) (kind : TypeKind) → Keeps (on_types (intern name kind))
Keeps-intern name kind = Keeps-on_types _ (intern-RegistryGrows name kind)

pub Keeps-lambda_type :
    (n : Node) (ps : List Param) (o : Option TypeExpr) (t : TypeId) → Keeps (lambda_type n ps o t)
unfolding lambda_type
Keeps-lambda_type n ps o t = Keeps-bind _ _ (Keeps-explicit o t) λ ret.
    search
      (
        keeps_rules,
        Keeps-intern,
        Keeps-fill (with_return ret),
        same_return ret,
        Keeps-types_of_params,
        Keeps-fill_params,
      )
      depth 20
