-- ===== src/Sema/Operators.antt =====
-- check_binary, check_unary and check_index of src/sema/sema.cpp, from where the operands have
-- their types on: operator methods of classes, then the built-in operators.
use dux_lang.Prelude.{
  String, Bool, true, not, ◌&&◌, ◌||◌, Option, none, some, List, [], ◌∷◌, ◌==◌, if◌then◌else◌,
}
use dux_lang.Prelude.Tables.{Table, find}
use dux_lang.Types.{
  TypeId, id_eq, tid_unknown, tid_bool, tid_str, tid_list, tid_dict, tid_object, is_integral,
  assignable, unify, name_of,
}
use dux_lang.Symbol.{Symbol, SymKind, sym_kind_eq, lookup}
use dux_lang.Ast.{SourceLoc, Node, Expr}
use dux_lang.Ast.Declarations.{FunctionDecl, MemberDecl, ClassMember, ClassDecl, Decl}
use dux_lang.Ast.Views.{as_ident, expr_loc}
use dux_lang.Diagnostics.{
  left_operand, right_operand, unary_operand, range_start, range_end, left_of_concat,
  right_of_concat, left_of_list_concat, right_of_list_concat, comparing, needs_integral, list_index,
}
use dux_lang.Sema.{
  Sema, M, pure, ◌>>=◌, ◌>>◌, gets, when, ask, err, warn, type_from_te, require_numeric,
  require_bool,
}

unfoldable pub op_methods : Table String
op_methods =
    ("+", "operator__add")
    ∷ ("-", "operator__sub")
    ∷ ("*", "operator__mul")
    ∷ ("/", "operator__div")
    ∷ ("==", "operator__eq")
    ∷ ("!=", "operator__ne")
    ∷ ("<", "operator__lt")
    ∷ ("<=", "operator__le")
    ∷ (">", "operator__gt")
    ∷ (">=", "operator__ge")
    ∷ []

-- `dynamic_cast<const ast::ClassDecl*>(sym->decl)`, for a symbol of kind Class
abbrev pub class_decl_of : Symbol → Option ClassDecl
class_decl_of sym =
    if sym_kind_eq sym.kind SymKind.class
    then elim sym.decl [ some (Decl.class_decl c) ↦ some c | _ ↦ none ]
    else none

unfoldable pub method_named : String → List ClassMember → Option FunctionDecl
method_named name [] = none
method_named name (m ∷ ms) = elim m.decl [
  | MemberDecl.method f ↦ if f.name == name then some f else method_named name ms
  | _ ↦ method_named name ms
]

-- The name of the operand's class; a nameless type is looked up once more by the variable.
unfoldable pub class_name : TypeId → Expr → Sema → String
class_name t operand s =
    let cls = name_of s.types t in
    if cls == ""
    then elim (as_ident operand) [
      | none ↦ cls
      | some x ↦ elim (lookup x s.scopes) [ none ↦ cls | some sym ↦ name_of s.types sym.type ]
    ]
    else cls

-- The operator method of an operand's class.
unfoldable pub operator_method : TypeId → Expr → String → Sema → Option FunctionDecl
unfolding class_name method_named
operator_method t operand method s =
    let cls = class_name t operand s in
    if cls == "" then none else elim (lookup cls s.scopes) [
      | none ↦ none
      | some sym ↦ elim (class_decl_of sym) [ none ↦ none | some c ↦ method_named method c.members ]
    ]

unfoldable pub concat_type : TypeId → TypeId → SourceLoc → SourceLoc → M TypeId
concat_type l r left right = do
  reg ← gets (λ s. s.types)
  when (not (id_eq l tid_str) && not (id_eq l tid_object))
      (warn left (left_of_concat (name_of reg l)))
  when (not (id_eq r tid_str) && not (id_eq r tid_object))
      (warn right (right_of_concat (name_of reg r)))
  pure tid_str

unfoldable pub list_concat_type : TypeId → TypeId → SourceLoc → SourceLoc → M TypeId
list_concat_type l r left right = do
  reg ← gets (λ s. s.types)
  when (not (id_eq l tid_list)) (warn left (left_of_list_concat (name_of reg l)))
  when (not (id_eq r tid_list)) (warn right (right_of_list_concat (name_of reg r)))
  pure tid_list

unfoldable pub arithmetic_type : String → TypeId → TypeId → SourceLoc → SourceLoc → M TypeId
arithmetic_type op l r left right =
    if op == "+" && (id_eq l tid_str || id_eq r tid_str)
    then concat_type l r left right
    else if op == "+" && (id_eq l tid_list || id_eq r tid_list)
    then list_concat_type l r left right
    else do
      require_numeric l left (left_operand op)
      require_numeric r right (right_operand op)
      ask (λ reg. unify reg l r)

unfoldable pub comparison_type : TypeId → TypeId → SourceLoc → M TypeId
comparison_type l r loc = if id_eq l tid_unknown || id_eq r tid_unknown then pure tid_bool else do
  there ← ask (λ reg. assignable reg l r)
  back ← if there then pure true else ask (λ reg. assignable reg r l)
  reg ← gets (λ s. s.types)
  when (not there && not back) (warn loc (comparing (name_of reg l) (name_of reg r)))
  pure tid_bool

abbrev pub is_arithmetic : String → Bool
is_arithmetic op = op == "+" || op == "-" || op == "*" || op == "/" || op == "%"

abbrev pub is_comparison : String → Bool
is_comparison op = op == "==" || op == "!=" || op == "<" || op == ">" || op == "<=" || op == ">="

unfoldable pub builtin_binary : Node → String → TypeId → TypeId → SourceLoc → SourceLoc → M TypeId
builtin_binary n op l r left right =
    if is_arithmetic op
    then arithmetic_type op l r left right
    else if is_comparison op
    then comparison_type l r n.loc
    else if op == "&&" || op == "||"
    then (do
      require_bool l left (left_operand op)
      require_bool r right (right_operand op)
      pure tid_bool)
    else if op == "..<" || op == "..="
    then (do require_numeric l left range_start; require_numeric r right range_end; pure tid_object)
    else pure tid_unknown

-- check_binary, behind the checks of the operands
unfoldable pub binary_type : Node → String → Expr → Expr → TypeId → TypeId → M TypeId
binary_type n op left right l r = do
  method ←
      gets
        (λ s. elim (find op op_methods) [ none ↦ none | some name ↦ operator_method l left name s ])
  elim method [
    | some f ↦ type_from_te f.return_type
    | none ↦ builtin_binary n op l r (expr_loc left) (expr_loc right)
  ]

-- check_unary, behind the check of the operand
unfoldable pub unary_type : String → TypeId → SourceLoc → M TypeId
unary_type op t loc =
    if op == "!" || op == "not"
    then (do require_bool t loc (unary_operand op); pure tid_bool)
    else if op == "-" || op == "+"
    then (do require_numeric t loc (unary_operand op); pure t)
    else if op == "~"
    then (do
      reg ← gets (λ s. s.types)
      when (not (is_integral t) && not (id_eq t tid_unknown))
          (err loc (needs_integral (name_of reg t)))
      pure t)
    else if op == "++" || op == "--"
    then (do require_numeric t loc (unary_operand op); pure t)
    else pure t

-- check_index, behind the checks of the object and of the index
unfoldable pub index_type : Expr → TypeId → SourceLoc → TypeId → M TypeId
index_type object obj_t index_loc idx_t = do
  method ← gets (operator_method obj_t object "operator__index")
  elim method [
    | some f ↦ type_from_te f.return_type
    | none ↦
        if id_eq obj_t tid_list
        then (do
          reg ← gets (λ s. s.types)
          when (not (is_integral idx_t) && not (id_eq idx_t tid_unknown))
              (err index_loc (list_index (name_of reg idx_t)))
          pure tid_unknown)
        else if id_eq obj_t tid_dict
        then pure tid_unknown
        else if id_eq obj_t tid_str
        then pure tid_str
        else pure tid_unknown
  ]
