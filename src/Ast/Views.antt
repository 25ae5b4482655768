-- ===== src/Ast/Views.antt =====
-- Reads of the syntax tree (src/ast/ast.hpp): struct fields, and the dynamic_casts of the analysis
-- to one kind of node.
use dux_lang.Prelude.{String, Bool, true, false, List, [], ◌∷◌, Option, none, some}
use dux_lang.Ast.{SourceLoc, Node, TypeExpr, TypeExprs, type_expr, Expr, an_expr, Stmt, Stmts}

abbrev pub te_name : TypeExpr → String
te_name (type_expr name is_const loc fn_params fn_ret type_args) = name

abbrev pub te_loc : TypeExpr → SourceLoc
te_loc (type_expr name is_const loc fn_params fn_ret type_args) = loc

abbrev pub te_fn_params : TypeExpr → TypeExprs
te_fn_params (type_expr name is_const loc fn_params fn_ret type_args) = fn_params

abbrev pub te_fn_ret : TypeExpr → String
te_fn_ret (type_expr name is_const loc fn_params fn_ret type_args) = fn_ret

abbrev pub te_list : TypeExprs → List TypeExpr
te_list TypeExprs.nil = []
te_list (TypeExprs.cons t ts) = t ∷ te_list ts

abbrev pub expr_node : Expr → Node
expr_node (Expr.int_lit n v) = n
expr_node (Expr.long_lit n v) = n
expr_node (Expr.float_lit n v) = n
expr_node (Expr.real_lit n v) = n
expr_node (Expr.string_lit n v) = n
expr_node (Expr.bool_lit n v) = n
expr_node (Expr.null_lit n) = n
expr_node (Expr.ident n x) = n
expr_node (Expr.this n) = n
expr_node (Expr.super n) = n
expr_node (Expr.binary n op l r) = n
expr_node (Expr.unary n op e p) = n
expr_node (Expr.assign n op t v) = n
expr_node (Expr.call n f xs) = n
expr_node (Expr.member n e m) = n
expr_node (Expr.index n e i) = n
expr_node (Expr.new n t xs) = n
expr_node (Expr.list n xs) = n
expr_node (Expr.dict n ps) = n
expr_node (Expr.lambda n ps b r) = n
expr_node (Expr.await n e) = n

abbrev pub expr_loc : Expr → SourceLoc
expr_loc e = (expr_node e).loc

-- `dynamic_cast<const IdentExpr*>`
abbrev pub as_ident : Expr → Option String
as_ident (Expr.ident n x) = some x
as_ident _ = none

abbrev pub as_member : Expr → Option (Expr × String)
as_member (Expr.member n e m) = some (e, m)
as_member _ = none

abbrev pub is_this : Expr → Bool
is_this (Expr.this n) = true
is_this _ = false

abbrev pub is_lambda : Expr → Bool
is_lambda (Expr.lambda n ps b r) = true
is_lambda _ = false

abbrev pub is_literal : Expr → Bool
is_literal (Expr.int_lit n v) = true
is_literal (Expr.long_lit n v) = true
is_literal (Expr.float_lit n v) = true
is_literal (Expr.real_lit n v) = true
is_literal (Expr.string_lit n v) = true
is_literal (Expr.bool_lit n v) = true
is_literal (Expr.null_lit n) = true
is_literal _ = false

-- The values of the `return` statements that stand in the list itself, in their order.
abbrev pub return_values : Stmts → List Expr
return_values Stmts.no_stmts = []
return_values (Stmts.stmt_then (Stmt.return_stmt n (an_expr e)) ss) = e ∷ return_values ss
return_values (Stmts.stmt_then _ ss) = return_values ss
