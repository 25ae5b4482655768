-- ===== src/Ast/Declarations.antt =====
-- src/ast/ast.hpp: declarations and programs.
use dux_lang.Prelude.{String, Bool, List, Option}
use dux_lang.Ast.{SourceLoc, Node, TypeExpr, TypeExprs, Param, Exprs, MaybeExpr, Stmts}

pub data AccessMod : Type 0 where
  none_mod public private protected : AccessMod

pub record Decorator : Type 0 where
  pub name : String
  pub args : Exprs
  pub loc : SourceLoc

pub record InitEntry : Type 0 where
  pub field : String
  pub args : Exprs

pub record TypeBound : Type 0 where
  pub param : String
  pub interface_name : String

-- The body of a function: the statements of its BlockStmt.
pub record FunctionDecl : Type 0 where
  pub node : Node
  pub return_type : TypeExpr
  pub name : String
  pub type_params : List String
  pub type_bounds : List TypeBound
  pub params : List Param
  pub modifier : Option String
  pub body : Option Stmts
  pub is_ctor : Bool
  pub is_dtor : Bool
  pub is_static : Bool
  pub is_async : Bool
  pub init_list : List InitEntry

pub record FieldDecl : Type 0 where
  pub node : Node
  pub type : TypeExpr
  pub name : String
  pub init : MaybeExpr
  pub is_static : Bool

-- What the grammar puts into a class or an interface. `empty` is a member whose `decl` is null.
pub data MemberDecl : Type 0 where
  method : FunctionDecl → MemberDecl
  field : FieldDecl → MemberDecl
  empty : MemberDecl

pub record ClassMember : Type 0 where
  pub access : AccessMod
  pub decorators : List Decorator
  pub decl : MemberDecl

pub record BaseClass : Type 0 where
  pub access : AccessMod
  pub name : String

pub record ClassDecl : Type 0 where
  pub node : Node
  pub decorators : List Decorator
  pub name : String
  pub type_params : List String
  pub type_bounds : List TypeBound
  pub bases : List BaseClass
  pub members : List ClassMember

pub record InterfaceDecl : Type 0 where
  pub node : Node
  pub name : String
  pub members : List ClassMember

pub record ImportDecl : Type 0 where
  pub node : Node
  pub path : String
  pub symbols : List String
  pub alias : String
  pub global_scope : Bool

pub record ExternDecl : Type 0 where
  pub node : Node
  pub abi : String
  pub ret : TypeExpr
  pub name : String
  pub params : List Param

pub record EnumVariant : Type 0 where
  pub name : String
  pub payload : TypeExprs
  pub loc : SourceLoc

pub record EnumDecl : Type 0 where
  pub node : Node
  pub name : String
  pub variants : List EnumVariant

-- `namespace_decl node name decls stmts is_package_decl`
mutual
  pub data Decl : Type 0 where
    func : FunctionDecl → Decl
    class_decl : ClassDecl → Decl
    interface_decl : InterfaceDecl → Decl
    import_decl : ImportDecl → Decl
    namespace_decl : Node → String → Decls → Stmts → Bool → Decl
    extern_decl : ExternDecl → Decl
    enum_decl : EnumDecl → Decl
    field_decl : FieldDecl → Decl

  pub data Decls : Type 0 where
    nil : Decls
    cons : Decl → Decls → Decls

pub record Program : Type 0 where
  pub node : Node
  pub decls : Decls
  pub stmts : Stmts
