-- ===== src/Symbol.antt =====
-- src/sema/symbol.hpp and src/sema/symbol.cpp: symbols, scopes and the stack of scopes.
-- The parent of a scope is the one below it on the stack, which `push` makes so, and the stack is
-- never empty. A scope's hash map is a table, listed in the order of insertion (the order in which
-- an unordered_map is listed is not specified; see Sema/Hoist.antt for the one use).
pub mod Growth
pub mod Lookup
use dux_lang.Prelude.{ℕ, suc, String, Bool, false, List, [], Option, none, some, nat_eq}
use dux_lang.Prelude.Tables.{Table, find, emplace}
use dux_lang.Types.{TypeId, tid_unknown}
use dux_lang.Ast.{SourceLoc}
use dux_lang.Ast.Declarations.{Decl}

pub data SymKind : Type 0 where
  var param function class interface namespace built_in : SymKind

pub record Symbol : Type 0 where
  pub name : String
  pub kind : SymKind
  pub type : TypeId
  pub return_type : TypeId
  pub params : List (String × TypeId)
  pub decl : Option Decl
  pub loc : SourceLoc
  pub is_const : Bool
  pub is_async : Bool

abbrev pub no_loc : SourceLoc
no_loc = record { file = ""; line = 0; col = 0 }

-- A default Symbol with the three fields that nearly every use sets.
abbrev pub symbol : String → SymKind → TypeId → Symbol
symbol name kind type = record {
  name = name;
  kind = kind;
  type = type;
  return_type = tid_unknown;
  params = [];
  decl = none;
  loc = no_loc;
  is_const = false;
  is_async = false;
}

pub record Scope : Type 0 where
  pub is_class : Bool
  pub symbols : Table Symbol

abbrev pub empty_scope : Bool → Scope
empty_scope is_class = record { is_class = is_class; symbols = [] }

unfoldable pub lookup_local : String → Scope → Option Symbol
lookup_local name sc = find name sc.symbols

unfoldable pub define_local : String → Symbol → Scope → Scope × Bool
define_local name sym sc =
    let (table, inserted) = emplace name sym sc.symbols in (record sc { symbols = table }, inserted)

-- The innermost scope first.
pub data ScopeStack : Type 0 where
  global : Scope → ScopeStack
  nested : Scope → ScopeStack → ScopeStack

abbrev pub empty_stack : ScopeStack
empty_stack = global (empty_scope false)

unfoldable pub push : Bool → ScopeStack → ScopeStack
push is_class st = nested (empty_scope is_class) st

unfoldable pub pop : ScopeStack → ScopeStack
pop (global sc) = global sc
pop (nested sc st) = st

abbrev pub depth : ScopeStack → ℕ
depth (global sc) = 1
depth (nested sc st) = suc (depth st)

abbrev pub current_scope : ScopeStack → Scope
current_scope (global sc) = sc
current_scope (nested sc st) = sc

abbrev pub global_scope : ScopeStack → Scope
global_scope (global sc) = sc
global_scope (nested sc st) = global_scope st

unfoldable pub define : String → Symbol → ScopeStack → ScopeStack × Bool
define name sym (global sc) =
    let (sc', inserted) = define_local name sym sc in (global sc', inserted)
define name sym (nested sc st) =
    let (sc', inserted) = define_local name sym sc in (nested sc' st, inserted)

-- `global_scope().define(...)`
unfoldable pub define_global : String → Symbol → ScopeStack → ScopeStack
define_global name sym (global sc) = global (define_local name sym sc).0
define_global name sym (nested sc st) = nested sc (define_global name sym st)

abbrev pub or_else {ℓ} : {A : Type ℓ} → Option A → Option A → Option A
or_else (some a) o = some a
or_else none o = o

unfoldable pub lookup : String → ScopeStack → Option Symbol
unfolding lookup_local
lookup name (global sc) = lookup_local name sc
lookup name (nested sc st) = or_else (lookup_local name sc) (lookup name st)

abbrev pub sym_kind_code : SymKind → ℕ
sym_kind_code var = 0
sym_kind_code param = 1
sym_kind_code function = 2
sym_kind_code class = 3
sym_kind_code interface = 4
sym_kind_code namespace = 5
sym_kind_code built_in = 6

abbrev pub sym_kind_eq : SymKind → SymKind → Bool
sym_kind_eq a b = nat_eq (sym_kind_code a) (sym_kind_code b)
