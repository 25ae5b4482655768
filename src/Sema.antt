-- ===== src/Sema.antt =====
-- src/sema/sema.hpp and the helpers of src/sema/sema.cpp: the analyser's state, the actions on it
-- and what every check is built from. The children hold the passes and the proofs.
-- An action may end in three ways: with a value, with the DiagnosticAbort that the driver throws
-- at its twentieth error, or not at all (`hangs`), when a walk along a cycle of parents never ends.
pub mod Frame
pub mod FrameFlags
pub mod FrameParts
pub mod FrameSteps
pub mod FrameCheck
pub mod LoopExits
pub mod Hoist
pub mod Operators
pub mod Members
pub mod Patterns
pub mod Lambda
pub mod Steps
pub mod Check
pub mod Declarations
pub mod Run
pub mod Tally
pub mod Verdict
pub mod Statements
pub mod Constants
pub mod Bases
pub mod Enums
use Prim.Native.String.{◌++◌ as ◌⧺◌}
use dux_lang.Prelude.{
  ℕ, ◌+◌, String, Bool, true, false, not, ◌&&◌, ◌||◌, Option, none, some, List, [], ◌∷◌, ◌++◌, map,
  ◌==◌, nat_eq, if◌then◌else◌,
}
use dux_lang.Types.{
  TypeId, TypeRegistry, TypeKind, id_eq, nonneg, tid_unknown, tid_bool, tid_object, info,
  update_info, with_signature, intern, from_name, is_numeric, assignable, name_of,
}
use dux_lang.Symbol.{Symbol, ScopeStack, push, pop, define, lookup}
use dux_lang.Ast.{SourceLoc, TypeExpr}
use dux_lang.Ast.Views.{te_name, te_fn_params, te_fn_ret, te_list}
use dux_lang.Diagnostics.{
  Context, Message, cannot_assign, expected_numeric, expected_bool, Driver, driver_error,
  driver_warning,
}

pub record Sema : Type 0 where
  pub driver : Driver
  pub types : TypeRegistry
  pub scopes : ScopeStack
  pub current_return_type : TypeId
  pub current_class_name : String
  pub current_class_type : TypeId
  pub in_loop : Bool
  pub in_unsafe : Bool
  pub in_await : Bool
  pub error_count : ℕ
  -- `type_id` of each expression and `inferred_ret` of each lambda, by the node's address
  pub type_ids : ℕ → TypeId
  pub inferred_rets : ℕ → String

pub data Outcome (A : Type 0) : Type 0 where
  done : A → Sema → Outcome A
  aborted : Sema → Outcome A
  hangs : Outcome A

abbrev pub M : Type 0 → Type 0
M A = Sema → Outcome A

unfoldable pub pure : {A : Type 0} → A → M A
pure a s = done a s

infixl 5 ◌>>=◌ ◌>>◌
unfoldable pub ◌>>=◌ : {A B : Type 0} → M A → (A → M B) → M B
◌>>=◌ m f s = elim (m s) [ done a s' ↦ f a s' | aborted s' ↦ aborted s' | hangs ↦ hangs ]

abbrev pub ◌>>◌ : {A B : Type 0} → M A → M B → M B
m >> k = m >>= λ _. k

unfoldable pub gets : {A : Type 0} → (Sema → A) → M A
gets f s = done (f s) s

abbrev pub skip : M (Unit {0})
skip = pure tt

abbrev pub when : Bool → M (Unit {0}) → M (Unit {0})
when b m = if b then m else skip

-- The answer of a walk.
unfoldable pub ask : {A : Type 0} → (TypeRegistry → Option A) → M A
ask q s = elim (q s.types) [ some a ↦ done a s | none ↦ hangs ]

-- An action of the registry.
unfoldable pub on_types : {A : Type 0} → (TypeRegistry → A × TypeRegistry) → M A
on_types f s = let (a, r) = f s.types in done a (record s { types = r })

unfoldable pub err : SourceLoc → Message → M (Unit {0})
err loc msg s =
    let (d, throws) = driver_error loc msg s.driver in
    if throws
    then aborted (record s { driver = d })
    else done tt (record s { driver = d; error_count = s.error_count + 1 })

unfoldable pub warn : SourceLoc → Message → M (Unit {0})
warn loc msg s = done tt (record s { driver = driver_warning loc msg s.driver })

abbrev pub lookup_symbol : String → M (Option Symbol)
lookup_symbol name = gets (λ s. lookup name s.scopes)

unfoldable pub define_symbol : String → Symbol → M Bool
define_symbol name sym s =
    let (scopes, inserted) = define name sym s.scopes in
    done inserted (record s { scopes = scopes })

abbrev pub update {ℓ} : {A : Type ℓ} → ℕ → A → (ℕ → A) → ℕ → A
update k a f j = if nat_eq k j then a else f j

unfoldable pub set_type_id : ℕ → TypeId → M (Unit {0})
set_type_id n t s = done tt (record s { type_ids = update n t s.type_ids })

unfoldable pub set_inferred_ret : ℕ → String → M (Unit {0})
set_inferred_ret n name s = done tt (record s { inferred_rets = update n name s.inferred_rets })

-- `scopes_.push(is_class); ...; scopes_.pop();`
unfoldable pub in_scope : {A : Type 0} → Bool → M A → M A
in_scope is_class m s = elim (m (record s { scopes = push is_class s.scopes })) [
  | done a s' ↦ done a (record s' { scopes = pop s'.scopes })
  | aborted s' ↦ aborted s'
  | hangs ↦ hangs
]

-- `saved = in_loop_; in_loop_ = true; ...; in_loop_ = saved;`
unfoldable pub looping : {A : Type 0} → M A → M A
looping m s = elim (m (record s { in_loop = true })) [
  | done a s' ↦ done a (record s' { in_loop = s.in_loop })
  | aborted s' ↦ aborted s'
  | hangs ↦ hangs
]

unfoldable pub unsafely : {A : Type 0} → M A → M A
unsafely m s = elim (m (record s { in_unsafe = true })) [
  | done a s' ↦ done a (record s' { in_unsafe = s.in_unsafe })
  | aborted s' ↦ aborted s'
  | hangs ↦ hangs
]

unfoldable pub awaiting : {A : Type 0} → M A → M A
awaiting m s = elim (m (record s { in_await = true })) [
  | done a s' ↦ done a (record s' { in_await = s.in_await })
  | aborted s' ↦ aborted s'
  | hangs ↦ hangs
]

-- `saved_ret = current_return_type_; current_return_type_ = t; ...` and back
unfoldable pub returning : {A : Type 0} → TypeId → M A → M A
returning t m s = elim (m (record s { current_return_type = t })) [
  | done a s' ↦ done a (record s' { current_return_type = s.current_return_type })
  | aborted s' ↦ aborted s'
  | hangs ↦ hangs
]

-- The same for the class that is being checked.
unfoldable pub within_class : {A : Type 0} → String → TypeId → M A → M A
within_class name t m s =
    elim (m (record s { current_class_name = name; current_class_type = t })) [
      | done a s' ↦ done a (record s' {
        current_class_name = s.current_class_name;
        current_class_type = s.current_class_type;
      })
      | aborted s' ↦ aborted s'
      | hangs ↦ hangs
    ]

unfoldable pub join : List String → String
join [] = ""
join (x ∷ []) = x
join (x ∷ xs) = x ⧺ ("," ⧺ join xs)

unfoldable pub fn_sig : List String → String → String
unfolding join
fn_sig params ret = "__fn(" ⧺ (join params ⧺ (")->" ⧺ ret))

abbrev pub fn_param_types : TypeExpr → TypeRegistry → List TypeId
fn_param_types te r = map (λ p. from_name r (te_name p)) (te_list (te_fn_params te))

-- A function type that is new gets its return and parameter types.
unfoldable pub fill_fn_type : TypeExpr → TypeId → TypeRegistry → TypeRegistry
unfolding info update_info from_name
fill_fn_type te id r =
    if nonneg (info r id).return_type
    then r
    else update_info (with_signature (from_name r (te_fn_ret te)) (fn_param_types te r)) id r

-- The `__fn` branch of type_from_te.
unfoldable pub fn_type : TypeExpr → TypeRegistry → TypeId × TypeRegistry
unfolding fn_sig intern fill_fn_type
fn_type te r =
    let sig = fn_sig (map te_name (te_list (te_fn_params te))) (te_fn_ret te) in
    let (id, r') = intern sig TypeKind.function r in (id, fill_fn_type te id r')

unfoldable pub type_from_te : TypeExpr → M TypeId
unfolding fn_type
type_from_te te =
    if te_name te == "ptr"
    then pure tid_object
    else if te_name te == "__fn"
    then on_types (fn_type te)
    else gets (λ s. from_name s.types (te_name te))

unfoldable pub require_assignable : TypeId → TypeId → SourceLoc → Context → M Bool
require_assignable from to loc ctx = do
  ok ← ask (λ r. assignable r from to)
  unsafe ← gets (λ s. s.in_unsafe)
  if ok
      then pure true
      else if unsafe && (id_eq from tid_object || id_eq to tid_object)
      then pure true
      else do
        r ← gets (λ s. s.types)
        err loc (cannot_assign ctx (name_of r from) (name_of r to))
        pure false

unfoldable pub require_numeric : TypeId → SourceLoc → Context → M Bool
require_numeric t loc ctx =
    if id_eq t tid_unknown || is_numeric t
    then pure true
    else do r ← gets (λ s. s.types); err loc (expected_numeric ctx (name_of r t)); pure false

unfoldable pub require_bool : TypeId → SourceLoc → Context → M Bool
require_bool t loc ctx = if id_eq t tid_unknown || id_eq t tid_bool then pure true else do
  ok ← ask (λ r. assignable r t tid_bool)
  r ← gets (λ s. s.types)
  when (not ok) (warn loc (expected_bool ctx (name_of r t)))
  pure true
