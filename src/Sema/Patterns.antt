-- ===== src/Sema/Patterns.antt =====
-- check_match of src/sema/sema.cpp without its loop over the arm bodies: the validation of a
-- pattern, the bindings that it brings into scope, and the checks behind the arms.
use dux_lang.Prelude.{
  String, Bool, true, false, not, ◌&&◌, ◌||◌, Option, none, some, List, [], ◌∷◌, ◌==◌,
  if◌then◌else◌,
}
use dux_lang.Types.{
  TypeId, EnumVariantInfo, id_eq, tid_unknown, tid_real, tid_double, tid_str, tid_list, tid_dict,
  tid_object, info, is_enum,
}
use dux_lang.Symbol.{SymKind, symbol, lookup}
use dux_lang.Ast.{SourceLoc, PatternKind, MatchPattern, Arms, no_arms, arm_then}
use dux_lang.Diagnostics.{
  not_an_enum, no_variant, cannot_hold_enum, cannot_hold_bool, pattern_enum_mismatch,
}
use dux_lang.Sema.{Sema, M, ◌>>=◌, ◌>>◌, gets, skip, when, err, define_symbol}
use dux_lang.Sema.Members.{has_variant}

abbrev pub is_enum_pattern : MatchPattern → Bool
is_enum_pattern p = elim p.kind [ PatternKind.enum_variant ↦ true | _ ↦ false ]

abbrev pub is_bool_pattern : MatchPattern → Bool
is_bool_pattern p = elim p.kind [ PatternKind.bool_lit ↦ true | _ ↦ false ]

-- The type of the symbol that a name stands for, if that is an enum.
unfoldable pub enum_type : String → Sema → Option TypeId
enum_type name s = elim (lookup name s.scopes) [
  | none ↦ none
  | some sym ↦ if is_enum s.types sym.type then some sym.type else none
]

unfoldable pub check_pattern : MatchPattern → SourceLoc → M (Unit {0})
unfolding enum_type
check_pattern p loc = do
  found ← gets (enum_type p.enum_name)
  reg ← gets (λ s. s.types)
  when (is_enum_pattern p) (elim found [
    | none ↦ err loc (not_an_enum p.enum_name)
    | some t ↦
        when (not (has_variant p.variant_name (info reg t).variants))
          (err loc (no_variant p.enum_name p.variant_name))
  ])

-- The payload of the first variant of that name; `[]` where there is none.
unfoldable pub payload_of : String → List EnumVariantInfo → List TypeId
payload_of name [] = []
payload_of name (v ∷ vs) = if v.name == name then v.payload else payload_of name vs

-- Bindings beyond the payload are objects.
unfoldable pub define_bindings : List String → List TypeId → M (Unit {0})
define_bindings [] payload = skip
define_bindings (b ∷ bs) [] = do
  define_symbol b (symbol b SymKind.var tid_object)
  define_bindings bs []
define_bindings (b ∷ bs) (t ∷ ts) = do
  define_symbol b (symbol b SymKind.var t)
  define_bindings bs ts

unfoldable pub bind_pattern : MatchPattern → M (Unit {0})
unfolding enum_type payload_of define_bindings
bind_pattern p = do
  found ← gets (enum_type p.enum_name)
  reg ← gets (λ s. s.types)
  when (is_enum_pattern p) (
      define_bindings p.bindings
        (elim found [ none ↦ [] | some t ↦ payload_of p.variant_name (info reg t).variants ]))

abbrev pub arm_patterns : Arms → List (MatchPattern × SourceLoc)
arm_patterns no_arms = []
arm_patterns (arm_then p body loc rest) = (p, loc) ∷ arm_patterns rest

abbrev pub any_pattern : (MatchPattern → Bool) → List (MatchPattern × SourceLoc) → Bool
any_pattern test [] = false
any_pattern test ((p, loc) ∷ ps) = test p || any_pattern test ps

-- The local `is_non_enum`, and `is_non_bool`, which is the same.
abbrev pub is_non_enum : TypeId → Bool
is_non_enum t =
    id_eq t tid_str
    || id_eq t tid_double
    || id_eq t tid_real
    || id_eq t tid_list
    || id_eq t tid_dict

-- Each enum pattern is of the scrutinee's enum.
unfoldable pub check_same_enum : TypeId → List (MatchPattern × SourceLoc) → M (Unit {0})
unfolding enum_type
check_same_enum t [] = skip
check_same_enum t ((p, loc) ∷ ps) = do
  found ← gets (enum_type p.enum_name)
  when (is_enum_pattern p) (elim found [
    | none ↦ skip
    | some u ↦ when (not (id_eq u t)) (err loc (pattern_enum_mismatch p.enum_name))
  ])
  check_same_enum t ps

unfoldable pub check_scrutinee : TypeId → SourceLoc → List (MatchPattern × SourceLoc) → M (Unit {0})
unfolding check_same_enum
check_scrutinee t loc ps = when (not (id_eq t tid_unknown)) (do
  let enums = any_pattern is_enum_pattern ps
  let bools = any_pattern is_bool_pattern ps
  when (enums && is_non_enum t) (err loc cannot_hold_enum)
  when (bools && is_non_enum t) (err loc cannot_hold_bool)
  reg ← gets (λ s. s.types)
  when (enums && is_enum reg t) (check_same_enum t ps))
