-- ===== src/Examples/Registry.antt =====
-- The registry of types and the stack of scopes on small inputs.
use dux_lang.Prelude.{
  ◌≡◌, ◌↔◌, true, false, not, ◌&&◌, refl, some, none, [], ◌∷◌, arith, if◌then◌else◌, ◌==◌,
}
use dux_lang.Prelude.Tables.{is_some}
use dux_lang.Types.{
  pos, tid_int, tid_real, tid_object, TypeKind, TypeRegistry, blank, builtin_types, walk, walk_fuel,
  info, unify, assignable, intern, name_of, from_name,
}
use dux_lang.Types.Walk.{Extends, walk-Extends, walk-cycle}
use dux_lang.Prelude.{[], ◌∷◌}
use dux_lang.Types.Unify.{unify-assignable}
use dux_lang.Types.Names.{WellNamed, builtin_types-WellNamed, intern-name}
use dux_lang.Symbol.{
  SymKind, Symbol, symbol, empty_stack, define, lookup, lookup_local, current_scope, push, pop,
}
use dux_lang.Symbol.Lookup.{lookup-define, lookup-push}

walk-Extends_example :
    (walk (walk_fuel builtin_types) builtin_types tid_int tid_object ≡ some true)
    ↔ Extends builtin_types tid_int tid_object
unfolding builtin_types
walk-Extends_example = walk-Extends builtin_types tid_int tid_object (omega arith)

-- class A : B and class B : A, as types 1 and 2.
abbrev cyclic : TypeRegistry
cyclic = record {
  types =
      record blank { name = "void" }
      ∷ record blank { kind = TypeKind.class; name = "A"; parent = pos 2 }
      ∷ record blank { kind = TypeKind.class; name = "B"; parent = pos 1 }
      ∷ [];
  by_name = ("void", pos 0) ∷ ("A", pos 1) ∷ ("B", pos 2) ∷ [];
}

walk-cycle_example : walk 100 cyclic (pos 1) (pos 0) ≡ none
unfolding info
walk-cycle_example =
    walk-cycle 100 cyclic 1 2 (pos 0) refl refl (λ e. omega (arith, e)) (λ e. cc) (λ e. cc)

unify-assignable_example :
    (assignable builtin_types tid_int tid_real ≡ some true)
    × (assignable builtin_types tid_real tid_real ≡ some true)
unfolding unify
unify-assignable_example = unify-assignable builtin_types tid_int tid_real tid_real refl refl refl

intern-name_example :
    WellNamed (intern "Point" TypeKind.class builtin_types).1
    × (name_of
          (intern "Point" TypeKind.class builtin_types).1
          (intern "Point" TypeKind.class builtin_types).0
        ≡ "Point")
    × (from_name (intern "Point" TypeKind.class builtin_types).1 "Point" ≡ (
        if "Point" == "ptr" then tid_object else (intern "Point" TypeKind.class builtin_types).0))
    × (intern "Point" TypeKind.enum (intern "Point" TypeKind.class builtin_types).1
        ≡ intern "Point" TypeKind.class builtin_types)
intern-name_example =
    intern-name "Point" TypeKind.class TypeKind.enum builtin_types builtin_types-WellNamed

abbrev x_var : Symbol
x_var = symbol "x" SymKind.var tid_int

lookup-define_example :
    ((define "x" x_var empty_stack).1
      ≡ not (is_some (lookup_local "x" (current_scope empty_stack))))
    × (lookup "x" (define "x" x_var empty_stack).0 ≡ (
        if (define "x" x_var empty_stack).1 && ("x" == "x")
        then some x_var
        else lookup "x" empty_stack))
lookup-define_example = lookup-define "x" x_var empty_stack "x"

lookup-push_example :
    (lookup "x" (push false empty_stack) ≡ lookup "x" empty_stack)
    × (lookup "x" (define "x" x_var (push false empty_stack)).0 ≡ some x_var)
    × (lookup "x" (pop (define "x" x_var (push false empty_stack)).0) ≡ lookup "x" empty_stack)
lookup-push_example = lookup-push false empty_stack "x" x_var "x"
