-- ===== src/Symbol/Lookup.antt =====
-- What the stack of scopes of src/sema/symbol.cpp promises: a scope is a finite map in which the
-- first definition of a name stands, and the innermost scope that has a name answers for it.
use dux_lang.Prelude.{
  String, Bool, true, false, not, ◌&&◌, ◌≡◌, refl, sym, ap, ◌∙◌, Option, some, arith, if◌then◌else◌,
  ◌==◌, [],
}
use dux_lang.Prelude.Tables.{Table, find, find, emplace, is_some, find-assign, find-assign_self}
use dux_lang.Symbol.{
  Symbol, ScopeStack, global, nested, lookup_local, define_local, define, push, pop, lookup,
  or_else, current_scope,
}

-- The abstract view of a stack: what each name stands for.
abbrev pub View : Type 0
View = String → Option Symbol

find-emplace_all :
    (k j : String) (v : Symbol) (m : Table Symbol)
    → ((emplace k v m).1 ≡ not (is_some (find k m)))
      × (find j (emplace k v m).0 ≡ (if (emplace k v m).1 && (k == j) then some v else find j m))
unfolding emplace
find-emplace_all k j v m = (ground arith, ground (arith, find-assign k j v m))

or_else-if :
    (c : Bool) (v : Symbol) (o p : Option Symbol)
    → or_else (if c then some v else o) p ≡ (if c then some v else or_else o p)
or_else-if true v o p = refl
or_else-if false v o p = refl

-- A definition of `name` in the current scope succeeds exactly where that scope has no such name.
-- Then `name` stands for the new symbol; otherwise the stack is as it was. No other name changes.
pub lookup-define :
    (name : String) (sym : Symbol) (st : ScopeStack) (j : String)
    → ((define name sym st).1 ≡ not (is_some (lookup_local name (current_scope st))))
      × (lookup j (define name sym st).0
          ≡ (if (define name sym st).1 && (name == j) then some sym else lookup j st))
unfolding define define_local lookup lookup_local
lookup-define name sym (global sc) j = find-emplace_all name j sym sc.symbols
lookup-define name sym (nested sc st) j =
    let (fresh, found) = find-emplace_all name j sym sc.symbols in
    (
      fresh,
      ap (λ o. or_else o (lookup j st)) found
          ∙ or_else-if ((emplace name sym sc.symbols).1 && (name == j)) sym (find j sc.symbols)
              (lookup j st),
    )

-- A pushed scope hides nothing: every name stands for what it stood for. It has no names of its
-- own, so each can be defined in it, over the one outside; the pop then brings that one back.
pub lookup-push :
    (is_class : Bool) (st : ScopeStack) (name : String) (sym : Symbol) (j : String)
    → (lookup j (push is_class st) ≡ lookup j st)
      × (lookup name (define name sym (push is_class st)).0 ≡ some sym)
      × (lookup j (pop (define name sym (push is_class st)).0) ≡ lookup j st)
unfolding push pop define define_local lookup lookup_local emplace find
lookup-push is_class st name sym j =
    (refl, ap (λ o. or_else o (lookup name st)) (find-assign_self name sym []), refl)
