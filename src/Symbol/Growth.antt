-- ===== src/Symbol/Growth.antt =====
-- How a stack of scopes may change while the analysis runs: the current scope gains symbols and
-- loses and the scopes below it stay as they are.
use dux_lang.Prelude.{String, Bool, ◌≡◌, refl, sym, ◌∙◌, some}
use dux_lang.Prelude.Tables.{find-emplace}
use dux_lang.Symbol.{
  Symbol, Scope, ScopeStack, global, nested, lookup_local, define_local, define, push, pop, depth,
}

pub record ScopeGrows (a b : Scope) : Type 0 where
  pub class : b.is_class ≡ a.is_class
  pub kept :
      (name : String) (sym : Symbol)
      → lookup_local name a ≡ some sym
      → lookup_local name b ≡ some sym

pub ScopeGrows-refl : (a : Scope) → ScopeGrows a a
ScopeGrows-refl a = record { class = refl; kept = λ name sym h. h }

pub ScopeGrows-trans : {a b c : Scope} → ScopeGrows a b → ScopeGrows b c → ScopeGrows a c
ScopeGrows-trans f g = record {
  class = g.class ∙ f.class;
  kept = λ name sym h. g.kept name sym (f.kept name sym h);
}

pub define_local-ScopeGrows :
    (name : String) (sym : Symbol) (sc : Scope) → ScopeGrows sc (define_local name sym sc).0
unfolding define_local lookup_local
define_local-ScopeGrows name sym sc = record {
  class = refl;
  kept = λ j w h. find-emplace name j sym w sc.symbols h;
}

pub data Grows : ScopeStack → ScopeStack → Type 0 where
  at_global : {a b : Scope} → ScopeGrows a b → Grows (global a) (global b)
  at_nested : {a b : Scope} {st : ScopeStack} → ScopeGrows a b → Grows (nested a st) (nested b st)

pub Grows-refl : (st : ScopeStack) → Grows st st
Grows-refl (global sc) = Grows.at_global (ScopeGrows-refl sc)
Grows-refl (nested sc st) = Grows.at_nested (ScopeGrows-refl sc)

pub Grows-trans : {a b c : ScopeStack} → Grows a b → Grows b c → Grows a c
Grows-trans (Grows.at_global f) (Grows.at_global g) = Grows.at_global (ScopeGrows-trans f g)
Grows-trans (Grows.at_nested f) (Grows.at_nested g) = Grows.at_nested (ScopeGrows-trans f g)

pub define-Grows :
    (name : String) (sym : Symbol) (st : ScopeStack) → Grows st (define name sym st).0
unfolding define
define-Grows name sym (global sc) = Grows.at_global (define_local-ScopeGrows name sym sc)
define-Grows name sym (nested sc st) = Grows.at_nested (define_local-ScopeGrows name sym sc)

pop_of_nested : {b : Scope} {st st' : ScopeStack} → Grows (nested b st) st' → pop st' ≡ st
unfolding pop
pop_of_nested (Grows.at_nested g) = refl

-- Whatever grew on top of a pushed scope, the pop restores the stack.
pub pop-Grows-push :
    (is_class : Bool) {st st' : ScopeStack} → Grows (push is_class st) st' → pop st' ≡ st
unfolding push
pop-Grows-push is_class g = pop_of_nested g

pub depth-Grows : {a b : ScopeStack} → Grows a b → depth b ≡ depth a
depth-Grows (Grows.at_global g) = refl
depth-Grows (Grows.at_nested g) = refl
