-- ===== src/Types/Walk.antt =====
-- The loop of TypeRegistry::is_subtype in src/sema/types.cpp: what it computes, and how long it
-- may take. `Extends` is the relation it decides, read off the parents alone.
pub mod Pigeonhole
use dux_lang.Prelude.{
  nothing_below_zero, ℕ, zero, suc, ◌+◌, ◌≤◌, Bool, true, false, not, ◌&&◌, ◌≡◌, refl, sym, ap,
  subst, ◌∙◌, ◌≢◌, ◌↔◌, Option, none, some, arith, if◌then◌else◌, nat_eq, nat_eq_iff, Bool-cases,
  get_or, Option-cases, inl, inr, length, List, [], ◌∷◌, ◌<◌,
}
use dux_lang.Types.{
  TypeId, pos, negsuc, id_eq, nonneg, tid_unknown, TypeRegistry, info, walk, slot, blank, walk_fuel,
}
use dux_lang.Types.Walk.Pigeonhole.{Fresh, Distinct, Below, length-Distinct}

-- `Extends r c a`: `c` is a type, and is `a` or has a parent that extends `a`.
pub data Extends (r : TypeRegistry) : TypeId → TypeId → Type 0 where
  itself : (n : ℕ) → Extends r (pos n) (pos n)
  inherits : {n : ℕ} {a : TypeId} → Extends r (info r (pos n)).parent a → Extends r (pos n) a

pub id_eq_refl : (a : TypeId) → id_eq a a ≡ true
id_eq_refl (pos n) = ground arith
id_eq_refl (negsuc n) = ground arith

pub id_eq-true : (a b : TypeId) → id_eq a b ≡ true → a ≡ b
id_eq-true (pos m) (pos n) h = ap pos ((nat_eq_iff m n).0 h)
id_eq-true (pos m) (negsuc n) h = cc
id_eq-true (negsuc m) (pos n) h = cc
id_eq-true (negsuc m) (negsuc n) h = ap negsuc ((nat_eq_iff m n).0 h)

walk_sound_at :
    (fuel : ℕ) (r : TypeRegistry) (c a : TypeId) → walk fuel r c a ≡ some true → Extends r c a
unfolding walk
walk_sound_at zero r c a h = cc
walk_sound_at (suc fuel) r (negsuc n) a h = ground arith
walk_sound_at (suc fuel) r (pos n) a h = elim (Bool-cases (id_eq (pos n) a)) [
  | inl same ↦ subst (Extends r (pos n)) (id_eq-true (pos n) a same) (Extends.itself n)
  | inr other ↦ Extends.inherits (walk_sound_at fuel r (info r (pos n)).parent a (ground arith))
]

id_eq-false : (a b : TypeId) → a ≢ b → id_eq a b ≡ false
id_eq-false a b h = elim (Bool-cases (id_eq a b)) [
  | inl e ↦ elim (h (id_eq-true a b e)) [ ]
  | inr e ↦ e
]

walk_complete :
    (r : TypeRegistry) (c a : TypeId) → Extends r c a → (k : ℕ) × (walk k r c a ≡ some true)
unfolding walk
walk_complete r c a (Extends.itself n) = (1, ground arith)
walk_complete r c a (Extends.inherits {n} x) =
    let (k, e) = walk_complete r (info r (pos n)).parent a x in
    elim (Bool-cases (id_eq (pos n) a)) [
      | inl same ↦ (1, rw same refl)
      | inr other ↦ elim (Bool-cases (id_eq (info r (pos n)).parent (pos n))) [
        | inl loop ↦ (k, subst (λ y. walk k r y a ≡ some true) (id_eq-true _ _ loop) e)
        | inr up ↦ (suc k, rw (other, up) e)
      ]
    ]

walk_more :
    (k m : ℕ) (r : TypeRegistry) (c a : TypeId) (b : Bool)
    → walk k r c a ≡ some b
    → k ≤ m
    → walk m r c a ≡ some b
unfolding walk
walk_more zero m r c a b h l = cc
walk_more (suc k) zero r c a b h l = elim (nothing_below_zero l) [ ]
walk_more (suc k) (suc m) r c a b h l =
    let ih = walk_more k m r (info r c).parent a b in ground arith

-- While a walk is going, one step more takes it to the parent.
walk_going :
    (k m : ℕ) (r : TypeRegistry) (c a : TypeId)
    → walk (suc k) r c a ≡ none
    → walk (suc m) r c a ≡ walk m r (info r c).parent a
unfolding walk
walk_going k m r c a h = ground arith

abbrev parent_at : TypeRegistry → ℕ → TypeId
parent_at r x = (get_or r.types x blank).parent

some_is_not_none : {A : Type 0} {o : Option A} {x : A} → o ≡ some x → o ≡ none → ⊥
some_is_not_none h g = cc

-- The slots that the first `k` steps look at.
unfoldable slots : ℕ → TypeRegistry → TypeId → List ℕ
slots zero r c = []
slots (suc k) r c = slot r c ∷ slots k r (info r c).parent

length-slots : (k : ℕ) (r : TypeRegistry) (c : TypeId) → length (slots k r c) ≡ k
unfolding slots
length-slots zero r c = refl
length-slots (suc k) r c = ap suc (length-slots k r (info r c).parent)

slot-below : (r : TypeRegistry) (c : TypeId) → 0 < length r.types → slot r c < length r.types
slot-below r (pos n) h = ground arith
slot-below r (negsuc n) h = h

slots-Below :
    (k : ℕ) (r : TypeRegistry) (c : TypeId)
    → 0 < length r.types
    → Below (length r.types) (slots k r c)
unfolding slots
slots-Below zero r c h = Below.none_left
slots-Below (suc k) r c h = Below.lower (slot-below r c h) (slots-Below k r (info r c).parent h)

-- Where the walk from the parent of slot `x` needs more than `k` steps, a walk that ends sooner
-- does not come across `x`.
slots-Fresh :
    (m k : ℕ) (r : TypeRegistry) (x : ℕ) (q a : TypeId) (b : Bool)
    → walk k r (parent_at r x) a ≡ none
    → m ≤ k
    → walk m r q a ≡ none
    → walk (suc m) r q a ≡ some b
    → Fresh x (slots m r q)
unfolding slots info
slots-Fresh zero k r x q a b going l none_yet ends = Fresh.nowhere
slots-Fresh (suc m) k r x q a b going l none_yet ends =
    let p = (info r q).parent in
    let later : walk (suc m) r p a ≡ some b = sym (walk_going m (suc m) r q a none_yet) ∙ ends in
    let before : walk m r p a ≡ none = sym (walk_going m m r q a none_yet) ∙ none_yet in
    Fresh.not_here
      (λ (e : x ≡ slot r q).
        let at_x = subst (λ y. walk k r (parent_at r y) a ≡ none) e going in
        some_is_not_none (walk_more (suc m) k r p a b later l) at_x)
      (slots-Fresh m k r x p a b going (omega (arith, l)) before later)

slots-Distinct :
    (k : ℕ) (r : TypeRegistry) (c a : TypeId) (b : Bool)
    → walk k r c a ≡ none
    → walk (suc k) r c a ≡ some b
    → Distinct (slots k r c)
unfolding slots info
slots-Distinct zero r c a b none_yet ends = Distinct.empty
slots-Distinct (suc k) r c a b none_yet ends =
    let p = (info r c).parent in
    let later : walk (suc k) r p a ≡ some b = sym (walk_going k (suc k) r c a none_yet) ∙ ends in
    let before : walk k r p a ≡ none = sym (walk_going k k r c a none_yet) ∙ none_yet in
    Distinct.also (slots-Fresh k k r (slot r c) p a b before (omega arith) before later)
      (slots-Distinct k r p a b before later)

-- The last step that a walk needs comes at most one behind the number of types.
walk-bounded :
    (k : ℕ) (r : TypeRegistry) (c a : TypeId) (b : Bool)
    → 0 < length r.types
    → walk k r c a ≡ none
    → walk (suc k) r c a ≡ some b
    → k ≤ length r.types
walk-bounded k r c a b h none_yet ends =
    subst (λ n. n ≤ length r.types) (length-slots k r c)
      (length-Distinct (length r.types) (slots k r c) (slots-Distinct k r c a b none_yet ends)
        (slots-Below k r c h))

-- In a registry with a type, a walk along the parents that ends after any number of steps gives
-- the same answer with the fuel that `is_subtype` passes: `none` there means that the loop of the
-- source never ends.
pub walk-enough :
    (k : ℕ) (r : TypeRegistry) (c a : TypeId) (b : Bool)
    → 0 < length r.types
    → walk k r c a ≡ some b
    → walk (walk_fuel r) r c a ≡ some b
unfolding walk walk_fuel
walk-enough zero r c a b h e = cc
walk-enough (suc k) r c a b h e = elim (Option-cases (walk k r c a)) [
  | inl none_yet ↦
      walk_more (suc k) (suc (length r.types)) r c a b e
        (omega (arith, walk-bounded k r c a b h none_yet e))
  | inr (b', some_now) ↦
      walk-enough k r c a b h
        (some_now ∙ (sym (walk_more k (suc k) r c a b' some_now (omega arith)) ∙ e))
]

-- With the fuel of `is_subtype` and a registry with a type, the walk answers yes exactly where `c`
-- extends `a`: where `a` is `c` or is reached from it by taking parents.
pub walk-Extends :
    (r : TypeRegistry) (c a : TypeId)
    → 0 < length r.types
    → (walk (walk_fuel r) r c a ≡ some true) ↔ Extends r c a
walk-Extends r c a h = (
  walk_sound_at (walk_fuel r) r c a,
  λ x. let (k, e) = walk_complete r c a x in walk-enough k r c a true h e,
)

abbrev number_of : TypeId → ℕ
number_of (pos n) = n
number_of (negsuc n) = n

of_pos : {m n : ℕ} → pos m ≡ pos n → m ≡ n
of_pos e = ap number_of e

-- Two types that are each other's parents send the walk for any third type round for ever: it has
-- no answer, however much fuel it gets.
pub walk-cycle :
    (fuel : ℕ) (r : TypeRegistry) (m n : ℕ) (a : TypeId)
    → (info r (pos m)).parent ≡ pos n
    → (info r (pos n)).parent ≡ pos m
    → m ≢ n
    → a ≢ pos m
    → a ≢ pos n
    → walk fuel r (pos m) a ≡ none
unfolding walk
walk-cycle zero r m n a p q d f g = refl
walk-cycle (suc fuel) r m n a p q d f g =
    let ih = walk-cycle fuel r n m a q p (λ e. d (sym e)) g f in
    rw
      (
        id_eq-false (pos m) a (λ e. f (sym e)),
        p,
        id_eq-false (pos n) (pos m) (λ e. d (sym (of_pos e))),
      )
      ih
