-- ===== src/Types/Unify.antt =====
-- assignable and unify of src/sema/types.cpp: the type that two operands share can be assigned
-- from both.
use dux_lang.Prelude.{
  Bool, true, false, ◌&&◌, ◌≡◌, refl, sym, Option, none, some, arith, if◌then◌else◌, ltb, leb,
  subst,
}
use dux_lang.Types.{
  TypeId, pos, negsuc, id_eq, tid_unknown, tid_object, tid_null, TypeRegistry, is_subtype,
  assignable, unify, rank, is_numeric,
}
use dux_lang.Types.Walk.{id_eq_refl, id_eq-true}

assignable_refl : (r : TypeRegistry) (a : TypeId) → assignable r a a ≡ some true
unfolding assignable
assignable_refl r a = let e = id_eq_refl a in ground arith

-- A subtype other than null is assignable.
pub assignable-is_subtype :
    (r : TypeRegistry) (a b : TypeId)
    → id_eq a tid_null ≡ false
    → is_subtype r a b ≡ some true
    → assignable r a b ≡ some true
unfolding assignable
assignable-is_subtype r a b h e = ground arith

-- rank is positive exactly for the numeric types.
rank-is_numeric : (t : TypeId) → ltb 0 (rank t) ≡ true → is_numeric t ≡ true
unfolding rank is_numeric
rank-is_numeric t h = ground arith

numeric_is_no_heap :
    (t : TypeId) → is_numeric t ≡ true → (id_eq t tid_object ≡ false) × (id_eq t tid_null ≡ false)
unfolding is_numeric
numeric_is_no_heap (pos n) h = (ground arith, ground arith)
numeric_is_no_heap (negsuc n) h = (refl, refl)

assignable-numeric :
    (r : TypeRegistry) (a b : TypeId)
    → is_numeric a ≡ true
    → is_numeric b ≡ true
    → assignable r a b ≡ some true
unfolding assignable
assignable-numeric r a b h g =
    let (no_object, no_null) = numeric_is_no_heap a h in ground (arith, no_object, no_null, h, g)

assignable-unknown : (r : TypeRegistry) (b : TypeId) → assignable r tid_unknown b ≡ some true
unfolding assignable
assignable-unknown r b = ground arith

assignable-object : (r : TypeRegistry) (a : TypeId) → assignable r a tid_object ≡ some true
unfolding assignable
assignable-object r a = ground arith

abbrev Shared : TypeRegistry → TypeId → TypeId → TypeId → Type 0
Shared r a b u = (assignable r a u ≡ some true) × (assignable r b u ≡ some true)

some_inj : {A : Type 0} {x y : A} → some x ≡ some y → x ≡ y
some_inj e = cc

module _ (r : TypeRegistry) (a b : TypeId) (ha : id_eq a tid_null ≡ false)
    (hb : id_eq b tid_null ≡ false) where
  -- The test of subtyping in both directions, once its two answers are known.
  by_subtyping :
      (x y : Option Bool) (u : TypeId)
      → is_subtype r a b ≡ x
      → is_subtype r b a ≡ y
      → elim x [
        | none ↦ none
        | some true ↦ some b
        | some false ↦ elim y [ none ↦ none | some true ↦ some a | some false ↦ some tid_object ]
      ]
        ≡ some u
      → Shared r a b u
  by_subtyping none y u p q e = cc
  by_subtyping (some true) y u p q e =
      subst (Shared r a b) (some_inj e) (assignable-is_subtype r a b ha p, assignable_refl r b)
  by_subtyping (some false) none u p q e = cc
  by_subtyping (some false) (some true) u p q e =
      subst (Shared r a b) (some_inj e) (assignable_refl r a, assignable-is_subtype r b a hb q)
  by_subtyping (some false) (some false) u p q e =
      subst (Shared r a b) (some_inj e) (assignable-object r a, assignable-object r b)

  by_rank :
      (u : TypeId)
      → ltb 0 (rank a) ≡ true
      → ltb 0 (rank b) ≡ true
      → some (if leb (rank b) (rank a) then a else b) ≡ some u
      → Shared r a b u
  by_rank u p q e =
      let na = rank-is_numeric a p in
      let nb = rank-is_numeric b q in
      choice _ u (assignable_refl r a, assignable-numeric r b a nb na)
        (assignable-numeric r a b na nb, assignable_refl r b) (some_inj e)
    where
      choice :
          (c : Bool) (u : TypeId)
          → Shared r a b a
          → Shared r a b b
          → (if c then a else b) ≡ u
          → Shared r a b u
      choice true u h g e = subst (Shared r a b) e h
      choice false u h g e = subst (Shared r a b) e g

not_both : {b : Bool} → b ≡ false → b ≡ true → ⊥
not_both h g = cc

both : (b c : Bool) → (b && c) ≡ true → (b ≡ true) × (c ≡ true)
both true true h = (refl, refl)
both true false h = cc
both false c h = cc

-- One test of a chain.
test :
    {A : Type 0} (P : Type 0) (c : Bool) (x y : Option A) (u : A)
    → (c ≡ true → x ≡ some u → P)
    → (c ≡ false → y ≡ some u → P)
    → (if c then x else y) ≡ some u
    → P
test P true x y u h g e = h refl e
test P false x y u h g e = g refl e

-- What `unify` answers for two operands, neither of them null, can be assigned from both.
pub unify-assignable :
    (r : TypeRegistry) (a b u : TypeId)
    → id_eq a tid_null ≡ false
    → id_eq b tid_null ≡ false
    → unify r a b ≡ some u
    → (assignable r a u ≡ some true) × (assignable r b u ≡ some true)
unfolding unify
unify-assignable r a b u ha hb e =
    test (Shared r a b u) _ _ _ u
      (λ c x.
        subst (λ y. Shared r y b u) (sym (id_eq-true a tid_unknown c))
          (
            assignable-unknown r u,
            subst (λ y. assignable r b y ≡ some true) (some_inj x) (assignable_refl r b),
          ))
      (λ _.
        test (Shared r a b u) _ _ _ u
          (λ c x.
            subst (λ y. Shared r a y u) (sym (id_eq-true b tid_unknown c))
              (
                subst (λ y. assignable r a y ≡ some true) (some_inj x) (assignable_refl r a),
                assignable-unknown r u,
              ))
          (λ _.
            test (Shared r a b u) _ _ _ u
              (λ c x. subst (Shared r a b) (some_inj x) (
                assignable_refl r a,
                subst (λ y. assignable r y a ≡ some true) (id_eq-true a b c) (assignable_refl r a),
              ))
              (λ _.
                test (Shared r a b u) _ _ _ u (λ c x. elim (not_both ha c) [ ])
                  (λ _.
                    test (Shared r a b u) _ _ _ u (λ c x. elim (not_both hb c) [ ])
                      (λ _.
                        test (Shared r a b u) _ _ _ u
                          (λ c x. by_rank r a b ha hb u (both _ _ c).0 (both _ _ c).1 x)
                          (λ _. by_subtyping r a b ha hb _ _ u refl refl))))))
      e

-- Two numeric operands have the same unified type in either order: the one of the greater rank.
pub unify-is_numeric :
    (r : TypeRegistry) (a b : TypeId)
    → is_numeric a ≡ true
    → is_numeric b ≡ true
    → (unify r a b ≡ unify r b a) × (unify r a b ≡ some (if ltb (rank a) (rank b) then b else a))
unfolding unify is_numeric rank
unify-is_numeric r (pos m) (pos n) h g = (ground (arith, h, g), ground (arith, h, g))
unify-is_numeric r (pos m) (negsuc n) h g = cc
unify-is_numeric r (negsuc m) b h g = cc
