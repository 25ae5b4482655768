-- ===== src/Runtime/DuxDict/Regrowth.antt =====
-- All live slots of a table of src/runtime/dict.c put into another (dict_grow), on the map.
use Prim.Native.Nat.{◌*◌}
use dux_lang.Prelude.{
  ℕ, zero, suc, ◌+◌, ◌<◌, ◌≡◌, refl, sym, ap, subst, ◌∙◌, Option, none, some, List, [], ◌∷◌,
  if◌then◌else◌, ◌⊎◌, inl, inr, arith, Option-cases, Bool-cases,
}
use dux_lang.Runtime.DuxDict.{
  Key, Slot, empty, tombstone, live, slot_at, hash_str, key_eq, DuxDict, dict_insert_raw,
  insert_all, emptied, dict_grow, empty_slots,
}
use dux_lang.Runtime.DuxDict.Counts.{total, live_one}
use dux_lang.Runtime.DuxDict.Paths.{live_inj, key_eq-true}
use dux_lang.Runtime.DuxDict.Inserts.{IsTable, IsSound, Gives, Inserted, insert-Inserted}
use dux_lang.Runtime.DuxDict.Ends.{emptied-IsTable}
use dux_lang.Runtime.DuxDict.Maps.{Mapping, updated, updated_other, updated_self}
use dux_lang.Runtime.DuxDict.Stores.{MappedBy, insert-Mapping}

pub both_Give :
    {A : Type 0} (P Q : A → Type 0) (o : Option A)
    → Gives P o
    → Gives Q o
    → Gives (λ a. P a × Q a) o
both_Give P Q none p q = p
both_Give P Q (some a) p q = (p, q)

-- The map after the live slots are put in, in their order.
unfoldable inserted_all : List Slot → (Key → Option ℕ) → Key → Option ℕ
inserted_all [] f = f
inserted_all (empty ∷ es) f = inserted_all es f
inserted_all (tombstone ∷ es) f = inserted_all es f
inserted_all (live k h v ∷ es) f = inserted_all es (updated k (some v) f)

abbrev Hashed : List Slot → Type 0
Hashed es = (j : ℕ) (k : Key) (h v : ℕ) → slot_at es j ≡ live k h v → h ≡ hash_str k

after_insert :
    (g : Key → Option ℕ) (es : List Slot) (d : DuxDict) (n : ℕ) (o : Option DuxDict)
    (f : Key → Option ℕ)
    → d.len + (1 + n) + d.tomb < d.cap
    → Gives (λ d'. Inserted d d' × MappedBy f d') o
    → ((d' : DuxDict)
        → IsTable d'
        → d'.len + n + d'.tomb < d'.cap
        → MappedBy f d'
        → Gives (MappedBy g) (insert_all es d'))
    → Gives (MappedBy g) (elim o [ none ↦ none | some d' ↦ insert_all es d' ])
after_insert g es d n none f l h ih = h
after_insert g es d n (some d') f l ((t, c, b, m), mp) ih = ih d' t (omega (arith, c, b, m)) mp

insert_all-Mapping :
    (es : List Slot) (d : DuxDict) (f : Key → Option ℕ)
    → IsTable d
    → d.len + total live_one es + d.tomb < d.cap
    → Hashed es
    → MappedBy f d
    → Gives (MappedBy (inserted_all es f)) (insert_all es d)
unfolding insert_all inserted_all total
insert_all-Mapping [] d f t l h mp = mp
insert_all-Mapping (empty ∷ es) d f t l h mp =
    insert_all-Mapping es d f t (omega arith) (λ j. h (suc j)) mp
insert_all-Mapping (tombstone ∷ es) d f t l h mp =
    insert_all-Mapping es d f t (omega arith) (λ j. h (suc j)) mp
insert_all-Mapping (live k g v ∷ es) d f t l h mp =
    let at_hash = sym (h 0 k g v refl) in
    let both =
      both_Give (Inserted d) (MappedBy (updated k (some v) f)) _
        (insert-Inserted d k (hash_str k) v t (omega arith))
        (insert-Mapping d mp k v t (omega arith)) in
    subst
      (λ x.
        Gives (MappedBy (inserted_all es (updated k (some v) f)))
          (elim (dict_insert_raw d k x v) [ none ↦ none | some d' ↦ insert_all es d' ]))
      at_hash
      (after_insert _ es d (total live_one es) _ (updated k (some v) f) (omega arith) both
        (λ d' t' l' mp'.
          insert_all-Mapping es d' (updated k (some v) f) t' l' (λ j. h (suc j)) mp'))

inserted_all-absent :
    (es : List Slot) (f : Key → Option ℕ) (k : Key)
    → ((j h v : ℕ) → slot_at es j ≡ live k h v → ⊥)
    → inserted_all es f k ≡ f k
unfolding inserted_all
inserted_all-absent [] f k o = refl
inserted_all-absent (empty ∷ es) f k o = inserted_all-absent es f k (λ j. o (suc j))
inserted_all-absent (tombstone ∷ es) f k o = inserted_all-absent es f k (λ j. o (suc j))
inserted_all-absent (live x h v ∷ es) f k o =
    inserted_all-absent es (updated x (some v) f) k (λ j. o (suc j))
    ∙ updated_other x k (some v) f (λ e. o 0 h v (ap (λ y. live y h v) e))

updated_either :
    (x k : Key) (w v : ℕ) (f : Key → Option ℕ)
    → (x ≡ k → w ≡ v)
    → f k ≡ some v
    → updated x (some w) f k ≡ some v
updated_either x k w v f y e = elim (Bool-cases (key_eq x k)) [
  | inl t ↦ ap (λ b. if b then some w else f k) t ∙ ap some (y (key_eq-true x k t))
  | inr t ↦ ap (λ b. if b then some w else f k) t ∙ e
]

-- All slots with the key have the value, and there is one, or the map has it from before.
inserted_all-present :
    (es : List Slot) (f : Key → Option ℕ) (k : Key) (v : ℕ)
    → ((j h w : ℕ) → slot_at es j ≡ live k h w → w ≡ v)
    → (f k ≡ some v) ⊎ ((j : ℕ) × (h : ℕ) × (slot_at es j ≡ live k h v))
    → inserted_all es f k ≡ some v
unfolding inserted_all
inserted_all-present [] f k v o (inl e) = e
inserted_all-present [] f k v o (inr (j, h, e)) = cc
inserted_all-present (empty ∷ es) f k v o (inl e) =
    inserted_all-present es f k v (λ j. o (suc j)) (inl e)
inserted_all-present (empty ∷ es) f k v o (inr (zero, h, e)) = cc
inserted_all-present (empty ∷ es) f k v o (inr (suc j, h, e)) =
    inserted_all-present es f k v (λ j. o (suc j)) (inr (j, h, e))
inserted_all-present (tombstone ∷ es) f k v o (inl e) =
    inserted_all-present es f k v (λ j. o (suc j)) (inl e)
inserted_all-present (tombstone ∷ es) f k v o (inr (zero, h, e)) = cc
inserted_all-present (tombstone ∷ es) f k v o (inr (suc j, h, e)) =
    inserted_all-present es f k v (λ j. o (suc j)) (inr (j, h, e))
inserted_all-present (live x g w ∷ es) f k v o (inl e) =
    inserted_all-present es (updated x (some w) f) k v (λ j. o (suc j))
      (inl (updated_either x k w v f (λ q. o 0 g w (ap (λ y. live y g w) q)) e))
inserted_all-present (live x g w ∷ es) f k v o (inr (zero, h, e)) =
    inserted_all-present es (updated x (some w) f) k v (λ j. o (suc j))
      (inl (
        let (a, b, c) = live_inj e in
        subst (λ y. updated x (some w) f y ≡ some v) a (updated_self x (some w) f ∙ ap some c)))
inserted_all-present (live x g w ∷ es) f k v o (inr (suc j, h, e)) =
    inserted_all-present es (updated x (some w) f) k v (λ j. o (suc j)) (inr (j, h, e))

no_live : (n j : ℕ) {k : Key} {h v : ℕ} → slot_at (empty_slots n) j ≡ live k h v → ⊥
no_live zero j e = cc
no_live (suc n) zero e = cc
no_live (suc n) (suc j) e = no_live n j e

pub empty-Mapping : (n cap : ℕ) → Mapping (λ k. none) (empty_slots n) cap
empty-Mapping n cap = record {
  hashed = λ j k h v e. elim (no_live n j e) [ ];
  reached = λ j k h v e. elim (no_live n j e) [ ];
  value = λ j k h v e. elim (no_live n j e) [ ];
  unique = λ i j k g h v w e. elim (no_live n i e) [ ];
  complete = λ k v e. elim (none_some e) [ ];
}
  where
    none_some : {v : ℕ} → none ≡ some v → ⊥
    none_some e = cc

pub Mapping-pointwise :
    (f g : Key → Option ℕ) (es : List Slot) (cap : ℕ)
    → ((k : Key) → f k ≡ g k)
    → Mapping f es cap
    → Mapping g es cap
Mapping-pointwise f g es cap e mp = record {
  hashed = mp.hashed;
  reached = mp.reached;
  value = λ j k h v z. sym (e k) ∙ mp.value j k h v z;
  unique = mp.unique;
  complete = λ k v z. mp.complete k v (e k ∙ z);
}

-- The live slots of a table, put into an empty one, give the same map.
all_back :
    (f : Key → Option ℕ) (es : List Slot) (cap : ℕ)
    → Mapping f es cap
    → (k : Key) → inserted_all es (λ x. none) k ≡ f k
all_back f es cap mp k = elim (Option-cases (f k)) [
  | inl e ↦
      inserted_all-absent es (λ x. none) k (λ j h v z. none_some (sym e ∙ mp.value j k h v z))
      ∙ sym e
  | inr (v, e) ↦
      inserted_all-present es (λ x. none) k v (λ j h w z. some_inj (sym (mp.value j k h w z) ∙ e))
        (inr (mp.complete k v e))
      ∙ sym e
]
  where
    none_some : {v : ℕ} → none ≡ some v → ⊥
    none_some e = cc

    some_inj : {x y : ℕ} → some x ≡ some y → x ≡ y
    some_inj e = cc

Gives-imp :
    {A : Type 0} (P Q : A → Type 0) (o : Option A) → ((a : A) → P a → Q a) → Gives P o → Gives Q o
Gives-imp P Q none h p = p
Gives-imp P Q (some a) h p = h a p

pub dict_grow-Mapping :
    (f : Key → Option ℕ) (d : DuxDict) → IsSound d → MappedBy f d → Gives (MappedBy f) (dict_grow d)
unfolding dict_grow
dict_grow-Mapping f d h mp =
    let (t, l) = emptied-IsTable d h in
    Gives-imp (MappedBy (inserted_all d.entries (λ k. none))) (MappedBy f) _
      (λ d' q. Mapping-pointwise _ f d'.entries d'.cap (all_back f d.entries d.cap mp) q)
      (insert_all-Mapping d.entries (emptied d (d.cap * 2)) (λ k. none) t l mp.hashed
        (empty-Mapping (d.cap * 2) (d.cap * 2)))
