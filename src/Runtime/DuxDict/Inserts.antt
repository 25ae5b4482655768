-- ===== src/Runtime/DuxDict/Inserts.antt =====
-- Insertions into a table of src/runtime/dict.c, and its counts.
use Prim.Native.Nat.{◌*◌, ◌^◌}
use dux_lang.Prelude.{
  ℕ, suc, ◌+◌, ◌≤◌, ◌<◌, ◌≡◌, refl, subst, ◌∙◌, true, false, Option, none, some, List, [], ◌∷◌,
  length, length-modify, arith,
}
use dux_lang.Runtime.DuxDict.{
  Key, Slot, empty, tombstone, live, slot_at, DuxDict, Spot, present, absent, put, with_val,
  dict_insert_raw, insert_all,
}
use dux_lang.Runtime.DuxDict.Counts.{total, live_one, dead_one, total-modify, empty-total}
use dux_lang.Runtime.DuxDict.Probes.{is_live, Placed, spot_home-Placed}

-- The table has a power of two of slots, `len` of them live and at most `tomb` of them tombstones.
pub record IsTable (d : DuxDict) : Type 0 where
  pub power : ℕ
  pub cap_is : d.cap ≡ 2 ^ power
  pub long : length d.entries ≡ d.cap
  pub live_is : total live_one d.entries ≡ d.len
  pub dead_is : total dead_one d.entries ≤ d.tomb

-- And there is room, so that every search comes to an empty slot.
pub record IsSound (d : DuxDict) : Type 0 where
  pub table : IsTable d
  pub least : 4 ≤ d.cap
  pub load : 4 * (d.len + d.tomb) < 3 * d.cap + 4

abbrev pub Gives : {A : Type 0} → (A → Type 0) → Option A → Type 0
Gives P none = ⊥
Gives P (some a) = P a

-- What an insertion leaves as it is, and how it counts.
abbrev pub Inserted : DuxDict → DuxDict → Type 0
Inserted d d' = IsTable d' × (d'.cap ≡ d.cap) × (d'.tomb ≡ d.tomb) × (d'.len ≤ d.len + 1)

live_one-with_val : (v : ℕ) (s : Slot) → live_one (with_val v s) ≡ live_one s
live_one-with_val v empty = refl
live_one-with_val v tombstone = refl
live_one-with_val v (live k h w) = refl

dead_one-with_val : (v : ℕ) (s : Slot) → dead_one (with_val v s) ≡ dead_one s
dead_one-with_val v empty = refl
dead_one-with_val v tombstone = refl
dead_one-with_val v (live k h w) = refl

pub live_one-is_live : (s : Slot) → is_live s ≡ true → (live_one s ≡ 1) × (dead_one s ≡ 0)
live_one-is_live empty e = cc
live_one-is_live tombstone e = cc
live_one-is_live (live k h w) e = (refl, refl)

live_one-is_not : (s : Slot) → is_live s ≡ false → live_one s ≡ 0
live_one-is_not empty e = refl
live_one-is_not tombstone e = refl
live_one-is_not (live k h w) e = cc

put-Inserted :
    (d : DuxDict) (key : Key) (h val : ℕ) (o : Option Spot)
    → IsTable d
    → Placed d.entries d.cap o
    → Gives (Inserted d) (put d key h val o)
put-Inserted d key h val none t p = p
put-Inserted d key h val (some (present i)) t p =
    let inside : i < length d.entries = omega (arith, t.long, p.0) in
    let a = total-modify live_one (with_val val) d.entries i inside in
    let b = total-modify dead_one (with_val val) d.entries i inside in
    let a' = live_one-with_val val (slot_at d.entries i) in
    let b' = dead_one-with_val val (slot_at d.entries i) in
    (
      record {
        power = t.power;
        cap_is = t.cap_is;
        long = length-modify (with_val val) i d.entries ∙ t.long;
        live_is = omega (arith, a, a', t.live_is);
        dead_is = omega (arith, b, b', t.dead_is);
      },
      refl,
      refl,
      omega arith,
    )
put-Inserted d key h val (some (absent i)) t p =
    let inside : i < length d.entries = omega (arith, t.long, p.0) in
    let a = total-modify live_one (λ s. live key h val) d.entries i inside in
    let b = total-modify dead_one (λ s. live key h val) d.entries i inside in
    let a' = live_one-is_not (slot_at d.entries i) p.1 in
    (
      record {
        power = t.power;
        cap_is = t.cap_is;
        long = length-modify (λ s. live key h val) i d.entries ∙ t.long;
        live_is = omega (arith, a, a', t.live_is);
        dead_is = omega (arith, b, t.dead_is);
      },
      refl,
      refl,
      omega arith,
    )

pub table_empty :
    (d : DuxDict)
    → IsTable d
    → d.len + d.tomb < d.cap
    → (j : ℕ) × (j < d.cap) × (slot_at d.entries j ≡ empty)
table_empty d t l =
    let (j, p, e) = empty-total d.entries (omega (arith, t.live_is, t.dead_is, t.long)) in
    (j, omega (arith, t.long), e)

pub insert-Inserted :
    (d : DuxDict) (key : Key) (h val : ℕ)
    → IsTable d
    → d.len + d.tomb < d.cap
    → Gives (Inserted d) (dict_insert_raw d key h val)
unfolding dict_insert_raw
insert-Inserted d key h val t l =
    let (j, p, e) = table_empty d t l in
    put-Inserted d key h val _ t (spot_home-Placed d.entries d.cap t.power t.cap_is j key h p e)

-- What inserting all of a list of slots leaves, `n` of them live.
abbrev pub AllInserted : ℕ → DuxDict → DuxDict → Type 0
AllInserted n d d' = IsTable d' × (d'.cap ≡ d.cap) × (d'.tomb ≡ d.tomb) × (d'.len ≤ d.len + n)

zero_add : (n : ℕ) → n ≡ 0 + n
zero_add n = omega arith

suc_is : (n : ℕ) → suc n ≡ 1 + n
suc_is n = omega arith

more-AllInserted :
    (n : ℕ) (d d' : DuxDict) (o : Option DuxDict)
    → Inserted d d'
    → Gives (AllInserted n d') o
    → Gives (AllInserted (suc n) d) o
more-AllInserted n d d' none h g = g
more-AllInserted n d d' (some d2) (t, c, b, l) (t', c', b', l') = (t', c' ∙ c, b' ∙ b, omega arith)

next-AllInserted :
    (n : ℕ) (d : DuxDict) (es : List Slot) (o : Option DuxDict)
    → Gives (Inserted d) o
    → ((d' : DuxDict) → Inserted d d' → Gives (AllInserted n d') (insert_all es d'))
    → Gives (AllInserted (suc n) d) (elim o [ none ↦ none | some d' ↦ insert_all es d' ])
next-AllInserted n d es none h ih = h
next-AllInserted n d es (some d') h ih = more-AllInserted n d d' (insert_all es d') h (ih d' h)

pub insert_all-AllInserted :
    (es : List Slot) (d : DuxDict)
    → IsTable d
    → d.len + total live_one es + d.tomb < d.cap
    → Gives (AllInserted (total live_one es) d) (insert_all es d)
unfolding insert_all total
insert_all-AllInserted [] d t l = (t, refl, refl, omega arith)
insert_all-AllInserted (empty ∷ es) d t l =
    subst (λ n. Gives (AllInserted n d) (insert_all es d)) (zero_add _)
      (insert_all-AllInserted es d t (omega arith))
insert_all-AllInserted (tombstone ∷ es) d t l =
    subst (λ n. Gives (AllInserted n d) (insert_all es d)) (zero_add _)
      (insert_all-AllInserted es d t (omega arith))
insert_all-AllInserted (live k h v ∷ es) d t l =
    subst
      (λ n.
        Gives (AllInserted n d)
          (elim (dict_insert_raw d k h v) [ none ↦ none | some d' ↦ insert_all es d' ]))
      (suc_is _)
      (next-AllInserted (total live_one es) d es _ (insert-Inserted d k h v t (omega arith))
        (λ d' (t', c, b, n). insert_all-AllInserted es d' t' (omega (arith, c, b, n))))
