-- ===== src/Runtime/DuxDict/Probes.antt =====
-- The loops of src/runtime/dict.c that go round a table.
use Prim.Native.Nat.{◌^◌, bit_and}
use dux_lang.Prelude.{
  ℕ, zero, suc, ◌+◌, ◌-◌, ◌≤◌, ◌<◌, ◌≡◌, ◌≢◌, refl, sym, ap, subst, Bool, true, false, ◌&&◌, Option,
  none, some, List, nat_eq, if◌then◌else◌, leb, Bool-cases, inl, inr, arith,
}
use dux_lang.Runtime.DuxDict.{
  Key, Slot, empty, tombstone, live, slot_at, next_slot, home, search, spot_for, Spot, present,
  absent, or_first, first_tombstone, key_eq,
}
use dux_lang.Runtime.DuxDict.Masks.{Halved, mask-Halved}

abbrev pub is_live : Slot → Bool
is_live empty = false
is_live tombstone = false
is_live (live k h v) = true

not_empty : {k : Key} {h v : ℕ} → live k h v ≡ empty → ⊥
not_empty e = cc

not_empty_tombstone : tombstone ≡ empty → ⊥
not_empty_tombstone e = cc

zero_add : (j : ℕ) → j ≡ 0 + j
zero_add j = omega arith

module _ (es : List Slot) (cap : ℕ) where
  -- A search has ended, at a live slot if it has found one.
  abbrev pub Ended : Option (Option ℕ) → Type 0
  Ended none = ⊥
  Ended (some none) = Unit
  Ended (some (some i)) = (i < cap) × (is_live (slot_at es i) ≡ true)

  abbrev pub Free : Option ℕ → Type 0
  Free none = Unit
  Free (some i) = (i < cap) × (is_live (slot_at es i) ≡ false)

  -- A place for a key is found: a live slot that has it, or one that is not live.
  abbrev pub Placed : Option Spot → Type 0
  Placed none = ⊥
  Placed (some (present i)) = (i < cap) × (is_live (slot_at es i) ≡ true)
  Placed (some (absent i)) = (i < cap) × (is_live (slot_at es i) ≡ false)

module _ (es : List Slot) (cap k : ℕ) (cap_is : cap ≡ 2 ^ k) where
  masked : (a : ℕ) → Halved cap a (bit_and a (cap - 1))
  masked a = subst (λ c. Halved c a (bit_and a (c - 1))) (sym cap_is) (mask-Halved k a)

  pub home_below : (h : ℕ) → home cap h < cap
  home_below h = (masked h).0

  next_below : (i : ℕ) → next_slot cap i < cap
  next_below i = (masked (i + 1)).0

  next_up : (i : ℕ) → i + 1 < cap → next_slot cap i ≡ i + 1
  next_up i l = (masked (i + 1)).1 l

  next_wraps : (i : ℕ) → i + 1 ≡ cap → next_slot cap i ≡ 0
  next_wraps i e = (masked (i + 1)).2 e

  -- `n` slots on there is an empty one.
  abbrev Reach : ℕ → ℕ → Type 0
  Reach zero i = slot_at es i ≡ empty
  Reach (suc n) i = Reach n (next_slot cap i)

  Reach-up : (n m i : ℕ) → i + n < cap → Reach m (i + n) → Reach (n + m) i
  Reach-up zero m i l r =
      let e : i + 0 ≡ i = omega arith in
      let e' : m ≡ 0 + m = omega arith in subst (λ x. Reach x i) e' (subst (Reach m) e r)
  Reach-up (suc n) m i l r =
      let e : i + suc n ≡ i + 1 + n = omega arith in
      let step = next_up i (omega arith) in
      let e' : suc (n + m) ≡ suc n + m = omega arith in
      subst (λ x. Reach x i) e'
        (subst (Reach (n + m)) (sym step)
          (Reach-up n m (i + 1) (omega arith) (subst (Reach m) e r)))

  Reach-around :
      (i j : ℕ) → i < cap → j < cap → slot_at es j ≡ empty → (n : ℕ) × (n < cap) × Reach n i
  Reach-around i j l m e = elim (Bool-cases (leb i j)) [
    | inl up ↦
        let le : i ≤ j = ground arith in
        let there : j ≡ i + (j - i) = omega arith in
        (j - i + 0, omega arith, Reach-up (j - i) 0 i (omega arith) (subst (Reach 0) there e))
    | inr down ↦
        let lt : j < i = ground arith in
        let from_first = Reach-up j 0 0 (omega arith) (subst (Reach 0) (zero_add j) e) in
        let from_last : Reach (suc (j + 0)) (cap - 1) =
          subst (Reach (j + 0)) (sym (next_wraps (cap - 1) (omega arith))) from_first in
        let last : cap - 1 ≡ i + (cap - 1 - i) = omega arith in
        (
          cap - 1 - i + suc (j + 0),
          omega arith,
          Reach-up (cap - 1 - i) (suc (j + 0)) i (omega arith)
              (subst (Reach (suc (j + 0))) last from_last),
        )
  ]

  search_slot :
      (i : ℕ) (s : Slot) (key : Key) (h : ℕ) (rest : Option (Option ℕ))
      → i < cap
      → slot_at es i ≡ s
      → (s ≢ empty → Ended es cap rest)
      → Ended es cap (elim s as (λ x. Option (Option ℕ)) [
        | empty ↦ some none
        | tombstone ↦ rest
        | live k' h' v ↦ if nat_eq h' h && key_eq k' key then some (some i) else rest
      ])
  search_slot i empty key h rest l e r = tt
  search_slot i tombstone key h rest l e r = r not_empty_tombstone
  search_slot i (live k' h' v) key h rest l e r =
      search_live (nat_eq h' h && key_eq k' key) i rest (l, ap is_live e) (r not_empty)
    where
      search_live :
          (b : Bool) (i : ℕ) (rest : Option (Option ℕ))
          → (i < cap) × (is_live (slot_at es i) ≡ true)
          → Ended es cap rest
          → Ended es cap (if b then some (some i) else rest)
      search_live true i rest h r = h
      search_live false i rest h r = r

  search-Ended :
      (fuel n i : ℕ) (key : Key) (h : ℕ)
      → i < cap
      → n < fuel
      → Reach n i
      → Ended es cap (search fuel es cap key h i)
  unfolding search
  search-Ended zero n i key h l p r = let bad : ⊥ = omega arith in elim bad [ ]
  search-Ended (suc fuel) zero i key h l p r =
      search_slot i (slot_at es i) key h _ l refl (λ other. elim (other r) [ ])
  search-Ended (suc fuel) (suc n) i key h l p r =
      search_slot i (slot_at es i) key h _ l refl
        (λ other. search-Ended fuel n (next_slot cap i) key h (next_below i) (omega arith) r)

  or_first-Placed :
      (t : Option ℕ) (i : ℕ)
      → Free es cap t
      → (i < cap) × (is_live (slot_at es i) ≡ false)
      → Placed es cap (some (absent (or_first t i)))
  or_first-Placed none i f h = h
  or_first-Placed (some t) i f h = f

  first_tombstone-Free :
      (t : Option ℕ) (i : ℕ)
      → Free es cap t
      → (i < cap) × (is_live (slot_at es i) ≡ false)
      → Free es cap (first_tombstone t i)
  first_tombstone-Free none i f h = h
  first_tombstone-Free (some t) i f h = f

  if-Placed :
      (b : Bool) (i : ℕ) (rest : Option Spot)
      → (i < cap) × (is_live (slot_at es i) ≡ true)
      → Placed es cap rest
      → Placed es cap (if b then some (present i) else rest)
  if-Placed true i rest h r = h
  if-Placed false i rest h r = r

  spot_slot :
      (i : ℕ) (s : Slot) (key : Key) (h : ℕ) (t : Option ℕ) (onwards passed : Option Spot)
      → i < cap
      → slot_at es i ≡ s
      → Free es cap t
      → (s ≢ empty → Placed es cap onwards)
      → (s ≢ empty → is_live s ≡ false → Placed es cap passed)
      → Placed es cap (elim s as (λ x. Option Spot) [
        | empty ↦ some (absent (or_first t i))
        | tombstone ↦ passed
        | live k' h' v ↦ if nat_eq h' h && key_eq k' key then some (present i) else onwards
      ])
  spot_slot i empty key h t onwards passed l e f o p = or_first-Placed t i f (l, ap is_live e)
  spot_slot i tombstone key h t onwards passed l e f o p = p not_empty_tombstone refl
  spot_slot i (live k' h' v) key h t onwards passed l e f o p =
      if-Placed (nat_eq h' h && key_eq k' key) i onwards (l, ap is_live e) (o not_empty)

  spot_for-Placed :
      (fuel n i : ℕ) (key : Key) (h : ℕ) (t : Option ℕ)
      → i < cap
      → n < fuel
      → Reach n i
      → Free es cap t
      → Placed es cap (spot_for fuel es cap key h t i)
  unfolding spot_for
  spot_for-Placed zero n i key h t l p r f = let bad : ⊥ = omega arith in elim bad [ ]
  spot_for-Placed (suc fuel) zero i key h t l p r f =
      spot_slot i (slot_at es i) key h t _ _ l refl f (λ other. elim (other r) [ ])
        (λ other dead. elim (other r) [ ])
  spot_for-Placed (suc fuel) (suc n) i key h t l p r f =
      spot_slot i (slot_at es i) key h t _ _ l refl f
        (λ other. spot_for-Placed fuel n (next_slot cap i) key h t (next_below i) (omega arith) r f)
        (λ other dead.
          spot_for-Placed fuel n (next_slot cap i) key h (first_tombstone t i) (next_below i)
            (omega arith) r (first_tombstone-Free t i f (l, dead)))

  -- With an empty slot in the table both loops end, wherever they begin.
  pub search-home-Ended :
      (j : ℕ) (key : Key) (h : ℕ)
      → j < cap
      → slot_at es j ≡ empty
      → Ended es cap (search cap es cap key h (home cap h))
  search-home-Ended j key h l e =
      let (n, p, r) = Reach-around (home cap h) j (home_below h) l e in
      search-Ended cap n (home cap h) key h (home_below h) p r

  pub spot_home-Placed :
      (j : ℕ) (key : Key) (h : ℕ)
      → j < cap
      → slot_at es j ≡ empty
      → Placed es cap (spot_for cap es cap key h none (home cap h))
  spot_home-Placed j key h l e =
      let (n, p, r) = Reach-around (home cap h) j (home_below h) l e in
      spot_for-Placed cap n (home cap h) key h none (home_below h) p r tt
