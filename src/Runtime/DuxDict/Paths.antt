-- ===== src/Runtime/DuxDict/Paths.antt =====
-- How a search in a table of src/runtime/dict.c comes to a slot.
use dux_lang.Prelude.{
  ℕ, zero, suc, ◌+◌, ◌<◌, ◌≡◌, ◌≢◌, refl, sym, ap, subst, Bool, true, false, ◌&&◌, List, [], ◌∷◌,
  nat_eq, nat_eq_iff, arith, length,
}
use dux_lang.Runtime.DuxDict.{Key, Slot, empty, live, slot_at, next_slot, key_eq, val_of}

and_true : (a b : Bool) → (a && b) ≡ true → (a ≡ true) × (b ≡ true)
and_true true b e = (refl, e)
and_true false b e = cc

both_true : (a b : Bool) → a ≡ true → b ≡ true → (a && b) ≡ true
both_true a b e g = cc

pub key_eq-true : (k j : Key) → key_eq k j ≡ true → k ≡ j
key_eq-true [] [] e = refl
key_eq-true [] (y ∷ ys) e = cc
key_eq-true (x ∷ xs) [] e = cc
key_eq-true (x ∷ xs) (y ∷ ys) e =
    let (a, b) = and_true (nat_eq x y) (key_eq xs ys) e in
    cc ((nat_eq_iff x y).0 a, key_eq-true xs ys b)

pub key_eq_refl : (k : Key) → key_eq k k ≡ true
key_eq_refl [] = refl
key_eq_refl (x ∷ xs) =
    both_true (nat_eq x x) (key_eq xs xs) ((nat_eq_iff x x).1 refl) (key_eq_refl xs)

pub zero_add : (n : ℕ) → 0 + n ≡ n
zero_add n = omega arith

-- The test of the loops.
abbrev pub same : Key → ℕ → Key → ℕ → Bool
same key h k' h' = nat_eq h' h && key_eq k' key

pub same_refl : (key : Key) (h : ℕ) → same key h key h ≡ true
same_refl key h =
    both_true (nat_eq h h) (key_eq key key) ((nat_eq_iff h h).1 refl) (key_eq_refl key)

pub same-true : (key k' : Key) (h h' : ℕ) → same key h k' h' ≡ true → (h' ≡ h) × (k' ≡ key)
same-true key k' h h' e =
    let (a, b) = and_true (nat_eq h' h) (key_eq k' key) e in
    ((nat_eq_iff h' h).0 a, key_eq-true k' key b)

pub live-inside :
    (es : List Slot) (j : ℕ) {k : Key} {h v : ℕ} → slot_at es j ≡ live k h v → j < length es
live-inside [] j e = cc
live-inside (s ∷ es) zero e = omega arith
live-inside (s ∷ es) (suc j) e = let l = live-inside es j e in omega arith

-- `n` slots that are not empty lead from `i` to `j`.
abbrev pub Leads : List Slot → ℕ → ℕ → ℕ → ℕ → Type 0
Leads es cap zero i j = i ≡ j
Leads es cap (suc n) i j = (slot_at es i ≢ empty) × Leads es cap n (next_slot cap i) j

-- Fewer than `cap` slots that are not empty lead from `a` to `i`.
abbrev pub Reached : List Slot → ℕ → ℕ → ℕ → Type 0
Reached es cap a i = (n : ℕ) × (n < cap) × Leads es cap n a i

pub Leads-next :
    (es : List Slot) (cap n i j : ℕ)
    → Leads es cap n i j
    → slot_at es j ≢ empty
    → Leads es cap (suc n) i (next_slot cap j)
Leads-next es cap zero i j p o = (subst (λ x. slot_at es x ≢ empty) (sym p) o, ap (next_slot cap) p)
Leads-next es cap (suc n) i j p o = (p.0, Leads-next es cap n (next_slot cap i) j p.1 o)

pub Leads-kept :
    (es fs : List Slot) (cap n i j : ℕ)
    → ((x : ℕ) → slot_at es x ≢ empty → slot_at fs x ≢ empty)
    → Leads es cap n i j
    → Leads fs cap n i j
Leads-kept es fs cap zero i j keep p = p
Leads-kept es fs cap (suc n) i j keep p =
    (keep i p.0, Leads-kept es fs cap n (next_slot cap i) j keep p.1)

pub live_inj :
    {k k' : Key} {h h' v v' : ℕ} → live k h v ≡ live k' h' v' → (k ≡ k') × (h ≡ h') × (v ≡ v')
live_inj e = (ap key_of e, ap hash_of e, ap val_of e)
  where
    key_of : Slot → Key
    key_of (live k h v) = k
    key_of s = []

    hash_of : Slot → ℕ
    hash_of (live k h v) = h
    hash_of s = 0

pub not_empty : {k : Key} {h v : ℕ} → live k h v ≡ empty → ⊥
not_empty e = cc
