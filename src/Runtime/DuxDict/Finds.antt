-- ===== src/Runtime/DuxDict/Finds.antt =====
-- The loops of src/runtime/dict.c find the slot of a key that is there.
use dux_lang.Prelude.{
  ℕ, zero, suc, ◌<◌, ◌≡◌, ◌≢◌, refl, sym, ap, subst, ◌∙◌, Bool, true, false, ◌&&◌, Option, none,
  some, List, nat_eq, if◌then◌else◌, arith, absurd_bool, nothing_below_zero,
}
use dux_lang.Runtime.DuxDict.{
  Key, Slot, empty, tombstone, live, slot_at, next_slot, search, spot_for, Spot, present, absent,
  or_first, first_tombstone, key_eq,
}
use dux_lang.Runtime.DuxDict.Paths.{same, same_refl, same-true, Leads, live_inj}

module _ (es : List Slot) (cap : ℕ) (key : Key) (h v j : ℕ) (there : slot_at es j ≡ live key h v)
    (only : (i : ℕ) (h' v' : ℕ) → slot_at es i ≡ live key h' v' → i ≡ j) where
  -- At a slot that is not the one, the search goes on along the way to it.
  onwards :
      {A : Type 0} {x y : A} (n i : ℕ) (s : Slot)
      → slot_at es i ≡ s
      → (s ≡ live key h v → ⊥)
      → Leads es cap n i j
      → (s ≢ empty → (m : ℕ) → n ≡ suc m → Leads es cap m (next_slot cap i) j → x ≡ y)
      → x ≡ y
  onwards zero i s e o p r =
      let it : s ≡ live key h v = sym e ∙ ap (slot_at es) p ∙ there in elim (o it) [ ]
  onwards (suc n) i s e o p r = r (λ z. p.0 (e ∙ z)) n refl p.1

  -- A test that holds ends a loop at the one slot.
  test_live :
      {A : Type 0} (found : ℕ → A) (b : Bool) (n i : ℕ) (k' : Key) (h' v' : ℕ) (rest : A)
      → b ≡ same key h k' h'
      → slot_at es i ≡ live k' h' v'
      → Leads es cap n i j
      → ((m : ℕ) → n ≡ suc m → Leads es cap m (next_slot cap i) j → rest ≡ found j)
      → (if b then found i else rest) ≡ found j
  test_live found true n i k' h' v' rest t e p r =
      let (a, c) = same-true key k' h h' (sym t) in
      ap found (only i h' v' (e ∙ ap (λ x. live x h' v') c))
  test_live found false n i k' h' v' rest t e p r =
      onwards n i (live k' h' v') e (λ z. other_live k' h' v' (sym t) z) p (λ o. r)
    where
      other_live :
          (k' : Key) (h' v' : ℕ) → same key h k' h' ≡ false → live k' h' v' ≡ live key h v → ⊥
      other_live k' h' v' t z =
          let (a, b, w) = live_inj z in
          let yes = subst (λ x. same key h x h ≡ true) (sym a) (same_refl key h) in
          absurd_bool (subst (λ x. same key h k' x ≡ true) (sym b) yes) t

  search_step :
      (n i : ℕ) (s : Slot) (rest : Option (Option ℕ))
      → slot_at es i ≡ s
      → Leads es cap n i j
      → ((m : ℕ) → n ≡ suc m → Leads es cap m (next_slot cap i) j → rest ≡ some (some j))
      → elim s as (λ x. Option (Option ℕ)) [
        | empty ↦ some none
        | tombstone ↦ rest
        | live k' h' v' ↦ if nat_eq h' h && key_eq k' key then some (some i) else rest
      ]
        ≡ some (some j)
  search_step n i empty rest e p r = onwards n i empty e (λ z. cc) p (λ o m q l. elim (o refl) [ ])
  search_step n i tombstone rest e p r = onwards n i tombstone e (λ z. cc) p (λ o. r)
  search_step n i (live k' h' v') rest e p r =
      test_live (λ x. some (some x)) (same key h k' h') n i k' h' v' rest refl e p r

  -- The search finds the one slot with the key.
  pub search-Leads :
      (fuel n i : ℕ) → n < fuel → Leads es cap n i j → search fuel es cap key h i ≡ some (some j)
  unfolding search
  search-Leads zero n i l p = elim (nothing_below_zero l) [ ]
  search-Leads (suc fuel) n i l p =
      search_step n i (slot_at es i) _ refl p
        (λ m e q. search-Leads fuel m (next_slot cap i) (omega arith) q)

  spot_step :
      (n i : ℕ) (s : Slot) (t : Option ℕ) (rest passed : Option Spot)
      → slot_at es i ≡ s
      → Leads es cap n i j
      → ((m : ℕ) → n ≡ suc m → Leads es cap m (next_slot cap i) j → rest ≡ some (present j))
      → ((m : ℕ) → n ≡ suc m → Leads es cap m (next_slot cap i) j → passed ≡ some (present j))
      → elim s as (λ x. Option Spot) [
        | empty ↦ some (absent (or_first t i))
        | tombstone ↦ passed
        | live k' h' v' ↦ if nat_eq h' h && key_eq k' key then some (present i) else rest
      ]
        ≡ some (present j)
  spot_step n i empty t rest passed e p r q =
      onwards n i empty e (λ z. cc) p (λ o m x l. elim (o refl) [ ])
  spot_step n i tombstone t rest passed e p r q = onwards n i tombstone e (λ z. cc) p (λ o. q)
  spot_step n i (live k' h' v') t rest passed e p r q =
      test_live (λ x. some (present x)) (same key h k' h') n i k' h' v' rest refl e p r

  -- dict_insert_raw finds it too.
  pub spot_for-Leads :
      (fuel n i : ℕ) (t : Option ℕ)
      → n < fuel
      → Leads es cap n i j
      → spot_for fuel es cap key h t i ≡ some (present j)
  unfolding spot_for
  spot_for-Leads zero n i t l p = elim (nothing_below_zero l) [ ]
  spot_for-Leads (suc fuel) n i t l p =
      spot_step n i (slot_at es i) t _ _ refl p
        (λ m e q. spot_for-Leads fuel m (next_slot cap i) t (omega arith) q)
        (λ m e q. spot_for-Leads fuel m (next_slot cap i) (first_tombstone t i) (omega arith) q)
