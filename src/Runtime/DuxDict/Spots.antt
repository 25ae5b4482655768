-- ===== src/Runtime/DuxDict/Spots.antt =====
-- What the loops of src/runtime/dict.c end at.
use dux_lang.Prelude.{
  ℕ, zero, suc, ◌+◌, ◌<◌, ◌≡◌, ◌≢◌, refl, sym, ap, ◌∙◌, Bool, true, false, ◌&&◌, Option, none, some,
  List, nat_eq, if◌then◌else◌, arith,
}
use dux_lang.Runtime.DuxDict.{
  Key, Slot, empty, tombstone, live, slot_at, next_slot, search, spot_for, Spot, present, absent,
  or_first, first_tombstone, key_eq,
}
use dux_lang.Runtime.DuxDict.Paths.{
  zero_add, same, same-true, Leads, Reached, Leads-next, not_empty,
}

module _ (es : List Slot) (cap : ℕ) (key : Key) (h : ℕ) where
  -- What a search or an insertion has found is live, with the key.
  abbrev pub Matches : ℕ → Type 0
  Matches i = (v : ℕ) × (slot_at es i ≡ live key h v)

  abbrev pub Located : Option (Option ℕ) → Type 0
  Located none = Unit
  Located (some none) = Unit
  Located (some (some i)) = Matches i

  same_live :
      (i : ℕ) (k' : Key) (h' v' : ℕ)
      → same key h k' h' ≡ true
      → slot_at es i ≡ live k' h' v'
      → Matches i
  same_live i k' h' v' t e =
      let (a, b) = same-true key k' h h' t in
      (v', e ∙ ap (λ x. live x h' v') b ∙ ap (λ x. live key x v') a)

  found_live :
      (b : Bool) (i : ℕ) (k' : Key) (h' v' : ℕ) (rest : Option (Option ℕ))
      → b ≡ same key h k' h'
      → slot_at es i ≡ live k' h' v'
      → Located rest
      → Located (if b then some (some i) else rest)
  found_live true i k' h' v' rest t e r = same_live i k' h' v' (sym t) e
  found_live false i k' h' v' rest t e r = r

  found_step :
      (i : ℕ) (s : Slot) (rest : Option (Option ℕ))
      → slot_at es i ≡ s
      → Located rest
      → Located (elim s as (λ x. Option (Option ℕ)) [
        | empty ↦ some none
        | tombstone ↦ rest
        | live k' h' v' ↦ if nat_eq h' h && key_eq k' key then some (some i) else rest
      ])
  found_step i empty rest e r = tt
  found_step i tombstone rest e r = r
  found_step i (live k' h' v') rest e r = found_live (same key h k' h') i k' h' v' rest refl e r

  pub search-Found : (fuel i : ℕ) → Located (search fuel es cap key h i)
  unfolding search
  search-Found zero i = tt
  search-Found (suc fuel) i =
      found_step i (slot_at es i) _ refl (search-Found fuel (next_slot cap i))

  abbrev pub Spotted : ℕ → Option Spot → Type 0
  Spotted a none = Unit
  Spotted a (some (present i)) = Matches i
  Spotted a (some (absent i)) = Reached es cap a i

  abbrev Marked : ℕ → Option ℕ → Type 0
  Marked a none = Unit
  Marked a (some i) = Reached es cap a i

  or_first-Spotted :
      (a i : ℕ) (t : Option ℕ)
      → Marked a t
      → Reached es cap a i
      → Spotted a (some (absent (or_first t i)))
  or_first-Spotted a i none t r = r
  or_first-Spotted a i (some m) t r = t

  first-Marked :
      (a i : ℕ) (t : Option ℕ) → Marked a t → Reached es cap a i → Marked a (first_tombstone t i)
  first-Marked a i none t r = r
  first-Marked a i (some m) t r = t

  Spotted-live :
      (b : Bool) (a i : ℕ) (k' : Key) (h' v' : ℕ) (rest : Option Spot)
      → b ≡ same key h k' h'
      → slot_at es i ≡ live k' h' v'
      → Spotted a rest
      → Spotted a (if b then some (present i) else rest)
  Spotted-live true a i k' h' v' rest t e r = same_live i k' h' v' (sym t) e
  Spotted-live false a i k' h' v' rest t e r = r

  Spotted-step :
      (a n i : ℕ) (s : Slot) (t : Option ℕ) (rest passed : Option Spot)
      → slot_at es i ≡ s
      → n < cap
      → Leads es cap n a i
      → Marked a t
      → (s ≢ empty → Spotted a rest)
      → (s ≢ empty → Marked a (first_tombstone t i) → Spotted a passed)
      → Spotted a (elim s as (λ x. Option Spot) [
        | empty ↦ some (absent (or_first t i))
        | tombstone ↦ passed
        | live k' h' v' ↦ if nat_eq h' h && key_eq k' key then some (present i) else rest
      ])
  Spotted-step a n i empty t rest passed e l p m r q = or_first-Spotted a i t m (n, l, p)
  Spotted-step a n i tombstone t rest passed e l p m r q =
      q (λ z. cc) (first-Marked a i t m (n, l, p))
  Spotted-step a n i (live k' h' v') t rest passed e l p m r q =
      Spotted-live (same key h k' h') a i k' h' v' rest refl e (r not_empty)

  spot_for-Spotted :
      (fuel a n i : ℕ) (t : Option ℕ)
      → n + fuel ≡ cap
      → Leads es cap n a i
      → Marked a t
      → Spotted a (spot_for fuel es cap key h t i)
  unfolding spot_for
  spot_for-Spotted zero a n i t l p m = tt
  spot_for-Spotted (suc fuel) a n i t l p m =
      Spotted-step a n i (slot_at es i) t _ _ refl (omega arith) p m
        (λ o.
          spot_for-Spotted fuel a (suc n) (next_slot cap i) t (omega arith)
            (Leads-next es cap n a i p o) m)
        (λ o m'.
          spot_for-Spotted fuel a (suc n) (next_slot cap i) (first_tombstone t i) (omega arith)
            (Leads-next es cap n a i p o) m')

  pub spot-Spotted : (a : ℕ) → Spotted a (spot_for cap es cap key h none a)
  spot-Spotted a = spot_for-Spotted cap a 0 a none (zero_add cap) refl tt
