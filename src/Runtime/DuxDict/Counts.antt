-- ===== src/Runtime/DuxDict/Counts.antt =====
-- The live slots and the tombstones of a table of src/runtime/dict.c.
use dux_lang.Prelude.{
  nothing_below_zero, ℕ, zero, suc, ◌+◌, ◌<◌, ◌≡◌, refl, List, [], ◌∷◌, modify, length, arith,
}
use dux_lang.Runtime.DuxDict.{Slot, empty, tombstone, live, slot_at, empty_slots}

abbrev pub live_one : Slot → ℕ
live_one empty = 0
live_one tombstone = 0
live_one (live k h v) = 1

abbrev pub dead_one : Slot → ℕ
dead_one empty = 0
dead_one tombstone = 1
dead_one (live k h v) = 0

unfoldable pub total : (Slot → ℕ) → List Slot → ℕ
total c [] = 0
total c (s ∷ es) = c s + total c es

pub total-modify :
    (c : Slot → ℕ) (f : Slot → Slot) (es : List Slot) (i : ℕ)
    → i < length es
    → total c (modify f i es) + c (slot_at es i) ≡ total c es + c (f (slot_at es i))
unfolding total
total-modify c f [] i h = elim (nothing_below_zero h) [ ]
total-modify c f (s ∷ es) zero h = omega arith
total-modify c f (s ∷ es) (suc i) h = omega (arith, total-modify c f es i (omega arith))

empty_in_tail :
    (s : Slot) (es : List Slot)
    → ((j : ℕ) × (j < length es) × (slot_at es j ≡ empty))
    → (j : ℕ) × (j < length (s ∷ es)) × (slot_at (s ∷ es) j ≡ empty)
empty_in_tail s es (j, l, e) = (suc j, omega arith, e)

-- A table with fewer live slots and tombstones than slots has an empty one.
pub empty-total :
    (es : List Slot)
    → total live_one es + total dead_one es < length es
    → (j : ℕ) × (j < length es) × (slot_at es j ≡ empty)
unfolding total
empty-total [] h = elim (nothing_below_zero h) [ ]
empty-total (empty ∷ es) h = (0, omega arith, refl)
empty-total (tombstone ∷ es) h = empty_in_tail tombstone es (empty-total es (omega arith))
empty-total (live k g v ∷ es) h = empty_in_tail (live k g v) es (empty-total es (omega arith))

pub total-empty_slots :
    (n : ℕ) → (total live_one (empty_slots n) ≡ 0) × (total dead_one (empty_slots n) ≡ 0)
unfolding total
total-empty_slots zero = (refl, refl)
total-empty_slots (suc n) = let (a, b) = total-empty_slots n in (omega arith, omega arith)

pub length-empty_slots : (n : ℕ) → length (empty_slots n) ≡ n
length-empty_slots zero = refl
length-empty_slots (suc n) = omega (arith, length-empty_slots n)
