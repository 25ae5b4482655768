-- ===== src/Runtime/DuxDict/Masks.antt =====
-- `& (cap - 1)` of src/runtime/dict.c, where `cap` is a power of two.
use Prim.Native.Nat.{◌*◌, ◌/◌, ◌%◌, ◌^◌, min, digits, bit_and, bit_and-bitwise}
use native.Mathlib.Nat.{pow-suc, one-le-pow}
use dux_lang.Prelude.{ℕ, zero, suc, ◌+◌, ◌-◌, ◌≤◌, ◌<◌, ◌≡◌, refl, sym, subst, arith}

abbrev Masked : ℕ → ℕ → ℕ → Type 0
Masked k a r = (r < 2 ^ k) × (a < 2 ^ k → r ≡ a) × (a ≡ 2 ^ k → r ≡ 0)

abbrev anded : ℕ → ℕ → ℕ → ℕ
anded n a b = digits (λ c. 0) min n a b

zero-Masked : (k : ℕ) → Masked k 0 0
zero-Masked k = let room = one-le-pow k 2 in (omega arith, (λ h. refl), (λ h. refl))

abbrev pub Halved : ℕ → ℕ → ℕ → Type 0
Halved p a r = (r < p) × (a < p → r ≡ a) × (a ≡ p → r ≡ 0)

-- A digit more.
digit-Halved : (p a r : ℕ) → Halved p (a / 2) r → Halved (2 * p) a (r * 2 + min (a % 2) 1)
digit-Halved p a r (b, same, full) = (
  omega arith,
  (λ h. let e = same (omega arith) in omega arith),
  (λ h. let e = full (omega arith) in omega arith),
)

-- No digit at all.
none-Halved : (a r : ℕ) → Halved 1 (a / 2) r → Halved 1 a (r * 2 + min (a % 2) 0)
none-Halved a r (b, same, full) = (omega arith, (λ h. omega arith), (λ h. omega arith))

half_mask : (k : ℕ) → (2 ^ suc k - 1) / 2 ≡ 2 ^ k - 1
half_mask k = omega (arith, pow-suc 2 k, one-le-pow k 2)

mask_odd : (k : ℕ) → (2 ^ suc k - 1) % 2 ≡ 1
mask_odd k = omega (arith, pow-suc 2 k, one-le-pow k 2)

anded-Masked : (n k a : ℕ) → a ≤ n → Masked k a (anded n a (2 ^ k - 1))
anded-Masked zero k zero h = zero-Masked k
anded-Masked zero k (suc a) h = let bad : ⊥ = omega arith in elim bad [ ]
anded-Masked (suc n) k zero h = zero-Masked k
anded-Masked (suc n) zero (suc a) h =
    none-Halved (suc a) _ (anded-Masked n 0 (suc a / 2) (omega arith))
anded-Masked (suc n) (suc k) (suc a) h =
    let ih = digit-Halved (2 ^ k) (suc a) _ (anded-Masked n k (suc a / 2) (omega arith)) in
    let low : 2 * 2 ^ k ≡ 2 ^ suc k = omega (arith, pow-suc 2 k) in
    subst (λ p. Halved p (suc a) (anded (suc n) (suc a) (2 ^ suc k - 1))) low
      (subst
        (λ m.
          Halved (2 * 2 ^ k) (suc a)
            (anded n (suc a / 2) m * 2 + min (suc a % 2) ((2 ^ suc k - 1) % 2)))
        (sym (half_mask k))
        (subst
          (λ d.
            Halved (2 * 2 ^ k) (suc a) (anded n (suc a / 2) (2 ^ k - 1) * 2 + min (suc a % 2) d))
          (sym (mask_odd k)) ih))

-- The mask of a table with a power of two for its size: an index is within the table, one that is
-- in it stays, and the one behind the last goes to the first.
pub mask-Halved : (k a : ℕ) → Halved (2 ^ k) a (bit_and a (2 ^ k - 1))
mask-Halved k a =
    subst (Halved (2 ^ k) a) (sym (bit_and-bitwise a (2 ^ k - 1)))
      (anded-Masked a k a (omega arith))
