-- ===== src/Runtime/DuxStr/Views.antt =====
-- The three ways that a place of a string can be at which src/runtime/str.c looks for a separator.
use dux_lang.Prelude.{
  ℕ, ◌≤◌, ◌<◌, false, [], ◌∷◌, ◌++◌, leb, length, ◌≡◌, refl, arith, Bool-cases, inl, inr,
}
use dux_lang.Runtime.DuxStr.{Bytes}
use dux_lang.Runtime.DuxStr.Pieces.{is_prefix, is_prefix-rest}

-- What remains of a string: the separator and more, a byte at which it does not begin though there
-- are bytes enough, or too few bytes for it.
pub data View (n bs : Bytes) : Type 0 where
  here : (r : Bytes) → bs ≡ n ++ r → View n bs
  past :
      (b : ℕ) (r : Bytes) → bs ≡ b ∷ r → length n ≤ length bs → is_prefix n bs ≡ false → View n bs
  short : length bs < length n → View n bs

pub view : (n bs : Bytes) → 0 < length n → View n bs
view n bs h = elim (Bool-cases (is_prefix n bs)) [
  | inl e ↦ let (r, q) = is_prefix-rest n bs e in here r q
  | inr e ↦ elim (Bool-cases (leb (length n) (length bs))) [
    | inl l ↦ at_byte bs (ground arith) e
    | inr l ↦ short (ground arith)
  ]
]
  where
    at_byte : (cs : Bytes) → length n ≤ length cs → is_prefix n cs ≡ false → View n cs
    at_byte [] l e = absurd (omega (arith, h))
    at_byte (b ∷ r) l e = past b r refl l e
