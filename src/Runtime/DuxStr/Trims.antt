-- ===== src/Runtime/DuxStr/Trims.antt =====
-- What the trims of src/runtime/str.c take off a string.
use mathlib.Core.List.{append-nil}
use dux_lang.Prelude.{
  ◌+◌, true, false, some, [], ◌∷◌, ◌++◌, nat_eq, length, length-append, ◌≡◌, refl, sym, ap, subst,
  ◌∙◌, arith, Bool-cases, inl, inr,
}
use dux_lang.Runtime.DuxStr.{Bytes, DuxStr, made, too_long, str_of, str_from, empty_str}
use dux_lang.Runtime.DuxStr.Edit.{skip_ws, back_ws, str_trim, str_trim_start, str_trim_end}
use dux_lang.Runtime.DuxStr.Reads.{str_new_lem, str_from_lem}
use dux_lang.Runtime.DuxStr.Buffers.{no_bytes}
use dux_lang.Runtime.DuxStr.WhiteSpace.{
  all_ws, begins_bare, ends_bare, skip_ws_lem, bare_end, back_ws_lem,
}

begins_bare-append : (m w : Bytes) → begins_bare (m ++ w) ≡ true → begins_bare m ≡ true
begins_bare-append [] w h = refl
begins_bare-append (b ∷ m) w h = h

middle :
    {s : Bytes} (a m w : Bytes)
    → s ≡ a ++ (m ++ w)
    → too_long (length s) ≡ false
    → str_from s (length a) (length m) ≡ made (str_of m)
middle a m w q fits =
    let short : too_long (length m) ≡ false =
      ground (arith, fits, ap length q, length-append a (m ++ w), length-append m w) in
    rw q (str_from_lem a m w short)

made_empty : (m : Bytes) → length m ≡ 0 → empty_str ≡ made (str_of m)
made_empty m h = rw (no_bytes m h) (str_new_lem [] refl)

module _ (s : DuxStr) (fits : too_long (length s.bytes) ≡ false) where
  trimmed_start :
      (w m : Bytes)
      → s.bytes ≡ w ++ m
      → skip_ws (length s.bytes) s.bytes 0 ≡ made (0 + length w)
      → str_trim_start (some s) ≡ made (str_of m)
  unfolding str_trim_start
  trimmed_start w m q k =
      let size : length s.bytes ≡ length w + length m =
        omega (arith, ap length q, length-append w m) in
      elim (Bool-cases (nat_eq (length s.bytes) 0)) [
        | inl e ↦ ground (arith, made_empty m (ground (arith, size)))
        | inr e ↦ ground (
          arith,
          k,
          size,
          middle w m [] (q ∙ ap (λ (bs : Bytes). w ++ bs) (sym (append-nil m))) fits,
        )
      ]

  trimmed_end :
      (m w : Bytes)
      → s.bytes ≡ m ++ w
      → back_ws (length s.bytes) s.bytes 0 ≡ made (0 + length m)
      → str_trim_end (some s) ≡ made (str_of m)
  unfolding str_trim_end
  trimmed_end m w q k =
      let size : length s.bytes ≡ length m + length w =
        omega (arith, ap length q, length-append m w) in
      elim (Bool-cases (nat_eq (length s.bytes) 0)) [
        | inl e ↦ ground (arith, made_empty m (ground (arith, size)))
        | inr e ↦ ground (arith, k, middle [] m w q fits)
      ]

  trimmed :
      (a m w : Bytes)
      → s.bytes ≡ a ++ (m ++ w)
      → skip_ws (length s.bytes) s.bytes 0 ≡ made (0 + length a)
      → back_ws (length (m ++ w)) s.bytes (length a) ≡ made (length a + length m)
      → str_trim (some s) ≡ made (str_of m)
  unfolding str_trim
  trimmed a m w q k g =
      let size : length s.bytes ≡ length a + length (m ++ w) =
        omega (arith, ap length q, length-append a (m ++ w)) in
      elim (Bool-cases (nat_eq (length s.bytes) 0)) [
        | inl e ↦ ground (arith, made_empty m (ground (arith, size, length-append m w)))
        | inr e ↦ ground (arith, k, g, size, middle a m w q fits)
      ]

-- The trims of a string of less than 2^31 bytes read nothing outside of it and give new strings: the
-- string is white space, a part, and white space; str_trim gives the part, which neither begins nor
-- ends with white space; str_trim_start leaves the last white space, and str_trim_end of that is the
-- part too.
pub str_trim-middle :
    (s : DuxStr)
    → too_long (length s.bytes) ≡ false
    → (a : Bytes) × (m : Bytes) × (w : Bytes) × (s.bytes ≡ a ++ (m ++ w))
      × (all_ws a ≡ true)
      × (all_ws w ≡ true)
      × (begins_bare m ≡ true)
      × (ends_bare m ≡ true)
      × (str_trim (some s) ≡ made (str_of m))
      × (str_trim_start (some s) ≡ made (str_of (m ++ w)))
      × (str_trim_end (some (str_of (m ++ w))) ≡ made (str_of m))
str_trim-middle s fits =
    let (a, r, q, c, f, k) = skip_ws_lem s.bytes [] s.bytes 0 refl refl in
    let (m, w, p, d, e) = bare_end r in
    let parts : s.bytes ≡ a ++ (m ++ w) = q ∙ ap (λ (bs : Bytes). a ++ bs) p in
    let closed = ap (λ (bs : Bytes). m ++ bs) (sym (append-nil w)) in
    let rest_fits : too_long (length (m ++ w)) ≡ false =
      ground (arith, fits, ap length parts, length-append a (m ++ w)) in
    (
      a,
      m,
      w,
      parts,
      c,
      d,
      begins_bare-append m w (subst (λ (bs : Bytes). begins_bare bs ≡ true) p f),
      e,
      trimmed s fits a m w parts k (
          back_ws_lem (length (m ++ w)) s.bytes a m w [] (length a)
            (parts ∙ ap (λ (bs : Bytes). a ++ bs) closed) refl (sym (length-append m w)) d e),
      trimmed_start s fits a (m ++ w) parts k,
      trimmed_end (str_of (m ++ w)) rest_fits m w refl (
          back_ws_lem (length (m ++ w)) (m ++ w) [] m w [] 0 closed refl (sym (length-append m w)) d
            e),
    )
