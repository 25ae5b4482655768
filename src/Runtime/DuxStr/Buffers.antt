-- ===== src/Runtime/DuxStr/Buffers.antt =====
-- A DuxStrBuf of src/runtime/str.c has room for its bytes and a closing 0, and gets more in time.
use mathlib.Core.List.{append-nil}
use dux_lang.Prelude.{
  ℕ, zero, suc, ◌+◌, ◌≤◌, ◌<◌, some, [], ◌∷◌, ◌++◌, ltb, leb, nat_eq, length, length-append, ◌≡◌,
  refl, sym, arith, Bool-cases, inl, inr,
}
use dux_lang.Runtime.DuxStr.{Bytes, DuxStr, made}
use dux_lang.Runtime.DuxStr.Buffer.{DuxStrBuf, doubled, strbuf_grow, strbuf_new, strbuf_append_str}

abbrev pub HasRoom : DuxStrBuf → Type 0
HasRoom b = length b.bytes + 1 ≤ b.cap

doubled_lem :
    (k nc need : ℕ) → 0 < nc → need ≤ nc + k → (m : ℕ) × (doubled k nc need ≡ made m) × (need ≤ m)
unfolding doubled
doubled_lem zero nc need pos h = (nc, ground arith, omega arith)
doubled_lem (suc k) nc need pos h = elim (Bool-cases (ltb nc need)) [
  | inl e ↦
      let (m, d, l) = doubled_lem k (nc + nc) need (omega arith) (omega arith) in
      (m, ground (arith, d), l)
  | inr e ↦ (nc, ground arith, ground arith)
]

-- As much room as is asked for, and the same bytes.
grow_lem :
    (b : DuxStrBuf) (extra : ℕ)
    → HasRoom b
    → (cap : ℕ) × (strbuf_grow b extra ≡ made (record b { cap = cap }))
      × (length b.bytes + extra + 1 ≤ cap)
unfolding strbuf_grow
grow_lem b extra h = elim (Bool-cases (leb (length b.bytes + extra + 1) b.cap)) [
  | inl e ↦ (b.cap, ground arith, ground arith)
  | inr e ↦
      let (m, d, l) =
        doubled_lem (length b.bytes + extra + 1) b.cap (length b.bytes + extra + 1) (omega arith)
          (omega arith) in
      (m, ground (arith, d), l)
]

pub no_bytes : (bs : Bytes) → length bs ≡ 0 → bs ≡ []
no_bytes [] h = refl
no_bytes (b ∷ bs) h = absurd (omega arith)

pub strbuf_new_lem : strbuf_new.bytes ≡ []
unfolding strbuf_new
strbuf_new_lem = refl

pub strbuf_new-HasRoom : HasRoom strbuf_new
unfolding strbuf_new
strbuf_new-HasRoom = omega arith

-- An append puts the bytes of the string behind those of the buffer, which has room again.
pub strbuf_append_str-HasRoom :
    (b : DuxStrBuf) (s : DuxStr)
    → HasRoom b
    → (b' : DuxStrBuf) × (strbuf_append_str (some b) (some s) ≡ made (some b'))
      × (b'.bytes ≡ b.bytes ++ s.bytes)
      × HasRoom b'
unfolding strbuf_append_str
strbuf_append_str-HasRoom b s h = elim (Bool-cases (nat_eq (length s.bytes) 0)) [
  | inl e ↦
      let nothing : s.bytes ≡ [] = no_bytes s.bytes (ground arith) in
      (b, ground arith, rw nothing (sym (append-nil b.bytes)), h)
  | inr e ↦
      let (cap, g, l) = grow_lem b (length s.bytes) h in
      (
        record b { bytes = b.bytes ++ s.bytes; cap = cap },
        ground (arith, g),
        refl,
        omega (arith, l, length-append b.bytes s.bytes),
      )
]
