-- ===== src/Runtime/DuxStr/Replaces.antt =====
-- duxrt_str_replace_all of src/runtime/str.c puts the new string between the pieces.
use mathlib.Core.List.{append_assoc, append-nil}
use dux_lang.Prelude.{
  ℕ, zero, suc, ◌+◌, ◌-◌, ◌≤◌, ◌<◌, true, false, Option, some, [], ◌∷◌, ◌++◌, ltb, length,
  length-append, if◌then◌else◌, ◌≡◌, refl, sym, ap, subst, ◌∙◌, arith, Bool-cases, inl, inr,
}
use dux_lang.Runtime.DuxStr.{
  Bytes, DuxStr, Attempt, made, too_long, str_of, str_new, str_from, text,
}
use dux_lang.Runtime.DuxStr.Buffer.{DuxStrBuf, strbuf_new, strbuf_append_str, strbuf_build}
use dux_lang.Runtime.DuxStr.Edit.{replace_loop, str_replace_all}
use dux_lang.Runtime.DuxStr.Pieces.{
  is_prefix, is_prefix-append, pieces, pieces-here, pieces-past, pieces-short, joined,
}
use dux_lang.Runtime.DuxStr.Reads.{str_new_lem, str_from_lem}
use dux_lang.Runtime.DuxStr.Views.{here, past, short, view}
use dux_lang.Runtime.DuxStr.Splits.{Place, step_here, length-Place, stands_at-Place}
use dux_lang.Runtime.DuxStr.Joins.{joined-front, joined-here}
use dux_lang.Runtime.DuxStr.Buffers.{
  HasRoom, strbuf_append_str-HasRoom, strbuf_new-HasRoom, strbuf_new_lem, no_bytes,
}

-- The `n` bytes from the place on.
str_from-rest :
    {s pre rest : Bytes} {i : ℕ} (w r : Bytes)
    → Place s i i pre [] rest
    → rest ≡ w ++ r
    → too_long (length w) ≡ false
    → str_from s i (length w) ≡ made (str_of w)
str_from-rest {pre} w r p q h = rw (p.parts, p.begun, q) (str_from_lem pre w r h)

-- One round of the loop, by what it finds.
module _ {s : Bytes} {i : ℕ} {pre rest : Bytes} (p : Place s i i pre [] rest) where
  replace_loop-here :
      (k : ℕ) (n to : Bytes) (b b' : DuxStrBuf)
      → length n ≤ length rest
      → is_prefix n rest ≡ true
      → too_long (length to) ≡ false
      → strbuf_append_str (some b) (some (str_of to)) ≡ made (some b')
      → replace_loop (suc k) s n to i (some b) ≡ replace_loop k s n to (i + length n) (some b')
  unfolding replace_loop
  replace_loop-here k n to b b' l e h a =
      ground (arith, length-Place p, stands_at-Place p n l, e, str_new_lem to h, a)

  replace_loop-past :
      (k : ℕ) (n to : Bytes) (b b' : DuxStrBuf) (c : ℕ) (r : Bytes)
      → length n ≤ length rest
      → is_prefix n rest ≡ false
      → rest ≡ c ∷ r
      → strbuf_append_str (some b) (some (str_of (c ∷ []))) ≡ made (some b')
      → replace_loop (suc k) s n to i (some b) ≡ replace_loop k s n to (i + 1) (some b')
  unfolding replace_loop
  replace_loop-past k n to b b' c r l e q a =
      ground (arith, length-Place p, stands_at-Place p n l, e, str_from-rest (c ∷ []) r p q refl, a)

  replace_loop-short :
      (k : ℕ) (n to : Bytes) (b b' : DuxStrBuf)
      → length rest < length n
      → too_long (length rest) ≡ false
      → strbuf_append_str (some b) (some (str_of rest)) ≡ made (some b')
      → replace_loop (suc k) s n to i (some b) ≡ made (if ltb i (length s) then some b' else some b)
  unfolding replace_loop
  replace_loop-short k n to b b' l h a =
      let tail = str_from-rest rest [] p (sym (append-nil rest)) h in
      let size : length s - i ≡ length rest = omega (arith, length-Place p) in
      ground (arith, length-Place p, size, tail, a)

-- How the loop ends: with the bytes `bs` in the buffer.
abbrev pub Ends : Attempt (Option DuxStrBuf) → Bytes → Type 0
Ends m bs = (b : DuxStrBuf) × (m ≡ made (some b)) × (b.bytes ≡ bs)

tail_lem :
    (k : ℕ) (s n to : Bytes) (i : ℕ) (pre rest : Bytes) (b : DuxStrBuf)
    → HasRoom b
    → Place s i i pre [] rest
    → length rest < length n
    → too_long (length rest) ≡ false
    → Ends (replace_loop (suc k) s n to i (some b)) (b.bytes ++ rest)
tail_lem k s n to i pre rest b room p l h =
    let (b', a, g, room') = strbuf_append_str-HasRoom b (str_of rest) room in
    let whole = replace_loop-short p k n to b b' l h a in
    elim (Bool-cases (ltb i (length s))) [
      | inl e ↦ (b', ground (arith, whole), g)
      | inr e ↦
          let nothing : rest ≡ [] = no_bytes rest (ground (arith, length-Place p)) in
          (b, ground (arith, whole), rw nothing (sym (append-nil b.bytes)))
    ]

-- The buffer gets the pieces that are still to come, joined with the new string.
replace_loop_lem :
    (k : ℕ) (s n to : Bytes) (i : ℕ) (pre rest : Bytes) (b : DuxStrBuf)
    → 0 < length n
    → too_long (length to) ≡ false
    → too_long (length s) ≡ false
    → HasRoom b
    → Place s i i pre [] rest
    → length rest < k
    → Ends (replace_loop k s n to i (some b)) (b.bytes ++ joined to (pieces n 0 rest))
unfolding joined
replace_loop_lem zero s n to i pre rest b ne ft fs room p h = absurd (omega arith)
replace_loop_lem (suc k) s n to i pre rest b ne ft fs room p h = elim (view n rest ne) [
  | here r q ↦
      let size : length rest ≡ length n + length r =
        omega (arith, ap length q, length-append n r) in
      let pref : is_prefix n rest ≡ true = rw q (is_prefix-append n r) in
      let next = step_here n r (subst (λ (bs : Bytes). Place s i i pre [] bs) q p) in
      let (b', a, g, room') = strbuf_append_str-HasRoom b (str_of to) room in
      let (c, d, f) =
        replace_loop_lem k s n to (i + length n) (pre ++ n) r b' ne ft fs room' next
          (omega (arith, size, ne)) in
      (
        c,
        replace_loop-here p k n to b b' (omega (arith, size)) pref ft a ∙ d,
        f
            ∙ rw (g, q, pieces-here n r ne, joined-here to n r)
                (append_assoc b.bytes to (joined to (pieces n 0 r))),
      )
  | past c r q l e ↦
      let next = step_here (c ∷ []) r (subst (λ (bs : Bytes). Place s i i pre [] bs) q p) in
      let (b', a, g, room') = strbuf_append_str-HasRoom b (str_of (c ∷ [])) room in
      let (d, t, f) =
        replace_loop_lem k s n to (i + 1) (pre ++ (c ∷ [])) r b' ne ft fs room' next
          (omega (arith, ap length q)) in
      (
        d,
        replace_loop-past p k n to b b' c r l e q a ∙ t,
        f
            ∙ rw (g, q, pieces-past n c r (rw (sym q) e), joined-front to c (pieces n 0 r))
                (append_assoc b.bytes (c ∷ []) (joined to (pieces n 0 r))),
      )
  | short l ↦ rw (pieces-short n rest l) (tail_lem k s n to i pre rest b room p l rest_fits)
]
  where
    rest_fits : too_long (length rest) ≡ false
    rest_fits = ground (arith, length-Place p)

pub str_replace_all_lem :
    (s n : DuxStr) (to : Option DuxStr)
    → 0 < length n.bytes
    → too_long (length s.bytes) ≡ false
    → too_long (length (text to)) ≡ false
    → str_replace_all (some s) (some n) to ≡ str_new (joined (text to) (pieces n.bytes 0 s.bytes))
unfolding str_replace_all strbuf_build
str_replace_all_lem s n to ne fs ft =
    let start : Place s.bytes 0 0 [] [] s.bytes = record {
      parts = refl;
      begun = refl;
      reached = refl;
    } in
    let (b, d, f) =
      replace_loop_lem (length s.bytes + 1) s.bytes n.bytes (text to) 0 [] s.bytes strbuf_new ne ft
        fs strbuf_new-HasRoom start (omega arith) in
    ground (arith, d, f, strbuf_new_lem)
