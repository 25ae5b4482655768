-- ===== src/Runtime/DuxStr/Splits.antt =====
-- duxrt_str_split of src/runtime/str.c finds the pieces.
use mathlib.Core.List.{append_assoc, append-nil}
use dux_lang.Prelude.{
  ℕ, zero, suc, ◌+◌, ◌-◌, ◌≤◌, ◌<◌, true, false, none, some, List, [], ◌∷◌, ◌++◌, map, leb, length,
  length-append, ◌≡◌, refl, sym, ap, subst, ◌∙◌, arith,
}
use dux_lang.Runtime.DuxStr.{Bytes, DuxStr, made, too_long, str_of, str_from}
use dux_lang.Runtime.DuxStr.Search.{stands_at}
use dux_lang.Runtime.DuxStr.Split.{single_from, split_loop, str_split}
use dux_lang.Runtime.DuxStr.Pieces.{
  is_prefix, is_prefix-append, add_front, add_front_assoc, pieces, pieces-here, pieces-past,
  pieces-short, add_front-pieces,
}
use dux_lang.Runtime.DuxStr.Reads.{stands_at_lem, str_from_lem}
use dux_lang.Runtime.DuxStr.Views.{here, past, short, view}

-- A place in a string, in the terms of the bytes before the piece in the making, those of it, and
-- those from the place on.
pub record Place (s : Bytes) (i : ℕ) (prev : ℕ) (pre cur rest : Bytes) : Type 0 where
  pub parts : s ≡ pre ++ (cur ++ rest)
  pub begun : prev ≡ length pre
  pub reached : i ≡ length pre + length cur

pub step_here :
    {s : Bytes} {i prev : ℕ} {pre cur : Bytes} (n r : Bytes)
    → Place s i prev pre cur (n ++ r)
    → Place s (i + length n) (i + length n) (pre ++ (cur ++ n)) [] r
step_here {s} {i} {prev} {pre} {cur} n r p = record {
  parts = p.parts ∙ simp append_assoc refl;
  begun = omega (arith, p.reached, length-append pre (cur ++ n), length-append cur n);
  reached = omega (arith, p.reached, length-append pre (cur ++ n), length-append cur n);
}

pub step_past :
    {s : Bytes} {i prev : ℕ} {pre cur : Bytes} {b : ℕ} {r : Bytes}
    → Place s i prev pre cur (b ∷ r)
    → Place s (i + 1) prev pre (cur ++ (b ∷ [])) r
step_past {s} {i} {prev} {pre} {cur} {b} {r} p = record {
  parts = p.parts ∙ simp append_assoc refl;
  begun = p.begun;
  reached = omega (arith, p.reached, length-append cur (b ∷ []));
}

module _ {s : Bytes} {i prev : ℕ} {pre cur rest : Bytes} (p : Place s i prev pre cur rest) where
  pub length-Place : length s ≡ i + length rest
  length-Place =
      omega (
        arith,
        ap length p.parts,
        p.reached,
        length-append pre (cur ++ rest),
        length-append cur rest,
      )

  pub stands_at-Place :
      (n : Bytes) → length n ≤ length rest → stands_at s n i ≡ made (is_prefix n rest)
  stands_at-Place n h =
      rw (p.parts ∙ sym (append_assoc pre cur rest), p.reached ∙ sym (length-append pre cur))
        (stands_at_lem (pre ++ cur) rest n h)

  pub str_from-Place :
      too_long (length cur) ≡ false
      → (n : ℕ) → n ≡ length cur
      → str_from s prev n ≡ made (str_of cur)
  str_from-Place h n e = rw (p.parts, p.begun, e) (str_from_lem pre cur rest h)

-- One round of the loop, by what it finds.
module _ {s : Bytes} {i prev : ℕ} {pre cur rest : Bytes} (p : Place s i prev pre cur rest) where
  enough : (n : Bytes) → length n ≤ length rest → leb (i + length n) (length s) ≡ true
  enough n l = ground (arith, length-Place p)

  split_loop-here :
      (k : ℕ) (n : Bytes) (acc : List DuxStr)
      → length n ≤ length rest
      → is_prefix n rest ≡ true
      → too_long (length cur) ≡ false
      → split_loop (suc k) s n i prev acc
        ≡ split_loop k s n (i + length n) (i + length n) (acc ++ (str_of cur ∷ []))
  unfolding split_loop
  split_loop-here k n acc l e h = ground (
    arith,
    enough n l,
    stands_at-Place p n l,
    e,
    str_from-Place p h (i - prev) (omega (arith, p.begun, p.reached)),
  )

  split_loop-past :
      (k : ℕ) (n : Bytes) (acc : List DuxStr)
      → length n ≤ length rest
      → is_prefix n rest ≡ false
      → split_loop (suc k) s n i prev acc ≡ split_loop k s n (i + 1) prev acc
  unfolding split_loop
  split_loop-past k n acc l e = ground (arith, enough n l, stands_at-Place p n l, e)

  split_loop-short :
      (k : ℕ) (n : Bytes) (acc : List DuxStr)
      → length rest < length n
      → too_long (length (cur ++ rest)) ≡ false
      → split_loop (suc k) s n i prev acc ≡ made (acc ++ (str_of (cur ++ rest) ∷ []))
  unfolding split_loop
  split_loop-short k n acc l h =
      let few : leb (i + length n) (length s) ≡ false = ground (arith, length-Place p) in
      let whole : Place s (length s) prev pre (cur ++ rest) [] = record {
        parts = p.parts ∙ simp (append_assoc, append-nil) refl;
        begun = p.begun;
        reached = omega (arith, length-Place p, p.reached, length-append cur rest);
      } in
      ground (
        arith,
        few,
        str_from-Place whole h (length s - prev) (omega (arith, whole.reached, p.begun)),
      )

-- The pieces that are still to come are those of what remains, the first with the piece in the
-- making before it.
split_loop_lem :
    (k : ℕ) (s n : Bytes) (i prev : ℕ) (pre cur rest : Bytes) (acc : List DuxStr)
    → 0 < length n
    → too_long (length s) ≡ false
    → Place s i prev pre cur rest
    → length rest < k
    → split_loop k s n i prev acc ≡ made (acc ++ map str_of (add_front cur (pieces n 0 rest)))
split_loop_lem zero s n i prev pre cur rest acc ne fits p h = absurd (omega arith)
split_loop_lem (suc k) s n i prev pre cur rest acc ne fits p h = elim (view n rest ne) [
  | here r q ↦
      let size_rest : length rest ≡ length n + length r =
        omega (arith, ap length q, length-append n r) in
      let pref : is_prefix n rest ≡ true = rw q (is_prefix-append n r) in
      let next = step_here n r (subst (λ (bs : Bytes). Place s i prev pre cur bs) q p) in
      split_loop-here p k n acc (omega (arith, size_rest)) pref cur_fits
      ∙ split_loop_lem k s n (i + length n) (i + length n) (pre ++ (cur ++ n)) [] r
          (acc ++ (str_of cur ∷ [])) ne fits next (omega (arith, size_rest, ne))
      ∙ rw (q, pieces-here n r ne) (simp (append_assoc, append-nil, add_front-pieces) refl)
  | past b r q l e ↦
      let next = step_past (subst (λ (bs : Bytes). Place s i prev pre cur bs) q p) in
      split_loop-past p k n acc l e
      ∙ split_loop_lem k s n (i + 1) prev pre (cur ++ (b ∷ [])) r acc ne fits next
          (omega (arith, ap length q))
      ∙ rw (q, pieces-past n b r (rw (sym q) e), add_front_assoc cur (b ∷ []) (pieces n 0 r)) refl
  | short l ↦ split_loop-short p k n acc l whole_fits ∙ rw (pieces-short n rest l) refl
]
  where
    size : length s ≡ length pre + (length cur + length rest)
    size = omega (arith, length-Place p, p.reached)

    cur_fits : too_long (length cur) ≡ false
    cur_fits = ground (arith, size)

    whole_fits : too_long (length (cur ++ rest)) ≡ false
    whole_fits = ground (arith, size, length-append cur rest)

single_from_lem :
    (s a rest : Bytes) (i : ℕ) (acc : List DuxStr)
    → s ≡ a ++ rest
    → i ≡ length a
    → single_from (length rest) s i acc ≡ made (acc ++ map (λ (b : ℕ). str_of (b ∷ [])) rest)
unfolding single_from
single_from_lem s a [] i acc e g = rw (append-nil acc) refl
single_from_lem s a (b ∷ rest) i acc e g =
    rw (e, g, str_from_lem a (b ∷ []) rest refl)
      (single_from_lem (a ++ (b ∷ rest)) (a ++ (b ∷ [])) rest (length a + 1)
          (acc ++ (str_of (b ∷ []) ∷ [])) (simp append_assoc refl)
          (omega (arith, length-append a (b ∷ [])))
        ∙ simp append_assoc refl)

-- A separator that is not empty cuts the string in its pieces.
pub str_split_lem :
    (s n : DuxStr)
    → 0 < length n.bytes
    → too_long (length s.bytes) ≡ false
    → str_split (some s) (some n) ≡ made (map str_of (pieces n.bytes 0 s.bytes))
unfolding str_split
str_split_lem s n ne fits =
    let start : Place s.bytes 0 0 [] [] s.bytes = record {
      parts = refl;
      begun = refl;
      reached = refl;
    } in
    ground (
      arith,
      split_loop_lem (length s.bytes + 1) s.bytes n.bytes 0 0 [] [] s.bytes [] ne fits start
          (omega arith),
      add_front-pieces n.bytes 0 s.bytes,
    )

-- No separator, or an empty one, cuts the string in its bytes.
pub str_split_single :
    (s : DuxStr) → str_split (some s) none ≡ made (map (λ (b : ℕ). str_of (b ∷ [])) s.bytes)
unfolding str_split
str_split_single s = single_from_lem s.bytes [] s.bytes 0 [] refl refl
