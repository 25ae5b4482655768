-- ===== src/Runtime/DuxStr/Occurrences.antt =====
-- Where the searches of src/runtime/str.c find a string.
use mathlib.Core.List.{append_assoc}
use dux_lang.Prelude.{
  ℕ, zero, suc, ◌+◌, ◌-◌, ◌<◌, Bool, true, false, ◌&&◌, not, Option, none, some, [], ◌∷◌, ◌++◌, ltb,
  length, length-append, ◌≡◌, ◌⊎◌, refl, sym, ap, subst, ◌∙◌, arith, Bool-cases, inl, inr,
}
use dux_lang.Ast.{pos, negsuc}
use dux_lang.Runtime.DuxStr.{Bytes, DuxStr, Attempt, made, str_new, read_at, retained, text}
use dux_lang.Runtime.DuxStr.Search.{find_from, mem_find, str_contains, str_find}
use dux_lang.Runtime.DuxStr.Edit.{spliced, str_replace}
use dux_lang.Runtime.DuxStr.Pieces.{is_prefix, is_prefix-append, is_prefix-rest}
use dux_lang.Runtime.DuxStr.Reads.{read_at-append, read_at-front}
use dux_lang.Runtime.DuxStr.Splits.{Place, step_here, stands_at-Place}
use dux_lang.Runtime.DuxStr.Joins.{occurs, occurs-length}

-- `n` begins at none of the places of `u`, which `rest` follows.
abbrev pub begins_not : Bytes → Bytes → Bytes → Bool
begins_not n [] rest = true
begins_not n (b ∷ u) rest = not (is_prefix n (b ∷ (u ++ rest))) && begins_not n u rest

-- `n` is not in the bytes, and `p` is none; or `p` is the first place of it, counted from `i`.
abbrev pub FirstPlace : Bytes → Bytes → ℕ → Attempt (Option ℕ) → Type 0
FirstPlace n bs i m =
    (m ≡ made none) × (occurs n bs ≡ false)
    ⊎ ((u : Bytes) × (v : Bytes) × (bs ≡ u ++ (n ++ v))
        × (begins_not n u (n ++ v) ≡ true)
        × (m ≡ made (some (i + length u))))

find_from_lem :
    (k : ℕ) (s n : Bytes) (i : ℕ) (pre rest : Bytes)
    → 0 < length n
    → Place s i i pre [] rest
    → k + length n ≡ length rest + 1
    → FirstPlace n rest i (find_from k s n i)
unfolding find_from
find_from_lem zero s n i pre rest ne p h = inl (refl, occurs-length n rest (omega arith))
find_from_lem (suc k) s n i pre [] ne p h = absurd (omega arith)
find_from_lem (suc k) s n i pre (b ∷ rest) ne p h =
    let stands = stands_at-Place p n (omega arith) in
    elim (Bool-cases (is_prefix n (b ∷ rest))) [
      | inl e ↦
          let (v, q) = is_prefix-rest n (b ∷ rest) e in
          inr ([], v, q, refl, ground (arith, stands, e))
      | inr e ↦
          elim (find_from_lem k s n (i + 1) (pre ++ (b ∷ [])) rest ne (step_here (b ∷ []) rest p)
            (omega arith)) [
              | inl (m, o) ↦ inl (ground (arith, stands, e, m), ground (arith, e, o))
              | inr (u, v, q, c, m) ↦
                  let off = subst (λ (bs : Bytes). is_prefix n (b ∷ bs) ≡ false) q e in
                  inr (
                    b ∷ u,
                    v,
                    ap (λ (bs : Bytes). b ∷ bs) q,
                    ground (arith, off, c),
                    ground (arith, stands, e, m),
                  )
            ]
    ]

mem_find_lem : (s n : Bytes) → 0 < length n → FirstPlace n s 0 (mem_find s n)
unfolding mem_find
mem_find_lem s n ne = elim (Bool-cases (ltb (length s) (length n))) [
  | inl e ↦ inl (ground arith, occurs-length n s (ground arith))
  | inr e ↦
      let start : Place s 0 0 [] [] s = record { parts = refl; begun = refl; reached = refl } in
      let few : length s - length n + 1 + length n ≡ length s + 1 = ground arith in
      elim (find_from_lem (length s - length n + 1) s n 0 [] s ne start few) [
        | inl (m, o) ↦ inl (ground (arith, m), o)
        | inr (u, v, q, c, m) ↦ inr (u, v, q, c, ground (arith, m))
      ]
]

occurs-append : (u n v : Bytes) → occurs n (u ++ (n ++ v)) ≡ true
occurs-append [] [] [] = refl
occurs-append [] [] (b ∷ v) = refl
occurs-append [] (x ∷ n) v = rw (is_prefix-append (x ∷ n) v) refl
occurs-append (b ∷ u) n v = ground (arith, occurs-append u n v)

spliced_lem :
    (u n v to : Bytes) → spliced (u ++ (n ++ v)) (length u) (length n) to ≡ str_new (u ++ (to ++ v))
unfolding str_new
spliced_lem u n v to =
    let size : length (u ++ (n ++ v)) - length u - length n ≡ length v =
      omega (arith, length-append u (n ++ v), length-append n v) in
    let total : length (u ++ (to ++ v)) ≡ length u + length to + length v =
      omega (arith, length-append u (to ++ v), length-append to v) in
    let front = read_at-front u (n ++ v) in
    let back : read_at (u ++ (n ++ v)) (length u + length n) (length v) ≡ made v =
      rw (sym (append_assoc u n v), sym (length-append u n))
        (read_at-append (u ++ n) v (length v) ∙ whole v) in
    ground (arith, size, total, front, back)
  where
    whole : (bs : Bytes) → read_at bs 0 (length bs) ≡ made bs
    whole [] = refl
    whole (b ∷ bs) = rw (whole bs) refl

-- A search for a string that is not empty reads nothing outside of the two. Either the string stands
-- nowhere: it is not contained, there is no index, and a replacement gives the string itself,
-- retained. Or it is contained, the index is that of the first place where it stands, and a
-- replacement makes a string in which the new one (the empty one for a null pointer) is at that
-- place, or calls abort() when that is 2^31 bytes or more.
pub str_find-str_replace :
    (s n : DuxStr) (to : Option DuxStr)
    → 0 < length n.bytes
    → (occurs n.bytes s.bytes ≡ false)
        × (str_contains (some s) (some n) ≡ made false)
        × (str_find (some s) (some n) ≡ made (negsuc 0))
        × (str_replace (some s) (some n) to ≡ made (retained s))
      ⊎ ((u : Bytes) × (v : Bytes) × (s.bytes ≡ u ++ (n.bytes ++ v))
          × (begins_not n.bytes u (n.bytes ++ v) ≡ true)
          × (str_contains (some s) (some n) ≡ made true)
          × (str_find (some s) (some n) ≡ made (pos (length u)))
          × (str_replace (some s) (some n) to ≡ str_new (u ++ (text to ++ v))))
unfolding str_contains str_find str_replace
str_find-str_replace s n to ne = elim (mem_find_lem s.bytes n.bytes ne) [
  | inl (m, o) ↦ inl (o, ground (arith, m), ground (arith, m), ground (arith, m))
  | inr (u, v, q, c, m) ↦
      let put : spliced s.bytes (length u) (length n.bytes) (text to)
          ≡ str_new (u ++ (text to ++ v)) =
        rw q (spliced_lem u n.bytes v (text to)) in
      inr (u, v, q, c, ground (arith, m), ground (arith, m), ground (arith, m, put))
]
