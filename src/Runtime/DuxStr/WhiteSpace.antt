-- ===== src/Runtime/DuxStr/WhiteSpace.antt =====
-- The loops over white space of src/runtime/str.c: where they stop.
use mathlib.Core.List.{append_assoc}
use dux_lang.Prelude.{
  ℕ, zero, suc, ◌+◌, Bool, true, false, ◌&&◌, not, [], ◌∷◌, ◌++◌, length, length-append, ◌≡◌, ◌⊎◌,
  refl, sym, ap, subst, ◌∙◌, arith, Bool-cases, inl, inr,
}
use dux_lang.Runtime.DuxStr.{Bytes, made, read_at}
use dux_lang.Runtime.DuxStr.Edit.{is_ws, ws_at, skip_ws, back_ws}
use dux_lang.Runtime.DuxStr.Reads.{read_at-append}

abbrev pub all_ws : Bytes → Bool
all_ws [] = true
all_ws (b ∷ bs) = is_ws b && all_ws bs

-- The bytes do not begin with white space.
abbrev pub begins_bare : Bytes → Bool
begins_bare [] = true
begins_bare (b ∷ bs) = not (is_ws b)

-- The bytes do not end with white space.
abbrev pub ends_bare : Bytes → Bool
ends_bare [] = true
ends_bare (b ∷ []) = not (is_ws b)
ends_bare (b ∷ (c ∷ bs)) = ends_bare (c ∷ bs)

ws_at_lem : (a : Bytes) (b : ℕ) (r : Bytes) → ws_at (a ++ (b ∷ r)) (length a) ≡ made (is_ws b)
ws_at_lem a b r = ground (arith, read_at-append a (b ∷ r) 1, read_one r)
  where
    read_one : (c : Bytes) → read_at (b ∷ c) 0 1 ≡ made (b ∷ [])
    read_one [] = refl
    read_one (c ∷ cs) = refl

-- The place behind the white space.
pub skip_ws_lem :
    (s a r : Bytes) (i : ℕ)
    → s ≡ a ++ r
    → i ≡ length a
    → (w : Bytes) × (m : Bytes) × (r ≡ w ++ m)
      × (all_ws w ≡ true)
      × (begins_bare m ≡ true)
      × (skip_ws (length r) s i ≡ made (i + length w))
unfolding skip_ws
skip_ws_lem s a [] i p e = ([], [], refl, refl, refl, ground arith)
skip_ws_lem s a (b ∷ r) i p e =
    let at_b : ws_at s i ≡ made (is_ws b) = rw (p, e) (ws_at_lem a b r) in
    elim (Bool-cases (is_ws b)) [
      | inl ws ↦
          let (w, m, q, c, f, g) =
            skip_ws_lem s (a ++ (b ∷ [])) r (i + 1) (p ∙ simp append_assoc refl)
              (omega (arith, length-append a (b ∷ []))) in
          (
            b ∷ w,
            m,
            ap (λ (bs : Bytes). b ∷ bs) q,
            ground (arith, ws, c),
            f,
            ground (arith, at_b, ws, g),
          )
      | inr bare ↦ ([], b ∷ r, refl, refl, ground (arith, bare), ground (arith, at_b, bare))
    ]

-- A string is empty or has a last byte.
last_byte : (bs : Bytes) → (bs ≡ []) ⊎ ((i : Bytes) × (b : ℕ) × (bs ≡ i ++ (b ∷ [])))
last_byte [] = inl refl
last_byte (c ∷ cs) = elim (last_byte cs) [
  | inl e ↦ inr ([], c, ap (λ (bs : Bytes). c ∷ bs) e)
  | inr (i, b, e) ↦ inr (c ∷ i, b, ap (λ (bs : Bytes). c ∷ bs) e)
]

ends_bare-append : (i : Bytes) (b : ℕ) → ends_bare (i ++ (b ∷ [])) ≡ not (is_ws b)
ends_bare-append [] b = refl
ends_bare-append (c ∷ []) b = refl
ends_bare-append (c ∷ (d ∷ i)) b = ends_bare-append (d ∷ i) b

all_ws-append :
    (w : Bytes) (b : ℕ) → all_ws (w ++ (b ∷ [])) ≡ true → (all_ws w ≡ true) × (is_ws b ≡ true)
all_ws-append [] b h = (refl, ground arith)
all_ws-append (c ∷ w) b h =
    let (f, ws) = all_ws-append w b (ground arith) in (ground (arith, h, f), ws)

-- Bytes are a part that does not end with white space, and white space.
pub bare_end :
    (r : Bytes)
    → (m : Bytes) × (w : Bytes) × (r ≡ m ++ w) × (all_ws w ≡ true) × (ends_bare m ≡ true)
bare_end [] = ([], [], refl, refl, refl)
bare_end (b ∷ r) =
    let (m, w, p, d, e) = bare_end r in with_front m w (ap (λ (bs : Bytes). b ∷ bs) p) d e
  where
    with_front :
        (m w : Bytes)
        → (b ∷ r) ≡ b ∷ (m ++ w)
        → all_ws w ≡ true
        → ends_bare m ≡ true
        → (m' : Bytes) × (w' : Bytes) × ((b ∷ r) ≡ m' ++ w')
          × (all_ws w' ≡ true)
          × (ends_bare m' ≡ true)
    with_front [] w p d e = elim (Bool-cases (is_ws b)) [
      | inl ws ↦ ([], b ∷ w, p, ground (arith, ws, d), refl)
      | inr bare ↦ (b ∷ [], w, p, d, ground (arith, bare))
    ]
    with_front (c ∷ m) w p d e = (b ∷ (c ∷ m), w, p, d, e)

-- The end less the white space before it.
pub back_ws_lem :
    (n : ℕ) (s a m w c : Bytes) (i : ℕ)
    → s ≡ a ++ (m ++ (w ++ c))
    → i ≡ length a
    → length m + length w ≡ n
    → all_ws w ≡ true
    → ends_bare m ≡ true
    → back_ws n s i ≡ made (i + length m)
unfolding back_ws
back_ws_lem zero s a m w c i p e l d h = ground arith
back_ws_lem (suc n) s a m w c i p e l d h = elim (last_byte w) [
  | inl g ↦ elim (last_byte m) [
    | inl f ↦ absurd (omega (arith, l, ap length g, ap length f))
    | inr (m', b, f) ↦
        let size : length m' ≡ n =
          omega (arith, l, ap length g, ap length f, length-append m' (b ∷ [])) in
        let parts : s ≡ (a ++ m') ++ (b ∷ (w ++ c)) = p ∙ rw f (simp append_assoc refl) in
        let at_b : ws_at s (i + n) ≡ made (is_ws b) =
          rw (parts, e, sym size, sym (length-append a m')) (ws_at_lem (a ++ m') b (w ++ c)) in
        let bare : is_ws b ≡ false =
          ground (arith, ends_bare-append m' b, subst (λ (bs : Bytes). ends_bare bs ≡ true) f h) in
        ground (arith, at_b, bare, l, ap length g)
  ]
  | inr (w', b, g) ↦
      let (d', ws) = all_ws-append w' b (subst (λ (bs : Bytes). all_ws bs ≡ true) g d) in
      let size : length m + length w' ≡ n =
        omega (arith, l, ap length g, length-append w' (b ∷ [])) in
      let parts : s ≡ a ++ (m ++ (w' ++ (b ∷ c))) = p ∙ rw g (simp append_assoc refl) in
      let at_end : s ≡ (a ++ (m ++ w')) ++ (b ∷ c) = parts ∙ simp append_assoc refl in
      let place : i + n ≡ length (a ++ (m ++ w')) =
        omega (arith, e, size, length-append a (m ++ w'), length-append m w') in
      let at_b : ws_at s (i + n) ≡ made (is_ws b) =
        rw (at_end, place) (ws_at_lem (a ++ (m ++ w')) b c) in
      ground (arith, at_b, ws, back_ws_lem n s a m w' (b ∷ c) i parts e size d' h)
]
