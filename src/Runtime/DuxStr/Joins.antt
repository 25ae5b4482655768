-- ===== src/Runtime/DuxStr/Joins.antt =====
-- The pieces of a string give the string back, and the separator is in none of them: what
-- duxrt_str_split of src/runtime/str.c cuts and where.
use mathlib.Core.List.{append_assoc, append-nil}
use dux_lang.Prelude.{
  ℕ, zero, suc, ◌<◌, Bool, true, false, ◌&&◌, ◌||◌, not, List, [], ◌∷◌, ◌++◌, length, length-append,
  ◌≡◌, refl, sym, ap, subst, ◌∙◌, arith, Bool-cases, inl, inr, absurd_bool,
}
use dux_lang.Runtime.DuxStr.{Bytes}
use dux_lang.Runtime.DuxStr.Pieces.{
  is_prefix, is_prefix-append, is_prefix-rest, is_prefix-length, add_front, add_front-pieces,
  pieces, pieces-here, pieces-past, pieces-short, joined,
}
use dux_lang.Runtime.DuxStr.Views.{here, past, short, view}

pub joined-front :
    (t : Bytes) (b : ℕ) (ps : List Bytes) → joined t (add_front (b ∷ []) ps) ≡ b ∷ joined t ps
unfolding joined
joined-front t b [] = refl
joined-front t b (p ∷ []) = refl
joined-front t b (p ∷ (q ∷ ps)) = refl

joined-front_empty :
    (t xs : Bytes) (ps : List Bytes)
    → joined t ([] ∷ add_front xs ps) ≡ t ++ joined t (add_front xs ps)
unfolding joined
joined-front_empty t xs [] = refl
joined-front_empty t xs (p ∷ ps) = refl

pub joined-here : (t n r : Bytes) → joined t ([] ∷ pieces n 0 r) ≡ t ++ joined t (pieces n 0 r)
joined-here t n r =
    subst (λ (ps : List Bytes). joined t ([] ∷ ps) ≡ t ++ joined t ps) (add_front-pieces n 0 r)
      (joined-front_empty t [] (pieces n 0 r))

-- `n` stands somewhere in the bytes.
abbrev pub occurs : Bytes → Bytes → Bool
occurs n [] = is_prefix n []
occurs n (b ∷ bs) = is_prefix n (b ∷ bs) || occurs n bs

abbrev pub in_none : Bytes → List Bytes → Bool
in_none n [] = true
in_none n (p ∷ ps) = not (occurs n p) && in_none n ps

pub occurs-length : (n bs : Bytes) → length bs < length n → occurs n bs ≡ false
occurs-length n [] h = is_prefix-length n [] h
occurs-length n (b ∷ bs) h = rw (is_prefix-length n (b ∷ bs) h) (occurs-length n bs (omega arith))

is_prefix-more : (n p q : Bytes) → is_prefix n (p ++ q) ≡ false → is_prefix n p ≡ false
is_prefix-more n p q h = elim (Bool-cases (is_prefix n p)) [
  | inl e ↦
      let (r, g) = is_prefix-rest n p e in
      let whole : p ++ q ≡ n ++ (r ++ q) = ap (λ (bs : Bytes). bs ++ q) g ∙ append_assoc n r q in
      absurd (
        absurd_bool (is_prefix-append n (r ++ q))
          (subst (λ (bs : Bytes). is_prefix n bs ≡ false) whole h))
  | inr e ↦ e
]

-- The first piece begins the joined string.
joined-rest : (t p : Bytes) (ps : List Bytes) → (q : Bytes) × (joined t (p ∷ ps) ≡ p ++ q)
unfolding joined
joined-rest t p [] = ([], sym (append-nil p))
joined-rest t p (q ∷ ps) = (t ++ joined t (q ∷ ps), refl)

in_none-past :
    (n : Bytes) (b : ℕ) (ps : List Bytes) (r : Bytes)
    → is_prefix n (b ∷ r) ≡ false
    → joined n ps ≡ r
    → is_prefix n [] ≡ false
    → in_none n ps ≡ true
    → in_none n (add_front (b ∷ []) ps) ≡ true
unfolding joined
in_none-past n b [] r e j ne h =
    let alone = subst (λ (bs : Bytes). is_prefix n (b ∷ bs) ≡ false) (sym j) e in ground arith
in_none-past n b (p ∷ ps) r e j ne h =
    let (q, g) = joined-rest n p ps in
    let shut : is_prefix n ((b ∷ p) ++ q) ≡ false =
      subst (λ (bs : Bytes). is_prefix n (b ∷ bs) ≡ false) (sym j ∙ g) e in
    ground (arith, is_prefix-more n (b ∷ p) q shut)

-- The pieces, joined with the separator, are the string, and the separator is in none of them.
pub pieces_lem :
    (k : ℕ) (n bs : Bytes)
    → 0 < length n
    → length bs < k
    → (joined n (pieces n 0 bs) ≡ bs) × (in_none n (pieces n 0 bs) ≡ true)
unfolding joined
pieces_lem zero n bs ne h = absurd (omega arith)
pieces_lem (suc k) n bs ne h = elim (view n bs ne) [
  | here r q ↦
      let (j, c) = pieces_lem k n r ne (omega (arith, ap length q, length-append n r)) in
      rw (q, pieces-here n r ne)
        (joined-here n n r ∙ ap (λ (r' : Bytes). n ++ r') j, rw (is_prefix-length n [] ne) c)
  | past b r q l e ↦
      let (j, c) = pieces_lem k n r ne (omega (arith, ap length q)) in
      let off : is_prefix n (b ∷ r) ≡ false = rw (sym q) e in
      rw (q, pieces-past n b r off)
        (
          joined-front n b (pieces n 0 r) ∙ ap (λ (r' : Bytes). b ∷ r') j,
          in_none-past n b (pieces n 0 r) r off j (is_prefix-length n [] ne) c,
        )
  | short l ↦ rw (pieces-short n bs l) (refl, rw (occurs-length n bs l) refl)
]
