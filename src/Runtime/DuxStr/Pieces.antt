-- ===== src/Runtime/DuxStr/Pieces.antt =====
-- What duxrt_str_split and duxrt_str_replace_all of src/runtime/str.c stand for: a string cut at a
-- separator, by recursion on its bytes, and strings put together with one between each two.
use mathlib.Core.List.{append_assoc}
use dux_lang.Prelude.{
  ℕ, zero, suc, ◌<◌, Bool, true, false, ◌&&◌, List, [], ◌∷◌, ◌++◌, nat_eq, length, if◌then◌else◌,
  ◌≡◌, refl, sym, ap, arith, Bool-cases, inl, inr, absurd_bool,
}
use dux_lang.Runtime.DuxStr.{Bytes}

abbrev pub is_prefix : Bytes → Bytes → Bool
is_prefix [] bs = true
is_prefix (x ∷ xs) [] = false
is_prefix (x ∷ xs) (b ∷ bs) = nat_eq x b && is_prefix xs bs

-- The bytes put before the first piece.
abbrev pub add_front : Bytes → List Bytes → List Bytes
add_front bs [] = bs ∷ []
add_front bs (p ∷ ps) = (bs ++ p) ∷ ps

-- How many bytes come behind the first.
abbrev pub behind_first : Bytes → ℕ
behind_first [] = 0
behind_first (b ∷ bs) = length bs

-- The pieces between the places, from the left and apart, where `sep` stands; the first `skip` bytes
-- belong to a place found before.
unfoldable pub pieces : Bytes → ℕ → Bytes → List Bytes
pieces sep skip [] = [] ∷ []
pieces sep (suc skip) (b ∷ bs) = pieces sep skip bs
pieces sep zero (b ∷ bs) =
    let found = is_prefix sep (b ∷ bs) in
    let rest = pieces sep (if found then behind_first sep else 0) bs in
    if found then [] ∷ rest else add_front (b ∷ []) rest

unfoldable pub joined : Bytes → List Bytes → Bytes
joined sep [] = []
joined sep (p ∷ []) = p
joined sep (p ∷ (q ∷ ps)) = p ++ (sep ++ joined sep (q ∷ ps))

pub add_front_assoc :
    (xs ys : Bytes) (ps : List Bytes) → add_front xs (add_front ys ps) ≡ add_front (xs ++ ys) ps
add_front_assoc xs ys [] = refl
add_front_assoc xs ys (p ∷ ps) = ap (λ (q : Bytes). q ∷ ps) (sym (append_assoc xs ys p))

pub is_prefix-append : (n r : Bytes) → is_prefix n (n ++ r) ≡ true
is_prefix-append [] r = refl
is_prefix-append (x ∷ n) r = ground (arith, is_prefix-append n r)

-- A prefix is what a string begins with.
pub is_prefix-rest : (n bs : Bytes) → is_prefix n bs ≡ true → (r : Bytes) × (bs ≡ n ++ r)
is_prefix-rest [] bs h = (bs, refl)
is_prefix-rest (x ∷ n) [] h = absurd (absurd_bool h refl)
is_prefix-rest (x ∷ n) (b ∷ bs) h =
    let e : x ≡ b = ground arith in
    let rest : is_prefix n bs ≡ true = ground arith in
    let (r, q) = is_prefix-rest n bs rest in (r, cc)

pub is_prefix-length : (n bs : Bytes) → length bs < length n → is_prefix n bs ≡ false
is_prefix-length [] bs h = absurd (omega arith)
is_prefix-length (x ∷ n) [] h = refl
is_prefix-length (x ∷ n) (b ∷ bs) h = ground (arith, is_prefix-length n bs (omega arith))

-- There is always a first piece.
pub add_front-pieces :
    (n : Bytes) (k : ℕ) (bs : Bytes) → add_front [] (pieces n k bs) ≡ pieces n k bs
unfolding pieces
add_front-pieces n k [] = refl
add_front-pieces n (suc k) (b ∷ bs) = add_front-pieces n k bs
add_front-pieces n zero (b ∷ bs) = elim (Bool-cases (is_prefix n (b ∷ bs))) [
  | inl e ↦ rw e refl
  | inr e ↦ rw e (add_front_assoc [] (b ∷ []) (pieces n 0 bs))
]

pieces-skip : (n w r : Bytes) → pieces n (length w) (w ++ r) ≡ pieces n 0 r
unfolding pieces
pieces-skip n [] r = refl
pieces-skip n (b ∷ w) r = pieces-skip n w r

pub pieces-here : (n r : Bytes) → 0 < length n → pieces n 0 (n ++ r) ≡ [] ∷ pieces n 0 r
unfolding pieces
pieces-here [] r h = absurd (omega arith)
pieces-here (c ∷ w) r h =
    rw (is_prefix-append (c ∷ w) r) (ap (λ (ps : List Bytes). [] ∷ ps) (pieces-skip (c ∷ w) w r))

pub pieces-past :
    (n : Bytes) (b : ℕ) (r : Bytes)
    → is_prefix n (b ∷ r) ≡ false
    → pieces n 0 (b ∷ r) ≡ add_front (b ∷ []) (pieces n 0 r)
unfolding pieces
pieces-past n b r h = rw h refl

pub pieces-short : (n bs : Bytes) → length bs < length n → pieces n 0 bs ≡ bs ∷ []
unfolding pieces
pieces-short n [] h = refl
pieces-short n (b ∷ bs) h = rw (is_prefix-length n (b ∷ bs) h, pieces-short n bs (omega arith)) refl
