-- ===== src/Runtime/DuxStr/Reads.antt =====
-- What the accesses of src/runtime/str.c read of a string that is given in parts.
use dux_lang.Prelude.{ℕ, ◌≤◌, Bool, false, [], ◌∷◌, ◌++◌, length, ◌≡◌, refl, ap, arith}
use dux_lang.Runtime.DuxStr.{Bytes, made, too_long, str_of, str_new, read_at, str_from, bytes_eq}
use dux_lang.Runtime.DuxStr.Search.{stands_at}
use dux_lang.Runtime.DuxStr.Pieces.{is_prefix}

pub read_at-append : (a b : Bytes) (n : ℕ) → read_at (a ++ b) (length a) n ≡ read_at b 0 n
read_at-append [] b n = refl
read_at-append (x ∷ a) b n = read_at-append a b n

pub read_at-front : (w c : Bytes) → read_at (w ++ c) 0 (length w) ≡ made w
read_at-front [] [] = refl
read_at-front [] (x ∷ c) = refl
read_at-front (b ∷ w) c = rw (read_at-front w c) refl

pub str_new_lem : (w : Bytes) → too_long (length w) ≡ false → str_new w ≡ made (str_of w)
unfolding str_new
str_new_lem w h = rw h refl

-- The middle part of a string in three parts.
pub str_from_lem :
    (a w c : Bytes)
    → too_long (length w) ≡ false
    → str_from (a ++ (w ++ c)) (length a) (length w) ≡ made (str_of w)
unfolding str_from
str_from_lem a w c h =
    rw (h, read_at-append a (w ++ c) (length w), read_at-front w c) (str_new_lem w h)

-- As many bytes as there are in `n`, equal to `n` where `n` is a prefix.
read_at-is_prefix :
    (n rest : Bytes)
    → length n ≤ length rest
    → (w : Bytes) × (read_at rest 0 (length n) ≡ made w) × (bytes_eq w n ≡ is_prefix n rest)
read_at-is_prefix [] [] h = ([], refl, refl)
read_at-is_prefix [] (b ∷ bs) h = ([], refl, refl)
read_at-is_prefix (x ∷ n) [] h = absurd (omega arith)
read_at-is_prefix (x ∷ n) (b ∷ bs) h =
    let (w, r, e) = read_at-is_prefix n bs (omega arith) in (b ∷ w, rw r refl, ground (arith, e))

-- A comparison at a place inside of a string.
pub stands_at_lem :
    (pre rest n : Bytes)
    → length n ≤ length rest
    → stands_at (pre ++ rest) n (length pre) ≡ made (is_prefix n rest)
stands_at_lem pre rest n h =
    let (w, r, e) = read_at-is_prefix n rest h in
    rw (read_at-append pre rest (length n), r) (ap (λ (b : Bool). made b) e)
