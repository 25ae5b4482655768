-- ===== src/Runtime/DuxStr.antt =====
-- src/runtime/str.c: reference-counted strings. The functions are here and, by what they do, in
-- Search, Edit, Split and Join. A string is its bytes, which may be 0; `ext` says that they stand in a
-- buffer of their own. A pointer is `none` when it is null. What is not finite here: a length, an
-- index and a capacity are natural numbers or a `long long`, and a string of 2^31 bytes or more is
-- not made (abort()). Memory itself never runs out.
pub mod Search
pub mod Buffer
pub mod Edit
pub mod Split
pub mod Join
pub mod Pieces
pub mod Reads
pub mod Views
pub mod Splits
pub mod Joins
pub mod Buffers
pub mod Replaces
pub mod RoundTrip
pub mod Occurrences
pub mod WhiteSpace
pub mod Trims
use Prim.Native.Nat.{◌^◌, ◌%◌}
use dux_lang.Prelude.{
  ℕ, zero, suc, ◌+◌, ◌-◌, Bool, true, false, ◌&&◌, Option, none, some, List, [], ◌∷◌, ◌++◌, ltb,
  leb, nat_eq, length, if◌then◌else◌,
}
use dux_lang.Ast.{LongLong, pos, negsuc}

abbrev pub Bytes : Type 0
Bytes = List ℕ

pub record DuxStr : Type 0 where
  -- the bits of an int32_t; all ones, -1, for a literal, which is never freed
  pub refcount : ℕ
  pub ext : Bool
  pub bytes : Bytes

pub data Attempt (A : Type 0) : Type 0 where
  made : A → Attempt A
  -- abort(), as a string would be too long
  aborts : Attempt A
  -- an access outside of a string or a buffer, or a signed overflow
  undefined : Attempt A
  -- the IndexError of a list
  throws : Attempt A
  out_of_fuel : Attempt A

infixl 5 ◌>>=◌
abbrev pub ◌>>=◌ : {A B : Type 0} → Attempt A → (A → Attempt B) → Attempt B
made a >>= f = f a
aborts >>= f = aborts
undefined >>= f = undefined
throws >>= f = throws
out_of_fuel >>= f = out_of_fuel

abbrev pub inline_max : ℕ
inline_max = 63

abbrev pub too_long : ℕ → Bool
too_long n = leb (2 ^ 31) n

-- A new string of these bytes.
abbrev pub str_of : Bytes → DuxStr
str_of bs = record { refcount = 1; ext = ltb inline_max (length bs); bytes = bs }

unfoldable pub str_new : Bytes → Attempt DuxStr
str_new bs = if too_long (length bs) then aborts else made (str_of bs)

-- The `n` bytes from `i` on.
abbrev pub read_at : Bytes → ℕ → ℕ → Attempt Bytes
read_at bs zero zero = made []
read_at [] zero (suc n) = undefined
read_at (b ∷ bs) zero (suc n) = elim (read_at bs zero n) [
  | made cs ↦ made (b ∷ cs)
  | aborts ↦ aborts
  | undefined ↦ undefined
  | throws ↦ throws
  | out_of_fuel ↦ out_of_fuel
]
read_at [] (suc i) n = undefined
read_at (b ∷ bs) (suc i) n = read_at bs i n

-- A new string of the `n` bytes from `i` on.
unfoldable pub str_from : Bytes → ℕ → ℕ → Attempt DuxStr
str_from bs i n = if too_long n then aborts else (read_at bs i n >>= λ cs. str_new cs)

abbrev pub empty_str : Attempt DuxStr
empty_str = str_new []

abbrev pub immortal : ℕ
immortal = 2 ^ 32 - 1

abbrev pub retained : DuxStr → DuxStr
retained s =
    if nat_eq s.refcount immortal then s else record s { refcount = (s.refcount + 1) % 2 ^ 32 }

unfoldable pub str_retain : Option DuxStr → Option DuxStr
str_retain none = none
str_retain (some s) = some (retained s)

-- `none` when the string is freed, and for a null pointer.
unfoldable pub str_release : Option DuxStr → Option DuxStr
str_release none = none
str_release (some s) =
    if nat_eq s.refcount immortal
    then some s
    else if nat_eq s.refcount 1
    then none
    else some (record s { refcount = (s.refcount + immortal) % 2 ^ 32 })

-- The bytes behind a pointer, none behind a null pointer.
abbrev pub text : Option DuxStr → Bytes
text none = []
text (some s) = s.bytes

unfoldable pub str_concat : Option DuxStr → Option DuxStr → Attempt DuxStr
str_concat a b = str_new (text a ++ text b)

unfoldable pub str_length : Option DuxStr → ℕ
str_length s = length (text s)

-- The place in the string, a negative index counted from the end; `none` where it is out of range.
abbrev pub byte_place : LongLong → ℕ → Option ℕ
byte_place (pos n) len = if ltb n len then some n else none
byte_place (negsuc n) len = if ltb n len then some (len - (n + 1)) else none

unfoldable pub str_index : Option DuxStr → LongLong → Attempt DuxStr
str_index none i = empty_str
str_index (some s) i = elim (byte_place i (length s.bytes)) [
  | none ↦ empty_str
  | some k ↦ str_from s.bytes k 1
]

-- `start` not below 0, `end` not above the length; a negative `end` is not above any `start`.
abbrev pub from_zero : LongLong → ℕ
from_zero (pos n) = n
from_zero (negsuc n) = 0

abbrev pub up_to : LongLong → ℕ → ℕ
up_to (pos n) len = if ltb len n then len else n
up_to (negsuc n) len = 0

unfoldable pub str_slice : Option DuxStr → LongLong → LongLong → Attempt DuxStr
str_slice none start end = empty_str
str_slice (some s) start end =
    let first = from_zero start in
    let last = up_to end (length s.bytes) in
    if leb last first then empty_str else str_from s.bytes first (last - first)

-- memcmp gives 0
abbrev pub bytes_eq : Bytes → Bytes → Bool
bytes_eq [] [] = true
bytes_eq [] (y ∷ ys) = false
bytes_eq (x ∷ xs) [] = false
bytes_eq (x ∷ xs) (y ∷ ys) = nat_eq x y && bytes_eq xs ys

unfoldable pub str_eq : Option DuxStr → Option DuxStr → Attempt Bool
str_eq none none = made true
str_eq none (some b) = made false
str_eq (some a) none = made false
str_eq (some a) (some b) =
    if nat_eq (length a.bytes) (length b.bytes)
    then (read_at b.bytes 0 (length a.bytes) >>= λ w. made (bytes_eq a.bytes w))
    else made false

-- The code of the first byte, 0 if there is none.
unfoldable pub str_ord : Option DuxStr → ℕ
str_ord s = elim (text s) [ [] ↦ 0 | b ∷ bs ↦ b ]

unfoldable pub str_chr : LongLong → Attempt DuxStr
str_chr (pos n) = if ltb n 1 then empty_str else if ltb 127 n then empty_str else str_new (n ∷ [])
str_chr (negsuc n) = empty_str

-- memcmp on the bytes that both have, and the lengths where these are the same: -1, 0 or 1.
abbrev pub compared : Bytes → Bytes → LongLong
compared [] [] = pos 0
compared [] (y ∷ ys) = negsuc 0
compared (x ∷ xs) [] = pos 1
compared (x ∷ xs) (y ∷ ys) =
    let rest = compared xs ys in if ltb x y then negsuc 0 else if ltb y x then pos 1 else rest

unfoldable pub str_cmp : Option DuxStr → Option DuxStr → LongLong
str_cmp none none = pos 0
str_cmp none (some b) = negsuc 0
str_cmp (some a) none = pos 1
str_cmp (some a) (some b) = compared a.bytes b.bytes
