-- ===== src/Runtime/DuxStr/Edit.antt =====
-- The functions of src/runtime/str.c that make a changed copy of a string. A copy that would be too
-- long is not made; a product of lengths of 2^63 or more has no meaning.
use Prim.Native.Nat.{◌*◌, ◌^◌}
use dux_lang.Prelude.{
  ℕ, zero, suc, ◌+◌, ◌-◌, Bool, true, false, ◌&&◌, ◌||◌, Option, none, some, [], ◌∷◌, ◌++◌, map,
  ltb, leb, nat_eq, length, if◌then◌else◌,
}
use dux_lang.Ast.{LongLong, pos, negsuc}
use dux_lang.Runtime.DuxStr.{
  Bytes, DuxStr, Attempt, made, aborts, undefined, out_of_fuel, ◌>>=◌, too_long, str_new, read_at,
  str_from, empty_str, retained, text,
}
use dux_lang.Runtime.DuxStr.Search.{stands_at, str_find}
use dux_lang.Runtime.DuxStr.Buffer.{DuxStrBuf, strbuf_new, strbuf_append_str, strbuf_build}

-- The bytes before the place, those of `to`, and the bytes behind the `n` at the place.
abbrev pub spliced : Bytes → ℕ → ℕ → Bytes → Attempt DuxStr
spliced s i n to =
    if too_long (i + length to + (length s - i - n))
    then aborts
    else (read_at s 0 i >>= λ front.
        read_at s (i + n) (length s - i - n) >>= λ back. str_new (front ++ (to ++ back)))

unfoldable pub str_replace : Option DuxStr → Option DuxStr → Option DuxStr → Attempt DuxStr
str_replace none from to = empty_str
str_replace (some s) none to = made (retained s)
str_replace (some s) (some from) to =
    if nat_eq (length from.bytes) 0
    then made (retained s)
    else (str_find (some s) (some from) >>= λ i. elim i [
      | pos k ↦ spliced s.bytes k (length from.bytes) (text to)
      | negsuc k ↦ made (retained s)
    ])

-- What remains from `i` on, if there is any, appended.
abbrev pub with_tail : Bytes → ℕ → Option DuxStrBuf → Attempt (Option DuxStrBuf)
with_tail s i buf =
    if ltb i (length s)
    then (str_from s i (length s - i) >>= λ tail. strbuf_append_str buf (some tail))
    else made buf

-- The loop of str_replace_all from `i` on, and the tail.
unfoldable pub replace_loop :
    ℕ → Bytes → Bytes → Bytes → ℕ → Option DuxStrBuf → Attempt (Option DuxStrBuf)
replace_loop zero s from to i buf = out_of_fuel
replace_loop (suc k) s from to i buf = elim (leb (i + length from) (length s)) [
  | true ↦ stands_at s from i >>= λ found.
      (if found then str_new to else str_from s i 1) >>= λ piece.
      strbuf_append_str buf (some piece) >>= λ buf'.
      replace_loop k s from to (if found then i + length from else i + 1) buf'
  | false ↦ with_tail s i buf
]

unfoldable pub str_replace_all : Option DuxStr → Option DuxStr → Option DuxStr → Attempt DuxStr
str_replace_all none from to = empty_str
str_replace_all (some s) none to = made (retained s)
str_replace_all (some s) (some from) to =
    if nat_eq (length from.bytes) 0
    then made (retained s)
    else (replace_loop (length s.bytes + 1) s.bytes from.bytes (text to) 0 (some strbuf_new)
        >>= λ buf. strbuf_build buf)

abbrev pub upper_byte : ℕ → ℕ
upper_byte b = if leb 97 b && leb b 122 then b - 32 else b

abbrev pub lower_byte : ℕ → ℕ
lower_byte b = if leb 65 b && leb b 90 then b + 32 else b

-- A copy of the string with its bytes changed one by one.
abbrev pub recoded : (ℕ → ℕ) → Option DuxStr → Attempt DuxStr
recoded f none = empty_str
recoded f (some s) =
    if nat_eq (length s.bytes) 0
    then empty_str
    else (str_new s.bytes >>= λ out. made (record out { bytes = map f out.bytes }))

unfoldable pub str_to_upper : Option DuxStr → Attempt DuxStr
str_to_upper = recoded upper_byte

unfoldable pub str_to_lower : Option DuxStr → Attempt DuxStr
str_to_lower = recoded lower_byte

abbrev pub is_ws : ℕ → Bool
is_ws c = nat_eq c 32 || (nat_eq c 9 || (nat_eq c 10 || nat_eq c 13))

abbrev pub ws_at : Bytes → ℕ → Attempt Bool
ws_at p i = read_at p i 1 >>= λ c. elim c [ [] ↦ undefined | b ∷ bs ↦ made (is_ws b) ]

-- The first place from `i` on, of the `n` places there, that is no white space, or the end.
unfoldable pub skip_ws : ℕ → Bytes → ℕ → Attempt ℕ
skip_ws zero p i = made i
skip_ws (suc n) p i = ws_at p i >>= λ ws. elim ws [ true ↦ skip_ws n p (i + 1) | false ↦ made i ]

-- The end of the `n` places from `i` on, less the white space before it.
unfoldable pub back_ws : ℕ → Bytes → ℕ → Attempt ℕ
back_ws zero p i = made i
back_ws (suc n) p i =
    ws_at p (i + n) >>= λ ws. elim ws [ true ↦ back_ws n p i | false ↦ made (i + suc n) ]

abbrev pub unless_empty : Option DuxStr → (Bytes → Attempt DuxStr) → Attempt DuxStr
unless_empty none f = empty_str
unless_empty (some s) f = if nat_eq (length s.bytes) 0 then empty_str else f s.bytes

unfoldable pub str_trim : Option DuxStr → Attempt DuxStr
str_trim s = unless_empty s λ p. skip_ws (length p) p 0 >>= λ start.
    back_ws (length p - start) p start >>= λ end. str_from p start (end - start)

unfoldable pub str_trim_start : Option DuxStr → Attempt DuxStr
str_trim_start s = unless_empty s λ p. skip_ws (length p) p 0 >>= λ i. str_from p i (length p - i)

unfoldable pub str_trim_end : Option DuxStr → Attempt DuxStr
str_trim_end s = unless_empty s λ p. back_ws (length p) p 0 >>= λ end. str_from p 0 end

abbrev pub copies : ℕ → Bytes → Bytes
copies zero bs = []
copies (suc n) bs = bs ++ copies n bs

abbrev pub repeated : Bytes → ℕ → Attempt DuxStr
repeated p n =
    let total = length p * n in
    if leb (2 ^ 63) total
    then undefined
    else if too_long total
    then aborts
    else str_new (copies n p)

unfoldable pub str_repeat : Option DuxStr → LongLong → Attempt DuxStr
str_repeat s (pos n) = if nat_eq n 0 then empty_str else unless_empty s λ p. repeated p n
str_repeat s (negsuc n) = empty_str
