-- ===== src/Runtime/DuxStr/Search.antt =====
-- The searches of src/runtime/str.c.
use dux_lang.Prelude.{
  ℕ, zero, suc, ◌+◌, ◌-◌, Bool, true, false, Option, none, some, ltb, nat_eq, length, if◌then◌else◌,
}
use dux_lang.Ast.{LongLong, pos, negsuc}
use dux_lang.Runtime.DuxStr.{Bytes, DuxStr, Attempt, made, ◌>>=◌, read_at, bytes_eq}

-- memcmp of `n` with the bytes of `h` from `i` on
abbrev pub stands_at : Bytes → Bytes → ℕ → Attempt Bool
stands_at h n i = read_at h i (length n) >>= λ w. made (bytes_eq w n)

-- The loop of mem_find, for `k` places from `i` on.
unfoldable pub find_from : ℕ → Bytes → Bytes → ℕ → Attempt (Option ℕ)
find_from zero h n i = made none
find_from (suc k) h n i =
    stands_at h n i >>= λ found. if found then made (some i) else find_from k h n (i + 1)

unfoldable pub mem_find : Bytes → Bytes → Attempt (Option ℕ)
mem_find h n =
    if nat_eq (length n) 0
    then made (some 0)
    else if ltb (length h) (length n)
    then made none
    else find_from (length h - length n + 1) h n 0

abbrev pub index_of : Option ℕ → LongLong
index_of none = negsuc 0
index_of (some i) = pos i

unfoldable pub str_contains : Option DuxStr → Option DuxStr → Attempt Bool
str_contains (some h) (some n) =
    if nat_eq (length n.bytes) 0
    then made true
    else (mem_find h.bytes n.bytes >>= λ p. made (elim p [ none ↦ false | some i ↦ true ]))
str_contains h n = made false

unfoldable pub str_find : Option DuxStr → Option DuxStr → Attempt LongLong
str_find (some h) (some n) =
    if nat_eq (length n.bytes) 0
    then made (pos 0)
    else (mem_find h.bytes n.bytes >>= λ p. made (index_of p))
str_find h n = made (negsuc 0)

-- The loop of str_rfind, for `k` places from `i` on, with the last one found before.
unfoldable pub last_from : ℕ → Bytes → Bytes → ℕ → Option ℕ → Attempt (Option ℕ)
last_from zero h n i last = made last
last_from (suc k) h n i last =
    stands_at h n i >>= λ found. last_from k h n (i + 1) (if found then some i else last)

unfoldable pub str_rfind : Option DuxStr → Option DuxStr → Attempt LongLong
str_rfind (some h) (some n) =
    if nat_eq (length n.bytes) 0
    then made (pos (length h.bytes))
    else if ltb (length h.bytes) (length n.bytes)
    then made (negsuc 0)
    else (last_from (length h.bytes - length n.bytes + 1) h.bytes n.bytes 0 none >>= λ p.
        made (index_of p))
str_rfind h n = made (negsuc 0)

unfoldable pub str_starts_with : Option DuxStr → Option DuxStr → Attempt Bool
str_starts_with (some s) (some p) =
    if nat_eq (length p.bytes) 0
    then made true
    else if ltb (length s.bytes) (length p.bytes)
    then made false
    else stands_at s.bytes p.bytes 0
str_starts_with s p = made false

unfoldable pub str_ends_with : Option DuxStr → Option DuxStr → Attempt Bool
str_ends_with (some s) (some p) =
    if nat_eq (length p.bytes) 0
    then made true
    else if ltb (length s.bytes) (length p.bytes)
    then made false
    else stands_at s.bytes p.bytes (length s.bytes - length p.bytes)
str_ends_with s p = made false
