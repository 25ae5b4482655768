-- ===== src/Runtime/DuxStr/Join.antt =====
-- duxrt_str_join_list of src/runtime/str.c. A list of strings is the list of its pointers;
-- duxrt_list_get throws the IndexError behind its end.
use dux_lang.Prelude.{
  ℕ, zero, suc, ◌+◌, Option, none, some, List, [], ◌∷◌, ◌++◌, nat_eq, length, if◌then◌else◌,
}
use dux_lang.Ast.{LongLong, pos, negsuc}
use dux_lang.Runtime.DuxStr.{
  Bytes, DuxStr, Attempt, made, aborts, throws, ◌>>=◌, too_long, str_new, empty_str, text,
}

unfoldable pub part_at : List (Option DuxStr) → ℕ → Attempt (Option DuxStr)
part_at [] i = throws
part_at (s ∷ parts) zero = made s
part_at (s ∷ parts) (suc i) = part_at parts i

-- The first pass, over the `n` parts from `i` on: the lengths.
unfoldable pub total_from : ℕ → List (Option DuxStr) → ℕ → ℕ → Attempt ℕ
total_from zero parts i total = made total
total_from (suc n) parts i total =
    part_at parts i >>= λ s. total_from n parts (i + 1) (total + length (text s))

-- The second pass: the bytes.
unfoldable pub copy_from : ℕ → List (Option DuxStr) → ℕ → Bytes → Attempt Bytes
copy_from zero parts i dst = made dst
copy_from (suc n) parts i dst = part_at parts i >>= λ s. copy_from n parts (i + 1) (dst ++ text s)

abbrev pub join_parts : List (Option DuxStr) → ℕ → Attempt DuxStr
join_parts parts n = total_from n parts 0 0 >>= λ total.
    if too_long total then aborts else (copy_from n parts 0 [] >>= λ bs. str_new bs)

unfoldable pub str_join_list : Option (List (Option DuxStr)) → LongLong → Attempt DuxStr
str_join_list none count = empty_str
str_join_list (some parts) (pos n) = if nat_eq n 0 then empty_str else join_parts parts n
str_join_list (some parts) (negsuc n) = empty_str
