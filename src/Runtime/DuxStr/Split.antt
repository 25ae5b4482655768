-- ===== src/Runtime/DuxStr/Split.antt =====
-- duxrt_str_split of src/runtime/str.c. The list that it returns is new and is the list of its
-- elements here: each piece is pushed at its end.
use dux_lang.Prelude.{
  ℕ, zero, suc, ◌+◌, ◌-◌, true, false, Option, none, some, List, [], ◌∷◌, ◌++◌, leb, nat_eq, length,
  if◌then◌else◌,
}
use dux_lang.Runtime.DuxStr.{Bytes, DuxStr, Attempt, made, out_of_fuel, ◌>>=◌, str_from}
use dux_lang.Runtime.DuxStr.Search.{stands_at}

-- The loop over the `n` places from `i` on, for no separator.
unfoldable pub single_from : ℕ → Bytes → ℕ → List DuxStr → Attempt (List DuxStr)
single_from zero s i result = made result
single_from (suc n) s i result =
    str_from s i 1 >>= λ piece. single_from n s (i + 1) (result ++ (piece ∷ []))

-- The loop from `i` on; the piece in the making began at `prev`.
unfoldable pub split_loop : ℕ → Bytes → Bytes → ℕ → ℕ → List DuxStr → Attempt (List DuxStr)
split_loop zero s sep i prev result = out_of_fuel
split_loop (suc k) s sep i prev result = elim (leb (i + length sep) (length s)) [
  | true ↦ stands_at s sep i >>= λ found.
      (if found
        then (str_from s prev (i - prev) >>= λ piece. made (result ++ (piece ∷ [])))
        else made result)
      >>= λ result'.
          split_loop k s sep (if found then i + length sep else i + 1)
            (if found then i + length sep else prev) result'
  | false ↦ str_from s prev (length s - prev) >>= λ piece. made (result ++ (piece ∷ []))
]

unfoldable pub str_split : Option DuxStr → Option DuxStr → Attempt (List DuxStr)
str_split none sep = made []
str_split (some s) none = single_from (length s.bytes) s.bytes 0 []
str_split (some s) (some sep) =
    if nat_eq (length sep.bytes) 0
    then single_from (length s.bytes) s.bytes 0 []
    else split_loop (length s.bytes + 1) s.bytes sep.bytes 0 0 []
