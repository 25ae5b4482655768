-- ===== src/Runtime/DuxStr/RoundTrip.antt =====
-- Cutting a string and putting it together: duxrt_str_split and duxrt_str_replace_all of
-- src/runtime/str.c.
use dux_lang.Prelude.{ℕ, ◌+◌, ◌<◌, true, false, Option, some, List, map, length, ◌≡◌, arith}
use dux_lang.Runtime.DuxStr.{DuxStr, made, too_long, str_of, str_new, text}
use dux_lang.Runtime.DuxStr.Split.{str_split}
use dux_lang.Runtime.DuxStr.Edit.{str_replace_all}
use dux_lang.Runtime.DuxStr.Pieces.{pieces, joined}
use dux_lang.Runtime.DuxStr.Splits.{str_split_lem}
use dux_lang.Runtime.DuxStr.Joins.{in_none, pieces_lem}
use dux_lang.Runtime.DuxStr.Replaces.{str_replace_all_lem}

-- A split of a string of less than 2^31 bytes at a separator that is not empty ends, reads nothing
-- outside of the two, and gives new strings in none of which the separator stands and which, with
-- the separator between each two, are the string.
pub str_split-joined :
    (s sep : DuxStr)
    → 0 < length sep.bytes
    → too_long (length s.bytes) ≡ false
    → (ps : List (List ℕ)) × (str_split (some s) (some sep) ≡ made (map str_of ps))
      × (joined sep.bytes ps ≡ s.bytes)
      × (in_none sep.bytes ps ≡ true)
str_split-joined s sep ne fits =
    let (j, c) = pieces_lem (length s.bytes + 1) sep.bytes s.bytes ne (omega arith) in
    (pieces sep.bytes 0 s.bytes, str_split_lem s sep ne fits, j, c)

-- To replace every occurrence of a string that is not empty is to split at it and to join the parts
-- with the other string (the empty one for a null pointer): of strings of less than 2^31 bytes each,
-- the replacement ends, stays inside of its strings and its buffer, and makes a new string of these
-- bytes, or calls abort() when they are 2^31 or more.
pub str_replace_all-str_split :
    (s from : DuxStr) (to : Option DuxStr)
    → 0 < length from.bytes
    → too_long (length s.bytes) ≡ false
    → too_long (length (text to)) ≡ false
    → (ps : List (List ℕ)) × (str_split (some s) (some from) ≡ made (map str_of ps))
      × (str_replace_all (some s) (some from) to ≡ str_new (joined (text to) ps))
str_replace_all-str_split s from to ne fits to_fits = (
  pieces from.bytes 0 s.bytes,
  str_split_lem s from ne fits,
  str_replace_all_lem s from to ne fits to_fits,
)
