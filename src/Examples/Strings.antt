-- ===== src/Examples/Strings.antt =====
-- Runs of src/runtime/str.c on short strings, and each result about it at one of them.
use Prim.Native.Nat.{◌^◌}
use dux_lang.Prelude.{
  ℕ, true, false, none, some, List, [], ◌∷◌, ◌++◌, map, length, ◌≡◌, ◌⊎◌, refl, arith,
}
use dux_lang.Ast.{pos, negsuc}
use dux_lang.Runtime.DuxStr.{
  Bytes, DuxStr, Attempt, made, throws, aborts, undefined, str_of, str_new, retained, text,
  str_retain, str_release, str_concat, str_length, str_index, str_slice, str_eq, str_ord, str_chr,
  str_cmp,
}
use dux_lang.Runtime.DuxStr.Search.{
  str_contains, str_find, str_rfind, str_starts_with, str_ends_with,
}
use dux_lang.Runtime.DuxStr.Edit.{
  str_replace, str_replace_all, str_to_upper, str_to_lower, str_trim, str_trim_start, str_trim_end,
  str_repeat,
}
use dux_lang.Runtime.DuxStr.Split.{str_split}
use dux_lang.Runtime.DuxStr.Join.{str_join_list}
use dux_lang.Runtime.DuxStr.Pieces.{joined}
use dux_lang.Runtime.DuxStr.Joins.{occurs, in_none}
use dux_lang.Runtime.DuxStr.Occurrences.{begins_not, str_find-str_replace}
use dux_lang.Runtime.DuxStr.RoundTrip.{str_split-joined, str_replace_all-str_split}
use dux_lang.Runtime.DuxStr.WhiteSpace.{all_ws, begins_bare, ends_bare}
use dux_lang.Runtime.DuxStr.Trims.{str_trim-middle}

-- a,b,
abbrev csv : DuxStr
csv = str_of (97 ∷ 44 ∷ 98 ∷ 44 ∷ [])

abbrev comma : DuxStr
comma = str_of (44 ∷ [])

abbrev semicolons : DuxStr
semicolons = str_of (59 ∷ 59 ∷ [])

-- A letter between two spaces.
abbrev spaced : DuxStr
spaced = str_of (32 ∷ 120 ∷ 32 ∷ [])

csv_split :
    str_split (some csv) (some comma) ≡ made (str_of (97 ∷ []) ∷ str_of (98 ∷ []) ∷ str_of [] ∷ [])
unfolding str_split dux_lang.Runtime.DuxStr.Split.split_loop dux_lang.Runtime.DuxStr.str_from
    str_new
csv_split = refl

csv_bytes : str_split (some comma) none ≡ made (comma ∷ [])
unfolding str_split dux_lang.Runtime.DuxStr.Split.single_from dux_lang.Runtime.DuxStr.str_from
    str_new
csv_bytes = refl

csv_replaced : str_replace (some csv) (some comma) none ≡ made (str_of (97 ∷ 98 ∷ 44 ∷ []))
unfolding str_replace str_find dux_lang.Runtime.DuxStr.Search.mem_find
    dux_lang.Runtime.DuxStr.Search.find_from str_new
csv_replaced = refl

csv_replaced_all :
    str_replace_all (some csv) (some comma) (some semicolons)
    ≡ made (str_of (97 ∷ 59 ∷ 59 ∷ 98 ∷ 59 ∷ 59 ∷ []))
unfolding str_replace_all dux_lang.Runtime.DuxStr.Edit.replace_loop dux_lang.Runtime.DuxStr.str_from
    str_new dux_lang.Runtime.DuxStr.Buffer.strbuf_append_str
    dux_lang.Runtime.DuxStr.Buffer.strbuf_grow dux_lang.Runtime.DuxStr.Buffer.strbuf_new
    dux_lang.Runtime.DuxStr.Buffer.strbuf_build
csv_replaced_all = refl

csv_last_comma : str_rfind (some csv) (some comma) ≡ made (pos 3)
unfolding str_rfind dux_lang.Runtime.DuxStr.Search.last_from
csv_last_comma = refl

csv_ends : str_ends_with (some csv) (some comma) ≡ made true
unfolding str_ends_with
csv_ends = refl

csv_starts : str_starts_with (some csv) (some comma) ≡ made false
unfolding str_starts_with
csv_starts = refl

csv_last : str_index (some csv) (negsuc 0) ≡ made comma
unfolding str_index dux_lang.Runtime.DuxStr.str_from str_new
csv_last = refl

csv_front : str_slice (some csv) (negsuc 7) (pos 1) ≡ made (str_of (97 ∷ []))
unfolding str_slice dux_lang.Runtime.DuxStr.str_from str_new
csv_front = refl

csv_joined : str_concat (some comma) none ≡ made comma
unfolding str_concat str_new
csv_joined = refl

csv_below : str_cmp (some comma) (some csv) ≡ negsuc 0
unfolding str_cmp
csv_below = refl

csv_self : str_eq (some csv) (some csv) ≡ made true
unfolding str_eq
csv_self = refl

csv_upper : str_to_upper (some csv) ≡ made (str_of (65 ∷ 44 ∷ 66 ∷ 44 ∷ []))
unfolding str_to_upper str_new
csv_upper = refl

x_trimmed : str_trim (some spaced) ≡ made (str_of (120 ∷ []))
unfolding str_trim dux_lang.Runtime.DuxStr.Edit.skip_ws dux_lang.Runtime.DuxStr.Edit.back_ws
    dux_lang.Runtime.DuxStr.str_from str_new
x_trimmed = refl

semicolons_again : str_repeat (some comma) (pos 2) ≡ made (str_of (44 ∷ 44 ∷ []))
unfolding str_repeat str_new
semicolons_again = refl

two_joined :
    str_join_list (some (some comma ∷ none ∷ some semicolons ∷ [])) (pos 3)
    ≡ made (str_of (44 ∷ 59 ∷ 59 ∷ []))
unfolding str_join_list dux_lang.Runtime.DuxStr.Join.total_from dux_lang.Runtime.DuxStr.Join.part_at
    dux_lang.Runtime.DuxStr.Join.copy_from str_new
two_joined = refl

-- The list ends before the count.
one_joined : str_join_list (some (some comma ∷ [])) (pos 2) ≡ throws
unfolding str_join_list dux_lang.Runtime.DuxStr.Join.total_from dux_lang.Runtime.DuxStr.Join.part_at
one_joined = refl

-- A new string has one reference.
csv_freed : str_release (str_retain (some csv)) ≡ some csv
unfolding str_release str_retain
csv_freed = refl

-- 4 * 2^62 is no int64_t.
repeat_overflow : str_repeat (some csv) (pos (2 ^ 62)) ≡ undefined
unfolding str_repeat
repeat_overflow = refl

str_split-joined_example :
    (ps : List (List ℕ)) × (str_split (some csv) (some comma) ≡ made (map str_of ps))
    × (joined comma.bytes ps ≡ csv.bytes)
    × (in_none comma.bytes ps ≡ true)
str_split-joined_example = str_split-joined csv comma (omega arith) refl

str_replace_all-str_split_example :
    (ps : List (List ℕ)) × (str_split (some csv) (some comma) ≡ made (map str_of ps))
    × (str_replace_all (some csv) (some comma) (some semicolons)
        ≡ str_new (joined (text (some semicolons)) ps))
str_replace_all-str_split_example =
    str_replace_all-str_split csv comma (some semicolons) (omega arith) refl refl

str_find-str_replace_example :
    (occurs comma.bytes csv.bytes ≡ false)
      × (str_contains (some csv) (some comma) ≡ made false)
      × (str_find (some csv) (some comma) ≡ made (negsuc 0))
      × (str_replace (some csv) (some comma) (some semicolons) ≡ made (retained csv))
    ⊎ ((u : Bytes) × (v : Bytes) × (csv.bytes ≡ u ++ (comma.bytes ++ v))
        × (begins_not comma.bytes u (comma.bytes ++ v) ≡ true)
        × (str_contains (some csv) (some comma) ≡ made true)
        × (str_find (some csv) (some comma) ≡ made (pos (length u)))
        × (str_replace (some csv) (some comma) (some semicolons)
            ≡ str_new (u ++ (text (some semicolons) ++ v))))
str_find-str_replace_example = str_find-str_replace csv comma (some semicolons) (omega arith)

str_trim-middle_example :
    (a : Bytes) × (m : Bytes) × (w : Bytes) × (spaced.bytes ≡ a ++ (m ++ w))
    × (all_ws a ≡ true)
    × (all_ws w ≡ true)
    × (begins_bare m ≡ true)
    × (ends_bare m ≡ true)
    × (str_trim (some spaced) ≡ made (str_of m))
    × (str_trim_start (some spaced) ≡ made (str_of (m ++ w)))
    × (str_trim_end (some (str_of (m ++ w))) ≡ made (str_of m))
str_trim-middle_example = str_trim-middle spaced refl
