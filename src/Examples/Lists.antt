-- ===== src/Examples/Lists.antt =====
-- Runs of src/runtime/list.c.
use dux_lang.Prelude.{◌+◌, ◌-◌, ◌≡◌, refl, none, some, [], ◌∷◌, ◌++◌, arith}
use dux_lang.Ast.{pos, negsuc}
use dux_lang.Runtime.DuxList.{
  DuxList, ElemKind, elem_ptr, elem_i32, Access, ok, index_error, undefined, list_new, list_new_i32,
  list_push, list_push_i32, list_get, list_set, list_concat, fresh_cells,
}
use dux_lang.Runtime.DuxList.Refinement.{
  Represents, Gives, found, list_push-Represents, list_get-nth,
}
use dux_lang.Runtime.DuxList.Refinement.Cells.{nth}
use dux_lang.Runtime.DuxList.Updates.{Updated, list_set-Updated}
use dux_lang.Runtime.DuxList.Concat.{list_concat-Represents}
use dux_lang.Runtime.DuxList.Counting.{retains, releases, releases-retains}

-- A list of two words whose block is full.
abbrev full_list : DuxList
full_list = record {
  refcount = 1;
  elem_kind = elem_ptr;
  len = 2;
  cap = 2;
  cells = some 5 ∷ some 7 ∷ [];
}

full-Represents : Represents elem_ptr (5 ∷ 7 ∷ []) full_list
full-Represents = record {
  rest = [];
  cells_are = refl;
  len_is = refl;
  cap_is = refl;
  room = omega arith;
  kind_is = refl;
}

-- A list of int32_t with room for one more.
abbrev small_list : DuxList
small_list = record {
  refcount = 1;
  elem_kind = elem_i32;
  len = 1;
  cap = 2;
  cells = some 9 ∷ none ∷ [];
}

small-Represents : Represents elem_i32 (9 ∷ []) small_list
small-Represents = record {
  rest = none ∷ [];
  cells_are = refl;
  len_is = refl;
  cap_is = refl;
  room = omega arith;
  kind_is = refl;
}

list_push-Represents_example :
    Gives (Represents elem_ptr ((5 ∷ 7 ∷ []) ++ 8 ∷ [])) (list_push (some full_list) 8)
list_push-Represents_example = list_push-Represents (5 ∷ 7 ∷ []) full_list 8 full-Represents

list_get-nth_example :
    list_get (some full_list) (negsuc 0) ≡ found (negsuc 0) 2 (nth (5 ∷ 7 ∷ []) (negsuc 0))
list_get-nth_example = list_get-nth elem_ptr (5 ∷ 7 ∷ []) full_list (negsuc 0) full-Represents

last_is_seven : list_get (some full_list) (negsuc 0) ≡ ok 7
unfolding list_get dux_lang.Runtime.DuxList.place
last_is_seven = refl

past_the_start : list_get (some full_list) (negsuc 2) ≡ index_error (negsuc 2) 2
unfolding list_get dux_lang.Runtime.DuxList.place
past_the_start = refl

list_set-Updated_example :
    Updated elem_i32
      (9 ∷ [])
      (pos 0)
      4294967297
      (nth (9 ∷ []) (pos 0))
      (list_set (some small_list) (pos 0) 4294967297)
list_set-Updated_example =
    list_set-Updated elem_i32 (9 ∷ []) small_list (pos 0) 4294967297 small-Represents

list_concat-Represents_example :
    Gives
      (Represents elem_ptr ((9 ∷ []) ++ 5 ∷ 7 ∷ []))
      (list_concat (some small_list) (some full_list))
list_concat-Represents_example =
    list_concat-Represents (9 ∷ []) (5 ∷ 7 ∷ []) (some small_list) (some full_list)
      (elem_i32, small-Represents) (elem_ptr, full-Represents)

releases-retains_example :
    (releases 2 (retains 2 (some full_list)) ≡ some (record full_list { refcount = 1 + 2 - 2 }))
    × (releases (1 + 2) (retains 2 (some full_list)) ≡ none)
releases-retains_example = releases-retains 2 2 full_list (omega arith) (omega arith) (omega arith)
