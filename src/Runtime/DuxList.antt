-- ===== src/Runtime/DuxList.antt =====
-- src/runtime/list.c: reference-counted lists.
-- A pointer is `none` when it is null. The block at `data` is a list of its cells, `none` while
-- nothing has been written there; a cell is a word, of 32 bits in a list of int32_t, of a pointer's
-- bits in the others. An access outside of the block, of a cell that is not written, through a null
-- pointer or as another type than the list's has no defined result. Allocation succeeds, as the
-- source calls abort() where it does not.
pub mod Refinement
pub mod Updates
pub mod Concat
pub mod Counting
use Prim.Native.Nat.{◌*◌, ◌^◌, ◌%◌}
use dux_lang.Prelude.{
  ℕ, zero, suc, ◌+◌, ◌-◌, Bool, true, false, Option, none, some, List, [], ◌∷◌, ◌++◌, ltb, leb,
  nat_eq, if◌then◌else◌,
}
use dux_lang.Ast.{LongLong, pos, negsuc}

-- DUXLIST_ELEM_PTR and DUXLIST_ELEM_I32, the kinds that list.c makes.
pub data ElemKind : Type 0 where
  elem_ptr elem_i32 : ElemKind

pub record DuxList : Type 0 where
  -- the bits of an int32_t
  pub refcount : ℕ
  pub elem_kind : ElemKind
  pub len : ℕ
  pub cap : ℕ
  pub cells : List (Option ℕ)

pub data Access (A : Type 0) : Type 0 where
  ok : A → Access A
  -- the IndexError that list_index_error throws, with its index and length
  index_error : LongLong → ℕ → Access A
  undefined : Access A

abbrev pub list_init_cap : ℕ
list_init_cap = 8

abbrev pub w32 : ℕ → ℕ
w32 n = n % 2 ^ 32

-- A block that nothing has been written to.
abbrev pub fresh_cells : ℕ → List (Option ℕ)
fresh_cells zero = []
fresh_cells (suc n) = none ∷ fresh_cells n

abbrev pub read_cell : List (Option ℕ) → ℕ → Access ℕ
read_cell [] i = undefined
read_cell (none ∷ cs) zero = undefined
read_cell (some v ∷ cs) zero = ok v
read_cell (c ∷ cs) (suc i) = read_cell cs i

abbrev pub write_cell : List (Option ℕ) → ℕ → ℕ → Access (List (Option ℕ))
write_cell [] i v = undefined
write_cell (c ∷ cs) zero v = ok (some v ∷ cs)
write_cell (c ∷ cs) (suc i) v = elim (write_cell cs i v) [
  | ok cs' ↦ ok (c ∷ cs')
  | index_error idx len ↦ index_error idx len
  | undefined ↦ undefined
]

abbrev pub list_of_kind : ElemKind → DuxList
list_of_kind kind = record {
  refcount = 1;
  elem_kind = kind;
  len = 0;
  cap = list_init_cap;
  cells = fresh_cells list_init_cap;
}

abbrev pub list_new : DuxList
list_new = list_of_kind elem_ptr

abbrev pub list_new_i32 : DuxList
list_new_i32 = list_of_kind elem_i32

-- A full block is twice as long afterwards; realloc keeps what it held.
unfoldable pub grow_if_full : DuxList → DuxList
grow_if_full l =
    if nat_eq l.len l.cap
    then record l { cap = l.cap * 2; cells = l.cells ++ fresh_cells l.cap }
    else l

abbrev pub with_data : DuxList → Access (List (Option ℕ)) → Access DuxList
with_data l (ok cs) = ok (record l { cells = cs })
with_data l (index_error idx len) = index_error idx len
with_data l undefined = undefined

abbrev pub append : DuxList → ℕ → Access DuxList
append l val = with_data (record l { len = l.len + 1 }) (write_cell l.cells l.len val)

unfoldable pub list_push : Option DuxList → ℕ → Access DuxList
list_push none val = undefined
list_push (some l) val = elim l.elem_kind [
  | elem_ptr ↦ append (grow_if_full l) val
  | elem_i32 ↦ undefined
]

unfoldable pub list_push_i32 : Option DuxList → ℕ → Access DuxList
list_push_i32 none val = undefined
list_push_i32 (some l) val = elim l.elem_kind [
  | elem_ptr ↦ undefined
  | elem_i32 ↦ append (grow_if_full l) (w32 val)
]

-- The place in the block, a negative index counted from the end; `none` where it is out of range.
unfoldable pub place : LongLong → ℕ → Option ℕ
place (pos n) len = if ltb n len then some n else none
place (negsuc n) len = if ltb n len then some (len - (n + 1)) else none

abbrev pub get_at : DuxList → LongLong → Option ℕ → Access ℕ
get_at l idx none = index_error idx l.len
get_at l idx (some i) = read_cell l.cells i

abbrev pub set_at : DuxList → LongLong → ℕ → Option ℕ → Access DuxList
set_at l idx val none = index_error idx l.len
set_at l idx val (some i) = with_data l (write_cell l.cells i val)

-- The word of either kind of list is returned as the bits of a pointer.
unfoldable pub list_get : Option DuxList → LongLong → Access ℕ
list_get none idx = ok 0
list_get (some l) idx = get_at l idx (place idx l.len)

abbrev pub unboxed : ElemKind → ℕ → ℕ
unboxed elem_ptr val = val
unboxed elem_i32 val = w32 val

-- The list behind the pointer, afterwards.
unfoldable pub list_set : Option DuxList → LongLong → ℕ → Access (Option DuxList)
list_set none idx val = ok none
list_set (some l) idx val = elim (set_at l idx (unboxed l.elem_kind val) (place idx l.len)) [
  | ok l' ↦ ok (some l')
  | index_error i len ↦ index_error i len
  | undefined ↦ undefined
]

unfoldable pub list_len : Option DuxList → ℕ
list_len none = 0
list_len (some l) = l.len

unfoldable pub list_get_i32 : Option DuxList → LongLong → Access ℕ
list_get_i32 none idx = ok 0
list_get_i32 (some l) idx = elim (place idx l.len) [
  | none ↦ index_error idx l.len
  | some i ↦ elim l.elem_kind [ elem_ptr ↦ undefined | elem_i32 ↦ read_cell l.cells i ]
]

unfoldable pub list_set_i32 : Option DuxList → LongLong → ℕ → Access (Option DuxList)
list_set_i32 none idx val = ok none
list_set_i32 (some l) idx val = elim (place idx l.len) [
  | none ↦ index_error idx l.len
  | some i ↦ elim l.elem_kind [
    | elem_ptr ↦ undefined
    | elem_i32 ↦ elim (with_data l (write_cell l.cells i (w32 val))) [
      | ok l' ↦ ok (some l')
      | index_error j len ↦ index_error j len
      | undefined ↦ undefined
    ]
  ]
]

-- fetch_add and fetch_sub wrap around.
unfoldable pub list_retain : Option DuxList → Option DuxList
list_retain none = none
list_retain (some l) = some (record l { refcount = w32 (l.refcount + 1) })

-- `none` when the list is freed, and for a null pointer.
unfoldable pub list_release : Option DuxList → Option DuxList
list_release none = none
list_release (some l) =
    if nat_eq l.refcount 1
    then none
    else some (record l { refcount = w32 (l.refcount + (2 ^ 32 - 1)) })

-- The loop of list_concat over one of the lists: `n` places from `i` on.
unfoldable pub push_from : ℕ → ℕ → DuxList → DuxList → Access DuxList
push_from zero i a out = ok out
push_from (suc n) i a out = elim (list_get (some a) (pos i)) [
  | ok v ↦ elim (list_push (some out) v) [
    | ok out' ↦ push_from n (i + 1) a out'
    | index_error idx len ↦ index_error idx len
    | undefined ↦ undefined
  ]
  | index_error idx len ↦ index_error idx len
  | undefined ↦ undefined
]

abbrev pub push_list : Option DuxList → DuxList → Access DuxList
push_list none out = ok out
push_list (some a) out = push_from a.len 0 a out

unfoldable pub list_concat : Option DuxList → Option DuxList → Access DuxList
list_concat a b = elim (push_list a list_new) [
  | ok out ↦ push_list b out
  | index_error idx len ↦ index_error idx len
  | undefined ↦ undefined
]
