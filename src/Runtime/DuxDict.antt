-- ===== src/Runtime/DuxDict.antt =====
-- src/runtime/dict.c: reference-counted hash maps with open addressing.
-- A key is the list of its bytes, none of them 0, as strcmp and hash_str read them; a value is a
-- word, 0 for NULL. A slot is empty (its key is NULL), a tombstone, or live. A search goes round
-- the table until a slot is empty: it takes fuel, and the result is `none` where that runs out.
-- Allocation succeeds, as the source calls abort() where it does not; what is freed is left out.
pub mod Masks
pub mod Counts
pub mod Probes
pub mod Paths
pub mod Finds
pub mod Spots
pub mod Maps
pub mod Inserts
pub mod Ends
pub mod Stores
pub mod Regrowth
pub mod Refinement
use Prim.Native.Nat.{◌*◌, ◌^◌, ◌%◌, bit_xor, bit_and}
use dux_lang.Prelude.{
  ℕ, zero, suc, ◌+◌, ◌-◌, Bool, true, false, ◌&&◌, Option, none, some, List, [], ◌∷◌, leb, nat_eq,
  get_or, modify, if◌then◌else◌,
}

abbrev pub Key : Type 0
Key = List ℕ

-- strcmp gives 0
abbrev pub key_eq : Key → Key → Bool
key_eq [] [] = true
key_eq [] (y ∷ ys) = false
key_eq (x ∷ xs) [] = false
key_eq (x ∷ xs) (y ∷ ys) = nat_eq x y && key_eq xs ys

-- `live key hash val`
pub data Slot : Type 0 where
  empty tombstone : Slot
  live : Key → ℕ → ℕ → Slot

pub record DuxDict : Type 0 where
  -- the bits of an int32_t
  pub refcount : ℕ
  pub len : ℕ
  pub cap : ℕ
  pub tomb : ℕ
  pub entries : List Slot

abbrev pub dict_init_cap : ℕ
dict_init_cap = 16

-- FNV-1a of 64 bits, from `h` on.
unfoldable pub hash_from : ℕ → Key → ℕ
hash_from h [] = h
hash_from h (b ∷ bs) = hash_from ((bit_xor h b * 1099511628211) % 2 ^ 64) bs

unfoldable pub hash_str : Key → ℕ
hash_str s = hash_from 14695981039346656037 s

abbrev pub empty_slots : ℕ → List Slot
empty_slots zero = []
empty_slots (suc n) = empty ∷ empty_slots n

abbrev pub dict_of_cap : ℕ → DuxDict
dict_of_cap cap = record { refcount = 1; len = 0; cap = cap; tomb = 0; entries = empty_slots cap }

abbrev pub dict_new : DuxDict
dict_new = dict_of_cap dict_init_cap

-- Where the search begins, and where it goes from a slot.
abbrev pub home : ℕ → ℕ → ℕ
home cap h = bit_and h (cap - 1)

abbrev pub next_slot : ℕ → ℕ → ℕ
next_slot cap i = bit_and (i + 1) (cap - 1)

abbrev pub slot_at : List Slot → ℕ → Slot
slot_at es i = get_or es i empty

-- The loop of dict_get, dict_has and dict_del: the index of the live slot with the key, if any.
unfoldable pub search : ℕ → List Slot → ℕ → Key → ℕ → ℕ → Option (Option ℕ)
search zero es cap key h i = none
search (suc fuel) es cap key h i =
    let rest = search fuel es cap key h (next_slot cap i) in
    elim (slot_at es i) as (λ s. Option (Option ℕ)) [
      | empty ↦ some none
      | tombstone ↦ rest
      | live k h' v ↦ if nat_eq h' h && key_eq k key then some (some i) else rest
    ]

-- Where dict_insert_raw puts a key: into the slot that has it already, or into a new one.
pub data Spot : Type 0 where
  present absent : ℕ → Spot

abbrev pub or_first : Option ℕ → ℕ → ℕ
or_first none i = i
or_first (some t) i = t

abbrev pub first_tombstone : Option ℕ → ℕ → Option ℕ
first_tombstone none i = some i
first_tombstone (some t) i = some t

-- The loop of dict_insert_raw, with the first tombstone that it has passed.
unfoldable pub spot_for : ℕ → List Slot → ℕ → Key → ℕ → Option ℕ → ℕ → Option Spot
spot_for zero es cap key h t i = none
spot_for (suc fuel) es cap key h t i =
    let onwards = spot_for fuel es cap key h t (next_slot cap i) in
    let passed = spot_for fuel es cap key h (first_tombstone t i) (next_slot cap i) in
    elim (slot_at es i) as (λ s. Option Spot) [
      | empty ↦ some (absent (or_first t i))
      | tombstone ↦ passed
      | live k h' v ↦ if nat_eq h' h && key_eq k key then some (present i) else onwards
    ]

abbrev pub with_val : ℕ → Slot → Slot
with_val val empty = empty
with_val val tombstone = tombstone
with_val val (live k h v) = live k h val

abbrev pub put : DuxDict → Key → ℕ → ℕ → Option Spot → Option DuxDict
put d key h val none = none
put d key h val (some (present i)) = some (record d { entries = modify (with_val val) i d.entries })
put d key h val (some (absent i)) =
    some (record d { entries = modify (λ s. live key h val) i d.entries; len = d.len + 1 })

unfoldable pub dict_insert_raw : DuxDict → Key → ℕ → ℕ → Option DuxDict
dict_insert_raw d key h val =
    put d key h val (spot_for d.cap d.entries d.cap key h none (home d.cap h))

unfoldable pub insert_all : List Slot → DuxDict → Option DuxDict
insert_all [] d = some d
insert_all (empty ∷ es) d = insert_all es d
insert_all (tombstone ∷ es) d = insert_all es d
insert_all (live k h v ∷ es) d = elim (dict_insert_raw d k h v) [
  | none ↦ none
  | some d' ↦ insert_all es d'
]

abbrev pub emptied : DuxDict → ℕ → DuxDict
emptied d cap = record d { len = 0; cap = cap; tomb = 0; entries = empty_slots cap }

unfoldable pub dict_grow : DuxDict → Option DuxDict
dict_grow d = insert_all d.entries (emptied d (d.cap * 2))

abbrev pub is_loaded : DuxDict → Bool
is_loaded d = leb (d.cap * 3) ((d.len + d.tomb) * 4)

unfoldable pub set_in : DuxDict → Key → ℕ → Option DuxDict
set_in d key val = elim (if is_loaded d then dict_grow d else some d) [
  | none ↦ none
  | some d' ↦ dict_insert_raw d' key (hash_str key) val
]

abbrev pub look : DuxDict → Key → Option (Option ℕ)
look d key = search d.cap d.entries d.cap key (hash_str key) (home d.cap (hash_str key))

abbrev pub val_of : Slot → ℕ
val_of empty = 0
val_of tombstone = 0
val_of (live k h v) = v

unfoldable pub get_in : DuxDict → Key → Option ℕ
get_in d key = elim (look d key) [
  | none ↦ none
  | some none ↦ some 0
  | some (some i) ↦ some (val_of (slot_at d.entries i))
]

unfoldable pub has_in : DuxDict → Key → Option Bool
has_in d key = elim (look d key) [
  | none ↦ none
  | some none ↦ some false
  | some (some i) ↦ some true
]

abbrev pub deleted : DuxDict → ℕ → DuxDict
deleted d i = record d {
  entries = modify (λ s. tombstone) i d.entries;
  len = d.len - 1;
  tomb = d.tomb + 1;
}

unfoldable pub del_in : DuxDict → Key → Option DuxDict
del_in d key = elim (look d key) [
  | none ↦ none
  | some none ↦ some d
  | some (some i) ↦ some (deleted d i)
]

-- The functions on pointers: a null table or key is ignored.
abbrev pub as_pointer : Option DuxDict → Option (Option DuxDict)
as_pointer none = none
as_pointer (some d) = some (some d)

unfoldable pub dict_set : Option DuxDict → Option Key → ℕ → Option (Option DuxDict)
dict_set (some d) (some key) val = as_pointer (set_in d key val)
dict_set p key val = some p

unfoldable pub dict_get : Option DuxDict → Option Key → Option ℕ
dict_get (some d) (some key) = get_in d key
dict_get p key = some 0

unfoldable pub dict_has : Option DuxDict → Option Key → Option Bool
dict_has (some d) (some key) = has_in d key
dict_has p key = some false

unfoldable pub dict_del : Option DuxDict → Option Key → Option (Option DuxDict)
dict_del (some d) (some key) = as_pointer (del_in d key)
dict_del p key = some p

abbrev pub dict_len : Option DuxDict → ℕ
dict_len none = 0
dict_len (some d) = d.len

-- fetch_add and fetch_sub wrap around.
unfoldable pub dict_retain : Option DuxDict → Option DuxDict
dict_retain none = none
dict_retain (some d) = some (record d { refcount = (d.refcount + 1) % 2 ^ 32 })

-- `none` when the table is freed, and for a null pointer.
unfoldable pub dict_release : Option DuxDict → Option DuxDict
dict_release none = none
dict_release (some d) =
    if nat_eq d.refcount 1
    then none
    else some (record d { refcount = (d.refcount + (2 ^ 32 - 1)) % 2 ^ 32 })
