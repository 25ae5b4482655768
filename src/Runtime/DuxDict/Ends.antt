-- ===== src/Runtime/DuxDict/Ends.antt =====
-- The functions of src/runtime/dict.c end, and keep the counts of a table right.
use Prim.Native.Nat.{◌*◌, ◌^◌}
use native.Mathlib.Nat.{pow-suc}
use dux_lang.Prelude.{
  ℕ, suc, ◌+◌, ◌≤◌, ◌<◌, ◌≡◌, refl, ◌∙◌, Bool, true, false, Option, none, some, length,
  length-modify, if◌then◌else◌, arith,
}
use dux_lang.Prelude.Tables.{is_some}
use dux_lang.Runtime.DuxDict.{
  Key, tombstone, slot_at, DuxDict, dict_insert_raw, hash_str, dict_grow, is_loaded, set_in, get_in,
  has_in, del_in, as_pointer, emptied, dict_set, dict_get, dict_has, dict_del, deleted, look,
  dict_of_cap, val_of,
}
use dux_lang.Runtime.DuxDict.Counts.{
  total, live_one, dead_one, total-modify, total-empty_slots, length-empty_slots,
}
use dux_lang.Runtime.DuxDict.Probes.{is_live, Ended, search-home-Ended}
use dux_lang.Runtime.DuxDict.Inserts.{
  IsTable, IsSound, Gives, Inserted, AllInserted, insert-Inserted, insert_all-AllInserted,
  table_empty, live_one-is_live,
}

pub empty-IsTable : (k cap : ℕ) (d : DuxDict) → cap ≡ 2 ^ k → IsTable (emptied d cap)
empty-IsTable k cap d e = record {
  power = k;
  cap_is = e;
  long = length-empty_slots cap;
  live_is = (total-empty_slots cap).0;
  dead_is = omega (arith, (total-empty_slots cap).1);
}

-- A table of twice the size has room for what is live, and for one more.
abbrev pub HasRoom : DuxDict → Type 0
HasRoom d = IsTable d × (4 ≤ d.cap) × (4 * (d.len + d.tomb) < 3 * d.cap)

grown-HasRoom :
    (d : DuxDict) (o : Option DuxDict)
    → IsSound d
    → Gives (AllInserted (total live_one d.entries) (emptied d (d.cap * 2))) o
    → Gives HasRoom o
grown-HasRoom d none h g = g
grown-HasRoom d (some d') h (t, c, b, l) =
    let small = h.load in let least = h.least in (t, omega arith, omega (arith, h.table.live_is))

-- The new table of dict_grow, before anything is in it.
pub emptied-IsTable :
    (d : DuxDict)
    → IsSound d
    → IsTable (emptied d (d.cap * 2)) × (0 + total live_one d.entries + 0 < d.cap * 2)
emptied-IsTable d h =
    let double : d.cap * 2 ≡ 2 ^ suc h.table.power =
      omega (arith, h.table.cap_is, pow-suc 2 h.table.power) in
    (
      empty-IsTable (suc h.table.power) (d.cap * 2) d double,
      omega (arith, h.load, h.least, h.table.live_is),
    )

dict_grow-HasRoom : (d : DuxDict) → IsSound d → Gives HasRoom (dict_grow d)
unfolding dict_grow
dict_grow-HasRoom d h =
    let (t, l) = emptied-IsTable d h in
    grown-HasRoom d _ h (insert_all-AllInserted d.entries (emptied d (d.cap * 2)) t l)

pub room-HasRoom :
    (b : Bool) (d : DuxDict)
    → b ≡ is_loaded d
    → IsSound d
    → Gives HasRoom (if b then dict_grow d else some d)
room-HasRoom true d e h = dict_grow-HasRoom d h
room-HasRoom false d e h = (h.table, h.least, ground (arith, h.load))

set-IsSound :
    (key : Key) (h val : ℕ) (o : Option DuxDict)
    → Gives HasRoom o
    → Gives IsSound (elim o [ none ↦ none | some d' ↦ dict_insert_raw d' key h val ])
set-IsSound key h val none g = g
set-IsSound key h val (some d) (t, least, load) =
    inserted-IsSound d (dict_insert_raw d key h val) least load
      (insert-Inserted d key h val t (omega arith))
  where
    inserted-IsSound :
        (d : DuxDict) (o : Option DuxDict)
        → 4 ≤ d.cap
        → 4 * (d.len + d.tomb) < 3 * d.cap
        → Gives (Inserted d) o
        → Gives IsSound o
    inserted-IsSound d none least load h = h
    inserted-IsSound d (some d') least load (t, c, b, l) = record {
      table = t;
      least = omega arith;
      load = omega arith;
    }

pub set_in-IsSound :
    (d : DuxDict) (key : Key) (val : ℕ) → IsSound d → Gives IsSound (set_in d key val)
unfolding set_in
set_in-IsSound d key val h = set-IsSound key (hash_str key) val _ (room-HasRoom _ d refl h)

-- A pointer to a sound table.
abbrev pub Holding : Option DuxDict → Type 0
Holding none = ⊥
Holding (some d) = IsSound d

pointer-Holding : (o : Option DuxDict) → Gives IsSound o → Gives Holding (as_pointer o)
pointer-Holding none h = h
pointer-Holding (some d) h = h

-- dict_set always ends: it finds an empty slot, in the table or in one of twice the size. It leaves
-- a table of a power of two of slots, with `len` live ones, at most `tomb` tombstones, and room.
pub dict_set-IsSound :
    (d : DuxDict) (key : Key) (val : ℕ)
    → IsSound d
    → Gives Holding (dict_set (some d) (some key) val)
unfolding dict_set
dict_set-IsSound d key val h = pointer-Holding (set_in d key val) (set_in-IsSound d key val h)

pub look-Ended : (d : DuxDict) (key : Key) → IsSound d → Ended d.entries d.cap (look d key)
look-Ended d key h =
    let (j, p, e) = table_empty d h.table (omega (arith, h.load, h.least)) in
    search-home-Ended d.entries d.cap h.table.power h.table.cap_is j key (hash_str key) p e

pub deleted-IsSound :
    (d : DuxDict) (i : ℕ)
    → IsSound d
    → i < d.cap
    → is_live (slot_at d.entries i) ≡ true
    → IsSound (deleted d i)
deleted-IsSound d i h l e =
    let t = h.table in
    let inside : i < length d.entries = omega (arith, t.long) in
    let a = total-modify live_one (λ s. tombstone) d.entries i inside in
    let b = total-modify dead_one (λ s. tombstone) d.entries i inside in
    let (one, none_dead) = live_one-is_live (slot_at d.entries i) e in
    record {
      table = record {
        power = t.power;
        cap_is = t.cap_is;
        long = length-modify (λ s. tombstone) i d.entries ∙ t.long;
        live_is = omega (arith, a, one, t.live_is);
        dead_is = omega (arith, b, none_dead, t.dead_is);
      };
      least = h.least;
      load = omega (arith, a, one, t.live_is, h.load);
    }

-- What a table gives for a key, by how the search ended.
abbrev Answers : DuxDict → Option (Option ℕ) → Type 0
Answers d o =
    (is_some (elim o as (λ x. Option ℕ) [
      | none ↦ none
      | some none ↦ some 0
      | some (some i) ↦ some (val_of (slot_at d.entries i))
    ])
      ≡ true)
    × (is_some (elim o as (λ x. Option Bool) [
      | none ↦ none
      | some none ↦ some false
      | some (some i) ↦ some true
    ])
        ≡ true)
    × Gives IsSound (elim o as (λ x. Option DuxDict) [
      | none ↦ none
      | some none ↦ some d
      | some (some i) ↦ some (deleted d i)
    ])

ended-Answers :
    (d : DuxDict) (o : Option (Option ℕ)) → IsSound d → Ended d.entries d.cap o → Answers d o
ended-Answers d none h e = elim e [ ]
ended-Answers d (some none) h e = (refl, refl, h)
ended-Answers d (some (some i)) h e = (refl, refl, deleted-IsSound d i h e.0 e.1)

pub body-IsSound :
    (d : DuxDict) (key : Key)
    → IsSound d
    → (is_some (get_in d key) ≡ true)
      × (is_some (has_in d key) ≡ true)
      × Gives IsSound (del_in d key)
unfolding get_in has_in del_in
body-IsSound d key h = ended-Answers d (look d key) h (look-Ended d key h)

-- dict_get, dict_has and dict_del always end, and dict_del leaves a table of a power of two of slots,
-- with `len` live ones, at most `tomb` tombstones, and room.
pub dict_del-IsSound :
    (d : DuxDict) (key : Key)
    → IsSound d
    → (is_some (dict_get (some d) (some key)) ≡ true)
      × (is_some (dict_has (some d) (some key)) ≡ true)
      × Gives Holding (dict_del (some d) (some key))
unfolding dict_get dict_has dict_del
dict_del-IsSound d key h =
    let (got, has, left) = body-IsSound d key h in (got, has, pointer-Holding (del_in d key) left)

pub new-IsSound : (k cap : ℕ) → cap ≡ 2 ^ k → 4 ≤ cap → IsSound (dict_of_cap cap)
new-IsSound k cap e l = record {
  table = empty-IsTable k cap (dict_of_cap cap) e;
  least = l;
  load = omega arith;
}
