-- ===== src/Runtime/DuxDict/Refinement.antt =====
-- The functions of src/runtime/dict.c against finite maps.
use Prim.Native.Nat.{◌^◌}
use dux_lang.Prelude.{
  ℕ, ◌≤◌, ◌≡◌, refl, sym, ap, subst, ◌∙◌, Bool, true, false, Option, none, some, if◌then◌else◌, inl,
  inr, arith, Bool-cases,
}
use dux_lang.Prelude.Tables.{is_some}
use dux_lang.Runtime.DuxDict.{
  Key, tombstone, live, slot_at, home, hash_str, key_eq, DuxDict, dict_insert_raw, dict_grow,
  set_in, look, get_in, has_in, del_in, deleted, dict_set, dict_get, dict_has, dict_del, as_pointer,
  val_of, dict_of_cap,
}
use dux_lang.Runtime.DuxDict.Probes.{Ended}
use dux_lang.Runtime.DuxDict.Paths.{live-inside, key_eq-true}
use dux_lang.Runtime.DuxDict.Spots.{search-Found, Located}
use dux_lang.Runtime.DuxDict.Inserts.{IsSound, Gives}
use dux_lang.Runtime.DuxDict.Ends.{
  HasRoom, room-HasRoom, set_in-IsSound, look-Ended, new-IsSound, body-IsSound,
}
use dux_lang.Runtime.DuxDict.Maps.{Mapping, updated, modify-Change, removed-Mapping}
use dux_lang.Runtime.DuxDict.Stores.{MappedBy, insert-Mapping, search_present}
use dux_lang.Runtime.DuxDict.Regrowth.{
  both_Give, empty-Mapping, dict_grow-Mapping, Mapping-pointwise,
}

-- The table is sound, and holds the map.
pub record Represents (f : Key → Option ℕ) (d : DuxDict) : Type 0 where
  pub sound : IsSound d
  pub mapping : Mapping f d.entries d.cap

-- A pointer to a table that holds the map.
abbrev pub Pointing : (Key → Option ℕ) → Option DuxDict → Type 0
Pointing f none = ⊥
Pointing f (some d) = Represents f d

pub new-Represents : (k cap : ℕ) → cap ≡ 2 ^ k → 4 ≤ cap → Represents (λ x. none) (dict_of_cap cap)
new-Represents k cap e l = record { sound = new-IsSound k cap e l; mapping = empty-Mapping cap cap }

pointed :
    (f : Key → Option ℕ) (o : Option DuxDict)
    → Gives (λ d. IsSound d × MappedBy f d) o
    → Gives (Pointing f) (as_pointer o)
pointed f none h = h
pointed f (some d) (s, m) = record { sound = s; mapping = m }

room-Mapping :
    (b : Bool) (f : Key → Option ℕ) (d : DuxDict)
    → Represents f d
    → Gives (MappedBy f) (if b then dict_grow d else some d)
room-Mapping true f d h = dict_grow-Mapping f d h.sound h.mapping
room-Mapping false f d h = h.mapping

stored_in :
    (f : Key → Option ℕ) (key : Key) (val : ℕ) (o : Option DuxDict)
    → Gives (λ d. HasRoom d × MappedBy f d) o
    → Gives
        (MappedBy (updated key (some val) f))
        (elim o [ none ↦ none | some d' ↦ dict_insert_raw d' key (hash_str key) val ])
stored_in f key val none h = h
stored_in f key val (some d) ((t, least, load), m) = insert-Mapping d m key val t (omega arith)

set_in-Mapping :
    (f : Key → Option ℕ) (d : DuxDict) (key : Key) (val : ℕ)
    → Represents f d
    → Gives (MappedBy (updated key (some val) f)) (set_in d key val)
unfolding set_in
set_in-Mapping f d key val h =
    stored_in f key val _
      (both_Give HasRoom (MappedBy f) _ (room-HasRoom _ d refl h.sound) (room-Mapping _ f d h))

-- dict_set on a table that holds a map ends with a table that holds the map with the key set to the
-- value and every other key as it was, whether or not the table had to grow.
pub dict_set-Represents :
    (f : Key → Option ℕ) (d : DuxDict) (key : Key) (val : ℕ)
    → Represents f d
    → Gives (Pointing (updated key (some val) f)) (dict_set (some d) (some key) val)
unfolding dict_set
dict_set-Represents f d key val h = pointed _ (set_in d key val) (
    both_Give IsSound (MappedBy _) _ (set_in-IsSound d key val h.sound)
      (set_in-Mapping f d key val h))

-- What the search for a key comes to, by the map.
abbrev Sought : DuxDict → Key → Option ℕ → Option (Option ℕ) → Type 0
Sought d key none r = r ≡ some none
Sought d key (some v) r =
    (j : ℕ) × (r ≡ some (some j)) × (slot_at d.entries j ≡ live key (hash_str key) v)

absent_sought :
    (f : Key → Option ℕ) (d : DuxDict) (key : Key) (r : Option (Option ℕ))
    → MappedBy f d
    → f key ≡ none
    → Ended d.entries d.cap r
    → Located d.entries d.cap key (hash_str key) r
    → r ≡ some none
absent_sought f d key none m e h g = elim h [ ]
absent_sought f d key (some none) m e h g = refl
absent_sought f d key (some (some i)) m e h (v, z) =
    elim (none_some (sym e ∙ m.value i key (hash_str key) v z)) [ ]
  where
    none_some : {v : ℕ} → none ≡ some v → ⊥
    none_some e = cc

look-Sought :
    (f : Key → Option ℕ) (d : DuxDict) (key : Key) (o : Option ℕ)
    → Represents f d
    → f key ≡ o
    → Sought d key o (look d key)
look-Sought f d key none h e =
    absent_sought f d key (look d key) h.mapping e (look-Ended d key h.sound)
      (search-Found d.entries d.cap key (hash_str key) d.cap (home d.cap (hash_str key)))
look-Sought f d key (some v) h e = search_present d h.mapping key v e

-- The value, NULL for a key that is missing.
abbrev pub or_null : Option ℕ → ℕ
or_null none = 0
or_null (some v) = v

abbrev Got : DuxDict → Option ℕ → Option (Option ℕ) → Type 0
Got d o r =
    (elim r as (λ x. Option ℕ) [
      | none ↦ none
      | some none ↦ some 0
      | some (some i) ↦ some (val_of (slot_at d.entries i))
    ]
      ≡ some (or_null o))
    × (elim r as (λ x. Option Bool) [
      | none ↦ none
      | some none ↦ some false
      | some (some i) ↦ some true
    ]
        ≡ some (is_some o))

Sought-Got :
    (d : DuxDict) (key : Key) (o : Option ℕ) (r : Option (Option ℕ)) → Sought d key o r → Got d o r
Sought-Got d key none r e = subst (Got d none) (sym e) (refl, refl)
Sought-Got d key (some v) r (j, e, z) =
    subst (Got d (some v)) (sym e) (ap (λ s. some (val_of s)) z, refl)

-- dict_get gives what the map has for the key, NULL if it has nothing, and dict_has says whether it
-- has something.
pub dict_get-Represents :
    (f : Key → Option ℕ) (d : DuxDict) (key : Key)
    → Represents f d
    → (dict_get (some d) (some key) ≡ some (or_null (f key)))
      × (dict_has (some d) (some key) ≡ some (is_some (f key)))
unfolding dict_get get_in dict_has has_in
dict_get-Represents f d key h =
    Sought-Got d key (f key) (look d key) (look-Sought f d key (f key) h refl)

unchanged : (f : Key → Option ℕ) (key : Key) → f key ≡ none → (k : Key) → f k ≡ updated key none f k
unchanged f key e k = elim (Bool-cases (key_eq key k)) [
  | inl t ↦ ap f (sym (key_eq-true key k t)) ∙ e ∙ sym (ap (λ b. if b then none else f k) t)
  | inr t ↦ sym (ap (λ b. if b then none else f k) t)
]

abbrev Removed : (Key → Option ℕ) → DuxDict → Key → Option (Option ℕ) → Type 0
Removed f d key r = Gives (MappedBy (updated key none f)) (elim r as (λ x. Option DuxDict) [
  | none ↦ none
  | some none ↦ some d
  | some (some i) ↦ some (deleted d i)
])

deleted_at :
    (f : Key → Option ℕ) (d : DuxDict) (key : Key) (o : Option ℕ) (r : Option (Option ℕ))
    → Represents f d
    → f key ≡ o
    → Sought d key o r
    → Removed f d key r
deleted_at f d key none r h e s =
    subst (Removed f d key) (sym s)
      (Mapping-pointwise f (updated key none f) d.entries d.cap (unchanged f key e) h.mapping)
deleted_at f d key (some v) r h e (j, q, z) = subst (Removed f d key) (sym q) (
    removed-Mapping h.mapping
      (modify-Change (λ s. tombstone) j d.entries (live-inside d.entries j z)) z)

del_in-Mapping :
    (f : Key → Option ℕ) (d : DuxDict) (key : Key)
    → Represents f d
    → Gives (MappedBy (updated key none f)) (del_in d key)
unfolding del_in
del_in-Mapping f d key h =
    deleted_at f d key (f key) (look d key) h refl (look-Sought f d key (f key) h refl)

-- dict_del ends with a table that holds the map without the key and with every other key as it was;
-- a key that is missing is ignored.
pub dict_del-Represents :
    (f : Key → Option ℕ) (d : DuxDict) (key : Key)
    → Represents f d
    → Gives (Pointing (updated key none f)) (dict_del (some d) (some key))
unfolding dict_del
dict_del-Represents f d key h =
    pointed _ (del_in d key)
      (both_Give IsSound (MappedBy _) _ (body-IsSound d key h.sound).2 (del_in-Mapping f d key h))
