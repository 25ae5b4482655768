-- ===== src/Examples/Dicts.antt =====
-- Runs of src/runtime/dict.c.
use dux_lang.Prelude.{ℕ, ◌≡◌, refl, false, Option, none, some, [], ◌∷◌, arith}
use dux_lang.Prelude.Tables.{is_some}
use dux_lang.Runtime.DuxDict.{
  Key, DuxDict, dict_new, dict_init_cap, dict_set, dict_get, dict_has, dict_del, hash_str,
}
use dux_lang.Runtime.DuxDict.Inserts.{Gives}
use dux_lang.Runtime.DuxDict.Maps.{updated}
use dux_lang.Runtime.DuxDict.Refinement.{
  Represents, Pointing, new-Represents, or_null, dict_set-Represents, dict_get-Represents,
  dict_del-Represents,
}

-- "ab"
abbrev ab : Key
ab = 97 ∷ 98 ∷ []

abbrev dict_behind : Option (Option DuxDict) → DuxDict
dict_behind none = dict_new
dict_behind (some none) = dict_new
dict_behind (some (some d)) = d

abbrev one_key : DuxDict
one_key = dict_behind (dict_set (some dict_new) (some ab) 5)

ab_is_five : dict_get (some one_key) (some ab) ≡ some 5
unfolding dict_get dux_lang.Runtime.DuxDict.get_in dux_lang.Runtime.DuxDict.search dict_set
    dux_lang.Runtime.DuxDict.set_in dux_lang.Runtime.DuxDict.dict_insert_raw
    dux_lang.Runtime.DuxDict.spot_for hash_str dux_lang.Runtime.DuxDict.hash_from
ab_is_five = refl

a_is_missing : dict_has (some one_key) (some (97 ∷ [])) ≡ some false
unfolding dict_has dux_lang.Runtime.DuxDict.has_in dux_lang.Runtime.DuxDict.search dict_set
    dux_lang.Runtime.DuxDict.set_in dux_lang.Runtime.DuxDict.dict_insert_raw
    dux_lang.Runtime.DuxDict.spot_for hash_str dux_lang.Runtime.DuxDict.hash_from
a_is_missing = refl

-- The map of the table with one key.
abbrev nothing : Key → Option ℕ
nothing k = none

new_table : Represents nothing dict_new
new_table = new-Represents 4 16 refl (omega arith)

dict_set-Represents_example :
    Gives (Pointing (updated ab (some 5) nothing)) (dict_set (some dict_new) (some ab) 5)
dict_set-Represents_example = dict_set-Represents nothing dict_new ab 5 new_table

one_key-Represents : Represents (updated ab (some 5) nothing) one_key
unfolding dict_set dux_lang.Runtime.DuxDict.set_in dux_lang.Runtime.DuxDict.dict_insert_raw
    dux_lang.Runtime.DuxDict.spot_for hash_str dux_lang.Runtime.DuxDict.hash_from
one_key-Represents = dict_set-Represents nothing dict_new ab 5 new_table

dict_get-Represents_example :
    (dict_get (some one_key) (some ab) ≡ some (or_null (updated ab (some 5) nothing ab)))
    × (dict_has (some one_key) (some ab) ≡ some (is_some (updated ab (some 5) nothing ab)))
dict_get-Represents_example =
    dict_get-Represents (updated ab (some 5) nothing) one_key ab one_key-Represents

dict_del-Represents_example :
    Gives
      (Pointing (updated ab none (updated ab (some 5) nothing)))
      (dict_del (some one_key) (some ab))
dict_del-Represents_example =
    dict_del-Represents (updated ab (some 5) nothing) one_key ab one_key-Represents
