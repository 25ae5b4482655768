-- ===== src/Prelude/Tables.antt =====
-- Association lists for the program's hash maps with text keys. `find` is find(), `assign` is
-- `m[k] = v`, and `emplace` is emplace(), which keeps what is there.
use dux_lang.Prelude.{
  ◌≡◌, refl, String, Option, none, some, List, [], ◌∷◌, arith, ◌==◌, eq_iff, eq_refl, if◌then◌else◌,
  Bool, true, false, ◌||◌,
}

abbrev pub Table {ℓ} : Type ℓ → Type ℓ
Table V = List (String × V)

-- `count` of a set of names.
abbrev pub mem_name : String → List String → Bool
mem_name x [] = false
mem_name x (y ∷ ys) = y == x || mem_name x ys

module _ {ℓ} {V : Type ℓ} where
  unfoldable pub find : String → Table V → Option V
  find k [] = none
  find k ((j, v) ∷ m) = if j == k then some v else find k m

  unfoldable pub assign : String → V → Table V → Table V
  assign k v [] = (k, v) ∷ []
  assign k v ((j, w) ∷ m) = if j == k then (j, v) ∷ m else (j, w) ∷ assign k v m

  abbrev pub is_some : Option V → Bool
  is_some none = false
  is_some (some v) = true

  unfoldable pub emplace : String → V → Table V → Table V × Bool
  emplace k v m = elim (find k m) [ none ↦ (assign k v m, true) | some w ↦ (m, false) ]

  pub find-assign :
      (k j : String) (v : V) (m : Table V)
      → find j (assign k v m) ≡ (if k == j then some v else find j m)
  unfolding find assign
  find-assign k j v [] = refl
  find-assign k j v ((i, w) ∷ m) =
      ground (arith, eq_iff k j, eq_iff i k, eq_iff i j, find-assign k j v m)

  pub find-assign_self : (k : String) (v : V) (m : Table V) → find k (assign k v m) ≡ some v
  find-assign_self k v m = simp (find-assign, eq_refl)

  -- What the table held stays; the key holds its old value or the new one.
  pub find-emplace :
      (k j : String) (v w : V) (m : Table V) → find j m ≡ some w → find j (emplace k v m).0 ≡ some w
  unfolding emplace
  find-emplace k j v w m h = ground (arith, find-assign k j v m, eq_iff k j)

  pub find-emplace_self :
      (k : String) (v : V) (m : Table V) → is_some (find k (emplace k v m).0) ≡ true
  unfolding emplace
  find-emplace_self k v m = ground (arith, find-assign_self k v m)
