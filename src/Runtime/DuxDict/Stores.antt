-- ===== src/Runtime/DuxDict/Stores.antt =====
-- A key that is put into a table of src/runtime/dict.c, on the map that the table holds.
use dux_lang.Prelude.{
  ℕ, ◌+◌, ◌<◌, ◌≡◌, refl, sym, ap, subst, ◌∙◌, Option, none, some, arith, absurd_bool, modify,
}
use dux_lang.Runtime.DuxDict.{
  Key, live, slot_at, home, hash_str, DuxDict, spot_for, Spot, present, absent, put, with_val,
  dict_insert_raw, look,
}
use dux_lang.Runtime.DuxDict.Probes.{is_live, Placed, spot_home-Placed}
use dux_lang.Runtime.DuxDict.Paths.{live-inside, live_inj}
use dux_lang.Runtime.DuxDict.Finds.{search-Leads, spot_for-Leads}
use dux_lang.Runtime.DuxDict.Spots.{spot-Spotted, Spotted}
use dux_lang.Runtime.DuxDict.Inserts.{IsTable, Gives, table_empty}
use dux_lang.Runtime.DuxDict.Maps.{Mapping, updated, Change, modify-Change, stored-Mapping}

abbrev pub MappedBy : (Key → Option ℕ) → DuxDict → Type 0
MappedBy f d = Mapping f d.entries d.cap

module _ {f : Key → Option ℕ} (d : DuxDict) (mp : MappedBy f d) (key : Key) where
  pub search_present :
      (v : ℕ)
      → f key ≡ some v
      → (j : ℕ) × (look d key ≡ some (some j)) × (slot_at d.entries j ≡ live key (hash_str key) v)
  search_present v e =
      let (j, h, at) = mp.complete key v e in
      let at' = at ∙ ap (λ x. live key x v) (mp.hashed j key h v at) in
      let (n, l, p) = mp.reached j key h v at in
      (
        j,
        search-Leads d.entries d.cap key (hash_str key) v j at'
            (λ i h' v' z. mp.unique i j key h' (hash_str key) v' v z at') d.cap n
            (home d.cap (hash_str key)) l p,
        at',
      )

  spot_present :
      (v i : ℕ)
      → f key ≡ some v
      → spot_for d.cap d.entries d.cap key (hash_str key) none (home d.cap (hash_str key))
        ≡ some (absent i)
      → ⊥
  spot_present v i e q =
      let (j, h, at) = mp.complete key v e in
      let at' = at ∙ ap (λ x. live key x v) (mp.hashed j key h v at) in
      let (n, l, p) = mp.reached j key h v at in
      let r =
        spot_for-Leads d.entries d.cap key (hash_str key) v j at'
          (λ i h' v' z. mp.unique i j key h' (hash_str key) v' v z at') d.cap n
          (home d.cap (hash_str key)) none l p in
      two_ways (sym r ∙ q)
    where
      two_ways : {i j : ℕ} → some (present j) ≡ some (absent i) → ⊥
      two_ways e = cc

  put-Mapping :
      (val : ℕ) (o : Option Spot)
      → IsTable d
      → Placed d.entries d.cap o
      → Spotted d.entries d.cap key (hash_str key) (home d.cap (hash_str key)) o
      → ((v i : ℕ) → f key ≡ some v → o ≡ some (absent i) → ⊥)
      → Gives (MappedBy (updated key (some val) f)) (put d key (hash_str key) val o)
  put-Mapping val none t p s a = p
  put-Mapping val (some (present i)) t p (v, e) a =
      stored-Mapping mp
        (subst (λ x. Change d.entries (modify (with_val val) i d.entries) i x) (ap (with_val val) e)
          (modify-Change (with_val val) i d.entries (live-inside d.entries i e)))
        (mp.reached i key (hash_str key) v e)
        (λ x h w o z. o (mp.unique x i key h (hash_str key) w v z e))
        (λ k h w z. (live_inj (sym z ∙ e)).0)
  put-Mapping val (some (absent i)) t p s a =
      stored-Mapping mp
        (modify-Change (λ x. live key (hash_str key) val) i d.entries (omega (arith, t.long, p.0)))
        s (λ x h w o z. a w i (mp.value x key h w z) refl)
        (λ k h w z. elim (absurd_bool (ap is_live z) p.1) [ ])

  pub insert-Mapping :
      (val : ℕ)
      → IsTable d
      → d.len + d.tomb < d.cap
      → Gives (MappedBy (updated key (some val) f)) (dict_insert_raw d key (hash_str key) val)
  unfolding dict_insert_raw
  insert-Mapping val t l =
      let (j, p, e) = table_empty d t l in
      put-Mapping val _ t
        (spot_home-Placed d.entries d.cap t.power t.cap_is j key (hash_str key) p e)
        (spot-Spotted d.entries d.cap key (hash_str key) (home d.cap (hash_str key))) spot_present
