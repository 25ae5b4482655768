-- ===== src/Types/Names.antt =====
-- intern, from_name and name_of of src/sema/types.cpp: names and ids stand for each other.
use dux_lang.Prelude.{
  ℕ, ◌+◌, ◌<◌, String, Bool, true, false, ◌≡◌, refl, sym, ap, subst, ◌∙◌, some, arith,
  if◌then◌else◌, Bool-cases, Option-cases, inl, inr, length, get_or, ltb, ltb→lt, lt→ltb, ◌==◌,
  List, [], ◌∷◌, ◌++◌, get_or-append_left, get_or-append_length, length-append, eq_iff,
}
use dux_lang.Prelude.Tables.{find, assign, find-assign, find-assign_self}
use dux_lang.Types.{
  TypeId, pos, negsuc, tid_void, tid_bool, tid_int, tid_long, tid_real, tid_double, tid_str,
  tid_list, tid_dict, tid_tuple, tid_null, tid_object, TypeKind, TypeInfo, TypeRegistry, blank,
  info, in_range, intern, from_name, name_of, builtin_types,
}

-- `id` is a type of the registry, and called `name`.
abbrev pub Named : TypeRegistry → String → TypeId → Type 0
Named r name id = (in_range r id ≡ true) × ((info r id).name ≡ name)

-- Each name of the table leads to a type of that name.
pub record WellNamed (r : TypeRegistry) : Type 0 where
  pub named : (name : String) (id : TypeId) → find name r.by_name ≡ some id → Named r name id

abbrev added : TypeRegistry → TypeInfo → TypeRegistry
added r ti = record {
  types = r.types ++ (ti ∷ []);
  by_name = assign ti.name (pos (length r.types)) r.by_name;
}

info_in :
    (r : TypeRegistry) (n : ℕ)
    → ltb n (length r.types) ≡ true
    → info r (pos n) ≡ get_or r.types n blank
unfolding info
info_in r n h = rw h refl

Named-added :
    (r : TypeRegistry) (ti : TypeInfo) (name : String) (id : TypeId)
    → Named r name id
    → Named (added r ti) name id
Named-added r ti name (pos n) (h, e) =
    let below : n < length r.types = ltb→lt n (length r.types) h in
    let longer : length (r.types ++ (ti ∷ [])) ≡ length r.types + 1 =
      length-append r.types (ti ∷ []) in
    let there : ltb n (length (r.types ++ (ti ∷ []))) ≡ true =
      lt→ltb n (length (r.types ++ (ti ∷ []))) (omega (arith, below, longer)) in
    (
      there,
      ap TypeInfo.name (
            info_in (added r ti) n there
            ∙ (get_or-append_left r.types (ti ∷ []) n blank below ∙ sym (info_in r n h)))
          ∙ e,
    )
Named-added r ti name (negsuc n) (h, e) = cc

Named-added_self :
    (r : TypeRegistry) (ti : TypeInfo) → Named (added r ti) ti.name (pos (length r.types))
Named-added_self r ti =
    let n = length r.types in
    let longer : length (r.types ++ (ti ∷ [])) ≡ n + 1 = length-append r.types (ti ∷ []) in
    let there : ltb n (length (r.types ++ (ti ∷ []))) ≡ true =
      lt→ltb n (length (r.types ++ (ti ∷ []))) (omega (arith, longer)) in
    (there, ap TypeInfo.name (info_in (added r ti) n there ∙ get_or-append_length r.types ti blank))

some_inj : {A : Type 0} {x y : A} → some x ≡ some y → x ≡ y
some_inj e = cc

WellNamed-added : (r : TypeRegistry) (ti : TypeInfo) → WellNamed r → WellNamed (added r ti)
WellNamed-added r ti w = record {
  named = λ name id e.
      entry name id _ refl (sym (find-assign ti.name name (pos (length r.types)) r.by_name) ∙ e);
}
  where
    entry :
        (name : String) (id : TypeId) (same : Bool)
        → (ti.name == name) ≡ same
        → (if same then some (pos (length r.types)) else find name r.by_name) ≡ some id
        → Named (added r ti) name id
    entry name id true h e =
        subst (λ x. Named (added r ti) x id) ((eq_iff ti.name name).0 h)
          (subst (Named (added r ti) ti.name) (some_inj e) (Named-added_self r ti))
    entry name id false h e = Named-added r ti name id (w.named name id e)

-- What an interned name gives: the registry stays well named, the id is a type of that name, and
-- the name leads to the id.
record Interned (name : String) (id : TypeId) (r : TypeRegistry) : Type 0 where
  well_named : WellNamed r
  named : Named r name id
  found : find name r.by_name ≡ some id

intern-Interned :
    (name : String) (kind : TypeKind) (r : TypeRegistry)
    → WellNamed r
    → Interned name (intern name kind r).0 (intern name kind r).1
unfolding intern
intern-Interned name kind r w = elim (Option-cases (find name r.by_name)) [
  | inl e ↦
      rw (e, intern)
        (record {
          well_named = WellNamed-added r _ w;
          named = Named-added_self r _;
          found = find-assign_self name _ r.by_name;
        })
  | inr (id, e) ↦ rw (e, intern) (record { well_named = w; named = w.named name id e; found = e })
]

name_of-Named :
    (r : TypeRegistry) (name : String) (id : TypeId) → Named r name id → name_of r id ≡ name
unfolding name_of
name_of-Named r name (pos n) (h, e) = rw h e
name_of-Named r name (negsuc n) (h, e) = cc

intern_found :
    (name : String) (kind : TypeKind) (r : TypeRegistry) (id : TypeId)
    → find name r.by_name ≡ some id
    → intern name kind r ≡ (id, r)
unfolding intern
intern_found name kind r id e = rw (e, intern) refl

-- In a registry whose names lead to types of that name, `intern` gives a name an id that has this
-- name, under which `from_name` finds it unless the name is `ptr`, and the registry is again
-- such a one. To intern the name again, of whatever kind, gives the same id and adds nothing.
pub intern-name :
    (name : String) (kind again : TypeKind) (r : TypeRegistry)
    → WellNamed r
    → WellNamed (intern name kind r).1
      × (name_of (intern name kind r).1 (intern name kind r).0 ≡ name)
      × (from_name (intern name kind r).1 name
          ≡ (if name == "ptr" then tid_object else (intern name kind r).0))
      × (intern name again (intern name kind r).1 ≡ intern name kind r)
unfolding from_name
intern-name name kind again r w =
    let h = intern-Interned name kind r w in
    (
      h.well_named,
      name_of-Named (intern name kind r).1 name (intern name kind r).0 h.named,
      rw h.found refl,
      intern_found name again (intern name kind r).1 (intern name kind r).0 h.found,
    )

-- Every entry of a table leads to a type of its name.
data AllNamed (r : TypeRegistry) : List (String × TypeId) → Type 0 where
  no_more : AllNamed r []
  entry :
      (name : String) (id : TypeId) {m : List (String × TypeId)}
      → Named r name id
      → AllNamed r m
      → AllNamed r ((name, id) ∷ m)

find-AllNamed :
    (r : TypeRegistry) (m : List (String × TypeId)) (name : String) (id : TypeId)
    → AllNamed r m
    → find name m ≡ some id
    → Named r name id
unfolding find
find-AllNamed r [] name id AllNamed.no_more e = cc
find-AllNamed r ((j, k) ∷ m) name id (AllNamed.entry _ _ h hs) e = elim (Bool-cases (j == name)) [
  | inl same ↦
      subst (λ x. Named r x id) ((eq_iff j name).0 same)
        (subst (Named r j)
          (some_inj (subst (λ (c : Bool). (if c then some k else find name m) ≡ some id) same e)) h)
  | inr other ↦
      find-AllNamed r m name id hs
        (subst (λ (c : Bool). (if c then some k else find name m) ≡ some id) other e)
]

-- The names of the built-in types lead to types of those names.
pub builtin_types-WellNamed : WellNamed builtin_types
unfolding builtin_types info
builtin_types-WellNamed = record {
  named = λ name id e.
      find-AllNamed builtin_types builtin_types.by_name name id
        (AllNamed.entry "void" tid_void (refl, refl)
          (AllNamed.entry "bool" tid_bool (refl, refl)
            (AllNamed.entry "int" tid_int (refl, refl)
              (AllNamed.entry "long" tid_long (refl, refl)
                (AllNamed.entry "real" tid_real (refl, refl)
                  (AllNamed.entry "double" tid_double (refl, refl)
                    (AllNamed.entry "str" tid_str (refl, refl)
                      (AllNamed.entry "list" tid_list (refl, refl)
                        (AllNamed.entry "dict" tid_dict (refl, refl)
                          (AllNamed.entry "tuple" tid_tuple (refl, refl)
                            (AllNamed.entry "object" tid_object (refl, refl)
                              (AllNamed.entry "null" tid_null (refl, refl)
                                AllNamed.no_more))))))))))))
        e;
}
