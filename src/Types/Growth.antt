-- ===== src/Types/Growth.antt =====
-- How the registry changes while statements and expressions are checked: types are added, and what
-- a type had at its declaration stays.
use dux_lang.Prelude.{
  lt→ltb, ℕ, zero, suc, ◌<◌, ◌≤◌, String, ◌≡◌, refl, ◌∙◌, List, some, arith, length, get_or, modify,
  length-append, length-modify, get_or-append_left, inl, inr, Option-cases, eq_iff, [], ◌∷◌,
}
use dux_lang.Prelude.Tables.{find, find-assign}
use dux_lang.Types.{
  TypeId, TypeKind, TypeInfo, TypeRegistry, blank, pos, update_info, intern, slot, info,
}

-- The fields of a type that no expression changes.
pub record SameType (a b : TypeInfo) : Type 0 where
  pub kind : b.kind ≡ a.kind
  pub name : b.name ≡ a.name
  pub parent : b.parent ≡ a.parent
  pub ifaces : b.ifaces ≡ a.ifaces
  pub variants : b.variants ≡ a.variants

pub SameType-refl : (a : TypeInfo) → SameType a a
SameType-refl a = record { kind = refl; name = refl; parent = refl; ifaces = refl; variants = refl }

pub SameType-trans : {a b c : TypeInfo} → SameType a b → SameType b c → SameType a c
SameType-trans f g = record {
  kind = g.kind ∙ f.kind;
  name = g.name ∙ f.name;
  parent = g.parent ∙ f.parent;
  ifaces = g.ifaces ∙ f.ifaces;
  variants = g.variants ∙ f.variants;
}

pub record RegistryGrows (r r' : TypeRegistry) : Type 0 where
  pub size : length r.types ≤ length r'.types
  pub kept :
      (n : ℕ) → n < length r.types → SameType (get_or r.types n blank) (get_or r'.types n blank)
  pub names :
      (name : String) (id : TypeId) → find name r.by_name ≡ some id → find name r'.by_name ≡ some id

pub RegistryGrows-refl : (r : TypeRegistry) → RegistryGrows r r
RegistryGrows-refl r = record {
  size = omega arith;
  kept = λ n h. SameType-refl _;
  names = λ name id h. h;
}

pub RegistryGrows-trans :
    {a b c : TypeRegistry} → RegistryGrows a b → RegistryGrows b c → RegistryGrows a c
RegistryGrows-trans f g = record {
  size = omega (arith, f.size, g.size);
  kept = λ n h. SameType-trans (f.kept n h) (g.kept n (omega (arith, f.size)));
  names = λ name id h. g.names name id (f.names name id h);
}

get_or-modify-SameType :
    (f : TypeInfo → TypeInfo)
    → ((t : TypeInfo) → SameType t (f t))
    → (i : ℕ) (ts : List TypeInfo) (n : ℕ)
    → SameType (get_or ts n blank) (get_or (modify f i ts) n blank)
get_or-modify-SameType f h i [] n = SameType-refl _
get_or-modify-SameType f h zero (t ∷ ts) zero = h t
get_or-modify-SameType f h zero (t ∷ ts) (suc n) = SameType-refl _
get_or-modify-SameType f h (suc i) (t ∷ ts) zero = SameType-refl _
get_or-modify-SameType f h (suc i) (t ∷ ts) (suc n) = get_or-modify-SameType f h i ts n

pub update_info-RegistryGrows :
    (f : TypeInfo → TypeInfo)
    → ((t : TypeInfo) → SameType t (f t))
    → (id : TypeId) (r : TypeRegistry) → RegistryGrows r (update_info f id r)
unfolding update_info
update_info-RegistryGrows f h id r = record {
  size = omega (arith, length-modify f (slot r id) r.types);
  kept = λ n lt. get_or-modify-SameType f h (slot r id) r.types n;
  names = λ name id' e. e;
}

pub intern-RegistryGrows :
    (name : String) (kind : TypeKind) (r : TypeRegistry) → RegistryGrows r (intern name kind r).1
unfolding intern
intern-RegistryGrows name kind r = elim (Option-cases (find name r.by_name)) [
  | inr (id, e) ↦ rw (e, intern) (RegistryGrows-refl r)
  | inl e ↦
      rw (e, intern)
        (record {
          size = omega (arith, length-append {0} r.types);
          kept = λ n h. rw (get_or-append_left r.types _ n blank h) (SameType-refl _);
          names = λ j id h.
              ground (arith, find-assign name j (pos (length r.types)) r.by_name, eq_iff name j);
        })
]

pub info-RegistryGrows :
    {r r' : TypeRegistry}
    → RegistryGrows r r'
    → (n : ℕ) → n < length r.types
    → SameType (info r (pos n)) (info r' (pos n))
unfolding info
info-RegistryGrows {r} {r'} g n h =
    rw (lt→ltb n (length r.types) h, lt→ltb n (length r'.types) (omega (arith, h, g.size)))
      (g.kept n h)
