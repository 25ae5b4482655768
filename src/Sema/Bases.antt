-- ===== src/Sema/Bases.antt =====
-- The parent of a class: the loop over the bases in check_class of src/sema/sema.cpp.
use dux_lang.Prelude.{
  ℕ, String, Bool, true, false, ◌≡◌, refl, ◌∙◌, sym, subst, ap, Option, some, none, List, [], ◌∷◌,
  if◌then◌else◌, length, ltb, ltb→lt, length-modify, get_or-modify_self, modify,
}
use dux_lang.Types.{
  TypeId, pos, negsuc, TypeInfo, TypeRegistry, info, set_parent, update_info, in_range, blank,
}
use dux_lang.Symbol.{Symbol, ScopeStack, lookup}
use dux_lang.Ast.{SourceLoc}
use dux_lang.Ast.Declarations.{BaseClass}
use dux_lang.Diagnostics.{driver_warning, unknown_base, not_a_base}
use dux_lang.Sema.{Sema, Outcome, done, aborted, hangs, M, pure, ◌>>=◌, gets, on_types, warn}
use dux_lang.Sema.Hoist.{change_types}
use dux_lang.Sema.Declarations.{check_bases, is_base_kind}

-- The parent that one base leaves: its own type if it names a class or an interface.
unfoldable pub parent_by : Option Symbol → TypeId → TypeId
parent_by none p = p
parent_by (some y) p = if is_base_kind y.kind then y.type else p

-- The parent that a list of bases leaves: that of the last one which names a class or interface.
unfoldable pub parent_after : ScopeStack → List BaseClass → TypeId → TypeId
unfolding parent_by
parent_after st [] p = p
parent_after st (b ∷ bs) p = parent_after st bs (parent_by (lookup b.name st) p)

abbrev with_parent : TypeId → TypeInfo → TypeInfo
with_parent p ti = record ti { parent = p }

abbrev Parented : TypeId → TypeId → TypeRegistry → Type 0
Parented c p r = ((info r c).parent ≡ p) × (in_range r c ≡ true)

set_parent_in :
    (r : TypeRegistry) (n : ℕ) (p : TypeId)
    → ltb n (length r.types) ≡ true
    → set_parent (pos n) p r ≡ record r { types = modify (with_parent p) n r.types }
unfolding set_parent update_info
set_parent_in r n p h = rw h refl

modify-Parented :
    (r : TypeRegistry) (n : ℕ) (p : TypeId)
    → ltb n (length r.types) ≡ true
    → Parented (pos n) p (record r { types = modify (with_parent p) n r.types })
unfolding info
modify-Parented r n p h =
    let f = with_parent p in
    let there : ltb n (length (modify f n r.types)) ≡ true =
      subst (λ k. ltb n k ≡ true) (sym (length-modify f n r.types)) h in
    (
      rw there
          (ap TypeInfo.parent (get_or-modify_self f n r.types blank (ltb→lt n (length r.types) h))),
      there,
    )

set_parent-info :
    (r : TypeRegistry) (c p : TypeId) → in_range r c ≡ true → Parented c p (set_parent c p r)
set_parent-info r (pos n) p h =
    subst (Parented (pos n) p) (sym (set_parent_in r n p h)) (modify-Parented r n p h)
set_parent-info r (negsuc n) p h = cc

-- `t` is `s` up to what the bases may change, with the parent `p` for the class.
record Wired (c p : TypeId) (s t : Sema) : Type 0 where
  parent : (info t.types c).parent ≡ p
  range : in_range t.types c ≡ true
  scopes : t.scopes ≡ s.scopes
  count : t.error_count ≡ s.error_count

-- The step of the loop for one base.
abbrev base_step : SourceLoc → TypeId → String → Option Symbol → M (Unit {0})
base_step loc c name o = elim o [
  | none ↦ warn loc (unknown_base name)
  | some y ↦
      if is_base_kind y.kind then change_types (set_parent c y.type) else warn loc (not_a_base name)
]

abbrev Leads : TypeId → TypeId → M (Unit {0}) → Sema → Type 0
Leads c p m s = (t : Sema) × (m s ≡ done tt t) × Wired c p s t

kind_step :
    (loc : SourceLoc) (c : TypeId) (name : String) (s : Sema) (p : TypeId) (is_base : Bool)
    → in_range s.types c ≡ true
    → Leads c
        (if is_base then p else (info s.types c).parent)
        (if is_base then change_types (set_parent c p) else warn loc (not_a_base name))
        s
unfolding warn on_types driver_warning
kind_step loc c name s p true h =
    let (parent, range) = set_parent-info s.types c p h in
    (_, refl, record { parent = parent; range = range; scopes = refl; count = refl })
kind_step loc c name s p false h =
    (_, refl, record { parent = refl; range = h; scopes = refl; count = refl })

step-Leads :
    (loc : SourceLoc) (c : TypeId) (name : String) (s : Sema) (o : Option Symbol)
    → in_range s.types c ≡ true
    → Leads c (parent_by o (info s.types c).parent) (base_step loc c name o) s
unfolding parent_by warn driver_warning
step-Leads loc c name s none h =
    (_, refl, record { parent = refl; range = h; scopes = refl; count = refl })
step-Leads loc c name s (some y) h = kind_step loc c name s y.type (is_base_kind y.kind) h

then-Leads :
    (c p q : TypeId) (m k : M (Unit {0})) (s : Sema)
    → Leads c p m s
    → ((t : Sema) → Wired c p s t → Leads c q k t)
    → Leads c q (m >>= λ _. k) s
unfolding ◌>>=◌
then-Leads c p q m k s (t, e, w) next =
    let (u, e', w') = next t w in
    (
      u,
      ap
            (λ (o : Outcome (Unit {0})). elim o as (λ x. Outcome (Unit {0})) [
              | done a v ↦ k v
              | aborted v ↦ aborted v
              | hangs ↦ hangs
            ])
            e
          ∙ e',
      record {
        parent = w'.parent;
        range = w'.range;
        scopes = w'.scopes ∙ w.scopes;
        count = w'.count ∙ w.count;
      },
    )

bases_lead :
    (loc : SourceLoc) (c : TypeId) (bs : List BaseClass) (s : Sema)
    → in_range s.types c ≡ true
    → Leads c (parent_after s.scopes bs (info s.types c).parent) (check_bases loc c bs) s
unfolding check_bases parent_after pure gets ◌>>=◌
bases_lead loc c [] s h =
    (s, refl, record { parent = refl; range = h; scopes = refl; count = refl })
bases_lead loc c (b ∷ bs) s h =
    let p = parent_by (lookup b.name s.scopes) (info s.types c).parent in
    then-Leads c p (parent_after s.scopes bs p) (base_step loc c b.name (lookup b.name s.scopes))
      (check_bases loc c bs) s (step-Leads loc c b.name s (lookup b.name s.scopes) h)
      λ t w.
        subst (λ st. Leads c (parent_after st bs p) (check_bases loc c bs) t) w.scopes
          (subst (λ q. Leads c (parent_after t.scopes bs q) (check_bases loc c bs) t) w.parent
            (bases_lead loc c bs t w.range))

-- For a class in the registry the loop over its bases always ends, reports no error and leaves as
-- the class's parent the type of the last base that names a class or an interface, or the parent
-- it had where there is none.
pub check_bases-parent :
    (loc : SourceLoc) (c : TypeId) (bs : List BaseClass) (s : Sema)
    → in_range s.types c ≡ true
    → (t : Sema) × (check_bases loc c bs s ≡ done tt t)
      × ((info t.types c).parent ≡ parent_after s.scopes bs (info s.types c).parent)
      × (t.scopes ≡ s.scopes)
      × (t.error_count ≡ s.error_count)
check_bases-parent loc c bs s h =
    let (t, e, w) = bases_lead loc c bs s h in (t, e, w.parent, w.scopes, w.count)
