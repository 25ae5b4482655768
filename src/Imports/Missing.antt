-- ===== src/Imports/Missing.antt =====
-- Sets of names as lists, and the names that are not loaded yet: they bound the recursion of
-- merge_stdlib_imports in src/main.cpp.
use dux_lang.Prelude.{
  ℕ, suc, ◌≤◌, ◌<◌, Bool, true, false, ◌&&◌, not, String, List, [], ◌∷◌, ◌++◌, ◌==◌, eq_iff,
  eq_refl, if◌then◌else◌, ◌≡◌, refl, arith, Bool-cases, absurd_bool, inl, inr,
}
use dux_lang.Prelude.Tables.{mem_name}

abbrev pub all_in : List String → List String → Bool
all_in [] ys = true
all_in (x ∷ xs) ys = mem_name x ys && all_in xs ys

-- No name stands twice.
abbrev pub all_distinct : List String → Bool
all_distinct [] = true
all_distinct (x ∷ xs) = not (mem_name x xs) && all_distinct xs

-- How many of the names are not loaded.
abbrev pub missing : List String → List String → ℕ
missing [] loaded = 0
missing (x ∷ xs) loaded =
    let rest = missing xs loaded in if mem_name x loaded then rest else suc rest

pub mem_name-all_in :
    (x : String) (xs ys : List String)
    → mem_name x xs ≡ true
    → all_in xs ys ≡ true
    → mem_name x ys ≡ true
mem_name-all_in x [] ys m h = absurd (absurd_bool m refl)
mem_name-all_in x (z ∷ xs) ys m h = elim (Bool-cases (z == x)) [
  | inl e ↦ ground (arith, eq_iff z x, e)
  | inr e ↦ ground (arith, e, mem_name-all_in x xs ys)
]

pub all_in-cons :
    (x : String) (xs ys : List String) → all_in xs ys ≡ true → all_in xs (x ∷ ys) ≡ true
all_in-cons x [] ys h = refl
all_in-cons x (z ∷ xs) ys h = ground (arith, h, all_in-cons x xs ys)

pub all_in_refl : (xs : List String) → all_in xs xs ≡ true
all_in_refl [] = refl
all_in_refl (x ∷ xs) = ground (arith, eq_refl x, all_in-cons x xs xs (all_in_refl xs))

pub all_in_trans :
    (xs ys zs : List String) → all_in xs ys ≡ true → all_in ys zs ≡ true → all_in xs zs ≡ true
all_in_trans [] ys zs h g = refl
all_in_trans (x ∷ xs) ys zs h g =
    ground (arith, h, mem_name-all_in x ys zs, all_in_trans xs ys zs, g)

pub all_in-append :
    (xs ys zs : List String)
    → all_in xs zs ≡ true
    → all_in ys zs ≡ true
    → all_in (xs ++ ys) zs ≡ true
all_in-append [] ys zs h g = g
all_in-append (x ∷ xs) ys zs h g = ground (arith, h, all_in-append xs ys zs, g)

pub missing-all_in :
    (names xs ys : List String) → all_in xs ys ≡ true → missing names ys ≤ missing names xs
missing-all_in [] xs ys h = omega arith
missing-all_in (x ∷ names) xs ys h =
    ground (arith, mem_name-all_in x xs ys, h, missing-all_in names xs ys h)

-- One name fewer, when it is loaded.
pub missing-cons :
    (names : List String) (x : String) (loaded : List String)
    → mem_name x names ≡ true
    → mem_name x loaded ≡ false
    → missing names (x ∷ loaded) < missing names loaded
missing-cons [] x loaded m h = absurd (absurd_bool m refl)
missing-cons (z ∷ names) x loaded m h = elim (Bool-cases (z == x)) [
  | inl e ↦ ground (
    arith,
    e,
    h,
    eq_iff z x,
    eq_refl x,
    missing-all_in names loaded (x ∷ loaded) (all_in-cons x loaded loaded (all_in_refl loaded)),
  )
  | inr e ↦ ground (arith, e, m, eq_iff x z, eq_iff z x, missing-cons names x loaded)
]
