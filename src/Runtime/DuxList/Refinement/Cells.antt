-- ===== src/Runtime/DuxList/Refinement/Cells.antt =====
-- The block of a list of src/runtime/list.c, and sequences.
use dux_lang.Prelude.{
  nothing_below_zero, ℕ, zero, suc, ◌+◌, ◌-◌, ◌≤◌, ◌<◌, ◌≡◌, refl, sym, ap, ◌∙◌, Option, none, some,
  List, [], ◌∷◌, ◌++◌, length, length-append, modify, arith, Bool-cases, ltb, ltb→lt, inl, inr,
}
use dux_lang.Ast.{LongLong, pos, negsuc}
use dux_lang.Runtime.DuxList.{
  Access, ok, index_error, undefined, fresh_cells, read_cell, write_cell,
}

abbrev pub at {ℓ} : {A : Type ℓ} → List A → ℕ → Option A
at [] i = none
at (x ∷ xs) zero = some x
at (x ∷ xs) (suc i) = at xs i

abbrev pub reversed {ℓ} : {A : Type ℓ} → List A → List A
reversed [] = []
reversed (x ∷ xs) = reversed xs ++ x ∷ []

-- The element at an index, a negative one counted from the end.
abbrev pub nth {ℓ} : {A : Type ℓ} → List A → LongLong → Option A
nth xs (pos n) = at xs n
nth xs (negsuc n) = at (reversed xs) n

abbrev pub written : List ℕ → List (Option ℕ)
written [] = []
written (x ∷ xs) = some x ∷ written xs

module _ {ℓ} {A : Type ℓ} where
  pub at-beyond : (xs : List A) (i : ℕ) → length xs ≤ i → at xs i ≡ none
  at-beyond [] i h = refl
  at-beyond (x ∷ xs) zero h = elim (nothing_below_zero h) [ ]
  at-beyond (x ∷ xs) (suc i) h = at-beyond xs i (omega arith)

  at-append_left : (xs ys : List A) (i : ℕ) → i < length xs → at (xs ++ ys) i ≡ at xs i
  at-append_left [] ys i h = elim (nothing_below_zero h) [ ]
  at-append_left (x ∷ xs) ys zero h = refl
  at-append_left (x ∷ xs) ys (suc i) h = at-append_left xs ys i (omega arith)

  at-append_end : (xs : List A) (y : A) (i : ℕ) → i ≡ length xs → at (xs ++ y ∷ []) i ≡ some y
  at-append_end [] y zero h = refl
  at-append_end [] y (suc i) h = let bad : ⊥ = omega arith in elim bad [ ]
  at-append_end (x ∷ xs) y zero h = let bad : ⊥ = omega arith in elim bad [ ]
  at-append_end (x ∷ xs) y (suc i) h = at-append_end xs y i (omega arith)

  pub length-reversed : (xs : List A) → length (reversed xs) ≡ length xs
  length-reversed [] = refl
  length-reversed (x ∷ xs) = omega (arith, length-append (reversed xs) (x ∷ []), length-reversed xs)

  at-reversed_cons :
      (x : A) (xs : List A) (i : ℕ)
      → i < suc (length xs)
      → (i < length xs → at (reversed xs) i ≡ at xs (length xs - (i + 1)))
      → at (reversed xs ++ x ∷ []) i ≡ at (x ∷ xs) (suc (length xs) - (i + 1))
  at-reversed_cons x xs i h ih = elim (Bool-cases (ltb i (length xs))) [
    | inl inner ↦
        let l = ltb→lt i (length xs) inner in
        let back : suc (length xs) - (i + 1) ≡ suc (length xs - (i + 1)) = omega arith in
        at-append_left (reversed xs) (x ∷ []) i (omega (arith, length-reversed xs))
        ∙ ih l
        ∙ ap (at (x ∷ xs)) (sym back)
    | inr last ↦
        let e : i ≡ length xs = ground arith in
        let first : suc (length xs) - (i + 1) ≡ 0 = omega arith in
        at-append_end (reversed xs) x i (omega (arith, length-reversed xs))
        ∙ ap (at (x ∷ xs)) (sym first)
  ]

  pub at-reversed :
      (xs : List A) (i : ℕ) → i < length xs → at (reversed xs) i ≡ at xs (length xs - (i + 1))
  at-reversed [] i h = elim (nothing_below_zero h) [ ]
  at-reversed (x ∷ xs) i h = at-reversed_cons x xs i h (at-reversed xs i)

pub read-written :
    (xs : List ℕ) (rest : List (Option ℕ)) (i v : ℕ)
    → at xs i ≡ some v
    → read_cell (written xs ++ rest) i ≡ ok v
read-written [] rest i v h = cc
read-written (x ∷ xs) rest zero v h = cc
read-written (x ∷ xs) rest (suc i) v h = read-written xs rest i v h

cons_cell :
    (c : Option ℕ) (o : Access (List (Option ℕ))) (cs : List (Option ℕ))
    → o ≡ ok cs
    → elim o as (λ x. Access (List (Option ℕ))) [
      | ok cs' ↦ ok (c ∷ cs')
      | index_error idx len ↦ index_error idx len
      | undefined ↦ undefined
    ]
      ≡ ok (c ∷ cs)
cons_cell c o cs e = cc

pub write-written :
    (xs : List ℕ) (rest : List (Option ℕ)) (i v : ℕ)
    → i < length xs
    → write_cell (written xs ++ rest) i v ≡ ok (written (modify (λ x. v) i xs) ++ rest)
write-written [] rest i v h = elim (nothing_below_zero h) [ ]
write-written (x ∷ xs) rest zero v h = refl
write-written (x ∷ xs) rest (suc i) v h =
    cons_cell (some x) _ _ (write-written xs rest i v (omega arith))

pub write-append :
    (xs : List ℕ) (c : Option ℕ) (rest : List (Option ℕ)) (v : ℕ)
    → write_cell (written xs ++ c ∷ rest) (length xs) v ≡ ok (written (xs ++ v ∷ []) ++ rest)
write-append [] c rest v = refl
write-append (x ∷ xs) c rest v = cons_cell (some x) _ _ (write-append xs c rest v)

pub length-fresh_cells : (n : ℕ) → length (fresh_cells n) ≡ n
length-fresh_cells zero = refl
length-fresh_cells (suc n) = ap suc (length-fresh_cells n)

pub written-append : (xs ys : List ℕ) → written (xs ++ ys) ≡ written xs ++ written ys
written-append [] ys = refl
written-append (x ∷ xs) ys = ap (λ cs. some x ∷ cs) (written-append xs ys)

pub append_assoc {ℓ} : {A : Type ℓ} (xs ys zs : List A) → (xs ++ ys) ++ zs ≡ xs ++ (ys ++ zs)
append_assoc [] ys zs = refl
append_assoc (x ∷ xs) ys zs = ap (λ l. x ∷ l) (append_assoc xs ys zs)

pub at-inside {ℓ} :
    {A : Type ℓ} (xs : List A) (i : ℕ) → i < length xs → (v : A) × (at xs i ≡ some v)
at-inside [] i h = elim (nothing_below_zero h) [ ]
at-inside (x ∷ xs) zero h = (x, refl)
at-inside (x ∷ xs) (suc i) h = at-inside xs i (omega arith)

pub at-modify : (xs : List ℕ) (i v : ℕ) → i < length xs → at (modify (λ x. v) i xs) i ≡ some v
at-modify [] i v h = elim (nothing_below_zero h) [ ]
at-modify (x ∷ xs) zero v h = refl
at-modify (x ∷ xs) (suc i) v h = at-modify xs i v (omega arith)
