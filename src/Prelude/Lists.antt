-- ===== src/Prelude/Lists.antt =====
-- Lists measured and indexed by native numbers, under the library's names.
use Prim.Native.Nat.{ℕ, zero, suc, ◌+◌, ◌<◌}
use mathlib.Core.Path.{◌≡◌, refl, ap}
use mathlib.Core.Logic.{◌≢◌}
use mathlib.Core.List.{List, [], ◌∷◌, ◌++◌}
use native.Mathlib.Omega.{arith}

module _ {ℓ} {A : Type ℓ} where
  abbrev pub length : List A → ℕ
  length [] = 0
  length (x ∷ xs) = suc (length xs)

  abbrev pub get_or : List A → ℕ → A → A
  get_or [] i d = d
  get_or (x ∷ xs) zero d = x
  get_or (x ∷ xs) (suc i) d = get_or xs i d

  -- Out of bounds nothing changes.
  abbrev pub modify : (A → A) → ℕ → List A → List A
  modify f i [] = []
  modify f zero (x ∷ xs) = f x ∷ xs
  modify f (suc i) (x ∷ xs) = x ∷ modify f i xs

  pub length-append : (xs ys : List A) → length (xs ++ ys) ≡ length xs + length ys
  length-append [] ys = omega arith
  length-append (x ∷ xs) ys = omega (arith, length-append xs ys)

  pub length-modify : (f : A → A) (i : ℕ) (xs : List A) → length (modify f i xs) ≡ length xs
  length-modify f i [] = refl
  length-modify f zero (x ∷ xs) = refl
  length-modify f (suc i) (x ∷ xs) = ap suc (length-modify f i xs)

module _ {ℓ} {A : Type ℓ} where
  pub get_or-append_left :
      (xs ys : List A) (i : ℕ) (d : A) → i < length xs → get_or (xs ++ ys) i d ≡ get_or xs i d
  get_or-append_left [] ys i d h = elim h [ ]
  get_or-append_left (x ∷ xs) ys zero d h = refl
  get_or-append_left (x ∷ xs) ys (suc i) d h = get_or-append_left xs ys i d (omega arith)

  pub get_or-append_length : (xs : List A) (y d : A) → get_or (xs ++ y ∷ []) (length xs) d ≡ y
  get_or-append_length [] y d = refl
  get_or-append_length (x ∷ xs) y d = get_or-append_length xs y d

  pub get_or-modify_self :
      (f : A → A) (i : ℕ) (xs : List A) (d : A)
      → i < length xs
      → get_or (modify f i xs) i d ≡ f (get_or xs i d)
  get_or-modify_self f i [] d h = elim h [ ]
  get_or-modify_self f zero (x ∷ xs) d h = refl
  get_or-modify_self f (suc i) (x ∷ xs) d h = get_or-modify_self f i xs d (omega arith)

  pub get_or-modify_ne :
      (f : A → A) (i j : ℕ) (xs : List A) (d : A)
      → i ≢ j
      → get_or (modify f i xs) j d ≡ get_or xs j d
  get_or-modify_ne f i j [] d h = refl
  get_or-modify_ne f zero zero (x ∷ xs) d h = absurd (h refl)
  get_or-modify_ne f zero (suc j) (x ∷ xs) d h = refl
  get_or-modify_ne f (suc i) zero (x ∷ xs) d h = refl
  get_or-modify_ne f (suc i) (suc j) (x ∷ xs) d h = get_or-modify_ne f i j xs d (λ e. h (ap suc e))
