-- ===== src/Types/Walk/Pigeonhole.antt =====
-- A list of different numbers below n has at most n of them.
use dux_lang.Prelude.{
  ℕ, zero, suc, ◌≤◌, ◌<◌, ◌≡◌, ◌≢◌, refl, subst, nat_eq_iff, List, [], ◌∷◌, arith, length, nat_eq,
  if◌then◌else◌, Bool-cases, inl, inr,
}

-- Is `x` none of the list?
pub data Fresh (x : ℕ) : List ℕ → Type 0 where
  nowhere : Fresh x []
  not_here : {y : ℕ} {ys : List ℕ} → x ≢ y → Fresh x ys → Fresh x (y ∷ ys)

pub data Distinct : List ℕ → Type 0 where
  empty : Distinct []
  also : {x : ℕ} {xs : List ℕ} → Fresh x xs → Distinct xs → Distinct (x ∷ xs)

pub data Below (n : ℕ) : List ℕ → Type 0 where
  none_left : Below n []
  lower : {x : ℕ} {xs : List ℕ} → x < n → Below n xs → Below n (x ∷ xs)

without : ℕ → List ℕ → List ℕ
without n [] = []
without n (x ∷ xs) = if nat_eq x n then without n xs else x ∷ without n xs

module _ (n : ℕ) where
  Fresh-without : (x : ℕ) (xs : List ℕ) → Fresh x xs → Fresh x (without n xs)
  unfolding without
  Fresh-without x [] f = f
  Fresh-without x (y ∷ ys) (Fresh.not_here ne f) = elim (Bool-cases (nat_eq y n)) [
    | inl e ↦ rw e (Fresh-without x ys f)
    | inr e ↦ rw e (Fresh.not_here ne (Fresh-without x ys f))
  ]

  Distinct-without : (xs : List ℕ) → Distinct xs → Distinct (without n xs)
  unfolding without
  Distinct-without [] d = d
  Distinct-without (x ∷ xs) (Distinct.also f d) = elim (Bool-cases (nat_eq x n)) [
    | inl e ↦ rw e (Distinct-without xs d)
    | inr e ↦ rw e (Distinct.also (Fresh-without x xs f) (Distinct-without xs d))
  ]

  Below-without : (xs : List ℕ) → Below (suc n) xs → Below n (without n xs)
  unfolding without
  Below-without [] b = Below.none_left
  Below-without (x ∷ xs) (Below.lower l b) = elim (Bool-cases (nat_eq x n)) [
    | inl e ↦ rw e (Below-without xs b)
    | inr e ↦ rw e (Below.lower (ground arith) (Below-without xs b))
  ]

  length-without-Fresh : (xs : List ℕ) → Fresh n xs → length (without n xs) ≡ length xs
  unfolding without
  length-without-Fresh [] f = refl
  length-without-Fresh (x ∷ xs) (Fresh.not_here ne f) =
      let ih = length-without-Fresh xs f in ground arith

  length-without : (xs : List ℕ) → Distinct xs → length xs ≤ suc (length (without n xs))
  unfolding without
  length-without [] d = omega arith
  length-without (x ∷ xs) (Distinct.also f d) = elim (Bool-cases (nat_eq x n)) [
    | inl e ↦
        rw e (
          omega (arith, length-without-Fresh xs (subst (λ y. Fresh y xs) ((nat_eq_iff x n).0 e) f)))
    | inr e ↦ rw e (omega (arith, length-without xs d))
  ]

pub length-Distinct : (n : ℕ) (xs : List ℕ) → Distinct xs → Below n xs → length xs ≤ n
length-Distinct n [] d b = omega arith
length-Distinct zero (x ∷ xs) d (Below.lower l b) = omega arith
length-Distinct (suc n) (x ∷ xs) d b =
    let h =
      length-Distinct n (without n (x ∷ xs)) (Distinct-without n (x ∷ xs) d)
        (Below-without n (x ∷ xs) b) in
    omega (arith, h, length-without n (x ∷ xs) d)
