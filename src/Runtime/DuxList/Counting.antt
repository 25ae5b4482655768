-- ===== src/Runtime/DuxList/Counting.antt =====
-- The reference count of a list of src/runtime/list.c.
use Prim.Native.Nat.{◌^◌}
use dux_lang.Prelude.{
  ℕ, zero, suc, ◌+◌, ◌-◌, ◌<◌, ◌≡◌, refl, ap, ◌∙◌, false, Option, none, some, nat_eq, if◌then◌else◌,
  arith,
}
use dux_lang.Runtime.DuxList.{DuxList, list_retain, list_release, w32}

unfoldable pub retains : ℕ → Option DuxList → Option DuxList
retains zero p = p
retains (suc n) p = retains n (list_retain p)

unfoldable pub releases : ℕ → Option DuxList → Option DuxList
releases zero p = p
releases (suc n) p = releases n (list_release p)

w32-below : (n : ℕ) → n < 2 ^ 32 → w32 n ≡ n
w32-below n h = omega arith

abbrev counted : DuxList → ℕ → Option DuxList
counted l n = some (record l { refcount = n })

retain_counted :
    (l : DuxList) (r : ℕ) → r + 1 < 2 ^ 32 → list_retain (counted l r) ≡ counted l (r + 1)
unfolding list_retain
retain_counted l r h = ap (counted l) (w32-below (r + 1) h)

retains_counted :
    (n : ℕ) (l : DuxList) (r : ℕ) → r + n < 2 ^ 32 → retains n (counted l r) ≡ counted l (r + n)
unfolding retains
retains_counted zero l r h = ap (counted l) (omega arith)
retains_counted (suc n) l r h =
    ap (retains n) (retain_counted l r (omega arith))
    ∙ retains_counted n l (r + 1) (omega arith)
    ∙ ap (counted l) (omega arith)

release_counted :
    (l : DuxList) (r : ℕ) → suc r < 2 ^ 32 → 0 < r → list_release (counted l (suc r)) ≡ counted l r
unfolding list_release
release_counted l r h p =
    let low : w32 (suc r + 4294967295) ≡ r = omega arith in
    let more : nat_eq (suc r) 1 ≡ false = ground arith in
    ap (λ b. if b then none else counted l (w32 (suc r + 4294967295))) more ∙ ap (counted l) low

releases_counted :
    (k : ℕ) (l : DuxList) (r : ℕ)
    → r < 2 ^ 32
    → k < r
    → releases k (counted l r) ≡ counted l (r - k)
unfolding releases
releases_counted zero l r h p = ap (counted l) (omega arith)
releases_counted (suc k) l zero h p = let bad : ⊥ = omega arith in elim bad [ ]
releases_counted (suc k) l (suc r) h p =
    ap (releases k) (release_counted l r h (omega arith))
    ∙ releases_counted k l r (omega arith) (omega arith)
    ∙ ap (counted l) (omega arith)

releases_add : (k : ℕ) (p : Option DuxList) → releases (suc k) p ≡ list_release (releases k p)
unfolding releases
releases_add zero p = refl
releases_add (suc k) p = releases_add k (list_release p)

last_release : (l : DuxList) → list_release (counted l 1) ≡ none
unfolding list_release
last_release l = refl

-- A list with a count of at least 1 that is retained `n` times, below the range of its count, is
-- not freed by fewer releases than the count and `n` together, and is freed by that many.
pub releases-retains :
    (n k : ℕ) (l : DuxList)
    → 0 < l.refcount
    → l.refcount + n < 2 ^ 32
    → k < l.refcount + n
    → (releases k (retains n (some l)) ≡ some (record l { refcount = l.refcount + n - k }))
      × (releases (l.refcount + n) (retains n (some l)) ≡ none)
releases-retains n k l p h q =
    let r = l.refcount + n in
    let held = retains_counted n l l.refcount h in
    let left : r ≡ suc (r - 1) = omega arith in
    let one : r - (r - 1) ≡ 1 = omega arith in
    (
      ap (releases k) held ∙ releases_counted k l r h q,
      ap (releases r) held
          ∙ ap (λ m. releases m (counted l r)) left
          ∙ releases_add (r - 1) (counted l r)
          ∙ ap list_release (releases_counted (r - 1) l r h (omega arith) ∙ ap (counted l) one)
          ∙ last_release l,
    )
