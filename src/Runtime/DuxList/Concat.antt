-- ===== src/Runtime/DuxList/Concat.antt =====
-- duxrt_list_concat of src/runtime/list.c.
use dux_lang.Prelude.{
  ℕ, ◌+◌, ◌≡◌, refl, sym, ap, subst, ◌∙◌, Option, none, some, List, [], ◌∷◌, ◌++◌, length,
  length-append, arith,
}
use dux_lang.Ast.{pos}
use dux_lang.Runtime.DuxList.{
  DuxList, ElemKind, elem_ptr, Access, ok, index_error, undefined, list_get, list_push, list_new,
  push_from, push_list, list_concat,
}
use dux_lang.Runtime.DuxList.Refinement.{
  Represents, Gives, found, list_get-nth, list_push-Represents, new-Represents,
}
use dux_lang.Runtime.DuxList.Refinement.Cells.{at, append_assoc}

append_nil : (xs : List ℕ) → xs ++ [] ≡ xs
append_nil [] = refl
append_nil (x ∷ xs) = ap (λ l. x ∷ l) (append_nil xs)

at-middle : (pre : List ℕ) (y : ℕ) (suf : List ℕ) → at (pre ++ y ∷ suf) (length pre) ≡ some y
at-middle [] y suf = refl
at-middle (x ∷ pre) y suf = at-middle pre y suf

abbrev after_push : ℕ → ℕ → DuxList → Access DuxList → Access DuxList
after_push n i a (ok out) = push_from n (i + 1) a out
after_push n i a (index_error idx len) = index_error idx len
after_push n i a undefined = undefined

after_push-Gives :
    (xs ys : List ℕ) (n i : ℕ) (a : DuxList) (o : Access DuxList)
    → ((out : DuxList)
        → Represents elem_ptr xs out
        → Gives (Represents elem_ptr ys) (push_from n (i + 1) a out))
    → Gives (Represents elem_ptr xs) o
    → Gives (Represents elem_ptr ys) (after_push n i a o)
after_push-Gives xs ys n i a (ok out) ih h = ih out h
after_push-Gives xs ys n i a (index_error idx len) ih h = h
after_push-Gives xs ys n i a undefined ih h = h

push_from-Represents :
    (kind : ElemKind) (suf pre xs : List ℕ) (a out : DuxList)
    → Represents kind (pre ++ suf) a
    → Represents elem_ptr xs out
    → Gives (Represents elem_ptr (xs ++ suf)) (push_from (length suf) (length pre) a out)
unfolding push_from
push_from-Represents kind [] pre xs a out h g =
    subst (λ ys. Represents elem_ptr ys out) (sym (append_nil xs)) g
push_from-Represents kind (y ∷ suf) pre xs a out h g =
    let ih = push_from-Represents kind suf (pre ++ y ∷ []) (xs ++ y ∷ []) a in
    let read : list_get (some a) (pos (length pre)) ≡ ok y =
      list_get-nth kind _ a (pos (length pre)) h
      ∙ ap (found (pos (length pre)) _) (at-middle pre y suf) in
    let next : length (pre ++ y ∷ []) ≡ length pre + 1 =
      omega (arith, length-append pre (y ∷ [])) in
    subst
      (λ o. Gives (Represents elem_ptr (xs ++ y ∷ suf)) (elim o [
        | ok v ↦ after_push (length suf) (length pre) a (list_push (some out) v)
        | index_error idx len ↦ index_error idx len
        | undefined ↦ undefined
      ]))
      (sym read)
      (after_push-Gives (xs ++ y ∷ []) (xs ++ y ∷ suf) (length suf) (length pre) a _
        (λ out' g'.
          subst (λ i. Gives (Represents elem_ptr (xs ++ y ∷ suf)) (push_from (length suf) i a out'))
            next
            (subst
              (λ ys.
                Gives (Represents elem_ptr ys)
                  (push_from (length suf) (length (pre ++ y ∷ [])) a out'))
              (append_assoc xs (y ∷ []) suf)
              (ih out' (subst (λ ys. Represents kind ys a) (sym (append_assoc pre (y ∷ []) suf)) h)
                g')))
        (list_push-Represents xs out y g))

-- The words behind a pointer: none behind a null pointer.
abbrev pub Sequence : List ℕ → Option DuxList → Type 0
Sequence xs none = xs ≡ []
Sequence xs (some l) = (kind : ElemKind) × Represents kind xs l

push_list-Represents :
    (xs ys : List ℕ) (a : Option DuxList) (out : DuxList)
    → Sequence ys a
    → Represents elem_ptr xs out
    → Gives (Represents elem_ptr (xs ++ ys)) (push_list a out)
push_list-Represents xs ys none out h g =
    subst (λ zs. Represents elem_ptr zs out) (sym (ap (λ l. xs ++ l) h ∙ append_nil xs)) g
push_list-Represents xs ys (some a) out (kind, h) g =
    subst (λ n. Gives (Represents elem_ptr (xs ++ ys)) (push_from n 0 a out)) (sym h.len_is)
      (push_from-Represents kind ys [] xs a out h g)

second-Gives :
    (xs ys : List ℕ) (b : Option DuxList) (o : Access DuxList)
    → Sequence ys b
    → Gives (Represents elem_ptr xs) o
    → Gives (Represents elem_ptr (xs ++ ys)) (elim o [
      | ok out ↦ push_list b out
      | index_error idx len ↦ index_error idx len
      | undefined ↦ undefined
    ])
second-Gives xs ys b (ok out) h g = push_list-Represents xs ys b out h g
second-Gives xs ys b (index_error idx len) h g = g
second-Gives xs ys b undefined h g = g

-- The concatenation of two lists of either kind, a null pointer being an empty one, always succeeds
-- and is a list of pointers with the words of the first and then those of the second.
pub list_concat-Represents :
    (xs ys : List ℕ) (a b : Option DuxList)
    → Sequence xs a
    → Sequence ys b
    → Gives (Represents elem_ptr (xs ++ ys)) (list_concat a b)
unfolding list_concat
list_concat-Represents xs ys a b h g =
    second-Gives xs ys b _ g (push_list-Represents [] xs a list_new h (new-Represents elem_ptr))
