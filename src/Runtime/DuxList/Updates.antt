-- ===== src/Runtime/DuxList/Updates.antt =====
-- duxrt_list_set of src/runtime/list.c.
use dux_lang.Prelude.{
  ℕ, ◌+◌, ◌-◌, ◌<◌, ◌≡◌, refl, sym, ap, subst, ◌∙◌, Bool, true, false, Option, none, some, List,
  ◌++◌, ltb, length, length-modify, modify, if◌then◌else◌, inl, inr,
}
use dux_lang.Ast.{LongLong, pos, negsuc}
use dux_lang.Runtime.DuxList.{
  DuxList, ElemKind, Access, ok, index_error, undefined, place, with_data, set_at, list_set,
  unboxed, write_cell,
}
use dux_lang.Runtime.DuxList.Refinement.{Represents, Gives, placed, with_data-Gives}
use dux_lang.Runtime.DuxList.Refinement.Cells.{nth, written, write-written, at-inside}

-- The sequence with another word at an index.
abbrev pub replaced : List ℕ → LongLong → ℕ → List ℕ
replaced xs (pos n) v = modify (λ x. v) n xs
replaced xs (negsuc n) v = modify (λ x. v) (length xs - (n + 1)) xs

then_some : (b : Bool) (x i : ℕ) → (if b then some x else none) ≡ some i → x ≡ i
then_some true x i e = cc
then_some false x i e = cc

replaced-place :
    (xs : List ℕ) (idx : LongLong) (v i : ℕ)
    → place idx (length xs) ≡ some i
    → replaced xs idx v ≡ modify (λ x. v) i xs
unfolding place
replaced-place xs (pos n) v i e =
    ap (λ j. modify (λ x. v) j xs) (then_some (ltb n (length xs)) n i e)
replaced-place xs (negsuc n) v i e =
    ap (λ j. modify (λ x. v) j xs) (then_some (ltb n (length xs)) (length xs - (n + 1)) i e)

-- A pointer to a list that holds the words.
abbrev pub Holding : ElemKind → List ℕ → Option DuxList → Type 0
Holding kind xs none = ⊥
Holding kind xs (some l) = Represents kind xs l

-- What a write at an index does to the sequence, by what stood there.
abbrev pub Updated : ElemKind → List ℕ → LongLong → ℕ → Option ℕ → Access (Option DuxList) → Type 0
Updated kind xs idx v none r = r ≡ index_error idx (length xs)
Updated kind xs idx v (some old) r = Gives (Holding kind (replaced xs idx (unboxed kind v))) r

written-Represents :
    (kind : ElemKind) (xs : List ℕ) (l : DuxList) (i v : ℕ)
    → Represents kind xs l
    → i < length xs
    → Gives (Represents kind (modify (λ x. v) i xs)) (with_data l (write_cell l.cells i v))
written-Represents kind xs l i v h r =
    with_data-Gives _ l _ (written (modify (λ x. v) i xs) ++ h.rest)
      (ap (λ cs. write_cell cs i v) h.cells_are ∙ write-written xs h.rest i v r)
      record {
        rest = h.rest;
        cells_are = refl;
        len_is = h.len_is ∙ sym (length-modify (λ x. v) i xs);
        cap_is = ap (λ n. n + length h.rest) (length-modify (λ x. v) i xs) ∙ h.cap_is;
        room = h.room;
        kind_is = h.kind_is;
      }

abbrev as_pointer : Access DuxList → Access (Option DuxList)
as_pointer (ok l) = ok (some l)
as_pointer (index_error i len) = index_error i len
as_pointer undefined = undefined

pointer-Gives :
    (kind : ElemKind) (xs : List ℕ) (o : Access DuxList)
    → Gives (Represents kind xs) o
    → Gives (Holding kind xs) (as_pointer o)
pointer-Gives kind xs (ok l) h = h
pointer-Gives kind xs (index_error i len) h = h
pointer-Gives kind xs undefined h = h

set_placed-Updated :
    (kind : ElemKind) (xs : List ℕ) (l : DuxList) (idx : LongLong) (v : ℕ)
    → Represents kind xs l
    → Updated kind xs idx v
        (nth xs idx)
        (as_pointer (set_at l idx (unboxed kind v) (place idx (length xs))))
set_placed-Updated kind xs l idx v h = elim (placed idx xs) [
  | inl (p, e) ↦
      subst
        (λ o.
          Updated kind xs idx v o
            (as_pointer (set_at l idx (unboxed kind v) (place idx (length xs)))))
        (sym e)
        (ap (λ o. as_pointer (set_at l idx (unboxed kind v) o)) p ∙ ap (index_error idx) h.len_is)
  | inr (i, r, p, e) ↦
      let (old, w) = at-inside xs i r in
      subst
        (λ o.
          Updated kind xs idx v o
            (as_pointer (set_at l idx (unboxed kind v) (place idx (length xs)))))
        (sym (e ∙ w))
        (subst
          (λ o.
            Gives (Holding kind (replaced xs idx (unboxed kind v)))
              (as_pointer (set_at l idx (unboxed kind v) o)))
          (sym p)
          (subst
            (λ ys. Gives (Holding kind ys) (as_pointer (set_at l idx (unboxed kind v) (some i))))
            (sym (replaced-place xs idx (unboxed kind v) i p))
            (pointer-Gives kind _ _ (written-Represents kind xs l i (unboxed kind v) h r))))
]

-- A write at an index changes the word there and nothing else, in a list of int32_t to the low 32
-- bits; at an index out of range it throws an IndexError with the index and the length.
pub list_set-Updated :
    (kind : ElemKind) (xs : List ℕ) (l : DuxList) (idx : LongLong) (v : ℕ)
    → Represents kind xs l
    → Updated kind xs idx v (nth xs idx) (list_set (some l) idx v)
unfolding list_set
list_set-Updated kind xs l idx v h =
    let e : set_at l idx (unboxed l.elem_kind v) (place idx l.len)
        ≡ set_at l idx (unboxed kind v) (place idx (length xs)) =
      ap (λ k. set_at l idx (unboxed k v) (place idx l.len)) h.kind_is
      ∙ ap (λ n. set_at l idx (unboxed kind v) (place idx n)) h.len_is in
    subst (λ o. Updated kind xs idx v (nth xs idx) (as_pointer o)) (sym e)
      (set_placed-Updated kind xs l idx v h)
