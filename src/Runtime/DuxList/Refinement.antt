-- ===== src/Runtime/DuxList/Refinement.antt =====
-- The lists of src/runtime/list.c against sequences of words.
pub mod Cells
use Prim.Native.Nat.{◌*◌}
use dux_lang.Prelude.{
  ℕ, zero, suc, ◌+◌, ◌-◌, ◌≤◌, ◌<◌, ◌≡◌, ◌≢◌, refl, sym, ap, subst, ◌∙◌, Bool, true, false, Option,
  none, some, List, [], ◌∷◌, ◌++◌, ltb, nat_eq, length, length-append, length-modify, Bool-cases,
  ltb→lt, ◌⊎◌, inl, inr, modify, if◌then◌else◌, arith,
}
use dux_lang.Ast.{LongLong, pos, negsuc}
use dux_lang.Runtime.DuxList.{
  DuxList, ElemKind, elem_ptr, elem_i32, Access, ok, index_error, undefined, list_init_cap,
  fresh_cells, read_cell, write_cell, list_of_kind, grow_if_full, with_data, append, list_push,
  list_push_i32, w32, place, get_at, set_at, list_get, list_set, unboxed,
}
use dux_lang.Runtime.DuxList.Refinement.Cells.{
  at, written, reversed, nth, read-written, write-written, write-append, length-fresh_cells,
  length-reversed, at-reversed, at-beyond, at-inside, at-modify, append_assoc,
}

-- The list holds the words `xs`: they are the first cells of its block, which has `cap` cells.
pub record Represents (kind : ElemKind) (xs : List ℕ) (l : DuxList) : Type 0 where
  pub rest : List (Option ℕ)
  pub cells_are : l.cells ≡ written xs ++ rest
  pub len_is : l.len ≡ length xs
  pub cap_is : length xs + length rest ≡ l.cap
  pub room : 0 < l.cap
  pub kind_is : l.elem_kind ≡ kind

-- The access ends with a result of which `P` holds.
abbrev pub Gives : {A : Type 0} → (A → Type 0) → Access A → Type 0
Gives P (ok a) = P a
Gives P (index_error idx len) = ⊥
Gives P undefined = ⊥

pub new-Represents : (kind : ElemKind) → Represents kind [] (list_of_kind kind)
new-Represents kind = record {
  rest = fresh_cells list_init_cap;
  cells_are = refl;
  len_is = refl;
  cap_is = refl;
  room = omega arith;
  kind_is = refl;
}

grow_true :
    (kind : ElemKind) (xs : List ℕ) (l : DuxList)
    → Represents kind xs l
    → Represents kind xs (record l { cap = l.cap * 2; cells = l.cells ++ fresh_cells l.cap })
grow_true kind xs l h = record {
  rest = h.rest ++ fresh_cells l.cap;
  cells_are =
      ap (λ cs. cs ++ fresh_cells l.cap) h.cells_are
      ∙ append_assoc (written xs) h.rest (fresh_cells l.cap);
  len_is = h.len_is;
  cap_is =
      omega (arith, h.cap_is, length-append h.rest (fresh_cells l.cap), length-fresh_cells l.cap);
  room = omega (arith, h.room);
  kind_is = h.kind_is;
}

-- After growing there is room for one more.
grown-Represents :
    (kind : ElemKind) (xs : List ℕ) (l : DuxList) (b : Bool)
    → b ≡ nat_eq l.len l.cap
    → Represents kind xs l
    → let l' =
        (if b then record l { cap = l.cap * 2; cells = l.cells ++ fresh_cells l.cap } else l) in
      Represents kind xs l' × (length xs < l'.cap)
grown-Represents kind xs l true e h = (grow_true kind xs l h, omega (arith, h.room, h.cap_is))
grown-Represents kind xs l false e h =
    let other : l.len ≢ l.cap = ground arith in (h, omega (arith, h.cap_is, h.len_is))

pub with_data-Gives :
    (P : DuxList → Type 0) (l : DuxList) (o : Access (List (Option ℕ))) (cs : List (Option ℕ))
    → o ≡ ok cs
    → P (record l { cells = cs })
    → Gives P (with_data l o)
with_data-Gives P l o cs e h = subst (λ x. Gives P (with_data l x)) (sym e) h

append_room :
    (kind : ElemKind) (xs : List ℕ) (l : DuxList) (v : ℕ) (rest : List (Option ℕ))
    → l.cells ≡ written xs ++ rest
    → l.len ≡ length xs
    → length xs + length rest ≡ l.cap
    → length xs < l.cap
    → l.elem_kind ≡ kind
    → Gives (Represents kind (xs ++ v ∷ [])) (append l v)
append_room kind xs l v [] c n k r q = let bad : ⊥ = omega arith in elim bad [ ]
append_room kind xs l v (cell ∷ rest) c n k r q =
    with_data-Gives _ (record l { len = l.len + 1 }) _ (written (xs ++ v ∷ []) ++ rest)
      (ap (λ cs. write_cell cs l.len v) c
        ∙ ap (λ i. write_cell (written xs ++ cell ∷ rest) i v) n
        ∙ write-append xs cell rest v)
      record {
        rest = rest;
        cells_are = refl;
        len_is = omega (arith, length-append xs (v ∷ []));
        cap_is = omega (arith, length-append xs (v ∷ []));
        room = omega arith;
        kind_is = q;
      }

append-Represents :
    (kind : ElemKind) (xs : List ℕ) (l : DuxList) (v : ℕ)
    → Represents kind xs l
    → length xs < l.cap
    → Gives (Represents kind (xs ++ v ∷ [])) (append l v)
append-Represents kind xs l v h r =
    append_room kind xs l v h.rest h.cells_are h.len_is h.cap_is r h.kind_is

pushed-Represents :
    (kind : ElemKind) (xs : List ℕ) (l : DuxList) (v : ℕ)
    → Represents kind xs l
    → Gives (Represents kind (xs ++ v ∷ [])) (append (grow_if_full l) v)
unfolding grow_if_full
pushed-Represents kind xs l v h =
    let (h', r) = grown-Represents kind xs l _ refl h in append-Represents kind xs _ v h' r

-- A list of pointers takes any word at its end, whether its block is full or not.
pub list_push-Represents :
    (xs : List ℕ) (l : DuxList) (v : ℕ)
    → Represents elem_ptr xs l
    → Gives (Represents elem_ptr (xs ++ v ∷ [])) (list_push (some l) v)
unfolding list_push
list_push-Represents xs l v h =
    subst
      (λ k.
        Gives (Represents elem_ptr (xs ++ v ∷ []))
          (elim k [ elem_ptr ↦ append (grow_if_full l) v | elem_i32 ↦ undefined ]))
      (sym h.kind_is) (pushed-Represents elem_ptr xs l v h)

-- A list of int32_t takes the low 32 bits.
pub list_push_i32-Represents :
    (xs : List ℕ) (l : DuxList) (v : ℕ)
    → Represents elem_i32 xs l
    → Gives (Represents elem_i32 (xs ++ w32 v ∷ [])) (list_push_i32 (some l) v)
unfolding list_push_i32
list_push_i32-Represents xs l v h =
    subst
      (λ k.
        Gives (Represents elem_i32 (xs ++ w32 v ∷ []))
          (elim k [ elem_ptr ↦ undefined | elem_i32 ↦ append (grow_if_full l) (w32 v) ]))
      (sym h.kind_is) (pushed-Represents elem_i32 xs l (w32 v) h)

-- What reading at an index gives.
abbrev pub found : LongLong → ℕ → Option ℕ → Access ℕ
found idx n none = index_error idx n
found idx n (some v) = ok v

-- The place in the block is in bounds and is the one that the index means.
pub placed :
    (idx : LongLong) (xs : List ℕ)
    → ((place idx (length xs) ≡ none) × (nth xs idx ≡ none))
      ⊎ ((i : ℕ) × (i < length xs) × (place idx (length xs) ≡ some i) × (nth xs idx ≡ at xs i))
unfolding place
placed (pos n) xs = elim (Bool-cases (ltb n (length xs))) [
  | inl e ↦ inr (n, ltb→lt n (length xs) e, ap (λ b. if b then some n else none) e, refl)
  | inr e ↦ inl (ap (λ b. if b then some n else none) e, at-beyond xs n (ground arith))
]
placed (negsuc n) xs = elim (Bool-cases (ltb n (length xs))) [
  | inl e ↦
      let l = ltb→lt n (length xs) e in
      inr (
        length xs - (n + 1),
        omega arith,
        ap (λ b. if b then some (length xs - (n + 1)) else none) e,
        at-reversed xs n l,
      )
  | inr e ↦
      let out : length xs ≤ n = ground arith in
      inl (
        ap (λ b. if b then some (length xs - (n + 1)) else none) e,
        at-beyond (reversed xs) n (omega (arith, length-reversed xs)),
      )
]

get_placed :
    (kind : ElemKind) (xs : List ℕ) (l : DuxList) (idx : LongLong)
    → Represents kind xs l
    → get_at l idx (place idx (length xs)) ≡ found idx (length xs) (nth xs idx)
get_placed kind xs l idx h = elim (placed idx xs) [
  | inl (p, e) ↦
      ap (get_at l idx) p ∙ ap (index_error idx) h.len_is ∙ ap (found idx (length xs)) (sym e)
  | inr (i, r, p, e) ↦
      let (v, w) = at-inside xs i r in
      ap (get_at l idx) p
      ∙ ap (λ cs. read_cell cs i) h.cells_are
      ∙ read-written xs h.rest i v w
      ∙ ap (found idx (length xs)) (sym (e ∙ w))
]

-- A list of either kind gives the word at an index, counted from the end if it is negative, and
-- throws an IndexError with the index and the length if there is none; it reads no other cell.
pub list_get-nth :
    (kind : ElemKind) (xs : List ℕ) (l : DuxList) (idx : LongLong)
    → Represents kind xs l
    → list_get (some l) idx ≡ found idx (length xs) (nth xs idx)
unfolding list_get
list_get-nth kind xs l idx h =
    ap (λ n. get_at l idx (place idx n)) h.len_is ∙ get_placed kind xs l idx h
