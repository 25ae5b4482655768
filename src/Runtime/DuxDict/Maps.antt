-- ===== src/Runtime/DuxDict/Maps.antt =====
-- The tables of src/runtime/dict.c as maps from keys to values.
use dux_lang.Prelude.{
  ℕ, ◌<◌, ◌≡◌, ◌≢◌, sym, ap, subst, ◌∙◌, true, false, Option, none, some, List, nat_eq, nat_eq_iff,
  if◌then◌else◌, Bool-cases, inl, inr, absurd_bool, length, modify, get_or-modify_self,
  get_or-modify_ne,
}
use dux_lang.Runtime.DuxDict.{Key, Slot, empty, tombstone, live, slot_at, home, hash_str, key_eq}
use dux_lang.Runtime.DuxDict.Paths.{
  Reached, Leads-kept, key_eq-true, key_eq_refl, live_inj, not_empty,
}

-- A key changed in a map: to a value, or to none.
abbrev pub updated : Key → Option ℕ → (Key → Option ℕ) → Key → Option ℕ
updated key o f k = if key_eq key k then o else f k

pub updated_self : (key : Key) (o : Option ℕ) (f : Key → Option ℕ) → updated key o f key ≡ o
updated_self key o f = ap (λ b. if b then o else f key) (key_eq_refl key)

different : (key k : Key) → (key ≡ k → ⊥) → key_eq key k ≡ false
different key k o = elim (Bool-cases (key_eq key k)) [
  | inl e ↦ elim (o (key_eq-true key k e)) [ ]
  | inr e ↦ e
]

pub updated_other :
    (key k : Key) (o : Option ℕ) (f : Key → Option ℕ) → (key ≡ k → ⊥) → updated key o f k ≡ f k
updated_other key k o f d = ap (λ b. if b then o else f k) (different key k d)

-- The slots hold the map: each live one under its hash, where the search for its key comes to, and
-- no key twice.
pub record Mapping (f : Key → Option ℕ) (es : List Slot) (cap : ℕ) : Type 0 where
  pub hashed : (j : ℕ) (k : Key) (h v : ℕ) → slot_at es j ≡ live k h v → h ≡ hash_str k
  pub reached :
      (j : ℕ) (k : Key) (h v : ℕ)
      → slot_at es j ≡ live k h v
      → Reached es cap (home cap (hash_str k)) j
  pub value : (j : ℕ) (k : Key) (h v : ℕ) → slot_at es j ≡ live k h v → f k ≡ some v
  pub unique :
      (i j : ℕ) (k : Key) (g h v w : ℕ)
      → slot_at es i ≡ live k g v
      → slot_at es j ≡ live k h w
      → i ≡ j
  pub complete : (k : Key) (v : ℕ) → f k ≡ some v → (j : ℕ) × (h : ℕ) × (slot_at es j ≡ live k h v)

-- One slot changed, to `s`.
pub record Change (es fs : List Slot) (m : ℕ) (s : Slot) : Type 0 where
  pub there : slot_at fs m ≡ s
  pub others : (i : ℕ) → i ≢ m → slot_at fs i ≡ slot_at es i

pub modify-Change :
    (F : Slot → Slot) (m : ℕ) (es : List Slot)
    → m < length es
    → Change es (modify F m es) m (F (slot_at es m))
modify-Change F m es l = record {
  there = get_or-modify_self F m es empty l;
  others = λ i d. get_or-modify_ne F m i es empty (λ e. d (sym e));
}

at_or_not : {A : Type 0} (i m : ℕ) → (i ≡ m → A) → (i ≢ m → A) → A
at_or_not i m y n = elim (Bool-cases (nat_eq i m)) [
  | inl e ↦ y ((nat_eq_iff i m).0 e)
  | inr e ↦ n (λ x. absurd_bool ((nat_eq_iff i m).1 x) e)
]

module _ {es fs : List Slot} {m : ℕ} {s : Slot} (c : Change es fs m s) where
  change-filled : s ≢ empty → (x : ℕ) → slot_at es x ≢ empty → slot_at fs x ≢ empty
  change-filled o x p =
      at_or_not x m (λ e q. o (sym c.there ∙ ap (slot_at fs) (sym e) ∙ q))
        (λ d q. p (sym (c.others x d) ∙ q))

  change-Reached : (cap a i : ℕ) → s ≢ empty → Reached es cap a i → Reached fs cap a i
  change-Reached cap a i o (n, l, p) = (n, l, Leads-kept es fs cap n a i (change-filled o) p)

  -- A live slot afterwards is the one that changed, or was there.
  live_before :
      {A : Type 0} (j : ℕ) (k : Key) (h v : ℕ)
      → slot_at fs j ≡ live k h v
      → (j ≡ m → s ≡ live k h v → A)
      → (j ≢ m → slot_at es j ≡ live k h v → A)
      → A
  live_before j k h v e y n =
      at_or_not j m (λ x. y x (sym c.there ∙ ap (slot_at fs) (sym x) ∙ e))
        (λ d. n d (sym (c.others j d) ∙ e))

some_inj : {x y : ℕ} → some x ≡ some y → x ≡ y
some_inj e = cc

none_some : {A : Type 0} {v : ℕ} → none ≡ some v → A
none_some e = cc

-- A slot is written: the key had no other, and no other key had the slot.
module _ {f : Key → Option ℕ} {es fs : List Slot} {cap m val : ℕ} {key : Key}
    (mp : Mapping f es cap) (c : Change es fs m (live key (hash_str key) val))
    (way : Reached es cap (home cap (hash_str key)) m)
    (others : (i h v : ℕ) → i ≢ m → slot_at es i ≡ live key h v → ⊥)
    (own : (k : Key) (h v : ℕ) → slot_at es m ≡ live k h v → k ≡ key) where
  stored_hashed : (j : ℕ) (k : Key) (h v : ℕ) → slot_at fs j ≡ live k h v → h ≡ hash_str k
  stored_hashed j k h v e =
      live_before c j k h v e (λ x z. let (a, b, w) = live_inj z in sym b ∙ ap hash_str a)
        (λ d z. mp.hashed j k h v z)

  stored-Reached :
      (j : ℕ) (k : Key) (h v : ℕ)
      → slot_at fs j ≡ live k h v
      → Reached fs cap (home cap (hash_str k)) j
  stored-Reached j k h v e =
      live_before c j k h v e
        (λ x z.
          let (a, b, w) = live_inj z in
          subst (λ i. Reached fs cap (home cap (hash_str k)) i) (sym x)
            (subst (λ q. Reached fs cap (home cap (hash_str q)) m) a
              (change-Reached c cap _ m not_empty way)))
        (λ d z. change-Reached c cap _ j not_empty (mp.reached j k h v z))

  stored_value :
      (j : ℕ) (k : Key) (h v : ℕ) → slot_at fs j ≡ live k h v → updated key (some val) f k ≡ some v
  stored_value j k h v e =
      live_before c j k h v e
        (λ x z.
          let (a, b, w) = live_inj z in
          subst (λ q. updated key (some val) f q ≡ some v) a
            (updated_self key (some val) f ∙ ap some w))
        (λ d z.
          updated_other key k (some val) f (λ q. others j h v d (z ∙ ap (λ y. live y h v) (sym q)))
          ∙ mp.value j k h v z)

  stored_unique :
      (i j : ℕ) (k : Key) (g h v w : ℕ)
      → slot_at fs i ≡ live k g v
      → slot_at fs j ≡ live k h w
      → i ≡ j
  stored_unique i j k g h v w e e' =
      live_before c i k g v e
        (λ x z.
          live_before c j k h w e' (λ y z'. x ∙ sym y)
            (λ d z'. elim (others j h w d (z' ∙ ap (λ q. live q h w) (sym (live_inj z).0))) [ ]))
        (λ d z.
          live_before c j k h w e'
            (λ y z'. elim (others i g v d (z ∙ ap (λ q. live q g v) (sym (live_inj z').0))) [ ])
            (λ d' z'. mp.unique i j k g h v w z z'))

  stored_complete :
      (k : Key) (v : ℕ)
      → updated key (some val) f k ≡ some v
      → (j : ℕ) × (h : ℕ) × (slot_at fs j ≡ live k h v)
  stored_complete k v e = elim (Bool-cases (key_eq key k)) [
    | inl t ↦
        let w = some_inj (sym (ap (λ b. if b then some val else f k) t) ∙ e) in
        (
          m,
          hash_str key,
          c.there
              ∙ ap (λ q. live q (hash_str key) val) (key_eq-true key k t)
              ∙ ap (λ x. live k (hash_str key) x) w,
        )
    | inr t ↦
        let (j, h, at) = mp.complete k v (sym (ap (λ b. if b then some val else f k) t) ∙ e) in
        let apart : j ≢ m = λ x.
          absurd_bool
            (subst (λ q. key_eq key q ≡ true) (sym (own k h v (ap (slot_at es) (sym x) ∙ at)))
              (key_eq_refl key))
            t in
        (j, h, c.others j apart ∙ at)
  ]

  pub stored-Mapping : Mapping (updated key (some val) f) fs cap
  stored-Mapping = record {
    hashed = stored_hashed;
    reached = stored-Reached;
    value = stored_value;
    unique = stored_unique;
    complete = stored_complete;
  }

-- A live slot becomes a tombstone.
module _ {f : Key → Option ℕ} {es fs : List Slot} {cap m h v : ℕ} {key : Key}
    (mp : Mapping f es cap) (c : Change es fs m tombstone) (at : slot_at es m ≡ live key h v) where
  left_there :
      {A : Type 0} (j : ℕ) (k : Key) (g w : ℕ)
      → slot_at fs j ≡ live k g w
      → (j ≢ m → slot_at es j ≡ live k g w → A)
      → A
  left_there j k g w e n = live_before c j k g w e (λ x z. elim (dead_alive z) [ ]) n
    where
      dead_alive : {k : Key} {g w : ℕ} → tombstone ≡ live k g w → ⊥
      dead_alive z = cc

  pub removed-Mapping : Mapping (updated key none f) fs cap
  removed-Mapping = record {
    hashed = λ j k g w e. left_there j k g w e (λ d z. mp.hashed j k g w z);
    reached = λ j k g w e.
        left_there j k g w e (λ d z. change-Reached c cap _ j (λ q. cc) (mp.reached j k g w z));
    value = λ j k g w e. left_there j k g w e (λ d z.
        updated_other key k none f
          (λ q. d (mp.unique j m key g h w v (z ∙ ap (λ y. live y g w) (sym q)) at))
        ∙ mp.value j k g w z);
    unique = λ i j k g g' w w' e e'.
        left_there i k g w e
          (λ d z. left_there j k g' w' e' (λ d' z'. mp.unique i j k g g' w w' z z'));
    complete = λ k w e. elim (Bool-cases (key_eq key k)) [
      | inl t ↦ none_some (sym (ap (λ b. if b then none else f k) t) ∙ e)
      | inr t ↦
          let (j, g, z) = mp.complete k w (sym (ap (λ b. if b then none else f k) t) ∙ e) in
          let apart : j ≢ m = λ x.
            absurd_bool
              (subst (λ q. key_eq key q ≡ true) (live_inj (sym at ∙ ap (slot_at es) (sym x) ∙ z)).0
                (key_eq_refl key))
              t in
          (j, g, c.others j apart ∙ z)
    ];
  }
