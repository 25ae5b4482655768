-- ===== src/Sema/LoopExits/Parts.antt =====
-- What the parts of a check add: the steps of src/sema/sema.cpp that do not recur, with what they
-- are given.
use dux_lang.Prelude.{
  ℕ, ◌+◌, String, Bool, true, false, ◌≡◌, refl, sym, subst, not, Option, none, some, arith, ◌⊎◌,
  inl, inr, leb, if◌then◌else◌,
}
use dux_lang.Types.{TypeId, tid_unknown}
use dux_lang.Symbol.{Symbol, lookup}
use dux_lang.Ast.{SourceLoc, Node, Expr, Exprs}
use dux_lang.Ast.Views.{expr_loc, as_ident}
use dux_lang.Diagnostics.{Message, driver_error, max_errors}
use dux_lang.Sema.{Sema, Outcome, done, aborted, hangs, M, pure, gets, ◌>>=◌, ◌>>◌, err, skip}
use dux_lang.Sema.Frame.{Keeps-pure, Keeps-gets, Keeps-err, Keeps-set_type_id, ◌⟫◌}
use dux_lang.Sema.FrameParts.{Keeps-enum_access, Keeps-member_type}
use dux_lang.Sema.FrameSteps.{
  early_or, Keeps-check_loop_exit, Keeps-check_callable, Keeps-assign_early, Keeps-assign_late,
}
use dux_lang.Sema.FrameCheck.{Keeps-check_expr}
use dux_lang.Sema.Members.{stdlib_return, enum_access, member_type}
use dux_lang.Sema.Steps.{
  typed, assign_early, assign_late, call_type, check_loop_exit, is_callable, count_exprs,
}
use dux_lang.Sema.Check.{check_expr, check_exprs, check_args}
use dux_lang.Sema.LoopExits.{stray_expr, stray_exprs, Adds, Added, quiet, weaken, ◌then_adds◌}

module _ (b : Bool) where
  -- What an identifier or a stdlib name stands for holds no statement.
  stray_of_ident : (e : Expr) {x : String} → as_ident e ≡ some x → stray_expr b e ≡ 0
  unfolding stray_expr
  stray_of_ident (Expr.ident n x) h = refl
  stray_of_ident _ h = cc

module _ {b : Bool} where
  pub Adds-typed : {m : M TypeId} {n : ℕ} (node : Node) → Adds b n m → Adds b n (typed node m)
  unfolding typed
  Adds-typed node h =
      weaken
        (h then_adds λ t. quiet (Keeps-set_type_id node.id t) then_adds λ _. quiet (Keeps-pure t))
        (omega arith)

  Adds-if :
      {A : Type 0} {m k : M A} {n : ℕ} (c : Bool)
      → Adds b n m
      → Adds b n k
      → Adds b n (if c then m else k)
  Adds-if true h g = h
  Adds-if false h g = g

  pub Adds-choice :
      {A : Type 0} {m k : M A} {n l : ℕ} (c : Bool)
      → Adds b n m
      → Adds b l k
      → Adds b (if c then n else l) (if c then m else k)
  Adds-choice true h g = h
  Adds-choice false h g = g

  -- Behind a value that may end the check early, where the first action gives none.
  Adds-late :
      {m : M (Option TypeId)} {k : M TypeId} {n : ℕ}
      → ((s : Sema) → m s ≡ done none s)
      → Adds b n k
      → Adds b n (m >>= λ o. elim o [ some t ↦ pure t | none ↦ k ])
  unfolding ◌>>=◌
  Adds-late {k} {n} h a = record {
    at = λ s e.
        subst
          (λ (o : Outcome (Option TypeId)). Added b n s (elim o [
            | done a t ↦ (elim a as (λ _. M TypeId) [ some u ↦ pure u | none ↦ k ]) t
            | aborted t ↦ aborted t
            | hangs ↦ hangs
          ]))
          (sym (h s)) (a.at s e);
  }

module _ (b : Bool) (loc : SourceLoc) (msg : Message) where
  err_outcome :
      (s : Sema) (over : Bool)
      → s.in_loop ≡ b
      → leb max_errors (s.driver.error_count + 1) ≡ over
      → Added b 1 s (err loc msg s)
  unfolding err driver_error
  err_outcome s true e h = rw h tt
  err_outcome s false e h = rw h (omega arith, e)

  pub Adds-err : Adds b 1 (err loc msg)
  Adds-err = record { at = λ s e. err_outcome s _ e refl }

pub Adds-loop_exit :
    (b : Bool) (loc : SourceLoc) (msg : Message)
    → Adds b (if b then 0 else 1) (check_loop_exit loc msg)
unfolding check_loop_exit ◌>>=◌ gets
Adds-loop_exit true loc msg = quiet (Keeps-check_loop_exit loc msg)
Adds-loop_exit false loc msg = record {
  at = λ s e.
      subst (λ (c : Bool). Added false 1 s ((if not c then err loc msg else skip) s)) (sym e)
        ((Adds-err false loc msg).at s e);
}

assign_early-none :
    (op : String) (e : Expr) (t : TypeId)
    → as_ident e ≡ none
    → (s : Sema) → assign_early op e t s ≡ done none s
unfolding assign_early pure
assign_early-none op e t h s = ground arith

enum_access-none :
    (n : Node) (e : Expr) (m : String)
    → as_ident e ≡ none
    → (s : Sema) → enum_access n e m s ≡ done none s
unfolding enum_access pure ◌>>=◌ gets
enum_access-none n e m h s = ground arith

stdlib_return-stray :
    (b : Bool) (e : Expr) {t : TypeId} → stdlib_return e ≡ some t → stray_expr b e ≡ 0
unfolding stdlib_return stray_expr
stdlib_return-stray b (Expr.member n (Expr.ident k x) m) h = refl
stdlib_return-stray b (Expr.member n _ m) h = cc
stdlib_return-stray b _ h = cc

module _ {b : Bool} {k : ℕ} {all : M (Unit {0})} where
  Adds-closure :
      Adds b k all
      → (o : Option TypeId)
      → Adds b 0 (elim o [ none ↦ pure tid_unknown | some ret ↦ all >> pure ret ])
  Adds-closure h none = quiet (Keeps-pure tid_unknown)
  Adds-closure h (some ret) = weaken (h then_adds λ _. quiet (Keeps-pure ret)) (omega arith)

-- check_call: the checks of the arguments add at least `k`, on every branch.
module _ {b : Bool} {k : ℕ} {all : M (Unit {0})} {against : Symbol → M (Unit {0})} where
  Adds-call_type :
      (x : String) (callee : Expr) (given : ℕ)
      → Adds b k all
      → ((sym : Symbol) → Adds b k (against sym))
      → (o : Option Symbol) → Adds b k (call_type x callee given all against o)
  unfolding call_type
  Adds-call_type x callee given h g none =
      weaken (quiet (Keeps-err _ _) then_adds λ _. h then_adds λ _. quiet (Keeps-pure tid_unknown))
        (omega arith)
  Adds-call_type x callee given h g (some s) =
      weaken
        (quiet (Keeps-set_type_id _ _) then_adds λ _.
          Adds-if {n = k} (is_callable s)
            (weaken
              (quiet (Keeps-check_callable s given _) then_adds λ _.
                g s then_adds λ _. quiet (Keeps-pure s.return_type))
              (omega arith))
            (Adds-if {n = k} _ (weaken (h then_adds λ _. quiet (Keeps-pure s.type)) (omega arith)) (
              weaken (h then_adds λ _. quiet (Keeps-gets _) then_adds Adds-closure h)
                (omega arith))))
        (omega arith)

module _ {b : Bool} {k n : ℕ} where
  -- A call whose callee is no identifier.
  Adds-other_call :
      {callee : M TypeId} {args : M (Unit {0})} (o : Option TypeId)
      → Adds b n callee
      → Adds b k args
      → ((t : TypeId) → o ≡ some t → n ≡ 0)
      → Adds b
          (n + k)
          (elim o [ some ret ↦ args >> pure ret | none ↦ callee >> (args >> pure tid_unknown) ])
  Adds-other_call none h g z =
      weaken (h then_adds λ _. g then_adds λ _. quiet (Keeps-pure tid_unknown)) (omega arith)
  Adds-other_call (some ret) h g z =
      weaken (g then_adds λ _. quiet (Keeps-pure ret)) (omega (arith, z ret refl))

-- The target of an assignment and the object of a member: checked unless they are an identifier,
-- which holds no statement.
pub early_target :
    (b : Bool) (op : String) (e : Expr) (r : TypeId) (loc : SourceLoc)
    → Adds b (stray_expr b e) (check_expr e)
    → (as_ident e ≡ none) ⊎ ((x : String) × (as_ident e ≡ some x))
    → Adds b (stray_expr b e) (
        assign_early op e r >>= λ o. elim o [
          | some t ↦ pure t
          | none ↦ check_expr e >>= λ l. assign_late op l r (expr_loc e) loc
        ])
early_target b op e r loc h (inl none_of) =
    Adds-late (assign_early-none op e r none_of)
      (weaken (h then_adds λ l. quiet (Keeps-assign_late op l r (expr_loc e) loc)) (omega arith))
early_target b op e r loc h (inr (x, some_of)) =
    weaken
      (quiet (
        early_or (Keeps-assign_early op e r)
          (Keeps-check_expr e ⟫ λ l. Keeps-assign_late op l r (expr_loc e) loc)))
      (omega (arith, stray_of_ident b e some_of))

pub early_object :
    (b : Bool) (n : Node) (e : Expr) (m : String)
    → Adds b (stray_expr b e) (check_expr e)
    → (as_ident e ≡ none) ⊎ ((x : String) × (as_ident e ≡ some x))
    → Adds b (stray_expr b e) (
        enum_access n e m >>= λ o. elim o [
          | some t ↦ pure t
          | none ↦ check_expr e >>= λ t. member_type n e m t
        ])
early_object b n e m h (inl none_of) =
    Adds-late (enum_access-none n e m none_of)
      (weaken (h then_adds λ t. quiet (Keeps-member_type n e m t)) (omega arith))
early_object b n e m h (inr (x, some_of)) =
    weaken
      (quiet
        (early_or (Keeps-enum_access n e m) (Keeps-check_expr e ⟫ λ t. Keeps-member_type n e m t)))
      (omega (arith, stray_of_ident b e some_of))

pub call-Adds :
    (b : Bool) (f : Expr) (args : Exprs)
    → Adds b (stray_expr b f) (check_expr f)
    → Adds b (stray_exprs b args) (check_exprs args)
    → ((s : Symbol) → Adds b (stray_exprs b args) (check_args 1 s.name s.params args))
    → (as_ident f ≡ none) ⊎ ((x : String) × (as_ident f ≡ some x))
    → Adds b (stray_expr b f + stray_exprs b args) (elim (as_ident f) [
      | some x ↦
          gets (λ s. lookup x s.scopes)
          >>= call_type x f
              (count_exprs args)
              (check_exprs args)
              (λ s. check_args 1 s.name s.params args)
      | none ↦ elim (stdlib_return f) [
        | some ret ↦ check_exprs args >> pure ret
        | none ↦ check_expr f >> (check_exprs args >> pure tid_unknown)
      ]
    ])
call-Adds b f args h g a (inl e) =
    rw e (Adds-other_call (stdlib_return f) h g (λ t z. stdlib_return-stray b f z))
call-Adds b f args h g a (inr (x, e)) = rw e (
    weaken (quiet (Keeps-gets _) then_adds Adds-call_type x f (count_exprs args) g a)
      (omega (arith, stray_of_ident b f e)))
