-- ===== src/Generics/Rounds.antt =====
-- Induction over the rounds of the work-list of expand_generics (src/sema/generics.cpp).
use dux_lang.Prelude.{ℕ, zero, suc, List, [], ◌∷◌}
use dux_lang.Ast.Declarations.{Decls}
use dux_lang.Diagnostics.{Driver}
use dux_lang.Generics.FixTypes.{InstKey}
use dux_lang.Generics.Expand.{
  Found, Work, Expansion, expanded, aborted, null_node, out_of_fuel, work_step, work_list,
}

-- `P` of what is expanded, `Q` of the driver that has thrown.
abbrev pub Holds {ℓ} : {A : Type 0} → (A → Type ℓ) → (Driver → Type ℓ) → Expansion A → Type ℓ
Holds P Q (expanded a) = P a
Holds P Q (aborted d) = Q d
Holds P Q null_node = Unit
Holds P Q out_of_fuel = Unit

abbrev continued : ℕ → Found → Decls → Expansion Work → Expansion Work
continued fuel t decls o = elim o [
  | expanded w ↦ work_list fuel t decls w
  | aborted d ↦ aborted d
  | null_node ↦ null_node
  | out_of_fuel ↦ out_of_fuel
]

abbrev pub popped : Work → List InstKey → Work
popped w rest = record w { pending = rest }

module _ {ℓ} (t : Found) (decls : Decls) (P : Work → Type ℓ) (Q : Driver → Type ℓ)
    (step : (w : Work) (key : InstKey) (rest : List InstKey)
      → P w
      → Holds P Q (work_step t decls key (popped w rest))) where
  continue-Holds :
      (fuel : ℕ)
      → ((w : Work) → P w → Holds P Q (work_list fuel t decls w))
      → (o : Expansion Work) → Holds P Q o
      → Holds P Q (continued fuel t decls o)
  continue-Holds fuel ih (expanded w) h = ih w h
  continue-Holds fuel ih (aborted d) h = h
  continue-Holds fuel ih null_node h = tt
  continue-Holds fuel ih out_of_fuel h = tt

  round-Holds :
      (fuel : ℕ)
      → ((w : Work) → P w → Holds P Q (work_list fuel t decls w))
      → (w : Work) → P w
      → (p : List InstKey)
      → Holds P Q (elim p [
        | [] ↦ expanded w
        | key ∷ rest ↦ continued fuel t decls (work_step t decls key (popped w rest))
      ])
  round-Holds fuel ih w h [] = h
  round-Holds fuel ih w h (key ∷ rest) =
      continue-Holds fuel ih (work_step t decls key (popped w rest)) (step w key rest h)

  -- What every round keeps holds at the end.
  pub work_list-Holds : (fuel : ℕ) (w : Work) → P w → Holds P Q (work_list fuel t decls w)
  unfolding work_list
  work_list-Holds zero w h = tt
  work_list-Holds (suc fuel) w h = round-Holds fuel (work_list-Holds fuel) w h w.pending
