-- ===== src/Sema/Enums.antt =====
-- The tags of an enum's variants (hoist_enum of src/sema/sema.cpp).
use dux_lang.Prelude.{ℕ, zero, suc, ◌+◌, ◌<◌, ◌≡◌, refl, List, [], ◌∷◌, arith, length, get_or, map}
use dux_lang.Types.{TypeRegistry, EnumVariantInfo, from_name}
use dux_lang.Ast.Declarations.{EnumVariant}
use dux_lang.Ast.Views.{te_name, te_list}
use dux_lang.Sema.Hoist.{variant_infos}

-- Hoisting gives the variants of an enum, in their order, the tags that follow each other from
-- the first, and keeps the name and the types of the payload of each.
pub variant_infos-tag :
    (r : TypeRegistry) (tag : ℕ) (vs : List EnumVariant) (n : ℕ) (v : EnumVariant)
    (i : EnumVariantInfo)
    → n < length vs
    → ((get_or (variant_infos r tag vs) n i).tag ≡ tag + n)
      × ((get_or (variant_infos r tag vs) n i).name ≡ (get_or vs n v).name)
      × ((get_or (variant_infos r tag vs) n i).payload
          ≡ map (λ t. from_name r (te_name t)) (te_list (get_or vs n v).payload))
unfolding variant_infos
variant_infos-tag r tag [] n v i h = elim h [ ]
variant_infos-tag r tag (x ∷ vs) zero v i h = (omega arith, refl, refl)
variant_infos-tag r tag (x ∷ vs) (suc n) v i h =
    let (t, name, payload) = variant_infos-tag r (tag + 1) vs n v i (omega (arith, h)) in
    (omega (arith, t), name, payload)
