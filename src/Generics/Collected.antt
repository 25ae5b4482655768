-- ===== src/Generics/Collected.antt =====
-- Which programs have templates for expand_generics of src/sema/generics.cpp to collect.
use dux_lang.Prelude.{
  absurd_bool, String, ◌==◌, Bool, true, false, ◌&&◌, ◌||◌, not, ◌≡◌, refl, ◌∙◌, [], ◌∷◌,
  if◌then◌else◌,
}
use dux_lang.Prelude.Tables.{Table, assign}
use dux_lang.Ast.Declarations.{ClassDecl, FunctionDecl, Decl, Decls}
use dux_lang.Generics.Fix.{is_generic_class, is_generic_func}
use dux_lang.Generics.Stripped.{NoTemplates, StrippedNamespace, StrippedNamespaces}
use dux_lang.Generics.Expand.{Found, collect, collect_templates, is_template, no_templates}

-- A template stands among the declarations or in a namespace there, at any depth.
unfoldable mutual
  pub has_template : Decl → Bool
  has_template (Decl.namespace_decl n name ds ss is_package_decl) = have_template ds
  has_template d = is_template d

  pub have_template : Decls → Bool
  have_template Decls.nil = false
  have_template (Decls.cons d ds) = has_template d || have_template ds

pub not-true : (b : Bool) → true ≡ not b → b ≡ false
not-true true e = e
not-true false e = refl

pub not-false : (b : Bool) → false ≡ not b → b ≡ true
not-false true e = refl
not-false false e = e

pub and_true : (b : Bool) → (b && true) ≡ b
and_true true = refl
and_true false = refl

-- Nothing is collected just if nothing is there to collect.
class_kept :
    (b : Bool) (t : Found) (x y : String × ClassDecl) (xs ys : Table ClassDecl)
    → no_templates (record t { classes = if b then x ∷ xs else y ∷ ys }) ≡ false
class_kept true t x y xs ys = refl
class_kept false t x y xs ys = refl

class_filled :
    (k : String) (c : ClassDecl) (m : Table ClassDecl) (t : Found)
    → no_templates (record t { classes = assign k c m }) ≡ false
unfolding assign
class_filled k c [] t = refl
class_filled k c ((j, w) ∷ m) t = class_kept (j == k) t _ _ _ _

func_kept :
    (b : Bool) (cs : Table ClassDecl) (x y : String × FunctionDecl) (xs ys : Table FunctionDecl)
    → no_templates (record { classes = cs; funcs = if b then x ∷ xs else y ∷ ys }) ≡ false
func_kept true [] x y xs ys = refl
func_kept false [] x y xs ys = refl
func_kept b (c ∷ cs) x y xs ys = refl

func_filled :
    (k : String) (f : FunctionDecl) (m : Table FunctionDecl) (cs : Table ClassDecl)
    → no_templates (record { classes = cs; funcs = assign k f m }) ≡ false
unfolding assign
func_filled k f [] [] = refl
func_filled k f [] (c ∷ cs) = refl
func_filled k f ((j, w) ∷ m) cs = func_kept (j == k) cs _ _ _ _

either_empty :
    (g : Bool) (x t : Found)
    → no_templates x ≡ false
    → no_templates (if g then x else t) ≡ (not g && no_templates t)
either_empty true x t e = e
either_empty false x t e = refl

or_empty : (a b x y z : Bool) → x ≡ (not b && y) → y ≡ (not a && z) → x ≡ (not (a || b) && z)
or_empty true true x y z e h = e
or_empty true false x y z e h = e ∙ h
or_empty false true x y z e h = e
or_empty false false x y z e h = e ∙ h

mutual
  unfolding collect collect_templates has_template

  collect_empty :
      (d : Decl) (t : Found) → no_templates (collect d t) ≡ (not (has_template d) && no_templates t)
  collect_empty (Decl.class_decl c) t =
      either_empty (is_generic_class c) _ t (class_filled c.name c t.classes t)
  collect_empty (Decl.func f) t =
      either_empty (is_generic_func f) _ t (func_filled f.name f t.funcs t.classes)
  collect_empty (Decl.namespace_decl n name ds ss b) t = collect_all_empty ds t
  collect_empty (Decl.interface_decl i) t = refl
  collect_empty (Decl.import_decl i) t = refl
  collect_empty (Decl.extern_decl e) t = refl
  collect_empty (Decl.enum_decl e) t = refl
  collect_empty (Decl.field_decl f) t = refl

  pub collect_all_empty :
      (ds : Decls) (t : Found)
      → no_templates (collect_templates ds t) ≡ (not (have_template ds) && no_templates t)
  collect_all_empty Decls.nil t = refl
  collect_all_empty (Decls.cons d ds) t =
      or_empty (has_template d) (have_template ds) _ _ _ (collect_all_empty ds (collect d t))
        (collect_empty d t)

and_true_left : (a b : Bool) → (a || b) ≡ false → (a ≡ false) × (b ≡ false)
and_true_left true b e = elim (absurd_bool refl e) [ ]
and_true_left false b e = (refl, e)

no_template_here : (d : Decl) → has_template d ≡ false → is_template d ≡ false
unfolding has_template
no_template_here (Decl.namespace_decl n name ds ss b) h = refl
no_template_here (Decl.class_decl c) h = h
no_template_here (Decl.func f) h = h
no_template_here (Decl.interface_decl i) h = h
no_template_here (Decl.import_decl i) h = h
no_template_here (Decl.extern_decl e) h = h
no_template_here (Decl.enum_decl e) h = h
no_template_here (Decl.field_decl f) h = h

pub none-NoTemplates : (ds : Decls) → have_template ds ≡ false → NoTemplates ds
unfolding have_template
none-NoTemplates Decls.nil h = tt
none-NoTemplates (Decls.cons d ds) h =
    let (a, b) = and_true_left (has_template d) (have_template ds) h in
    (no_template_here d a, none-NoTemplates ds b)

inner_none : (d : Decl) → has_template d ≡ false → StrippedNamespace d
unfolding has_template
inner_none (Decl.namespace_decl n name ds ss b) h = none-NoTemplates ds h
inner_none (Decl.class_decl c) h = tt
inner_none (Decl.func f) h = tt
inner_none (Decl.interface_decl i) h = tt
inner_none (Decl.import_decl i) h = tt
inner_none (Decl.extern_decl e) h = tt
inner_none (Decl.enum_decl e) h = tt
inner_none (Decl.field_decl f) h = tt

pub none-StrippedNamespaces : (ds : Decls) → have_template ds ≡ false → StrippedNamespaces ds
unfolding have_template
none-StrippedNamespaces Decls.nil h = tt
none-StrippedNamespaces (Decls.cons d ds) h =
    let (a, b) = and_true_left (has_template d) (have_template ds) h in
    (inner_none d a, none-StrippedNamespaces ds b)
