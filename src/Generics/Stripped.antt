-- ===== src/Generics/Stripped.antt =====
-- What expand_generics of src/sema/generics.cpp leaves of a program.
use dux_lang.Prelude.{Bool, true, false, ◌≡◌, refl, ◌∙◌, List, [], ◌∷◌, if◌then◌else◌}
use dux_lang.Ast.Declarations.{Decl, Decls}
use dux_lang.Generics.Plain.Declarations.{PlainDecl, PlainDecls}
use dux_lang.Generics.Instances.{AllConcrete}
use dux_lang.Generics.Expand.{
  is_template, without_templates, strip_namespace, strip_namespaces, prepend,
}

-- No template is among them.
abbrev pub NoTemplates : Decls → Type 0
NoTemplates Decls.nil = Unit
NoTemplates (Decls.cons d ds) = (is_template d ≡ false) × NoTemplates ds

-- No template is among the declarations of a namespace itself.
abbrev pub StrippedNamespace : Decl → Type 0
StrippedNamespace (Decl.namespace_decl n name ds ss is_package_decl) = NoTemplates ds
StrippedNamespace _ = Unit

abbrev pub StrippedNamespaces : Decls → Type 0
StrippedNamespaces Decls.nil = Unit
StrippedNamespaces (Decls.cons d ds) = StrippedNamespace d × StrippedNamespaces ds

cons_without :
    (b : Bool) (d : Decl) (ds : Decls)
    → is_template d ≡ b
    → NoTemplates ds
    → NoTemplates (if b then ds else Decls.cons d ds)
cons_without true d ds e h = h
cons_without false d ds e h = (e, h)

without_templates-NoTemplates : (ds : Decls) → NoTemplates (without_templates ds)
unfolding without_templates
without_templates-NoTemplates Decls.nil = tt
without_templates-NoTemplates (Decls.cons d ds) =
    cons_without (is_template d) d (without_templates ds) refl (without_templates-NoTemplates ds)

cons_plain :
    (b : Bool) (d : Decl) (ds : Decls)
    → PlainDecl d
    → PlainDecls ds
    → PlainDecls (if b then ds else Decls.cons d ds)
unfolding PlainDecls
cons_plain true d ds e h = h
cons_plain false d ds e h = (e, h)

without_templates-PlainDecls : (ds : Decls) → PlainDecls ds → PlainDecls (without_templates ds)
unfolding without_templates PlainDecls
without_templates-PlainDecls Decls.nil h = tt
without_templates-PlainDecls (Decls.cons d ds) h =
    cons_plain (is_template d) d (without_templates ds) h.0 (without_templates-PlainDecls ds h.1)

prepend-NoTemplates :
    (new : List Decl) (ds : Decls) → AllConcrete new → NoTemplates ds → NoTemplates (prepend new ds)
unfolding prepend
prepend-NoTemplates [] ds h g = g
prepend-NoTemplates (d ∷ new) ds h g = prepend-NoTemplates new (Decls.cons d ds) h.2 (h.0, g)

prepend-PlainDecls :
    (new : List Decl) (ds : Decls) → AllConcrete new → PlainDecls ds → PlainDecls (prepend new ds)
unfolding prepend PlainDecls
prepend-PlainDecls [] ds h g = g
prepend-PlainDecls (d ∷ new) ds h g = prepend-PlainDecls new (Decls.cons d ds) h.2 (h.1, g)

strip-is_template : (d : Decl) → is_template (strip_namespace d) ≡ is_template d
strip-is_template (Decl.namespace_decl n name ds ss b) = refl
strip-is_template (Decl.class_decl c) = refl
strip-is_template (Decl.func f) = refl
strip-is_template (Decl.interface_decl i) = refl
strip-is_template (Decl.import_decl i) = refl
strip-is_template (Decl.extern_decl e) = refl
strip-is_template (Decl.enum_decl e) = refl
strip-is_template (Decl.field_decl f) = refl

strip-PlainDecl : (d : Decl) → PlainDecl d → PlainDecl (strip_namespace d)
unfolding PlainDecl
strip-PlainDecl (Decl.namespace_decl n name ds ss b) h = (without_templates-PlainDecls ds h.0, h.1)
strip-PlainDecl (Decl.class_decl c) h = h
strip-PlainDecl (Decl.func f) h = h
strip-PlainDecl (Decl.interface_decl i) h = h
strip-PlainDecl (Decl.import_decl i) h = h
strip-PlainDecl (Decl.extern_decl e) h = h
strip-PlainDecl (Decl.enum_decl e) h = h
strip-PlainDecl (Decl.field_decl f) h = h

strip-StrippedNamespace : (d : Decl) → StrippedNamespace (strip_namespace d)
strip-StrippedNamespace (Decl.namespace_decl n name ds ss b) = without_templates-NoTemplates ds
strip-StrippedNamespace (Decl.class_decl c) = tt
strip-StrippedNamespace (Decl.func f) = tt
strip-StrippedNamespace (Decl.interface_decl i) = tt
strip-StrippedNamespace (Decl.import_decl i) = tt
strip-StrippedNamespace (Decl.extern_decl e) = tt
strip-StrippedNamespace (Decl.enum_decl e) = tt
strip-StrippedNamespace (Decl.field_decl f) = tt

abbrev pub StrippedDecls : Decls → Type 0
StrippedDecls ds = NoTemplates ds × StrippedNamespaces ds × PlainDecls ds

strip_all : (ds : Decls) → NoTemplates ds → PlainDecls ds → StrippedDecls (strip_namespaces ds)
unfolding strip_namespaces PlainDecls
strip_all Decls.nil h p = (tt, tt, tt)
strip_all (Decls.cons d ds) h p =
    let (top, inner, plain) = strip_all ds h.1 p.1 in
    (
      (strip-is_template d ∙ h.0, top),
      (strip-StrippedNamespace d, inner),
      (strip-PlainDecl d p.0, plain),
    )

-- The declarations that an expansion with templates ends with.
pub final-StrippedDecls :
    (new : List Decl) (ds : Decls)
    → AllConcrete new
    → PlainDecls ds
    → StrippedDecls (strip_namespaces (prepend new (without_templates ds)))
final-StrippedDecls new ds h p =
    strip_all (prepend new (without_templates ds))
      (prepend-NoTemplates new _ h (without_templates-NoTemplates ds))
      (prepend-PlainDecls new _ h (without_templates-PlainDecls ds p))
