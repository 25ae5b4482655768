-- ===== src/Generics/Copies.antt =====
-- The copy of a template in src/sema/generics.cpp: what is added to the new declarations is no
-- template, and has the name that was asked for.
use dux_lang.Prelude.{ℕ, ◌+◌, String, false, ◌≡◌, refl, subst, Option, some, none, List, []}
use dux_lang.Prelude.Tables.{find}
use dux_lang.Ast.{Node}
use dux_lang.Ast.Declarations.{FunctionDecl, ClassDecl, ClassMember, Decl}
use dux_lang.Generics.{SubstMap}
use dux_lang.Generics.Clone.{◌>>=◌, fresh}
use dux_lang.Generics.Templates.{
  clone_class_decl, clone_generic_func, clone_func_decl, clone_members,
}
use dux_lang.Generics.FixTypes.{InstKey}
use dux_lang.Generics.Fix.{fix_decl, fix_class, fix_func_decl}
use dux_lang.Generics.Expand.{
  Found, Template, class_template, func_template, template_of, is_template,
}

abbrev pub decl_name : Decl → String
decl_name (Decl.func f) = f.name
decl_name (Decl.class_decl c) = c.name
decl_name (Decl.interface_decl i) = i.name
decl_name (Decl.import_decl i) = i.path
decl_name (Decl.namespace_decl n name ds ss is_package_decl) = name
decl_name (Decl.extern_decl e) = e.name
decl_name (Decl.enum_decl e) = e.name
decl_name (Decl.field_decl f) = f.name

-- A copy of a template under a name: no template itself, and so called.
pub record IsInstance (name : String) (d : Decl) : Type 0 where
  pub concrete : is_template d ≡ false
  pub named : decl_name d ≡ name

some_inj : {A : Type 0} {x y : A} → some x ≡ some y → x ≡ y
some_inj e = cc

abbrev pub Made : String → Option (Decl × ℕ) → Type 0
Made name none = Unit
Made name (some (d, k)) = IsInstance name d

pub record IsTemplate (tmpl : Template) : Type 0 where
  pub makes : (name : String) (s : SubstMap) (k : ℕ) → Made name (tmpl.clone name s k)

Made-class :
    (c : ClassDecl) (name : String) (n : Node) (o : Option (List ClassMember × ℕ))
    → Made name
        (elim (elim o as (λ x. Option (ClassDecl × ℕ)) [
          | none ↦ none
          | some (ms, k) ↦ some (
            record {
              node = n;
              decorators = [];
              name = name;
              type_params = [];
              type_bounds = [];
              bases = c.bases;
              members = ms;
            },
            k,
          )
        ])
          as (λ x. Option (Decl × ℕ)) [ none ↦ none | some (c', k) ↦ some (Decl.class_decl c', k) ])
Made-class c name n none = tt
Made-class c name n (some (ms, k)) = record { concrete = refl; named = refl }

class-IsTemplate : (c : ClassDecl) → IsTemplate (class_template c)
unfolding class_template clone_class_decl ◌>>=◌ fresh
class-IsTemplate c = record {
  makes = λ name s k.
      Made-class c name (record { id = k; loc = c.node.loc })
        (clone_members name s c.members (k + 1));
}

Made-func :
    (name : String) (o : Option (FunctionDecl × ℕ))
    → Made name
        (elim (elim o as (λ x. Option (FunctionDecl × ℕ)) [
          | none ↦ none
          | some (f, k) ↦ some (record f { name = name; type_params = []; type_bounds = [] }, k)
        ])
          as (λ x. Option (Decl × ℕ)) [ none ↦ none | some (f, k) ↦ some (Decl.func f, k) ])
Made-func name none = tt
Made-func name (some (f, k)) = record { concrete = refl; named = refl }

func-IsTemplate : (f : FunctionDecl) → IsTemplate (func_template f)
unfolding func_template clone_generic_func ◌>>=◌
func-IsTemplate f = record { makes = λ name s k. Made-func name (clone_func_decl s f k) }

found-IsTemplate :
    (a : Option ClassDecl) (b : Option FunctionDecl) (tmpl : Template)
    → elim a [
      | some c ↦ some (class_template c)
      | none ↦ elim b [ some f ↦ some (func_template f) | none ↦ none ]
    ]
      ≡ some tmpl
    → IsTemplate tmpl
found-IsTemplate (some c) b tmpl e = subst IsTemplate (some_inj e) (class-IsTemplate c)
found-IsTemplate none (some f) tmpl e = subst IsTemplate (some_inj e) (func-IsTemplate f)
found-IsTemplate none none tmpl e = cc

pub template_of-IsTemplate :
    (t : Found) (name : String) (tmpl : Template) → template_of t name ≡ some tmpl → IsTemplate tmpl
unfolding template_of
template_of-IsTemplate t name tmpl e =
    found-IsTemplate (find name t.classes) (find name t.funcs) tmpl e

-- The walk over a copy keeps its name, and makes it no template.
pub fix_decl-IsInstance :
    (done : List String) (p : List InstKey) (name : String) (d : Decl)
    → IsInstance name d
    → IsInstance name (fix_decl false done d p).0
unfolding fix_decl fix_class fix_func_decl
fix_decl-IsInstance done p name (Decl.class_decl c) h = record {
  concrete = h.concrete;
  named = h.named;
}
fix_decl-IsInstance done p name (Decl.func f) h = record { concrete = h.concrete; named = h.named }
fix_decl-IsInstance done p name (Decl.namespace_decl n x ds ss b) h = record {
  concrete = h.concrete;
  named = h.named;
}
fix_decl-IsInstance done p name (Decl.interface_decl i) h = h
fix_decl-IsInstance done p name (Decl.import_decl i) h = h
fix_decl-IsInstance done p name (Decl.extern_decl e) h = h
fix_decl-IsInstance done p name (Decl.enum_decl e) h = h
fix_decl-IsInstance done p name (Decl.field_decl f) h = h
