-- ===== src/Generics/Plain/Declarations.antt =====
-- The same for declarations (fix_func_decl and fix_decl of src/sema/generics.cpp). A template may
-- have types with arguments, as the walk skips it.
use dux_lang.Prelude.{
  String, Bool, true, false, ◌&&◌, ◌≡◌, refl, sym, subst, Option, some, none, List, [], ◌∷◌,
  if◌then◌else◌,
}
use dux_lang.Ast.{Stmts}
use dux_lang.Ast.Declarations.{FunctionDecl, MemberDecl, ClassMember, ClassDecl, Decl, Decls}
use dux_lang.Generics.FixTypes.{InstKey}
use dux_lang.Generics.Fix.{
  fix_body, fix_func_decl, fix_member, fix_members, fix_class, fix_decl, fix_decls,
  is_generic_class, is_generic_func,
}
use dux_lang.Generics.Plain.{
  PlainTe, PlainParams, PlainStmts, fix_te-PlainTe, fix_params-PlainParams, fix_stmts-PlainStmts,
}

abbrev pub PlainBody : Option Stmts → Type 0
PlainBody none = Unit
PlainBody (some ss) = PlainStmts ss

abbrev pub PlainFunc : FunctionDecl → Type 0
PlainFunc f = PlainTe f.return_type × PlainParams f.params × PlainBody f.body

abbrev pub PlainMember : MemberDecl → Type 0
PlainMember (MemberDecl.method f) = PlainFunc f
PlainMember (MemberDecl.field f) = PlainTe f.type
PlainMember MemberDecl.empty = Unit

abbrev pub PlainMembers : List ClassMember → Type 0
PlainMembers [] = Unit
PlainMembers (m ∷ ms) = PlainMember m.decl × PlainMembers ms

-- What holds of all but templates.
abbrev pub Unless : Bool → Type 0 → Type 0
Unless true P = Unit
Unless false P = P

unfoldable mutual
  pub PlainDecl : Decl → Type 0
  PlainDecl (Decl.class_decl c) = Unless (is_generic_class c) (PlainMembers c.members)
  PlainDecl (Decl.func f) = Unless (is_generic_func f) (PlainFunc f)
  PlainDecl (Decl.namespace_decl n name ds ss is_package_decl) = PlainDecls ds × PlainStmts ss
  PlainDecl _ = Unit

  pub PlainDecls : Decls → Type 0
  PlainDecls Decls.nil = Unit
  PlainDecls (Decls.cons d ds) = PlainDecl d × PlainDecls ds

module _ (done : List String) where
  body-PlainBody : (o : Option Stmts) (p : List InstKey) → PlainBody (fix_body done o p).0
  unfolding fix_body
  body-PlainBody none p = tt
  body-PlainBody (some ss) p = fix_stmts-PlainStmts done ss p

  func-PlainFunc : (f : FunctionDecl) (p : List InstKey) → PlainFunc (fix_func_decl done f p).0
  unfolding fix_func_decl
  func-PlainFunc f p = (
    fix_te-PlainTe done f.return_type p,
    fix_params-PlainParams done f.params _,
    body-PlainBody f.body _,
  )

  member-PlainMember : (d : MemberDecl) (p : List InstKey) → PlainMember (fix_member done d p).0
  unfolding fix_member
  member-PlainMember (MemberDecl.method f) p = func-PlainFunc f p
  member-PlainMember (MemberDecl.field f) p = fix_te-PlainTe done f.type p
  member-PlainMember MemberDecl.empty p = tt

  members-PlainMembers :
      (ms : List ClassMember) (p : List InstKey) → PlainMembers (fix_members done ms p).0
  unfolding fix_members
  members-PlainMembers [] p = tt
  members-PlainMembers (m ∷ ms) p = (member-PlainMember m.decl p, members-PlainMembers ms _)

unless : {P : Type 0} (g : Bool) → P → Unless g P
unless true h = tt
unless false h = h

abbrev either : Bool → Decl × List InstKey → Decl × List InstKey → Decl × List InstKey
either b x y = if b then x else y

class_or-PlainDecl :
    (skip g : Bool) (c c' : ClassDecl) (p p' : List InstKey)
    → is_generic_class c ≡ g
    → PlainMembers c'.members
    → is_generic_class c' ≡ g
    → PlainDecl (either (skip && g) (Decl.class_decl c, p) (Decl.class_decl c', p')).0
unfolding PlainDecl
class_or-PlainDecl true true c c' p p' e h e' =
    subst (λ g. Unless g (PlainMembers c.members)) (sym e) tt
class_or-PlainDecl true false c c' p p' e h e' = unless _ h
class_or-PlainDecl false g c c' p p' e h e' = unless _ h

func_or-PlainDecl :
    (skip g : Bool) (f f' : FunctionDecl) (p p' : List InstKey)
    → is_generic_func f ≡ g
    → PlainFunc f'
    → PlainDecl (either (skip && g) (Decl.func f, p) (Decl.func f', p')).0
unfolding PlainDecl
func_or-PlainDecl true true f f' p p' e h = subst (λ g. Unless g (PlainFunc f)) (sym e) tt
func_or-PlainDecl true false f f' p p' e h = unless _ h
func_or-PlainDecl false g f f' p p' e h = unless _ h

mutual
  unfolding fix_decl fix_class PlainDecl

  decl_plain :
      (skip : Bool) (done : List String) (d : Decl) (p : List InstKey)
      → PlainDecl (fix_decl skip done d p).0
  decl_plain skip done (Decl.class_decl c) p =
      class_or-PlainDecl skip _ c _ p _ refl (members-PlainMembers done c.members p) refl
  decl_plain skip done (Decl.func f) p =
      func_or-PlainDecl skip _ f _ p _ refl (func-PlainFunc done f p)
  decl_plain skip done (Decl.namespace_decl n name ds ss is_package_decl) p =
      (decls_plain skip done ds p, fix_stmts-PlainStmts done ss _)
  decl_plain skip done _ p = tt

  decls_plain :
      (skip : Bool) (done : List String) (ds : Decls) (p : List InstKey)
      → PlainDecls (fix_decls skip done ds p).0
  decls_plain skip done Decls.nil p = tt
  decls_plain skip done (Decls.cons d ds) p = (decl_plain skip done d p, decls_plain skip done ds _)

pub fix_decl-PlainDecl :
    (skip : Bool) (done : List String) (d : Decl) (p : List InstKey)
    → PlainDecl (fix_decl skip done d p).0
fix_decl-PlainDecl skip done d p = decl_plain skip done d p

pub fix_decls-PlainDecls :
    (skip : Bool) (done : List String) (ds : Decls) (p : List InstKey)
    → PlainDecls (fix_decls skip done ds p).0
fix_decls-PlainDecls skip done ds p = decls_plain skip done ds p
