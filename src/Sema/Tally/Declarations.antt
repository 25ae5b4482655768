-- ===== src/Sema/Tally/Declarations.antt =====
-- Pass 2 over declarations, and Sema::run: the stray `break` and `continue` of every function body
-- and field initialiser are reported, and the counts of the analyser and the driver stay in step.
-- `b` says again whether the tree stands inside a loop. What the analysis never looks at is left out:
-- the initialisation lists of constructors, the arguments of decorators, the members of interfaces, and
-- what stands in a package declaration.
use dux_lang.Prelude.{
  ℕ, ◌+◌, String, Bool, true, false, Option, none, some, List, [], ◌∷◌, arith, if◌then◌else◌,
}
use dux_lang.Types.{TypeId}
use dux_lang.Symbol.{Symbol}
use dux_lang.Ast.{SourceLoc, Param, Stmts, no_expr, an_expr}
use dux_lang.Ast.Declarations.{
  FunctionDecl, FieldDecl, MemberDecl, ClassMember, BaseClass, ClassDecl, InterfaceDecl, ImportDecl,
  Decl, Decls, Program,
}
use dux_lang.Sema.{M, ◌>>=◌, ◌>>◌, skip, warn}
use dux_lang.Sema.Frame.{Keeps, Keeps-pure, ◌⟫◌, keeps_rules, Keeps-option, Keeps-if}
use dux_lang.Sema.FrameParts.{part_rules}
use dux_lang.Sema.FrameCheck.{Keeps-check_expr, Keeps-check_stmts}
use dux_lang.Sema.LoopExits.{stray_expr, stray_stmts}
use dux_lang.Sema.LoopExits.Check.{expr-Adds-stray, stmts-Adds-stray}
use dux_lang.Sema.Hoist.{change_types}
use dux_lang.Types.{set_parent}
use dux_lang.Ast.Views.{expr_loc}
use dux_lang.Ast.{MaybeExpr}
use dux_lang.Diagnostics.{unknown_base, not_a_base, field_initialiser}
use dux_lang.Sema.{type_from_te, require_assignable}
use dux_lang.Sema.Check.{check_expr}
use dux_lang.Sema.Declarations.{
  define_self, define_params, check_optional, check_func, check_bases, check_contract,
  check_contracts, define_method, define_field, define_members, check_field, check_members,
  check_class, check_interface_members, check_interface, check_import, check_decl, check_decl_list,
  interface_decl_of, is_base_kind,
}
use dux_lang.Sema.Run.{run}
use dux_lang.Sema.Tally.{
  Tally, tally, Tally-quiet, Tally-bind, Tally-weaken, ◌then_tally◌, Tally-in_scope,
  Tally-returning, Tally-within_class, tally_rules,
}
use dux_lang.Sema.Tally.Hoist.{Tally-hoist_top, Keeps-param_types}

-- In the body; a constructor's initialisation list is left out.
unfoldable pub stray_func : Bool → FunctionDecl → ℕ
unfolding stray_stmts
stray_func b f = elim f.body [ none ↦ 0 | some ss ↦ stray_stmts b ss ]

unfoldable pub stray_member : Bool → MemberDecl → ℕ
unfolding stray_func stray_expr
stray_member b (MemberDecl.method f) = stray_func b f
stray_member b (MemberDecl.field f) = elim f.init [ no_expr ↦ 0 | an_expr e ↦ stray_expr b e ]
stray_member b MemberDecl.empty = 0

unfoldable pub stray_members : Bool → List ClassMember → ℕ
unfolding stray_member
stray_members b [] = 0
stray_members b (m ∷ ms) = stray_member b m.decl + stray_members b ms

unfoldable mutual
  pub stray_decl : Bool → Decl → ℕ
  stray_decl b (Decl.func f) = stray_func b f
  stray_decl b (Decl.class_decl c) = stray_members b c.members
  stray_decl b (Decl.namespace_decl n name ds ss is_package_decl) =
      if is_package_decl then 0 else stray_decls b ds + stray_stmts b ss
  stray_decl b _ = 0

  pub stray_decls : Bool → Decls → ℕ
  stray_decls b Decls.nil = 0
  stray_decls b (Decls.cons d ds) = stray_decl b d + stray_decls b ds

-- In the statements of a program, the bodies of its functions and methods, and the initialisers of its
-- fields, in namespaces too.
abbrev pub stray_program : Program → ℕ
stray_program p = stray_decls false p.decls + stray_stmts false p.stmts

Keeps-define_self : (is_static : Bool) → Keeps (define_self is_static)
unfolding define_self
Keeps-define_self is_static = search keeps_rules depth 14

Keeps-define_params : (ps : List Param) → Keeps (define_params ps)
unfolding define_params
Keeps-define_params [] = Keeps-pure tt
Keeps-define_params (p ∷ ps) = search part_rules ⟫ λ t.
    search keeps_rules ⟫ λ fresh. search keeps_rules ⟫ λ _. Keeps-define_params ps

Keeps-define_method : (f : FunctionDecl) → Keeps (define_method f)
unfolding define_method
Keeps-define_method f = search (part_rules, Keeps-param_types) depth 14

Keeps-define_field : (f : FieldDecl) → Keeps (define_field f)
unfolding define_field
Keeps-define_field f = search part_rules depth 14

Keeps-define_members : (ms : List ClassMember) → Keeps (define_members ms)
unfolding define_members
Keeps-define_members [] = Keeps-pure tt
Keeps-define_members (m ∷ ms) = member m.decl ⟫ λ _. Keeps-define_members ms
  where
    member :
        (d : MemberDecl)
        → Keeps (elim d [
          | MemberDecl.method f ↦ define_method f
          | MemberDecl.field f ↦ define_field f
          | MemberDecl.empty ↦ skip
        ])
    member (MemberDecl.method f) = Keeps-define_method f
    member (MemberDecl.field f) = Keeps-define_field f
    member MemberDecl.empty = Keeps-pure tt

-- A rule for a step on one member.
Keeps-of_member :
    (d : MemberDecl) (f : FunctionDecl → M (Unit {0})) (g : FieldDecl → M (Unit {0}))
    → ((x : FunctionDecl) → Keeps (f x))
    → ((x : FieldDecl) → Keeps (g x))
    → Keeps
        (elim d [ MemberDecl.method x ↦ f x | MemberDecl.field x ↦ g x | MemberDecl.empty ↦ skip ])
Keeps-of_member (MemberDecl.method x) f g h k = h x
Keeps-of_member (MemberDecl.field x) f g h k = k x
Keeps-of_member MemberDecl.empty f g h k = Keeps-pure tt

Keeps-check_contract :
    (c : ClassDecl) (base : String) (ms : List ClassMember) → Keeps (check_contract c base ms)
unfolding check_contract
Keeps-check_contract c base [] = Keeps-pure tt
Keeps-check_contract c base (m ∷ ms) =
    Keeps-of_member m.decl _ _ (λ f. search keeps_rules) (λ f. Keeps-pure tt) ⟫ λ _.
    Keeps-check_contract c base ms

Keeps-check_contracts : (c : ClassDecl) (bs : List BaseClass) → Keeps (check_contracts c bs)
unfolding check_contracts
Keeps-check_contracts c [] = Keeps-pure tt
Keeps-check_contracts c (b ∷ bs) = search keeps_rules ⟫ λ found.
    Keeps-option found _ _
      (λ sym.
        Keeps-option (interface_decl_of sym) _ _ (λ i. Keeps-check_contract c b.name i.members)
          (Keeps-pure tt))
      (Keeps-pure tt)
    ⟫ λ _. Keeps-check_contracts c bs

Keeps-check_interface_members : (ms : List ClassMember) → Keeps (check_interface_members ms)
unfolding check_interface_members
Keeps-check_interface_members [] = Keeps-pure tt
Keeps-check_interface_members (m ∷ ms) =
    Keeps-of_member m.decl _ _ (λ f. search part_rules) (λ f. Keeps-pure tt) ⟫ λ _.
    Keeps-check_interface_members ms

Keeps-check_interface : (i : InterfaceDecl) → Keeps (check_interface i)
unfolding check_interface
Keeps-check_interface i = Keeps-check_interface_members i.members

Keeps-check_import : (i : ImportDecl) → Keeps (check_import i)
unfolding check_import
Keeps-check_import i = search keeps_rules ⟫ λ found.
    Keeps-if _ _ _ (Keeps-option found _ _ (λ sym. Keeps-pure tt) (search keeps_rules))
      (Keeps-pure tt)

module _ {b : Bool} where
  -- The parent that each base sets is no change of the counts.
  Tally-check_bases :
      (loc : SourceLoc) (t : TypeId) (bs : List BaseClass) → Tally b 0 (check_bases loc t bs)
  unfolding check_bases
  Tally-check_bases loc t [] = Tally-quiet _ (Keeps-pure tt)
  Tally-check_bases loc t (base ∷ bs) =
      Tally-bind _ _ (Tally-quiet _ (search keeps_rules))
        λ found. Tally-bind _ _ (one found) (λ _. Tally-check_bases loc t bs)
    where
      one :
          (o : Option Symbol)
          → Tally b 0 (elim o [
            | none ↦ warn loc (unknown_base base.name)
            | some sym ↦
                if is_base_kind sym.kind
                then change_types (set_parent t sym.type)
                else warn loc (not_a_base base.name)
          ])
      one none = Tally-quiet _ (search keeps_rules)
      one (some sym) = search (keeps_rules, tally_rules)

  Tally-check_func : (f : FunctionDecl) → Tally b (stray_func b f) (check_func f)
  unfolding check_func stray_func
  Tally-check_func f =
      Tally-weaken
        (Tally-quiet _ (search part_rules) then_tally λ ret. Tally-in_scope _ _ (
          Tally-quiet _ (Keeps-define_self f.is_static) then_tally λ _.
          Tally-quiet _ (Keeps-define_params f.params) then_tally λ _.
          Tally-returning _ _ (body f.body)))
        (omega arith)
    where
      body :
          (o : Option Stmts)
          → Tally b (elim o [ none ↦ 0 | some ss ↦ stray_stmts b ss ]) (check_optional o)
      body none = Tally-quiet _ (Keeps-pure tt)
      body (some ss) = tally (Keeps-check_stmts ss) (stmts-Adds-stray b ss)

  Tally-check_field :
      (f : FieldDecl) → Tally b (stray_member b (MemberDecl.field f)) (check_field f)
  unfolding check_field stray_member
  Tally-check_field f = init f.init
    where
      init :
          (o : MaybeExpr)
          → Tally b
              (elim o [ no_expr ↦ 0 | an_expr e ↦ stray_expr b e ])
              (elim o [
                | no_expr ↦ skip
                | an_expr e ↦ do
                  init_t ← check_expr e
                  t ← type_from_te f.type
                  require_assignable init_t t (expr_loc e) (field_initialiser f.name)
                  skip
              ])
      init no_expr = Tally-quiet _ (Keeps-pure tt)
      init (an_expr e) =
          Tally-weaken
            (tally (Keeps-check_expr e) (expr-Adds-stray b e) then_tally λ t.
              Tally-quiet _ (search part_rules))
            (omega arith)

  Tally-check_members : (ms : List ClassMember) → Tally b (stray_members b ms) (check_members ms)
  unfolding check_members stray_members stray_member
  Tally-check_members [] = Tally-quiet _ (Keeps-pure tt)
  Tally-check_members (m ∷ ms) = member m.decl then_tally λ _. Tally-check_members ms
    where
      member :
          (d : MemberDecl)
          → Tally b (stray_member b d) (elim d [
            | MemberDecl.method f ↦ check_func f
            | MemberDecl.field f ↦ check_field f
            | MemberDecl.empty ↦ skip
          ])
      member (MemberDecl.method f) = Tally-check_func f
      member (MemberDecl.field f) = Tally-check_field f
      member MemberDecl.empty = Tally-quiet _ (Keeps-pure tt)

  Tally-check_class : (c : ClassDecl) → Tally b (stray_members b c.members) (check_class c)
  unfolding check_class
  Tally-check_class c =
      Tally-weaken
        (Tally-quiet _ (search keeps_rules) then_tally λ t.
          Tally-check_bases _ t c.bases then_tally λ _.
          Tally-quiet _ (Keeps-check_contracts c c.bases) then_tally λ _. Tally-within_class _ _ _ (
            Tally-in_scope _ _ (
              Tally-quiet _ (Keeps-define_members c.members) then_tally λ _.
              Tally-check_members c.members)))
        (omega arith)

mutual
  unfolding check_decl stray_decl

  decl-Tally : (b : Bool) (d : Decl) → Tally b (stray_decl b d) (check_decl d)
  decl-Tally b (Decl.func f) = Tally-check_func f
  decl-Tally b (Decl.class_decl c) = Tally-check_class c
  decl-Tally b (Decl.interface_decl i) = Tally-quiet _ (Keeps-check_interface i)
  decl-Tally b (Decl.namespace_decl n name ds ss true) = Tally-quiet _ (Keeps-pure tt)
  decl-Tally b (Decl.namespace_decl n name ds ss false) =
      Tally-weaken
        (Tally-in_scope _ _ (
          Tally-hoist_top b ds then_tally λ _.
          decls-Tally b ds then_tally λ _. tally (Keeps-check_stmts ss) (stmts-Adds-stray b ss)))
        (omega arith)
  decl-Tally b (Decl.import_decl i) = Tally-quiet _ (Keeps-check_import i)
  decl-Tally b (Decl.extern_decl e) = Tally-quiet _ (Keeps-pure tt)
  decl-Tally b (Decl.enum_decl e) = Tally-quiet _ (Keeps-pure tt)
  decl-Tally b (Decl.field_decl f) = Tally-quiet _ (Keeps-pure tt)

  decls-Tally : (b : Bool) (ds : Decls) → Tally b (stray_decls b ds) (check_decl_list ds)
  decls-Tally b Decls.nil = Tally-quiet _ (Keeps-pure tt)
  decls-Tally b (Decls.cons d ds) = decl-Tally b d then_tally λ _. decls-Tally b ds

pub Tally-run : (p : Program) → Tally false (stray_program p) (run p)
unfolding run
Tally-run p =
    Tally-weaken
      (Tally-hoist_top false p.decls then_tally λ _. decls-Tally false p.decls then_tally λ _.
        tally (Keeps-check_stmts p.stmts) (stmts-Adds-stray false p.stmts) then_tally λ _.
        Tally-quiet _ (search keeps_rules))
      (omega arith)
