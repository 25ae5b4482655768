-- ===== src/Generics/Expand.antt =====
-- The bounds and the work-list of src/sema/generics.cpp: ast_satisfies_bound and expand_generics.
-- The work-list may never become empty, as instantiating a template may ask for a new instance of
-- it: it takes fuel. The driver may throw DiagnosticAbort at a bound that does not hold.
use dux_lang.Prelude.{
  ℕ, zero, suc, String, Bool, true, false, not, ◌||◌, Option, some, none, List, [], ◌∷◌, ◌==◌,
  nat_eq, if◌then◌else◌, length,
}
use dux_lang.Prelude.Tables.{Table, find, assign, mem_name}
use dux_lang.Ast.{SourceLoc, TypeExpr}
use dux_lang.Ast.Views.{te_name, te_list}
use dux_lang.Ast.Declarations.{TypeBound, FunctionDecl, BaseClass, ClassDecl, Decl, Decls, Program}
use dux_lang.Diagnostics.{Driver, driver_error, missing_bound}
use dux_lang.Generics.{SubstMap}
use dux_lang.Generics.Clone.{Copy}
use dux_lang.Generics.Templates.{clone_class_decl, clone_generic_func}
use dux_lang.Generics.FixTypes.{InstKey}
use dux_lang.Generics.Fix.{fix_decl, fix_decls, fix_stmts, is_generic_class, is_generic_func}

abbrev pub has_base : String → List BaseClass → Bool
has_base name [] = false
has_base name (b ∷ bs) = b.name == name || has_base name bs

-- The first class of that name decides; a type that is no class of the program is not checked.
unfoldable pub declares_bound : String → String → Decls → Bool
declares_bound concrete_type interface_name Decls.nil = true
declares_bound concrete_type interface_name (Decls.cons (Decl.class_decl c) ds) =
    let rest = declares_bound concrete_type interface_name ds in
    if c.name == concrete_type then has_base interface_name c.bases else rest
declares_bound concrete_type interface_name (Decls.cons _ ds) =
    declares_bound concrete_type interface_name ds

unfoldable pub ast_satisfies_bound : String → String → Decls → Bool
ast_satisfies_bound concrete_type interface_name decls =
    if interface_name == "" then true else declares_bound concrete_type interface_name decls

-- `generic_classes` and `generic_funcs`
pub record Found : Type 0 where
  pub classes : Table ClassDecl
  pub funcs : Table FunctionDecl

unfoldable mutual
  pub collect : Decl → Found → Found
  collect (Decl.class_decl c) t =
      if is_generic_class c then record t { classes = assign c.name c t.classes } else t
  collect (Decl.func f) t =
      if is_generic_func f then record t { funcs = assign f.name f t.funcs } else t
  collect (Decl.namespace_decl n name ds ss is_package_decl) t = collect_templates ds t
  collect _ t = t

  pub collect_templates : Decls → Found → Found
  collect_templates Decls.nil t = t
  collect_templates (Decls.cons d ds) t = collect_templates ds (collect d t)

-- `subst[type_params[i]] = type_args[i]`, for lists of one length
unfoldable pub bind_params : List String → List TypeExpr → SubstMap → SubstMap
bind_params [] ts s = s
bind_params (x ∷ xs) [] s = s
bind_params (x ∷ xs) (t ∷ ts) s = bind_params xs ts (assign x t s)

-- The driver behind the check of the bounds, and whether it has thrown.
unfoldable pub check_bounds : SourceLoc → Decls → SubstMap → List TypeBound → Driver → Driver × Bool
check_bounds loc decls s [] d = (d, false)
check_bounds loc decls s (b ∷ bs) d = elim (find b.param s) [
  | none ↦ check_bounds loc decls s bs d
  | some te ↦
      if ast_satisfies_bound (te_name te) b.interface_name decls
      then check_bounds loc decls s bs d
      else (let (d', throws) =
            driver_error loc (missing_bound (te_name te) b.interface_name b.param) d in
          if throws then (d', true) else check_bounds loc decls s bs d')
]

-- What the work-list changes. `next` is the next free address, `new_decls` has the newest first.
pub record Work : Type 0 where
  pub done : List String
  pub pending : List InstKey
  pub new_decls : List Decl
  pub driver : Driver
  pub next : ℕ

pub data Expansion (A : Type 0) : Type 0 where
  expanded : A → Expansion A
  -- DiagnosticAbort
  aborted : Driver → Expansion A
  -- a copy has a null pointer that the compiler follows later
  null_node : Expansion A
  out_of_fuel : Expansion A

-- The template of a name, and its parameters and bounds.
pub record Template : Type 0 where
  pub type_params : List String
  pub type_bounds : List TypeBound
  pub clone : String → SubstMap → Copy Decl

unfoldable pub class_template : ClassDecl → Template
class_template c = record {
  type_params = c.type_params;
  type_bounds = c.type_bounds;
  clone = λ new_name s k. elim (clone_class_decl c new_name s k) [
    | none ↦ none
    | some (c', k') ↦ some (Decl.class_decl c', k')
  ];
}

unfoldable pub func_template : FunctionDecl → Template
func_template f = record {
  type_params = f.type_params;
  type_bounds = f.type_bounds;
  clone = λ new_name s k. elim (clone_generic_func f new_name s k) [
    | none ↦ none
    | some (f', k') ↦ some (Decl.func f', k')
  ];
}

-- A class is looked for first.
unfoldable pub template_of : Found → String → Option Template
template_of t name = elim (find name t.classes) [
  | some c ↦ some (class_template c)
  | none ↦ elim (find name t.funcs) [ some f ↦ some (func_template f) | none ↦ none ]
]

-- The walk over a copy, and the copy among the new declarations.
unfoldable pub add_copy : Work → Driver → Decl × ℕ → Work
add_copy w driver (d, next) =
    let (d', pending) = fix_decl false w.done d w.pending in
    record w { pending = pending; new_decls = d' ∷ w.new_decls; driver = driver; next = next }

unfoldable pub instantiate : Decls → InstKey → Template → Work → Expansion Work
instantiate decls key tmpl w =
    let args = te_list key.type_args in
    let s = bind_params tmpl.type_params args [] in
    let (driver, throws) = check_bounds key.loc decls s tmpl.type_bounds w.driver in
    if not (nat_eq (length tmpl.type_params) (length args))
    then expanded w
    else if throws
    then aborted driver
    else elim (tmpl.clone key.mangled s w.next) [
      | none ↦ null_node
      | some copy ↦ expanded (add_copy w driver copy)
    ]

-- One round of the work-list, for the key that was popped.
unfoldable pub work_step : Found → Decls → InstKey → Work → Expansion Work
work_step t decls key w =
    if mem_name key.mangled w.done
    then expanded w
    else (let w' = record w { done = key.mangled ∷ w.done } in
        elim (template_of t key.generic_name) [
          | none ↦ expanded w'
          | some tmpl ↦ instantiate decls key tmpl w'
        ])

unfoldable pub work_list : ℕ → Found → Decls → Work → Expansion Work
work_list zero t decls w = out_of_fuel
work_list (suc fuel) t decls w = elim w.pending [
  | [] ↦ expanded w
  | key ∷ rest ↦ elim (work_step t decls key (record w { pending = rest })) [
    | expanded w' ↦ work_list fuel t decls w'
    | aborted d ↦ aborted d
    | null_node ↦ null_node
    | out_of_fuel ↦ out_of_fuel
  ]
]

abbrev pub is_template : Decl → Bool
is_template (Decl.class_decl c) = is_generic_class c
is_template (Decl.func f) = is_generic_func f
is_template _ = false

unfoldable pub without_templates : Decls → Decls
without_templates Decls.nil = Decls.nil
without_templates (Decls.cons d ds) =
    if is_template d then without_templates ds else Decls.cons d (without_templates ds)

-- The templates of a namespace itself go too, those of a namespace in it stay.
abbrev pub strip_namespace : Decl → Decl
strip_namespace (Decl.namespace_decl n name ds ss is_package_decl) =
    Decl.namespace_decl n name (without_templates ds) ss is_package_decl
strip_namespace d = d

unfoldable pub strip_namespaces : Decls → Decls
strip_namespaces Decls.nil = Decls.nil
strip_namespaces (Decls.cons d ds) = Decls.cons (strip_namespace d) (strip_namespaces ds)

-- The new declarations in front, the first one first.
unfoldable pub prepend : List Decl → Decls → Decls
prepend [] ds = ds
prepend (d ∷ new) ds = prepend new (Decls.cons d ds)

abbrev pub no_templates : Found → Bool
no_templates t = elim t.classes [ [] ↦ elim t.funcs [ [] ↦ true | _ ↦ false ] | _ ↦ false ]

-- The program and the driver behind the expansion, from the next free address on.
unfoldable pub expand_generics : ℕ → Program → Driver → ℕ → Expansion (Program × Driver)
expand_generics fuel prog driver next =
    let t = collect_templates prog.decls (record { classes = []; funcs = [] }) in
    let (decls, p1) = fix_decls true [] prog.decls [] in
    let (stmts, p2) = fix_stmts [] prog.stmts p1 in
    let w : Work = record {
      done = [];
      pending = p2;
      new_decls = [];
      driver = driver;
      next = next;
    } in
    if no_templates t then expanded (prog, driver) else elim (work_list fuel t decls w) [
      | expanded w' ↦ expanded (
        record prog {
          decls = strip_namespaces (prepend w'.new_decls (without_templates decls));
          stmts = stmts;
        },
        w'.driver,
      )
      | aborted d ↦ aborted d
      | null_node ↦ null_node
      | out_of_fuel ↦ out_of_fuel
    ]
