-- ===== src/Examples/Loads.antt =====
-- Imports of src/main.cpp on files that are given by hand, and the result about them.
use dux_lang.Prelude.{
  ℕ, true, false, Option, none, some, String, List, [], ◌∷◌, ◌==◌, if◌then◌else◌, ◌≡◌, refl, subst,
  arith, Bool-cases, inl, inr,
}
use dux_lang.Ast.{no_stmts}
use dux_lang.Ast.Declarations.{Program, Decl, nil, cons, import_decl}
use dux_lang.Imports.{file_of, import_paths, merge_stdlib_imports}
use dux_lang.Imports.Missing.{all_in}
use dux_lang.FrontEnd.{front_end, compiled}
use dux_lang.FrontEnd.Composition.{Judged}
use dux_lang.FrontEnd.Whole.{compiled-Judged}
use dux_lang.Imports.Loading.{Merged, Ends, merge_stdlib_imports-Ends}
use dux_lang.Examples.{node, program, fresh_driver}

abbrev import_of : ℕ → String → Decl
import_of k path =
    import_decl
      (record { node = node k; path = path; symbols = []; alias = ""; global_scope = false })

-- Two files that import each other, one of them in a directory.
abbrev io_file : Program
io_file = program (cons (import_of 1 "net.http") nil) no_stmts

abbrev http_file : Program
http_file = program (cons (import_of 2 "io") nil) no_stmts

abbrev files : String → String → Option Program
files dir file =
    if file == "io.dux"
    then some io_file
    else if file == "net/http.dux"
    then some http_file
    else none

abbrev both : List String
both = "io" ∷ "net.http" ∷ []

abbrev user : Program
user = program (cons (import_of 0 "io") nil) no_stmts

http_name : file_of "net.http" ≡ "net/http.dux"
unfolding file_of dux_lang.Imports.slashed
http_name = refl

user_loaded :
    merge_stdlib_imports files "std" 3 user []
    ≡ some (
      program
          (cons (import_of 2 "io") (cons (import_of 1 "net.http") (cons (import_of 0 "io") nil)))
          no_stmts,
      "net.http" ∷ "io" ∷ [],
    )
unfolding merge_stdlib_imports dux_lang.Imports.merge_paths import_paths file_of
    dux_lang.Imports.slashed
user_loaded = refl

io_named : all_in (import_paths io_file.decls) both ≡ true
unfolding import_paths
io_named = refl

http_named : all_in (import_paths http_file.decls) both ≡ true
unfolding import_paths
http_named = refl

files-both :
    (file : String) (sub : Program)
    → files "std" file ≡ some sub
    → all_in (import_paths sub.decls) both ≡ true
files-both file sub h = elim (Bool-cases (file == "io.dux")) [
  | inl e ↦
      let same : io_file ≡ sub = ground (arith, h, e) in
      subst (λ (p : Program). all_in (import_paths p.decls) both ≡ true) same io_named
  | inr e ↦ elim (Bool-cases (file == "net/http.dux")) [
    | inl g ↦
        let same : http_file ≡ sub = ground (arith, h, e, g) in
        subst (λ (p : Program). all_in (import_paths p.decls) both ≡ true) same http_named
    | inr g ↦ absurd (ground (arith, h, e, g))
  ]
]

merge_stdlib_imports-Ends_example :
    Ends (merge_stdlib_imports files "std" 3 user []) (import_paths user.decls) user []
unfolding import_paths
merge_stdlib_imports-Ends_example =
    merge_stdlib_imports-Ends files "std" both user 3 refl files-both refl (omega arith)

compiled-Judged_example :
    (prog' : Program) × (loaded : List String) × Merged
      (import_paths user.decls)
      user
      []
      prog'
      loaded
    × (compiled files "std" 3 9 user fresh_driver 5 ≡ some (front_end 9 prog' fresh_driver 5))
    × Judged prog' fresh_driver (front_end 9 prog' fresh_driver 5)
unfolding import_paths
compiled-Judged_example =
    compiled-Judged files "std" both 3 9 user fresh_driver 5 refl files-both refl (omega arith)
      (omega arith)
