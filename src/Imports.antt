-- ===== src/Imports.antt =====
-- merge_stdlib_imports of src/main.cpp: the standard library's files for the imports of a program,
-- and for those of these files. `load` stands for the file system and the generated parser: the tree
-- of the file with this name in this directory, `none` where there is no such file or parse() does
-- not give 0 and a tree. A node that moves from one tree to another keeps its address.
pub mod Missing
pub mod Loading
use Prim.Native.Char.{Char, code}
use Prim.Native.String
use dux_lang.Prelude.{
  ℕ, zero, suc, Bool, true, false, Option, none, some, String, List, [], ◌∷◌, ◌++◌, nat_eq, ◌==◌,
  if◌then◌else◌,
}
use dux_lang.Prelude.Tables.{mem_name}
use dux_lang.Ast.Declarations.{Program, Decl, Decls, nil, cons, import_decl}

-- The dotted path with a slash for each dot.
unfoldable pub slashed : String → String
slashed String.[] = String.[]
slashed (String.◌∷◌ c s) = String.◌∷◌ (if nat_eq (code c) b'.' then "/" else c) (slashed s)

unfoldable pub file_of : String → String
file_of path = String.◌++◌ (slashed path) ".dux"

abbrev pub imported : Decl → List String
imported (import_decl imp) = if imp.path == "" then [] else imp.path ∷ []
imported d = []

-- The paths of the imports among the declarations, the empty ones left out.
unfoldable pub import_paths : Decls → List String
import_paths nil = []
import_paths (cons d ds) = imported d ++ import_paths ds

abbrev pub prefixed : Decls → Decls → Decls
prefixed nil ds = ds
prefixed (cons d es) ds = cons d (prefixed es ds)

-- The declarations of a file before those of the program.
abbrev pub with_prefix : Program → Program → Program
with_prefix sub prog = record prog { decls = prefixed sub.decls prog.decls }

abbrev pub Loaded : Type 0
Loaded = Option (Program × List String)

-- The loop over the paths of a program; `rec` is the call for a file's own imports.
unfoldable pub merge_paths :
    (Program → List String → Loaded)
    → (String → Option Program)
    → List String
    → Program
    → List String
    → Loaded
merge_paths rec load [] prog loaded = some (prog, loaded)
merge_paths rec load (path ∷ paths) prog loaded = elim (mem_name path loaded) [
  | true ↦ merge_paths rec load paths prog loaded
  | false ↦ elim (load (file_of path)) [
    | none ↦ merge_paths rec load paths prog (path ∷ loaded)
    | some sub ↦ elim (rec sub (path ∷ loaded)) [
      | none ↦ none
      | some (sub', loaded') ↦ merge_paths rec load paths (with_prefix sub' prog) loaded'
    ]
  ]
]

-- The program and the set of paths afterwards; `none` when the fuel is used up.
unfoldable pub merge_stdlib_imports :
    (String → String → Option Program) → String → ℕ → Program → List String → Loaded
merge_stdlib_imports load dir zero prog loaded = none
merge_stdlib_imports load dir (suc fuel) prog loaded =
    if dir == ""
    then some (prog, loaded)
    else merge_paths (merge_stdlib_imports load dir fuel) (load dir) (import_paths prog.decls) prog
        loaded
