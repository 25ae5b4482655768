-- ===== src/Imports/Loading.antt =====
-- merge_stdlib_imports of src/main.cpp ends where there are finitely many paths to import, and what
-- it leaves.
use mathlib.Core.List.{append_assoc}
use dux_lang.Prelude.{
  ℕ, zero, suc, ◌≤◌, ◌<◌, true, false, Option, some, String, List, [], ◌∷◌, ◌++◌, ◌==◌, length, ◌≡◌,
  refl, sym, ap, ◌∙◌, arith, Bool-cases, Option-cases, inl, inr,
}
use dux_lang.Prelude.Tables.{mem_name}
use dux_lang.Ast.Declarations.{Program, Decls, nil, cons}
use dux_lang.Imports.{
  file_of, imported, import_paths, prefixed, with_prefix, Loaded, merge_paths, merge_stdlib_imports,
}
use dux_lang.Imports.Missing.{
  all_in, all_distinct, missing, mem_name-all_in, all_in_refl, all_in_trans, all_in-append,
  missing-all_in, missing-cons,
}

prefixed_assoc : (a b c : Decls) → prefixed (prefixed a b) c ≡ prefixed a (prefixed b c)
prefixed_assoc nil b c = refl
prefixed_assoc (cons d a) b c = ap (cons d) (prefixed_assoc a b c)

import_paths-prefixed :
    (a b : Decls) → import_paths (prefixed a b) ≡ import_paths a ++ import_paths b
unfolding import_paths
import_paths-prefixed nil b = refl
import_paths-prefixed (cons d a) b =
    ap (λ (ps : List String). imported d ++ ps) (import_paths-prefixed a b)
    ∙ sym (append_assoc (imported d) (import_paths a) (import_paths b))

-- What the loading of `paths` makes of a program and a set of loaded paths.
pub record Merged (paths : List String) (prog : Program) (loaded : List String) (prog' : Program)
    (loaded' : List String) : Type 0 where
  -- the declarations of the files stand before those of the program
  pub front : Decls
  pub whole : prog' ≡ record prog { decls = prefixed front prog.decls }
  -- the paths, those that were loaded, and those that the files import
  pub paths_in : all_in paths loaded' ≡ true
  pub kept : all_in loaded loaded' ≡ true
  pub front_in : all_in (import_paths front) loaded' ≡ true
  pub distinct : all_distinct loaded' ≡ true

pub record Ends (m : Loaded) (paths : List String) (prog : Program) (loaded : List String)
    : Type 0 where
  pub prog' : Program
  pub loaded' : List String
  pub result : m ≡ some (prog', loaded')
  pub merged : Merged paths prog loaded prog' loaded'

-- One path more: one that is loaded, one that has no file, and one whose file has been merged.
module _ (path : String) (paths : List String) (prog : Program) (loaded : List String) where
  seen :
      {prog' : Program} {loaded' : List String}
      → mem_name path loaded ≡ true
      → Merged paths prog loaded prog' loaded'
      → Merged (path ∷ paths) prog loaded prog' loaded'
  seen {prog'} {loaded'} e m = record {
    front = m.front;
    whole = m.whole;
    paths_in = ground (arith, mem_name-all_in path loaded loaded' e m.kept, m.paths_in);
    kept = m.kept;
    front_in = m.front_in;
    distinct = m.distinct;
  }

  absent :
      {prog' : Program} {loaded' : List String}
      → Merged paths prog (path ∷ loaded) prog' loaded'
      → Merged (path ∷ paths) prog loaded prog' loaded'
  absent {prog'} {loaded'} m = record {
    front = m.front;
    whole = m.whole;
    paths_in = ground (arith, m.kept, m.paths_in);
    kept = ground (arith, m.kept);
    front_in = m.front_in;
    distinct = m.distinct;
  }

  present :
      {sub sub' prog' : Program} {loaded₁ loaded' : List String}
      → Merged (import_paths sub.decls) sub (path ∷ loaded) sub' loaded₁
      → Merged paths (with_prefix sub' prog) loaded₁ prog' loaded'
      → Merged (path ∷ paths) prog loaded prog' loaded'
  present {sub} {sub'} {prog'} {loaded₁} {loaded'} m n =
      let kept = all_in_trans (path ∷ loaded) loaded₁ loaded' m.kept n.kept in
      let of_sub : all_in (import_paths sub'.decls) loaded₁ ≡ true =
        rw
          (ap (λ (p : Program). import_paths p.decls) m.whole
            ∙ import_paths-prefixed m.front sub.decls)
          (all_in-append (import_paths m.front) (import_paths sub.decls) loaded₁ m.front_in
            m.paths_in) in
      record {
        front = prefixed n.front sub'.decls;
        whole =
            n.whole
            ∙ ap (λ (ds : Decls). record prog { decls = ds })
                (sym (prefixed_assoc n.front sub'.decls prog.decls));
        paths_in = ground (arith, kept, n.paths_in);
        kept = ground (arith, kept);
        front_in = rw (import_paths-prefixed n.front sub'.decls) (
            all_in-append (import_paths n.front) (import_paths sub'.decls) loaded' n.front_in
              (all_in_trans (import_paths sub'.decls) loaded₁ loaded' of_sub n.kept));
        distinct = n.distinct;
      }

Ends-as :
    {m m' : Loaded} {paths paths' : List String} {prog prog' : Program}
    {loaded loaded' : List String} (r : Ends m paths prog loaded)
    → m' ≡ some (r.prog', r.loaded')
    → Merged paths' prog' loaded' r.prog' r.loaded'
    → Ends m' paths' prog' loaded'
Ends-as r e g = record { prog' = r.prog'; loaded' = r.loaded'; result = e; merged = g }

-- The loop, where the call for a file is right below a bound on the missing names.
module _ (names : List String) (load : String → Option Program)
    (rec : Program → List String → Loaded) (bound : ℕ)
    (closed : (file : String) (sub : Program)
      → load file ≡ some sub
      → all_in (import_paths sub.decls) names ≡ true)
    (sub_ends : (sub : Program) (loaded : List String)
      → all_in (import_paths sub.decls) names ≡ true
      → all_distinct loaded ≡ true
      → missing names loaded < bound
      → Ends (rec sub loaded) (import_paths sub.decls) sub loaded) where
  merge_paths_lem :
      (paths : List String) (prog : Program) (loaded : List String)
      → all_in paths names ≡ true
      → all_distinct loaded ≡ true
      → missing names loaded ≤ bound
      → Ends (merge_paths rec load paths prog loaded) paths prog loaded
  unfolding merge_paths import_paths
  merge_paths_lem [] prog loaded named dis h = record {
    prog' = prog;
    loaded' = loaded;
    result = refl;
    merged = record {
      front = nil;
      whole = refl;
      paths_in = refl;
      kept = all_in_refl loaded;
      front_in = refl;
      distinct = dis;
    };
  }
  merge_paths_lem (path ∷ paths) prog loaded named dis h =
      elim (Bool-cases (mem_name path loaded)) [
        | inl e ↦
            let r = merge_paths_lem paths prog loaded (ground (arith, named)) dis h in
            Ends-as r (ground (arith, e, r.result)) (seen path paths prog loaded e r.merged)
        | inr e ↦
            let fewer : missing names (path ∷ loaded) < missing names loaded =
              missing-cons names path loaded (ground (arith, named)) e in
            let more : all_distinct (path ∷ loaded) ≡ true = ground (arith, e, dis) in
            elim (Option-cases (load (file_of path))) [
              | inl g ↦
                  let r =
                    merge_paths_lem paths prog (path ∷ loaded) (ground (arith, named)) more
                      (omega (arith, h, fewer)) in
                  Ends-as r (ground (arith, e, g, r.result))
                    (absent path paths prog loaded r.merged)
              | inr (sub, g) ↦
                  let s =
                    sub_ends sub (path ∷ loaded) (closed (file_of path) sub g) more
                      (omega (arith, h, fewer)) in
                  let fewer' = missing-all_in names (path ∷ loaded) s.loaded' s.merged.kept in
                  let r =
                    merge_paths_lem paths (with_prefix s.prog' prog) s.loaded'
                      (ground (arith, named)) s.merged.distinct (omega (arith, h, fewer, fewer')) in
                  Ends-as r (ground (arith, e, g, s.result, r.result))
                    (present path paths prog loaded s.merged r.merged)
            ]
      ]

merge_stdlib_imports_lem :
    (load : String → String → Option Program) (dir : String) (names : List String) (fuel : ℕ)
    → dir == "" ≡ false
    → ((file : String) (sub : Program)
        → load dir file ≡ some sub
        → all_in (import_paths sub.decls) names ≡ true)
    → (prog : Program) (loaded : List String) → all_in (import_paths prog.decls) names ≡ true
    → all_distinct loaded ≡ true
    → missing names loaded < fuel
    → Ends (merge_stdlib_imports load dir fuel prog loaded) (import_paths prog.decls) prog loaded
unfolding merge_stdlib_imports
merge_stdlib_imports_lem load dir names zero e closed prog loaded named dis h = absurd (omega arith)
merge_stdlib_imports_lem load dir names (suc fuel) e closed prog loaded named dis h =
    let r =
      merge_paths_lem names (load dir) (merge_stdlib_imports load dir fuel) fuel closed
        (merge_stdlib_imports_lem load dir names fuel e closed) (import_paths prog.decls) prog
        loaded named dis (omega arith) in
    Ends-as r (rw e r.result) r.merged

missing-length : (names : List String) → missing names [] ≡ length names
missing-length [] = refl
missing-length (x ∷ names) = ap suc (missing-length names)

-- Where the files of the library and the program import only paths of a finite list and there is a
-- directory for the library, the loading of a program's imports ends, imports in circles included.
-- The program then has some declarations before its own and nothing else changed. The set of loaded
-- paths has no path twice, and has all that the program and the declarations before its own import.
pub merge_stdlib_imports-Ends :
    (load : String → String → Option Program) (dir : String) (names : List String) (prog : Program)
    (fuel : ℕ)
    → dir == "" ≡ false
    → ((file : String) (sub : Program)
        → load dir file ≡ some sub
        → all_in (import_paths sub.decls) names ≡ true)
    → all_in (import_paths prog.decls) names ≡ true
    → length names < fuel
    → Ends (merge_stdlib_imports load dir fuel prog []) (import_paths prog.decls) prog []
merge_stdlib_imports-Ends load dir names prog fuel e closed named h =
    merge_stdlib_imports_lem load dir names fuel e closed prog [] named refl
      (omega (arith, h, missing-length names))
