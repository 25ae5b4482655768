-- ===== src/Lib.antt =====
-- The front end of the Dux compiler: the type registry, the scopes, the expansion of generics and
-- the semantic analysis; the loading of the library's files; and of its
-- runtime library the lists, hash maps, strings, channels and thread pool.
--
-- The compiler parses a file to a syntax tree (src/ast/ast.hpp), loads the library's files, expands
-- generics, and hands the tree to `Sema::run` (src/sema/sema.cpp). The analysis declares what the
-- program declares (pass 1), checks declarations, statements and expressions (pass 2), writes a
-- type to every expression, and reports errors to the driver (src/driver/driver.cpp), which throws
-- DiagnosticAbort at its twentieth. Code is generated only for a program in which the analysis has
-- found no error.
--
-- The parts and their files:
--   * Prelude: numbers, tests, lists and association lists that the parts share.
--   * Types: `TypeRegistry` of src/sema/types.hpp and types.cpp, one function per method. Walk has
--     the walk along the parents, Unify the two operands of an operator, Names the table of names,
--     Growth what interning and the checks leave of a registry.
--   * Symbol: `Symbol`, `Scope` and `ScopeStack` of src/sema/symbol.hpp and symbol.cpp; Lookup and
--     Growth have their laws.
--   * Ast: the node types of src/ast/ast.hpp. A node carries a number for its address.
--   * Diagnostics: the counting of errors in src/driver/driver.cpp, with messages as data.
--   * Sema: the state of the class `Sema`, and its helpers as actions on that state. An action
--     ends with a value (`done`), by the driver's exception (`aborted`) or never (`hangs`). Hoist
--     is pass 1. Steps, Operators, Members, Patterns and Lambda are what check_expr and check_stmt
--     do without recursion; Check has the recursive functions, Declarations check_decl, and Run
--     the constructor and run. What an unwinding exception skips is skipped here too: scopes and
--     flags are not restored then.
--   * Sema/Verdict, Statements, Constants, Bases and Enums: what is shown of the analysis.
--   * Sema/Frame and its neighbours: what every check keeps, by induction on the tree.
--     Sema/LoopExits and Sema/Tally: the errors that a tree adds at least.
--   * Generics: src/sema/generics.cpp. Clone and Templates copy a template with its parameters
--     replaced, FixTypes and Fix are the walk that gives instantiations their names, Expand has
--     the bounds and the work-list. Plain, Copies, Instances, Bounds, Substitution, Stripped,
--     Collected and Result are what is shown of them, Rounds the induction over the work-list,
--     Unmet the bounds that do not hold.
--   * FrontEnd: src/main.cpp from the parser's tree to the code generator: the imports, the expansion
--     and then the analysis. Composition has what the last two come to together, Whole all three.
--   * Imports: merge_stdlib_imports of src/main.cpp; Missing has the paths that are not loaded yet, which
--     bound its recursion, and Loading what it leaves.
--   * Runtime/DuxList: src/runtime/list.c, the lists of compiled programs, one function for each of
--     its own, without the prefix `duxrt_`. Refinement, Updates, Concat and Counting have what is
--     shown of them.
--   * Runtime/DuxDict: src/runtime/dict.c, the hash maps, in the same way. Masks has the index into a
--     table, Counts its live slots and tombstones, Probes the loops, Inserts what an
--     insertion does to the counts, Ends that every operation ends. Paths has the slots that a search
--     goes through, Finds and Spots what it comes to, Maps the finite map that a table holds, Stores
--     and Regrowth an insertion and a larger table, Refinement the functions against the map.
--   * Runtime/DuxStr: src/runtime/str.c, the strings, in the same way; Search, Buffer, Edit, Split
--     and Join have the functions by what they do. Pieces has a split by recursion on the bytes, Reads what is
--     read of a string in parts, Views and Splits the loops at a separator, Joins and RoundTrip the
--     pieces put together, Buffers the room in a buffer, Replaces the loop of a replacement,
--     Occurrences the searches, WhiteSpace and Trims the trims.
--   * Runtime/Channel and Runtime/Pool: the channels and the thread pool of src/runtime/thread_rt.c, as a
--     relation between the states before and after a step of a thread; Sound, Served and Turns have
--     what holds in every order of steps, Abandoned a pool without workers.
--   * Examples: small programs, and each result at one of them.
--
-- Integers: a reference count is the bits of an int32_t, with the wrap-around written out; a length
-- or a capacity is a natural number, as memory ends far below 2^63. Ids, tags and counts are
-- natural numbers, as they are only ever counted up by one for an item of the program, far below
-- the limit of their machine type. A TypeId is negative only for `TID_UNKNOWN`.
--
-- Fuel: the walks along the parents in `is_subtype`, `satisfies` and check_member are loops that
-- a cycle of parents never leaves. They take one step more than there are types as fuel, and
-- answer `none` where it runs out; an action that asks such a walk then `hangs`. The fuel is
-- chosen so because a walk that ends looks at no type twice.
--
-- The work-list of expand_generics may grow for ever: it takes any fuel, and says `out_of_fuel`.
-- The loops of dict.c take as much fuel as the table has slots, which is enough as it is resized
-- before all are in use. A copy of a template in which a null pointer stands that the compiler
-- follows later is `null_node`.
--
-- The loops of str.c are by recursion on the number of places left, or take one step more than the
-- string has bytes as fuel, which is enough as a round goes on by a byte at least; the doubling of a
-- capacity takes the size that is asked for. The call of merge_stdlib_imports for a file's own imports
-- takes any fuel; more than there are paths to import is enough.
--
-- The file system and the parser are a parameter, `load`, that gives the tree of a file. Nothing is
-- asked of it but that it is a function: a file does not change while the imports are loaded.
--
-- In str.c an access outside of a string, or a signed overflow, is `undefined`, and a string of 2^31
-- bytes `aborts`.
--
-- A hash map is a table that is searched by key; the one place that lists a map (the names which
-- hoist_namespace promotes) takes them in the order of their definition, while the order of an
-- unordered_map is not specified.
--
-- Threads: pthread_cond_wait, pthread_cond_signal and pthread_cond_broadcast are taken at their word:
-- a thread that waits holds no mutex, a signal lets one go on if any waits, a broadcast all, and a
-- thread may go on with no signal. A bound on the values of an int32_t is not reached.
--
-- What the analysis never checks, and what is shown of it therefore does not speak of: the
-- initialisation lists of constructors (for which the code generator does generate code), the arguments
-- of decorators, the members of interfaces (but for their names and return types) and package
-- declarations.
--
-- Not modelled: the parser and the lexer (generated), the import resolver of the driver (which nothing
-- calls), the printer, the rest of the command line, the REPL, code generation (calls into LLVM), and
-- of the runtime library all but its lists, hash maps, strings, channels and thread pool; of the
-- strings the conversions from and to numbers, which call the C library; of the channels and the pool
-- what frees them.
pub mod Prelude
pub mod Types
pub mod Ast
pub mod Symbol
pub mod Diagnostics
pub mod Sema
pub mod Generics
pub mod FrontEnd
pub mod Imports
pub mod Runtime
pub mod Examples
