-- ===== src/Types.antt =====
-- src/sema/types.hpp and src/sema/types.cpp: the type registry of the semantic analysis.
-- A `TypeId` is an int32_t: `pos n` is n and `negsuc n` is -(n + 1). Ids grow by one for each new
-- name, far below 2^31, so no width is written. The vector of the class is a list indexed by id,
-- its hash map a table from names. The walks along `parent` may run forever in the source: here
-- they take fuel, `none` is what a walk gives that is still going when the fuel is out, and the
-- fuel that the callers give is one more than the number of types (see Types/Walk.antt).
pub mod Growth
pub mod Walk
pub mod Unify
pub mod Names
use dux_lang.Prelude.{
  ℕ, zero, suc, String, Bool, true, false, not, ◌&&◌, ◌||◌, Option, none, some, List, [], ◌∷◌, ◌++◌,
  ◌==◌, nat_eq, ltb, leb, if◌then◌else◌, length, get_or, modify,
}
use dux_lang.Prelude.Tables.{Table, find, assign}

pub data TypeId : Type 0 where
  pos : ℕ → TypeId
  negsuc : ℕ → TypeId

abbrev pub id_eq : TypeId → TypeId → Bool
id_eq (pos m) (pos n) = nat_eq m n
id_eq (pos m) (negsuc n) = false
id_eq (negsuc m) (pos n) = false
id_eq (negsuc m) (negsuc n) = nat_eq m n

-- `id >= 0`
abbrev pub nonneg : TypeId → Bool
nonneg (pos n) = true
nonneg (negsuc n) = false

abbrev pub tid_unknown : TypeId
tid_unknown = negsuc 0

abbrev pub tid_void : TypeId
tid_void = pos 0

abbrev pub tid_bool : TypeId
tid_bool = pos 1

abbrev pub tid_int : TypeId
tid_int = pos 2

abbrev pub tid_long : TypeId
tid_long = pos 3

abbrev pub tid_real : TypeId
tid_real = pos 4

abbrev pub tid_double : TypeId
tid_double = pos 5

abbrev pub tid_str : TypeId
tid_str = pos 6

abbrev pub tid_list : TypeId
tid_list = pos 7

abbrev pub tid_dict : TypeId
tid_dict = pos 8

abbrev pub tid_tuple : TypeId
tid_tuple = pos 9

abbrev pub tid_object : TypeId
tid_object = pos 10

abbrev pub tid_null : TypeId
tid_null = pos 11

pub data TypeKind : Type 0 where
  unknown void bool int long real double : TypeKind
  str list dict tuple object null : TypeKind
  class interface function enum : TypeKind

-- The value of the enumerator.
abbrev pub kind_code : TypeKind → ℕ
kind_code unknown = 0
kind_code void = 1
kind_code bool = 2
kind_code int = 3
kind_code long = 4
kind_code real = 5
kind_code double = 6
kind_code str = 7
kind_code list = 8
kind_code dict = 9
kind_code tuple = 10
kind_code object = 11
kind_code null = 12
kind_code class = 13
kind_code interface = 14
kind_code function = 15
kind_code enum = 16

abbrev pub kind_eq : TypeKind → TypeKind → Bool
kind_eq a b = nat_eq (kind_code a) (kind_code b)

pub record EnumVariantInfo : Type 0 where
  pub name : String
  pub tag : ℕ
  pub payload : List TypeId

pub record TypeInfo : Type 0 where
  pub kind : TypeKind
  pub name : String
  pub parent : TypeId
  pub ifaces : List TypeId
  pub return_type : TypeId
  pub param_types : List TypeId
  pub variants : List EnumVariantInfo

-- `TypeInfo{}`
abbrev pub blank : TypeInfo
blank = record {
  kind = unknown;
  name = "";
  parent = tid_unknown;
  ifaces = [];
  return_type = tid_unknown;
  param_types = [];
  variants = [];
}

pub record TypeRegistry : Type 0 where
  pub types : List TypeInfo
  pub by_name : Table TypeId

-- The slot that `info(id)` refers to: that of `void` where the id is out of range.
abbrev pub slot : TypeRegistry → TypeId → ℕ
slot r (pos n) = if ltb n (length r.types) then n else 0
slot r (negsuc n) = 0

unfoldable pub info : TypeRegistry → TypeId → TypeInfo
info r id = get_or r.types (slot r id) blank

-- A write through the reference that `info(id)` returns.
unfoldable pub update_info : (TypeInfo → TypeInfo) → TypeId → TypeRegistry → TypeRegistry
update_info f id r = record r { types = modify f (slot r id) r.types }

-- `types_[id]`, for an id in range
unfoldable pub add_builtin : TypeId → TypeKind → String → TypeId → TypeRegistry → TypeRegistry
unfolding update_info
add_builtin id kind name parent r =
    let r' = update_info (λ ti. record ti { kind = kind; name = name; parent = parent }) id r in
    record r' { by_name = assign name id r'.by_name }

unfoldable pub builtin_types : TypeRegistry
unfolding add_builtin assign
builtin_types =
    let slots : List TypeInfo =
      blank ∷ blank ∷ blank ∷ blank ∷ blank ∷ blank ∷ blank ∷ blank ∷ blank ∷ blank ∷ blank ∷ blank
      ∷ [] in
    let r0 : TypeRegistry = record { types = slots; by_name = [] } in
    let r1 = add_builtin tid_void void "void" tid_unknown r0 in
    let r2 = add_builtin tid_bool bool "bool" tid_object r1 in
    let r3 = add_builtin tid_int int "int" tid_object r2 in
    let r4 = add_builtin tid_long long "long" tid_object r3 in
    let r5 = add_builtin tid_real real "real" tid_object r4 in
    let r6 = add_builtin tid_double double "double" tid_object r5 in
    let r7 = add_builtin tid_str str "str" tid_object r6 in
    let r8 = add_builtin tid_list list "list" tid_object r7 in
    let r9 = add_builtin tid_dict dict "dict" tid_object r8 in
    let r10 = add_builtin tid_tuple tuple "tuple" tid_object r9 in
    let r11 = add_builtin tid_object object "object" tid_unknown r10 in
    add_builtin tid_null null "null" tid_unknown r11

unfoldable pub intern : String → TypeKind → TypeRegistry → TypeId × TypeRegistry
intern name kind r = elim (find name r.by_name) [
  | some id ↦ (id, r)
  | none ↦
      let id = pos (length r.types) in
      let ti = record blank { kind = kind; name = name; parent = tid_object } in
      (id, record { types = r.types ++ (ti ∷ []); by_name = assign name id r.by_name })
]

unfoldable pub from_name : TypeRegistry → String → TypeId
from_name r name =
    if name == "ptr"
    then tid_object
    else elim (find name r.by_name) [ some id ↦ id | none ↦ tid_unknown ]

unfoldable pub is_numeric : TypeId → Bool
is_numeric id =
    id_eq id tid_int
    || id_eq id tid_long
    || id_eq id tid_real
    || id_eq id tid_double
    || id_eq id tid_bool

unfoldable pub is_integral : TypeId → Bool
is_integral id = id_eq id tid_int || id_eq id tid_long || id_eq id tid_bool

-- The loop of `is_subtype` along the parents.
unfoldable pub walk : ℕ → TypeRegistry → TypeId → TypeId → Option Bool
walk zero r cur ancestor = none
walk (suc fuel) r cur ancestor =
    let parent = (info r cur).parent in
    let rest = walk fuel r parent ancestor in
    if not (id_eq cur tid_unknown) && nonneg cur
    then (if id_eq cur ancestor then some true else if id_eq parent cur then some false else rest)
    else some false

unfoldable pub walk_fuel : TypeRegistry → ℕ
walk_fuel r = suc (length r.types)

unfoldable pub is_subtype : TypeRegistry → TypeId → TypeId → Option Bool
is_subtype r child ancestor =
    if id_eq child ancestor
    then some true
    else if id_eq ancestor tid_object
    then some true
    else if id_eq child tid_null
    then some true
    else if id_eq child tid_unknown || id_eq ancestor tid_unknown
    then some true
    else walk (walk_fuel r) r child ancestor

unfoldable pub class_or_interface : TypeRegistry → TypeId → Bool
class_or_interface r id = kind_eq (info r id).kind class || kind_eq (info r id).kind interface

unfoldable pub is_enum : TypeRegistry → TypeId → Bool
is_enum r id = kind_eq (info r id).kind enum

unfoldable pub assignable : TypeRegistry → TypeId → TypeId → Option Bool
unfolding class_or_interface is_enum is_numeric
assignable r from to =
    if id_eq from tid_unknown || id_eq to tid_unknown
    then some true
    else if id_eq from to
    then some true
    else if id_eq to tid_object
    then some true
    else if id_eq from tid_object
        && (id_eq to tid_str || id_eq to tid_list || id_eq to tid_dict || class_or_interface r to)
    then some true
    else if id_eq from tid_null
    then some
        (class_or_interface r to || id_eq to tid_list || id_eq to tid_dict || id_eq to tid_str)
    else if is_numeric from && is_numeric to
    then some true
    else if id_eq from tid_list && id_eq to tid_tuple
    then some true
    else if nonneg from && is_enum r from && (id_eq to tid_int || id_eq to tid_long)
    then some true
    else if nonneg to && is_enum r to && (id_eq from tid_int || id_eq from tid_long)
    then some true
    else is_subtype r from to

-- The local `rank` of `unify`.
unfoldable pub rank : TypeId → ℕ
rank t =
    if id_eq t tid_bool
    then 1
    else if id_eq t tid_int
    then 2
    else if id_eq t tid_long
    then 3
    else if id_eq t tid_real
    then 4
    else if id_eq t tid_double
    then 5
    else 0

unfoldable pub unify : TypeRegistry → TypeId → TypeId → Option TypeId
unfolding rank
unify r a b =
    if id_eq a tid_unknown
    then some b
    else if id_eq b tid_unknown
    then some a
    else if id_eq a b
    then some a
    else if id_eq a tid_null
    then some b
    else if id_eq b tid_null
    then some a
    else if ltb 0 (rank a) && ltb 0 (rank b)
    then some (if leb (rank b) (rank a) then a else b)
    else elim (is_subtype r a b) [
      | none ↦ none
      | some true ↦ some b
      | some false ↦ elim (is_subtype r b a) [
        | none ↦ none
        | some true ↦ some a
        | some false ↦ some tid_object
      ]
    ]

abbrev pub in_range : TypeRegistry → TypeId → Bool
in_range r (pos n) = ltb n (length r.types)
in_range r (negsuc n) = false

unfoldable pub set_parent : TypeId → TypeId → TypeRegistry → TypeRegistry
unfolding update_info
set_parent child parent r =
    if in_range r child then update_info (λ ti. record ti { parent = parent }) child r else r

unfoldable pub add_interface : TypeId → TypeId → TypeRegistry → TypeRegistry
unfolding update_info
add_interface cls iface r =
    if in_range r cls
    then update_info (λ ti. record ti { ifaces = ti.ifaces ++ (iface ∷ []) }) cls r
    else r

abbrev pub mem_id : TypeId → List TypeId → Bool
mem_id x [] = false
mem_id x (y ∷ ys) = id_eq y x || mem_id x ys

-- The recursion of `satisfies` takes the fuel of the walks.
unfoldable pub satisfies_in : ℕ → TypeRegistry → TypeId → TypeId → Option Bool
satisfies_in zero r cls iface = none
satisfies_in (suc fuel) r cls iface =
    let par = (info r cls).parent in
    let rest = satisfies_in fuel r par iface in
    if id_eq cls iface || id_eq iface tid_object
    then some true
    else if id_eq cls tid_unknown || id_eq iface tid_unknown
    then some true
    else if in_range r cls
    then (if mem_id iface (info r cls).ifaces
        then some true
        else if id_eq par cls
        then some false
        else if nonneg par
        then rest
        else some false)
    else some false

unfoldable pub satisfies : TypeRegistry → TypeId → TypeId → Option Bool
satisfies r cls iface = satisfies_in (walk_fuel r) r cls iface

-- Writes to the fields of a function type.
abbrev pub with_return : TypeId → TypeInfo → TypeInfo
with_return t ti = record ti { return_type = t }

abbrev pub with_params : List TypeId → TypeInfo → TypeInfo
with_params ts ti = record ti { param_types = ti.param_types ++ ts }

abbrev pub with_signature : TypeId → List TypeId → TypeInfo → TypeInfo
with_signature t ts ti = record ti { return_type = t; param_types = ti.param_types ++ ts }

unfoldable pub name_of : TypeRegistry → TypeId → String
name_of r id =
    if id_eq id tid_unknown
    then "<unknown>"
    else if in_range r id
    then (info r id).name
    else "<invalid>"
