-- ===== src/Diagnostics.antt =====
-- What src/sema/sema.cpp and src/sema/generics.cpp report, and Driver::error and Driver::warning of src/driver/driver.cpp.
-- A message is a constructor with the values that the source prints into its text. Printing itself
-- (emit_diagnostic) is left out: the driver keeps a log, the newest entry first.
use dux_lang.Prelude.{ℕ, ◌+◌, String, Bool, List, ◌∷◌, leb}
use dux_lang.Ast.{SourceLoc}

-- The `ctx` texts of the require_ helpers.
pub data Context : Type 0 where
  if_condition while_condition do_while_condition assert_condition : Context
  for_init return_value assignment str_append compound_target compound_value : Context
  range_start range_end : Context
  left_operand right_operand unary_operand : String → Context
  variable_initialiser field_initialiser : String → Context
  -- the number, from 1, and the function
  argument : ℕ → String → Context

pub data Message : Type 0 where
  cannot_assign : Context → String → String → Message
  expected_numeric : Context → String → Message
  expected_bool : Context → String → Message
  function_redeclared enum_redeclared class_redeclared interface_redeclared : String → Message
  variable_redeclared duplicate_parameter : String → Message
  unknown_base not_a_base : String → Message
  -- class, interface, method
  missing_method : String → String → String → Message
  unknown_return_type : String → String → Message
  break_outside_loop continue_outside_loop : Message
  for_in_needs_list not_an_enum : String → Message
  -- enum, variant
  no_variant : String → String → Message
  cannot_hold_enum cannot_hold_bool : Message
  pattern_enum_mismatch : String → Message
  missing_return_value fn_variable thread_local_scope thread_local_constant : Message
  const_needs_initializer : String → Message
  delete_numeric : Message
  undefined_identifier undefined_function assign_to_const async_needs_await : String → Message
  this_in_static : Message
  left_of_concat right_of_concat left_of_list_concat right_of_list_concat : String → Message
  comparing : String → String → Message
  needs_integral list_index : String → Message
  -- function, expected, given
  argument_count : String → ℕ → ℕ → Message
  -- type, member
  no_member : String → String → Message
  unknown_new_type : String → Message
  -- type, interface, parameter
  missing_bound : String → String → String → Message

pub data Severity : Type 0 where
  error warning : Severity

pub record Diagnostic : Type 0 where
  pub severity : Severity
  pub loc : SourceLoc
  pub message : Message

pub record Driver : Type 0 where
  pub error_count : ℕ
  pub log : List Diagnostic

abbrev pub max_errors : ℕ
max_errors = 20

abbrev pub emit : Severity → SourceLoc → Message → Driver → Driver
emit severity loc message d = record d {
  log = record { severity = severity; loc = loc; message = message } ∷ d.log;
}

-- The driver after the report, and whether it throws DiagnosticAbort.
unfoldable pub driver_error : SourceLoc → Message → Driver → Driver × Bool
driver_error loc message d =
    let d' = record (emit error loc message d) { error_count = d.error_count + 1 } in
    (d', leb max_errors d'.error_count)

unfoldable pub driver_warning : SourceLoc → Message → Driver → Driver
driver_warning loc message d = emit warning loc message d
