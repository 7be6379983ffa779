-- ===== src/Savanna/Errors/Sqlstates.antt =====
-- component/database-savanna/providers/postgresql-elephant/errors/detail/sqlstate_mapping.inl.
-- The chains of tests on a SQLSTATE are lists of rules, of which the first that fits decides.
pub mod Laws
pub mod Tests
use menagerie.Prelude.{
  ℕ, zero, suc, ◌+◌, ◌-◌, ◌*◌, ◌/◌, ◌%◌, ◌^◌, ◌≤◌, ◌<◌, min, max, String, ◌≡◌, refl, sym, ap, subst,
  ◌∙◌, ◌≡⟨◌⟩◌, ◌∎, ◌≢◌, ◌↔◌, ◌⊎◌, inl, inr, Bool, true, false, not, ◌&&◌, ◌||◌, Option, none, some,
  List, [], ◌∷◌, ◌++◌, map, append_assoc, append-nil, arith, ltb, leb, ◌==◌, if◌then◌else◌, ltb→lt,
  lt→ltb, leb→le, ==_iff, ==-eq-false, tests, Bool-cases, Option-cases, and-eq-true, length,
  get_elem?, take, drop, is_empty, any, length-append, take-append-drop, length-take, length-drop,
  All, All-append, All-map, Bytes, bytes, bytes_eq, bytes_eq_refl, bytes_eq_iff, last?, pop_back,
  pop_back-append-last, last?-append-last, is_empty-append, append-eq-nil, Result, ok, err, ◌>>=◌,
  throw_if, Result-cases, throw_if-eq-ok, bind-eq-ok, ok-injective, some-injective, map-eq-some,
}
use menagerie.Savanna.Errors.{
  ErrorCode, client_error, server_error, fatal_error, client_value, server_value, fatal_value,
  unexpected_state, authentication_error, check_violation, column_not_found, configuration_error,
  configuration_limit, connection_error, connection_lost, constraint_violation, corruption_detected,
  data_error, data_too_long, database_not_found, deadlock_detected, disk_full, division_by_zero,
  exclusion_violation, foreign_key_violation, function_not_found, internal_error, invalid_argument,
  invalid_datetime, invalid_encoding, invalid_option, invalid_parameter, invalid_state,
  invalid_text_format, lock_timeout, no_active_transaction, not_connected, not_null_violation,
  numeric_overflow, object_not_found, out_of_memory, permission_denied, protocol_violation,
  query_too_complex, resource_error, runtime_error, schema_not_found, serialization_failure,
  statement_timeout, syntax_error, table_not_found, too_many_connections, transaction_aborted,
  transaction_active, transaction_error, transaction_rollback, type_mismatch, unique_violation,
}

pub data StateTest : Type 0 where
  is starts_with : Bytes → StateTest

abbrev pub begins_with : Bytes → Bytes → Bool
begins_with [] s = true
begins_with (c ∷ cs) [] = false
begins_with (c ∷ cs) (d ∷ s) = c == d && begins_with cs s

abbrev pub matches : StateTest → Bytes → Bool
matches (is state) s = bytes_eq s state
matches (starts_with state) s = begins_with state s

pub record ClassRule : Type 0 where
  pub error_class : Bytes
  pub states : List (StateTest × ErrorCode)
  pub otherwise : ErrorCode

abbrev rule : String → List (StateTest × ErrorCode) → ErrorCode → ClassRule
rule error_class states otherwise = record {
  error_class = bytes error_class;
  states = states;
  otherwise = otherwise;
}

abbrev state : String → ErrorCode → StateTest × ErrorCode
state s e = (is (bytes s), e)

unfoldable pub classes : List ClassRule
unfolding client_value server_value fatal_value
classes =
    rule "08"
      (state "08000" (server_error connection_error)
        ∷ state "08003" (client_error not_connected)
        ∷ state "08006" (server_error connection_lost)
        ∷ state "08P01" (fatal_error protocol_violation)
        ∷ [])
      (server_error connection_error)
    ∷ rule "0A" ([]) (client_error invalid_option)
    ∷ rule "20" ([]) (server_error object_not_found)
    ∷ rule "21" ([]) (server_error data_error)
    ∷ rule "22"
        (state "22000" (server_error data_error)
          ∷ state "22001" (server_error data_too_long)
          ∷ state "22003" (server_error numeric_overflow)
          ∷ state "22007" (server_error invalid_datetime)
          ∷ state "22008" (server_error invalid_datetime)
          ∷ state "22012" (server_error division_by_zero)
          ∷ state "22P02" (server_error invalid_text_format)
          ∷ state "22P03" (server_error invalid_encoding)
          ∷ state "22P04" (server_error invalid_text_format)
          ∷ [])
        (server_error data_error)
    ∷ rule "23"
        (state "23000" (server_error constraint_violation)
          ∷ state "23001" (server_error constraint_violation)
          ∷ state "23502" (server_error not_null_violation)
          ∷ state "23503" (server_error foreign_key_violation)
          ∷ state "23505" (server_error unique_violation)
          ∷ state "23514" (server_error check_violation)
          ∷ state "23P01" (server_error exclusion_violation)
          ∷ [])
        (server_error constraint_violation)
    ∷ rule "24" ([]) (client_error invalid_state)
    ∷ rule "25"
        (state "25001" (client_error transaction_active)
          ∷ state "25P01" (client_error no_active_transaction)
          ∷ state "25P02" (client_error transaction_active)
          ∷ state "25P03" (client_error no_active_transaction)
          ∷ [])
        (client_error invalid_state)
    ∷ rule "26" ([]) (client_error invalid_argument)
    ∷ rule "28" ([]) (client_error authentication_error)
    ∷ rule "2B" ([]) (server_error constraint_violation)
    ∷ rule "2D" ([]) (server_error transaction_error)
    ∷ rule "2F" ([]) (server_error runtime_error)
    ∷ rule "34" ([]) (client_error invalid_argument)
    ∷ rule "38" ([]) (server_error runtime_error)
    ∷ rule "39" ([]) (server_error runtime_error)
    ∷ rule "3B" ([]) (server_error transaction_error)
    ∷ rule "3D" ([]) (server_error database_not_found)
    ∷ rule "3F" ([]) (server_error schema_not_found)
    ∷ rule "40"
        (state "40001" (server_error serialization_failure)
          ∷ state "40002" (server_error transaction_aborted)
          ∷ state "40003" (server_error transaction_aborted)
          ∷ state "40P01" (server_error deadlock_detected)
          ∷ [])
        (server_error transaction_rollback)
    ∷ rule "42"
        (state "42501" (server_error permission_denied)
          ∷ state "42601" (client_error syntax_error)
          ∷ state "42703" (server_error column_not_found)
          ∷ state "42704" (server_error object_not_found)
          ∷ state "42804" (client_error type_mismatch)
          ∷ state "42846" (client_error type_mismatch)
          ∷ state "42P18" (client_error type_mismatch)
          ∷ state "42830" (server_error permission_denied)
          ∷ state "42883" (server_error function_not_found)
          ∷ state "42P01" (server_error table_not_found)
          ∷ state "42P02" (client_error invalid_parameter)
          ∷ state "42P04" (server_error database_not_found)
          ∷ state "42P06" (server_error schema_not_found)
          ∷ state "42P15" (server_error schema_not_found)
          ∷ [])
        (client_error syntax_error)
    ∷ rule "44" ([]) (server_error check_violation)
    ∷ rule "53"
        (state "53100" (server_error disk_full)
          ∷ state "53200" (server_error out_of_memory)
          ∷ state "53300" (server_error too_many_connections)
          ∷ state "53400" (server_error configuration_limit)
          ∷ [])
        (server_error resource_error)
    ∷ rule "54"
        (state "54001" (server_error query_too_complex)
          ∷ state "54011" (server_error too_many_connections)
          ∷ state "54023" (server_error too_many_connections)
          ∷ [])
        (server_error configuration_limit)
    ∷ rule "55"
        (state "55P02" (server_error lock_timeout) ∷ state "55P03" (server_error lock_timeout) ∷ [])
        (client_error invalid_state)
    ∷ rule "57"
        (state "57014" (server_error statement_timeout)
          ∷ (starts_with (bytes "57P"), server_error connection_error)
          ∷ [])
        (server_error runtime_error)
    ∷ rule "58" (state "58030" (fatal_error corruption_detected) ∷ []) (fatal_error internal_error)
    ∷ rule "F0" ([]) (client_error configuration_error)
    ∷ rule "HV" ([]) (server_error runtime_error)
    ∷ rule "P0"
        (state "P0002" (server_error object_not_found)
          ∷ state "P0003" (server_error data_error)
          ∷ state "P0004" (client_error invalid_parameter)
          ∷ [])
        (server_error runtime_error)
    ∷ rule "XX"
        (state "XX001" (fatal_error corruption_detected)
          ∷ state "XX002" (fatal_error corruption_detected)
          ∷ [])
        (fatal_error internal_error)
    ∷ []

abbrev pub state_code : Bytes → List (StateTest × ErrorCode) → ErrorCode → ErrorCode
state_code s [] otherwise = otherwise
state_code s ((test, e) ∷ rest) otherwise =
    let later = state_code s rest otherwise in if matches test s then e else later

abbrev pub class_code : Bytes → Bytes → List ClassRule → ErrorCode
class_code s error_class [] = fatal_error unexpected_state
class_code s error_class (r ∷ rules) =
    let later = class_code s error_class rules in
    let here = state_code s r.states r.otherwise in
    if bytes_eq error_class r.error_class then here else later

unfoldable pub map_sqlstate : Bytes → Option ErrorCode
unfolding classes
map_sqlstate s =
    if is_empty s || bytes_eq s (bytes "00000")
    then none
    else if bytes_eq (take 2 s) (bytes "00")
    then none
    else some (class_code s (take 2 s) classes)
