-- ===== src/Savanna/Errors.antt =====
-- component/database-savanna/base/errors/db_error_codes.hpp: the error codes.
pub mod Sqlstates
use menagerie.Prelude.{
  ℕ, zero, suc, ◌+◌, ◌-◌, ◌*◌, ◌/◌, ◌%◌, ◌^◌, ◌≤◌, ◌<◌, min, max, String, ◌≡◌, refl, sym, ap, subst,
  ◌∙◌, ◌≡⟨◌⟩◌, ◌∎, ◌≢◌, ◌↔◌, ◌⊎◌, inl, inr, Bool, true, false, not, ◌&&◌, ◌||◌, Option, none, some,
  List, [], ◌∷◌, ◌++◌, map, append_assoc, append-nil, arith, ltb, leb, ◌==◌, if◌then◌else◌, ltb→lt,
  lt→ltb, leb→le, ==_iff, ==-eq-false, tests, Bool-cases, Option-cases, and-eq-true, length,
  get_elem?, take, drop, is_empty, any, length-append, take-append-drop, length-take, length-drop,
  All, All-append, All-map, Bytes, bytes, bytes_eq, bytes_eq_refl, bytes_eq_iff, last?, pop_back,
  pop_back-append-last, last?-append-last, is_empty-append, append-eq-nil, Result, ok, err, ◌>>=◌,
  throw_if, Result-cases, throw_if-eq-ok, bind-eq-ok, ok-injective, some-injective, map-eq-some,
}

pub data ClientErrorCode : Type 0 where
  client_success invalid_argument syntax_error invalid_parameter type_mismatch null_conversion
        invalid_cast out_of_range configuration_error connection_string_error authentication_error
        invalid_option missing_parameter invalid_state not_connected already_connected
        transaction_active no_active_transaction pool_exhausted pool_shutdown wait_timeout :
      ClientErrorCode

pub data ServerErrorCode : Type 0 where
  server_success runtime_error connection_error connection_lost connection_timeout
        connection_refused deadlock_detected lock_timeout statement_timeout serialization_failure
        constraint_violation unique_violation foreign_key_violation check_violation
        not_null_violation exclusion_violation data_error data_too_long numeric_overflow
        division_by_zero invalid_datetime invalid_encoding invalid_text_format access_error
        permission_denied object_not_found database_not_found table_not_found column_not_found
        schema_not_found function_not_found resource_error out_of_memory disk_full
        too_many_connections configuration_limit query_too_complex transaction_error
        transaction_rollback transaction_aborted invalid_isolation_level :
      ServerErrorCode

pub data FatalErrorCode : Type 0 where
  internal_error corruption_detected protocol_violation assertion_failure unexpected_state :
      FatalErrorCode

unfoldable pub client_value : ClientErrorCode → ℕ
client_value client_success = 0
client_value invalid_argument = 100
client_value syntax_error = 101
client_value invalid_parameter = 102
client_value type_mismatch = 103
client_value null_conversion = 104
client_value invalid_cast = 105
client_value out_of_range = 106
client_value configuration_error = 200
client_value connection_string_error = 201
client_value authentication_error = 202
client_value invalid_option = 203
client_value missing_parameter = 204
client_value invalid_state = 300
client_value not_connected = 301
client_value already_connected = 302
client_value transaction_active = 303
client_value no_active_transaction = 304
client_value pool_exhausted = 310
client_value pool_shutdown = 311
client_value wait_timeout = 312

unfoldable pub server_value : ServerErrorCode → ℕ
server_value server_success = 0
server_value runtime_error = 100
server_value connection_error = 110
server_value connection_lost = 111
server_value connection_timeout = 112
server_value connection_refused = 113
server_value deadlock_detected = 120
server_value lock_timeout = 121
server_value statement_timeout = 122
server_value serialization_failure = 123
server_value constraint_violation = 200
server_value unique_violation = 201
server_value foreign_key_violation = 202
server_value check_violation = 203
server_value not_null_violation = 204
server_value exclusion_violation = 205
server_value data_error = 300
server_value data_too_long = 301
server_value numeric_overflow = 302
server_value division_by_zero = 303
server_value invalid_datetime = 304
server_value invalid_encoding = 305
server_value invalid_text_format = 306
server_value access_error = 400
server_value permission_denied = 401
server_value object_not_found = 402
server_value database_not_found = 403
server_value table_not_found = 404
server_value column_not_found = 405
server_value schema_not_found = 406
server_value function_not_found = 407
server_value resource_error = 500
server_value out_of_memory = 501
server_value disk_full = 502
server_value too_many_connections = 503
server_value configuration_limit = 504
server_value query_too_complex = 505
server_value transaction_error = 600
server_value transaction_rollback = 601
server_value transaction_aborted = 602
server_value invalid_isolation_level = 603

unfoldable pub fatal_value : FatalErrorCode → ℕ
fatal_value internal_error = 1
fatal_value corruption_detected = 2
fatal_value protocol_violation = 3
fatal_value assertion_failure = 4
fatal_value unexpected_state = 5

pub client_to_string : ClientErrorCode → Bytes
client_to_string client_success = bytes "Success"
client_to_string invalid_argument = bytes "InvalidArgument"
client_to_string syntax_error = bytes "SyntaxError"
client_to_string invalid_parameter = bytes "InvalidParameter"
client_to_string type_mismatch = bytes "TypeMismatch"
client_to_string null_conversion = bytes "NullConversion"
client_to_string invalid_cast = bytes "InvalidCast"
client_to_string out_of_range = bytes "OutOfRange"
client_to_string configuration_error = bytes "ConfigurationError"
client_to_string connection_string_error = bytes "ConnectionStringError"
client_to_string authentication_error = bytes "AuthenticationError"
client_to_string invalid_option = bytes "InvalidOption"
client_to_string missing_parameter = bytes "MissingParameter"
client_to_string invalid_state = bytes "InvalidState"
client_to_string not_connected = bytes "NotConnected"
client_to_string already_connected = bytes "AlreadyConnected"
client_to_string transaction_active = bytes "TransactionActive"
client_to_string no_active_transaction = bytes "NoActiveTransaction"
client_to_string pool_exhausted = bytes "PoolExhausted"
client_to_string pool_shutdown = bytes "PoolShutdown"
client_to_string wait_timeout = bytes "WaitTimeout"

pub server_to_string : ServerErrorCode → Bytes
server_to_string server_success = bytes "Success"
server_to_string runtime_error = bytes "RuntimeError"
server_to_string connection_error = bytes "ConnectionError"
server_to_string connection_lost = bytes "ConnectionLost"
server_to_string connection_timeout = bytes "ConnectionTimeout"
server_to_string connection_refused = bytes "ConnectionRefused"
server_to_string deadlock_detected = bytes "DeadlockDetected"
server_to_string lock_timeout = bytes "LockTimeout"
server_to_string statement_timeout = bytes "StatementTimeout"
server_to_string serialization_failure = bytes "SerializationFailure"
server_to_string constraint_violation = bytes "ConstraintViolation"
server_to_string unique_violation = bytes "UniqueViolation"
server_to_string foreign_key_violation = bytes "ForeignKeyViolation"
server_to_string check_violation = bytes "CheckViolation"
server_to_string not_null_violation = bytes "NotNullViolation"
server_to_string exclusion_violation = bytes "ExclusionViolation"
server_to_string data_error = bytes "DataError"
server_to_string data_too_long = bytes "DataTooLong"
server_to_string numeric_overflow = bytes "NumericOverflow"
server_to_string division_by_zero = bytes "DivisionByZero"
server_to_string invalid_datetime = bytes "InvalidDatetime"
server_to_string invalid_encoding = bytes "InvalidEncoding"
server_to_string invalid_text_format = bytes "InvalidTextFormat"
server_to_string access_error = bytes "AccessError"
server_to_string permission_denied = bytes "PermissionDenied"
server_to_string object_not_found = bytes "ObjectNotFound"
server_to_string database_not_found = bytes "DatabaseNotFound"
server_to_string table_not_found = bytes "TableNotFound"
server_to_string column_not_found = bytes "ColumnNotFound"
server_to_string schema_not_found = bytes "SchemaNotFound"
server_to_string function_not_found = bytes "FunctionNotFound"
server_to_string resource_error = bytes "ResourceError"
server_to_string out_of_memory = bytes "OutOfMemory"
server_to_string disk_full = bytes "DiskFull"
server_to_string too_many_connections = bytes "TooManyConnections"
server_to_string configuration_limit = bytes "ConfigurationLimit"
server_to_string query_too_complex = bytes "QueryTooComplex"
server_to_string transaction_error = bytes "TransactionError"
server_to_string transaction_rollback = bytes "TransactionRollback"
server_to_string transaction_aborted = bytes "TransactionAborted"
server_to_string invalid_isolation_level = bytes "InvalidIsolationLevel"

pub fatal_to_string : FatalErrorCode → Bytes
fatal_to_string internal_error = bytes "InternalError"
fatal_to_string corruption_detected = bytes "CorruptionDetected"
fatal_to_string protocol_violation = bytes "ProtocolViolation"
fatal_to_string assertion_failure = bytes "AssertionFailure"
fatal_to_string unexpected_state = bytes "UnexpectedState"

pub client_description : ClientErrorCode → Bytes
client_description client_success = bytes "Operation completed successfully"
client_description invalid_argument = bytes "Invalid argument provided to function"
client_description syntax_error = bytes "SQL syntax error in query"
client_description invalid_parameter = bytes "Invalid parameter value"
client_description type_mismatch = bytes "Type mismatch between expected and actual value"
client_description null_conversion = bytes "Attempted to convert NULL to non-nullable type"
client_description invalid_cast = bytes "Invalid type cast operation"
client_description out_of_range = bytes "Value out of valid range"
client_description configuration_error = bytes "Database configuration error"
client_description connection_string_error = bytes "Invalid or malformed connection string"
client_description authentication_error = bytes "Authentication credentials invalid or missing"
client_description invalid_option = bytes "Invalid configuration option"
client_description missing_parameter = bytes "Required parameter is missing"
client_description invalid_state = bytes "Operation invalid in current state"
client_description not_connected = bytes "Not connected to database"
client_description already_connected = bytes "Already connected to database"
client_description transaction_active = bytes "Transaction already active"
client_description no_active_transaction = bytes "No active transaction"
client_description pool_exhausted = bytes "Connection pool exhausted, no available connections"
client_description pool_shutdown = bytes "Connection pool has been shut down"
client_description wait_timeout =
    bytes "Timed wait on a blocking pool expired before a connection became available"

pub server_description : ServerErrorCode → Bytes
server_description server_success = bytes "Operation completed successfully"
server_description runtime_error = bytes "Runtime error on database server"
server_description connection_error = bytes "Error establishing connection to database"
server_description connection_lost = bytes "Connection to database was lost"
server_description connection_timeout = bytes "Connection attempt timed out"
server_description connection_refused = bytes "Connection refused by database server"
server_description deadlock_detected = bytes "Deadlock detected, transaction aborted"
server_description lock_timeout = bytes "Timeout waiting for lock"
server_description statement_timeout = bytes "Statement execution timeout"
server_description serialization_failure = bytes "Transaction serialization failure"
server_description constraint_violation = bytes "Database constraint violation"
server_description unique_violation = bytes "Unique constraint violation"
server_description foreign_key_violation = bytes "Foreign key constraint violation"
server_description check_violation = bytes "Check constraint violation"
server_description not_null_violation = bytes "NOT NULL constraint violation"
server_description exclusion_violation = bytes "Exclusion constraint violation"
server_description data_error = bytes "Data error in query or result"
server_description data_too_long = bytes "Data too long for column"
server_description numeric_overflow = bytes "Numeric value overflow"
server_description division_by_zero = bytes "Division by zero"
server_description invalid_datetime = bytes "Invalid datetime value"
server_description invalid_encoding = bytes "Invalid character encoding"
server_description invalid_text_format = bytes "Invalid text representation"
server_description access_error = bytes "Database access error"
server_description permission_denied = bytes "Permission denied for operation"
server_description object_not_found = bytes "Database object not found"
server_description database_not_found = bytes "Database does not exist"
server_description table_not_found = bytes "Table does not exist"
server_description column_not_found = bytes "Column does not exist"
server_description schema_not_found = bytes "Schema does not exist"
server_description function_not_found = bytes "Function does not exist"
server_description resource_error = bytes "Database resource error"
server_description out_of_memory = bytes "Database server out of memory"
server_description disk_full = bytes "Database disk full"
server_description too_many_connections = bytes "Too many database connections"
server_description configuration_limit = bytes "Database configuration limit exceeded"
server_description query_too_complex = bytes "Query too complex to execute"
server_description transaction_error = bytes "Transaction error"
server_description transaction_rollback = bytes "Transaction rolled back"
server_description transaction_aborted = bytes "Transaction aborted"
server_description invalid_isolation_level = bytes "Invalid transaction isolation level"

pub fatal_description : FatalErrorCode → Bytes
fatal_description internal_error = bytes "Internal database driver error"
fatal_description corruption_detected = bytes "Data corruption detected"
fatal_description protocol_violation = bytes "Database protocol violation"
fatal_description assertion_failure = bytes "Internal assertion failed"
fatal_description unexpected_state = bytes "Unexpected internal state"

pub data Category : Type 0 where
  success client server fatal : Category

pub record ErrorCode : Type 0 where
  pub category : Category
  pub code : ℕ

abbrev pub client_error : ClientErrorCode → ErrorCode
client_error c = record { category = client; code = client_value c }

abbrev pub server_error : ServerErrorCode → ErrorCode
server_error c = record { category = server; code = server_value c }

abbrev pub fatal_error : FatalErrorCode → ErrorCode
fatal_error c = record { category = fatal; code = fatal_value c }

abbrev pub retryable_server : ℕ → Bool
retryable_server code =
    if leb 100 code && ltb code 200
    then true
    else if leb 500 code && ltb code 600
    then true
    else if leb 600 code && ltb code 700
    then code == 601 || code == 602
    else false

unfoldable pub is_retryable : ErrorCode → Bool
is_retryable e = elim e.category [
  | success ↦ false
  | client ↦ false
  | server ↦ retryable_server e.code
  | fatal ↦ false
]
