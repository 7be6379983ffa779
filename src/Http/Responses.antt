-- ===== src/Http/Responses.antt =====
-- component/http-albatross: status codes (types/enums), responses (types/response), the response
-- factory (types/response_factory) and the errors' conversions (types/errors).
-- A response's headers are the owned ones; its body is none or a string. Allocators are left out.
pub mod Laws
pub mod Tests
use menagerie.Prelude.{
  ℕ, zero, suc, ◌+◌, ◌-◌, ◌*◌, ◌/◌, ◌%◌, ◌^◌, ◌≤◌, ◌<◌, min, max, String, ◌≡◌, refl, sym, ap, subst,
  ◌∙◌, ◌≡⟨◌⟩◌, ◌∎, ◌≢◌, ◌↔◌, ◌⊎◌, inl, inr, Bool, true, false, not, ◌&&◌, ◌||◌, Option, none, some,
  List, [], ◌∷◌, ◌++◌, map, append_assoc, append-nil, arith, ltb, leb, ◌==◌, if◌then◌else◌, ltb→lt,
  lt→ltb, leb→le, ==_iff, ==-eq-false, tests, Bool-cases, Option-cases, and-eq-true, length,
  get_elem?, take, drop, is_empty, any, length-append, take-append-drop, length-take, length-drop,
  All, All-append, All-map, Bytes, bytes, bytes_eq, bytes_eq_refl, bytes_eq_iff, last?, pop_back,
  pop_back-append-last, last?-append-last, is_empty-append, append-eq-nil, Result, ok, err, ◌>>=◌,
  throw_if, Result-cases, throw_if-eq-ok, bind-eq-ok, ok-injective, some-injective, map-eq-some,
}
use menagerie.Http.Method.{HttpMethod, to_string_view, HttpVersion, http_1_1}
use menagerie.Http.Headers.{Field}

pub data HttpStatus : Type 0 where
  okay created accepted no_content : HttpStatus
  moved_permanently found see_other not_modified : HttpStatus
  temporary_redirect permanent_redirect : HttpStatus
  bad_request unauthorized forbidden not_found : HttpStatus
  method_not_allowed conflict gone payload_too_large : HttpStatus
  unsupported_media_type unprocessable_entity too_many_requests : HttpStatus
  internal_server_error not_implemented bad_gateway : HttpStatus
  service_unavailable gateway_timeout : HttpStatus

-- The enumerators' values.
pub status_code : HttpStatus → ℕ
status_code okay = 200
status_code created = 201
status_code accepted = 202
status_code no_content = 204
status_code moved_permanently = 301
status_code found = 302
status_code see_other = 303
status_code not_modified = 304
status_code temporary_redirect = 307
status_code permanent_redirect = 308
status_code bad_request = 400
status_code unauthorized = 401
status_code forbidden = 403
status_code not_found = 404
status_code method_not_allowed = 405
status_code conflict = 409
status_code gone = 410
status_code payload_too_large = 413
status_code unsupported_media_type = 415
status_code unprocessable_entity = 422
status_code too_many_requests = 429
status_code internal_server_error = 500
status_code not_implemented = 501
status_code bad_gateway = 502
status_code service_unavailable = 503
status_code gateway_timeout = 504

pub record Response : Type 0 where
  pub status : HttpStatus
  pub version : HttpVersion
  pub keep_alive : Bool
  pub headers : List Field
  pub body : Option Bytes

abbrev pub new_response : Response
new_response = record {
  status = okay;
  version = http_1_1;
  keep_alive = true;
  headers = [];
  body = none;
}

abbrev pub add_header : Bytes → Bytes → Response → Response
add_header n v r = record r { headers = r.headers ++ (n, v) ∷ [] }

unfoldable pub with_body : HttpStatus → Bytes → Bytes → Response
with_body s body ct = record (add_header (bytes "Content-Type") ct new_response) {
  status = s;
  body = some body;
}

abbrev pub plain : HttpStatus → Bytes → Response
plain s body = with_body s body (bytes "text/plain")

abbrev pub ok_response : Bytes → Bytes → Response
ok_response body ct = with_body okay body ct

abbrev pub json_response : Bytes → Response
json_response body = with_body okay body (bytes "application/json")

abbrev pub created_response : Bytes → Bytes → Response
created_response body ct = with_body created body ct

abbrev pub no_content_response : Response
no_content_response = record new_response { status = no_content }

abbrev pub custom_response : HttpStatus → Bytes → Bytes → Response
custom_response status body ct = with_body status body ct

unfoldable pub redirect : Bytes → HttpStatus → Response
redirect location status =
    add_header (bytes "Location") location (record new_response { status = status })

-- The loop over the allowed methods: `v` so far, and whether it is still the first.
unfoldable pub allow_value : Bytes → Bool → List HttpMethod → Bytes
unfolding to_string_view
allow_value v first [] = v
allow_value v first (m ∷ allow) =
    allow_value ((if first then v else v ++ bytes ", ") ++ to_string_view m) false allow

unfoldable pub response_405 : List HttpMethod → Response
unfolding allow_value
response_405 allow =
    add_header (bytes "Allow") (allow_value [] true allow)
      (record new_response { status = method_not_allowed })

pub record FieldError : Type 0 where
  pub field : Bytes
  pub detail : Bytes

-- The error types with a conversion of their own.
pub data HttpError : Type 0 where
  bad_request_error unauthorized_error forbidden_error conflict_error : Bytes → HttpError
  not_found_error : Bytes → Bytes → HttpError
  unprocessable_entity_error : Bytes → List FieldError → HttpError
  payload_too_large_error body_limit_exceeded : ℕ → HttpError
  method_not_allowed_error : List HttpMethod → HttpError
  json_parse_error form_parse_error multipart_parse_error : Bytes → HttpError

-- `os << "\n" << field << ": " << detail`, for each field.
unfoldable pub field_lines : Bytes → List FieldError → Bytes
field_lines os [] = os
field_lines os (e ∷ fields) =
    field_lines (os ++ (bytes "\n" ++ (e.field ++ (bytes ": " ++ e.detail)))) fields

-- `decimal` is how a stream prints a number.
unfoldable pub to_http_response : (ℕ → Bytes) → HttpError → Response
unfolding with_body response_405 field_lines
to_http_response decimal (bad_request_error message) = plain bad_request message
to_http_response decimal (unauthorized_error message) = plain unauthorized message
to_http_response decimal (forbidden_error message) = plain forbidden message
to_http_response decimal (not_found_error resource id) =
    plain not_found (
      (if not (is_empty id) then (resource ++ bytes " ") ++ id else resource) ++ bytes " not found")
to_http_response decimal (conflict_error message) = plain conflict message
to_http_response decimal (unprocessable_entity_error message fields) =
    plain unprocessable_entity (field_lines message fields)
to_http_response decimal (payload_too_large_error limit) =
    plain payload_too_large
      (bytes "Payload Too Large (limit " ++ (decimal limit ++ bytes " bytes)"))
to_http_response decimal (method_not_allowed_error allowed) = response_405 allowed
to_http_response decimal (json_parse_error detail) =
    plain bad_request (bytes "JSON parse error: " ++ detail)
to_http_response decimal (form_parse_error detail) =
    plain bad_request (bytes "Form parse error: " ++ detail)
to_http_response decimal (multipart_parse_error detail) =
    plain bad_request (bytes "Multipart parse error: " ++ detail)
to_http_response decimal (body_limit_exceeded limit) =
    plain payload_too_large (bytes "Body Limit Exceeded (" ++ (decimal limit ++ bytes " bytes)"))
