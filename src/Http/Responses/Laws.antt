-- ===== src/Http/Responses/Laws.antt =====
-- Error responses: their status codes, and the Allow header read back.
use menagerie.Prelude.{
  ℕ, ◌≤◌, ◌≡◌, refl, sym, ap, ◌∙◌, inl, inr, Bool, true, false, ◌||◌, List, [], ◌∷◌, ◌++◌,
  append_assoc, append-nil, arith, ◌==◌, if◌then◌else◌, Bool-cases, any, Bytes, bytes,
}
use menagerie.Http.Method.{
  HttpMethod, unknown, get, post, put, patch, del, head, options, to_string_view,
}
use menagerie.Http.Responses.{
  status_code, with_body, allow_value, response_405, HttpError, to_http_response, bad_request_error,
  unauthorized_error, forbidden_error, conflict_error, not_found_error, unprocessable_entity_error,
  payload_too_large_error, body_limit_exceeded, method_not_allowed_error, json_parse_error,
  form_parse_error, multipart_parse_error,
}

abbrev comma : ℕ
comma = 44

abbrev space : ℕ
space = 32

abbrev separates : ℕ → Bool
separates c = c == comma || c == space

-- The elements of a comma-separated field value, less the spaces around them.
pub elements : Bytes → Bytes → List Bytes
elements acc [] = acc ∷ []
elements acc (c ∷ r) =
    let next = acc ∷ elements [] r in
    let skipped = elements acc r in
    let longer = elements (acc ++ c ∷ []) r in
    if c == comma then next else if c == space then skipped else longer

elements-name :
    (acc name rest : Bytes)
    → any separates name ≡ false
    → elements acc (name ++ rest) ≡ elements (acc ++ name) rest
unfolding elements
elements-name acc [] rest h = rw (append-nil acc)
elements-name acc (c ∷ name) rest h = elim (Bool-cases (c == comma)) [
  | inl y ↦ let never : true ≡ false = sym (rw y) ∙ h in cc
  | inr n ↦ elim (Bool-cases (c == space)) [
    | inl y ↦ let never : true ≡ false = sym (rw (n, y)) ∙ h in cc
    | inr f ↦
        let rest_free : any separates name ≡ false = sym (rw (n, f)) ∙ h in
        rw (n, f)
          (elements-name (acc ++ c ∷ []) name rest rest_free ∙ rw (append_assoc acc (c ∷ []) name))
  ]
]

to_string_view-free : (m : HttpMethod) → any separates (to_string_view m) ≡ false
unfolding to_string_view
to_string_view-free get = refl
to_string_view-free post = refl
to_string_view-free put = refl
to_string_view-free patch = refl
to_string_view-free del = refl
to_string_view-free head = refl
to_string_view-free options = refl
to_string_view-free unknown = refl

abbrev pub names : List HttpMethod → List Bytes
names [] = []
names (m ∷ ms) = to_string_view m ∷ names ms

abbrev behind : List HttpMethod → Bytes
behind [] = []
behind (m ∷ ms) = comma ∷ space ∷ (to_string_view m ++ behind ms)

allow_value-behind : (v : Bytes) (ms : List HttpMethod) → allow_value v false ms ≡ v ++ behind ms
unfolding allow_value
allow_value-behind v [] = sym (append-nil v)
allow_value-behind v (m ∷ ms) =
    allow_value-behind ((v ++ bytes ", ") ++ to_string_view m) ms
    ∙ rw (
      append_assoc (v ++ bytes ", ") (to_string_view m) (behind ms),
      append_assoc v (bytes ", ") (to_string_view m ++ behind ms),
    )

elements-behind : (acc : Bytes) (ms : List HttpMethod) → elements acc (behind ms) ≡ acc ∷ names ms
unfolding elements
elements-behind acc [] = refl
elements-behind acc (m ∷ ms) =
    ap (λ l. acc ∷ l)
      (elements-name [] (to_string_view m) (behind ms) (to_string_view-free m)
        ∙ elements-behind (to_string_view m) ms)

-- Read back as a comma-separated list, the Allow header of a 405 for at least one method lists
-- exactly the methods' names, in their order.
pub elements-allow_value :
    (m : HttpMethod) (ms : List HttpMethod)
    → elements [] (allow_value [] true (m ∷ ms)) ≡ names (m ∷ ms)
unfolding allow_value
elements-allow_value m ms =
    ap (elements []) (allow_value-behind (to_string_view m) ms)
    ∙ (elements-name [] (to_string_view m) (behind ms) (to_string_view-free m)
        ∙ elements-behind (to_string_view m) ms)

-- Whatever a typed error holds and however numbers print, its response has a 4xx status.
pub to_http_response-status :
    (decimal : ℕ → Bytes) (e : HttpError)
    → let code = status_code (to_http_response decimal e).status in (400 ≤ code) × (code ≤ 499)
unfolding status_code to_http_response with_body response_405
to_http_response-status decimal (bad_request_error message) = (omega arith, omega arith)
to_http_response-status decimal (unauthorized_error message) = (omega arith, omega arith)
to_http_response-status decimal (forbidden_error message) = (omega arith, omega arith)
to_http_response-status decimal (conflict_error message) = (omega arith, omega arith)
to_http_response-status decimal (not_found_error resource id) = (omega arith, omega arith)
to_http_response-status decimal (unprocessable_entity_error m fs) = (omega arith, omega arith)
to_http_response-status decimal (payload_too_large_error limit) = (omega arith, omega arith)
to_http_response-status decimal (body_limit_exceeded limit) = (omega arith, omega arith)
to_http_response-status decimal (method_not_allowed_error ms) = (omega arith, omega arith)
to_http_response-status decimal (json_parse_error detail) = (omega arith, omega arith)
to_http_response-status decimal (form_parse_error detail) = (omega arith, omega arith)
to_http_response-status decimal (multipart_parse_error detail) = (omega arith, omega arith)
