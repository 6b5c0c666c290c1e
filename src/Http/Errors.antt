-- ===== src/Http/Errors.antt =====
-- pkg/http/api_errors.go: the errors that the handlers return and the responses to them, with the
-- reasons of pkg/http/api_validators.go. The text of an error that another package made is part of it.
use Prim.Native.String.{String}
use alice_lg.Common.{ℕ, Bool, ◌++◌, if◌then◌else◌}
use alice_lg.Common.Ints.{pos}
use alice_lg.Common.Texts.{Text, codes, contains, itoa}
use alice_lg.Http.Query.{
  ValidationFailed, missing, ambiguous, empty, query_too_short, query_incomplete,
  source_id_too_long, validate_source_id, valid, invalid,
}

-- The errors, by what apiErrorResponse tells apart: api.ErrTooManyRoutes, ErrTimeout,
-- ErrResourceNotFoundError, url.Error with its text and its Timeout(), ErrValidationFailed, and the
-- others, by their texts
pub data ApiError : Type 0 where
  too_many_routes resource_not_found : ApiError
  timed_out other : Text → ApiError
  url_error : Text → Bool → ApiError
  validation_failed : Text → ApiError

-- The reasons of the validators
unfoldable pub reason_text : ValidationFailed → Text
unfolding itoa
reason_text failed = elim failed.reason [
  | missing ↦ codes "query parameter " ++ codes failed.param ++ codes " is missing"
  | ambiguous ↦ codes "query parameter " ++ codes failed.param ++ codes " is ambiguous"
  | empty ↦ codes "query parameter " ++ codes failed.param ++ codes " is empty"
  | query_too_short ↦ codes "the query is too short"
  | query_incomplete ↦ codes "a prefix query must contain at least a '.' or ':'"
  | source_id_too_long n ↦ codes "source ID too long with length: " ++ itoa (pos n)
]

-- err.Error()
unfoldable pub error_text : ApiError → Text
error_text too_many_routes = codes "too many routes"
error_text resource_not_found = codes "resource not found"
error_text (timed_out e) = e
error_text (other e) = e
error_text (url_error e t) = e
error_text (validation_failed reason) = reason

-- api.ErrorResponse
pub record ErrorResponse : Type 0 where
  pub message : Text
  pub code : ℕ
  pub tag : String
  pub routeserver_id : Text

abbrev error_response : Text → Text → ℕ → String → ErrorResponse
error_response routeserver_id message code tag = record {
  message = message;
  code = code;
  tag = tag;
  routeserver_id = routeserver_id;
}

-- apiErrorResponse: the response and the HTTP status
unfoldable pub api_error_response : Text → ApiError → ErrorResponse × ℕ
unfolding error_text contains
api_error_response id too_many_routes =
    (error_response id (error_text too_many_routes) 400 "VALIDATION_ERROR", 400)
api_error_response id (timed_out e) = (error_response id e 101 "CONNECTION_TIMEOUT", 504)
api_error_response id resource_not_found =
    (error_response id (error_text resource_not_found) 404 "NOT_FOUND", 404)
api_error_response id (url_error message timeout) =
    if contains message (codes "connection refused")
    then (
      error_response id (codes "Connection refused while dialing the API") 100 "CONNECTION_REFUSED",
      500,
    )
    else if timeout
    then (
      error_response id (codes "Connection timed out when connecting to the backend API") 101
          "CONNECTION_TIMEOUT",
      500,
    )
    else (error_response id message 42 "GENERIC_ERROR", 500)
api_error_response id (validation_failed reason) =
    (error_response id reason 400 "VALIDATION_ERROR", 400)
api_error_response id (other e) = (error_response id e 42 "GENERIC_ERROR", 500)

-- What a handler gives: a response, an error, or a panic
pub data Reply (A : Type 0) : Type 0 where
  replied : A → Reply A
  error_reply : ApiError → Reply A
  panicked : Reply A

infixl 5 ◌>>=◌
abbrev pub ◌>>=◌ : {A B : Type 0} → Reply A → (A → Reply B) → Reply B
replied a >>= f = f a
error_reply e >>= f = error_reply e
panicked >>= f = panicked

-- What the server sends: the result of a handler, an error with its HTTP status, or nothing after
-- a panic
pub data Sent (A : Type 0) : Type 0 where
  sent : A → Sent A
  sent_error : ErrorResponse → ℕ → Sent A
  crashed : Sent A

-- The id of the route server in an error response
unfoldable pub affected_id : Text → Text
unfolding validate_source_id
affected_id id = elim (validate_source_id id) [ valid rs_id ↦ rs_id | invalid _ ↦ codes "unknown" ]

-- endpoint, up to the encoding of the result
unfoldable pub endpoint : {A : Type 0} → Text → Reply A → Sent A
unfolding affected_id api_error_response
endpoint id (replied a) = sent a
endpoint id (error_reply e) =
    let (response, status) = api_error_response (affected_id id) e in sent_error response status
endpoint id panicked = crashed
