-- ===== src/Http.antt =====
-- backend/src/common/http-error.ts and http-exception.filter.ts: the one shape of an error.
use max_one.Prelude.{
  ℕ, String, ◌<>◌, Bool, Option, none, some, List, [], ◌∷◌, ◌==◌, leb, str_eq, if◌then◌else◌,
}

-- `HTTP_<status>` has a number in it; the other codes are texts.
pub data ErrorCode : Type 0 where
  named : String → ErrorCode
  http : ℕ → ErrorCode

-- The `message` of a response object
pub data RawMessage : Type 0 where
  absent : RawMessage
  one : String → RawMessage
  several : List String → RawMessage

pub data HttpResponse : Type 0 where
  text : String → HttpResponse
  object : RawMessage → Option String → HttpResponse

-- What a handler throws: Nest's exceptions, the errors of Prisma with their code, and all else.
pub data Thrown : Type 0 where
  http_exception : (status : ℕ) → HttpResponse → (message : String) → Thrown
  known_request_error : (code : String) → (message : String) → Thrown
  other_error : (message : String) → Thrown

pub record ErrorBody : Type 0 where
  pub status_code : ℕ
  pub code : ErrorCode
  pub message : String
  pub details : Option (List String)
  pub path : String
  pub timestamp : ℕ

-- `codeFor`
abbrev pub code_for : ℕ → ErrorCode
code_for status =
    if status == 400
    then named "BAD_REQUEST"
    else if status == 401
    then named "UNAUTHORIZED"
    else if status == 403
    then named "FORBIDDEN"
    else if status == 404
    then named "NOT_FOUND"
    else if status == 409
    then named "CONFLICT"
    else if status == 429
    then named "TOO_MANY_REQUESTS"
    else if status == 500
    then named "INTERNAL_ERROR"
    else http status

-- `details.join('; ')`
abbrev pub join : List String → String
join [] = ""
join (s ∷ []) = s
join (s ∷ t ∷ ss) = s <> ("; " <> join (t ∷ ss))

abbrev pub code_or : Option String → ErrorCode → ErrorCode
code_or none code = code
code_or (some c) code = named c

-- `typeof raw === 'string' && raw ? raw : exception.message`
abbrev pub text_or : String → String → String
text_or raw message = if str_eq raw "" then message else raw

module _ (path : String) (now : ℕ) where
  abbrev pub body : ℕ → ErrorCode → String → Option (List String) → ErrorBody
  body status code message details = record {
    status_code = status;
    code = code;
    message = message;
    details = details;
    path = path;
    timestamp = now;
  }

  abbrev pub http_body : ℕ → RawMessage → Option String → String → ErrorBody
  http_body status (several details) code message =
      body status (code_or code (named "VALIDATION_FAILED")) (join details) (some details)
  http_body status (one raw) code message =
      body status (code_or code (code_for status)) (text_or raw message) none
  http_body status absent code message = body status (code_or code (code_for status)) message none

  abbrev pub internal_error : ErrorBody
  internal_error = body 500 (named "INTERNAL_ERROR") "Internal server error" none

  unfoldable pub to_error_body : Thrown → ErrorBody
  to_error_body (http_exception status (text raw) message) = http_body status (one raw) none message
  to_error_body (http_exception status (object raw code) message) =
      http_body status raw code message
  to_error_body (known_request_error code message) =
      if str_eq code "P2025"
      then body 404 (named "NOT_FOUND") "Record not found" none
      else if str_eq code "P2002"
      then body 409 (named "CONFLICT") "Already exists" none
      else internal_error
  to_error_body (other_error message) = internal_error

  -- `catch`, of an HTTP request: the response, and whether the error is logged and sent to Sentry
  unfoldable pub catch_ : Thrown → ErrorBody × Bool
  unfolding to_error_body
  catch_ e = let b = to_error_body e in (b, leb 500 b.status_code)
