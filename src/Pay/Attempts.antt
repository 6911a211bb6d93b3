-- ===== src/Pay/Attempts.antt =====
-- The wizard of customer/components/pay/send-money-wizard.tsx against the idempotency of the backend: a
-- send that is tried again while its replies may be lost.
use max_one.Prelude.{
  ℕ, String, Bool, true, false, not, ◌||◌, Option, none, some, List, [], ◌∷◌, ◌==◌, or_default,
  if◌then◌else◌,
}
use max_one.Exec.{
  Result, ok, err, Exception, bad_request, unauthorized, forbidden, not_found, conflict,
  service_unavailable, failure,
}
use max_one.Schema.{Json, null}
use max_one.World.{Prisma, World, Host, Action}
use max_one.Idempotency.{Req, Response, intercept}
use max_one.Http.{
  ErrorCode, named, http, Thrown, object, one, http_exception, other_error, ErrorBody,
  to_error_body,
}
use max_one.Pay.{
  HttpReply, api_request, Wizard, Settings, TransferBody, recipient, body_to_send, key_or,
  begin_send, finish_send,
}

-- Nest's exceptions by their status
abbrev pub thrown_of : Exception → Thrown
thrown_of (bad_request m) = http_exception 400 (object (one m) none) m
thrown_of (unauthorized m) = http_exception 401 (object (one m) none) m
thrown_of (forbidden m) = http_exception 403 (object (one m) none) m
thrown_of (not_found m) = http_exception 404 (object (one m) none) m
thrown_of (conflict m) = http_exception 409 (object (one m) none) m
thrown_of (service_unavailable m) = http_exception 503 (object (one m) none) m
thrown_of (failure m) = other_error m

abbrev code_text : ErrorCode → Option String
code_text (named code) = some code
code_text (http status) = none

abbrev error_reply : ErrorBody → HttpReply Json
error_reply b = record {
  status = b.status_code;
  code = code_text b.code;
  message = some b.message;
  data_ = null;
}

-- What the browser gets of the outcome of a request
abbrev pub reply_of : String → ℕ → Result Response → HttpReply Json
reply_of path now (ok r) = record {
  status = r.status_code;
  code = none;
  message = none;
  data_ = or_default r.body null;
}
reply_of path now (err e) = error_reply (to_error_body path now (thrown_of e))

-- The JSON of the body, and the path
pub record Wire : Type 0 where
  pub json : TransferBody → String
  pub url : ℕ → String

module _ (settings : Settings) (wire : Wire) (user_id : ℕ) where
  abbrev request_under : Option String → Option TransferBody → Option Req
  request_under key none = none
  request_under key (some body) = some (record {
    user = some user_id;
    key = key;
    method = "POST";
    url = wire.url settings.my_wallet_id;
    body = wire.json body;
  })

  -- The request of the button on the second step; none where there is no button or nobody to send to
  abbrev pub request_of : String → Wizard → Option Req
  request_of fresh s =
      if s.step == 2
      then request_under (some (key_or s.key fresh))
          (body_to_send settings (recipient settings s) s.values)
      else none

  module _ {p : Prisma} (sha256 : String → String) (handler : Action p (Option Json)) where
    abbrev arrived : Bool → HttpReply Json → Option (HttpReply Json)
    arrived lost r = if lost then none else some r

    abbrev serve : Host → Bool → String → Option Req → Wizard → World p → Wizard × World p
    serve host lost fresh none s w = (s, w)
    serve host lost fresh (some req) s w =
        let (r, w') = intercept host sha256 true req 201 handler w in
        (
          finish_send (api_request (arrived lost (reply_of req.url host.now r)))
              (begin_send fresh s),
          w',
        )

    -- One press of the button, whose reply may be lost: the guards have let it through, so that the
    -- interceptor runs `handler`, the transfer, or replays it.
    unfoldable pub attempt : Host → Bool → String → Wizard → World p → Wizard × World p
    attempt host lost fresh s w = serve host lost fresh (request_of fresh s) s w

    unfoldable pub attempts : List (Host × Bool) → String → Wizard → World p → Wizard × World p
    unfolding attempt
    attempts [] fresh s w = (s, w)
    attempts ((host, lost) ∷ later) fresh s w =
        let (s', w') = attempt host lost fresh s w in attempts later fresh s' w'

-- Whether a reply arrives
abbrev pub arrives : List (Host × Bool) → Bool
arrives [] = false
arrives ((host, lost) ∷ later) = not lost || arrives later

-- The wizard while its send is unanswered, and once it is answered
abbrev pub unanswered : String → Wizard → Wizard
unanswered key s = record s { key = some key; pending = false }

abbrev pub answered : Json → Wizard → Wizard
answered data_ s = record s {
  pending = false;
  key = none;
  step_up = false;
  result = some data_;
  step = 3;
}
