-- ===== src/Pay.antt =====
-- customer/components/pay/send-money-wizard.tsx, customer/lib/idempotency/key.ts and the result type of
-- customer/lib/api/client.ts: sending money in three steps.
pub mod Attempts
pub mod Once
use max_one.Prelude.{
  ℕ, ◌≡◌, String, Bool, true, false, not, ◌&&◌, ◌||◌, Option, none, some, List, [], ◌∷◌, ◌==◌, leb,
  ltb, length, or_default, str_eq, if◌then◌else◌,
}
use max_one.Schema.{Json}
use max_one.Http.{ErrorCode, named, http}
use max_one.Amounts.{is_digit, trim_start, trim_end, parse_amount}

pub record ApiError : Type 0 where
  pub status : ℕ
  pub code : ErrorCode
  pub message : String

pub data ApiResult (A : Type 0) : Type 0 where
  success : A → ApiResult A
  failed : ApiError → ApiResult A

-- A response as the browser reads it: its body as data, and the texts of an error envelope if it has any
pub record HttpReply (A : Type 0) : Type 0 where
  pub status : ℕ
  pub code : Option String
  pub message : Option String
  pub data_ : A

abbrev pub is_ok : ℕ → Bool
is_ok status = leb 200 status && ltb status 300

abbrev pub code_or_http : ℕ → Option String → ErrorCode
code_or_http status none = http status
code_or_http status (some code) = named code

-- `apiRequest`, where none is a `fetch` that throws. The body is one that `res.text()` can read: where
-- the connection breaks in the middle of it, the source throws.
abbrev pub api_request : {A : Type 0} → Option (HttpReply A) → ApiResult A
api_request none = failed (record {
  status = 0;
  code = named "NETWORK";
  message = "Check your connection and try again.";
})
api_request (some r) =
    if is_ok r.status
    then success r.data_
    else failed (record {
      status = r.status;
      code = code_or_http r.status r.code;
      message = or_default r.message "Something went wrong. Please try again.";
    })

pub record Recipient : Type 0 where
  pub wallet_id : ℕ
  pub currency : String
  pub recipient_name : String

pub data RecipientState : Type 0 where
  idle looking : RecipientState
  found : (name : String) → (handle : List ℕ) → (currency : String) → RecipientState
  error : String → RecipientState

pub record Resolved : Type 0 where
  pub handle : List ℕ
  pub recipient : Option Recipient
  pub state : RecipientState

-- The fields of the form, as texts of code points
pub record TransferInput : Type 0 where
  pub handle : List ℕ
  pub amount : List ℕ
  pub note : String

pub record Wizard : Type 0 where
  -- `useIdempotencyKey`
  pub key : Option String
  pub step : ℕ
  -- what is typed in the field of the handle
  pub handle : List ℕ
  pub resolved : Resolved
  pub values : Option TransferInput
  pub step_up : Bool
  pub pending : Bool
  pub result : Option Json

-- The props, and `toLowerCase`
pub record Settings : Type 0 where
  pub my_wallet_id : ℕ
  pub my_currency : String
  pub to_lower_case : List ℕ → List ℕ

abbrev pub same_text : List ℕ → List ℕ → Bool
same_text [] [] = true
same_text [] (d ∷ t) = false
same_text (c ∷ s) [] = false
same_text (c ∷ s) (d ∷ t) = (c == d) && same_text s t

abbrev pub is_lower : ℕ → Bool
is_lower c = leb b'a' c && leb c b'z'

abbrev pub all_handle : List ℕ → Bool
all_handle [] = true
all_handle (c ∷ s) = (is_lower c || is_digit c || (c == b'_')) && all_handle s

-- `/^[a-z][a-z0-9_]{2,19}$/`
abbrev pub is_handle : List ℕ → Bool
is_handle [] = false
is_handle (c ∷ s) = is_lower c && all_handle s && leb 2 (length s) && leb (length s) 19

abbrev pub nothing_resolved : Resolved
nothing_resolved = record { handle = []; recipient = none; state = idle }

-- `values.note || undefined`
abbrev pub present_note : String → Option String
present_note note = if str_eq note "" then none else some note

-- The body of the request; an amount that is NaN is none.
pub record TransferBody : Type 0 where
  pub to_wallet_id : ℕ
  pub amount : Option ℕ
  pub note : Option String

module _ (settings : Settings) where
  abbrev pub typed : Wizard → List ℕ
  typed s = settings.to_lower_case (trim_end (trim_start s.handle))

  abbrev pub recipient : Wizard → Option Recipient
  recipient s = if same_text s.resolved.handle (typed s) then s.resolved.recipient else none

  abbrev pub lookup : Wizard → RecipientState
  lookup s =
      if same_text s.resolved.handle (typed s)
      then s.resolved.state
      else if is_handle (typed s)
      then looking
      else idle

  -- The lookup of a handle has come back.
  abbrev fail : List ℕ → String → Resolved
  fail h message = record { handle = h; recipient = none; state = error message }

  abbrev resolve : List ℕ → ApiResult Recipient → Resolved
  resolve h (failed e) = fail h "No one found with that handle."
  resolve h (success r) =
      if r.wallet_id == settings.my_wallet_id
      then fail h "You can't send to yourself."
      else if not (str_eq r.currency settings.my_currency)
      then fail h "Cross-currency sending is coming soon."
      else record { handle = h; recipient = some r; state = found r.recipient_name h r.currency }

  unfoldable pub settle_lookup : List ℕ → ApiResult Recipient → Wizard → Wizard
  settle_lookup h r s = record s { resolved = resolve h r }

  abbrev pub type_handle : List ℕ → Wizard → Wizard
  type_handle text s = record s { handle = text }

  unfoldable pub to_confirm : TransferInput → Wizard → Wizard
  to_confirm v s = elim (recipient s) [ none ↦ s | some _ ↦ record s { values = some v; step = 2 } ]

  abbrev body_of : Recipient → TransferInput → TransferBody
  body_of r v = record {
    to_wallet_id = r.wallet_id;
    amount = parse_amount v.amount;
    note = present_note v.note;
  }

  abbrev pub body_to_send : Option Recipient → Option TransferInput → Option TransferBody
  body_to_send none values = none
  body_to_send (some r) none = none
  body_to_send (some r) (some v) = some (body_of r v)

-- `idem.key()`, where a fresh uuid is at hand
abbrev pub key_or : Option String → String → String
key_or none fresh = fresh
key_or (some key) fresh = key

-- `send` up to its request, which is under the key
abbrev pub begin_send : String → Wizard → Wizard
begin_send fresh s = record s { key = some (key_or s.key fresh); pending = true }

abbrev is_step_up : ErrorCode → Bool
is_step_up (named code) = str_eq code "STEP_UP_REQUIRED"
is_step_up (http status) = false

-- `send`, after its request; a toast is not kept.
unfoldable pub finish_send : ApiResult Json → Wizard → Wizard
finish_send (failed e) s =
    if (e.status == 403) && is_step_up e.code
    then record s { pending = false; step_up = true }
    else record s { pending = false }
finish_send (success data_) s = record s {
  pending = false;
  key = none;
  step_up = false;
  result = some data_;
  step = 3;
}

-- The buttons Edit and Send again
abbrev pub edit : Wizard → Wizard
edit s = record s { step = 1 }

abbrev pub send_again : Wizard → Wizard
send_again s = record s {
  handle = [];
  resolved = nothing_resolved;
  values = none;
  result = none;
  step = 1;
}
