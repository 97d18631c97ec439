-- ===== src/Webhooks/Dispatcher.antt =====
-- src/webhooks/webhook-dispatcher.service.ts: the HTTP call of one delivery, and when to try again.
-- `Outside` is what the service calls and this repository does not implement.
use drasken_labs_communicati.Prelude.{
  ℕ, zero, suc, ◌+◌, ◌*◌, ◌/◌, Text, codes, decimal, Bool, false, ◌&&◌, Option, none, some, List,
  [], ◌∷◌, ◌++◌, take, get_elem?, ltb, leb, if◌then◌else◌,
}
use drasken_labs_communicati.Webhooks.Store.{Payload, Endpoint}

abbrev pub max_delivery_retries : ℕ
max_delivery_retries = 5

abbrev pub backoff_minutes : List ℕ
backoff_minutes = 1 ∷ 5 ∷ 15 ∷ 60 ∷ 180 ∷ []

abbrev pub lease_minutes : ℕ
lease_minutes = 5

abbrev pub sweep_batch : ℕ
sweep_batch = 100

abbrev pub max_consecutive_failures : ℕ
max_consecutive_failures = 10

abbrev pub max_error_length : ℕ
max_error_length = 500

abbrev pub minutes : ℕ → ℕ
minutes n = n * 60000

-- `BACKOFF_MINUTES[attempts - 1]`, which no index below 0 has.
unfoldable pub next_retry_at : ℕ → ℕ → Option ℕ
next_retry_at zero now = none
next_retry_at (suc k) now = elim (get_elem? backoff_minutes k) [
  | none ↦ none
  | some wait ↦ some (now + minutes wait)
]

-- What came back of one POST: a status with a body (nothing or the empty string, a string, or the
-- text that `JSON.stringify` makes of another value), or an error with its message.
pub data Body : Type 0 where
  empty : Body
  text json : Text → Body

pub data Answer : Type 0 where
  responded : ℕ → Body → Answer
  threw : Text → Answer

pub record Reply : Type 0 where
  pub answer : Answer
  pub duration : ℕ
  pub ended : ℕ

pub record Request : Type 0 where
  pub url : Text
  pub body : Text
  pub delivery_id : ℕ
  pub event : Text
  pub timestamp : Text
  pub signature : Option Text

-- Decryption (`none` where it throws), the HMAC in hexadecimal, the serialised envelope of a
-- delivery, the instant at which it is posted, and the customer's server behind the HTTP library.
pub record Outside : Type 0 where
  pub decrypt : Text → Option Text
  pub hmac_sha256 : Text → Text → Text
  pub stringify : ℕ → Payload → Text
  pub clock : ℕ → ℕ
  pub http : Request → Reply

pub record DeliveryOutcome : Type 0 where
  pub success : Bool
  pub response_code : Option ℕ
  pub error : Option Text
  pub duration_ms : ℕ

excerpt_text : Text → Option Text
excerpt_text [] = none
excerpt_text (c ∷ s) = some (take max_error_length (c ∷ s))

pub excerpt : Body → Option Text
excerpt empty = none
excerpt (text s) = excerpt_text s
excerpt (json s) = excerpt_text s

unfoldable pub is_success : ℕ → Bool
is_success code = leb 200 code && ltb code 300

unfoldable pub outcome_of : Reply → Answer → DeliveryOutcome
outcome_of r (responded code body) = record {
  success = is_success code;
  response_code = some code;
  error = if is_success code then none else excerpt body;
  duration_ms = r.duration;
}
outcome_of r (threw detail) = record {
  success = false;
  response_code = none;
  error = some (take max_error_length detail);
  duration_ms = r.duration;
}

module _ (o : Outside) where
  decrypted : Text → Option Text
  decrypted [] = none
  decrypted (c ∷ s) = o.decrypt (c ∷ s)

  pub read_secret : Endpoint → Option Text
  read_secret e = elim e.secret [ none ↦ none | some s ↦ decrypted s ]

  sign : Option Text → Text → Text → Option Text
  sign none timestamp body = none
  sign (some []) timestamp body = none
  sign (some (c ∷ s)) timestamp body =
      some (codes "sha256=" ++ o.hmac_sha256 (c ∷ s) (timestamp ++ (codes "." ++ body)))

  pub request : Endpoint → ℕ → Payload → Request
  request e id payload =
      let body = o.stringify id payload in
      let timestamp = decimal (o.clock id / 1000) in
      record {
        url = e.url;
        body = body;
        delivery_id = id;
        event = payload.event;
        timestamp = timestamp;
        signature = sign (read_secret e) timestamp body;
      }

  unfoldable pub reply_to : Endpoint → ℕ → Payload → Reply
  reply_to e id payload = o.http (request e id payload)

  unfoldable pub post : Endpoint → ℕ → Payload → DeliveryOutcome
  post e id payload = let r = reply_to e id payload in outcome_of r r.answer
