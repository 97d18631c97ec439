-- ===== src/Webhooks/Settle.antt =====
-- src/webhooks/webhook-dispatcher.service.ts: what an attempt writes to a delivery and its endpoint.
use drasken_labs_communicati.Prelude.{
  ℕ, ◌+◌, codes, false, ◌&&◌, Option, none, some, [], ◌∷◌, ◌++◌, ltb, leb, if◌then◌else◌,
}
use drasken_labs_communicati.Prelude.Table.{find_row, update_row}
use drasken_labs_communicati.Webhooks.Store.{
  sent, failed, abandoned, Delivery, Endpoint, DisabledMail, Store,
}
use drasken_labs_communicati.Webhooks.Dispatcher.{
  max_delivery_retries, lease_minutes, max_consecutive_failures, minutes, next_retry_at,
  DeliveryOutcome,
}

abbrev pub delivery_id : Delivery → ℕ
delivery_id d = d.id

abbrev pub endpoint_id : Endpoint → ℕ
endpoint_id e = e.id

abbrev pub find_delivery : ℕ → Store → Option Delivery
find_delivery id s = find_row delivery_id id s.deliveries

abbrev pub find_endpoint : ℕ → Store → Option Endpoint
find_endpoint id s = find_row endpoint_id id s.endpoints

abbrev pub set_delivery : ℕ → (Delivery → Delivery) → Store → Store
set_delivery id f s = record s { deliveries = update_row delivery_id id f s.deliveries }

abbrev pub set_endpoint : ℕ → (Endpoint → Endpoint) → Store → Store
set_endpoint id f s = record s { endpoints = update_row endpoint_id id f s.endpoints }

unfoldable pub leased : ℕ → Delivery → Delivery
leased now d = record d { retry_at = some (now + minutes lease_minutes) }

pub record Counts : Type 0 where
  pub attempted : ℕ
  pub sent : ℕ
  pub abandoned : ℕ

-- A success clears the run of failures.
unfoldable pub settled : ℕ → DeliveryOutcome → Delivery → Delivery
settled attempts o d = record d {
  status = sent;
  attempts = attempts;
  retry_at = none;
  response_code = o.response_code;
  error = none;
  duration_ms = some o.duration_ms;
}

unfoldable pub recovered : ℕ → Endpoint → Endpoint
recovered at e = record e { failure_count = 0; last_success_at = some at }

unfoldable pub settle_sent : ℕ → ℕ → ℕ → DeliveryOutcome → ℕ → Store → Store
settle_sent id endpoint attempts o at s =
    set_endpoint endpoint (recovered at) (set_delivery id (settled attempts o) s)

unfoldable pub counted : Endpoint → Endpoint
counted e = record e { failure_count = e.failure_count + 1 }

unfoldable pub switched_off : ℕ → Endpoint → Endpoint
switched_off at e = record e { status = false; disabled_at = some at }

abbrev pub mail_of : Endpoint → DisabledMail
mail_of e = record {
  user_id = e.user_id;
  sso_org_id = e.sso_org_id;
  url = e.url;
  failures = e.failure_count;
}

unfoldable pub disable : ℕ → Endpoint → Store → Store
disable at e s =
    let off = set_endpoint e.id (switched_off at) s in
    record off { mails = s.mails ++ mail_of e ∷ [] }

-- `e` is the endpoint as the increment returned it.
unfoldable pub disable_if_failing : ℕ → Endpoint → Store → Store
disable_if_failing at e s =
    if e.status && leb max_consecutive_failures e.failure_count then disable at e s else s

unfoldable pub record_endpoint_failure : ℕ → ℕ → Store → Store
record_endpoint_failure at id s = elim (find_endpoint id s) [
  | none ↦ s
  | some e ↦ disable_if_failing at (counted e) (set_endpoint id counted s)
]

unfoldable pub given_up : ℕ → DeliveryOutcome → Delivery → Delivery
given_up attempts o d = record d {
  status = abandoned;
  attempts = attempts;
  retry_at = none;
  response_code = o.response_code;
  error = o.error;
  duration_ms = some o.duration_ms;
}

unfoldable pub put_off : ℕ → ℕ → DeliveryOutcome → Delivery → Delivery
put_off attempts at o d = record d {
  status = failed;
  attempts = attempts;
  retry_at = some at;
  response_code = o.response_code;
  error = o.error;
  duration_ms = some o.duration_ms;
}

unfoldable pub dropped : Delivery → Delivery
dropped d = record d {
  status = abandoned;
  retry_at = none;
  error = some (codes "Endpoint disabled");
}

unfoldable pub retry_time : ℕ → ℕ → Option ℕ
retry_time attempts now =
    if ltb max_delivery_retries attempts then none else next_retry_at attempts now

-- The part of `attemptRow` after a failed POST.
unfoldable pub fail : ℕ → Delivery → DeliveryOutcome → ℕ → Store × Counts → Store × Counts
fail now d o ended (s, c) = elim (retry_time (d.attempts + 1) now) [
  | none ↦ (
    record_endpoint_failure ended d.endpoint_id (set_delivery d.id (given_up (d.attempts + 1) o) s),
    record c { abandoned = c.abandoned + 1 },
  )
  | some at ↦ (set_delivery d.id (put_off (d.attempts + 1) at o) s, c)
]

-- The part of `attemptRow` from the POST on.
unfoldable pub conclude : ℕ → Delivery → DeliveryOutcome → ℕ → Store × Counts → Store × Counts
conclude now d o ended (s, c) =
    if o.success
    then (settle_sent d.id d.endpoint_id (d.attempts + 1) o ended s, record c { sent = c.sent + 1 })
    else fail now d o ended (s, c)
