-- ===== src/Webhooks/Outbox.antt =====
-- src/webhooks/webhook-dispatcher.service.ts: the outbox of events for customers' endpoints.
-- The database is the argument and the result. A query that fails is not modelled: it leaves its
-- row to a later sweep. That every delivery has its endpoint is the foreign key of the schema; a
-- row without one is left alone.
pub mod Lease
pub mod Attempt
pub mod Alone
pub mod Retries
pub mod Failures
pub mod Queue
pub mod History
mod Examples
use drasken_labs_communicati.Prelude.{
  ℕ, zero, suc, ◌+◌, ◌≡◌, refl, Text, codes, text_eq, Bool, true, false, ◌&&◌, ◌||◌, Option, none,
  some, List, [], ◌∷◌, ◌++◌, map, take, any, ltb, leb, ◌==◌, if◌then◌else◌,
}
use drasken_labs_communicati.Prelude.Table.{find_row, update_row}
use drasken_labs_communicati.Webhooks.Store.{
  DescribedEvent, EventData, of_change, of_test, Payload, DeliveryStatus, pending, sent, failed,
  abandoned, Delivery, Endpoint, DisabledMail, Store,
}
use drasken_labs_communicati.Webhooks.Dispatcher.{
  max_delivery_retries, lease_minutes, sweep_batch, max_consecutive_failures, minutes,
  next_retry_at, Outside, Reply, DeliveryOutcome, outcome_of, reply_to,
}
use drasken_labs_communicati.Webhooks.Settle.{
  delivery_id, endpoint_id, find_delivery, find_endpoint, set_delivery, set_endpoint, leased,
  Counts, conclude, dropped, recovered,
}

-- An empty list of kinds is every kind.
hears : Text → List Text → Bool
hears kind [] = true
hears kind (k ∷ ks) = any (λ x. text_eq x kind) (k ∷ ks)

-- The endpoints that `enqueue` reads: of the account, switched on, and listening for the kind.
pub listens : Text → Text → Endpoint → Bool
listens waba_id kind e = text_eq e.waba_id waba_id && (e.status && hears kind e.events)

pub listening : Text → Text → List Endpoint → List Endpoint
listening waba_id kind [] = []
listening waba_id kind (e ∷ es) =
    if listens waba_id kind e then e ∷ listening waba_id kind es else listening waba_id kind es

pub queued : Text → ℕ → Text → DescribedEvent → Text → ℕ → ℕ → Endpoint → Delivery
queued waba_id event_id event_type described raw now id e = record {
  id = id;
  endpoint_id = e.id;
  event_id = some event_id;
  event_type = described.kind;
  payload = record {
    event = described.kind;
    waba_id = waba_id;
    occurred_at = now;
    contents = of_change described event_type raw;
  };
  status = pending;
  attempts = 0;
  retry_at = some now;
  response_code = none;
  error = none;
  duration_ms = none;
}

-- The loop of `enqueue`: `create` gives each row the next id.
create_all : (ℕ → Endpoint → Delivery) → List Endpoint → Store → Store
create_all row [] s = s
create_all row (e ∷ es) s = create_all row es (record s {
  deliveries = s.deliveries ++ row s.next_delivery e ∷ [];
  next_delivery = suc s.next_delivery;
})

pub enqueue : Text → ℕ → Text → DescribedEvent → Text → ℕ → Store → Store
enqueue waba_id event_id event_type described raw now s =
    create_all (queued waba_id event_id event_type described raw now)
      (listening waba_id described.kind s.endpoints) s

-- What a sweep reads of a row that is due.
pub record Row : Type 0 where
  pub id : ℕ
  pub attempts : ℕ
  pub status : DeliveryStatus
  pub endpoint_id : ℕ

abbrev pub same_status : DeliveryStatus → DeliveryStatus → Bool
same_status pending pending = true
same_status sent sent = true
same_status failed failed = true
same_status abandoned abandoned = true
same_status _ _ = false

-- `retryAt <= now`, which no null satisfies.
abbrev pub is_past : ℕ → Option ℕ → Bool
is_past now none = false
is_past now (some t) = leb t now

abbrev pub is_open : DeliveryStatus → Bool
is_open pending = true
is_open failed = true
is_open _ = false

-- Compare-and-set: the row is taken if it still has the status that was read and is still due.
pub can_claim : ℕ → Row → Delivery → Bool
can_claim now row d = same_status d.status row.status && is_past now d.retry_at

pub claim : ℕ → Row → Store → Option Store
claim now row s = elim (find_delivery row.id s) [
  | none ↦ none
  | some d ↦ if can_claim now row d then some (set_delivery row.id (leased now) s) else none
]

-- The rows of a sweep: those due, the longest due first, and no more than a batch.
is_due : ℕ → Delivery → Bool
is_due now d = is_open d.status && is_past now d.retry_at

abbrev due_time : Delivery → ℕ
due_time d = elim d.retry_at [ none ↦ 0 | some t ↦ t ]

insert_due : Delivery → List Delivery → List Delivery
insert_due d [] = d ∷ []
insert_due d (e ∷ es) = if leb (due_time d) (due_time e) then d ∷ e ∷ es else e ∷ insert_due d es

pub due_rows : ℕ → List Delivery → List Delivery
due_rows now [] = []
due_rows now (d ∷ ds) =
    let later = due_rows now ds in if is_due now d then insert_due d later else later

abbrev row_of : Delivery → Row
row_of d = record {
  id = d.id;
  attempts = d.attempts;
  status = d.status;
  endpoint_id = d.endpoint_id;
}

pub batch : ℕ → Store → List Row
batch now s = map row_of (take sweep_batch (due_rows now s.deliveries))

abbrev test_event : Text
test_event = codes "endpoint.test"

-- The row of a synthetic event, and what its answer makes of it.
pub test_delivery : ℕ → Endpoint → ℕ → Delivery
test_delivery now e id = record {
  id = id;
  endpoint_id = e.id;
  event_id = none;
  event_type = test_event;
  payload = record {
    event = test_event;
    waba_id = e.waba_id;
    occurred_at = now;
    contents = of_test;
  };
  status = pending;
  attempts = 1;
  retry_at = none;
  response_code = none;
  error = none;
  duration_ms = none;
}

pub tested : DeliveryOutcome → Delivery → Delivery
tested o d = record d {
  status = if o.success then sent else abandoned;
  retry_at = none;
  response_code = o.response_code;
  error = o.error;
  duration_ms = some o.duration_ms;
}

module _ (outside : Outside) where
  pub deliver : ℕ → Delivery → Endpoint → Store × Counts → Store × Counts
  deliver now d e (s, c) =
      if e.status
      then (let r : Reply = reply_to outside e d.id d.payload in
          conclude now d (outcome_of r r.answer) r.ended
            (s, record c { attempted = c.attempted + 1 }))
      else (set_delivery d.id dropped s, record c { abandoned = c.abandoned + 1 })

  -- The rows read again after the claim.
  after_claim : ℕ → ℕ → Store × Counts → Store × Counts
  after_claim now id (s, c) = elim (find_delivery id s) [
    | none ↦ (s, c)
    | some d ↦ elim (find_endpoint d.endpoint_id s) [
      | none ↦ (s, c)
      | some e ↦ deliver now d e (s, c)
    ]
  ]

  pub attempt_row : ℕ → Row → Store × Counts → Store × Counts
  attempt_row now row (s, c) = elim (claim now row s) [
    | none ↦ (s, c)
    | some s' ↦ after_claim now row.id (s', c)
  ]

  pub attempt_rows : ℕ → List Row → Store × Counts → Store × Counts
  attempt_rows now [] p = p
  attempt_rows now (row ∷ rows) p = attempt_rows now rows (attempt_row now row p)

  pub sweep : ℕ → Store → Store × Counts
  sweep now s =
      attempt_rows now (batch now s) (s, record { attempted = 0; sent = 0; abandoned = 0 })

  -- `sendTest`: a delivery of its own, posted at once and never retried.
  pub send_test : ℕ → Endpoint → Store → Store × DeliveryOutcome
  send_test now e s =
      let d : Delivery = test_delivery now e s.next_delivery in
      let created = record s {
        deliveries = s.deliveries ++ d ∷ [];
        next_delivery = suc s.next_delivery;
      } in
      let r : Reply = reply_to outside e d.id d.payload in
      let o = outcome_of r r.answer in
      let logged = set_delivery d.id (tested o) created in
      (if o.success then set_endpoint e.id (recovered r.ended) logged else logged, o)
