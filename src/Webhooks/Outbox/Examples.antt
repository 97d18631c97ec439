-- ===== src/Webhooks/Outbox/Examples.antt =====
-- The theorems on the outbox at concrete inputs: one endpoint whose server always answers 500.
use drasken_labs_communicati.Prelude.{
  inl, ℕ, ◌≡◌, refl, codes, true, none, some, List, [], ◌∷◌, arith,
}
use drasken_labs_communicati.Prelude.Table.{find_row}
use drasken_labs_communicati.Webhooks.Store.{
  DescribedEvent, of_test, Delivery, Endpoint, Store, pending,
}
use drasken_labs_communicati.Webhooks.Dispatcher.{
  Outside, Reply, responded, text, post, reply_to, outcome_of, is_success,
}
use drasken_labs_communicati.Webhooks.Settle.{set_delivery, leased}
use drasken_labs_communicati.Webhooks.Outbox.{claim, can_claim, row_of, sweep, enqueue}
use drasken_labs_communicati.Webhooks.Outbox.Lease.{claim_again}
use drasken_labs_communicati.Webhooks.Outbox.Attempt.{AreWellFormed, sweep-AreWellFormed}
use drasken_labs_communicati.Webhooks.Outbox.Retries.{
  sweeps_at, IsWaiting, IsGivenUp, sweeps_at-refused,
}
use drasken_labs_communicati.Webhooks.Outbox.Failures.{
  Verdict, delivered, gave_up, Shows, after_verdicts, after_verdicts-Shows,
}
use drasken_labs_communicati.Webhooks.Outbox.Queue.{Adds, enqueue-Adds}
use drasken_labs_communicati.Webhooks.Outbox.History.{sweeps, tests, run, run-AreWellFormed}

abbrev refusal : Reply
refusal = record { answer = responded 500 (text (codes "no")); duration = 20; ended = 1020 }

abbrev broken : Outside
broken = record {
  decrypt = λ s. none;
  hmac_sha256 = λ key s. s;
  stringify = λ id p. p.event;
  clock = λ id. 1000;
  http = λ r. refusal;
}

abbrev shop : Endpoint
shop = record {
  id = 4;
  user_id = 1;
  sso_org_id = codes "org";
  waba_id = codes "22";
  url = codes "https://shop.example/hook";
  label = none;
  secret = none;
  events = [];
  status = true;
  failure_count = 0;
  disabled_at = none;
  last_success_at = none;
}

abbrev reply_event : DescribedEvent
reply_event = record {
  kind = codes "inbound_message";
  title = codes "Reply";
  detail = none;
  status = none;
  recipient = none;
  message_id = none;
  reason = none;
}

abbrev waiting : Delivery
waiting = record {
  id = 9;
  endpoint_id = 4;
  event_id = none;
  event_type = codes "inbound_message";
  payload = record {
    event = codes "inbound_message";
    waba_id = codes "22";
    occurred_at = 1000;
    contents = of_test;
  };
  status = pending;
  attempts = 0;
  retry_at = some 1000;
  response_code = none;
  error = none;
  duration_ms = none;
}

abbrev outbox : Store
outbox = record { deliveries = waiting ∷ []; endpoints = shop ∷ []; next_delivery = 10; mails = [] }

outbox-AreWellFormed : AreWellFormed outbox
outbox-AreWellFormed = ground arith

claimed : claim 2000 (row_of waiting) outbox ≡ some (set_delivery 9 (leased 2000) outbox)
unfolding claim find_row can_claim
claimed = refl

claim_again_example :
    claim 302000 (row_of waiting) (set_delivery 9 (leased 2000) outbox)
    ≡ some (set_delivery 9 (leased 302000) (set_delivery 9 (leased 2000) outbox))
claim_again_example =
    claim_again 2000 302000 (row_of waiting) outbox (set_delivery 9 (leased 2000) outbox) claimed

sweep-AreWellFormed_example : AreWellFormed (sweep broken 2000 outbox).0
sweep-AreWellFormed_example = sweep-AreWellFormed broken 2000 outbox outbox-AreWellFormed

run-AreWellFormed_example :
    AreWellFormed (run (sweeps broken 2000 ∷ tests broken 3000 shop ∷ []) outbox)
run-AreWellFormed_example =
    run-AreWellFormed (sweeps broken 2000 ∷ tests broken 3000 shop ∷ []) outbox outbox-AreWellFormed

abbrev sweep_times : List ℕ
sweep_times = 2000 ∷ 62000 ∷ 362000 ∷ 1262000 ∷ 4862000 ∷ 15662000 ∷ []

outbox-IsWaiting : IsWaiting broken 9 0 1000 outbox
unfolding post find_row outcome_of is_success reply_to
outbox-IsWaiting = record {
  delivery = waiting;
  endpoint = shop;
  found = refl;
  alone = inl (refl, tt);
  reached = refl;
  enabled = refl;
  open_row = refl;
  tried = refl;
  due_at = refl;
  refuses = λ d p. refl;
}

sweeps_at-refused_example :
    IsGivenUp 9 (sweeps_at broken sweep_times outbox).0
    × ((sweeps_at broken sweep_times outbox).1 ≡ 6)
sweeps_at-refused_example =
    sweeps_at-refused broken 9 sweep_times 1000 outbox outbox-IsWaiting (omega arith) refl

outbox-Shows : Shows 4 [] 0 outbox
unfolding find_row
outbox-Shows = record {
  endpoint = shop;
  found = refl;
  counts = refl;
  enabled = refl;
  mailed = refl;
}

abbrev ten_failures : List Verdict
ten_failures =
    gave_up 9
    ∷ gave_up 9
    ∷ gave_up 8
    ∷ gave_up 7
    ∷ gave_up 6
    ∷ gave_up 5
    ∷ gave_up 4
    ∷ gave_up 3
    ∷ gave_up 2
    ∷ gave_up 1
    ∷ delivered 0
    ∷ []

after_verdicts-Shows_example : Shows 4 ten_failures 0 (after_verdicts 4 ten_failures outbox)
after_verdicts-Shows_example = after_verdicts-Shows 4 ten_failures outbox outbox-Shows

enqueue-Adds_example :
    Adds
      (codes "22")
      5
      (codes "messages")
      reply_event
      (codes "raw")
      3000
      outbox
      (enqueue (codes "22") 5 (codes "messages") reply_event (codes "raw") 3000 outbox)
enqueue-Adds_example =
    enqueue-Adds (codes "22") 5 (codes "messages") reply_event (codes "raw") 3000 outbox
