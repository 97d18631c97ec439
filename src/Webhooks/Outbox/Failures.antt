-- ===== src/Webhooks/Outbox/Failures.antt =====
-- src/webhooks/webhook-dispatcher.service.ts: when an endpoint is switched off.
use drasken_labs_communicati.Prelude.{
  ℕ, suc, ◌+◌, ◌≡◌, refl, Bool, false, not, ◌&&◌, ◌||◌, some, List, [], ◌∷◌, arith, length,
  length-append, Bool-cases, inl, inr, leb, if◌then◌else◌,
}
use drasken_labs_communicati.Prelude.Table.{find_row-update_row, find_row-key}
use drasken_labs_communicati.Webhooks.Store.{Endpoint, Store}
use drasken_labs_communicati.Webhooks.Dispatcher.{max_consecutive_failures}
use drasken_labs_communicati.Webhooks.Settle.{
  endpoint_id, mail_of, find_endpoint, recovered, record_endpoint_failure, disable_if_failing,
  disable, counted, switched_off, set_endpoint,
}

-- How the deliveries of one endpoint end, each at an instant.
pub data Verdict : Type 0 where
  delivered gave_up : ℕ → Verdict

-- What the end of a delivery writes to its endpoint.
pub record_verdict : ℕ → Verdict → Store → Store
record_verdict id (delivered at) s = set_endpoint id (recovered at) s
record_verdict id (gave_up at) s = record_endpoint_failure at id s

-- A history has its newest entry first.
pub after_verdicts : ℕ → List Verdict → Store → Store
after_verdicts id [] s = s
after_verdicts id (v ∷ older) s = record_verdict id v (after_verdicts id older s)

-- The give-ups since the last success.
abbrev pub streak : List Verdict → ℕ
streak [] = 0
streak (delivered at ∷ older) = 0
streak (gave_up at ∷ older) = suc (streak older)

-- Some ten deliveries in a row were given up.
abbrev pub had_long_streak : List Verdict → Bool
had_long_streak [] = false
had_long_streak (v ∷ older) =
    had_long_streak older || leb max_consecutive_failures (streak (v ∷ older))

-- The endpoint, and the mails about it, as a history of verdicts should leave them.
pub record Shows (id : ℕ) (history : List Verdict) (mails : ℕ) (s : Store) : Type 0 where
  pub endpoint : Endpoint
  pub found : find_endpoint id s ≡ some endpoint
  pub counts : endpoint.failure_count ≡ streak history
  pub enabled : endpoint.status ≡ not (had_long_streak history)
  pub mailed : length s.mails ≡ mails + (if had_long_streak history then 1 else 0)

find_endpoint-set :
    (id j : ℕ) (f : Endpoint → Endpoint) (s : Store) (e : Endpoint)
    → ((a : Endpoint) → (f a).id ≡ a.id)
    → j ≡ id
    → find_endpoint id s ≡ some e
    → find_endpoint id (set_endpoint j f s) ≡ some (f e)
find_endpoint-set id j f s e h same found =
    ground (arith, find_row-update_row endpoint_id j id f s.endpoints h)

delivered-Shows :
    (id at mails : ℕ) (older : List Verdict) (s : Store)
    → Shows id older mails s
    → Shows id (delivered at ∷ older) mails (set_endpoint id (recovered at) s)
unfolding recovered
delivered-Shows id at mails older s h = record {
  endpoint = recovered at h.endpoint;
  found = find_endpoint-set id id (recovered at) s h.endpoint (λ a. refl) refl h.found;
  counts = refl;
  enabled = ground (arith, h.enabled);
  mailed = ground (arith, h.mailed);
}

gave_up-Shows :
    (id at mails : ℕ) (older : List Verdict) (s : Store)
    → Shows id older mails s
    → Shows id (gave_up at ∷ older) mails (record_endpoint_failure at id s)
unfolding record_endpoint_failure disable_if_failing disable counted switched_off
gave_up-Shows id at mails older s h =
    let e = counted h.endpoint in
    let s' = set_endpoint id counted s in
    let found = find_endpoint-set id id counted s h.endpoint (λ a. refl) refl h.found in
    let named = find_row-key endpoint_id id s'.endpoints e found in
    let off = find_endpoint-set id e.id (switched_off at) s' e (λ a. refl) named found in
    elim (Bool-cases (e.status && leb max_consecutive_failures e.failure_count)) [
      | inl trips ↦
          rw (h.found, record_endpoint_failure)
            (rw trips (record {
              endpoint = switched_off at e;
              found = off;
              counts = ground (arith, h.counts, h.enabled);
              enabled = ground (arith, h.counts, h.enabled);
              mailed =
                  ground
                    (arith, h.counts, h.enabled, h.mailed, length-append s.mails (mail_of e ∷ []));
            }))
      | inr stays ↦
          rw (h.found, record_endpoint_failure)
            (rw stays (record {
              endpoint = e;
              found = found;
              counts = ground (arith, h.counts, h.enabled);
              enabled = ground (arith, h.counts, h.enabled);
              mailed = ground (arith, h.counts, h.enabled, h.mailed);
            }))
    ]

-- After any history of an endpoint that began enabled and with no failures: its count is the number
-- of give-ups since the last success, it is switched off exactly if some ten deliveries in a row
-- were given up, and exactly one email was then sent.
pub after_verdicts-Shows :
    (id : ℕ) (history : List Verdict) (s : Store)
    → Shows id [] (length s.mails) s
    → Shows id history (length s.mails) (after_verdicts id history s)
unfolding after_verdicts record_verdict
after_verdicts-Shows id [] s h = h
after_verdicts-Shows id (delivered at ∷ older) s h =
    delivered-Shows id at (length s.mails) older (after_verdicts id older s)
      (after_verdicts-Shows id older s h)
after_verdicts-Shows id (gave_up at ∷ older) s h =
    gave_up-Shows id at (length s.mails) older (after_verdicts id older s)
      (after_verdicts-Shows id older s h)
