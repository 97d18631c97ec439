-- ===== src/Webhooks/Outbox/Retries.antt =====
-- src/webhooks/webhook-dispatcher.service.ts: a delivery that its endpoint keeps refusing.
use drasken_labs_communicati.Prelude.{
  ℕ, zero, suc, ◌+◌, inl, inr, sym, ◌≤◌, ◌<◌, ◌≡◌, refl, ap, ◌∙◌, true, false, none, some, List, [],
  ◌∷◌, arith, length, get_elem?, Option-cases,
}
use drasken_labs_communicati.Prelude.Table.{find_row, find_row-update_row, find_row-key, update_row}
use drasken_labs_communicati.Webhooks.Store.{
  Delivery, Endpoint, Payload, Store, failed, pending, sent, abandoned, DeliveryStatus,
}
use drasken_labs_communicati.Webhooks.Dispatcher.{
  minutes, backoff_minutes, next_retry_at, Outside, DeliveryOutcome, reply_to, post,
}
use drasken_labs_communicati.Webhooks.Settle.{
  delivery_id, find_delivery, find_endpoint, set_delivery, leased, given_up, put_off, fail,
  conclude, retry_time, Counts,
}
use drasken_labs_communicati.Webhooks.Outbox.{
  can_claim, claim, is_open, deliver, after_claim, attempt_row, row_of, same_status, batch, sweep,
  attempt_rows,
}
use drasken_labs_communicati.Webhooks.Outbox.Alone.{IsAlone, due_rows_alone, IsAlone-update_row}
use drasken_labs_communicati.Webhooks.Outbox.Attempt.{record_endpoint_failure-deliveries}
use drasken_labs_communicati.Webhooks.Outbox.Lease.{find_delivery-set_delivery}

-- What a sweep does to a row that it has read.
pub attempt_at : Outside → ℕ → ℕ → Store × Counts → Store × Counts
attempt_at outside id now (s, c) = elim (find_delivery id s) [
  | none ↦ (s, c)
  | some d ↦ attempt_row outside now (row_of d) (s, c)
]

-- A sweep's counts before its first row.
abbrev pub none_yet : Counts
none_yet = record { attempted = 0; sent = 0; abandoned = 0 }

-- Sweeps at the given times, one after the other, and how many POSTs they made.
pub sweeps_at : Outside → List ℕ → Store → Store × ℕ
sweeps_at outside [] s = (s, 0)
sweeps_at outside (now ∷ times) s =
    let rest = sweeps_at outside times (sweep outside now s).0 in
    (rest.0, (sweep outside now s).1.attempted + rest.1)

-- The waits, in minutes, that stand between the attempts, after `k` of them.
abbrev pub waits_after : ℕ → ℕ
waits_after k = elim (get_elem? backoff_minutes k) [ none ↦ 0 | some w ↦ w ]

-- Each time is no sooner than the back-off asks, the first no sooner than `due`.
abbrev pub AreSpaced : ℕ → ℕ → List ℕ → Type 0
AreSpaced k due [] = Unit
AreSpaced k due (now ∷ times) =
    (due ≤ now) × AreSpaced (suc k) (now + minutes (waits_after k)) times

-- The delivery waits, due at `due` after `k` attempts, for an endpoint that is on and refuses, and no
-- other does.
pub record IsWaiting (outside : Outside) (id k due : ℕ) (s : Store) : Type 0 where
  pub delivery : Delivery
  pub endpoint : Endpoint
  pub found : find_delivery id s ≡ some delivery
  pub alone : IsAlone delivery s.deliveries
  pub reached : find_endpoint delivery.endpoint_id s ≡ some endpoint
  pub enabled : endpoint.status ≡ true
  pub open_row : is_open delivery.status ≡ true
  pub tried : delivery.attempts ≡ k
  pub due_at : delivery.retry_at ≡ some due
  pub refuses : (d : ℕ) (p : Payload) → (post outside endpoint d p).success ≡ false

-- The delivery is settled as given up after six attempts.
pub record IsGivenUp (id : ℕ) (s : Store) : Type 0 where
  pub delivery : Delivery
  pub found : find_delivery id s ≡ some delivery
  pub status : delivery.status ≡ abandoned
  pub tried : delivery.attempts ≡ 6
  pub final : delivery.retry_at ≡ none

same_status_refl : (x : DeliveryStatus) → same_status x x ≡ true
same_status_refl pending = refl
same_status_refl sent = refl
same_status_refl failed = refl
same_status_refl abandoned = refl

find_delivery-set_other :
    (id j : ℕ) (f : Delivery → Delivery) (s : Store) (d : Delivery)
    → ((a : Delivery) → (f a).id ≡ a.id)
    → j ≡ id
    → find_delivery id s ≡ some d
    → find_delivery id (set_delivery j f s) ≡ some (f d)
find_delivery-set_other id j f s d h same found =
    ground (arith, find_row-update_row delivery_id j id f s.deliveries h)

retry_time_within :
    (k now : ℕ) → k < 5 → retry_time (k + 1) now ≡ some (now + minutes (waits_after k))
unfolding retry_time next_retry_at
retry_time_within zero now h = refl
retry_time_within (suc zero) now h = refl
retry_time_within (suc (suc zero)) now h = refl
retry_time_within (suc (suc (suc zero))) now h = refl
retry_time_within (suc (suc (suc (suc zero)))) now h = refl
retry_time_within (suc (suc (suc (suc (suc k))))) now h = absurd (omega arith)

fail_retries :
    (now : ℕ) (d : Delivery) (o : DeliveryOutcome) (ended : ℕ) (s : Store) (c : Counts) (at : ℕ)
    → retry_time (d.attempts + 1) now ≡ some at
    → fail now d o ended (s, c) ≡ (set_delivery d.id (put_off (d.attempts + 1) at o) s, c)
unfolding fail
fail_retries now d o ended s c at e = rw (e, fail)

module _ (outside : Outside) (id k due now : ℕ) (s : Store) (c : Counts) where
  claim_waiting :
      (w : IsWaiting outside id k due s)
      → due ≤ now
      → claim now (row_of w.delivery) s ≡ some (set_delivery id (leased now) s)
  unfolding claim can_claim
  claim_waiting w h =
      let named = find_row-key delivery_id id s.deliveries w.delivery w.found in
      rw (named, w.found, claim, same_status_refl w.delivery.status, w.due_at) (ground arith)

  deliver_refused :
      (w : IsWaiting outside id k due s) (t : Store)
      → deliver outside now (leased now w.delivery) w.endpoint (t, c)
        ≡ fail now
            (leased now w.delivery)
            (post outside w.endpoint id w.delivery.payload)
            (reply_to outside w.endpoint id w.delivery.payload).ended
            (t, record c { attempted = c.attempted + 1 })
  unfolding deliver conclude post leased
  deliver_refused w t =
      let named = find_row-key delivery_id id s.deliveries w.delivery w.found in
      let refused = w.refuses id w.delivery.payload in simp (w.enabled, named, refused)

  -- What a refused attempt comes to.
  attempt_at_refused :
      (w : IsWaiting outside id k due s)
      → due ≤ now
      → attempt_at outside id now (s, c)
        ≡ fail now
            (leased now w.delivery)
            (post outside w.endpoint id w.delivery.payload)
            (reply_to outside w.endpoint id w.delivery.payload).ended
            (set_delivery id (leased now) s, record c { attempted = c.attempted + 1 })
  unfolding attempt_at attempt_row after_claim leased
  attempt_at_refused w h =
      let named = find_row-key delivery_id id s.deliveries w.delivery w.found in
      let held = find_delivery-set_delivery id (leased now) s w.delivery (λ a. refl) w.found in
      let claimed = claim_waiting w h in
      rw (w.found, attempt_at, claimed, attempt_row)
        (ap (λ j. after_claim outside now j (set_delivery id (leased now) s, c)) named
          ∙ rw (held, after_claim, w.reached) (deliver_refused w (set_delivery id (leased now) s)))

  -- Before the sixth attempt the delivery waits again, for as long as the back-off says.
  attempt_at_waits :
      (w : IsWaiting outside id k due s)
      → due ≤ now
      → k < 5
      → IsWaiting outside id
          (suc k)
          (now + minutes (waits_after k))
          (attempt_at outside id now (s, c)).0
  unfolding put_off leased
  attempt_at_waits w h lt =
      let named = find_row-key delivery_id id s.deliveries w.delivery w.found in
      let o = post outside w.endpoint id w.delivery.payload in
      let at = now + minutes (waits_after k) in
      let held = find_delivery-set_delivery id (leased now) s w.delivery (λ a. refl) w.found in
      let later : retry_time ((leased now w.delivery).attempts + 1) now ≡ some at =
        rw w.tried (retry_time_within k now lt) in
      rw
        (
          attempt_at_refused w h,
          fail_retries now (leased now w.delivery) o
              (reply_to outside w.endpoint id w.delivery.payload).ended
              (set_delivery id (leased now) s) (record c { attempted = c.attempted + 1 }) at later,
        )
        (record {
          delivery = put_off (w.delivery.attempts + 1) at o (leased now w.delivery);
          endpoint = w.endpoint;
          found =
              find_delivery-set_other id w.delivery.id (put_off (w.delivery.attempts + 1) at o)
                (set_delivery id (leased now) s) (leased now w.delivery) (λ a. refl) named held;
          alone =
              IsAlone-update_row w.delivery.id (put_off (w.delivery.attempts + 1) at o)
                (leased now w.delivery) (update_row delivery_id id (leased now) s.deliveries) refl
                refl
                (IsAlone-update_row id (leased now) w.delivery s.deliveries (sym named) refl
                  w.alone);
          reached = w.reached;
          enabled = w.enabled;
          open_row = refl;
          tried = omega (arith, w.tried);
          due_at = refl;
          refuses = w.refuses;
        })

  attempt_at_counts :
      (w : IsWaiting outside id k due s)
      → due ≤ now
      → (attempt_at outside id now (s, c)).1.attempted ≡ c.attempted + 1
  unfolding fail
  attempt_at_counts w h =
      rw (attempt_at_refused w h)
        (elim (Option-cases (retry_time ((leased now w.delivery).attempts + 1) now)) [
          | inl e ↦ rw (e, fail)
          | inr (at, e) ↦ rw (e, fail)
        ])

  -- After the sixth it is given up.
  attempt_at_last :
      (w : IsWaiting outside id k due s)
      → due ≤ now
      → k ≡ 5
      → IsGivenUp id (attempt_at outside id now (s, c)).0
  unfolding fail retry_time given_up leased
  attempt_at_last w h e =
      let named = find_row-key delivery_id id s.deliveries w.delivery w.found in
      let o = post outside w.endpoint id w.delivery.payload in
      let held = find_delivery-set_delivery id (leased now) s w.delivery (λ a. refl) w.found in
      let never : retry_time ((leased now w.delivery).attempts + 1) now ≡ none =
        rw (w.tried, e) refl in
      let final = given_up (w.delivery.attempts + 1) o (leased now w.delivery) in
      let ended = (reply_to outside w.endpoint id w.delivery.payload).ended in
      let gone =
        set_delivery w.delivery.id (given_up (w.delivery.attempts + 1) o)
          (set_delivery id (leased now) s) in
      rw (attempt_at_refused w h, never, fail)
        (record {
          delivery = final;
          found =
              ap (find_row delivery_id id)
                (record_endpoint_failure-deliveries ended w.delivery.endpoint_id gone)
              ∙ find_delivery-set_other id w.delivery.id (given_up (w.delivery.attempts + 1) o)
                  (set_delivery id (leased now) s) (leased now w.delivery) (λ a. refl) named held;
          status = refl;
          tried = omega (arith, w.tried);
          final = refl;
        })

-- The sweep reads the waiting row, and it alone.
sweep_waiting :
    (outside : Outside) (id k due now : ℕ) (s : Store)
    → IsWaiting outside id k due s
    → due ≤ now
    → sweep outside now s ≡ attempt_at outside id now (s, none_yet)
unfolding sweep batch attempt_rows attempt_at
sweep_waiting outside id k due now s w h =
    let rows = due_rows_alone now due w.delivery s.deliveries w.alone w.open_row w.due_at h in
    rw (rows, w.found, attempt_at) refl

sweeps_at-IsGivenUp :
    (outside : Outside) (id : ℕ) (times : List ℕ) (k due : ℕ) (s : Store)
    → IsWaiting outside id k due s
    → AreSpaced k due times
    → k + length times ≡ 6
    → k ≤ 5
    → IsGivenUp id (sweeps_at outside times s).0 × ((sweeps_at outside times s).1 ≡ length times)
unfolding sweeps_at
sweeps_at-IsGivenUp outside id [] k due s w a h lt = absurd (omega arith)
sweeps_at-IsGivenUp outside id (now ∷ []) k due s w (a, _) h lt =
    let posted = attempt_at_counts outside id k due now s none_yet w a in
    rw (sweep_waiting outside id k due now s w a)
      (attempt_at_last outside id k due now s none_yet w a (omega arith), omega (arith, posted))
sweeps_at-IsGivenUp outside id (now ∷ next ∷ times) k due s w (a, as_) h lt =
    let posted = attempt_at_counts outside id k due now s none_yet w a in
    let (gone, posts) =
      sweeps_at-IsGivenUp outside id (next ∷ times) (suc k) (now + minutes (waits_after k))
        (attempt_at outside id now (s, none_yet)).0
        (attempt_at_waits outside id k due now s none_yet w a (omega arith)) as_ (omega arith)
        (omega arith) in
    rw (sweep_waiting outside id k due now s w a) (gone, omega (arith, posts, posted))

-- In an outbox whose other rows are settled, a delivery whose endpoint is on and refuses every POST:
-- six sweeps at times spaced by the back-off (1, 5, 15, 60 and 180 minutes) give it up for good,
-- after exactly six POSTs.
pub sweeps_at-refused :
    (outside : Outside) (id : ℕ) (times : List ℕ) (due : ℕ) (s : Store)
    → IsWaiting outside id 0 due s
    → AreSpaced 0 due times
    → length times ≡ 6
    → IsGivenUp id (sweeps_at outside times s).0 × ((sweeps_at outside times s).1 ≡ 6)
sweeps_at-refused outside id times due s w a e =
    let (gone, posts) =
      sweeps_at-IsGivenUp outside id times 0 due s w a (omega arith) (omega arith) in
    (gone, omega (arith, posts))
