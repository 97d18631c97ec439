-- ===== src/Webhooks/Outbox/Attempt.antt =====
-- src/webhooks/webhook-dispatcher.service.ts: what a sweep keeps true of every delivery.
use drasken_labs_communicati.Prelude.{
  ℕ, zero, suc, ◌+◌, ◌≤◌, ◌≡◌, refl, true, false, none, some, List, [], ◌∷◌, arith, map, take, All,
  Option-cases, Bool-cases, inl, inr,
}
use drasken_labs_communicati.Prelude.Table.{update_row-All, find_row-All}
use drasken_labs_communicati.Webhooks.Store.{Delivery, Endpoint, Store, failed}
use drasken_labs_communicati.Webhooks.Dispatcher.{
  next_retry_at, Outside, DeliveryOutcome, outcome_of, reply_to,
}
use drasken_labs_communicati.Webhooks.Settle.{
  delivery_id, find_delivery, set_delivery, leased, settled, given_up, put_off, dropped,
  settle_sent, record_endpoint_failure, disable_if_failing, disable, fail, conclude, retry_time,
  Counts, find_endpoint,
}
use drasken_labs_communicati.Webhooks.Outbox.{
  Row, can_claim, claim, is_open, deliver, after_claim, attempt_row, attempt_rows, sweep, batch,
  due_rows, insert_due, row_of, is_due,
}
use drasken_labs_communicati.Webhooks.Outbox.Lease.{claim-eq-some, find_delivery-set_delivery}

-- A delivery that waits for an attempt has at most five behind it, a settled one at most six; a
-- settled one has no next attempt, and a failed one had a first.
pub record IsWellFormed (d : Delivery) : Type 0 where
  pub bounded : d.attempts ≤ 6
  pub waiting : is_open d.status ≡ true → d.attempts ≤ 5
  pub closed : is_open d.status ≡ false → d.retry_at ≡ none
  pub tried : d.status ≡ failed → 1 ≤ d.attempts

abbrev pub AreWellFormed : Store → Type 0
AreWellFormed s = All IsWellFormed s.deliveries

pub set_delivery-AreWellFormed :
    (id : ℕ) (f : Delivery → Delivery) (s : Store)
    → ((d : Delivery) → find_delivery id s ≡ some d → IsWellFormed (f d))
    → AreWellFormed s
    → AreWellFormed (set_delivery id f s)
set_delivery-AreWellFormed id f s h w =
    update_row-All delivery_id IsWellFormed id f s.deliveries h w

retry_time-some : (k now at : ℕ) → retry_time k now ≡ some at → k ≤ 5
unfolding retry_time next_retry_at
retry_time-some k now at h = ground arith

pub record_endpoint_failure-deliveries :
    (at id : ℕ) (s : Store) → (record_endpoint_failure at id s).deliveries ≡ s.deliveries
unfolding record_endpoint_failure disable_if_failing disable
record_endpoint_failure-deliveries at id s = ground arith

fail-AreWellFormed :
    (now : ℕ) (d : Delivery) (o : DeliveryOutcome) (ended : ℕ) (s : Store) (c : Counts)
    → d.attempts ≤ 5
    → AreWellFormed s
    → AreWellFormed (fail now d o ended (s, c)).0
unfolding fail given_up put_off
fail-AreWellFormed now d o ended s c h w = elim (Option-cases (retry_time (d.attempts + 1) now)) [
  | inl e ↦
      rw
        (
          e,
          fail,
          record_endpoint_failure-deliveries ended d.endpoint_id
              (set_delivery d.id (given_up (d.attempts + 1) o) s),
        )
        (set_delivery-AreWellFormed d.id (given_up (d.attempts + 1) o) s (λ a _. ground arith) w)
  | inr (at, e) ↦
      rw (e, fail)
        (set_delivery-AreWellFormed d.id (put_off (d.attempts + 1) at o) s
          (λ a _. ground (arith, retry_time-some (d.attempts + 1) now at e)) w)
]

conclude-AreWellFormed :
    (now : ℕ) (d : Delivery) (o : DeliveryOutcome) (ended : ℕ) (s : Store) (c : Counts)
    → d.attempts ≤ 5
    → AreWellFormed s
    → AreWellFormed (conclude now d o ended (s, c)).0
unfolding conclude settle_sent settled
conclude-AreWellFormed now d o ended s c h w = elim (Bool-cases o.success) [
  | inl e ↦
      simp e
        (set_delivery-AreWellFormed d.id (settled (d.attempts + 1) o) s (λ a _. ground arith) w)
  | inr e ↦ simp e (fail-AreWellFormed now d o ended s c h w)
]

module _ (outside : Outside) where
  deliver-AreWellFormed :
      (now : ℕ) (d : Delivery) (e : Endpoint) (s : Store) (c : Counts)
      → d.attempts ≤ 5
      → AreWellFormed s
      → AreWellFormed (deliver outside now d e (s, c)).0
  unfolding deliver dropped
  deliver-AreWellFormed now d e s c h w = elim (Bool-cases e.status) [
    | inl on ↦ simp on (
        conclude-AreWellFormed now d
          (outcome_of (reply_to outside e d.id d.payload)
            (reply_to outside e d.id d.payload).answer)
          (reply_to outside e d.id d.payload).ended s (record c { attempted = c.attempted + 1 }) h
          w)
    | inr off ↦ simp off (
        set_delivery-AreWellFormed d.id dropped s
          (λ a found.
            let v = find_row-All delivery_id IsWellFormed d.id s.deliveries a w found in
            ground arith)
          w)
  ]

  after_claim-AreWellFormed :
      (now id : ℕ) (s : Store) (c : Counts)
      → ((d : Delivery) → find_delivery id s ≡ some d → is_open d.status ≡ true)
      → AreWellFormed s
      → AreWellFormed (after_claim outside now id (s, c)).0
  unfolding after_claim
  after_claim-AreWellFormed now id s c open_row w = elim (Option-cases (find_delivery id s)) [
    | inl e ↦ rw (e, after_claim) w
    | inr (d, e) ↦ elim (Option-cases (find_endpoint d.endpoint_id s)) [
      | inl f ↦ rw (e, after_claim, f) w
      | inr (p, f) ↦
          let v = find_row-All delivery_id IsWellFormed id s.deliveries d w e in
          rw (e, after_claim, f) (deliver-AreWellFormed now d p s c (v.waiting (open_row d e)) w)
    ]
  ]

  attempt_row-AreWellFormed :
      (now : ℕ) (row : Row) (s : Store) (c : Counts)
      → is_open row.status ≡ true
      → AreWellFormed s
      → AreWellFormed (attempt_row outside now row (s, c)).0
  unfolding attempt_row can_claim leased
  attempt_row-AreWellFormed now row s c h w = elim (Option-cases (claim now row s)) [
    | inl e ↦ rw (e, attempt_row) w
    | inr (s', e) ↦
        let (d, found, fits, same) = claim-eq-some now row s s' e in
        let v = find_row-All delivery_id IsWellFormed row.id s.deliveries d w found in
        let still_open : is_open d.status ≡ true = ground arith in
        let held = find_delivery-set_delivery row.id (leased now) s d (λ a. refl) found in
        rw (e, attempt_row, same)
          (after_claim-AreWellFormed now row.id (set_delivery row.id (leased now) s) c
            (λ a f. let equal : leased now d ≡ a = ground arith in ground arith)
            (set_delivery-AreWellFormed row.id (leased now) s
              (λ a f. let equal : d ≡ a = ground arith in ground arith) w))
  ]

  attempt_rows-AreWellFormed :
      (now : ℕ) (rows : List Row) (s : Store) (c : Counts)
      → All (λ r. is_open r.status ≡ true) rows
      → AreWellFormed s
      → AreWellFormed (attempt_rows outside now rows (s, c)).0
  unfolding attempt_rows
  attempt_rows-AreWellFormed now [] s c h w = w
  attempt_rows-AreWellFormed now (row ∷ rows) s c (h, hs) w =
      attempt_rows-AreWellFormed now rows (attempt_row outside now row (s, c)).0
        (attempt_row outside now row (s, c)).1 hs (attempt_row-AreWellFormed now row s c h w)

abbrev AllDue : ℕ → List Delivery → Type 0
AllDue now = All (λ d. is_due now d ≡ true)

insert_due-AllDue :
    (now : ℕ) (d : Delivery) (ds : List Delivery)
    → is_due now d ≡ true
    → AllDue now ds
    → AllDue now (insert_due d ds)
unfolding insert_due
insert_due-AllDue now d [] h a = (h, tt)
insert_due-AllDue now d (e ∷ es) h (p, ps) = ground (arith, insert_due-AllDue now d es h ps)

due_rows-AllDue : (now : ℕ) (ds : List Delivery) → AllDue now (due_rows now ds)
unfolding due_rows
due_rows-AllDue now [] = tt
due_rows-AllDue now (d ∷ ds) = elim (Bool-cases (is_due now d)) [
  | inl e ↦ simp e (insert_due-AllDue now d (due_rows now ds) e (due_rows-AllDue now ds))
  | inr e ↦ simp e (due_rows-AllDue now ds)
]

rows-open :
    (n now : ℕ) (ds : List Delivery)
    → AllDue now ds
    → All (λ r. is_open r.status ≡ true) (map row_of (take n ds))
unfolding is_due
rows-open zero now ds a = tt
rows-open (suc n) now [] a = tt
rows-open (suc n) now (d ∷ ds) (p, ps) = (ground arith, rows-open n now ds ps)

-- A sweep keeps every delivery well formed, whatever the customers' servers answer: no delivery is
-- attempted more than six times, and one that is sent or given up has no further attempt.
pub sweep-AreWellFormed :
    (outside : Outside) (now : ℕ) (s : Store)
    → AreWellFormed s
    → AreWellFormed (sweep outside now s).0
unfolding sweep batch
sweep-AreWellFormed outside now s w =
    attempt_rows-AreWellFormed outside now (batch now s) s
      (record { attempted = 0; sent = 0; abandoned = 0 })
      (rows-open 100 now (due_rows now s.deliveries) (due_rows-AllDue now s.deliveries)) w
