-- ===== src/Webhooks/Outbox/History.antt =====
-- src/webhooks/webhook-dispatcher.service.ts: the outbox after any run of the service.
use drasken_labs_communicati.Prelude.{
  ℕ, suc, sym, ap, subst, ◌≤◌, Text, List, [], ◌∷◌, ◌++◌, arith, All, Bool-cases, inl, inr,
}
use drasken_labs_communicati.Prelude.Table.{find_row-All}
use drasken_labs_communicati.Webhooks.Store.{DescribedEvent, Delivery, Endpoint, Store}
use drasken_labs_communicati.Webhooks.Dispatcher.{Outside, DeliveryOutcome, outcome_of, reply_to}
use drasken_labs_communicati.Webhooks.Settle.{delivery_id, set_delivery}
use drasken_labs_communicati.Webhooks.Outbox.{
  is_open, enqueue, sweep, send_test, test_delivery, tested,
}
use drasken_labs_communicati.Webhooks.Outbox.Attempt.{
  IsWellFormed, AreWellFormed, sweep-AreWellFormed, set_delivery-AreWellFormed,
}
use drasken_labs_communicati.Webhooks.Outbox.Queue.{AreQueued, enqueue-Adds}

-- The calls that the rest of the program makes; each sweep meets servers of its own.
pub data Call : Type 0 where
  enqueues : Text → ℕ → Text → DescribedEvent → Text → ℕ → Call
  sweeps : Outside → ℕ → Call
  tests : Outside → ℕ → Endpoint → Call

pub step : Call → Store → Store
step (enqueues waba_id event_id event_type described raw now) s =
    enqueue waba_id event_id event_type described raw now s
step (sweeps outside now) s = (sweep outside now s).0
step (tests outside now e) s = (send_test outside now e s).0

pub run : List Call → Store → Store
run [] s = s
run (c ∷ cs) s = run cs (step c s)

All-append :
    (ds es : List Delivery)
    → All IsWellFormed ds
    → All IsWellFormed es
    → All IsWellFormed (ds ++ es)
All-append [] es a b = b
All-append (d ∷ ds) es (p, ps) b = (p, All-append ds es ps b)

AreQueued-AreWellFormed :
    (w : Text) (i : ℕ) (t : Text) (d : DescribedEvent) (r : Text) (now n : ℕ) (es : List Endpoint)
    (ds : List Delivery)
    → AreQueued w i t d r now n es ds
    → All IsWellFormed ds
AreQueued-AreWellFormed w i t d r now n [] ds none_added =
    subst (All IsWellFormed) (sym none_added) tt
AreQueued-AreWellFormed w i t d r now n (e ∷ es) ds (inl (l, (x, (rest, (same, (q, more)))))) =
    subst (All IsWellFormed) (sym same) (
      record {
        bounded = omega (arith, q.attempts);
        waiting = λ still. omega (arith, q.attempts);
        closed = λ settled. let is = ap is_open q.status in cc;
        tried = λ tried. let is = q.status in cc;
      },
      AreQueued-AreWellFormed w i t d r now (suc n) es rest more,
    )
AreQueued-AreWellFormed w i t d r now n (e ∷ es) ds (inr (l, more)) =
    AreQueued-AreWellFormed w i t d r now n es ds more

tested-IsWellFormed :
    (o : DeliveryOutcome) (d : Delivery) → d.attempts ≤ 6 → IsWellFormed (tested o d)
unfolding tested
tested-IsWellFormed o d h = elim (Bool-cases o.success) [
  | inl e ↦ simp e (ground arith)
  | inr e ↦ simp e (ground arith)
]

test_delivery-AreWellFormed :
    (now : ℕ) (e : Endpoint) (o : DeliveryOutcome) (s : Store)
    → AreWellFormed s
    → AreWellFormed (
        set_delivery s.next_delivery (tested o) (record s {
          deliveries = s.deliveries ++ test_delivery now e s.next_delivery ∷ [];
          next_delivery = suc s.next_delivery;
        }))
unfolding test_delivery
test_delivery-AreWellFormed now e o s h =
    let d = test_delivery now e s.next_delivery in
    let created = record s {
      deliveries = s.deliveries ++ d ∷ [];
      next_delivery = suc s.next_delivery;
    } in
    let all_well : AreWellFormed created = All-append s.deliveries (d ∷ []) h (ground arith, tt) in
    set_delivery-AreWellFormed s.next_delivery (tested o) created
      (λ a found.
        let v =
          find_row-All delivery_id IsWellFormed s.next_delivery created.deliveries a all_well
            found in
        tested-IsWellFormed o a v.bounded)
      all_well

step-AreWellFormed : (c : Call) (s : Store) → AreWellFormed s → AreWellFormed (step c s)
unfolding step send_test test_delivery
step-AreWellFormed (enqueues w i t d r now) s h =
    let a = enqueue-Adds w i t d r now s in
    rw a.rows (
      All-append s.deliveries a.added h
        (AreQueued-AreWellFormed w i t d r now s.next_delivery s.endpoints a.added a.for_listeners))
step-AreWellFormed (sweeps outside now) s h = sweep-AreWellFormed outside now s h
step-AreWellFormed (tests outside now e) s h =
    let d = test_delivery now e s.next_delivery in
    let r = reply_to outside e d.id d.payload in
    let o = outcome_of r r.answer in
    let w = test_delivery-AreWellFormed now e o s h in
    elim (Bool-cases o.success) [ inl good ↦ simp good w | inr bad ↦ simp bad w ]

-- After any run of queueing, sweeps (whatever the servers answer in each) and tests, from a
-- well-formed outbox: no delivery has more than six attempts behind it, none that waits has more
-- than five, a settled one has no next attempt and a failed one had a first.
pub run-AreWellFormed : (cs : List Call) (s : Store) → AreWellFormed s → AreWellFormed (run cs s)
unfolding run
run-AreWellFormed [] s h = h
run-AreWellFormed (c ∷ cs) s h = run-AreWellFormed cs (step c s) (step-AreWellFormed c s h)
