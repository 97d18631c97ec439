-- ===== src/Webhooks/Outbox/Lease.antt =====
-- src/webhooks/webhook-dispatcher.service.ts: how long a claimed delivery is held.
use drasken_labs_communicati.Prelude.{
  ℕ, ◌+◌, ◌≡◌, refl, true, none, some, arith, ltb, if◌then◌else◌,
}
use drasken_labs_communicati.Prelude.Table.{find_row-update_row}
use drasken_labs_communicati.Webhooks.Store.{Delivery, Store}
use drasken_labs_communicati.Webhooks.Dispatcher.{lease_minutes, minutes}
use drasken_labs_communicati.Webhooks.Settle.{delivery_id, find_delivery, set_delivery, leased}
use drasken_labs_communicati.Webhooks.Outbox.{Row, can_claim, claim}

-- A claim takes a row that is still as it was read, and holds it.
pub claim-eq-some :
    (now : ℕ) (row : Row) (s s' : Store)
    → claim now row s ≡ some s'
    → (d : Delivery) × (find_delivery row.id s ≡ some d)
      × (can_claim now row d ≡ true)
      × (s' ≡ set_delivery row.id (leased now) s)
unfolding claim
claim-eq-some now row s s' h = ground arith

pub find_delivery-set_delivery :
    (id : ℕ) (f : Delivery → Delivery) (s : Store) (d : Delivery)
    → ((a : Delivery) → (f a).id ≡ a.id)
    → find_delivery id s ≡ some d
    → find_delivery id (set_delivery id f s) ≡ some (f d)
find_delivery-set_delivery id f s d h e =
    ground (arith, find_row-update_row delivery_id id id f s.deliveries h)

-- After a claim by a sweep that began at `now`, a sweep that began at `later` can claim the row
-- again exactly when the lease is over, and the lease runs from `now`, the start of the first sweep.
pub claim_again :
    (now later : ℕ) (row : Row) (s s' : Store)
    → claim now row s ≡ some s'
    → claim later row s' ≡ (
        if ltb later (now + minutes lease_minutes)
        then none
        else some (set_delivery row.id (leased later) s'))
unfolding claim can_claim leased
claim_again now later row s s' h =
    let (d, found, fits, e) = claim-eq-some now row s s' h in
    let held = find_delivery-set_delivery row.id (leased now) s d (λ a. refl) found in
    rw e (ground (arith, held))
