-- ===== src/Billing/Subscriptions/Periods.antt =====
-- src/billing/billing.service.ts: the periods that deliveries and sweeps leave on mandates of an
-- organisation's own.
use drasken_labs_communicati.Prelude.{
  ℕ, ◌≡◌, refl, sym, subst, truthy, true, false, List, [], ◌∷◌, Option, none, some, inl, inr,
  Bool-cases, if◌then◌else◌, take, ◌&&◌, any,
}
use drasken_labs_communicati.Prelude.Table.{find_first}
use drasken_labs_communicati.Billing.Subscriptions.Rows.{
  Group, Row, Plan, RazorpaySubscription, PaymentData, Razorpay,
}
use drasken_labs_communicati.Billing.Subscriptions.Remote.{apply_remote, payment_row}
use drasken_labs_communicati.Billing.Subscriptions.Webhook.{
  charged_store, handle_group, handle_charge, record_group_payment, Delivery, Store, record_payment,
  handle_own, handle_found, handle_entity, handle_new, handle_webhook, with_event, has_mandate,
  is_event, is_subscription_event,
}
use drasken_labs_communicati.Billing.Subscriptions.Reconcile.{
  reconcile, reconcile_each, reconcile_with, stale, fetch_own,
}
use drasken_labs_communicati.Billing.Subscriptions.Once.{Arrival, receive}
use drasken_labs_communicati.Billing.Subscriptions.Groups.{enum_status, is_group}
use drasken_labs_communicati.Billing.Access.{SubscriptionStatus}
use drasken_labs_communicati.Billing.Subscriptions.Ends.{
  AreLater, AreLater-refl, AreLater-trans, apply_remote-AreLater, charge_clients-AreLater,
}

module _ (plans : List Plan) (now : ℕ) where
  record_payment-rows :
      (id : ℕ) (details : Option PaymentData) (store : Store)
      → (record_payment id details store).1.rows ≡ store.rows
  record_payment-rows id none store = refl
  record_payment-rows id (some details) store = refl

  record_group_payment-rows :
      (id : ℕ) (details : Option PaymentData) (store : Store)
      → (record_group_payment id details store).1.rows ≡ store.rows
  record_group_payment-rows id none store = refl
  record_group_payment-rows id (some details) store = refl

  handle_charge-AreLater :
      (status : Option SubscriptionStatus) (d : Delivery) (entity : RazorpaySubscription)
      (group : Group) (store : Store)
      → AreLater store.rows (handle_charge plans now status d entity group store).0.rows
  handle_charge-AreLater none d entity group store = AreLater-refl store.rows
  handle_charge-AreLater (some status) d entity group store =
      subst (AreLater store.rows)
        (sym (
          record_group_payment-rows group.id (payment_row d.payment)
            (charged_store plans now status entity group store)))
        (charge_clients-AreLater group.id status entity store.rows)

  handle_group-AreLater :
      (d : Delivery) (entity : RazorpaySubscription) (found : Option Group) (store : Store)
      → AreLater store.rows (handle_group plans now d entity found store).0.rows
  handle_group-AreLater d entity none store = AreLater-refl store.rows
  handle_group-AreLater d entity (some group) store =
      handle_charge-AreLater (enum_status entity.status) d entity group store

  handle_found-AreLater :
      (d : Delivery) (entity : RazorpaySubscription) (found : Option Row) (store : Store)
      → AreLater store.rows (handle_found plans now d entity found store).0.rows
  unfolding handle_own
  handle_found-AreLater d entity none store =
      handle_group-AreLater d entity (find_first (is_group entity.id) store.groups) store
  handle_found-AreLater d entity (some sub) store =
      let rows = apply_remote plans now sub entity store.rows in
      subst (AreLater store.rows)
        (sym (record_payment-rows sub.id (payment_row d.payment) (record store { rows = rows })))
        (apply_remote-AreLater plans now sub entity store.rows)

  handle_new-AreLater :
      (d : Delivery) (entity : Option RazorpaySubscription) (store : Store)
      → AreLater store.rows (handle_new plans now d entity store).0.rows
  unfolding handle_entity
  handle_new-AreLater d none store = AreLater-refl store.rows
  handle_new-AreLater d (some entity) store =
      elim (Bool-cases (truthy (some entity.id) && is_subscription_event d.event)) [
        | inl ours ↦
            rw ours
              (handle_found-AreLater d entity (find_first (has_mandate entity.id) store.rows) store)
        | inr other ↦ rw other (AreLater-refl store.rows)
      ]

  handle_webhook-AreLater :
      (d : Delivery) (store : Store) → AreLater store.rows (handle_webhook plans now d store).0.rows
  unfolding handle_webhook
  handle_webhook-AreLater d store = elim (Bool-cases (any (is_event d.event_id) store.events)) [
    | inl known ↦ rw known (AreLater-refl store.rows)
    | inr fresh ↦ rw fresh (handle_new-AreLater d d.entity (with_event d store))
  ]

module _ (plans : List Plan) (now : ℕ) (razorpay : Razorpay) where
  reconcile_with-AreLater :
      (remote : Option RazorpaySubscription) (sub : Row) (rows : List Row)
      → AreLater rows (reconcile_with plans now remote sub rows)
  reconcile_with-AreLater none sub rows = AreLater-refl rows
  reconcile_with-AreLater (some remote) sub rows = apply_remote-AreLater plans now sub remote rows

  reconcile_each-AreLater :
      (subs rows : List Row) → AreLater rows (reconcile_each plans now razorpay subs rows)
  unfolding reconcile_each
  reconcile_each-AreLater [] rows = AreLater-refl rows
  reconcile_each-AreLater (sub ∷ subs) rows =
      let remote = fetch_own plans now razorpay sub.razorpay_subscription_id in
      let next = reconcile_with plans now remote sub rows in
      AreLater-trans rows next (reconcile_each plans now razorpay subs next)
        (reconcile_with-AreLater remote sub rows) (reconcile_each-AreLater subs next)

  reconcile-AreLater : (rows : List Row) → AreLater rows (reconcile plans now razorpay rows)
  unfolding reconcile
  reconcile-AreLater rows =
      elim razorpay.is_configured
        as (λ b. AreLater rows (
          if b
          then reconcile_each plans now razorpay (take 100 (stale plans now rows)) rows
          else rows)) [
            | true ↦ reconcile_each-AreLater (take 100 (stale plans now rows)) rows
            | false ↦ AreLater-refl rows
          ]

-- What Razorpay tells us: a delivery, or a sweep.
pub data News : Type 0 where
  delivered : (a : Arrival) → News
  swept : (plans : List Plan) (now : ℕ) (razorpay : Razorpay) → News

abbrev pub hear : News → Store → Store
hear (delivered a) store = (receive a store).0
hear (swept plans now razorpay) store = record store {
  rows = reconcile plans now razorpay store.rows;
}

unfoldable pub hear_all : List News → Store → Store
hear_all [] store = store
hear_all (n ∷ news) store = hear_all news (hear n store)

hear-AreLater : (n : News) (store : Store) → AreLater store.rows (hear n store).rows
unfolding receive
hear-AreLater (delivered a) store = handle_webhook-AreLater a.plans a.now a.delivery store
hear-AreLater (swept plans now razorpay) store = reconcile-AreLater plans now razorpay store.rows

-- Whatever deliveries arrive, late, repeated or out of order, and whatever the sweeps read in between:
-- no paid period of a subscription that
-- is charged on its own mandate ever ends earlier than it did.
pub hear_all-AreLater :
    (news : List News) (store : Store) → AreLater store.rows (hear_all news store).rows
unfolding hear_all
hear_all-AreLater [] store = AreLater-refl store.rows
hear_all-AreLater (n ∷ news) store =
    AreLater-trans store.rows (hear n store).rows (hear_all news (hear n store)).rows
      (hear-AreLater n store) (hear_all-AreLater news (hear n store))
