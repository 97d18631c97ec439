-- ===== src/Billing/Subscriptions/Payments.antt =====
-- src/billing/billing.service.ts: a debit is recorded once.
use drasken_labs_communicati.Prelude.{
  ℕ, ◌≡◌, ◌≢◌, ap, refl, sym, subst, ◌∙◌, Text, text_eq, text_eq_refl, text_eq_sound, truthy, Bool,
  true, false, ◌&&◌, any, List, [], ◌∷◌, Option, none, some, inl, inr, Bool-cases,
}
use drasken_labs_communicati.Prelude.Table.{find_first, upsert_first, find_first-upsert_other}
use drasken_labs_communicati.Billing.Subscriptions.Rows.{
  Group, Row, Plan, RazorpaySubscription, PaymentData, PaymentRow,
}
use drasken_labs_communicati.Billing.Subscriptions.Remote.{
  new_payment, is_payment, with_details, write_payment, payment_row, apply_remote,
}
use drasken_labs_communicati.Billing.Subscriptions.Webhook.{
  charged_store, record_group_payment, handle_charge, handle_group, Delivery, Store, record_payment,
  handle_own, handle_found, handle_entity, handle_new, handle_webhook, with_event, is_event,
  has_mandate, is_subscription_event,
}
use drasken_labs_communicati.Billing.Subscriptions.Once.{receive}
use drasken_labs_communicati.Billing.Subscriptions.Periods.{News, hear, hear_all, delivered, swept}
use drasken_labs_communicati.Billing.Subscriptions.Groups.{
  with_verdict, enum_status, is_group, write_group_payment,
}
use drasken_labs_communicati.Billing.Access.{SubscriptionStatus}

abbrev pub payment_of : PaymentRow → Text
payment_of row = row.details.razorpay_payment_id

true_is_not_false : ◌≢◌ {A = Bool} true false
true_is_not_false h = cc

apart_sym : (s t : Text) → text_eq s t ≡ false → text_eq t s ≡ false
apart_sym s t h = elim (Bool-cases (text_eq t s)) [
  | inl same ↦
      let here = text_eq_sound t s same in
      absurd (true_is_not_false (sym (text_eq_refl s) ∙ ap (text_eq s) (sym here) ∙ h))
  | inr other ↦ other
]

-- No two rows are of one payment.
unfoldable pub AreDistinct : List PaymentRow → Type 0
AreDistinct [] = Unit
AreDistinct (row ∷ rows) = (find_first (is_payment (payment_of row)) rows ≡ none) × AreDistinct rows

upsert_payment-AreDistinct :
    (new : PaymentRow) (f : PaymentRow → PaymentRow)
    → ((row : PaymentRow) → (payment_of row ≡ payment_of new) → payment_of (f row) ≡ payment_of new)
    → (rows : List PaymentRow) → AreDistinct rows
    → AreDistinct (upsert_first (is_payment (payment_of new)) new f rows)
unfolding AreDistinct upsert_first find_first
upsert_payment-AreDistinct new f key [] h = (refl, tt)
upsert_payment-AreDistinct new f key (row ∷ rows) (fresh, h) =
    elim (Bool-cases (is_payment (payment_of new) row)) [
      | inl hit ↦
          let same = text_eq_sound (payment_of row) (payment_of new) hit in
          rw hit (
            subst (λ k. find_first (is_payment k) rows ≡ none) (same ∙ sym (key row same)) fresh,
            h,
          )
      | inr miss ↦
          let apart = apart_sym (payment_of row) (payment_of new) miss in
          rw miss (
            find_first-upsert_other (is_payment (payment_of new)) (is_payment (payment_of row)) new
                  f rows apart
                  (λ a hit.
                    let same = text_eq_sound (payment_of a) (payment_of new) hit in
                    (
                      ap (λ k. text_eq k (payment_of row)) same ∙ apart,
                      ap (λ k. text_eq k (payment_of row)) (key a same) ∙ apart,
                    ))
                ∙ fresh,
            upsert_payment-AreDistinct new f key rows h,
          )
    ]

module _ (plans : List Plan) (now : ℕ) where
  record_payment-AreDistinct :
      (id : ℕ) (details : Option PaymentData) (store : Store)
      → AreDistinct store.payments
      → AreDistinct (record_payment id details store).1.payments
  unfolding write_payment
  record_payment-AreDistinct id none store h = h
  record_payment-AreDistinct id (some details) store h =
      upsert_payment-AreDistinct (new_payment store.next_payment_id (some id) none details)
        (with_details details) (λ row same. refl) store.payments h

  record_group_payment-AreDistinct :
      (id : ℕ) (details : Option PaymentData) (store : Store)
      → AreDistinct store.payments
      → AreDistinct (record_group_payment id details store).1.payments
  unfolding write_group_payment
  record_group_payment-AreDistinct id none store h = h
  record_group_payment-AreDistinct id (some details) store h =
      upsert_payment-AreDistinct (new_payment store.next_payment_id none (some id) details)
        (with_verdict details) (λ row same. same) store.payments h

  handle_charge-AreDistinct :
      (status : Option SubscriptionStatus) (d : Delivery) (entity : RazorpaySubscription)
      (group : Group) (store : Store)
      → AreDistinct store.payments
      → AreDistinct (handle_charge plans now status d entity group store).0.payments
  handle_charge-AreDistinct none d entity group store h = h
  handle_charge-AreDistinct (some status) d entity group store h =
      record_group_payment-AreDistinct group.id (payment_row d.payment)
        (charged_store plans now status entity group store) h

  handle_group-AreDistinct :
      (d : Delivery) (entity : RazorpaySubscription) (found : Option Group) (store : Store)
      → AreDistinct store.payments
      → AreDistinct (handle_group plans now d entity found store).0.payments
  handle_group-AreDistinct d entity none store h = h
  handle_group-AreDistinct d entity (some group) store h =
      handle_charge-AreDistinct (enum_status entity.status) d entity group store h

  handle_found-AreDistinct :
      (d : Delivery) (entity : RazorpaySubscription) (found : Option Row) (store : Store)
      → AreDistinct store.payments
      → AreDistinct (handle_found plans now d entity found store).0.payments
  unfolding handle_own
  handle_found-AreDistinct d entity none store h =
      handle_group-AreDistinct d entity (find_first (is_group entity.id) store.groups) store h
  handle_found-AreDistinct d entity (some sub) store h =
      record_payment-AreDistinct sub.id (payment_row d.payment)
        (record store { rows = apply_remote plans now sub entity store.rows }) h

  handle_new-AreDistinct :
      (d : Delivery) (entity : Option RazorpaySubscription) (store : Store)
      → AreDistinct store.payments
      → AreDistinct (handle_new plans now d entity store).0.payments
  unfolding handle_entity
  handle_new-AreDistinct d none store h = h
  handle_new-AreDistinct d (some entity) store h =
      elim (Bool-cases (truthy (some entity.id) && is_subscription_event d.event)) [
        | inl ours ↦ rw ours (
            handle_found-AreDistinct d entity (find_first (has_mandate entity.id) store.rows) store
              h)
        | inr other ↦ rw other h
      ]

  handle_webhook-AreDistinct :
      (d : Delivery) (store : Store)
      → AreDistinct store.payments
      → AreDistinct (handle_webhook plans now d store).0.payments
  unfolding handle_webhook
  handle_webhook-AreDistinct d store h =
      elim (Bool-cases (any (is_event d.event_id) store.events)) [
        | inl known ↦ rw known h
        | inr fresh ↦ rw fresh (handle_new-AreDistinct d d.entity (with_event d store) h)
      ]

hear-AreDistinct :
    (n : News) (store : Store) → AreDistinct store.payments → AreDistinct (hear n store).payments
unfolding receive
hear-AreDistinct (delivered a) store h = handle_webhook-AreDistinct a.plans a.now a.delivery store h
hear-AreDistinct (swept plans now razorpay) store h = h

-- If no two rows of the payments are of one debit, none are after any deliveries and sweeps, however
-- often and under however many events a debit is reported.
pub hear_all-AreDistinct :
    (news : List News) (store : Store)
    → AreDistinct store.payments
    → AreDistinct (hear_all news store).payments
unfolding hear_all
hear_all-AreDistinct [] store h = h
hear_all-AreDistinct (n ∷ news) store h =
    hear_all-AreDistinct news (hear n store) (hear-AreDistinct n store h)
