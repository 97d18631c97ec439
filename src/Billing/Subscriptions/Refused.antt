-- ===== src/Billing/Subscriptions/Refused.antt =====
-- src/billing/billing.service.ts: an operation that is refused writes nothing.
use drasken_labs_communicati.Prelude.{
  ℕ, if◌then◌else◌, text_eq, ◌≡◌, refl, Text, Bool, true, false, List, [], ◌∷◌, ◌++◌, Option, none,
  some, inl, inr, Option-cases, ◌⊎◌,
}
use drasken_labs_communicati.Billing.Subscriptions.Rows.{Row, Plan, Call, Razorpay}
use drasken_labs_communicati.Billing.Subscriptions.Offer.{
  find, sellable_plan, Sellable, Refusal, Outcome, stop, done,
}
use drasken_labs_communicati.Billing.Subscriptions.Change.{
  cancel_pending, downgrade_made, upgrade_made, cancel_made, downgrade_asked, upgrade_asked,
  cancel_asked, ask_upgrade, ask_downgrade, ask_cancel, upgrade_or_downgrade, current_price,
  change_guard, raise_of, change_found, cancel_guard, change_to, change_allowed, schedule_downgrade,
  start_upgrade, cancel_found, cancel_allowed, with_mandate, answered, change_plan, cancel,
}
use drasken_labs_communicati.Billing.Subscriptions.Register.{
  resubscribe_made, resubscribe_asked, mandate_made, ask_resubscribe, mandate_asked, ask_mandate,
  resubscribe_as, refresh, org_customer_id, new_customer, customer_in, register, register_plan,
  start_resubscribe, open_mandate, register_over,
}
use drasken_labs_communicati.Billing.Subscriptions.Remote.{is_finished}
use drasken_labs_communicati.Prelude.Words.{or_else}

-- Either the operation is done, or the rows are those it began with.
abbrev pub IsSafe : List Row → Outcome → Type 0
IsSafe rows o = (o.result ≡ done) ⊎ (o.rows ≡ rows)

-- What holds of every way that an operation goes on holds of the operation.
module _ (P : Outcome → Type 0) where
  pub if_holds : (b : Bool) (x y : Outcome) → P x → P y → P (if b then x else y)
  if_holds true x y h k = h
  if_holds false x y h k = k

  pub if_not : (b : Bool) (x y : Outcome) → b ≡ false → P y → P (if b then x else y)
  if_not true x y e h = cc
  if_not false x y e h = h

  pub with_mandate-holds :
      (sub : Row) (calls : List Call) (rows : List Row) (next : Text → Outcome)
      → P (stop Refusal.billed_through_agency calls rows)
      → ((id : Text) → P (next id))
      → P (with_mandate sub calls rows next)
  with_mandate-holds sub calls rows next h k = elim (Option-cases sub.razorpay_subscription_id) [
    | inl e ↦ rw e h
    | inr ([], e) ↦ rw e h
    | inr (c ∷ s, e) ↦ rw e (k (c ∷ s))
  ]

  pub answered-holds {ℓ} :
      {A : Type ℓ} (o : Option A) (calls : List Call) (rows : List Row) (next : A → Outcome)
      → P (stop Refusal.provider_failed calls rows)
      → ((a : A) → P (next a))
      → P (answered o calls rows next)
  answered-holds none calls rows next h k = h
  answered-holds (some a) calls rows next h k = k a

start_upgrade-IsSafe :
    (razorpay : Razorpay) (now : ℕ) (sub : Row) (target : Sellable) (difference : ℕ)
    (rows : List Row)
    → IsSafe rows (start_upgrade razorpay now sub target difference rows)
unfolding start_upgrade
start_upgrade-IsSafe razorpay now sub target difference rows =
    with_mandate-holds (IsSafe rows) sub [] rows
      (ask_upgrade razorpay now sub target difference rows) (inr refl)
      (λ mandate.
        answered-holds (IsSafe rows) _ (upgrade_asked sub target) rows
          (upgrade_made now sub target difference rows) (inr refl) (λ created. inl refl))

schedule_downgrade-IsSafe :
    (razorpay : Razorpay) (sub : Row) (target : Sellable) (rows : List Row)
    → IsSafe rows (schedule_downgrade razorpay sub target rows)
unfolding schedule_downgrade
schedule_downgrade-IsSafe razorpay sub target rows =
    with_mandate-holds (IsSafe rows) sub [] rows (ask_downgrade razorpay sub target rows) (inr refl)
      (λ mandate.
        answered-holds (IsSafe rows) _ (downgrade_asked target mandate) rows
          (downgrade_made sub target rows mandate) (inr refl) (λ changed. inl refl))

change_allowed-IsSafe :
    (guard : Option Refusal) (razorpay : Razorpay) (plans : List Plan) (now : ℕ) (sub : Row)
    (target : Sellable) (rows : List Row)
    → IsSafe rows (change_allowed guard razorpay plans now sub target rows)
change_allowed-IsSafe (some why) razorpay plans now sub target rows = inr refl
change_allowed-IsSafe none razorpay plans now sub target rows =
    elim (raise_of (current_price razorpay plans sub) target.plan.price)
      as (λ o. IsSafe rows (upgrade_or_downgrade o razorpay now sub target rows)) [
        | none ↦ schedule_downgrade-IsSafe razorpay sub target rows
        | some difference ↦ start_upgrade-IsSafe razorpay now sub target difference rows
      ]

change_found-IsSafe :
    (found : Option Row) (razorpay : Razorpay) (plans : List Plan) (now : ℕ) (target : Sellable)
    (rows : List Row)
    → IsSafe rows (change_found found razorpay plans now target rows)
change_found-IsSafe none razorpay plans now target rows = inr refl
change_found-IsSafe (some sub) razorpay plans now target rows =
    change_allowed-IsSafe (change_guard sub target) razorpay plans now sub target rows

change_to-IsSafe :
    (choice : Refusal ⊎ Sellable) (razorpay : Razorpay) (plans : List Plan) (now : ℕ) (org : Text)
    (rows : List Row)
    → IsSafe rows (change_to choice razorpay plans now org rows)
change_to-IsSafe (inl why) razorpay plans now org rows = inr refl
change_to-IsSafe (inr target) razorpay plans now org rows =
    change_found-IsSafe (find org rows) razorpay plans now target rows

change_plan-IsSafe :
    (razorpay : Razorpay) (plans : List Plan) (now : ℕ) (org code : Text) (rows : List Row)
    → IsSafe rows (change_plan razorpay plans now org code rows)
unfolding change_plan
change_plan-IsSafe razorpay plans now org code rows =
    if_holds (IsSafe rows) razorpay.is_configured
      (change_to (sellable_plan plans code org) razorpay plans now org rows)
      (stop Refusal.not_configured [] rows)
      (change_to-IsSafe (sellable_plan plans code org) razorpay plans now org rows) (inr refl)

cancel_allowed-IsSafe :
    (guard : Option Refusal) (razorpay : Razorpay) (now : ℕ) (sub : Row) (rows : List Row)
    → IsSafe rows (cancel_allowed guard razorpay now sub rows)
cancel_allowed-IsSafe (some why) razorpay now sub rows = inr refl
cancel_allowed-IsSafe none razorpay now sub rows =
    with_mandate-holds (IsSafe rows) sub [] rows (ask_cancel razorpay now sub rows) (inr refl)
      (λ mandate.
        answered-holds (IsSafe rows) _ (cancel_asked now sub mandate) rows
          (cancel_made now sub rows mandate) (inr refl) (λ remote. inl refl))

cancel_found-IsSafe :
    (found : Option Row) (razorpay : Razorpay) (now : ℕ) (rows : List Row)
    → IsSafe rows (cancel_found found razorpay now rows)
cancel_found-IsSafe none razorpay now rows = inr refl
cancel_found-IsSafe (some sub) razorpay now rows =
    cancel_allowed-IsSafe (cancel_guard sub) razorpay now sub rows

start_resubscribe-IsSafe :
    (razorpay : Razorpay) (now : ℕ) (sub : Row) (plan : Sellable) (rows : List Row)
    → IsSafe rows (start_resubscribe razorpay now sub plan rows)
unfolding start_resubscribe
start_resubscribe-IsSafe razorpay now sub plan rows =
    let (asked, customer) =
      new_customer razorpay
        (or_else sub.razorpay_customer_id (org_customer_id sub.sso_org_id rows)) in
    let before = cancel_pending sub.pending_razorpay_subscription_id ++ asked in
    answered-holds (IsSafe rows) customer before rows
      (resubscribe_as before razorpay now sub plan rows) (inr refl)
      (λ id.
        with_mandate-holds (IsSafe rows) sub before rows
          (ask_resubscribe before razorpay now sub plan rows id) (inr refl)
          (λ mandate.
            answered-holds (IsSafe rows) _ (resubscribe_asked before now sub plan id) rows
              (resubscribe_made before now sub plan rows id) (inr refl) (λ created. inl refl)))

module _ (razorpay : Razorpay) (now next_id user : ℕ) (org : Text) where
  open_mandate-IsSafe :
      (existing : Option Row) (plan : Sellable) (rows : List Row)
      → IsSafe rows (open_mandate razorpay now next_id user org existing plan rows)
  unfolding open_mandate
  open_mandate-IsSafe existing plan rows =
      let reused = customer_in existing (org_customer_id org rows) in
      let (asked, customer) = new_customer razorpay reused in
      let before = refresh reused ++ asked in
      answered-holds (IsSafe rows) customer before rows
        (ask_mandate razorpay now next_id user org before existing plan rows) (inr refl)
        (λ id.
          answered-holds (IsSafe rows) _
            (mandate_asked razorpay now next_id user org before plan id) rows
            (mandate_made razorpay now next_id user org before existing plan rows id) (inr refl)
            (λ created. inl refl))

  register_over-IsSafe :
      (existing : Option Row) (plan : Sellable) (rows : List Row)
      → IsSafe rows (register_over razorpay now next_id user org existing plan rows)
  register_over-IsSafe none plan rows = open_mandate-IsSafe none plan rows
  register_over-IsSafe (some sub) plan rows =
      if_holds (IsSafe rows) (is_finished sub) _ _ (open_mandate-IsSafe (some sub) plan rows) (
        if_holds (IsSafe rows) sub.cancel_at_cycle_end _ _
          (start_resubscribe-IsSafe razorpay now sub plan rows) (inr refl))

  register_plan-IsSafe :
      (choice : Refusal ⊎ Sellable) (payer : Text) (rows : List Row)
      → IsSafe rows (register_plan razorpay now next_id user org choice payer rows)
  register_plan-IsSafe (inl why) payer rows = inr refl
  register_plan-IsSafe (inr plan) payer rows =
      if_holds (IsSafe rows) (text_eq payer org) _ _
        (register_over-IsSafe (find org rows) plan rows) (inr refl)

  -- Whatever Razorpay answers, and whichever of its calls throw: register, changePlan and cancel either
  -- go through or leave every row as it was.
  pub operations-AreSafe :
      (plans : List Plan) (code payer : Text) (rows : List Row)
      → IsSafe rows (register razorpay now next_id user org plans code payer rows)
        × IsSafe rows (change_plan razorpay plans now org code rows)
        × IsSafe rows (cancel razorpay now org rows)
  unfolding register cancel
  operations-AreSafe plans code payer rows = (
    if_holds (IsSafe rows) razorpay.is_configured _ _
        (register_plan-IsSafe (sellable_plan plans code org) payer rows) (inr refl),
    change_plan-IsSafe razorpay plans now org code rows,
    cancel_found-IsSafe (find org rows) razorpay now rows,
  )
