-- ===== src/Billing/Subscriptions/Offer.antt =====
-- src/billing/billing.service.ts: how an operation of a customer ends, the row that it is about and the plan
-- that may be sold. An operation that is refused throws.
use drasken_labs_communicati.Prelude.Table.{find_first, update_row}
use drasken_labs_communicati.Prelude.{
  ℕ, ◌/◌, ◌⊎◌, inl, inr, Text, codes, Bool, true, false, ◌&&◌, List, [], ◌∷◌, Option, none, some,
  text_eq, truthy, if◌then◌else◌,
}
use drasken_labs_communicati.Billing.Subscriptions.Rows.{Row, Plan, Call}
use drasken_labs_communicati.Billing.Subscriptions.Remote.{row_key}

-- What an operation throws.
pub data Refusal : Type 0 where
  not_configured not_on_offer priced_individually not_available plan_required
        billed_through_agency :
      Refusal
  already_subscribed no_subscription has_ended set_to_end not_authorised already_on_plan : Refusal
  belongs_to_another not_verified provider_failed : Refusal

pub data Result : Type 0 where
  refused : (why : Refusal) → Result
  done : Result

-- How an operation ends, what it has asked of Razorpay by then, and the rows.
pub record Outcome : Type 0 where
  pub result : Result
  pub calls : List Call
  pub rows : List Row

abbrev pub stop : Refusal → List Call → List Row → Outcome
stop why calls rows = record { result = refused why; calls = calls; rows = rows }

abbrev pub finish : List Call → List Row → Outcome
finish calls rows = record { result = done; calls = calls; rows = rows }

-- `find`: the row of the organisation itself.
abbrev pub is_own : Text → Row → Bool
is_own org sub = elim sub.waba_id as (λ _. Bool) [
  | none ↦ text_eq sub.sso_org_id org
  | some id ↦ false
]

unfoldable pub find : Text → List Row → Option Row
find org rows = find_first (is_own org) rows

-- The query of `sellablePlan`.
abbrev pub is_offered : Text → Text → Plan → Bool
is_offered code org plan =
    text_eq plan.code code
    && (plan.active && elim plan.sso_org_id as (λ _. Bool) [
      | none ↦ true
      | some owner ↦ text_eq owner org && truthy (some org)
    ])

-- A plan that can be charged, with its id at Razorpay.
pub record Sellable : Type 0 where
  pub plan : Plan
  pub razorpay_plan_id : Text

abbrev pub chargeable : Plan → Option Text → Refusal ⊎ Sellable
chargeable plan none = inl not_available
chargeable plan (some []) = inl not_available
chargeable plan (some (c ∷ s)) = inr (record { plan = plan; razorpay_plan_id = c ∷ s })

abbrev pub sold : Option Plan → Refusal ⊎ Sellable
sold none = inl not_on_offer
sold (some plan) =
    if text_eq plan.cta_kind (codes "contact")
    then inl priced_individually
    else chargeable plan plan.razorpay_plan_id

-- `sellablePlan`, and the refusal of no plan.
unfoldable pub sellable_plan : List Plan → Text → Text → Refusal ⊎ Sellable
sellable_plan plans [] org = inl plan_required
sellable_plan plans (c ∷ s) org = sold (find_first (is_offered (c ∷ s) org) plans)

abbrev pub update_sub : ℕ → (Row → Row) → List Row → List Row
update_sub id f rows = update_row row_key id f rows

-- `Math.floor(date.getTime() / 1000)`.
abbrev pub seconds_of : Option ℕ → Option ℕ
seconds_of none = none
seconds_of (some at) = some (at / 1000)
