-- ===== src/Billing/Subscriptions/Overage.antt =====
-- src/billing/billing.service.ts: what a charge leaves to bill beyond the plan (`billOverage`).
use drasken_labs_communicati.Prelude.Words.{or_value}
use drasken_labs_communicati.Prelude.{
  ℕ, zero, suc, ◌+◌, ◌-◌, Text, Bool, false, List, [], ◌∷◌, ◌++◌, Option, none, some, text_eq,
  length, if◌then◌else◌,
}
use drasken_labs_communicati.Billing.Subscriptions.Rows.{Row, Plan, Call}
use drasken_labs_communicati.Billing.Subscriptions.Effects.{plan_by_id}

-- `model WabaPhoneNumber`: an account's number, and whether it is live on the Cloud API.
pub record PhoneNumber : Type 0 where
  pub waba_id : Text
  pub is_cloud_api : Bool

-- `Math.max(0, count - included)`, where subtraction stops at 0.
abbrev pub beyond : ℕ → Option ℕ → ℕ
beyond count included = count - or_value included 0

-- The add-on of some number of extras at a price: none of no extras, or where no price is set.
abbrev pub addon : Text → Option ℕ → ℕ → List Call
addon mandate none extras = []
addon mandate (some zero) extras = []
addon mandate (some (suc price)) zero = []
addon mandate (some (suc price)) (suc extras) = Call.add_addon mandate (suc price) (suc extras) ∷ []

-- `billExtraWabas`.
unfoldable pub bill_extra_wabas : Text → Plan → ℕ → List Call
bill_extra_wabas mandate plan connected =
    addon mandate plan.additional_waba_price (beyond connected plan.included_wabas)

-- The numbers of one account that count, as `groupBy` counts them.
unfoldable pub registered : Text → List PhoneNumber → ℕ
registered waba_id [] = 0
registered waba_id (n ∷ numbers) =
    let rest = registered waba_id numbers in
    if (if text_eq n.waba_id waba_id then n.is_cloud_api else false) then suc rest else rest

-- The sum over the accounts; one without a number adds nothing.
unfoldable pub extra_numbers : Option ℕ → List PhoneNumber → List Text → ℕ
extra_numbers per_waba numbers [] = 0
extra_numbers per_waba numbers (waba_id ∷ waba_ids) =
    beyond (registered waba_id numbers) per_waba + extra_numbers per_waba numbers waba_ids

-- `billExtraNumbers`, of accounts that are all different.
unfoldable pub bill_extra_numbers : Text → Plan → List PhoneNumber → List Text → List Call
bill_extra_numbers mandate plan numbers waba_ids =
    addon mandate plan.additional_number_price
      (extra_numbers plan.included_phone_numbers_per_waba numbers waba_ids)

-- `billingScope` and the accounts of organisations, of the services that own them.
module _ (billing_scope : Text → List Text) (wabas_of : List Text → List Text)
    (numbers : List PhoneNumber) (plans : List Plan) where
  unfoldable pub scope_of : Row → List Text
  scope_of sub = elim sub.payer_org_id as (λ _. List Text) [
    | none ↦ billing_scope sub.sso_org_id
    | some [] ↦ billing_scope sub.sso_org_id
    | some (c ∷ s) ↦ sub.sso_org_id ∷ []
  ]

  unfoldable pub covered : Row → List Text
  covered sub = elim sub.waba_id as (λ _. List Text) [
    | none ↦ wabas_of (scope_of sub)
    | some [] ↦ wabas_of (scope_of sub)
    | some (c ∷ s) ↦ (c ∷ s) ∷ []
  ]

  abbrev pub bill_with : Option Plan → Option Text → Row → List Call
  bill_with none mandate sub = []
  bill_with (some plan) none sub = []
  bill_with (some plan) (some mandate) sub =
      bill_extra_wabas mandate plan (length (covered sub))
      ++ bill_extra_numbers mandate plan numbers (covered sub)

  -- `billOverage`.
  unfoldable pub bill_overage : Row → List Call
  bill_overage sub = bill_with (plan_by_id sub.plan_ref_id plans) sub.razorpay_subscription_id sub
