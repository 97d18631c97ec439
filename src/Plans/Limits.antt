-- ===== src/Plans/Limits.antt =====
-- src/plans/plan-limits.service.ts: how many of a thing an organisation may have, by the plan it is
-- on, and which plan a refusal suggests. A ceiling or inclusion that is null is `none`.
pub mod Best
pub mod Offer
pub mod Cheapest
mod Examples
use drasken_labs_communicati.Prelude.{
  ℕ, suc, ◌+◌, Text, Bool, true, false, ◌&&◌, ◌||◌, not, List, [], ◌∷◌, ◌++◌, Option, none, some,
  ltb, leb, ◌==◌, codes, decimal, text_eq, if◌then◌else◌,
}
use drasken_labs_communicati.Prelude.Table.{find_first}
use drasken_labs_communicati.OrganisationSettings.{Settings, billing_org_for}

-- `model Plan`, the columns of `PLAN_SELECT` and those that the queries filter on.
pub record Plan : Type 0 where
  pub id : ℕ
  pub code : Text
  pub name : Text
  pub included_wabas : Option ℕ
  pub included_phone_numbers_per_waba : Option ℕ
  pub included_clients : Option ℕ
  pub additional_waba_price : Option ℕ
  pub additional_number_price : Option ℕ
  pub max_team_members : Option ℕ
  pub max_webhook_endpoints : Option ℕ
  pub max_api_keys_per_waba : Option ℕ
  pub max_contacts : Option ℕ
  pub max_messages_per_minute : Option ℕ
  pub history_days : Option ℕ
  pub rank : ℕ
  pub active : Bool
  pub sso_org_id : Option Text
  pub cta_kind : Text
  pub razorpay_plan_id : Option Text
  pub price : Option ℕ
  pub currency : Text
  pub unit : Text

pub record EffectiveLimits : Type 0 where
  pub plan_code : Option Text
  pub plan_name : Option Text
  pub included_wabas : Option ℕ
  pub included_phone_numbers_per_waba : Option ℕ
  pub included_clients : Option ℕ
  pub additional_waba_price : Option ℕ
  pub additional_number_price : Option ℕ
  pub team_members : Option ℕ
  pub webhook_endpoints : Option ℕ
  pub api_keys_per_waba : Option ℕ
  pub contacts : Option ℕ
  pub messages_per_minute : Option ℕ
  pub history_days : Option ℕ

pub data LimitField : Type 0 where
  max_team_members max_webhook_endpoints max_api_keys_per_waba max_contacts included_clients :
      LimitField

-- `PlanOffer`.
pub record PlanOffer : Type 0 where
  pub code : Text
  pub name : Text
  pub price : Option ℕ
  pub currency : Text
  pub unit : Text
  pub value : Option ℕ

-- The values of `SubscriptionStatus` of prisma/schema.prisma.
pub data Status : Type 0 where
  created authenticated active pending halted cancelled completed expired superseded : Status

-- `model Subscription`, the columns that the queries here read.
pub record Held : Type 0 where
  pub waba_id : Option Text
  pub sso_org_id : Text
  pub status : Status
  pub plan_ref_id : Option ℕ

-- `LIVE_STATUSES`.
abbrev pub is_live : Status → Bool
is_live Status.active = true
is_live Status.authenticated = true
is_live Status.pending = true
is_live Status.halted = true
is_live _ = false

abbrev pub no_plan : EffectiveLimits
no_plan = record {
  plan_code = none;
  plan_name = none;
  included_wabas = none;
  included_phone_numbers_per_waba = none;
  included_clients = none;
  additional_waba_price = none;
  additional_number_price = none;
  team_members = none;
  webhook_endpoints = none;
  api_keys_per_waba = none;
  contacts = none;
  messages_per_minute = none;
  history_days = none;
}

unfoldable pub to_limits : Plan → EffectiveLimits
to_limits plan = record {
  plan_code = some plan.code;
  plan_name = some plan.name;
  included_wabas = plan.included_wabas;
  included_phone_numbers_per_waba = plan.included_phone_numbers_per_waba;
  included_clients = plan.included_clients;
  additional_waba_price = plan.additional_waba_price;
  additional_number_price = plan.additional_number_price;
  team_members = plan.max_team_members;
  webhook_endpoints = plan.max_webhook_endpoints;
  api_keys_per_waba = plan.max_api_keys_per_waba;
  contacts = plan.max_contacts;
  messages_per_minute = plan.max_messages_per_minute;
  history_days = plan.history_days;
}

-- The plan that a subscription refers to; the reference is kept by the database.
abbrev pub plan_of : List Plan → Option ℕ → Option Plan
plan_of plans none = none
plan_of plans (some id) = find_first (λ p. p.id == id) plans

abbrev pub add_plan : Option Plan → List Plan → List Plan
add_plan none plans = plans
add_plan (some p) plans = p ∷ plans

unfoldable pub subscribed_plans : Text → List Held → List Plan → List Plan
subscribed_plans org [] plans = []
subscribed_plans org (s ∷ subs) plans =
    let rest = subscribed_plans org subs plans in
    if text_eq s.sso_org_id org && is_live s.status
    then add_plan (plan_of plans s.plan_ref_id) rest
    else rest

-- The head of a stable sort, the highest rank first.
unfoldable pub highest : Plan → List Plan → Plan
highest p [] = p
highest p (q ∷ plans) = highest (if ltb p.rank q.rank then q else p) plans

abbrev pub is_none {ℓ} : {A : Type ℓ} → Option A → Bool
is_none none = true
is_none (some a) = false

-- Prices in ascending order; the database puts null last.
abbrev pub cheaper : Option ℕ → Option ℕ → Bool
cheaper none b = false
cheaper (some a) none = true
cheaper (some a) (some b) = ltb a b

-- `findFirst` in the order of the price, of those that the test keeps.
unfoldable pub cheapest_of : (Plan → Bool) → Option Plan → List Plan → Option Plan
cheapest_of keeps best [] = best
cheapest_of keeps none (q ∷ plans) = cheapest_of keeps (if keeps q then some q else none) plans
cheapest_of keeps (some p) (q ∷ plans) =
    cheapest_of keeps (if keeps q && cheaper q.price p.price then some q else some p) plans

-- `where` of `entryLimits`.
abbrev pub is_entry : Plan → Bool
is_entry p = p.active && (not (is_none p.price) && is_none p.sso_org_id)

abbrev pub limits_of_entry : Option Plan → EffectiveLimits
limits_of_entry none = no_plan
limits_of_entry (some p) = record (to_limits p) { plan_code = none; plan_name = none }

unfoldable pub entry_limits : List Plan → EffectiveLimits
entry_limits plans = limits_of_entry (cheapest_of is_entry none plans)

abbrev pub best_or : EffectiveLimits → List Plan → EffectiveLimits
best_or otherwise [] = otherwise
best_or otherwise (p ∷ plans) = to_limits (highest p plans)

unfoldable pub for_org : Text → List Settings → List Held → List Plan → EffectiveLimits
for_org org settings subs plans =
    let payer = billing_org_for org settings in
    let inherited = if text_eq payer org then [] else subscribed_plans payer subs plans in
    best_or (best_or (entry_limits plans) inherited) (subscribed_plans org subs plans)

abbrev pub is_account : Text → Option Text → Bool
is_account waba_id none = false
is_account waba_id (some w) = text_eq w waba_id

-- `sub?.plan`, if the subscription is live.
abbrev pub live_plan : Option Held → List Plan → Option Plan
live_plan none plans = none
live_plan (some s) plans = if is_live s.status then plan_of plans s.plan_ref_id else none

abbrev pub plan_or : EffectiveLimits → Option Plan → EffectiveLimits
plan_or otherwise none = otherwise
plan_or otherwise (some p) = to_limits p

unfoldable pub for_waba : Text → Text → List Settings → List Held → List Plan → EffectiveLimits
for_waba org waba_id settings subs plans =
    let payer = billing_org_for org settings in
    let held = find_first (λ s. is_account waba_id s.waba_id && text_eq s.sso_org_id payer) subs in
    plan_or (for_org org settings subs plans) (live_plan held plans)

abbrev pub column : LimitField → Plan → Option ℕ
column LimitField.max_team_members p = p.max_team_members
column LimitField.max_webhook_endpoints p = p.max_webhook_endpoints
column LimitField.max_api_keys_per_waba p = p.max_api_keys_per_waba
column LimitField.max_contacts p = p.max_contacts
column LimitField.included_clients p = p.included_clients

abbrev pub allows : Option ℕ → ℕ → Bool
allows none need = true
allows (some ceiling) need = leb need ceiling

-- `where` of `lookUpPlanAllowing`.
unfoldable pub is_candidate : LimitField → ℕ → Plan → Bool
is_candidate field need p =
    p.active
    && (is_none p.sso_org_id
        && (text_eq p.cta_kind (codes "subscribe")
            && (not (is_none p.razorpay_plan_id) && allows (column field p) need)))

abbrev pub price_or_zero : Option ℕ → ℕ
price_or_zero none = 0
price_or_zero (some price) = price

-- The comparison of the sort: a finite allowance first, then the price. The sort is stable, so what
-- it holds equal stays in the order of the query.
abbrev pub price_before : Option ℕ → Option ℕ → Bool
price_before a b =
    ltb (price_or_zero a) (price_or_zero b) || price_or_zero a == price_or_zero b && cheaper a b

unfoldable pub comes_before : LimitField → Plan → Plan → Bool
comes_before field p q =
    if is_none (column field p)
    then is_none (column field q) && price_before p.price q.price
    else is_none (column field q) || price_before p.price q.price

abbrev pub to_offer : LimitField → Plan → PlanOffer
to_offer field p = record {
  code = p.code;
  name = p.name;
  price = p.price;
  currency = p.currency;
  unit = p.unit;
  value = column field p;
}

-- The head of the sorted candidates; of those that the comparison holds equal, the first read.
unfoldable pub first_in_order : LimitField → ℕ → Option Plan → List Plan → Option Plan
first_in_order field need best [] = best
first_in_order field need none (q ∷ plans) =
    first_in_order field need (if is_candidate field need q then some q else none) plans
first_in_order field need (some p) (q ∷ plans) =
    first_in_order field need
      (if is_candidate field need q && comes_before field q p then some q else some p) plans

abbrev pub offer_of : LimitField → Option Plan → Option PlanOffer
offer_of field none = none
offer_of field (some p) = some (to_offer field p)

-- `lookUpPlanAllowing`; `cheapestPlanAllowing` is the same where the query succeeds.
unfoldable pub cheapest_plan_allowing : LimitField → ℕ → List Plan → Option PlanOffer
cheapest_plan_allowing field need plans = offer_of field (first_in_order field need none plans)

-- A refusal of `assertWithin`: what its sentence is made of.
pub record Refusal : Type 0 where
  pub plan : Option Text
  pub ceiling : ℕ
  pub current : ℕ
  pub noun : Text
  pub upgrade : Option PlanOffer

abbrev pub upgrade_for : Option LimitField → ℕ → List Plan → Option PlanOffer
upgrade_for none need plans = none
upgrade_for (some field) need plans = cheapest_plan_allowing field need plans

unfoldable pub assert_within :
    EffectiveLimits → Option ℕ → ℕ → Text → Option LimitField → List Plan → Option Refusal
assert_within limits none current noun field plans = none
assert_within limits (some ceiling) current noun field plans =
    if ltb current ceiling
    then none
    else some (record {
      plan = limits.plan_name;
      ceiling = ceiling;
      current = current;
      noun = noun;
      upgrade = upgrade_for field (current + 1) plans;
    })
