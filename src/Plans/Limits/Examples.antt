-- ===== src/Plans/Limits/Examples.antt =====
-- Runs of Plans/Limits, and its theorems at concrete inputs.
use drasken_labs_communicati.Prelude.{
  text_eq, ℕ, ◌≡◌, ◌≤◌, ◌⊎◌, refl, Text, codes, true, [], ◌∷◌, none, some, List, Option, All,
}
use drasken_labs_communicati.OrganisationSettings.{get, billing_org_for, Settings, defaults}
use drasken_labs_communicati.Plans.Limits.{
  cheapest_of, comes_before, first_in_order, highest, Plan, Held, Status, LimitField, Refusal,
  for_org, subscribed_plans, entry_limits, cheapest_plan_allowing, to_offer, to_limits,
  is_candidate, assert_within,
}
use drasken_labs_communicati.Plans.Limits.Cheapest.{
  IsOnOffer, NoneIsEarlier, cheapest_plan_allowing-IsOnOffer,
}
use drasken_labs_communicati.Plans.Limits.Best.{IsAmong}
use drasken_labs_communicati.Plans.Limits.Offer.{assert_within_upgrade}
use drasken_labs_communicati.Prelude.Table.{find_first}

abbrev tier : ℕ → Text → Option ℕ → Option ℕ → ℕ → Plan
tier id code members price rank = record {
  id = id;
  code = code;
  name = code;
  included_wabas = some 1;
  included_phone_numbers_per_waba = some 1;
  included_clients = none;
  additional_waba_price = none;
  additional_number_price = none;
  max_team_members = members;
  max_webhook_endpoints = some 2;
  max_api_keys_per_waba = some 2;
  max_contacts = some 1000;
  max_messages_per_minute = some 60;
  history_days = some 90;
  rank = rank;
  active = true;
  sso_org_id = none;
  cta_kind = codes "subscribe";
  razorpay_plan_id = some (codes "plan");
  price = price;
  currency = codes "INR";
  unit = codes "/month";
}

abbrev starter : Plan
starter = tier 1 (codes "starter") (some 2) (some 99900) 1

abbrev unlimited : Plan
unlimited = tier 2 (codes "unlimited") none (some 149900) 2

abbrev business : Plan
business = tier 3 (codes "business") (some 20) (some 499900) 3

abbrev price_list : List Plan
price_list = starter ∷ unlimited ∷ business ∷ []

-- A plan with a ceiling is suggested before a cheaper one without.
suggests_business :
    cheapest_plan_allowing LimitField.max_team_members 3 price_list
    ≡ some (to_offer LimitField.max_team_members business)
unfolding cheapest_plan_allowing first_in_order is_candidate comes_before text_eq
suggests_business = refl

abbrev client : Settings
client = record (defaults (codes "client")) { agency_org_id = some (codes "agency") }

abbrev held : Status → Held
held status = record {
  waba_id = none;
  sso_org_id = codes "agency";
  status = status;
  plan_ref_id = some 2;
}

inherits :
    for_org (codes "client") (client ∷ []) (held Status.pending ∷ []) price_list
    ≡ to_limits unlimited
unfolding for_org subscribed_plans to_limits highest billing_org_for get find_first text_eq
    entry_limits cheapest_of
inherits = refl

cheapest_plan_allowing-IsOnOffer_example :
    ((b : Plan) × (IsAmong b price_list
        × (IsOnOffer LimitField.max_team_members 3 b
            × (NoneIsEarlier LimitField.max_team_members 3 b price_list
                × (cheapest_plan_allowing LimitField.max_team_members 3 price_list
                    ≡ some (to_offer LimitField.max_team_members b))))))
    ⊎ (All (λ q. ¬ IsOnOffer LimitField.max_team_members 3 q) price_list
        × (cheapest_plan_allowing LimitField.max_team_members 3 price_list ≡ none))
cheapest_plan_allowing-IsOnOffer_example =
    cheapest_plan_allowing-IsOnOffer LimitField.max_team_members 3 price_list

abbrev refused_third : Refusal
refused_third = record {
  plan = some (codes "starter");
  ceiling = 2;
  current = 2;
  noun = codes "team member";
  upgrade = some (to_offer LimitField.max_team_members business);
}

refuses_third :
    assert_within
      (to_limits starter)
      (some 2)
      2
      (codes "team member")
      (some LimitField.max_team_members)
      price_list
    ≡ some refused_third
unfolding assert_within to_limits cheapest_plan_allowing first_in_order is_candidate comes_before
    text_eq
refuses_third = refl

assert_within_upgrade_example :
    (◌≤◌ 2 2)
    × (assert_within
          (to_limits starter)
          (some 20)
          2
          (codes "team member")
          (some LimitField.max_team_members)
          price_list
        ≡ none)
assert_within_upgrade_example =
    assert_within_upgrade (to_limits starter) 2 2 (codes "team member") LimitField.max_team_members
      price_list refused_third (to_offer LimitField.max_team_members business) refuses_third refl
