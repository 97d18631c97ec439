-- ===== src/Billing/Subscriptions/Examples.antt =====
-- Runs of src/billing/billing.service.ts, and its theorems at concrete inputs.
use drasken_labs_communicati.Prelude.{
  map, ℕ, ◌+◌, ◌-◌, ◌*◌, ◌≤◌, ◌<◌, ◌≡◌, refl, ◌⊎◌, Text, codes, true, List, [], ◌∷◌, none, some,
  arith, text_eq,
}
use drasken_labs_communicati.Billing.Access.{SubscriptionStatus}
use drasken_labs_communicati.Billing.Subscriptions.Rows.{
  RazorpayPayment, Row, Plan, RazorpaySubscription, Razorpay,
}
use drasken_labs_communicati.Billing.Subscriptions.Offer.{find}
use drasken_labs_communicati.Billing.Subscriptions.Change.{
  prorate, prorate_over, change_plan, cancel,
}
use drasken_labs_communicati.Billing.Subscriptions.Register.{register, blank_row}
use drasken_labs_communicati.Billing.Subscriptions.Confirm.{confirm, Confirmation}
use drasken_labs_communicati.Billing.Subscriptions.Webhook.{
  handle_entity, handle_webhook, Delivery, Store,
}
use drasken_labs_communicati.Prelude.Double.{
  to_double, floor_quotient, unit_of, floor_over, round_even,
}
use drasken_labs_communicati.Billing.Subscriptions.Proration.{prorate-IsShare}
use drasken_labs_communicati.Billing.Subscriptions.Refused.{IsSafe, operations-AreSafe}
use drasken_labs_communicati.Billing.Subscriptions.Opening.{MayOpen, register-MayOpen}
use drasken_labs_communicati.Billing.Subscriptions.Verified.{IsIdle, IsSigned, confirm-IsSigned}
use drasken_labs_communicati.Billing.Subscriptions.Kept.{AreHeld, change_plan-AreHeld}
use drasken_labs_communicati.Billing.Subscriptions.Payments.{AreDistinct, hear_all-AreDistinct}
use drasken_labs_communicati.Billing.Subscriptions.Once.{
  Arrival, receive, receive_all, receive-again,
}
use drasken_labs_communicati.Billing.Subscriptions.Ends.{AreLater}
use drasken_labs_communicati.Billing.Subscriptions.Periods.{
  delivered, swept, hear_all, hear_all-AreLater,
}
use drasken_labs_communicati.Prelude.Table.{find_first}
use drasken_labs_communicati.Billing.Subscriptions.Groups.{enum_in, enum_status, charge_clients}
use drasken_labs_communicati.Prelude.Pattern.{literal}

prorate-IsShare_example :
    (prorate 1000 (some 0) (some 30) 11 ≤ 1000)
    × (prorate 1000 (some 0) (some 30) 11 * (30 - 0) ≤ 1000 * (30 - 11))
    × (1000 * (30 - 11) < (prorate 1000 (some 0) (some 30) 11 + 1) * (30 - 0))
prorate-IsShare_example = prorate-IsShare 1000 0 30 11 (omega arith) (omega arith) (omega arith)

-- Past 2 ^ 53 the product is rounded: here what is made up is a paisa more than the share, whose whole
-- part is 3569781.
a_paisa_more : prorate 3700099 (some 0) (some 2592000000) 91289899 ≡ 3569782
unfolding prorate prorate_over to_double floor_quotient unit_of floor_over round_even
a_paisa_more = refl

abbrev remote : Text → RazorpaySubscription
remote id = record {
  id = id;
  plan_id = codes "plan_pro";
  status = codes "active";
  current_start = some 10;
  current_end = some 40;
  short_url = some (codes "https://rzp.io/s");
}

abbrev razorpay : Razorpay
razorpay = record {
  is_configured = true;
  key_id = some (codes "rzp_key");
  create_customer = some (codes "cust_1");
  create_subscription = λ customer plan at. some (remote (codes "sub_2"));
  change_plan_at_cycle_end = λ sub plan. some (remote sub);
  cancel_subscription = λ sub at_end. none;
  fetch_subscription = λ sub. some (remote sub);
  plan_amount = λ plan. none;
  verify_checkout_signature = λ payment sub signature. true;
}

abbrev plan : ℕ → Text → Text → ℕ → Plan
plan id code razorpay_id price = record {
  id = id;
  code = code;
  name = code;
  cta_kind = codes "subscribe";
  razorpay_plan_id = some razorpay_id;
  price = some price;
  active = true;
  sso_org_id = none;
  additional_number_price = none;
  additional_waba_price = none;
  included_wabas = none;
  included_phone_numbers_per_waba = none;
  currency = codes "INR";
}

abbrev plans : List Plan
plans =
    plan 1 (codes "starter") (codes "plan_starter") 50000
    ∷ plan 2 (codes "pro") (codes "plan_pro") 90000
    ∷ []

abbrev running : Row
running = record (blank_row 7 (codes "org")) {
  razorpay_subscription_id = some (codes "sub_1");
  plan_id = codes "plan_starter";
  plan_ref_id = some 1;
  status = SubscriptionStatus.active;
  current_start = some 0;
  current_end = some 30000;
}

abbrev rows : List Row
rows = running ∷ []

operations-AreSafe_example :
    IsSafe rows (register razorpay 20 8 1 (codes "org") plans (codes "pro") (codes "org") rows)
    × IsSafe rows (change_plan razorpay plans 20 (codes "org") (codes "pro") rows)
    × IsSafe rows (cancel razorpay 20 (codes "org") rows)
operations-AreSafe_example =
    operations-AreSafe razorpay 20 8 1 (codes "org") plans (codes "pro") (codes "org") rows

register-MayOpen_example :
    IsIdle rows (register razorpay 20 8 1 (codes "org") plans (codes "pro") (codes "org") rows)
    ⊎ MayOpen razorpay plans (codes "pro") (codes "org") (codes "org") rows
register-MayOpen_example =
    register-MayOpen razorpay 20 8 1 (codes "org") plans (codes "pro") (codes "org") rows

abbrev claim : Confirmation
claim = record {
  razorpay_payment_id = codes "pay_1";
  razorpay_subscription_id = codes "sub_1";
  razorpay_signature = codes "5a";
}

confirm-IsSigned_example :
    IsIdle rows (confirm razorpay plans 20 (codes "org") claim rows)
    ⊎ ((sub : Row) × (find (codes "org") rows ≡ some sub) × IsSigned razorpay claim sub)
confirm-IsSigned_example = confirm-IsSigned razorpay plans 20 (codes "org") claim rows

change_plan-AreHeld_example :
    AreHeld rows (change_plan razorpay plans 20 (codes "org") (codes "pro") rows).rows
change_plan-AreHeld_example = change_plan-AreHeld razorpay 20 plans (codes "org") (codes "pro") rows

abbrev charged : Delivery
charged = record {
  event_id = codes "evt_1";
  event = codes "subscription.charged";
  entity = some (remote (codes "sub_1"));
  payment = none;
  sso_org_id = some (codes "org");
}

abbrev arrival : Arrival
arrival = record { delivery = charged; now = 20; plans = plans }

abbrev store : Store
store = record { events = []; rows = rows; groups = []; payments = []; next_payment_id = 1 }

receive-again_example :
    receive arrival (receive_all [] (receive arrival store).0)
    ≡ (receive_all [] (receive arrival store).0, [])
receive-again_example = receive-again arrival arrival [] store refl

hear_all-AreLater_example :
    AreLater store.rows (hear_all (delivered arrival ∷ swept plans 50000 razorpay ∷ []) store).rows
hear_all-AreLater_example =
    hear_all-AreLater (delivered arrival ∷ swept plans 50000 razorpay ∷ []) store

abbrev debit : RazorpayPayment
debit = record {
  id = codes "pay_1";
  invoice_id = none;
  amount = some 50000;
  currency = none;
  status = none;
  method = some (codes "upi");
  card = none;
  bank = none;
  wallet = none;
  vpa = some (codes "asha@upi");
  created_at = some 9;
}

abbrev reported : Text → Arrival
reported event_id = record {
  delivery = record charged { event_id = event_id; payment = some debit };
  now = 20;
  plans = plans;
}

no_payments-AreDistinct : AreDistinct store.payments
unfolding AreDistinct
no_payments-AreDistinct = tt

hear_all-AreDistinct_example :
    AreDistinct
      (hear_all
        (delivered (reported (codes "evt_1")) ∷ delivered (reported (codes "evt_2")) ∷ [])
        store).payments
hear_all-AreDistinct_example =
    hear_all-AreDistinct
      (delivered (reported (codes "evt_1")) ∷ delivered (reported (codes "evt_2")) ∷ []) store
      no_payments-AreDistinct

-- A client whose agency pays, in a month that ends at 60000, and a delivery that reports the month before.
abbrev late : Store
late = record store {
  rows =
      record (blank_row 9 (codes "client")) {
        payer_org_id = some (codes "agency");
        billing_group_id = some 4;
        status = SubscriptionStatus.active;
        current_end = some 60000;
      }
      ∷ [];
  groups =
      record {
        id = 4;
        agency_org_id = codes "agency";
        razorpay_subscription_id = codes "sub_9";
        plan_ref_id = 2;
        status = SubscriptionStatus.active;
        current_start = some 30000;
        current_end = some 60000;
        created_by_user_id = 1;
      }
      ∷ [];
}

abbrev old_news : Arrival
old_news = record {
  delivery = record charged { entity = some (remote (codes "sub_9")) };
  now = 50000;
  plans = plans;
}

moved_back : map (λ sub. sub.current_end) (receive old_news late).0.rows ≡ some 40000 ∷ []
unfolding receive handle_webhook handle_entity charge_clients enum_status enum_in literal find_first
    text_eq
moved_back = refl
