-- ===== src/Billing/Subscriptions/Rows.antt =====
-- src/billing/billing.service.ts and razorpay.service.ts: the rows and the entities that the service
-- reads and writes.
use drasken_labs_communicati.Prelude.{ℕ, Text, Bool, Option}
use drasken_labs_communicati.Billing.Access.{SubscriptionStatus}

-- `model Subscription`.
pub record Row : Type 0 where
  pub id : ℕ
  pub waba_id : Option Text
  pub sso_org_id : Text
  pub razorpay_customer_id : Option Text
  pub razorpay_subscription_id : Option Text
  pub plan_id : Text
  pub plan_ref_id : Option ℕ
  pub pending_plan_ref_id : Option ℕ
  pub pending_plan_at : Option ℕ
  pub status : SubscriptionStatus
  pub current_start : Option ℕ
  pub current_end : Option ℕ
  pub cancel_at_cycle_end : Bool
  pub cancelled_at : Option ℕ
  pub short_url : Option Text
  pub pending_razorpay_subscription_id : Option Text
  pub pending_short_url : Option Text
  pub payer_org_id : Option Text
  pub billing_group_id : Option ℕ
  pub created_by_user_id : ℕ

-- The columns of `model Plan` that the service reads.
pub record Plan : Type 0 where
  pub id : ℕ
  pub code : Text
  pub name : Text
  pub cta_kind : Text
  pub razorpay_plan_id : Option Text
  pub price : Option ℕ
  pub active : Bool
  pub sso_org_id : Option Text
  pub additional_number_price : Option ℕ
  pub additional_waba_price : Option ℕ
  pub included_wabas : Option ℕ
  pub included_phone_numbers_per_waba : Option ℕ
  pub currency : Text

-- `RazorpaySubscription`, as much of it as is read; instants are seconds.
pub record RazorpaySubscription : Type 0 where
  pub id : Text
  pub plan_id : Text
  pub status : Text
  pub current_start : Option ℕ
  pub current_end : Option ℕ
  pub short_url : Option Text

pub record Card : Type 0 where
  pub network : Option Text
  pub last4 : Option Text
  pub issuer : Option Text

-- `RazorpayPayment`, of a body that is not checked.
pub record RazorpayPayment : Type 0 where
  pub id : Text
  pub invoice_id : Option Text
  pub amount : Option ℕ
  pub currency : Option Text
  pub status : Option Text
  pub method : Option Text
  pub card : Option Card
  pub bank : Option Text
  pub wallet : Option Text
  pub vpa : Option Text
  pub created_at : Option ℕ

-- What `paymentRow` returns of a payment with an id.
pub record PaymentData : Type 0 where
  pub razorpay_payment_id : Text
  pub razorpay_invoice_id : Option Text
  pub amount : ℕ
  pub currency : Text
  pub status : Text
  pub method : Option Text
  pub method_detail : Option Text
  pub paid_at : Option ℕ

-- `model SubscriptionPayment`.
pub record PaymentRow : Type 0 where
  pub id : ℕ
  pub subscription_id : Option ℕ
  pub billing_group_id : Option ℕ
  pub details : PaymentData

-- `model AgencyBillingGroup`, the columns that a charge reads and writes.
pub record Group : Type 0 where
  pub id : ℕ
  pub agency_org_id : Text
  pub razorpay_subscription_id : Text
  pub plan_ref_id : ℕ
  pub status : SubscriptionStatus
  pub current_start : Option ℕ
  pub current_end : Option ℕ
  pub created_by_user_id : ℕ

-- What is asked of `RazorpayService`, whose client makes the requests.
pub data Call : Type 0 where
  update_customer : (id : Text) → Call
  create_customer : Call
  create_subscription : (customer_id : Option Text) (plan_id : Text) (start_at : Option ℕ) → Call
  add_addon : (subscription_id : Text) (amount quantity : ℕ) → Call
  change_plan_at_cycle_end : (subscription_id plan_id : Text) → Call
  cancel_subscription : (subscription_id : Text) (at_cycle_end : Bool) → Call
  fetch_subscription : (subscription_id : Text) → Call

-- `RazorpayService`, as it answers within one operation.
pub record Razorpay : Type 0 where
  pub is_configured : Bool
  pub key_id : Option Text
  pub create_customer : Option Text
  pub create_subscription : Option Text → Text → Option ℕ → Option RazorpaySubscription
  pub change_plan_at_cycle_end : Text → Text → Option RazorpaySubscription
  pub cancel_subscription : Text → Bool → Option RazorpaySubscription
  pub fetch_subscription : Text → Option RazorpaySubscription
  pub plan_amount : Text → Option ℕ
  pub verify_checkout_signature : Text → Text → Text → Bool
