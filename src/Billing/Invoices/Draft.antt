-- ===== src/Billing/Invoices/Draft.antt =====
-- src/billing/invoice.service.ts: what a debit was for (`drafts`) and its division across the lines
-- (`apportion`).
use drasken_labs_communicati.Prelude.Int.{ℤ, pos, negsuc, ◌-ℤ◌}
use drasken_labs_communicati.Prelude.Words.{or_else, or_value}
use drasken_labs_communicati.Prelude.Table.{find_first}
use drasken_labs_communicati.Prelude.{
  ℕ, zero, suc, ◌+◌, ◌-◌, ◌*◌, ◌/◌, Text, codes, List, [], ◌∷◌, ◌++◌, Option, none, some, map, leb,
  if◌then◌else◌,
}
use drasken_labs_communicati.OrganisationSettings.{Settings, is_row}

-- `InvoiceRequest`.
pub record InvoiceRequest : Type 0 where
  pub payment_id : Option ℕ
  pub razorpay_payment_id : Text
  pub razorpay_invoice_id : Option Text
  pub sso_org_id : Text
  pub billing_group_id : Option ℕ
  pub user_id : ℕ
  pub plan_code : Option Text
  pub plan_name : Option Text
  pub amount : ℕ
  pub currency : Text
  pub paid_at : Option ℕ
  pub method : Option Text
  pub method_detail : Option Text
  pub period_start : Option ℕ
  pub period_end : Option ℕ

pub record DraftLine : Type 0 where
  pub sso_org_id : Option Text
  pub description : Text
  pub detail : Option Text
  pub plan_code : Option Text
  pub plan_name : Option Text
  pub quantity : ℕ
  pub weight : ℕ

-- A client's subscription as `drafts` selects it.
pub record PlanTag : Type 0 where
  pub code : Text
  pub name : Text
  pub price : Option ℕ

pub record Client : Type 0 where
  pub sso_org_id : Text
  pub plan : Option PlanTag

-- A template with a name before a word, or the word alone: `name ? `${name} plan` : otherwise`.
abbrev pub plan_or : Text → Option Text → Text
plan_or otherwise none = otherwise
plan_or otherwise (some []) = otherwise
plan_or otherwise (some (c ∷ s)) = (c ∷ s) ++ codes " plan"

abbrev pub own_draft : InvoiceRequest → DraftLine
own_draft r = record {
  sso_org_id = some r.sso_org_id;
  description = plan_or (codes "Subscription") r.plan_name;
  detail = none;
  plan_code = r.plan_code;
  plan_name = r.plan_name;
  quantity = 1;
  weight = 1;
}

abbrev pub empty_group_draft : InvoiceRequest → DraftLine
empty_group_draft r = record {
  sso_org_id = none;
  description = plan_or (codes "Client subscriptions") r.plan_name;
  detail = some (codes "No clients on this mandate at the time of charge");
  plan_code = r.plan_code;
  plan_name = r.plan_name;
  quantity = 1;
  weight = 1;
}

abbrev pub label_in : Option Settings → Option Text
label_in none = none
label_in (some row) = row.client_name

abbrev pub plan_name_of : Option PlanTag → Option Text
plan_name_of none = none
plan_name_of (some p) = some p.name

abbrev pub plan_code_of : Option PlanTag → Option Text
plan_code_of none = none
plan_code_of (some p) = some p.code

abbrev pub weight_of : Option PlanTag → ℕ
weight_of none = 1
weight_of (some p) = or_value p.price 1

module _ (directory_name : Text → Option Text) (settings : List Settings) where
  -- The agency's label, the directory's name, or the id.
  unfoldable pub client_label : Text → Text
  client_label id =
      or_value (or_else (label_in (find_first (is_row id) settings)) (directory_name id)) id

  unfoldable pub client_draft : Client → DraftLine
  client_draft c = record {
    sso_org_id = some c.sso_org_id;
    description =
        or_value (plan_name_of c.plan) (codes "Subscription")
        ++ (b' ' ∷ 8212 ∷ b' ' ∷ client_label c.sso_org_id);
    detail = none;
    plan_code = plan_code_of c.plan;
    plan_name = plan_name_of c.plan;
    quantity = 1;
    weight = weight_of c.plan;
  }

  -- The lines of a group's debit, of the clients on the mandate in the order they joined.
  unfoldable pub group_drafts : InvoiceRequest → List Client → List DraftLine
  group_drafts r [] = empty_group_draft r ∷ []
  group_drafts r (c ∷ clients) = map client_draft (c ∷ clients)

  -- `!request.billingGroupId`: an id is not 0.
  unfoldable pub drafts_for : InvoiceRequest → (ℕ → List Client) → Option ℕ → List DraftLine
  drafts_for r clients_of_group none = own_draft r ∷ []
  drafts_for r clients_of_group (some group) = group_drafts r (clients_of_group group)

  unfoldable pub drafts : InvoiceRequest → (ℕ → List Client) → List DraftLine
  drafts r clients_of_group = drafts_for r clients_of_group r.billing_group_id

pub record InvoiceLine : Type 0 where
  pub sso_org_id : Option Text
  pub description : Text
  pub detail : Option Text
  pub plan_code : Option Text
  pub plan_name : Option Text
  pub quantity : ℕ
  pub unit_amount : ℤ
  pub amount : ℤ
  pub position : ℕ

-- `Math.round(a / b)` of numbers that are not negative, a half rounded up.
unfoldable pub round_div : ℕ → ℕ → ℕ
round_div a b = (2 * a + b) / (2 * b)

-- `Math.round(a / b)` of an amount, a half rounded up: that of -(n + 1) is minus the rounding of a
-- half down.
unfoldable pub round_unit : ℤ → ℕ → ℤ
round_unit (pos n) b = pos (round_div n b)
round_unit (negsuc n) b = pos 0 -ℤ pos ((2 * suc n + b - 1) / (2 * b))

-- `Math.max(1, n)`.
abbrev pub at_least_one : ℕ → ℕ
at_least_one n = if leb 1 n then n else 1

abbrev pub to_line : DraftLine → ℤ → ℕ → InvoiceLine
to_line d amount position = record {
  sso_org_id = d.sso_org_id;
  description = d.description;
  detail = d.detail;
  plan_code = d.plan_code;
  plan_name = d.plan_name;
  quantity = d.quantity;
  unit_amount = round_unit amount (at_least_one d.quantity);
  amount = amount;
  position = position;
}

unfoldable pub total_weight : List DraftLine → ℕ
total_weight [] = 0
total_weight (d ∷ drafts) = d.weight + total_weight drafts

-- `|| 1`.
abbrev pub or_one : ℕ → ℕ
or_one zero = 1
or_one (suc n) = suc n

-- The loop of `apportion`: the last line takes what the others left.
unfoldable pub allocate : ℕ → ℕ → ℕ → ℕ → List DraftLine → List InvoiceLine
allocate subtotal total allocated index [] = []
allocate subtotal total allocated index (d ∷ []) =
    to_line d (pos subtotal -ℤ pos allocated) index ∷ []
allocate subtotal total allocated index (d ∷ e ∷ rest) =
    let amount = round_div (subtotal * d.weight) total in
    to_line d (pos amount) index
    ∷ allocate subtotal total (allocated + amount) (suc index) (e ∷ rest)

unfoldable pub apportion : List DraftLine → ℕ → List InvoiceLine
apportion drafts subtotal = allocate subtotal (or_one (total_weight drafts)) 0 0 drafts
