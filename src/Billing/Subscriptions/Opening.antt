-- ===== src/Billing/Subscriptions/Opening.antt =====
-- src/billing/billing.service.ts: what `register` asks before it acts.
use drasken_labs_communicati.Prelude.{
  ℕ, ◌≡◌, refl, sym, ap, ◌∙◌, Bool-cases, Option-cases, arith, ◌∷◌, Text, text_eq, text_eq_sound,
  Bool, true, List, [], Option, none, some, inl, inr, ◌⊎◌,
}
use drasken_labs_communicati.Billing.Subscriptions.Rows.{Row, Plan, Razorpay}
use drasken_labs_communicati.Billing.Subscriptions.Remote.{is_finished, is_finished_status}
use drasken_labs_communicati.Billing.Subscriptions.Offer.{
  Refusal, Sellable, find, sellable_plan, sold, is_offered,
}
use drasken_labs_communicati.Billing.Access.{SubscriptionStatus}
use drasken_labs_communicati.Prelude.Table.{find_first, find_first-holds}
use drasken_labs_communicati.Billing.Subscriptions.Register.{register, register_plan, register_over}
use drasken_labs_communicati.Billing.Subscriptions.Refused.{if_not}
use drasken_labs_communicati.Billing.Subscriptions.Verified.{IsIdle, if_cases}

-- A subscription that has come to its end.
abbrev pub IsOver : SubscriptionStatus → Type 0
IsOver status =
    (status ≡ SubscriptionStatus.cancelled)
    ⊎ ((status ≡ SubscriptionStatus.expired)
        ⊎ ((status ≡ SubscriptionStatus.completed) ⊎ (status ≡ SubscriptionStatus.superseded)))

is_finished_status-IsOver :
    (status : SubscriptionStatus) → is_finished_status status ≡ true → IsOver status
is_finished_status-IsOver SubscriptionStatus.cancelled h = inl refl
is_finished_status-IsOver SubscriptionStatus.expired h = inr (inl refl)
is_finished_status-IsOver SubscriptionStatus.completed h = inr (inr (inl refl))
is_finished_status-IsOver SubscriptionStatus.superseded h = inr (inr (inr refl))
is_finished_status-IsOver _ h = cc

-- A plan of the list.
abbrev pub IsListed : Plan → List Plan → Type 0
IsListed p [] = ⊥
IsListed p (q ∷ plans) = (p ≡ q) ⊎ IsListed p plans

-- A plan under the code that the organisation may subscribe to: active, open to all or its own, and
-- one that Razorpay knows.
pub record IsOnSale (code org : Text) (plan : Plan) : Type 0 where
  pub coded : plan.code ≡ code
  pub active : plan.active ≡ true
  pub open_to : (plan.sso_org_id ≡ none) ⊎ (plan.sso_org_id ≡ some org)
  pub charged : (id : Text) × (plan.razorpay_plan_id ≡ some id)

find_first-IsListed :
    (test : Plan → Bool) (plans : List Plan) (p : Plan)
    → find_first test plans ≡ some p
    → IsListed p plans
unfolding find_first
find_first-IsListed test [] p h = cc
find_first-IsListed test (q ∷ plans) p h = elim (Bool-cases (test q)) [
  | inl hit ↦ let same : p ≡ q = ground arith in inl same
  | inr miss ↦ inr (find_first-IsListed test plans p (ground arith))
]

is_offered-open_to :
    (code org : Text) (owner : Option Text) (p : Plan)
    → p.sso_org_id ≡ owner
    → is_offered code org p ≡ true
    → (p.sso_org_id ≡ none) ⊎ (p.sso_org_id ≡ some org)
is_offered-open_to code org none p e h = inl e
is_offered-open_to code org (some owner) p e h =
    let mine = text_eq_sound owner org (ground arith) in inr (e ∙ ap some mine)

sold-plan :
    (found : Option Plan) (choice : Sellable)
    → sold found ≡ inr choice
    → (p : Plan) × ((found ≡ some p) × ((id : Text) × (p.razorpay_plan_id ≡ some id)))
sold-plan none choice h = cc
sold-plan (some p) choice h = elim (Option-cases p.razorpay_plan_id) [
  | inr (id, known) ↦ (p, (refl, (id, known)))
  | inl unknown ↦ ground arith
]

sellable_plan-IsOnSale :
    (plans : List Plan) (code org : Text) (choice : Sellable)
    → sellable_plan plans code org ≡ inr choice
    → (plan : Plan) × (IsListed plan plans × IsOnSale code org plan)
unfolding sellable_plan
sellable_plan-IsOnSale plans [] org choice h = cc
sellable_plan-IsOnSale plans (c ∷ s) org choice h =
    let (p, (found, known)) = sold-plan (find_first (is_offered (c ∷ s) org) plans) choice h in
    let good = find_first-holds (is_offered (c ∷ s) org) plans p found in
    (
      p,
      (
        find_first-IsListed (is_offered (c ∷ s) org) plans p found,
        record {
          coded = text_eq_sound p.code (c ∷ s) (ground arith);
          active = ground arith;
          open_to = is_offered-open_to (c ∷ s) org p.sso_org_id p refl good;
          charged = known;
        },
      ),
    )

-- When a mandate may be opened: payments are configured, the organisation pays for itself, the plan is
-- on sale, and a subscription that is there is over or set to end.
pub record MayOpen (razorpay : Razorpay) (plans : List Plan) (code org payer : Text)
    (rows : List Row) : Type 0 where
  pub configured : razorpay.is_configured ≡ true
  pub own_payer : payer ≡ org
  pub on_sale : (plan : Plan) × (IsListed plan plans × IsOnSale code org plan)
  pub ends :
      (sub : Row) → find org rows ≡ some sub → IsOver sub.status ⊎ (sub.cancel_at_cycle_end ≡ true)

module _ (razorpay : Razorpay) (now next_id user : ℕ) (org : Text) where
  running_or_ending :
      (found : Option Row) (plan : Sellable) (rows : List Row)
      → IsIdle rows (register_over razorpay now next_id user org found plan rows)
        ⊎ ((sub : Row) → found ≡ some sub → IsOver sub.status ⊎ (sub.cancel_at_cycle_end ≡ true))
  running_or_ending none plan rows = inr (λ sub e. cc)
  running_or_ending (some sub) plan rows = elim (Bool-cases (is_finished sub)) [
    | inl over ↦ inr (λ s e.
        let same : sub ≡ s = ground arith in
        inl (is_finished_status-IsOver s.status (ap is_finished (sym same) ∙ over)))
    | inr running ↦ elim (Bool-cases sub.cancel_at_cycle_end) [
      | inl ending ↦ inr (λ s e.
          let same : sub ≡ s = ground arith in
          inr (ap (λ (r : Row). r.cancel_at_cycle_end) (sym same) ∙ ending))
      | inr stays ↦ inl (
          if_not (IsIdle rows) (is_finished sub) _ _ running
            (if_not (IsIdle rows) sub.cancel_at_cycle_end _ _ stays (refl, refl)))
    ]
  ]

  plan-MayOpen :
      (plans : List Plan) (code payer : Text) (rows : List Row) (choice : Refusal ⊎ Sellable)
      → sellable_plan plans code org ≡ choice
      → razorpay.is_configured ≡ true
      → IsIdle rows (register_plan razorpay now next_id user org choice payer rows)
        ⊎ MayOpen razorpay plans code org payer rows
  plan-MayOpen plans code payer rows (inl why) e on = inl (refl, refl)
  plan-MayOpen plans code payer rows (inr plan) e on =
      if_cases (λ o. IsIdle rows o ⊎ MayOpen razorpay plans code org payer rows) (text_eq payer org)
        _ _
        (λ own. elim (running_or_ending (find org rows) plan rows) [
          | inl idle ↦ inl idle
          | inr ends ↦ inr (record {
            configured = on;
            own_payer = text_eq_sound payer org own;
            on_sale = sellable_plan-IsOnSale plans code org plan e;
            ends = ends;
          })
        ])
        (λ other. inl (refl, refl))

  -- Registering asks nothing of Razorpay and writes nothing, whatever Razorpay answers, unless payments
  -- are configured, the organisation pays for itself, the code is that of a listed plan, active, open to
  -- it and known to Razorpay, and the subscription that it has, if any, is over or set to end with its
  -- cycle.
  pub register-MayOpen :
      (plans : List Plan) (code payer : Text) (rows : List Row)
      → IsIdle rows (register razorpay now next_id user org plans code payer rows)
        ⊎ MayOpen razorpay plans code org payer rows
  unfolding register
  register-MayOpen plans code payer rows =
      if_cases (λ o. IsIdle rows o ⊎ MayOpen razorpay plans code org payer rows)
        razorpay.is_configured _ _
        (λ on. plan-MayOpen plans code payer rows (sellable_plan plans code org) refl on)
        (λ off. inl (refl, refl))
