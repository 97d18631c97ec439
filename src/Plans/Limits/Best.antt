-- ===== src/Plans/Limits/Best.antt =====
-- Plans/Limits: which plan an organisation's limits come from.
use drasken_labs_communicati.Prelude.{
  ℕ, ◌≤◌, ◌≡◌, text_eq, Text, List, [], ◌∷◌, All, arith, if◌then◌else◌, ◌⊎◌,
}
use drasken_labs_communicati.OrganisationSettings.{Settings, billing_org_for}
use drasken_labs_communicati.Plans.Limits.{Plan, EffectiveLimits, Held, subscribed_plans, to_limits}

-- One of some plans.
unfoldable pub IsAmong : Plan → List Plan → Type 0
IsAmong p [] = ⊥
IsAmong p (q ∷ plans) = (p ≡ q) ⊎ IsAmong p plans

-- A plan of a list that none of it outranks.
pub IsBest : Plan → List Plan → Type 0
IsBest b plans = IsAmong b plans × All (λ q. q.rank ≤ b.rank) plans

outranked :
    (r s : ℕ) (plans : List Plan)
    → r ≤ s
    → All (λ q. q.rank ≤ r) plans
    → All (λ q. q.rank ≤ s) plans
outranked r s [] le h = tt
outranked r s (q ∷ plans) le (h, hs) = (omega arith, outranked r s plans le hs)

-- Limits that are those of the best of some plans.
pub AreOfBest : EffectiveLimits → List Plan → Type 0
AreOfBest limits plans = (b : Plan) × (IsBest b plans × (limits ≡ to_limits b))

-- The plans that a payer other than the organisation subscribes to.
unfoldable pub inherited : Text → List Settings → List Held → List Plan → List Plan
inherited org settings subs plans =
    if text_eq (billing_org_for org settings) org
    then []
    else subscribed_plans (billing_org_for org settings) subs plans
