-- ===== src/Plans/Limits/Cheapest.antt =====
-- src/plans/plan-limits.service.ts: the plan that a refusal suggests, by what the price list shows.
use drasken_labs_communicati.Prelude.{
  ℕ, ◌≤◌, ◌≡◌, ◌⊎◌, refl, sym, ap, ◌∙◌, inl, inr, Text, Bool, true, false, List, [], ◌∷◌, Option,
  none, some, All, arith, codes, text_eq, text_eq_sound, text_eq_refl, ◌&&◌, not, if◌then◌else◌,
  ◌||◌,
}
use drasken_labs_communicati.Plans.Limits.{
  Plan, LimitField, column, allows, is_none, is_candidate, comes_before, price_before,
  cheapest_plan_allowing, to_offer,
}
use drasken_labs_communicati.Plans.Limits.Best.{IsAmong}
use drasken_labs_communicati.Plans.Limits.Offer.{IsFirst, NoneBefore, cheapest-IsFirst}

-- A ceiling that takes the need; no ceiling takes any.
abbrev pub Takes : ℕ → Option ℕ → Type 0
Takes need none = Unit
Takes need (some ceiling) = need ≤ ceiling

-- A plan on sale to anyone, which the checkout can charge for, that takes the need.
pub record IsOnOffer (field : LimitField) (need : ℕ) (p : Plan) : Type 0 where
  pub active : p.active ≡ true
  pub public : p.sso_org_id ≡ none
  pub subscribed : p.cta_kind ≡ codes "subscribe"
  pub charged : (id : Text) × (p.razorpay_plan_id ≡ some id)
  pub takes : Takes need (column field p)

-- A price that is null counts as nothing.
abbrev pub amount : Option ℕ → ℕ
amount none = 0
amount (some paise) = paise

-- The first is not put after the second: it has a ceiling where the second has none, or they are
-- alike in that and it costs no more.
abbrev pub IsNoLater : (ceiling price other_ceiling other_price : Option ℕ) → Type 0
IsNoLater (some c) price none other_price = Unit
IsNoLater (some c) price (some d) other_price = amount price ≤ amount other_price
IsNoLater none price none other_price = amount price ≤ amount other_price
IsNoLater none price (some d) other_price = ⊥

is_none_sound {ℓ} : {A : Type ℓ} (o : Option A) → is_none o ≡ true → o ≡ none
is_none_sound none h = refl
is_none_sound (some a) h = cc

not_none {ℓ} : {A : Type ℓ} (o : Option A) → not (is_none o) ≡ true → (a : A) × (o ≡ some a)
not_none none h = cc
not_none (some a) h = (a, refl)

some_is_not_none {ℓ} : {A : Type ℓ} (o : Option A) (a : A) → o ≡ some a → not (is_none o) ≡ true
some_is_not_none o a h = ap (λ x. not (is_none x)) h

allows_sound : (o : Option ℕ) (need : ℕ) → allows o need ≡ true → Takes need o
allows_sound none need h = tt
allows_sound (some c) need h = ground arith

allows_complete : (o : Option ℕ) (need : ℕ) → Takes need o → allows o need ≡ true
allows_complete none need h = refl
allows_complete (some c) need h = ground arith

is_candidate_sound :
    (field : LimitField) (need : ℕ) (p : Plan)
    → is_candidate field need p ≡ true
    → IsOnOffer field need p
unfolding is_candidate
is_candidate_sound field need p h = record {
  active = ground arith;
  public = is_none_sound p.sso_org_id (ground arith);
  subscribed = text_eq_sound p.cta_kind (codes "subscribe") (ground arith);
  charged = not_none p.razorpay_plan_id (ground arith);
  takes = allows_sound (column field p) need (ground arith);
}

is_candidate_complete :
    (field : LimitField) (need : ℕ) (p : Plan)
    → IsOnOffer field need p
    → is_candidate field need p ≡ true
unfolding is_candidate
is_candidate_complete field need p o =
    let on = o.active in
    let anyone : is_none p.sso_org_id ≡ true = ap is_none o.public in
    let buys : text_eq p.cta_kind (codes "subscribe") ≡ true =
      ap (text_eq p.cta_kind) (sym o.subscribed) ∙ text_eq_refl p.cta_kind in
    let (id, known) = o.charged in
    let charges = some_is_not_none p.razorpay_plan_id id known in
    let takes = allows_complete (column field p) need o.takes in ground arith

price_before_no_less : (a b : Option ℕ) → price_before a b ≡ false → amount b ≤ amount a
price_before_no_less none none h = omega arith
price_before_no_less none (some b) h = ground arith
price_before_no_less (some a) none h = omega arith
price_before_no_less (some a) (some b) h = ground arith

-- The comparison of the sort, on the ceilings and the prices.
comes_before_on : (ceiling price other_ceiling other_price : Option ℕ) → Bool
comes_before_on c price d other_price =
    if is_none c
    then is_none d && price_before price other_price
    else is_none d || price_before price other_price

comes_before_on_sound : (c p d q : Option ℕ) → comes_before_on d q c p ≡ false → IsNoLater c p d q
unfolding comes_before_on
comes_before_on_sound (some c) p none q h = tt
comes_before_on_sound (some c) p (some d) q h = price_before_no_less q p h
comes_before_on_sound none p none q h = price_before_no_less q p h
comes_before_on_sound none p (some d) q h = cc

comes_before_sound :
    (field : LimitField) (b q : Plan)
    → comes_before field q b ≡ false
    → IsNoLater (column field b) b.price (column field q) q.price
unfolding comes_before comes_before_on
comes_before_sound field b q h =
    comes_before_on_sound (column field b) b.price (column field q) q.price h

-- Every plan on offer of a list is no earlier than the plan.
abbrev pub NoneIsEarlier : LimitField → ℕ → Plan → List Plan → Type 0
NoneIsEarlier field need b plans =
    All (λ q. IsOnOffer field need q → IsNoLater (column field b) b.price (column field q) q.price)
      plans

NoneBefore-NoneIsEarlier :
    (field : LimitField) (need : ℕ) (b : Plan) (plans : List Plan)
    → NoneBefore field need b plans
    → NoneIsEarlier field need b plans
unfolding NoneBefore
NoneBefore-NoneIsEarlier field need b [] h = tt
NoneBefore-NoneIsEarlier field need b (q ∷ plans) (h, hs) = (
  λ o.
      let good = is_candidate_complete field need q o in
      comes_before_sound field b q (ground arith),
  NoneBefore-NoneIsEarlier field need b plans hs,
)

none_to_suggest :
    (field : LimitField) (need : ℕ) (plans : List Plan)
    → All (λ q. is_candidate field need q ≡ false) plans
    → All (λ q. ¬ IsOnOffer field need q) plans
none_to_suggest field need [] h = tt
none_to_suggest field need (q ∷ plans) (h, hs) = (
  λ o. let good = is_candidate_complete field need q o in cc,
  none_to_suggest field need plans hs,
)

-- The plan that is suggested is on the list, is active, open to every organisation, sold by
-- subscription, known to Razorpay, and takes the need. Of all such plans none is put before it: it
-- has a ceiling if any of them has, whatever that costs, and it costs no more than those that are
-- like it in having a ceiling or none, where no price counts as 0. Nothing is suggested only if
-- there is no such plan.
pub cheapest_plan_allowing-IsOnOffer :
    (field : LimitField) (need : ℕ) (plans : List Plan)
    → ((b : Plan) × (IsAmong b plans
          × (IsOnOffer field need b
              × (NoneIsEarlier field need b plans
                  × (cheapest_plan_allowing field need plans ≡ some (to_offer field b))))))
      ⊎ (All (λ q. ¬ IsOnOffer field need q) plans
          × (cheapest_plan_allowing field need plans ≡ none))
unfolding IsFirst
cheapest_plan_allowing-IsOnOffer field need plans = elim (cheapest-IsFirst field need plans) [
  | inl (b, ((among, (good, before)), same)) ↦ inl (
    b,
    (
      among,
      (
        is_candidate_sound field need b good,
        (NoneBefore-NoneIsEarlier field need b plans before, same),
      ),
    ),
  )
  | inr (bad, same) ↦ inr (none_to_suggest field need plans bad, same)
]
