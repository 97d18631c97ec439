-- ===== src/Plans/Limits/Offer.antt =====
-- Plans/Limits: what a refusal suggests.
use drasken_labs_communicati.Prelude.{
  ℕ, ◌+◌, ◌≤◌, ◌≡◌, refl, sym, ap, ◌∙◌, ◌⊎◌, inl, inr, Text, List, [], ◌∷◌, Option, none, some, All,
  true, false, ◌&&◌, ltb, arith, if◌then◌else◌, Bool-cases,
}
use drasken_labs_communicati.Plans.Limits.{
  Plan, PlanOffer, EffectiveLimits, LimitField, Refusal, is_candidate, comes_before, first_in_order,
  cheapest_plan_allowing, to_offer, offer_of, allows, assert_within,
}
use drasken_labs_communicati.Plans.Limits.Best.{IsAmong}

comes_before_trans :
    (field : LimitField) (p q r : Plan)
    → comes_before field q p ≡ true
    → comes_before field r p ≡ false
    → comes_before field r q ≡ false
unfolding comes_before
comes_before_trans field p q r h k = ground arith

comes_before_irrefl : (field : LimitField) (p : Plan) → comes_before field p p ≡ false
unfolding comes_before
comes_before_irrefl field p = ground arith

module _ (field : LimitField) (need : ℕ) where
  -- No candidate of some plans comes before a plan.
  unfoldable pub NoneBefore : Plan → List Plan → Type 0
  NoneBefore b plans =
      All (λ q. (is_candidate field need q && comes_before field q b) ≡ false) plans

  -- A candidate of some plans that none of them comes before.
  unfoldable pub IsFirst : Plan → List Plan → Type 0
  IsFirst b plans = IsAmong b plans × ((is_candidate field need b ≡ true) × NoneBefore b plans)

  -- What the sort's head is if `p` leads so far.
  IsLeader : Plan → Plan → List Plan → Type 0
  IsLeader p b plans =
      ((b ≡ p) ⊎ IsAmong b plans × (is_candidate field need b ≡ true))
      × (NoneBefore b plans
          × ((r : Plan) → comes_before field r p ≡ false → comes_before field r b ≡ false))

  -- A plan that is passed over,
  IsLeader-kept :
      (p b q : Plan) (plans : List Plan)
      → (is_candidate field need q && comes_before field q p) ≡ false
      → IsLeader p b plans
      → IsLeader p b (q ∷ plans)
  unfolding IsLeader NoneBefore IsAmong
  IsLeader-kept p b q plans miss (which, (rest, carry)) = (
    elim which [ inl same ↦ inl same | inr (among, good) ↦ inr (inr among, good) ],
    (
      (
        elim (Bool-cases (comes_before field q p)) [
          | inl before ↦ ground arith
          | inr not_before ↦ let later = carry q not_before in ground arith
        ],
        rest,
      ),
      carry,
    ),
  )

  -- and one that takes the lead.
  IsLeader-replaced :
      (p b q : Plan) (plans : List Plan)
      → (is_candidate field need q && comes_before field q p) ≡ true
      → IsLeader q b plans
      → IsLeader p b (q ∷ plans)
  unfolding IsLeader NoneBefore IsAmong
  IsLeader-replaced p b q plans hit (which, (rest, carry)) =
      let good : is_candidate field need q ≡ true = ground arith in
      let before : comes_before field q p ≡ true = ground arith in
      let last = carry q (comes_before_irrefl field q) in
      (
        elim which [
          | inl same ↦ inr (inl same, ap (is_candidate field need) same ∙ good)
          | inr (among, fine) ↦ inr (inr among, fine)
        ],
        ((ground arith, rest), λ r e. carry r (comes_before_trans field p q r before e)),
      )

  leader :
      (p : Plan) (plans : List Plan)
      → (b : Plan) × (IsLeader p b plans × (first_in_order field need (some p) plans ≡ some b))
  unfolding first_in_order IsLeader NoneBefore
  leader p [] = (p, ((inl refl, (tt, λ r e. e)), refl))
  leader p (q ∷ plans) = elim (Bool-cases (is_candidate field need q && comes_before field q p)) [
    | inl hit ↦
        let (b, (leads, same)) = leader q plans in
        let next = ap (λ c. first_in_order field need (if c then some q else some p) plans) hit in
        (b, (IsLeader-replaced p b q plans hit leads, next ∙ same))
    | inr miss ↦
        let (b, (leads, same)) = leader p plans in
        let next = ap (λ c. first_in_order field need (if c then some q else some p) plans) miss in
        (b, (IsLeader-kept p b q plans miss leads, next ∙ same))
  ]

  first_in_order-IsFirst :
      (plans : List Plan)
      → ((b : Plan) × (IsFirst b plans × (first_in_order field need none plans ≡ some b)))
        ⊎ (All (λ q. is_candidate field need q ≡ false) plans
            × (first_in_order field need none plans ≡ none))
  unfolding first_in_order IsFirst IsLeader NoneBefore IsAmong
  first_in_order-IsFirst [] = inr (tt, refl)
  first_in_order-IsFirst (q ∷ plans) = elim (Bool-cases (is_candidate field need q)) [
    | inl good ↦
        let (b, ((which, (rest, carry)), same)) = leader q plans in
        let next = ap (λ c. first_in_order field need (if c then some q else none) plans) good in
        let last = carry q (comes_before_irrefl field q) in
        inl (
          b,
          (
            (
              elim which [ inl first ↦ inl first | inr (among, fine) ↦ inr among ],
              (
                elim which [
                  | inl first ↦ ap (is_candidate field need) first ∙ good
                  | inr (among, fine) ↦ fine
                ],
                (ground arith, rest),
              ),
            ),
            next ∙ same,
          ),
        )
    | inr bad ↦
        let next = ap (λ c. first_in_order field need (if c then some q else none) plans) bad in
        elim (first_in_order-IsFirst plans) [
          | inl (b, ((among, (fine, rest)), same)) ↦
              inl (b, ((inr among, (fine, (ground arith, rest))), next ∙ same))
          | inr (bads, same) ↦ inr ((bad, bads), next ∙ same)
        ]
  ]

-- What the look-up returns is the head of the sort of the candidates.
pub cheapest-IsFirst :
    (field : LimitField) (need : ℕ) (plans : List Plan)
    → ((b : Plan) × (IsFirst field need b plans
          × (cheapest_plan_allowing field need plans ≡ some (to_offer field b))))
      ⊎ (All (λ q. is_candidate field need q ≡ false) plans
          × (cheapest_plan_allowing field need plans ≡ none))
unfolding cheapest_plan_allowing
cheapest-IsFirst field need plans = elim (first_in_order-IsFirst field need plans) [
  | inl (b, (first, same)) ↦ inl (b, (first, ap (offer_of field) same))
  | inr (bad, same) ↦ inr (bad, ap (offer_of field) same)
]

offer_allows :
    (field : LimitField) (need : ℕ) (plans : List Plan) (offer : PlanOffer)
    → cheapest_plan_allowing field need plans ≡ some offer
    → allows offer.value need ≡ true
unfolding IsFirst is_candidate
offer_allows field need plans offer h = elim (cheapest-IsFirst field need plans) [
  | inl (b, ((among, (good, rest)), same)) ↦
      let this : to_offer field b ≡ offer = ground arith in
      ap (λ o. allows o.value need) (sym this) ∙ ground arith
  | inr (bad, same) ↦ cc
]

allowed_within :
    (limits : EffectiveLimits) (value : Option ℕ) (current : ℕ) (noun : Text)
    (field : Option LimitField) (plans : List Plan)
    → allows value (current + 1) ≡ true
    → assert_within limits value current noun field plans ≡ none
unfolding assert_within
allowed_within limits none current noun field plans h = refl
allowed_within limits (some c) current noun field plans h = ground arith

-- A refused addition is one at or past the ceiling, and the plan that the refusal names would not
-- refuse it.
pub assert_within_upgrade :
    (limits : EffectiveLimits) (ceiling current : ℕ) (noun : Text) (field : LimitField)
    (plans : List Plan) (refusal : Refusal) (offer : PlanOffer)
    → assert_within limits (some ceiling) current noun (some field) plans ≡ some refusal
    → refusal.upgrade ≡ some offer
    → (ceiling ≤ current)
      × (assert_within limits offer.value current noun (some field) plans ≡ none)
unfolding assert_within
assert_within_upgrade limits ceiling current noun field plans refusal offer h k =
    elim (Bool-cases (ltb current ceiling)) [
      | inl below ↦ absurd (ground arith)
      | inr reached ↦
          let named : cheapest_plan_allowing field (current + 1) plans ≡ some offer =
            ground arith in
          (
            ground arith,
            allowed_within limits offer.value current noun (some field) plans
                (offer_allows field (current + 1) plans offer named),
          )
    ]
