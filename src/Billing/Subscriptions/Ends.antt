-- ===== src/Billing/Subscriptions/Ends.antt =====
-- src/billing/billing.service.ts and agency-billing.service.ts: what a charge does to the end of a paid
-- period.
use mathlib.Core.Option
use drasken_labs_communicati.Prelude.{
  ◌∙◌, map, ap, ℕ, ◌≤◌, ◌≡◌, refl, sym, subst, Text, text_eq, truthy, Bool, true, false, List, [],
  ◌∷◌, Option, none, some, inl, inr, Bool-cases, if◌then◌else◌, arith, ◌==◌, ltb,
}
use drasken_labs_communicati.Prelude.Table.{find_first, find_row, find_row-update_row}
use drasken_labs_communicati.Billing.Subscriptions.Rows.{Row, Plan, RazorpaySubscription}
use drasken_labs_communicati.Billing.Subscriptions.Remote.{
  at_seconds, later_end, tier_for, tier_of, is_charged_as, apply_to, apply_remote, row_key,
}
use drasken_labs_communicati.Billing.Subscriptions.Groups.{
  charge_client, charge_if, rides_on, charge_clients,
}
use drasken_labs_communicati.Billing.Access.{SubscriptionStatus}

-- The second is not before the first, where there is a first.
pub IsNotBefore : Option ℕ → Option ℕ → Type 0
IsNotBefore none b = Unit
IsNotBefore (some x) none = ⊥
IsNotBefore (some x) (some y) = x ≤ y

IsNotBefore-refl : (a : Option ℕ) → IsNotBefore a a
unfolding IsNotBefore
IsNotBefore-refl none = tt
IsNotBefore-refl (some x) = omega arith

IsNotBefore-trans : (a b c : Option ℕ) → IsNotBefore a b → IsNotBefore b c → IsNotBefore a c
unfolding IsNotBefore
IsNotBefore-trans none b c h k = tt
IsNotBefore-trans (some x) none c h k = absurd h
IsNotBefore-trans (some x) (some y) none h k = absurd k
IsNotBefore-trans (some x) (some y) (some z) h k = omega arith

later_end-IsNotBefore : (reported known : Option ℕ) → IsNotBefore known (later_end reported known)
unfolding IsNotBefore
later_end-IsNotBefore none known = IsNotBefore-refl known
later_end-IsNotBefore (some r) none = tt
later_end-IsNotBefore (some r) (some k) = elim (Bool-cases (ltb k r)) [
  | inl later ↦ rw later (ground arith)
  | inr earlier ↦ rw earlier (omega arith)
]

-- The end of the period that is paid for, of the row under an id, if it is charged on its own and
-- not through a group.
abbrev pub own_end : Option ℕ → Option ℕ → Option ℕ
own_end none end = end
own_end (some group) end = none

abbrev pub end_in : Option Row → Option ℕ
end_in none = none
end_in (some sub) = own_end sub.billing_group_id sub.current_end

-- The tier moves neither the key nor the period nor the group.
abbrev shape : Row → ℕ × Option ℕ × Option ℕ
shape sub = (sub.id, sub.current_end, sub.billing_group_id)

tier_of-shape :
    (id : Text) (plan : Option Plan) (sub : Row) → shape (tier_of id plan sub) ≡ shape sub
tier_of-shape id none sub = refl
tier_of-shape id (some plan) sub = refl

tier_for-shape :
    (plans : List Plan) (id : Text) (sub : Row) → shape (tier_for plans id sub) ≡ shape sub
unfolding tier_for
tier_for-shape plans id sub =
    elim (if truthy (some id) then text_eq id sub.plan_id else true)
      as (λ b.
        shape (if b then sub else tier_of id (find_first (is_charged_as id) plans) sub)
        ≡ shape sub) [
          | true ↦ refl
          | false ↦ tier_of-shape id (find_first (is_charged_as id) plans) sub
        ]

own_end-IsNotBefore :
    (group reported known : Option ℕ)
    → IsNotBefore (own_end group known) (own_end group (later_end reported known))
unfolding IsNotBefore
own_end-IsNotBefore none reported known = later_end-IsNotBefore reported known
own_end-IsNotBefore (some id) reported known = tt

-- A row that keeps its key and whose period ends no earlier.
abbrev IsKept : (Row → Row) → Type 0
IsKept f =
    (sub : Row)
    → (row_key (f sub) ≡ row_key sub) × IsNotBefore (end_in (some sub)) (end_in (some (f sub)))

apply_to-IsKept :
    (plans : List Plan) (now : ℕ) (remote : RazorpaySubscription)
    → IsKept (apply_to plans now remote)
unfolding apply_to
apply_to-IsKept plans now remote sub =
    let same = tier_for-shape plans remote.plan_id _ in
    (
      ap (λ s. s.0) same,
      subst (λ s. IsNotBefore (end_in (some sub)) (own_end s.2 s.1)) (sym same)
          (own_end-IsNotBefore sub.billing_group_id (at_seconds remote.current_end)
            sub.current_end),
    )

ridden-IsNotBefore :
    (id : ℕ) (group known new : Option ℕ)
    → IsNotBefore (own_end group known) (own_end group (if rides_on id group then new else known))
unfolding IsNotBefore
ridden-IsNotBefore id none known new = IsNotBefore-refl known
ridden-IsNotBefore id (some g) known new = tt

charged_end :
    (hit : Bool) (status : SubscriptionStatus) (entity : RazorpaySubscription) (sub : Row)
    → (row_key (if hit then charge_client status entity sub else sub) ≡ row_key sub)
      × (own_end sub.billing_group_id
            (if hit then (charge_client status entity sub).current_end else sub.current_end)
          ≡ end_in (some (if hit then charge_client status entity sub else sub)))
charged_end true status entity sub = (refl, refl)
charged_end false status entity sub = (refl, refl)

charge_if-IsKept :
    (id : ℕ) (status : SubscriptionStatus) (entity : RazorpaySubscription)
    → IsKept (charge_if id status entity)
charge_if-IsKept id status entity sub =
    let (key, ends) = charged_end (rides_on id sub.billing_group_id) status entity sub in
    (
      key,
      subst (IsNotBefore (end_in (some sub))) ends (
          ridden-IsNotBefore id sub.billing_group_id sub.current_end
            (charge_client status entity sub).current_end),
    )

abbrev pub end_of : ℕ → List Row → Option ℕ
end_of id rows = end_in (find_row row_key id rows)

-- No own period ends earlier.
pub record AreLater (before after : List Row) : Type 0 where
  pub later : (id : ℕ) → IsNotBefore (end_of id before) (end_of id after)

pub AreLater-refl : (rows : List Row) → AreLater rows rows
AreLater-refl rows = record { later = λ id. IsNotBefore-refl (end_of id rows) }

pub AreLater-trans : (a b c : List Row) → AreLater a b → AreLater b c → AreLater a c
AreLater-trans a b c h k = record {
  later =
      λ id. IsNotBefore-trans (end_of id a) (end_of id b) (end_of id c) (h.later id) (k.later id);
}

mapped-IsNotBefore :
    (f : Row → Row) (hit : Bool) (found : Option Row)
    → IsKept f
    → IsNotBefore (end_in found) (end_in (if hit then Option.map f found else found))
unfolding IsNotBefore
mapped-IsNotBefore f true none h = tt
mapped-IsNotBefore f true (some sub) h = (h sub).1
mapped-IsNotBefore f false found h = IsNotBefore-refl (end_in found)

pub apply_remote-AreLater :
    (plans : List Plan) (now : ℕ) (sub : Row) (remote : RazorpaySubscription) (rows : List Row)
    → AreLater rows (apply_remote plans now sub remote rows)
unfolding apply_remote
apply_remote-AreLater plans now sub remote rows = record {
  later = λ id.
      let f = apply_to plans now remote in
      subst (λ o. IsNotBefore (end_of id rows) (end_in o))
        (sym (
          find_row-update_row row_key sub.id id f rows
            (λ a. (apply_to-IsKept plans now remote a).0)))
        (mapped-IsNotBefore f (sub.id == id) (find_row row_key id rows)
          (apply_to-IsKept plans now remote));
}

map-AreLater :
    (f : Row → Row) (id : ℕ) (rows : List Row)
    → IsKept f
    → IsNotBefore (end_of id rows) (end_of id (map f rows))
unfolding IsNotBefore find_row
map-AreLater f id [] h = tt
map-AreLater f id (sub ∷ rows) h = elim (Bool-cases (row_key sub == id)) [
  | inl hit ↦ let hit' = ap (λ k. k == id) (h sub).0 ∙ hit in rw (hit, hit') (h sub).1
  | inr miss ↦
      let miss' = ap (λ k. k == id) (h sub).0 ∙ miss in rw (miss, miss') (map-AreLater f id rows h)
]

pub charge_clients-AreLater :
    (id : ℕ) (status : SubscriptionStatus) (entity : RazorpaySubscription) (rows : List Row)
    → AreLater rows (charge_clients id status entity rows)
unfolding charge_clients
charge_clients-AreLater id status entity rows = record {
  later = λ k. map-AreLater (charge_if id status entity) k rows (charge_if-IsKept id status entity);
}
