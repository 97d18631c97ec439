-- ===== src/Billing/Subscriptions/Verified.antt =====
-- src/billing/billing.service.ts: what `confirm` asks before it acts.
use drasken_labs_communicati.Prelude.{
  ℕ, ◌≡◌, refl, sym, ap, Text, text_eq_sound, Bool, true, false, not, ◌&&◌, List, [], Option, none,
  some, inl, inr, ◌⊎◌, if◌then◌else◌, truthy,
}
use drasken_labs_communicati.Billing.Subscriptions.Rows.{Row, Plan, Razorpay}
use drasken_labs_communicati.Billing.Subscriptions.Offer.{Outcome, find}
use drasken_labs_communicati.Billing.Subscriptions.Confirm.{
  Confirmation, confirm, confirm_found, is_id, is_upgrading,
}

-- Nothing is asked of Razorpay and nothing is written.
abbrev pub IsIdle : List Row → Outcome → Type 0
IsIdle rows o = (o.calls ≡ []) × (o.rows ≡ rows)

-- An `if` whose test is known in each case.
pub if_cases :
    (P : Outcome → Type 0) (b : Bool) (x y : Outcome)
    → (b ≡ true → P x)
    → (b ≡ false → P y)
    → P (if b then x else y)
if_cases P true x y h k = h refl
if_cases P false x y h k = k refl

-- Razorpay has signed for a subscription that the row names, as its own or as the pending one.
abbrev pub IsSigned : Razorpay → Confirmation → Row → Type 0
IsSigned razorpay dto sub =
    (razorpay.verify_checkout_signature dto.razorpay_payment_id dto.razorpay_subscription_id
        dto.razorpay_signature
      ≡ true)
    × ((sub.pending_razorpay_subscription_id ≡ some dto.razorpay_subscription_id)
        ⊎ (sub.razorpay_subscription_id ≡ some dto.razorpay_subscription_id))

is_id_sound : (id : Text) (o : Option Text) → is_id id o ≡ true → o ≡ some id
is_id_sound id none h = cc
is_id_sound id (some own) h = ap some (sym (text_eq_sound id own h))

one_of : (a b c : Bool) → (not (a && b) && not c) ≡ false → (b ≡ true) ⊎ (c ≡ true)
one_of a true c h = inl refl
one_of a false true h = inr refl
one_of true false false h = cc
one_of false false false h = cc

named :
    (id : Text) (sub : Row)
    → (not (is_upgrading id sub) && not (is_id id sub.razorpay_subscription_id)) ≡ false
    → (sub.pending_razorpay_subscription_id ≡ some id) ⊎ (sub.razorpay_subscription_id ≡ some id)
named id sub h =
    elim (one_of (truthy sub.pending_razorpay_subscription_id)
      (is_id id sub.pending_razorpay_subscription_id) (is_id id sub.razorpay_subscription_id) h) [
        | inl pending ↦ inl (is_id_sound id sub.pending_razorpay_subscription_id pending)
        | inr own ↦ inr (is_id_sound id sub.razorpay_subscription_id own)
      ]

confirm_found-IsSigned :
    (found : Option Row) (razorpay : Razorpay) (plans : List Plan) (now : ℕ) (dto : Confirmation)
    (rows : List Row)
    → IsIdle rows (confirm_found found razorpay plans now dto rows)
      ⊎ ((sub : Row) × (found ≡ some sub) × IsSigned razorpay dto sub)
confirm_found-IsSigned none razorpay plans now dto rows = inl (refl, refl)
confirm_found-IsSigned (some sub) razorpay plans now dto rows =
    if_cases (λ o. IsIdle rows o ⊎ ((s : Row) × (some sub ≡ some s) × IsSigned razorpay dto s))
      (not (is_upgrading dto.razorpay_subscription_id sub)
        && not (is_id dto.razorpay_subscription_id sub.razorpay_subscription_id))
      _ _ (λ other. inl (refl, refl))
      (λ ours.
        if_cases (λ o. IsIdle rows o ⊎ ((s : Row) × (some sub ≡ some s) × IsSigned razorpay dto s))
          (razorpay.verify_checkout_signature dto.razorpay_payment_id dto.razorpay_subscription_id
            dto.razorpay_signature)
          _ _ (λ signed. inr (sub, refl, (signed, named dto.razorpay_subscription_id sub ours)))
          (λ unsigned. inl (refl, refl)))

-- Whatever a browser claims: confirming asks nothing of Razorpay and writes nothing, unless the
-- organisation has a subscription, the claim names its mandate or its pending one, and Razorpay's signature over
-- the payment and that mandate is verified.
pub confirm-IsSigned :
    (razorpay : Razorpay) (plans : List Plan) (now : ℕ) (org : Text) (dto : Confirmation)
    (rows : List Row)
    → IsIdle rows (confirm razorpay plans now org dto rows)
      ⊎ ((sub : Row) × (find org rows ≡ some sub) × IsSigned razorpay dto sub)
unfolding confirm
confirm-IsSigned razorpay plans now org dto rows =
    confirm_found-IsSigned (find org rows) razorpay plans now dto rows
