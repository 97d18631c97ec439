-- ===== src/Inbox/Conversations/Tally.antt =====
-- Inbox/Conversations: the unread replies of a conversation, counted by the digits of their senders.
use drasken_labs_communicati.Prelude.{
  ℕ, ◌≡◌, refl, ap, ◌∙◌, Text, Bool, true, false, ◌&&◌, List, [], ◌∷◌, Option, some, text_eq,
  truthy, arith, if◌then◌else◌, is_digit, any, ◌==◌, Bool-cases, inl, inr,
}
use drasken_labs_communicati.Inbox.Preview.{normalise_phone}
use drasken_labs_communicati.Inbox.Conversations.{Conversation, Reply}
use drasken_labs_communicati.Inbox.Conversations.Unread.{
  unread_of, one_more, counted, counted_for, Landed, received, sent, land, tally, land-tally,
}

-- The digits of a number, read past whatever else it is written with, are those of a contact.
unfoldable pub has_digits : Text → Text → Bool
has_digits [] [] = true
has_digits [] (d ∷ contact) = false
has_digits (c ∷ s) [] = let rest = has_digits s [] in if is_digit c then false else rest
has_digits (c ∷ s) (d ∷ contact) =
    let past = has_digits s (d ∷ contact) in
    let rest = has_digits s contact in if is_digit c then c == d && rest else past

normalise_phone-has_digits :
    (s contact : Text) → text_eq (normalise_phone s) contact ≡ has_digits s contact
unfolding normalise_phone has_digits text_eq
normalise_phone-has_digits [] [] = refl
normalise_phone-has_digits [] (d ∷ contact) = refl
normalise_phone-has_digits (c ∷ s) [] = ground (arith, normalise_phone-has_digits s [])
normalise_phone-has_digits (c ∷ s) (d ∷ contact) =
    ground (arith, normalise_phone-has_digits s (d ∷ contact), normalise_phone-has_digits s contact)

truthy-normalise_phone : (s : Text) → truthy (some (normalise_phone s)) ≡ any is_digit s
unfolding normalise_phone
truthy-normalise_phone [] = refl
truthy-normalise_phone (c ∷ s) = elim (Bool-cases (is_digit c)) [
  | inl digit ↦ rw digit refl
  | inr other ↦ rw other (truthy-normalise_phone s)
]

-- What a reply that lands for one organisation is to an inbox.
abbrev pub counted_once : Text → Text → Text → Text → Reply → ℕ × Option ℕ → ℕ × Option ℕ
counted_once org phone contact o r u =
    if text_eq o org && (text_eq r.phone_number_id phone && has_digits r.sender contact)
    then one_more r.timestamp u
    else u

counted-counted_once :
    (org phone contact o : Text) (r : Reply) (u : ℕ × Option ℕ)
    → counted org phone contact o r u ≡ counted_once org phone contact o r u
counted-counted_once org phone contact o r u =
    ap
      (λ b.
        if text_eq o org && (text_eq r.phone_number_id phone && b)
        then one_more r.timestamp u
        else u)
      (normalise_phone-has_digits r.sender contact)

-- And for each of the organisations that are connected to its account.
unfoldable pub counted_all : Text → Text → Text → List Text → Reply → ℕ × Option ℕ → ℕ × Option ℕ
counted_all org phone contact [] r u = u
counted_all org phone contact (o ∷ orgs) r u =
    counted_all org phone contact orgs r (counted_once org phone contact o r u)

counted_for-counted_all :
    (org phone contact : Text) (orgs : List Text) (r : Reply) (u : ℕ × Option ℕ)
    → counted_for org phone contact orgs r u ≡ counted_all org phone contact orgs r u
unfolding counted_for counted_all
counted_for-counted_all org phone contact [] r u = refl
counted_for-counted_all org phone contact (o ∷ orgs) r u =
    counted_for-counted_all org phone contact orgs r (counted org phone contact o r u)
    ∙ ap (counted_all org phone contact orgs r) (counted-counted_once org phone contact o r u)

-- What an inbox should count of a history: the replies with a digit in their sender's number.
unfoldable pub replies_of : Text → Text → Text → List Landed → ℕ × Option ℕ → ℕ × Option ℕ
replies_of org phone contact [] u = u
replies_of org phone contact (sent s ∷ rest) u = replies_of org phone contact rest u
replies_of org phone contact (received orgs r ∷ rest) u =
    replies_of org phone contact rest
      (if any is_digit r.sender then counted_all org phone contact orgs r u else u)

tally-replies_of :
    (org phone contact : Text) (history : List Landed) (u : ℕ × Option ℕ)
    → tally org phone contact history u ≡ replies_of org phone contact history u
unfolding tally replies_of
tally-replies_of org phone contact [] u = refl
tally-replies_of org phone contact (sent s ∷ rest) u = tally-replies_of org phone contact rest u
tally-replies_of org phone contact (received orgs r ∷ rest) u =
    tally-replies_of org phone contact rest (
      if truthy (some (normalise_phone r.sender))
      then counted_for org phone contact orgs r u
      else u)
    ∙ ap
        (λ b.
          replies_of org phone contact rest
            (if b then counted_for org phone contact orgs r u else u))
        (truthy-normalise_phone r.sender)
    ∙ ap (λ v. replies_of org phone contact rest (if any is_digit r.sender then v else u))
        (counted_for-counted_all org phone contact orgs r u)

-- After any history of replies and sends, in any order and to any accounts, the unread count and the
-- last reply of any conversation are those that its own replies make: one more for each reply to its
-- number whose sender has the contact's digits, all of them and no others, whatever they are written
-- with, for each time its organisation is connected to the account; and no send changes either. A
-- sender without a digit counts nowhere.
pub land-replies_of :
    (org phone contact : Text) (history : List Landed) (table : List Conversation)
    → unread_of org phone contact (land history table)
      ≡ replies_of org phone contact history (unread_of org phone contact table)
land-replies_of org phone contact history table =
    land-tally org phone contact history table
    ∙ tally-replies_of org phone contact history (unread_of org phone contact table)
