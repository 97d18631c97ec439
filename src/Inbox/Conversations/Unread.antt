-- ===== src/Inbox/Conversations/Unread.antt =====
-- Inbox/Conversations: how the count of unread replies and the last reply follow the messages.
use drasken_labs_communicati.Prelude.{
  ℕ, suc, ◌≡◌, refl, sym, ap, ◌∙◌, inl, inr, Text, Bool, true, false, ◌&&◌, List, [], ◌∷◌, Option,
  none, some, text_eq, text_eq_refl, text_eq_sound, truthy, arith, if◌then◌else◌, Bool-cases,
}
use drasken_labs_communicati.Prelude.Table.{
  find_first, upsert_first, upserted, find_first-upsert_first, find_first-upsert_other,
}
use drasken_labs_communicati.Inbox.Preview.{normalise_phone}
use drasken_labs_communicati.Inbox.Conversations.{
  Conversation, Reply, Send, is_conversation, new_reply, replied, new_send, answered, record_for,
  record_inbound, record_outbound,
}

-- What an inbox shows of a conversation: its unread replies and the time of the last.
abbrev pub shown : Option Conversation → ℕ × Option ℕ
shown none = (0, none)
shown (some c) = (c.unread_count, c.last_inbound_at)

unfoldable pub unread_of : Text → Text → Text → List Conversation → ℕ × Option ℕ
unread_of org phone contact table = shown (find_first (is_conversation org phone contact) table)

-- One more reply at an instant.
abbrev pub one_more : ℕ → ℕ × Option ℕ → ℕ × Option ℕ
one_more at (n, last) = (suc n, some at)

-- Whether two keys of the table are one.
abbrev pub same_key : Text → Text → Text → Text → Text → Text → Bool
same_key o p c org phone contact = text_eq o org && (text_eq p phone && text_eq c contact)

key_of :
    (o p c org phone contact : Text) (a : Conversation)
    → is_conversation o p c a ≡ true
    → is_conversation org phone contact a ≡ same_key o p c org phone contact
key_of o p c org phone contact a h =
    let e = text_eq_sound a.sso_org_id o (ground arith) in
    let f = text_eq_sound a.phone_number_id p (ground arith) in
    let g = text_eq_sound a.contact_phone c (ground arith) in cc

same_key_sound :
    (o p c org phone contact : Text)
    → same_key o p c org phone contact ≡ true
    → (o ≡ org) × ((p ≡ phone) × (c ≡ contact))
same_key_sound o p c org phone contact h = (
  text_eq_sound o org (ground arith),
  (text_eq_sound p phone (ground arith), text_eq_sound c contact (ground arith)),
)

-- An upsert of one key shows there,
unread_of-upsert :
    (org phone contact : Text) (new : Conversation) (f : Conversation → Conversation)
    (table : List Conversation)
    → is_conversation org phone contact new ≡ true
    → ((a : Conversation)
        → is_conversation org phone contact (f a) ≡ is_conversation org phone contact a)
    → unread_of org phone contact (upsert_first (is_conversation org phone contact) new f table)
      ≡ shown (some (upserted new f (find_first (is_conversation org phone contact) table)))
unfolding unread_of
unread_of-upsert org phone contact new f table h k =
    ap shown (find_first-upsert_first (is_conversation org phone contact) new f table h k)

-- and not at another.
unread_of-upsert_other :
    (o p c org phone contact : Text) (new : Conversation) (f : Conversation → Conversation)
    (table : List Conversation)
    → same_key o p c org phone contact ≡ false
    → is_conversation o p c new ≡ true
    → ((a : Conversation) → is_conversation o p c (f a) ≡ is_conversation o p c a)
    → unread_of org phone contact (upsert_first (is_conversation o p c) new f table)
      ≡ unread_of org phone contact table
unfolding unread_of
unread_of-upsert_other o p c org phone contact new f table apart h k = ap shown (
    find_first-upsert_other (is_conversation o p c) (is_conversation org phone contact) new f table
      (key_of o p c org phone contact new h ∙ apart)
      (λ a e. (
        key_of o p c org phone contact a e ∙ apart,
        key_of o p c org phone contact (f a) (k a ∙ e) ∙ apart,
      )))

own_key :
    (o p c : Text) (new : Conversation)
    → new.sso_org_id ≡ o
    → new.phone_number_id ≡ p
    → new.contact_phone ≡ c
    → is_conversation o p c new ≡ true
own_key o p c new e f g =
    let x = text_eq_refl o in let y = text_eq_refl p in let z = text_eq_refl c in ground arith

reply-shown :
    (o : Text) (r : Reply) (found : Option Conversation)
    → shown (some (upserted (new_reply o r) (replied r) found)) ≡ one_more r.timestamp (shown found)
reply-shown o r none = refl
reply-shown o r (some c) = refl

send-shown :
    (s : Send) (found : Option Conversation)
    → shown (some (upserted (new_send s) (answered s) found)) ≡ shown found
send-shown s none = refl
send-shown s (some c) = refl

reply_at :
    (o p c : Text) (r : Reply) (table : List Conversation)
    → shown (some (upserted (new_reply o r) (replied r) (find_first (is_conversation o p c) table)))
      ≡ one_more r.timestamp (unread_of o p c table)
unfolding unread_of
reply_at o p c r table = reply-shown o r (find_first (is_conversation o p c) table)

send_at :
    (o p c : Text) (s : Send) (table : List Conversation)
    → shown (some (upserted (new_send s) (answered s) (find_first (is_conversation o p c) table)))
      ≡ unread_of o p c table
unfolding unread_of
send_at o p c s table = send-shown s (find_first (is_conversation o p c) table)

-- What a reply recorded for one organisation is to an inbox.
abbrev pub counted : Text → Text → Text → Text → Reply → ℕ × Option ℕ → ℕ × Option ℕ
counted org phone contact o r u =
    if same_key o r.phone_number_id (normalise_phone r.sender) org phone contact
    then one_more r.timestamp u
    else u

unread_of-reply :
    (org phone contact o : Text) (r : Reply) (table : List Conversation)
    → unread_of org phone contact (
        upsert_first
          (is_conversation o r.phone_number_id (normalise_phone r.sender))
          (new_reply o r)
          (replied r)
          table)
      ≡ counted org phone contact o r (unread_of org phone contact table)
unread_of-reply org phone contact o r table =
    let p = r.phone_number_id in
    let c = normalise_phone r.sender in
    let own = own_key o p c (new_reply o r) refl refl refl in
    let u = unread_of org phone contact table in
    elim (Bool-cases (same_key o p c org phone contact)) [
      | inl hit ↦
          let (e, (f, g)) = same_key_sound o p c org phone contact hit in
          let mine =
            unread_of-upsert o p c (new_reply o r) (replied r) table own (λ a. refl)
            ∙ reply_at o p c r table in
          let here : unread_of org phone contact
                (upsert_first (is_conversation o p c) (new_reply o r) (replied r) table)
              ≡ one_more r.timestamp u =
            cc in
          here ∙ sym (ap (λ b. if b then one_more r.timestamp u else u) hit)
      | inr miss ↦
          unread_of-upsert_other o p c org phone contact (new_reply o r) (replied r) table miss own
            (λ a. refl)
          ∙ sym (ap (λ b. if b then one_more r.timestamp u else u) miss)
    ]

unread_of-send :
    (org phone contact : Text) (s : Send) (table : List Conversation)
    → unread_of org phone contact (record_outbound s table) ≡ unread_of org phone contact table
unfolding record_outbound
unread_of-send org phone contact s table =
    let o = s.sso_org_id in
    let p = s.phone_number_id in
    let c = normalise_phone s.recipient in
    let own = own_key o p c (new_send s) refl refl refl in
    elim (Bool-cases (truthy (some c))) [
      | inr empty ↦
          ap
            (λ b. unread_of org phone contact (
              if b
              then upsert_first (is_conversation o p c) (new_send s) (answered s) table
              else table))
            empty
      | inl full ↦
          ap
            (λ b. unread_of org phone contact (
              if b
              then upsert_first (is_conversation o p c) (new_send s) (answered s) table
              else table))
            full
          ∙ elim (Bool-cases (same_key o p c org phone contact)) [
            | inl hit ↦
                let (e, (f, g)) = same_key_sound o p c org phone contact hit in
                let mine =
                  unread_of-upsert o p c (new_send s) (answered s) table own (λ a. refl)
                  ∙ send_at o p c s table in
                cc
            | inr miss ↦
                unread_of-upsert_other o p c org phone contact (new_send s) (answered s) table miss
                  own (λ a. refl)
          ]
    ]

-- One reply as an inbox counts it, for each organisation that is connected to the account.
unfoldable pub counted_for : Text → Text → Text → List Text → Reply → ℕ × Option ℕ → ℕ × Option ℕ
counted_for org phone contact [] r u = u
counted_for org phone contact (o ∷ orgs) r u =
    counted_for org phone contact orgs r (counted org phone contact o r u)

record_for-counted :
    (org phone contact : Text) (orgs : List Text) (r : Reply) (table : List Conversation)
    → unread_of org phone contact (record_for orgs r table)
      ≡ counted_for org phone contact orgs r (unread_of org phone contact table)
unfolding record_for counted_for
record_for-counted org phone contact [] r table = refl
record_for-counted org phone contact (o ∷ orgs) r table =
    record_for-counted org phone contact orgs r (
      upsert_first (is_conversation o r.phone_number_id (normalise_phone r.sender)) (new_reply o r)
        (replied r) table)
    ∙ ap (counted_for org phone contact orgs r) (unread_of-reply org phone contact o r table)

-- The messages of a history: a reply, with the organisations connected to its account, and a send.
pub data Landed : Type 0 where
  received : List Text → Reply → Landed
  sent : Send → Landed

unfoldable pub land : List Landed → List Conversation → List Conversation
land [] table = table
land (received orgs r ∷ rest) table = land rest (record_inbound orgs r table)
land (sent s ∷ rest) table = land rest (record_outbound s table)

-- What an inbox should count: the replies of its contact to its number, for its organisation.
unfoldable pub tally : Text → Text → Text → List Landed → ℕ × Option ℕ → ℕ × Option ℕ
tally org phone contact [] u = u
tally org phone contact (sent s ∷ rest) u = tally org phone contact rest u
tally org phone contact (received orgs r ∷ rest) u =
    tally org phone contact rest (
      if truthy (some (normalise_phone r.sender))
      then counted_for org phone contact orgs r u
      else u)

-- A history leaves the tally of its replies, under the number that the code writes them with.
pub land-tally :
    (org phone contact : Text) (history : List Landed) (table : List Conversation)
    → unread_of org phone contact (land history table)
      ≡ tally org phone contact history (unread_of org phone contact table)
unfolding land tally record_inbound
land-tally org phone contact [] table = refl
land-tally org phone contact (sent s ∷ rest) table =
    land-tally org phone contact rest (record_outbound s table)
    ∙ ap (tally org phone contact rest) (unread_of-send org phone contact s table)
land-tally org phone contact (received orgs r ∷ rest) table =
    land-tally org phone contact rest (record_inbound orgs r table)
    ∙ ap (tally org phone contact rest)
        (elim (Bool-cases (truthy (some (normalise_phone r.sender)))) [
          | inl full ↦ rw full (record_for-counted org phone contact orgs r table)
          | inr empty ↦ rw empty refl
        ])
