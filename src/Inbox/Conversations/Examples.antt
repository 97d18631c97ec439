-- ===== src/Inbox/Conversations/Examples.antt =====
-- Runs of src/inbox, and its theorems at concrete inputs.
use drasken_labs_communicati.Prelude.{
  ◌++◌, text_eq, ℕ, ◌≡◌, ◌≤◌, refl, Text, codes, [], ◌∷◌, none, some, List, length,
}
use drasken_labs_communicati.Inbox.Preview.{
  normalise_phone, collapse, clamp, quoted_or, summary_or, InboundPayload, OutboundPayload, words,
  other, inbound_preview, outbound_preview,
}
use drasken_labs_communicati.Inbox.Preview.Bounds.{length-preview}
use drasken_labs_communicati.Inbox.Conversations.{
  record_for, record_outbound, record_inbound, Reply, Send,
}
use drasken_labs_communicati.Inbox.Conversations.Unread.{Landed, received, sent, land, unread_of}
use drasken_labs_communicati.Inbox.Conversations.Tally.{replies_of, land-replies_of}
use drasken_labs_communicati.Prelude.Table.{find_first, upsert_first}
use drasken_labs_communicati.Prelude.Trim.{is_space, trim_start, trim}

abbrev question : InboundPayload
question = record { body = some (words (codes "  Is it   open? ")); caption = none; text = none }

abbrev photo : OutboundPayload
photo = record { body = some other; caption = none; template_name = none; interactive_text = none }

abbrev reply : Text → ℕ → Reply
reply sender at = record {
  waba_id = codes "w";
  phone_number_id = codes "p";
  sender = sender;
  sender_name = none;
  kind = codes "text";
  payload = question;
  timestamp = at;
}

abbrev answer : Send
answer = record {
  sso_org_id = codes "a";
  waba_id = codes "w";
  phone_number_id = codes "p";
  recipient = codes "+91 98";
  kind = codes "image";
  payload = photo;
  template_name = none;
  sent_at = 7;
}

abbrev history : List Landed
history =
    received (codes "a" ∷ codes "b" ∷ []) (reply (codes "9198") 5)
    ∷ sent answer
    ∷ received (codes "a" ∷ []) (reply (codes "+91-98") 9)
    ∷ []

quoted : inbound_preview (codes "text") question ≡ codes "Is it open?"
unfolding inbound_preview summary_or quoted_or clamp collapse trim trim_start is_space text_eq
quoted = refl

summarised : outbound_preview (codes "image") photo none ≡ codes "Photo"
unfolding outbound_preview summary_or quoted_or clamp collapse trim trim_start is_space text_eq
summarised = refl

two_unread : unread_of (codes "a") (codes "p") (codes "9198") (land history []) ≡ (2, some 9)
unfolding land record_inbound record_outbound record_for upsert_first find_first normalise_phone
    unread_of text_eq
two_unread = refl

-- A reply that lands late takes the time of the last reply back.
late_reply :
    unread_of
      (codes "a")
      (codes "p")
      (codes "9198")
      (land (history ++ received (codes "a" ∷ []) (reply (codes "9198") 6) ∷ []) [])
    ≡ (3, some 6)
unfolding land record_inbound record_outbound record_for upsert_first find_first normalise_phone
    unread_of text_eq
late_reply = refl

length-preview_example :
    (length (inbound_preview (codes "image") question) ≤ 120)
    × (length (outbound_preview (codes "image") photo none) ≤ 120)
length-preview_example = length-preview (codes "image") question photo none

land-replies_of_example :
    unread_of (codes "a") (codes "p") (codes "9198") (land history [])
    ≡ replies_of
        (codes "a")
        (codes "p")
        (codes "9198")
        history
        (unread_of (codes "a") (codes "p") (codes "9198") [])
land-replies_of_example = land-replies_of (codes "a") (codes "p") (codes "9198") history []
