-- ===== src/Inbox/Conversations.antt =====
-- src/inbox/conversation-writer.service.ts: the summary of each conversation, kept as its messages
-- land. The conversations of all organisations are one table.
pub mod Unread
pub mod Tally
mod Examples
use drasken_labs_communicati.Prelude.{
  ℕ, suc, Text, Bool, true, false, ◌&&◌, List, [], ◌∷◌, Option, none, some, text_eq, truthy,
  if◌then◌else◌,
}
use drasken_labs_communicati.Prelude.Table.{find_first, upsert_first}
use drasken_labs_communicati.Inbox.Preview.{
  InboundPayload, OutboundPayload, inbound_preview, outbound_preview, normalise_phone,
}

pub data Direction : Type 0 where
  inbound outbound : Direction

-- `ConversationStatus`; `opened` is `open`.
pub data Status : Type 0 where
  opened closed : Status

pub record Conversation : Type 0 where
  pub sso_org_id : Text
  pub waba_id : Text
  pub phone_number_id : Text
  pub contact_phone : Text
  pub contact_name : Option Text
  pub last_message_at : ℕ
  pub last_direction : Direction
  pub last_preview : Option Text
  pub last_inbound_at : Option ℕ
  pub unread_count : ℕ
  pub status : Status

-- `ssoOrgId_phoneNumberId_contactPhone`.
abbrev pub is_conversation : Text → Text → Text → Conversation → Bool
is_conversation org phone contact c =
    text_eq c.sso_org_id org && (text_eq c.phone_number_id phone && text_eq c.contact_phone contact)

pub record Reply : Type 0 where
  pub waba_id : Text
  pub phone_number_id : Text
  pub sender : Text
  pub sender_name : Option Text
  pub kind : Text
  pub payload : InboundPayload
  pub timestamp : ℕ

pub record Send : Type 0 where
  pub sso_org_id : Text
  pub waba_id : Text
  pub phone_number_id : Text
  pub recipient : Text
  pub kind : Text
  pub payload : OutboundPayload
  pub template_name : Option Text
  pub sent_at : ℕ

abbrev pub new_reply : Text → Reply → Conversation
new_reply org r = record {
  sso_org_id = org;
  waba_id = r.waba_id;
  phone_number_id = r.phone_number_id;
  contact_phone = normalise_phone r.sender;
  contact_name = r.sender_name;
  last_message_at = r.timestamp;
  last_direction = Direction.inbound;
  last_preview = some (inbound_preview r.kind r.payload);
  last_inbound_at = some r.timestamp;
  unread_count = 1;
  status = Status.opened;
}

-- `update` of a reply; a name that is absent or empty leaves the one there.
abbrev pub replied : Reply → Conversation → Conversation
replied r c = record c {
  contact_name = if truthy r.sender_name then r.sender_name else c.contact_name;
  last_message_at = r.timestamp;
  last_direction = Direction.inbound;
  last_preview = some (inbound_preview r.kind r.payload);
  last_inbound_at = some r.timestamp;
  unread_count = suc c.unread_count;
  status = Status.opened;
}

unfoldable pub record_for : List Text → Reply → List Conversation → List Conversation
record_for [] r table = table
record_for (org ∷ orgs) r table = record_for orgs r (
    upsert_first (is_conversation org r.phone_number_id (normalise_phone r.sender))
      (new_reply org r) (replied r) table)

-- `recordInbound`, of the organisations that `wabaOrganisation` connects to the account.
unfoldable pub record_inbound : List Text → Reply → List Conversation → List Conversation
record_inbound orgs r table =
    if truthy (some (normalise_phone r.sender)) then record_for orgs r table else table

abbrev pub new_send : Send → Conversation
new_send s = record {
  sso_org_id = s.sso_org_id;
  waba_id = s.waba_id;
  phone_number_id = s.phone_number_id;
  contact_phone = normalise_phone s.recipient;
  contact_name = none;
  last_message_at = s.sent_at;
  last_direction = Direction.outbound;
  last_preview = some (outbound_preview s.kind s.payload s.template_name);
  last_inbound_at = none;
  unread_count = 0;
  status = Status.opened;
}

abbrev pub answered : Send → Conversation → Conversation
answered s c = record c {
  last_message_at = s.sent_at;
  last_direction = Direction.outbound;
  last_preview = some (outbound_preview s.kind s.payload s.template_name);
}

unfoldable pub record_outbound : Send → List Conversation → List Conversation
record_outbound s table =
    if truthy (some (normalise_phone s.recipient))
    then upsert_first (is_conversation s.sso_org_id s.phone_number_id (normalise_phone s.recipient))
        (new_send s) (answered s) table
    else table
