-- ===== src/Webhooks/StatusUpdate.antt =====
-- src/webhooks/handlers/status-update.handler.ts: Meta's reports on messages that were sent. The
-- table of messages is the argument and the result; a query that fails is logged and changes
-- nothing, and is not modelled.
pub mod Order
pub mod Stamps
mod Examples
use drasken_labs_communicati.Prelude.Words.{or_else}
use drasken_labs_communicati.Prelude.{
  ℕ, ◌≡◌, Text, codes, text_eq, Bool, true, false, Option, none, some, List, [], ◌∷◌, leb,
  if◌then◌else◌, not,
}
use drasken_labs_communicati.Prelude.Table.{find_first, update_first}
use drasken_labs_communicati.Prelude.Trim.{trim}

pub data MessageStatus : Type 0 where
  sent delivered read failed : MessageStatus

-- The columns of prisma/schema.prisma's Message that the handler reads or writes.
pub record Message : Type 0 where
  pub meta_message_id : Text
  pub status : MessageStatus
  pub delivered_at : Option ℕ
  pub read_at : Option ℕ
  pub failed_at : Option ℕ
  pub failure_reason : Option Text
  pub failure_code : Option ℕ
  pub failure_detail : Option Text

-- A value of the payload, as far as the handler tells values apart; Meta's codes are natural.
pub data Value : Type 0 where
  str : Text → Value
  num : ℕ → Value
  other : Value

pub record MetaError : Type 0 where
  pub code : Value
  pub title : Value
  pub message : Value
  pub details : Value

-- A status report: the id and status of a message, and its errors (none where that is no array).
pub record StatusReport : Type 0 where
  pub id : Text
  pub status : Text
  pub errors : List MetaError

-- `STATUS_ORDER`: the status that a name stands for, and its place.
pub named_status : Text → Option MessageStatus
named_status name =
    if text_eq name (codes "sent")
    then some sent
    else if text_eq name (codes "delivered")
    then some delivered
    else if text_eq name (codes "read")
    then some read
    else if text_eq name (codes "failed")
    then some failed
    else none

abbrev pub status_order : MessageStatus → ℕ
status_order sent = 0
status_order delivered = 1
status_order read = 2
status_order failed = 3

non_empty : Text → Option Text
non_empty [] = none
non_empty (c ∷ s) = some (c ∷ s)

-- `text` of `failure`.
pub text_of : Value → Option Text
text_of (str s) = non_empty (trim s)
text_of (num n) = none
text_of other = none

pub same_text : Option Text → Option Text → Bool
same_text none none = true
same_text none (some t) = false
same_text (some s) none = false
same_text (some s) (some t) = text_eq s t

pub record Failure : Type 0 where
  pub code : Option ℕ
  pub title : Option Text
  pub detail : Option Text

code_of : Value → Option ℕ
code_of (num n) = some n
code_of _ = none

failure_of : MetaError → Failure
failure_of e = record {
  code = code_of e.code;
  title = or_else (text_of e.title) (text_of e.message);
  detail =
      or_else (text_of e.details)
        (if not (same_text (text_of e.message) (text_of e.title)) then text_of e.message else none);
}

-- Without an error the columns are emptied.
pub failure : List MetaError → Failure
failure [] = record { code = none; title = none; detail = none }
failure (e ∷ es) = failure_of e

-- The columns that a report writes.
pub stamped : MessageStatus → ℕ → Failure → Message → Message
stamped sent now f m = record m { status = sent }
stamped delivered now f m = record m { status = delivered; delivered_at = some now }
stamped read now f m = record m {
  status = read;
  read_at = some now;
  delivered_at = or_else m.delivered_at (some now);
}
stamped failed now f m = record m {
  status = failed;
  failed_at = some now;
  failure_reason = f.title;
  failure_code = f.code;
  failure_detail = f.detail;
}

-- Only an advance is written.
pub advance : MessageStatus → ℕ → List MetaError → Message → Message
advance status now errors m =
    if leb (status_order status) (status_order m.status)
    then m
    else stamped status now (failure errors) m

abbrev pub is_message : Text → Message → Bool
is_message id m = text_eq m.meta_message_id id

abbrev pub find_message : Text → List Message → Option Message
find_message id = find_first (is_message id)

update_message : Text → MessageStatus → ℕ → List MetaError → List Message → List Message
update_message id status now errors messages = elim (find_message id messages) [
  | none ↦ messages
  | some m ↦
      if leb (status_order status) (status_order m.status)
      then messages
      else update_first (is_message id) (stamped status now (failure errors)) messages
]

pub handle : StatusReport → ℕ → List Message → List Message
handle r now messages = elim (named_status r.status) [
  | none ↦ messages
  | some status ↦ update_message r.id status now r.errors messages
]

-- Reports in the order in which they come in, each with the instant at which it is handled.
pub handle_all : List (StatusReport × ℕ) → List Message → List Message
handle_all [] ms = ms
handle_all ((r, now) ∷ rs) ms = handle_all rs (handle r now ms)
