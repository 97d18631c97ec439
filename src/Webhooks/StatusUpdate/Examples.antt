-- ===== src/Webhooks/StatusUpdate/Examples.antt =====
-- Runs of the status handler, and its theorems at concrete inputs.
use drasken_labs_communicati.Prelude.{
  ℕ, ◌≡◌, refl, arith, codes, text_eq, none, some, List, [], ◌∷◌, All,
}
use drasken_labs_communicati.Prelude.Table.{find_first, update_first}
use drasken_labs_communicati.Webhooks.StatusUpdate.{
  Message, sent, read, str, num, other, StatusReport, status_order, find_message, handle_all,
  failure, handle, named_status, update_message, stamped, failure_of, code_of, text_of, non_empty,
  same_text,
}
use drasken_labs_communicati.Webhooks.StatusUpdate.Order.{highest, handle_all-highest}
use drasken_labs_communicati.Webhooks.StatusUpdate.Stamps.{IsStamped, handle_all-IsStamped}
use drasken_labs_communicati.Prelude.Trim.{trim, is_space}

abbrev just_sent : Message
just_sent = record {
  meta_message_id = codes "wamid.1";
  status = sent;
  delivered_at = none;
  read_at = none;
  failed_at = none;
  failure_reason = none;
  failure_code = none;
  failure_detail = none;
}

-- The reading is reported before the delivery.
abbrev reports : List (StatusReport × ℕ)
reports =
    (record { id = codes "wamid.1"; status = codes "read"; errors = [] }, 50)
    ∷ (record { id = codes "wamid.1"; status = codes "delivered"; errors = [] }, 60)
    ∷ []

read_first :
    handle_all reports (just_sent ∷ [])
    ≡ record just_sent { status = read; read_at = some 50; delivered_at = some 50 } ∷ []
unfolding handle_all handle named_status text_eq update_message find_first update_first stamped
read_first = refl

re_engagement :
    failure (
      record {
        code = num 131047;
        title = str (codes " Re-engagement message ");
        message = str (codes "Re-engagement message");
        details = other;
      }
      ∷ [])
    ≡ record { code = some 131047; title = some (codes "Re-engagement message"); detail = none }
unfolding failure failure_of code_of text_of non_empty same_text trim is_space text_eq
re_engagement = refl

handle_all-highest_example :
    (m' : Message) × (find_message (codes "wamid.1") (handle_all reports (just_sent ∷ []))
      ≡ some m')
    × (status_order m'.status ≡ highest (codes "wamid.1") 0 reports)
unfolding text_eq find_first
handle_all-highest_example =
    handle_all-highest reports (codes "wamid.1") (just_sent ∷ []) just_sent refl

just_sent-IsStamped : All IsStamped (just_sent ∷ [])
just_sent-IsStamped = ground arith

handle_all-IsStamped_example : All IsStamped (handle_all reports (just_sent ∷ []))
handle_all-IsStamped_example = handle_all-IsStamped reports (just_sent ∷ []) just_sent-IsStamped
