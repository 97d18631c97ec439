-- ===== src/Webhooks/StatusUpdate/Order.antt =====
-- src/webhooks/handlers/status-update.handler.ts: reports that come late, twice or out of order.
use drasken_labs_communicati.Prelude.{
  ℕ, ◌≡◌, refl, sym, ◌∙◌, ap, Text, text_eq, text_eq_sound, false, Option, none, some, List, [],
  ◌∷◌, arith, leb, if◌then◌else◌, Option-cases, Bool-cases, inl, inr,
}
use Prim.Native.Nat.{max}
use mathlib.Core.Option
use drasken_labs_communicati.Prelude.Table.{find_first-update_first, find_first-update_other}
use drasken_labs_communicati.Webhooks.StatusUpdate.{
  Message, MessageStatus, sent, delivered, read, failed, MetaError, StatusReport, named_status,
  status_order, failure, stamped, advance, is_message, find_message, update_message, handle,
  handle_all,
}

-- What a report makes of the message that it names.
pub reported : StatusReport → ℕ → Message → Message
reported r now m = elim (named_status r.status) [
  | none ↦ m
  | some status ↦ advance status now r.errors m
]

stamped-id :
    (status : MessageStatus) (now : ℕ) (es : List MetaError) (m : Message)
    → (stamped status now (failure es) m).meta_message_id ≡ m.meta_message_id
unfolding stamped
stamped-id sent now es m = refl
stamped-id delivered now es m = refl
stamped-id read now es m = refl
stamped-id failed now es m = refl

stamped-status :
    (status : MessageStatus) (now : ℕ) (es : List MetaError) (m : Message)
    → (stamped status now (failure es) m).status ≡ status
unfolding stamped
stamped-status sent now es m = refl
stamped-status delivered now es m = refl
stamped-status read now es m = refl
stamped-status failed now es m = refl

update_message-find_self :
    (id : Text) (status : MessageStatus) (now : ℕ) (es : List MetaError) (ms : List Message)
    → find_message id (update_message id status now es ms)
      ≡ Option.map (advance status now es) (find_message id ms)
unfolding update_message advance
update_message-find_self id status now es ms = elim (Option-cases (find_message id ms)) [
  | inl e ↦ rw (e, update_message) (rw e)
  | inr (m, e) ↦
      let written =
        find_first-update_first (is_message id) (stamped status now (failure es)) ms
          (λ a. ap (λ i. text_eq i id) (stamped-id status now es a)) in
      elim (Bool-cases (leb (status_order status) (status_order m.status))) [
        | inl late ↦ rw (e, update_message) (simp (late, e))
        | inr news ↦ rw (e, update_message) (simp news (written ∙ rw e))
      ]
]

update_message-find_other :
    (id j : Text) (status : MessageStatus) (now : ℕ) (es : List MetaError) (ms : List Message)
    → text_eq id j ≡ false
    → find_message j (update_message id status now es ms) ≡ find_message j ms
unfolding update_message
update_message-find_other id j status now es ms h = elim (Option-cases (find_message id ms)) [
  | inl e ↦ rw (e, update_message)
  | inr (m, e) ↦
      let unseen =
        find_first-update_other (is_message id) (is_message j) (stamped status now (failure es)) ms
          (λ a same.
            let i : a.meta_message_id ≡ id = text_eq_sound a.meta_message_id id same in
            (rw i h, rw (stamped-id status now es a, i) h)) in
      elim (Bool-cases (leb (status_order status) (status_order m.status))) [
        | inl late ↦ rw (e, update_message) (simp late)
        | inr news ↦ rw (e, update_message) (simp news unseen)
      ]
]

reported_unknown :
    (r : StatusReport) (now : ℕ) (m : Message) → named_status r.status ≡ none → reported r now m ≡ m
unfolding reported
reported_unknown r now m e = rw (e, reported)

reported_known :
    (r : StatusReport) (now : ℕ) (m : Message) (status : MessageStatus)
    → named_status r.status ≡ some status
    → reported r now m ≡ advance status now r.errors m
unfolding reported
reported_known r now m status e = rw (e, reported)

map-reported_unknown :
    (r : StatusReport) (now : ℕ) (o : Option Message)
    → named_status r.status ≡ none
    → o ≡ Option.map (reported r now) o
map-reported_unknown r now none e = refl
map-reported_unknown r now (some m) e = ap some (sym (reported_unknown r now m e))

map-reported_known :
    (r : StatusReport) (now : ℕ) (o : Option Message) (status : MessageStatus)
    → named_status r.status ≡ some status
    → Option.map (advance status now r.errors) o ≡ Option.map (reported r now) o
map-reported_known r now none status e = refl
map-reported_known r now (some m) status e = ap some (sym (reported_known r now m status e))

-- A report is a change of the one message that it names.
handle-find :
    (r : StatusReport) (now : ℕ) (id : Text) (ms : List Message)
    → find_message id (handle r now ms) ≡ (
        if text_eq r.id id
        then Option.map (reported r now) (find_message id ms)
        else find_message id ms)
unfolding handle reported
handle-find r now id ms = elim (Option-cases (named_status r.status)) [
  | inl unknown ↦ elim (Bool-cases (text_eq r.id id)) [
    | inl same ↦
        rw (unknown, handle, same) (map-reported_unknown r now (find_message id ms) unknown)
    | inr apart ↦ rw (unknown, handle, apart)
  ]
  | inr (status, known) ↦ elim (Bool-cases (text_eq r.id id)) [
    | inl same ↦
        rw (known, handle, same)
          (ap (λ j. find_message id (update_message j status now r.errors ms))
              (text_eq_sound r.id id same)
            ∙ update_message-find_self id status now r.errors ms
            ∙ map-reported_known r now (find_message id ms) status known)
    | inr apart ↦
        rw (known, handle, apart) (update_message-find_other r.id id status now r.errors ms apart)
  ]
]

-- The place of a report's status, and 0 for a status that is not known.
abbrev pub report_order : StatusReport → ℕ
report_order r = elim (named_status r.status) [ none ↦ 0 | some status ↦ status_order status ]

-- The highest place among those of `k` and of the reports on one message, in any order.
abbrev pub highest : Text → ℕ → List (StatusReport × ℕ) → ℕ
highest id k [] = k
highest id k ((r, now) ∷ rs) = highest id (if text_eq r.id id then max k (report_order r) else k) rs

reported-order :
    (r : StatusReport) (now : ℕ) (m : Message)
    → status_order (reported r now m).status ≡ max (status_order m.status) (report_order r)
unfolding advance
reported-order r now m = elim (Option-cases (named_status r.status)) [
  | inl e ↦ rw (reported_unknown r now m e, e, report_order) (omega arith)
  | inr (status, e) ↦ elim (Bool-cases (leb (status_order status) (status_order m.status))) [
    | inl late ↦ rw (reported_known r now m status e, e, report_order) (simp late (ground arith))
    | inr news ↦
        rw (reported_known r now m status e, e, report_order)
          (simp (news, stamped-status status now r.errors m) (ground arith))
  ]
]

-- Whatever reports arrive, in whatever order and however often, about this message and others: a
-- message that is there stays there, and its status is the furthest one among its own and those
-- reported of it by a known name.
pub handle_all-highest :
    (rs : List (StatusReport × ℕ)) (id : Text) (ms : List Message) (m : Message)
    → find_message id ms ≡ some m
    → (m' : Message) × (find_message id (handle_all rs ms) ≡ some m')
      × (status_order m'.status ≡ highest id (status_order m.status) rs)
unfolding handle_all
handle_all-highest [] id ms m e = (m, e, refl)
handle_all-highest ((r, now) ∷ rs) id ms m e = elim (Bool-cases (text_eq r.id id)) [
  | inl same ↦
      let found : find_message id (handle r now ms) ≡ some (reported r now m) =
        rw (handle-find r now id ms, same, e) in
      let (m', at, order) = handle_all-highest rs id (handle r now ms) (reported r now m) found in
      (m', at, rw same (order ∙ rw (reported-order r now m)))
  | inr apart ↦
      let found : find_message id (handle r now ms) ≡ some m =
        rw (handle-find r now id ms, apart, e) in
      let (m', at, order) = handle_all-highest rs id (handle r now ms) m found in
      (m', at, rw apart order)
]
