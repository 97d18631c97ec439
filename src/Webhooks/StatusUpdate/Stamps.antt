-- ===== src/Webhooks/StatusUpdate/Stamps.antt =====
-- src/webhooks/handlers/status-update.handler.ts: the instants that stand beside a status.
use drasken_labs_communicati.Prelude.{
  ℕ, ◌≡◌, Bool, true, false, Option, none, some, List, [], ◌∷◌, arith, All, leb, Option-cases,
  Bool-cases, inl, inr,
}
use drasken_labs_communicati.Prelude.Table.{update_first}
use drasken_labs_communicati.Webhooks.StatusUpdate.{
  Message, MessageStatus, sent, delivered, read, failed, MetaError, StatusReport, named_status,
  status_order, failure, stamped, is_message, find_message, update_message, handle, handle_all,
}

abbrev pub is_some {ℓ} : {A : Type ℓ} → Option A → Bool
is_some none = false
is_some (some a) = true

-- A delivered message has its instant of delivery, a read one that of reading too, a failed one that
-- of failing, and one that was ever read has an instant of delivery.
pub record IsStamped (m : Message) : Type 0 where
  pub when_delivered : m.status ≡ delivered → is_some m.delivered_at ≡ true
  pub when_read : m.status ≡ read → is_some m.read_at ≡ true
  pub when_failed : m.status ≡ failed → is_some m.failed_at ≡ true
  pub read_implies : is_some m.read_at ≡ true → is_some m.delivered_at ≡ true

stamped-IsStamped :
    (status : MessageStatus) (now : ℕ) (es : List MetaError) (m : Message)
    → IsStamped m
    → IsStamped (stamped status now (failure es) m)
unfolding stamped
stamped-IsStamped sent now es m h = ground (arith, h.read_implies)
stamped-IsStamped delivered now es m h = ground (arith, h.read_implies)
stamped-IsStamped read now es m h = ground (arith, h.read_implies)
stamped-IsStamped failed now es m h = ground (arith, h.read_implies)

update_first-IsStamped :
    (p : Message → Bool) (f : Message → Message) (ms : List Message)
    → ((m : Message) → IsStamped m → IsStamped (f m))
    → All IsStamped ms
    → All IsStamped (update_first p f ms)
unfolding update_first
update_first-IsStamped p f [] h a = tt
update_first-IsStamped p f (m ∷ ms) h (v, vs) = elim (Bool-cases (p m)) [
  | inl e ↦ rw e (h m v, vs)
  | inr e ↦ rw e (v, update_first-IsStamped p f ms h vs)
]

handle-IsStamped :
    (r : StatusReport) (now : ℕ) (ms : List Message)
    → All IsStamped ms
    → All IsStamped (handle r now ms)
unfolding handle update_message
handle-IsStamped r now ms h = elim (Option-cases (named_status r.status)) [
  | inl e ↦ rw (e, handle) h
  | inr (status, e) ↦ elim (Option-cases (find_message r.id ms)) [
    | inl f ↦ rw (e, handle, f, update_message) h
    | inr (m, f) ↦ elim (Bool-cases (leb (status_order status) (status_order m.status))) [
      | inl late ↦ rw (e, handle, f, update_message) (simp late h)
      | inr news ↦
          rw (e, handle, f, update_message)
            (simp news (
              update_first-IsStamped (is_message r.id) (stamped status now (failure r.errors)) ms
                (stamped-IsStamped status now r.errors) h))
    ]
  ]
]

-- Whatever reports are handled, every message keeps the instants that its status calls for.
pub handle_all-IsStamped :
    (rs : List (StatusReport × ℕ)) (ms : List Message)
    → All IsStamped ms
    → All IsStamped (handle_all rs ms)
unfolding handle_all
handle_all-IsStamped [] ms h = h
handle_all-IsStamped ((r, now) ∷ rs) ms h =
    handle_all-IsStamped rs (handle r now ms) (handle-IsStamped r now ms h)
