-- ===== src/Webhooks/Outbox/Alone.antt =====
-- src/webhooks/webhook-dispatcher.service.ts: an outbox with one delivery that is open.
use drasken_labs_communicati.Prelude.{
  ℕ, ◌==◌, ◌⊎◌, inl, inr, sym, subst, ◌≤◌, ◌≡◌, refl, true, false, some, List, [], ◌∷◌, arith,
}
use drasken_labs_communicati.Prelude.Table.{update_row}
use drasken_labs_communicati.Webhooks.Store.{Delivery}
use drasken_labs_communicati.Webhooks.Settle.{delivery_id}
use drasken_labs_communicati.Webhooks.Outbox.{is_open, due_rows, is_due, insert_due}

abbrev pub AreSettled : List Delivery → Type 0
AreSettled [] = Unit
AreSettled (e ∷ es) = (is_open e.status ≡ false) × AreSettled es

-- The delivery is in the outbox, under an id of its own, and every other row is settled.
abbrev pub IsAlone : Delivery → List Delivery → Type 0
IsAlone d [] = ⊥
IsAlone d (e ∷ es) =
    ((e ≡ d) × AreSettled es)
    ⊎ (((e.id == d.id) ≡ false) × ((is_open e.status ≡ false) × IsAlone d es))

due_rows_settled : (now : ℕ) (ds : List Delivery) → AreSettled ds → due_rows now ds ≡ []
unfolding due_rows is_due
due_rows_settled now [] h = refl
due_rows_settled now (e ∷ es) (h, hs) = rw (h, due_rows_settled now es hs) refl

-- A sweep reads the one row that is due.
pub due_rows_alone :
    (now due : ℕ) (d : Delivery) (ds : List Delivery)
    → IsAlone d ds
    → is_open d.status ≡ true
    → d.retry_at ≡ some due
    → due ≤ now
    → due_rows now ds ≡ d ∷ []
unfolding due_rows is_due insert_due
due_rows_alone now due d [] h o r lt = absurd h
due_rows_alone now due d (e ∷ es) (inl (same, rest)) o r lt =
    let ready : is_due now d ≡ true = rw (o, r) (ground arith) in
    subst (λ x. due_rows now (x ∷ es) ≡ d ∷ []) (sym same)
      (rw (due_rows_settled now es rest, ready) refl)
due_rows_alone now due d (e ∷ es) (inr (other, (settled, rest))) o r lt =
    rw (settled, due_rows_alone now due d es rest o r lt) refl

update_row_same :
    (j : ℕ) (f : Delivery → Delivery) (d : Delivery) (es : List Delivery)
    → j ≡ d.id
    → update_row delivery_id j f (d ∷ es) ≡ f d ∷ es
unfolding update_row
update_row_same j f d es h = ground arith

pub IsAlone-update_row :
    (j : ℕ) (f : Delivery → Delivery) (d : Delivery) (ds : List Delivery)
    → j ≡ d.id
    → (f d).id ≡ d.id
    → IsAlone d ds
    → IsAlone (f d) (update_row delivery_id j f ds)
unfolding update_row
IsAlone-update_row j f d [] h k a = absurd a
IsAlone-update_row j f d (e ∷ es) h k (inl (same, rest)) =
    subst (λ x. IsAlone (f d) (update_row delivery_id j f (x ∷ es))) (sym same)
      (rw (update_row_same j f d es h) (inl (refl, rest)))
IsAlone-update_row j f d (e ∷ es) h k (inr (other, (settled, rest))) =
    let miss : (e.id == j) ≡ false = rw h other in
    rw miss (inr (rw k other, (settled, IsAlone-update_row j f d es h k rest)))
