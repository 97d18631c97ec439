-- ===== src/Webhooks/Outbox/Queue.antt =====
-- src/webhooks/webhook-dispatcher.service.ts: what queueing and testing add to the outbox.
use drasken_labs_communicati.Prelude.{
  ℕ, suc, ◌+◌, ◌≡◌, ◌⊎◌, refl, sym, ap, ◌∙◌, Text, true, List, [], ◌∷◌, ◌++◌, append_assoc,
  append-nil, arith, length, some, text_eq, text_eq_sound, text_eq_refl, inl, inr, Bool-cases,
}
use drasken_labs_communicati.Prelude.OneOf.{IsOneOf, any-IsOneOf, IsOneOf-any}
use drasken_labs_communicati.Webhooks.Store.{
  DescribedEvent, Delivery, Endpoint, Store, of_change, pending,
}
use drasken_labs_communicati.Webhooks.Outbox.{
  listens, listening, queued, create_all, enqueue, hears,
}

-- An endpoint of the account that is on and asks for the kind, or for no kind in particular.
abbrev pub IsListening : Text → Text → Endpoint → Type 0
IsListening waba_id kind e =
    (e.waba_id ≡ waba_id) × (e.status ≡ true) × ((e.events ≡ []) ⊎ IsOneOf kind e.events)

hears_sound : (kind : Text) (ks : List Text) → hears kind ks ≡ true → (ks ≡ []) ⊎ IsOneOf kind ks
unfolding hears
hears_sound kind [] h = inl refl
hears_sound kind (k ∷ ks) h = inr (any-IsOneOf kind (k ∷ ks) h)

hears_complete : (kind : Text) (ks : List Text) → (ks ≡ []) ⊎ IsOneOf kind ks → hears kind ks ≡ true
unfolding hears
hears_complete kind ks (inl empty) = ap (hears kind) empty
hears_complete kind [] (inr asked) = refl
hears_complete kind (k ∷ ks) (inr asked) = IsOneOf-any kind (k ∷ ks) asked

listens_sound :
    (waba_id kind : Text) (e : Endpoint)
    → listens waba_id kind e ≡ true
    → IsListening waba_id kind e
unfolding listens
listens_sound waba_id kind e h = (
  text_eq_sound e.waba_id waba_id (ground arith),
  ground arith,
  hears_sound kind e.events (ground arith),
)

listens_complete :
    (waba_id kind : Text) (e : Endpoint)
    → IsListening waba_id kind e
    → listens waba_id kind e ≡ true
unfolding listens
listens_complete waba_id kind e (account, on, asks) =
    let mine : text_eq e.waba_id waba_id ≡ true =
      ap (text_eq e.waba_id) (sym account) ∙ text_eq_refl e.waba_id in
    let heard = hears_complete kind e.events asks in ground arith

module _ (waba_id : Text) (event_id : ℕ) (event_type : Text) (described : DescribedEvent)
    (raw : Text) (now : ℕ) where
  -- A row that is new, due at once, and holds the event for the endpoint.
  pub record IsQueued (id : ℕ) (e : Endpoint) (d : Delivery) : Type 0 where
    pub own_id : d.id ≡ id
    pub endpoint : d.endpoint_id ≡ e.id
    pub event : d.event_id ≡ some event_id
    pub kind : d.event_type ≡ described.kind
    pub account : d.payload.waba_id ≡ waba_id
    pub contents : d.payload.contents ≡ of_change described event_type raw
    pub status : d.status ≡ pending
    pub attempts : d.attempts ≡ 0
    pub due : d.retry_at ≡ some now

  -- Rows for the endpoints that listen, in their order and under consecutive ids, and no others.
  abbrev pub AreQueued : ℕ → List Endpoint → List Delivery → Type 0
  AreQueued n [] ds = ds ≡ []
  AreQueued n (e ∷ es) ds =
      (IsListening waba_id described.kind e
        × ((d : Delivery) × ((rest : List Delivery) × ((ds ≡ d ∷ rest)
                × (IsQueued n e d × AreQueued (suc n) es rest)))))
      ⊎ ((¬ IsListening waba_id described.kind e) × AreQueued n es ds)

  -- What queueing turns `s` into.
  pub record Adds (s t : Store) : Type 0 where
    pub added : List Delivery
    pub rows : t.deliveries ≡ s.deliveries ++ added
    pub for_listeners : AreQueued s.next_delivery s.endpoints added
    pub next : t.next_delivery ≡ s.next_delivery + length added
    pub endpoints : t.endpoints ≡ s.endpoints

  record AddsFor (es : List Endpoint) (s t : Store) : Type 0 where
    pub added : List Delivery
    pub rows : t.deliveries ≡ s.deliveries ++ added
    pub for_listeners : AreQueued s.next_delivery es added
    pub next : t.next_delivery ≡ s.next_delivery + length added
    pub endpoints : t.endpoints ≡ s.endpoints

  abbrev row : ℕ → Endpoint → Delivery
  row = queued waba_id event_id event_type described raw now

  fresh_row : (n : ℕ) (e : Endpoint) → IsQueued n e (row n e)
  unfolding queued
  fresh_row n e = record {
    own_id = refl;
    endpoint = refl;
    event = refl;
    kind = refl;
    account = refl;
    contents = refl;
    status = refl;
    attempts = refl;
    due = refl;
  }

  create_all-AddsFor :
      (es : List Endpoint) (s : Store)
      → AddsFor es s (create_all row (listening waba_id described.kind es) s)
  unfolding create_all listening
  create_all-AddsFor [] s = record {
    added = [];
    rows = sym (append-nil s.deliveries);
    for_listeners = refl;
    next = omega arith;
    endpoints = refl;
  }
  create_all-AddsFor (e ∷ es) s = elim (Bool-cases (listens waba_id described.kind e)) [
    | inl hit ↦
        let t = record s {
          deliveries = s.deliveries ++ row s.next_delivery e ∷ [];
          next_delivery = suc s.next_delivery;
        } in
        let more = create_all-AddsFor es t in
        rw hit (record {
          added = row s.next_delivery e ∷ more.added;
          rows = more.rows ∙ append_assoc s.deliveries (row s.next_delivery e ∷ []) more.added;
          for_listeners = inl (
            listens_sound waba_id described.kind e hit,
            (
              row s.next_delivery e,
              (more.added, (refl, (fresh_row s.next_delivery e, more.for_listeners))),
            ),
          );
          next = omega (arith, more.next);
          endpoints = more.endpoints;
        })
    | inr miss ↦
        let more = create_all-AddsFor es s in
        rw miss (record {
          added = more.added;
          rows = more.rows;
          for_listeners = inr (
            λ l. let hit = listens_complete waba_id described.kind e l in cc,
            more.for_listeners,
          );
          next = more.next;
          endpoints = more.endpoints;
        })
  ]

  -- Queueing an event changes no row that is there, and adds one row for each endpoint of the
  -- account that is on and asks for the event's kind or for none in particular, in their order and
  -- under consecutive ids, and for no other endpoint: a pending one, due at once, not yet tried,
  -- that holds the event.
  pub enqueue-Adds : (s : Store) → Adds s (enqueue waba_id event_id event_type described raw now s)
  unfolding enqueue
  enqueue-Adds s =
      let more = create_all-AddsFor s.endpoints s in
      record {
        added = more.added;
        rows = more.rows;
        for_listeners = more.for_listeners;
        next = more.next;
        endpoints = more.endpoints;
      }
