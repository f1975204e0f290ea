-- ===== src/Payments/Recorded.antt =====
-- The unique key `(provider, event_id)` of `webhook_events`, for webhookHandler.js.
use terravoy_backend.Prelude.{
  ℕ, ◌≡◌, refl, ◌∙◌, Bool, true, false, ◌⊎◌, inl, inr, Option, none, some, List, [], ◌∷◌, arith,
  find, is_some, Option-cases, Bool-cases,
}
use terravoy_backend.Store.Rows.{
  Event, EventId, EventType, Provider, WebhookRow, payment_succeeded, payment_failed,
  payment_requires_action, refund_succeeded, refund_failed, unknown_type, event_processed,
  event_failed, provider_eq_iff, event_id_eq_iff,
}
use terravoy_backend.Store.Table.{update}
use terravoy_backend.Store.Db.{Db, Outcome, value, returned, thrown, then_do}
use terravoy_backend.Payments.Event.{
  event_row_id, same_txn, handle_payment_succeeded, handle_payment_failed,
  handle_payment_requires_action, intent_to_settle, intent_named_or_in_process,
}
use terravoy_backend.Payments.Refund.{
  handle_refund_succeeded, handle_refund_failed, refund_to_settle, taken_elsewhere,
}
use terravoy_backend.Payments.Process.{process_event, handler_of}
use terravoy_backend.Payments.Webhook.{
  same_event, store_event, receive_event, accepted, Stored, is_new, is_duplicate, process_stored,
  finish, was_thrown,
}

-- An event of this provider and id is stored.
abbrev pub recorded : Provider → EventId → List WebhookRow → Bool
recorded p id rows = is_some (find (same_event p id) rows)

recorded-update :
    (p : Provider) (id : EventId) (row : ℕ) (f : WebhookRow → WebhookRow) (rows : List WebhookRow)
    → ((r : WebhookRow) → same_event p id (f r) ≡ same_event p id r)
    → recorded p id (update event_row_id row f rows) ≡ recorded p id rows
recorded-update p id row f [] same = refl
recorded-update p id row f (r ∷ rows) same =
    ground (arith, same r, recorded-update p id row f rows same)

-- What processing an event writes into its row.
abbrev linked : (order intent payment refund : Option ℕ) → WebhookRow → WebhookRow
linked o i p r row = record row { order_id = o; intent_id = i; payment_id = p; refund_id = r }

-- The rows of the events are as before, or row `w` was linked to what it settled.
abbrev pub LinksOnly : ℕ → Db → Db → Type 0
LinksOnly w db db' =
    (db'.events ≡ db.events)
    ⊎ ((f : WebhookRow → WebhookRow) × ((r : WebhookRow) → (f r).provider ≡ r.provider)
        × ((r : WebhookRow) → (f r).event_id ≡ r.event_id)
        × ((r : WebhookRow) → (f r).id ≡ r.id)
        × (db'.events ≡ update event_row_id w f db.events))

module _ (e : Event) (w : ℕ) (db : Db) where
  succeeded_links : LinksOnly w db (handle_payment_succeeded e w db).0
  unfolding handle_payment_succeeded
  succeeded_links = elim (Option-cases (intent_to_settle e db)) [
    | inl h ↦ inl (ground arith)
    | inr ((i, o), h) ↦ elim (Option-cases e.payload.amount) [
      | inl a ↦ inl (ground arith)
      | inr (n, a) ↦ elim (Option-cases e.payload.currency) [
        | inl c ↦ inl (ground arith)
        | inr (m, c) ↦
            elim (Bool-cases
              (is_some (find (same_txn e.provider e.payload.provider_txn_id) db.payments))) [
                | inl t ↦ inr (
                  (λ r. record r {
                    order_id = some o.id;
                    intent_id = some i.id;
                    payment_id = none;
                  }),
                  (λ r. refl),
                  (λ r. refl),
                  (λ r. refl),
                  ground arith,
                )
                | inr t ↦ inr (
                  (λ r. record r {
                    order_id = some o.id;
                    intent_id = some i.id;
                    payment_id = some db.next_payment;
                  }),
                  (λ r. refl),
                  (λ r. refl),
                  (λ r. refl),
                  ground arith,
                )
              ]
      ]
    ]
  ]

  failed_links : LinksOnly w db (handle_payment_failed e w db).0
  unfolding handle_payment_failed
  failed_links = elim (Option-cases (intent_named_or_in_process e db)) [
    | inl h ↦ inl (ground arith)
    | inr ((i, o), h) ↦ inr (
      (λ r. record r { order_id = some i.order_id; intent_id = some i.id }),
      (λ r. refl),
      (λ r. refl),
      (λ r. refl),
      ground arith,
    )
  ]

  action_links : LinksOnly w db (handle_payment_requires_action e db).0
  unfolding handle_payment_requires_action
  action_links = inl (ground arith)

  refund_succeeded_links : LinksOnly w db (handle_refund_succeeded e w db).0
  unfolding handle_refund_succeeded
  refund_succeeded_links = elim (Option-cases (refund_to_settle e db)) [
    | inl h ↦ inl (ground arith)
    | inr (r, h) ↦
        elim (Bool-cases (taken_elsewhere r.id e.payload.provider_refund_id db.refunds)) [
          | inl t ↦ inl (ground arith)
          | inr t ↦ inr (
            (λ x. record x { order_id = some r.order_id; refund_id = some r.id }),
            (λ x. refl),
            (λ x. refl),
            (λ x. refl),
            ground arith,
          )
        ]
  ]

  refund_failed_links : LinksOnly w db (handle_refund_failed e db).0
  unfolding handle_refund_failed
  refund_failed_links = inl (ground arith)

handler_links :
    (t : EventType) (e : Event) (w : ℕ) (db : Db) → LinksOnly w db (handler_of t e w db).0
handler_links payment_succeeded e w db = succeeded_links e w db
handler_links payment_failed e w db = failed_links e w db
handler_links payment_requires_action e w db = action_links e w db
handler_links refund_succeeded e w db = refund_succeeded_links e w db
handler_links refund_failed e w db = refund_failed_links e w db
handler_links unknown_type e w db = inl refl

links_recorded :
    (p : Provider) (id : EventId) (w : ℕ) (db db' : Db)
    → LinksOnly w db db'
    → recorded p id db'.events ≡ recorded p id db.events
links_recorded p id w db db' (inl e) = rw e refl
links_recorded p id w db db' (inr (f, a, b, c, e)) =
    rw e (recorded-update p id w f db.events (λ r. rw (a r, b r) refl))

pub process_event-LinksOnly :
    (e : Event) (w : ℕ) (db : Db) → LinksOnly w db (process_event e w db).0
unfolding process_event
process_event-LinksOnly e w db = handler_links e.type e w db

-- Processing an event forgets no event.
pub process_event-recorded :
    (p : Provider) (id : EventId) (e : Event) (w : ℕ) (db : Db)
    → recorded p id ((process_event e w db).0).events ≡ recorded p id db.events
process_event-recorded p id e w db =
    links_recorded p id w db (process_event e w db).0 (process_event-LinksOnly e w db)

recorded-finish :
    (threw : Bool) (p : Provider) (id : EventId) (row : ℕ) (i : EventId) (db : Db)
    → recorded p id ((finish threw i row db).0).events ≡ recorded p id db.events
recorded-finish true p id row i db =
    recorded-update p id row (λ r. record r { status = event_failed }) db.events (λ r. refl)
recorded-finish false p id row i db =
    recorded-update p id row (λ r. record r { status = event_processed }) db.events (λ r. refl)

stored_first :
    (p : Provider) (e : Event) (db : Db)
    → recorded p e.event_id ((store_event p e db).0).events ≡ true
unfolding store_event
stored_first p e db =
    ground (arith, (provider_eq_iff p p).1 refl, (event_id_eq_iff e.event_id e.event_id).1 refl)

processed_recorded :
    (p : Provider) (e : Event) (s : Stored) (db : Db)
    → recorded p e.event_id db.events ≡ true
    → recorded p e.event_id ((process_stored e s db).0).events ≡ true
processed_recorded p e is_duplicate db h = h
processed_recorded p e (is_new row) db h =
    recorded-finish (was_thrown (process_event e row db).1) p e.event_id row e.event_id
      (process_event e row db).0
    ∙ process_event-recorded p e.event_id e row db
    ∙ h

then_recorded :
    (p : Provider) (e : Event) (r : Outcome Stored) (db : Db)
    → recorded p e.event_id db.events ≡ true
    → recorded p e.event_id ((then_do (process_stored e) db r).0).events ≡ true
then_recorded p e (value s) db h = processed_recorded p e s db h
then_recorded p e (returned s) db h = h
then_recorded p e (thrown s) db h = h

-- A delivered event is recorded, however its processing ends.
pub receive_event-recorded :
    (p : Provider) (e : Event) (db : Db)
    → recorded p e.event_id ((receive_event p e db).0).events ≡ true
unfolding receive_event
receive_event-recorded p e db =
    then_recorded p e (store_event p e db).1 (store_event p e db).0 (stored_first p e db)

-- An event that is recorded already is answered as a duplicate, and nothing is written.
pub recorded_again :
    (p : Provider) (e : Event) (db : Db)
    → recorded p e.event_id db.events ≡ true
    → receive_event p e db ≡ (db, value (accepted e.event_id true))
unfolding receive_event store_event
recorded_again p e db h = elim (Option-cases (find (same_event p e.event_id) db.events)) [
  | inl n ↦ cc
  | inr (r, s) ↦ rw s refl
]

-- Webhook events take effect once: whatever the first delivery of an event did, even if its
-- processing failed, a second delivery with the same provider and event id changes no table and is
-- accepted as a duplicate.
pub webhook_again :
    (p : Provider) (e : Event) (db : Db)
    → receive_event p e (receive_event p e db).0
      ≡ ((receive_event p e db).0, value (accepted e.event_id true))
webhook_again p e db = recorded_again p e (receive_event p e db).0 (receive_event-recorded p e db)
