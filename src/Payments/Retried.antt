-- ===== src/Payments/Retried.antt =====
-- One event of a replay of failed webhooks, `retryFailedEvents` of webhookHandler.js.
use terravoy_backend.Prelude.{
  ℕ, ◌≡◌, ◌+◌, ◌⊎◌, inl, inr, refl, false, Bool-cases, ◌==◌, List, some, arith, ==_refl,
}
use terravoy_backend.Store.Rows.{WebhookRow, event_processed}
use terravoy_backend.Store.Table.{by_key, update, by_key-update}
use terravoy_backend.Store.Db.{Db, Error, thrown, value}
use terravoy_backend.Payments.Event.{event_row_id}
use terravoy_backend.Payments.Process.{process_event}
use terravoy_backend.Payments.Webhook.{retry_event, event_of, was_thrown}
use terravoy_backend.Payments.Recorded.{LinksOnly, process_event-LinksOnly}
use terravoy_backend.Payments.Atomic.{process_event_atomic, Outcome-cases}

-- An update that keeps the id keeps the row in the table.
still_there :
    (id w : ℕ) (f : WebhookRow → WebhookRow) (rows : List WebhookRow) (r : WebhookRow)
    → ((x : WebhookRow) → (f x).id ≡ x.id)
    → by_key event_row_id id rows ≡ some r
    → (r' : WebhookRow) × (by_key event_row_id id (update event_row_id w f rows) ≡ some r')
still_there id w f rows r same found = elim (Bool-cases (w == id)) [
  | inl t ↦ (f r, ground (arith, by_key-update event_row_id w id f rows same))
  | inr t ↦ (r, ground (arith, by_key-update event_row_id w id f rows same))
]

linked_there :
    (id w : ℕ) (db db' : Db) (r : WebhookRow)
    → LinksOnly w db db'
    → by_key event_row_id id db.events ≡ some r
    → (r' : WebhookRow) × (by_key event_row_id id db'.events ≡ some r')
linked_there id w db db' r (inl e) found = (r, rw e found)
linked_there id w db db' r (inr (f, a, b, c, e)) found =
    rw e (still_there id w f db.events r c found)

-- The row under an id is marked as processed.
marked_there :
    (id : ℕ) (rows : List WebhookRow) (r : WebhookRow)
    → by_key event_row_id id rows ≡ some r
    → by_key event_row_id id
        (update event_row_id id (λ (x : WebhookRow). record x { status = event_processed }) rows)
      ≡ some (record r { status = event_processed })
marked_there id rows r found = ground (
  arith,
  ==_refl id,
  by_key-update event_row_id id id (λ (x : WebhookRow). record x { status = event_processed }) rows
      (λ x. refl),
)

-- A retry of an event whose row is in the table either meets an exception in the processing of the
-- event, and then the count of retries in its row is the only thing in the whole database that
-- changes, and one more failed event is counted; or it does to the database what the processing
-- does, but that the row under its id, which is there, is marked as processed, and one more processed
-- event is counted.
pub retry_one :
    (r : WebhookRow) (done refused : ℕ) (db : Db)
    → by_key event_row_id r.id db.events ≡ some r
    → ((err : Error) × ((process_event (event_of r) r.id db).1 ≡ thrown err)
        × (retry_event r (done, refused) db ≡ (
          record db {
            events =
                update event_row_id r.id
                  (λ (x : WebhookRow). record x { retry_count = x.retry_count + 1 })
                  db.events;
          },
          value (done, refused + 1),
        )))
      ⊎ ((was_thrown (process_event (event_of r) r.id db).1 ≡ false)
          × (retry_event r (done, refused) db ≡ (
            record (process_event (event_of r) r.id db).0 {
              events =
                  update event_row_id r.id
                    (λ (x : WebhookRow). record x { status = event_processed })
                    ((process_event (event_of r) r.id db).0).events;
            },
            value (done + 1, refused),
          ))
          × ((x : WebhookRow) × (by_key event_row_id r.id
                  ((retry_event r (done, refused) db).0).events
                ≡ some x)
              × (x.status ≡ event_processed)))
unfolding retry_event
retry_one r done refused db found = elim (Outcome-cases (process_event (event_of r) r.id db).1) [
  | inl (err, t) ↦ inl (err, t, ground (arith, t, process_event_atomic (event_of r) r.id db err t))
  | inr n ↦
      let after = (process_event (event_of r) r.id db).0 in
      let (x, there) =
        linked_there r.id r.id db after r (process_event-LinksOnly (event_of r) r.id db) found in
      let marked = marked_there r.id after.events x there in
      inr (n, rw n refl, rw n (record x { status = event_processed }, marked, refl))
]
