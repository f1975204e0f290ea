-- ===== src/Payments/MockSettles.antt =====
-- A payment at the mock provider up to its order: mockProvider.js with eventProcessor.js.
use mathlib.Core.Path.{subst}
use terravoy_backend.Prelude.{
  ℕ, ◌≡◌, ◌≢◌, true, Option, some, ◌∷◌, sym, ap, ◌∙◌, arith, ==_refl, find, if◌then◌else◌,
}
use terravoy_backend.Store.Rows.{Event, Intent, Order, succeeded, failed, mock}
use terravoy_backend.Store.Table.{by_key}
use terravoy_backend.Store.Db.{Db, value}
use terravoy_backend.Orders.View.{order_id}
use terravoy_backend.Payments.Event.{
  names_intent, sql_eq, intent_to_settle, handle_payment_succeeded,
}
use terravoy_backend.Payments.Process.{process_event, handler_of}
use terravoy_backend.Payments.Settled.{settled_order, succeeded_settles}
use terravoy_backend.Payments.Mock.{
  MockConfig, MockIntent, MockResult, MockState, mock_sig, pays, payment_timer, intent_key,
  confirm_intent, fire,
}
use terravoy_backend.Payments.MockRuns.{Reports, wanted, confirm_settles}

-- What an event of the mock provider that reports a payment of this intent does.
module _ (i : MockIntent) (e : Event) (reports : Reports pays i e) (w : ℕ) (db : Db) (row : Intent)
    (o : Order)
    (known : find
        (λ (r : Intent). sql_eq r.provider_intent_id (some i.provider_intent_id))
        db.intents
      ≡ some row)
    (booked : by_key order_id row.order_id db.orders ≡ some o) where
  finds_intent : intent_to_settle e db ≡ some (row, o)
  unfolding intent_to_settle
  finds_intent =
      let known' : find (names_intent e) db.intents ≡ some row =
        ap (λ p. find (λ (r : Intent). sql_eq r.provider_intent_id p) db.intents) reports.intent
        ∙ known in
      ground (arith, known')

  by_type : process_event e w db ≡ handle_payment_succeeded e w db
  unfolding process_event
  by_type = ap (λ t. handler_of t e w db) reports.type

  processed :
      ((process_event e w db).1 ≡ value tt)
      × (by_key order_id o.id ((process_event e w db).0).orders
          ≡ some (settled_order e row db.now o))
  processed =
      let (v, ints, os) =
        succeeded_settles e w db row o i.amount i.currency finds_intent reports.amount
          reports.currency o.id in
      rw by_type (
        v,
        os
            ∙ ap
                (λ b.
                  if b then some (settled_order e row db.now o) else by_key order_id o.id db.orders)
                (==_refl o.id),
      )

-- An intent of the mock provider that is neither succeeded nor failed is confirmed with webhooks on,
-- where a payment is wanted. When its timer goes off right after that, one signed webhook is sent;
-- and when its event is processed by a server that knows the provider's intent and its order, that
-- ends without an exception and leaves the order paid, by the mock provider and that intent, and no
-- longer waiting for its payment.
pub mock_pays_order :
    (c : MockConfig) (id : ℕ) (sim : Option MockResult) (s : MockState) (i : MockIntent) (w : ℕ)
    (db : Db) (row : Intent) (o : Order)
    → c.auto_webhook ≡ true
    → c.has_callback ≡ true
    → by_key intent_key id s.intents ≡ some i
    → i.status ≢ succeeded
    → i.status ≢ failed
    → wanted c.default_result sim ≡ pays
    → find (λ (r : Intent). sql_eq r.provider_intent_id (some i.provider_intent_id)) db.intents
      ≡ some row
    → by_key order_id row.order_id db.orders ≡ some o
    → (e : Event) × (n : ℕ) × ((fire c (payment_timer id pays) (confirm_intent c id sim s).0).fired
        ≡ (e, mock_sig n) ∷ s.fired)
      × (e.provider ≡ mock)
      × ((process_event e w db).1 ≡ value tt)
      × (by_key order_id o.id ((process_event e w db).0).orders
          ≡ some (settled_order e row db.now o))
mock_pays_order c id sim s i w db row o auto callback found a b pay known booked =
    let (t, st, (e, n, sent, reports)) = confirm_settles c id sim s i auto callback found a b in
    let reports' : Reports pays i e = subst (λ r. Reports r i e) pay reports in
    let sent' =
      ap (λ r. (fire c (payment_timer id r) (confirm_intent c id sim s).0).fired) (sym pay)
      ∙ sent in
    let (v, os) = processed i e reports' w db row o known booked in
    (e, n, sent', reports.provider, v, os)
