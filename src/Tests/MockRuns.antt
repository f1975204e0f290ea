-- ===== src/Tests/MockRuns.antt =====
-- One payment by the mock provider.
use terravoy_backend.Prelude.{ℕ, ◌≡◌, ◌≢◌, true, none, some, [], ◌∷◌, ◌++◌, refl}
use terravoy_backend.Store.Rows.{Event, mock, requires_confirmation, succeeded, failed}
use terravoy_backend.Store.Table.{by_key}
use terravoy_backend.Store.Db.{value}
use terravoy_backend.Orders.View.{order_id}
use terravoy_backend.Payments.Process.{process_event}
use terravoy_backend.Payments.Settled.{settled_order}
use terravoy_backend.Payments.Mock.{
  MockConfig, MockIntent, MockState, mock_sig, pays, declines, payment_timer, confirm_intent, fire,
  intent_key,
}
use terravoy_backend.Payments.MockRuns.{Reports, wanted, final_status, confirm_settles}
use terravoy_backend.Payments.MockSettles.{mock_pays_order}
use terravoy_backend.Tests.Samples.{awaiting_payment, new_booking, open_intent_row}

abbrev webhooks_on : MockConfig
webhooks_on = record { auto_webhook = true; has_callback = true; default_result = pays }

abbrev open_intent : MockIntent
open_intent = record {
  provider_intent_id = 40;
  client_secret = 41;
  amount = 10000;
  currency = 156;
  status = requires_confirmation;
  provider_txn_id = none;
}

abbrev one_open : MockState
one_open = record {
  intents = open_intent ∷ [];
  refunds = [];
  timers = [];
  fired = [];
  next_id = 42;
}

not_succeeded : open_intent.status ≢ succeeded
not_succeeded e = cc

not_failed : open_intent.status ≢ failed
not_failed e = cc

confirm_settles_example :
    ((confirm_intent webhooks_on 40 (some declines) one_open).0.timers
      ≡ one_open.timers ++ payment_timer 40 (wanted pays (some declines)) ∷ [])
    × ((j : MockIntent) × (by_key intent_key 40
            (fire webhooks_on
              (payment_timer 40 (wanted pays (some declines)))
              (confirm_intent webhooks_on 40 (some declines) one_open).0).intents
          ≡ some j)
        × (j.status ≡ final_status (wanted pays (some declines))))
    × ((e : Event) × (n : ℕ) × ((fire webhooks_on
            (payment_timer 40 (wanted pays (some declines)))
            (confirm_intent webhooks_on 40 (some declines) one_open).0).fired
          ≡ (e, mock_sig n) ∷ one_open.fired)
        × Reports (wanted pays (some declines)) open_intent e)
confirm_settles_example =
    confirm_settles webhooks_on 40 (some declines) one_open open_intent refl refl refl not_succeeded
      not_failed

mock_pays_order_example :
    (e : Event) × (n : ℕ) × ((fire webhooks_on
        (payment_timer 40 pays)
        (confirm_intent webhooks_on 40 none one_open).0).fired
      ≡ (e, mock_sig n) ∷ [])
    × (e.provider ≡ mock)
    × ((process_event e 1 awaiting_payment).1 ≡ value tt)
    × (by_key order_id 1 ((process_event e 1 awaiting_payment).0).orders
        ≡ some (settled_order e open_intent_row 10 new_booking))
mock_pays_order_example =
    mock_pays_order webhooks_on 40 none one_open open_intent 1 awaiting_payment open_intent_row
      new_booking refl refl refl not_succeeded not_failed refl refl refl
