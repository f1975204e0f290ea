-- ===== src/Payments/Mock.antt =====
-- services/payments/mockProvider.js: the provider for development, with its intents and refunds in
-- memory and the timers that fire its webhooks. `randomId` is a counter, since its ids do not
-- repeat; the shape of an id, the method of payment, the metadata and the time stamps are left out.
use terravoy_backend.Prelude.{
  ℕ, ◌+◌, Bool, true, false, ◌&&◌, Option, none, some, List, [], ◌∷◌, ◌++◌, if◌then◌else◌,
}
use terravoy_backend.Store.Rows.{
  TxnStatus, requires_confirmation, requires_action, processing, succeeded, failed, Event,
  EventType, given, mock, payment_succeeded, payment_failed, payment_requires_action,
  refund_succeeded,
}
use terravoy_backend.Store.Table.{by_key, update}
use terravoy_backend.Payments.Gateway.{
  IntentCreated, IntentConfirmed, RefundAnswer, Verification, invalid, verified,
}

-- How a payment ends: by `simulate`, or by the setting `defaultResult`.
pub data MockResult : Type 0 where
  pays declines asks_action : MockResult

abbrev pub result_status : MockResult → TxnStatus
result_status pays = succeeded
result_status declines = failed
result_status asks_action = requires_action

pub record MockConfig : Type 0 where
  pub auto_webhook : Bool
  pub has_callback : Bool
  pub default_result : MockResult

pub record MockIntent : Type 0 where
  pub provider_intent_id : ℕ
  pub client_secret : ℕ
  pub amount : ℕ
  pub currency : ℕ
  pub status : TxnStatus
  pub provider_txn_id : Option ℕ

pub record MockRefund : Type 0 where
  pub provider_refund_id : ℕ
  pub provider_txn_id : Option ℕ
  pub amount : ℕ
  pub currency : ℕ
  pub status : TxnStatus

pub data Timer : Type 0 where
  payment_timer : (intent : ℕ) → MockResult → Timer
  refund_timer : (refund : ℕ) → Timer

-- The header of a webhook: none, one that starts with 'mock_sig_', or another text.
pub data Signature : Type 0 where
  no_signature : Signature
  mock_sig other_sig : ℕ → Signature

-- `fired` are the calls of `onWebhook`, the last one first; `timers` the pending timers in their
-- order.
pub record MockState : Type 0 where
  pub intents : List MockIntent
  pub refunds : List MockRefund
  pub timers : List Timer
  pub fired : List (Event × Signature)
  pub next_id : ℕ

abbrev pub intent_key : MockIntent → ℕ
intent_key i = i.provider_intent_id

abbrev pub refund_key : MockRefund → ℕ
refund_key r = r.provider_refund_id

unfoldable pub create_intent : (amount currency : ℕ) → MockState → MockState × IntentCreated
create_intent amount currency s = (
  record s {
    intents =
        record {
          provider_intent_id = s.next_id;
          client_secret = s.next_id + 1;
          amount = amount;
          currency = currency;
          status = requires_confirmation;
          provider_txn_id = none;
        }
        ∷ s.intents;
    next_id = s.next_id + 2;
  },
  record {
    provider_intent_id = some s.next_id;
    client_secret = some (s.next_id + 1);
    status = requires_confirmation;
  },
)

-- The texts 'INTENT_NOT_FOUND' and 'MOCK_DECLINED', and the messages beside them.
abbrev pub intent_not_found : ℕ
intent_not_found = 1

abbrev pub mock_declined : ℕ
mock_declined = 2

abbrev pub confirmed_as : TxnStatus → Option ℕ → Option ℕ → IntentConfirmed
confirmed_as status txn code = record {
  status = status;
  provider_txn_id = txn;
  error_code = code;
  error_message = code;
  action_data = none;
}

-- `simulate` is 'failed', 'requires_action' or anything else.
abbrev pub result_of : MockConfig → Option MockResult → MockResult
result_of c (some declines) = declines
result_of c (some asks_action) = asks_action
result_of c _ = c.default_result

abbrev pub is_settled : TxnStatus → Bool
is_settled succeeded = true
is_settled failed = true
is_settled _ = false

abbrev pub schedule : MockConfig → Timer → List Timer → List Timer
schedule c t ts = if c.auto_webhook && c.has_callback then ts ++ t ∷ [] else ts

abbrev pub confirm_found :
    MockConfig → Option MockResult → Option MockIntent → MockState → MockState × IntentConfirmed
confirm_found c simulate none s = (s, confirmed_as failed none (some intent_not_found))
confirm_found c simulate (some i) s =
    let started = record s {
      intents =
          update intent_key i.provider_intent_id
            (λ (j : MockIntent). record j { status = processing }) s.intents;
      timers = schedule c (payment_timer i.provider_intent_id (result_of c simulate)) s.timers;
    } in
    if is_settled i.status
    then (s, confirmed_as i.status i.provider_txn_id none)
    else (started, confirmed_as processing none none)

unfoldable pub confirm_intent :
    MockConfig → (intent : ℕ) → Option MockResult → MockState → MockState × IntentConfirmed
confirm_intent c id simulate s = confirm_found c simulate (by_key intent_key id s.intents) s

unfoldable pub request_refund :
    MockConfig → Option ℕ → (amount currency : ℕ) → MockState → MockState × RefundAnswer
request_refund c txn amount currency s = (
  record s {
    refunds =
        record {
          provider_refund_id = s.next_id;
          provider_txn_id = txn;
          amount = amount;
          currency = currency;
          status = processing;
        }
        ∷ s.refunds;
    timers = schedule c (refund_timer s.next_id) s.timers;
    next_id = s.next_id + 1;
  },
  record {
    status = processing;
    provider_refund_id = some s.next_id;
    error_code = none;
    error_message = none;
  },
)

-- `payload` is the event that the body parses to, `none` if it is no JSON.
unfoldable pub verify_webhook : Option Event → Signature → Verification
verify_webhook (some e) (mock_sig n) = verified e
verify_webhook _ _ = invalid

-- `none` is 'not_found'.
unfoldable pub query_status : (intent : ℕ) → MockState → Option (TxnStatus × Option ℕ)
query_status id s = elim (by_key intent_key id s.intents) [
  | none ↦ none
  | some i ↦ some (i.status, i.provider_txn_id)
]

abbrev pub event_type : MockResult → EventType
event_type pays = payment_succeeded
event_type declines = payment_failed
event_type asks_action = payment_requires_action

abbrev pub error_of : MockResult → Option ℕ
error_of declines = some mock_declined
error_of _ = none

-- The transaction of a payment that succeeds has the next id.
abbrev pub txn_of : MockResult → ℕ → Option ℕ
txn_of pays n = some n
txn_of _ n = none

-- Only a payment that succeeds writes `intent.providerTxnId`.
abbrev pub settled_by : MockResult → ℕ → MockIntent → MockIntent
settled_by pays n i = record i { status = succeeded; provider_txn_id = some n }
settled_by declines n i = record i { status = failed }
settled_by asks_action n i = record i { status = requires_action }

abbrev pub payment_event : (event_id : ℕ) → MockResult → Option ℕ → MockIntent → Event
payment_event id result txn i = record {
  event_id = given id;
  type = event_type result;
  provider = mock;
  payload = record {
    provider_intent_id = some i.provider_intent_id;
    provider_txn_id = txn;
    provider_refund_id = none;
    amount = some i.amount;
    currency = some i.currency;
    error_code = error_of result;
    error_message = error_of result;
  };
}

abbrev pub call_back : MockConfig → Event → ℕ → List (Event × Signature) → List (Event × Signature)
call_back c e id fired = if c.has_callback then (e, mock_sig id) ∷ fired else fired

-- `_firePaymentWebhook`: `next_id` is the transaction, the id after it the event.
unfoldable pub fire_payment : MockConfig → MockResult → MockIntent → MockState → MockState
fire_payment c result i s = record s {
  intents = update intent_key i.provider_intent_id (settled_by result s.next_id) s.intents;
  fired =
      call_back c (payment_event (s.next_id + 1) result (txn_of result s.next_id) i) (s.next_id + 1)
        s.fired;
  next_id = s.next_id + 2;
}

abbrev pub refund_event : (event_id : ℕ) → MockRefund → Event
refund_event id r = record {
  event_id = given id;
  type = refund_succeeded;
  provider = mock;
  payload = record {
    provider_intent_id = none;
    provider_txn_id = r.provider_txn_id;
    provider_refund_id = some r.provider_refund_id;
    amount = some r.amount;
    currency = some r.currency;
    error_code = none;
    error_message = none;
  };
}

-- `_fireRefundWebhook`, which the timers call with the result 'succeeded' only.
unfoldable pub fire_refund : MockConfig → MockRefund → MockState → MockState
fire_refund c r s = record s {
  refunds =
      update refund_key r.provider_refund_id (λ (q : MockRefund). record q { status = succeeded })
        s.refunds;
  fired = call_back c (refund_event s.next_id r) s.next_id s.fired;
  next_id = s.next_id + 1;
}

unfoldable pub with_intent : MockConfig → MockResult → Option MockIntent → MockState → MockState
unfolding fire_payment
with_intent c result none s = s
with_intent c result (some i) s = fire_payment c result i s

unfoldable pub with_refund : MockConfig → Option MockRefund → MockState → MockState
unfolding fire_refund
with_refund c none s = s
with_refund c (some r) s = fire_refund c r s

-- One timer goes off.
unfoldable pub fire : MockConfig → Timer → MockState → MockState
unfolding with_intent with_refund
fire c (payment_timer id result) s = with_intent c result (by_key intent_key id s.intents) s
fire c (refund_timer id) s = with_refund c (by_key refund_key id s.refunds) s

unfoldable pub trigger_manual_webhook :
    MockConfig → (intent : ℕ) → MockResult → MockState → MockState
unfolding with_intent
trigger_manual_webhook c id result s =
    let fired = with_intent c result (by_key intent_key id s.intents) s in
    if c.has_callback then fired else s
