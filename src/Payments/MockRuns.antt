-- ===== src/Payments/MockRuns.antt =====
-- What the confirmation of a payment at the mock provider leads to.
use mathlib.Core.Option
use terravoy_backend.Prelude.{
  ℕ, ◌≡◌, ◌+◌, true, false, Bool, ◌==◌, Option, none, some, List, ◌∷◌, ◌++◌, if◌then◌else◌, [],
  refl, ap, ◌∙◌, ==_iff, find-holds, arith, ◌≢◌, Bool-cases, inl, inr,
}
use terravoy_backend.Store.Rows.{
  Event, TxnStatus, requires_action, processing, succeeded, failed, mock, EventType,
  payment_succeeded, payment_failed, payment_requires_action,
}
use terravoy_backend.Store.Table.{by_key, update, by_key-update}
use terravoy_backend.Payments.Gateway.{IntentConfirmed}
use terravoy_backend.Payments.Mock.{
  MockConfig, MockIntent, MockResult, pays, declines, asks_action, MockState, mock_sig,
  payment_timer, intent_key, confirm_found, confirm_intent, fire_payment, with_intent, fire,
  is_settled, result_of, schedule, confirmed_as, settled_by, event_type, payment_event, txn_of,
}

-- The result that a confirmation asks for: the simulated one if it is a failure or a further action
-- of the traveler, and otherwise the configured one.
abbrev pub wanted : (configured : MockResult) → Option MockResult → MockResult
wanted configured none = configured
wanted configured (some pays) = configured
wanted configured (some declines) = declines
wanted configured (some asks_action) = asks_action

-- What the webhook reports of a result, and the status of the intent then.
abbrev pub reported : MockResult → EventType
reported pays = payment_succeeded
reported declines = payment_failed
reported asks_action = payment_requires_action

abbrev pub final_status : MockResult → TxnStatus
final_status pays = succeeded
final_status declines = failed
final_status asks_action = requires_action

wanted_agrees :
    (c : MockConfig) (sim : Option MockResult) → result_of c sim ≡ wanted c.default_result sim
wanted_agrees c none = refl
wanted_agrees c (some pays) = refl
wanted_agrees c (some declines) = refl
wanted_agrees c (some asks_action) = refl

-- The event is about this intent, with this result, and in full.
pub record Reports (result : MockResult) (i : MockIntent) (e : Event) : Type 0 where
  pub type : e.type ≡ reported result
  pub provider : e.provider ≡ mock
  pub intent : e.payload.provider_intent_id ≡ some i.provider_intent_id
  pub amount : e.payload.amount ≡ some i.amount
  pub currency : e.payload.currency ≡ some i.currency

status_settled :
    (r : MockResult) (n : ℕ) (i : MockIntent) → (settled_by r n i).status ≡ final_status r
status_settled pays n i = refl
status_settled declines n i = refl
status_settled asks_action n i = refl

settled_by-key :
    (r : MockResult) (n : ℕ) (i : MockIntent)
    → (settled_by r n i).provider_intent_id ≡ i.provider_intent_id
settled_by-key pays n i = refl
settled_by-key declines n i = refl
settled_by-key asks_action n i = refl

-- What an update under the key of a row that is found does to it.
update_found :
    (id : ℕ) (f : MockIntent → MockIntent) (rows : List MockIntent) (i : MockIntent)
    → ((j : MockIntent) → (f j).provider_intent_id ≡ j.provider_intent_id)
    → by_key intent_key id rows ≡ some i
    → by_key intent_key id (update intent_key i.provider_intent_id f rows) ≡ some (f i)
update_found id f rows i same e =
    let holds = find-holds (λ (j : MockIntent). j.provider_intent_id == id) rows i e in
    by_key-update intent_key i.provider_intent_id id f rows same
    ∙ (ap (λ b. if b then Option.map f (by_key intent_key id rows) else by_key intent_key id rows)
          holds
        ∙ ap (Option.map f) e)

open-unsettled : (st : TxnStatus) → st ≢ succeeded → st ≢ failed → is_settled st ≡ false
open-unsettled st a b = elim (Bool-cases (is_settled st)) [ inl t ↦ ground arith | inr t ↦ t ]

type_agrees : (r : MockResult) → event_type r ≡ reported r
type_agrees pays = refl
type_agrees declines = refl
type_agrees asks_action = refl

payment_event-Reports :
    (r : MockResult) (n : ℕ) (txn : Option ℕ) (i : MockIntent)
    → Reports r i (payment_event n r txn i)
payment_event-Reports r n txn i = record {
  type = type_agrees r;
  provider = refl;
  intent = refl;
  amount = refl;
  currency = refl;
}

module _ (c : MockConfig) (id : ℕ) (sim : Option MockResult) (s : MockState) (i : MockIntent) where
  in_process : MockIntent → MockIntent
  in_process j = record j { status = processing }

  started : MockResult → MockState
  started r = record s {
    intents = update intent_key i.provider_intent_id in_process s.intents;
    timers = schedule c (payment_timer i.provider_intent_id r) s.timers;
  }

  confirm-started :
      by_key intent_key id s.intents ≡ some i
      → is_settled i.status ≡ false
      → (confirm_intent c id sim s).0 ≡ started (wanted c.default_result sim)
  unfolding confirm_intent started in_process
  confirm-started found unsettled =
      ap (λ o. (confirm_found c sim o s).0) found
      ∙ (ap (λ b. (choose b).0) unsettled ∙ ap started (wanted_agrees c sim))
    where
      choose : Bool → MockState × IntentConfirmed
      choose b =
          if b
          then (s, confirmed_as i.status i.provider_txn_id none)
          else (started (result_of c sim), confirmed_as processing none none)

  scheduled :
      (r : MockResult)
      → c.auto_webhook ≡ true
      → c.has_callback ≡ true
      → by_key intent_key id s.intents ≡ some i
      → (started r).timers ≡ s.timers ++ payment_timer id r ∷ []
  unfolding started
  scheduled r auto callback found = ground (
    arith,
    ==_iff i.provider_intent_id id,
    find-holds (λ (j : MockIntent). j.provider_intent_id == id) s.intents i found,
  )

  settles_started :
      (r : MockResult)
      → by_key intent_key id s.intents ≡ some i
      → (j : MockIntent) × (by_key intent_key id (fire c (payment_timer id r) (started r)).intents
          ≡ some j)
        × (j.status ≡ final_status r)
  unfolding fire with_intent fire_payment started in_process
  settles_started r found =
      let found' = update_found id in_process s.intents i (λ j. refl) found in
      let j = in_process i in
      (
        settled_by r s.next_id j,
        ap (λ o. by_key intent_key id (with_intent c r o (started r)).intents) found'
            ∙ update_found id (settled_by r s.next_id) (started r).intents j
                (settled_by-key r s.next_id) found',
        status_settled r s.next_id j,
      )

  Reports-started :
      (r : MockResult)
      → c.has_callback ≡ true
      → by_key intent_key id s.intents ≡ some i
      → (e : Event) × (n : ℕ) × ((fire c (payment_timer id r) (started r)).fired
          ≡ (e, mock_sig n) ∷ s.fired)
        × Reports r i e
  unfolding fire with_intent fire_payment started in_process
  Reports-started r callback found =
      let found' = update_found id in_process s.intents i (λ j. refl) found in
      let e = payment_event (s.next_id + 1) r (txn_of r s.next_id) (in_process i) in
      (
        e,
        s.next_id + 1,
        ap (λ o. (with_intent c r o (started r)).fired) found'
            ∙ ap (λ b. if b then (e, mock_sig (s.next_id + 1)) ∷ s.fired else s.fired) callback,
        payment_event-Reports r (s.next_id + 1) (txn_of r s.next_id) i,
      )

  -- With webhooks on, an intent that is neither succeeded nor failed is confirmed: one timer is
  -- added, with the result that is wanted. When it goes off right after the confirmation, the
  -- intent gets the status of that result, and one signed webhook is sent, an event of the mock
  -- provider that reports that result with the intent's id, amount and currency.
  pub confirm_settles :
      c.auto_webhook ≡ true
      → c.has_callback ≡ true
      → by_key intent_key id s.intents ≡ some i
      → i.status ≢ succeeded
      → i.status ≢ failed
      → ((confirm_intent c id sim s).0.timers
          ≡ s.timers ++ payment_timer id (wanted c.default_result sim) ∷ [])
        × ((j : MockIntent) × (by_key intent_key id
                (fire c
                  (payment_timer id (wanted c.default_result sim))
                  (confirm_intent c id sim s).0).intents
              ≡ some j)
            × (j.status ≡ final_status (wanted c.default_result sim)))
        × ((e : Event) × (n : ℕ) × ((fire c
                (payment_timer id (wanted c.default_result sim))
                (confirm_intent c id sim s).0).fired
              ≡ (e, mock_sig n) ∷ s.fired)
            × Reports (wanted c.default_result sim) i e)
  confirm_settles auto callback found a b =
      let r = wanted c.default_result sim in
      rw (confirm-started found (open-unsettled i.status a b))
        (scheduled r auto callback found, settles_started r found, Reports-started r callback found)
