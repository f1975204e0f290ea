-- ===== src/Payments/Gateway.antt =====
-- What the server asks of a payment provider: the methods of
-- server/src/services/payments/providerInterface.js, and the lookup of providers in
-- services/payments/index.js. The answers are those of a service outside the repository, so a
-- `Gateway` is a parameter of the handlers.
use terravoy_backend.Prelude.{ℕ, Bool, Option, none, some}
use terravoy_backend.Store.Rows.{Provider, mock, other_provider, TxnStatus, Event}
use terravoy_backend.Certs.State.{CertSettings}
use terravoy_backend.Store.Db.{M, exception, pure, throw}

-- The result of a call, or an exception.
pub data Answer (A : Type 0) : Type 0 where
  answered : A → Answer A
  raised : Answer A

pub record IntentCreated : Type 0 where
  pub provider_intent_id : Option ℕ
  pub client_secret : Option ℕ
  pub status : TxnStatus

pub record IntentConfirmed : Type 0 where
  pub status : TxnStatus
  pub provider_txn_id : Option ℕ
  pub error_code : Option ℕ
  pub error_message : Option ℕ
  pub action_data : Option ℕ

pub record RefundAnswer : Type 0 where
  pub status : TxnStatus
  pub provider_refund_id : Option ℕ
  pub error_code : Option ℕ
  pub error_message : Option ℕ

-- `{ valid, normalizedEvent, error }`; the event may lack its `eventId`.
pub data Verification : Type 0 where
  invalid no_event_id : Verification
  verified : Event → Verification

-- The body of a webhook request is opaque: only the provider reads it.
pub record Gateway : Type 0 where
  pub create_intent : Provider → (amount currency : ℕ) → Option ℕ → Answer IntentCreated
  pub confirm_intent : Provider → (provider_intent_id simulate : Option ℕ) → Answer IntentConfirmed
  pub refund : Provider → (provider_txn_id : Option ℕ) → (amount : ℕ) → Answer RefundAnswer
  pub parse_webhook : Provider → (payload : ℕ) → (signature : Option ℕ) → Answer Verification

abbrev pub from_answer : {A : Type 0} → Answer A → M A
from_answer (answered a) = pure a
from_answer raised = throw exception

-- `providers[name]`
abbrev pub get_provider : Provider → Option Provider
get_provider other_provider = none
get_provider p = some p

-- `providers[name] || providers.mock` for the configured name.
abbrev pub get_active_provider : Provider → Provider
get_active_provider other_provider = mock
get_active_provider p = p

-- The settings of server/src/config.js: `PAYMENT_PROVIDER` and `PAYMENTS_WEBHOOK_ONLY`, and those
-- of the certifications.
pub record Settings : Type 0 where
  pub provider : Provider
  pub webhook_only : Bool
  pub certs : CertSettings
