-- ===== src/Store/Db.antt =====
-- The state that a handler acts on, and the handlers' monad.
-- A handler runs its queries one after another; each query commits at once, so what was written
-- before an exception stays written. `now` is the clock of both Date.now() and SQL's now().
use terravoy_backend.Prelude.{ℕ, Bool, true, false, Option, none, some, List, []}
use terravoy_backend.Store.Rows.{
  Order, StatusLog, ServiceLog, Review, Intent, Payment, Attempt, Refund, WebhookRow, TxnStatus,
  Party, EventId,
}
use terravoy_backend.Store.MatchRows.{
  Person, TripCard, MatchRequest, MatchSession, PreferencesRow, MatchState,
}
use terravoy_backend.Store.CertRows.{
  HostCert, CachedCert, CertAudit, AdminAudit, Asset, HostExperience, CertState,
}

pub record Db : Type 0 where
  pub now : ℕ
  pub profiles : List ℕ
  pub certs : List HostCert
  pub host_cache : List CachedCert
  pub cert_audits : List CertAudit
  pub admin_audits : List AdminAudit
  pub assets : List Asset
  pub experiences : List HostExperience
  pub orders : List Order
  pub order_logs : List StatusLog
  pub service_logs : List ServiceLog
  pub reviews : List Review
  pub intents : List Intent
  pub payments : List Payment
  pub attempts : List Attempt
  pub refunds : List Refund
  pub events : List WebhookRow
  pub next_order : ℕ
  pub next_intent : ℕ
  pub next_payment : ℕ
  pub next_refund : ℕ
  pub next_event : ℕ
  pub next_cert : ℕ
  pub people : List Person
  pub trip_cards : List TripCard
  pub preferences : List PreferencesRow
  pub match_requests : List MatchRequest
  pub match_sessions : List MatchSession
  pub next_request : ℕ
  pub next_session : ℕ

abbrev pub empty_db : Db
empty_db = record {
  now = 0;
  profiles = [];
  certs = [];
  host_cache = [];
  cert_audits = [];
  admin_audits = [];
  assets = [];
  experiences = [];
  orders = [];
  order_logs = [];
  service_logs = [];
  reviews = [];
  intents = [];
  payments = [];
  attempts = [];
  refunds = [];
  events = [];
  next_order = 1;
  next_intent = 1;
  next_payment = 1;
  next_refund = 1;
  next_event = 1;
  next_cert = 1;
  people = [];
  trip_cards = [];
  preferences = [];
  match_requests = [];
  match_sessions = [];
  next_request = 1;
  next_session = 1;
}

pub data ErrorCode : Type 0 where
  invalid_input not_found forbidden user_id_required unauthorized : ErrorCode
  invalid_status_transition invalid_status invalid_state payment_required : ErrorCode
  price_mismatch duplicate host_cert_required server_error webhook_error : ErrorCode
  missing_documents invalid_document invalid_request invalid_request_id : ErrorCode

-- What a handler throws: an error with a `statusCode`, or any other exception.
pub data Error : Type 0 where
  http_error : ErrorCode → ℕ → Error
  exception : Error

-- One order with the columns that `fetchOrder` joins and `attachReviewStatus` adds.
pub record OrderView : Type 0 where
  pub order : Order
  pub refund_id : Option ℕ
  pub refund_status : Option TxnStatus
  pub refund_at : Option ℕ
  pub traveler_reviewed : Bool
  pub host_reviewed : Bool
  pub review_reveal_at : Option ℕ
  pub review_visible : Bool

-- The field `data` of a successful reply.
pub data Payload : Type 0 where
  order_row : Order → Payload
  order_view : OrderView → Payload
  order_list : List OrderView → Payload
  order_detail : OrderView → List ServiceLog → Option Review → Option Review → Payload
  review_saved : (order_id rating : ℕ) → Option ℕ → Party → Payload
  review_summary : (experience_id review_count rating_sum : ℕ) → Payload
  intent_data : (id : ℕ) → Option ℕ → TxnStatus → (amount currency : ℕ) → Option ℕ → Payload
  confirm_data : (intent_id : ℕ) → TxnStatus → (paid_at action_data : Option ℕ) → Payload
  refund_data : (refund_id : ℕ) → TxnStatus → Payload
  payment_rows : List Intent → List Attempt → List Payment → List Refund → Payload
  webhook_received : EventId → Payload
  cert_state : CertState → Payload
  match_state : MatchState → (request_id session_id peer_id thread_id : Option ℕ) → Payload
  match_session : Option MatchSession → Payload
  cert_row : HostCert → Payload
  cert_list : List HostCert → (limit cursor : ℕ) → (next_cursor : Option ℕ) → Payload
  cert_page : List HostCert → (page page_size total : ℕ) → Payload

pub data Reply : Type 0 where
  ok : Payload → ℕ → Reply
  error : ErrorCode → ℕ → Reply

-- `returned` is an early `return` of a reply.
pub data Outcome (A : Type 0) : Type 0 where
  value : A → Outcome A
  returned : Reply → Outcome A
  thrown : Error → Outcome A

abbrev pub M : Type 0 → Type 0
M A = Db → Db × Outcome A

abbrev pub then_do : {A B : Type 0} → (A → M B) → Db → Outcome A → Db × Outcome B
then_do f db (value a) = f a db
then_do f db (returned r) = (db, returned r)
then_do f db (thrown e) = (db, thrown e)

infixl 5 ◌>>=◌ ◌>>◌
abbrev pub ◌>>=◌ : {A B : Type 0} → M A → (A → M B) → M B
◌>>=◌ m f db = let (db', r) = m db in then_do f db' r

abbrev pub ◌>>◌ : {A B : Type 0} → M A → M B → M B
m >> k = m >>= λ _. k

module _ {A : Type 0} where
  abbrev pub pure : A → M A
  pure a db = (db, value a)

  abbrev pub reply : Reply → M A
  reply r db = (db, returned r)

  abbrev pub throw : Error → M A
  throw e db = (db, thrown e)

  abbrev pub gets : (Db → A) → M A
  gets f db = (db, value (f db))

  -- `if (!x) return error(…)`
  abbrev pub or_reply : Option A → Reply → M A
  or_reply none r = reply r
  or_reply (some a) r = pure a

abbrev pub reply_if : Bool → Reply → M (Unit {0})
reply_if true r = reply r
reply_if false r = pure tt

abbrev pub throw_if : Bool → Error → M (Unit {0})
throw_if true e = throw e
throw_if false e = pure tt

abbrev pub modify_db : (Db → Db) → M (Unit {0})
modify_db f db = (f db, value tt)

-- The `catch` of a route: an error with a status code is replied, any other is a 500.
abbrev pub to_reply : Outcome Reply → Reply
to_reply (value r) = r
to_reply (returned r) = r
to_reply (thrown (http_error code status)) = error code status
to_reply (thrown exception) = error server_error 500

-- A transaction: `ROLLBACK` restores what `BEGIN` found, and the exception goes on.
abbrev pub rollback : {A : Type 0} → Db → Outcome A → Db → Db × Outcome A
rollback before (thrown e) db = (before, thrown e)
rollback before (value a) db = (db, value a)
rollback before (returned r) db = (db, returned r)

abbrev pub transaction : {A : Type 0} → M A → M A
transaction m db = let (db', r) = m db in rollback db r db'
