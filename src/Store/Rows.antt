-- ===== src/Store/Rows.antt =====
-- The rows of db/migrations that the order and payment modules read and write.
-- Identifiers and opaque texts (uuids, provider references, keys, notes) are only stored and
-- compared, so they are numbers. Times are milliseconds, amounts are cents.
use terravoy_backend.Prelude.{ℕ, ◌≡◌, ◌↔◌, Bool, true, false, ◌&&◌, ◌==◌, Option, arith}

-- The type `order_status` of 0001_supabase_schema.sql, with the value that 0008_payments.sql adds.
pub data OrderStatus : Type 0 where
  pending_payment pending_host_confirm confirmed in_service completed : OrderStatus
  cancelled_refunded cancelled_by_traveler disputed : OrderStatus

-- Which value of the type it is, to compare two of them.
abbrev pub status_code : OrderStatus → ℕ
status_code pending_payment = 0
status_code pending_host_confirm = 1
status_code confirmed = 2
status_code in_service = 3
status_code completed = 4
status_code cancelled_refunded = 5
status_code cancelled_by_traveler = 6
status_code disputed = 7

pub data PaymentStatus : Type 0 where
  unpaid paid refunding refunded : PaymentStatus

-- The statuses that intents, payments, attempts and refunds take, and that providers report.
pub data TxnStatus : Type 0 where
  requested created requires_confirmation requires_action processing succeeded failed : TxnStatus

-- `actor_role` in the logs and `cancelled_by`, and the two sides of a review.
pub data Party : Type 0 where
  traveler_party host_party system_party : Party

-- The claim `role` of a token; `other_role` is any other text.
pub data Role : Type 0 where
  traveler host admin other_role : Role

pub data Provider : Type 0 where
  mock wechat alipay other_provider : Provider

pub data LogReason : Type 0 where
  payment_confirmed payment_webhook_confirmed payment_timeout auto_timeout : LogReason
  stated : ℕ → LogReason

-- What the client sends along with an order and the server only stores.
pub record OrderDetails : Type 0 where
  pub end_time : ℕ
  pub people_count : ℕ
  pub currency : ℕ
  pub traveler_note : Option ℕ
  pub experience_title : Option ℕ
  pub experience_cover : Option ℕ
  pub city : Option ℕ
  pub meeting_point : Option ℕ
  pub language_preference : Option ℕ
  pub time_slot_label : Option ℕ
  pub tags : Option ℕ
  pub traveler_name : Option ℕ
  pub traveler_avatar : Option ℕ
  pub host_name : Option ℕ
  pub host_avatar : Option ℕ
  pub contact_phone : Option ℕ
  pub channel : Option ℕ
  pub visible_to_traveler : Option Bool
  pub visible_to_host : Option Bool

pub record Order : Type 0 where
  pub id : ℕ
  pub order_no : ℕ
  pub traveler_id : ℕ
  pub host_id : ℕ
  pub experience_id : ℕ
  pub start_time : ℕ
  pub total_amount : ℕ
  pub details : OrderDetails
  pub status : OrderStatus
  pub payment_status : PaymentStatus
  pub created_at : ℕ
  pub paid_at : Option ℕ
  pub confirmed_at : Option ℕ
  pub started_at : Option ℕ
  pub completed_at : Option ℕ
  pub cancelled_at : Option ℕ
  pub cancelled_by : Option Party
  pub cancelled_reason : Option LogReason
  pub payment_intent_id : Option ℕ
  pub payment_provider : Option Provider
  pub last_payment_attempt_status : Option TxnStatus
  pub last_payment_attempt_at : Option ℕ
  pub refund_status : Option TxnStatus
  pub refund_amount : Option ℕ
  pub refund_at : Option ℕ

pub record StatusLog : Type 0 where
  pub order_id : ℕ
  pub from_status : Option OrderStatus
  pub to_status : OrderStatus
  pub actor_id : Option ℕ
  pub actor_role : Party
  pub reason : Option LogReason

pub data ServiceEvent : Type 0 where
  started ended : ServiceEvent

pub record ServiceLog : Type 0 where
  pub order_id : ℕ
  pub event_type : ServiceEvent
  pub actor_id : ℕ
  pub actor_role : Party

pub record Review : Type 0 where
  pub order_id : ℕ
  pub from_user_id : ℕ
  pub to_user_id : ℕ
  pub rating : ℕ
  pub comment : Option ℕ
  pub from_role : Option Party
  pub to_role : Option Party

pub record Intent : Type 0 where
  pub id : ℕ
  pub order_id : ℕ
  pub provider : Provider
  pub provider_intent_id : Option ℕ
  pub amount : ℕ
  pub currency : ℕ
  pub status : TxnStatus
  pub idempotency_key : Option ℕ
  pub client_secret : Option ℕ
  pub last_error : Option ℕ
  pub confirmed_at : Option ℕ
  pub updated_at : ℕ

pub record Payment : Type 0 where
  pub id : ℕ
  pub order_id : ℕ
  pub intent_id : Option ℕ
  pub provider : Provider
  pub provider_txn_id : Option ℕ
  pub status : TxnStatus
  pub amount : ℕ
  pub currency : ℕ

pub record Attempt : Type 0 where
  pub order_id : ℕ
  pub intent_id : ℕ
  pub provider : Provider
  pub status : TxnStatus
  pub amount : ℕ
  pub currency : ℕ
  pub idempotency_key : Option ℕ
  pub error_code : Option ℕ
  pub error_message : Option ℕ
  pub actor_id : Option ℕ
  pub actor_role : Option Role

pub record Refund : Type 0 where
  pub id : ℕ
  pub order_id : ℕ
  pub payment_id : Option ℕ
  pub intent_id : Option ℕ
  pub provider : Provider
  pub provider_refund_id : Option ℕ
  pub status : TxnStatus
  pub amount : ℕ
  pub currency : ℕ
  pub reason : Option ℕ
  pub idempotency_key : Option ℕ
  pub requested_by : ℕ
  pub requested_role : Role
  pub processed_at : Option ℕ
  pub last_error : Option ℕ

pub data EventType : Type 0 where
  payment_succeeded payment_failed payment_requires_action : EventType
  refund_succeeded refund_failed unknown_type : EventType

-- `given` is the provider's own id; the others are the ids that the server builds,
-- `sync_<intent>_<time>`, `sync_refund_<refund>_<time>` and `reconcile_payment_<payment>`.
pub data EventId : Type 0 where
  given : ℕ → EventId
  sync_payment sync_refund : ℕ → ℕ → EventId
  reconcile_payment : ℕ → EventId

pub record EventData : Type 0 where
  pub provider_intent_id : Option ℕ
  pub provider_txn_id : Option ℕ
  pub provider_refund_id : Option ℕ
  pub amount : Option ℕ
  pub currency : Option ℕ
  pub error_code : Option ℕ
  pub error_message : Option ℕ

-- A normalized webhook event; `eventId` may be missing.
pub record Event : Type 0 where
  pub event_id : EventId
  pub type : EventType
  pub provider : Provider
  pub payload : EventData

pub data EventStatus : Type 0 where
  event_received event_processed event_failed : EventStatus

pub record WebhookRow : Type 0 where
  pub id : ℕ
  pub provider : Provider
  pub event_id : EventId
  pub event_type : EventType
  pub payload : EventData
  pub status : EventStatus
  pub retry_count : ℕ
  pub order_id : Option ℕ
  pub intent_id : Option ℕ
  pub payment_id : Option ℕ
  pub refund_id : Option ℕ

-- The user id of a token: null or empty, only spaces, a text that is no uuid, or a uuid.
pub data UserId : Type 0 where
  missing blank : UserId
  malformed uuid : ℕ → UserId

abbrev pub provider_eq : Provider → Provider → Bool
provider_eq mock mock = true
provider_eq wechat wechat = true
provider_eq alipay alipay = true
provider_eq other_provider other_provider = true
provider_eq _ _ = false

abbrev pub event_id_eq : EventId → EventId → Bool
event_id_eq (given a) (given b) = a == b
event_id_eq (sync_payment a s) (sync_payment b t) = a == b && s == t
event_id_eq (sync_refund a s) (sync_refund b t) = a == b && s == t
event_id_eq (reconcile_payment a) (reconcile_payment b) = a == b
event_id_eq _ _ = false

abbrev pub user_eq : UserId → UserId → Bool
user_eq missing missing = true
user_eq blank blank = true
user_eq (malformed a) (malformed b) = a == b
user_eq (uuid a) (uuid b) = a == b
user_eq _ _ = false

pub user_eq_iff : (a b : UserId) → (user_eq a b ≡ true) ↔ (a ≡ b)
user_eq_iff missing b = ground arith
user_eq_iff blank b = ground arith
user_eq_iff (malformed a) b = ground arith
user_eq_iff (uuid a) b = ground arith

pub event_id_eq_iff : (a b : EventId) → (event_id_eq a b ≡ true) ↔ (a ≡ b)
event_id_eq_iff (given a) b = ground arith
event_id_eq_iff (sync_payment a s) b = ground arith
event_id_eq_iff (sync_refund a s) b = ground arith
event_id_eq_iff (reconcile_payment a) b = ground arith

pub provider_eq_iff : (a b : Provider) → (provider_eq a b ≡ true) ↔ (a ≡ b)
provider_eq_iff mock b = ground arith
provider_eq_iff wechat b = ground arith
provider_eq_iff alipay b = ground arith
provider_eq_iff other_provider b = ground arith
