-- ===== src/Tests/Samples.antt =====
-- Test data: a traveler (1), a host (2), one booking (7 for 100.00) and its payment by the mock
-- provider.
use terravoy_backend.Prelude.{true, false, none, some, List, [], ◌∷◌}
use terravoy_backend.Store.Rows.{
  OrderDetails, Order, Event, EventData, WebhookRow, Intent, given, payment_succeeded, mock,
  pending_payment, pending_host_confirm, completed, unpaid, paid, processing, event_failed, uuid,
  missing, traveler, host, requires_confirmation,
}
use terravoy_backend.Store.CertRows.{
  cert_approved, cert_draft, HostCert, Asset, kyc_scope, asset_active,
}
use terravoy_backend.Certs.Documents.{
  RawDocument, no_text, text, bytes, no_size, license, document_name,
}
use terravoy_backend.Certs.State.{empty_profile, CertSettings, access_token}
use terravoy_backend.Certs.Draft.{DraftBody}
use terravoy_backend.Certs.Review.{Reviewer, approve}
use terravoy_backend.Certs.Serve.{CertRequest, save_draft, submit, review_cert}
use terravoy_backend.Store.Db.{Db, empty_db}
use terravoy_backend.Auth.Authorize.{Actor}
use terravoy_backend.Orders.Create.{CreateBody, first_log}
use terravoy_backend.Orders.Serve.{create, mark_paid, accept, start, end, review}
use terravoy_backend.Payments.Gateway.{Gateway, Settings, answered, verified}
use terravoy_backend.System.{
  ServerEvent, orders_call, webhook_call, auto_close_job, tick, certs_call, assets_written,
  replay_job,
}

abbrev pub traveler_one : Actor
traveler_one = record { user_id = uuid 1; role = traveler }

abbrev pub host_two : Actor
host_two = record { user_id = uuid 2; role = host }

abbrev pub plain_details : OrderDetails
plain_details = record {
  end_time = 900;
  people_count = 2;
  currency = 156;
  traveler_note = none;
  experience_title = none;
  experience_cover = none;
  city = none;
  meeting_point = none;
  language_preference = none;
  time_slot_label = none;
  tags = none;
  traveler_name = none;
  traveler_avatar = none;
  host_name = none;
  host_avatar = none;
  contact_phone = none;
  channel = none;
  visible_to_traveler = none;
  visible_to_host = none;
}

abbrev pub booking_body : CreateBody
booking_body = record {
  experience_id = some 5;
  host_id = some (uuid 2);
  start_time = some 800;
  end_time = some 900;
  people_count = some 2;
  total_amount = some 10000;
  details = plain_details;
}

abbrev pub new_booking : Order
new_booking = record {
  id = 1;
  order_no = 77;
  traveler_id = 1;
  host_id = 2;
  experience_id = 5;
  start_time = 800;
  total_amount = 10000;
  details = plain_details;
  status = pending_payment;
  payment_status = unpaid;
  created_at = 0;
  paid_at = none;
  confirmed_at = none;
  started_at = none;
  completed_at = none;
  cancelled_at = none;
  cancelled_by = none;
  cancelled_reason = none;
  payment_intent_id = none;
  payment_provider = none;
  last_payment_attempt_status = none;
  last_payment_attempt_at = none;
  refund_status = none;
  refund_amount = none;
  refund_at = none;
}

abbrev pub paid_booking : Order
paid_booking = record new_booking {
  status = pending_host_confirm;
  payment_status = paid;
  paid_at = some 10;
}

abbrev pub done_booking : Order
done_booking = record paid_booking { status = completed; completed_at = some 20 }

-- The license of the host, as an uploaded file and as a document of the certification.
abbrev pub license_asset : Asset
license_asset = record {
  id = 4;
  object_key = some 41;
  owner_user_id = uuid 2;
  scope = some kyc_scope;
  is_private = true;
  status = asset_active;
}

abbrev pub license_document : RawDocument
license_document = record {
  media_asset_id = missing;
  camel_media_asset_id = uuid 4;
  id = missing;
  object_key = no_text;
  camel_object_key = text 41;
  doc_type = no_text;
  camel_doc_type = no_text;
  category = text license;
  name = no_text;
  file_name = no_text;
  size_bytes = bytes 1200;
  size = no_size;
  mime = no_text;
  content_type = no_text;
}

abbrev pub license_draft : DraftBody
license_draft = record {
  profile = none;
  documents = some (some (some license_document ∷ none ∷ []));
}

abbrev pub host_draft : HostCert
host_draft = record {
  id = 1;
  user_id = uuid 2;
  status = cert_draft;
  profile = empty_profile;
  documents =
      record {
        media_asset_id = uuid 4;
        object_key = 41;
        doc_type = license;
        name = some document_name;
        size_bytes = 1200;
        mime = none;
      }
      ∷ [];
  submitted_at = none;
  reviewed_at = none;
  reviewer_id = missing;
  reject_reason = none;
  created_at = 0;
  updated_at = 0;
}

-- An administrator with the key.
abbrev pub reviewer_nine : Reviewer
reviewer_nine = record {
  user_id = uuid 9;
  role = traveler;
  token = access_token;
  admin_key = some 500;
}

abbrev pub reviewed_by_hand : CertSettings
reviewed_by_hand = record { auto_approve = false; admin_key = some 500 }

abbrev pub approves_itself : CertSettings
approves_itself = record { auto_approve = true; admin_key = none }

-- The host's way to the approval.
abbrev pub certification : List CertRequest
certification =
    save_draft (uuid 2) license_draft
    ∷ submit (uuid 2)
    ∷ review_cert reviewer_nine (uuid 1) approve none
    ∷ []

abbrev pub certified : List HostCert
certified =
    record host_draft {
      status = cert_approved;
      submitted_at = some 0;
      reviewed_at = some 0;
      reviewer_id = uuid 9;
    }
    ∷ []

-- The database that creating the booking leaves.
abbrev pub booked : Db
booked = record empty_db {
  profiles = 2 ∷ 1 ∷ [];
  orders = new_booking ∷ [];
  order_logs = first_log 1 1 ∷ [];
  next_order = 2;
}

abbrev pub awaiting_host : Db
awaiting_host = record booked { now = 50; certs = certified; orders = paid_booking ∷ [] }

abbrev pub after_service : Db
after_service = record booked { now = 60; orders = done_booking ∷ [] }

abbrev pub open_intent_row : Intent
open_intent_row = record {
  id = 1;
  order_id = 1;
  provider = mock;
  provider_intent_id = some 40;
  amount = 10000;
  currency = 156;
  status = processing;
  idempotency_key = none;
  client_secret = none;
  last_error = none;
  confirmed_at = none;
  updated_at = 5;
}

abbrev pub awaiting_payment : Db
awaiting_payment = record booked { now = 10; intents = open_intent_row ∷ []; next_intent = 2 }

abbrev pub payment_data : EventData
payment_data = record {
  provider_intent_id = some 40;
  provider_txn_id = some 41;
  provider_refund_id = none;
  amount = some 10000;
  currency = some 156;
  error_code = none;
  error_message = none;
}

abbrev pub payment_event : Event
payment_event = record {
  event_id = given 90;
  type = payment_succeeded;
  provider = mock;
  payload = payment_data;
}

-- A stored event whose processing failed.
abbrev pub failed_row : WebhookRow
failed_row = record {
  id = 1;
  provider = mock;
  event_id = given 90;
  event_type = payment_succeeded;
  payload = payment_data;
  status = event_failed;
  retry_count = 0;
  order_id = none;
  intent_id = none;
  payment_id = none;
  refund_id = none;
}

abbrev pub awaiting_retry : Db
awaiting_retry = record awaiting_payment { events = failed_row ∷ []; next_event = 2 }

-- A provider that accepts everything, and delivers the payment event.
abbrev pub easy_gateway : Gateway
easy_gateway = record {
  create_intent = λ p amount currency key. answered (record {
    provider_intent_id = some 40;
    client_secret = none;
    status = requires_confirmation;
  });
  confirm_intent = λ p id simulate. answered (record {
    status = processing;
    provider_txn_id = some 41;
    error_code = none;
    error_message = none;
    action_data = none;
  });
  refund = λ p txn amount. answered (record {
    status = processing;
    provider_refund_id = some 42;
    error_code = none;
    error_message = none;
  });
  parse_webhook = λ p payload signature. answered (verified payment_event);
}

abbrev pub mock_settings : Settings
mock_settings = record { provider = mock; webhook_only = false; certs = reviewed_by_hand }

-- The booking alone.
abbrev pub booking : List ServerEvent
booking = orders_call (some traveler_one) (create booking_body 77) ∷ []

-- From the approval of the host to the review.
abbrev pub journey : List ServerEvent
journey =
    assets_written (license_asset ∷ [])
    ∷ certs_call (save_draft (uuid 2) license_draft)
    ∷ certs_call (submit (uuid 2))
    ∷ certs_call (review_cert reviewer_nine (uuid 1) approve none)
    ∷ orders_call (some traveler_one) (create booking_body 77)
    ∷ tick 10
    ∷ orders_call (some traveler_one) (mark_paid 1)
    ∷ orders_call (some host_two) (accept 1)
    ∷ orders_call (some host_two) (start 1)
    ∷ orders_call (some traveler_one) (end 1)
    ∷ orders_call (some traveler_one) (review 1 (some 5) none)
    ∷ webhook_call mock 3 none
    ∷ replay_job
    ∷ auto_close_job
    ∷ []

-- What follows the booking when nobody pays.
abbrev pub no_show : List ServerEvent
no_show = tick 1800001 ∷ auto_close_job ∷ []
