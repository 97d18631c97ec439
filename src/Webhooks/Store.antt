-- ===== src/Webhooks/Store.antt =====
-- The rows that src/webhooks keeps: prisma/schema.prisma's WebhookDelivery and WebhookEndpoint, with
-- the values that the dispatcher's queries read and write. Instants are milliseconds.
use drasken_labs_communicati.Prelude.{ℕ, Text, Bool, Option, List}

-- `DescribedEvent` of src/webhooks/event-describer.ts.
pub record DescribedEvent : Type 0 where
  pub kind : Text
  pub title : Text
  pub detail : Option Text
  pub status : Option Text
  pub recipient : Option Text
  pub message_id : Option Text
  pub reason : Option Text

-- The `data` of an envelope: a Meta change as described, or a synthetic event.
pub data EventData : Type 0 where
  of_change : DescribedEvent → (meta_field raw : Text) → EventData
  of_test : EventData

pub record Payload : Type 0 where
  pub event : Text
  pub waba_id : Text
  pub occurred_at : ℕ
  pub contents : EventData

pub data DeliveryStatus : Type 0 where
  pending sent failed abandoned : DeliveryStatus

pub record Delivery : Type 0 where
  pub id : ℕ
  pub endpoint_id : ℕ
  pub event_id : Option ℕ
  pub event_type : Text
  pub payload : Payload
  pub status : DeliveryStatus
  pub attempts : ℕ
  pub retry_at : Option ℕ
  pub response_code : Option ℕ
  pub error : Option Text
  pub duration_ms : Option ℕ

pub record Endpoint : Type 0 where
  pub id : ℕ
  pub user_id : ℕ
  pub sso_org_id : Text
  pub waba_id : Text
  pub url : Text
  pub label : Option Text
  pub secret : Option Text
  pub events : List Text
  pub status : Bool
  pub failure_count : ℕ
  pub disabled_at : Option ℕ
  pub last_success_at : Option ℕ

-- The email that an endpoint was switched off.
pub record DisabledMail : Type 0 where
  pub user_id : ℕ
  pub sso_org_id : Text
  pub url : Text
  pub failures : ℕ

pub record Store : Type 0 where
  pub deliveries : List Delivery
  pub endpoints : List Endpoint
  pub next_delivery : ℕ
  pub mails : List DisabledMail
