-- ===== src/Webhooks/State.antt =====
-- What a webhook dispatcher keeps: the types of packages/server/src/webhooks.ts, the fields of
-- `class WebhookDispatcher`, and where each delivery under way waits.
use loyalty_interchange_prot.Base.{ℕ, String, ◌⧺◌, Bool, true, false, Option, List}
use loyalty_interchange_prot.Base.Int.{ℤ}
use loyalty_interchange_prot.Base.Assoc.{Assoc}
use loyalty_interchange_prot.Base.Json.{Json}

-- LoyaltyEvent: what the dispatcher reads of it, and the rest
pub record LoyaltyEvent : Type 0 where
  pub id : String
  pub source : String
  pub type : String
  pub rest : Json

-- WebhookSubscription's retry_policy
pub record RetryPolicy : Type 0 where
  pub max_attempts : ℤ
  pub backoff_ms : ℤ
  pub timeout_ms : ℤ

-- WebhookSubscription
pub record WebhookSubscription : Type 0 where
  pub subscription_id : Option String
  pub url : String
  pub secret : String
  pub events : Option (List String)
  pub active : Option Bool
  pub retry_policy : Option RetryPolicy

-- ManagedWebhookSubscription
pub record ManagedSubscription : Type 0 where
  pub subscription_id : String
  pub url : String
  pub secret : String
  pub events : Option (List String)
  pub active : Bool
  pub retry_policy : Option RetryPolicy

-- WebhookOutboxEntry
pub record OutboxEntry : Type 0 where
  pub delivery_id : String
  pub event : LoyaltyEvent
  pub url : String
  pub attempts : ℕ
  pub created_at : String
  pub updated_at : String
  pub last_error : Option String

pub data DeliveryStatus : Type 0 where
  delivered failed : DeliveryStatus

-- WebhookDeliveryArchiveEntry; the event's id and type are the event's
pub record ArchiveEntry : Type 0 where
  pub delivery_id : String
  pub event : LoyaltyEvent
  pub url : String
  pub attempts : ℕ
  pub status : DeliveryStatus
  pub completed_at : String
  pub last_error : Option String

-- what `persist` writes, in call order
pub data Write : Type 0 where
  put : OutboxEntry → Write
  remove : String → Write
  save_history : List ArchiveEntry → Write
  subscriptions_changed : List ManagedSubscription → Write

-- what `subscriptionDeliveryState` tells
pub data DeliveryState : Type 0 where
  active paused removed : DeliveryState

abbrev pub is_deliverable : DeliveryState → Bool
is_deliverable active = true
is_deliverable paused = false
is_deliverable removed = false

abbrev pub is_removed : DeliveryState → Bool
is_removed removed = true
is_removed active = false
is_removed paused = false

-- Where a delivery waits: for its destination's answer, for the pause before its next attempt to
-- end, or, having returned, for `pending.delete`.
pub data Phase : Type 0 where
  sending returned : Phase
  sleeping : ℕ → Phase

abbrev pub is_sending : Phase → Bool
is_sending sending = true
is_sending returned = false
is_sending (sleeping _) = false

abbrev pub is_sleeping : Phase → Bool
is_sleeping sending = false
is_sleeping returned = false
is_sleeping (sleeping _) = true

abbrev pub is_returned : Phase → Bool
is_returned sending = false
is_returned returned = true
is_returned (sleeping _) = false

-- the local variables of one `deliver` under way
pub record Flight : Type 0 where
  pub subscription : ManagedSubscription
  pub current : OutboxEntry
  pub cycle_attempt : ℕ
  pub phase : Phase

-- the private fields, and the writes that `persistTail` has still to make
pub record Dispatcher : Type 0 where
  pub subscriptions : List ManagedSubscription
  pub queued : Assoc OutboxEntry
  pub history : List ArchiveEntry
  pub pending : Assoc Flight
  pub writes : List Write

-- The dispatcher's options, and what it calls and does not implement: digests, lengths of texts, and the
-- check of an address, which gives the normal form of a safe one. Times and random ids are arguments
-- of the methods that read them.
pub record Setup : Type 0 where
  pub max_attempts : ℤ
  pub backoff_ms : ℤ
  pub history_limit : ℕ
  pub has_history_store : Bool
  pub tells_subscriptions : Bool
  pub sha256_hex : String → String
  pub safe_outbound_url : String → Option String
  pub text_length : String → ℕ
  pub nul : String

-- `deliveryId`
unfoldable pub delivery_id : Setup → LoyaltyEvent → String → String
delivery_id setup event url =
    setup.sha256_hex ((((event.source ⧺ setup.nul) ⧺ event.id) ⧺ setup.nul) ⧺ url)
