-- ===== src/Outbound/Types.antt =====
-- app/models/domain.py: the columns of `messages` and `conversations` that the outbound worker reads
-- and writes.
use Prim.Native.String.{String}
use whatsapp_atendimentos_ag.Prelude.{ℕ, Bool, Option, List}
use whatsapp_atendimentos_ag.Booking.Types.{Uuid}
use whatsapp_atendimentos_ag.Booking.Slots.{Instant}
use whatsapp_atendimentos_ag.Booking.Ledger.{CustomerOutreach, OutreachType}

pub data MessageStatus : Type 0 where
  pending sent delivered read failed : MessageStatus

pub data MessageType : Type 0 where
  text image interactive_button interactive_list template reaction other_type : MessageType

-- The keys of `outbound_payload` that the worker reads; a field is `none` where the key is missing or
-- its value is of another type. A negative `_alovia_retry_attempt` reads as `none`, as one that is
-- missing does.
pub record Payload : Type 0 where
  -- `_alovia_transition` is "handoff"
  pub is_handoff : Bool
  -- `_alovia_optional`, `_alovia_sequence_optional`
  pub optional : Bool
  pub sequence_optional : Bool
  pub sequence_group : Option String
  pub sequence_index : Option ℕ
  pub sequence_count : Option ℕ
  pub retry_attempt : Option ℕ
  pub outreach_id : Option Uuid
  pub outreach_type : Option OutreachType

-- A row of `messages` whose direction is outbound.
pub record Message : Type 0 where
  pub id : Uuid
  pub business_id : Uuid
  pub conversation_id : Uuid
  pub message_type : MessageType
  pub status : MessageStatus
  pub provider_message_id : Option String
  pub sent_at : Option Instant
  -- `idempotency_key` starts with "manual:outbound:"
  pub is_manual : Bool
  pub outbound_payload : Option Payload

-- What the worker writes in the context of a conversation.
pub record Context : Type 0 where
  pub inactivity_followup : Option Uuid
  pub cleaning_outreach : Option Uuid

-- The tables, by id, and the messages for which the client has returned the provider's id, the last
-- one first.
pub record World : Type 0 where
  pub messages : Uuid → Option Message
  pub contexts : Uuid → Context
  pub outreaches : List CustomerOutreach
  pub accepted : List Uuid
