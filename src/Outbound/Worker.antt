-- ===== src/Outbound/Worker.antt =====
-- app/tasks/outbound.py: `process_outbound_message` with `_send_message` and its fallback.
pub mod Laws
use Prim.Native.String.{String}
use whatsapp_atendimentos_ag.Prelude.{
  ℕ, Bool, true, false, not, ◌&&◌, ◌||◌, Option, none, some, List, [], ◌∷◌, ◌==◌, if◌then◌else◌,
  is_none,
}
use whatsapp_atendimentos_ag.Booking.Types.{Uuid}
use whatsapp_atendimentos_ag.Booking.Slots.{Instant}
use whatsapp_atendimentos_ag.Outbound.Types.{
  MessageType, text, image, interactive_button, interactive_list, template, reaction, other_type,
  MessageStatus, Message, World,
}
use whatsapp_atendimentos_ag.Outbound.Gates.{Readings, Flags, flags_of, is_pending}
use whatsapp_atendimentos_ag.Outbound.Rows.{mark_sent, mark_failed, mark_retry_pending}

-- What a call of the WhatsApp client ends with: the provider's id of an accepted message, or one of
-- the exceptions of app/whatsapp/client.py.
pub data Delivery : Type 0 where
  delivered : String → Delivery
  temporary invalid_response permanent validation : Delivery

-- The client that is resolved for a business: the call for a message of its type, and `send_text`
-- with the plain text of an interactive message. `payload_is_valid` is whether the payload has the
-- parts that the type of the message needs.
pub record Sender : Type 0 where
  pub send : Message → Delivery
  pub send_plain_text : Message → Delivery
  pub payload_is_valid : Message → Bool

-- `_send_message`
unfoldable pub send_message : Sender → Message → MessageType → Delivery
send_message c m text = c.send m
send_message c m other_type = validation
send_message c m _ = if c.payload_is_valid m then c.send m else validation

abbrev is_interactive : MessageType → Bool
is_interactive interactive_button = true
is_interactive interactive_list = true
is_interactive _ = false

unfoldable pub or_plain_text : Sender → Message → Delivery → Delivery
or_plain_text c m validation =
    if is_interactive m.message_type then c.send_plain_text m else validation
or_plain_text c m d = d

-- `_send_message_with_validation_fallback`
unfoldable pub send_with_fallback : Sender → Message → Delivery
unfolding send_message or_plain_text
send_with_fallback c m = or_plain_text c m (send_message c m m.message_type)

-- The result of a task; `transient` is OutboundTaskTransientError, which rolls back.
pub data Outcome : Type 0 where
  sent failed skipped retry transient : Outcome

abbrev accept : Uuid → World → World
accept i w = record w { accepted = i ∷ w.accepted }

unfoldable pub after_retry : Option ℕ × World → Outcome × World
after_retry (none, w) = (failed, w)
after_retry (some n, w) = (retry, w)

-- The handlers of lines 321 to 346.
unfoldable pub after_delivery : Instant → Message → Delivery → World → Outcome × World
unfolding mark_sent mark_failed mark_retry_pending after_retry
after_delivery now m (delivered provider_id) w = (sent, mark_sent now m provider_id (accept m.id w))
after_delivery now m temporary w = (transient, w)
after_delivery now m invalid_response w = (transient, w)
after_delivery now m permanent w = after_retry (mark_retry_pending m w)
after_delivery now m validation w = (failed, mark_failed m w)

unfoldable pub deliver : Instant → Option Sender → Message → World → Outcome × World
unfolding after_delivery send_with_fallback
deliver now none m w = (transient, w)
deliver now (some c) m w = after_delivery now m (send_with_fallback c m) w

-- Lines 268 to 306: the guards, in their order.
unfoldable pub guarded : Readings → Flags → Option Sender → Message → World → Outcome × World
unfolding deliver mark_failed
guarded r f s m w =
    if not (is_pending m.status)
    then (skipped, w)
    else if f.automation_blocked || f.service_window_blocked || f.quota_blocked
    then (failed, mark_failed m w)
    else if not r.recipient_is_individual
    then (failed, mark_failed m w)
    else deliver r.now s m w

unfoldable pub process_stored : Readings → Option Sender → Option Message → World → Outcome × World
unfolding guarded flags_of
process_stored r s none w = (skipped, w)
process_stored r s (some m) w = guarded r (flags_of r m) s m w

unfoldable pub process_outbound_message : Readings → Option Sender → Uuid → World → Outcome × World
unfolding process_stored
process_outbound_message r s i w = process_stored r s (w.messages i) w

-- One task of the queue.
pub record Task : Type 0 where
  pub readings : Readings
  pub sender : Option Sender
  pub message_id : Uuid

-- The tasks of a queue, one after the other.
unfoldable pub run_tasks : List Task → World → World
unfolding process_outbound_message
run_tasks [] w = w
run_tasks (t ∷ ts) w = run_tasks ts (process_outbound_message t.readings t.sender t.message_id w).1
