-- ===== src/Outbound/Examples.antt =====
-- A message of an outreach and its worker, and the theorems on them.
use whatsapp_atendimentos_ag.Prelude.{
  ℕ, ◌≤◌, ◌≡◌, refl, true, false, none, some, [], ◌∷◌, ◌==◌, if◌then◌else◌, arith,
}
use whatsapp_atendimentos_ag.Booking.Ledger.{cleaning_6m}
use whatsapp_atendimentos_ag.Outbound.Types.{Message, MessageStatus, MessageType, World}
use whatsapp_atendimentos_ag.Outbound.Gates.{Readings, human_only, flags_of}
use whatsapp_atendimentos_ag.Outbound.Worker.{Sender, delivered, Task, run_tasks}
use whatsapp_atendimentos_ag.Outbound.Worker.Laws.{count, run_tasks_once}

abbrev message : Message
message = record {
  id = 5;
  business_id = 1;
  conversation_id = 6;
  message_type = MessageType.text;
  status = MessageStatus.pending;
  provider_message_id = none;
  sent_at = none;
  is_manual = false;
  outbound_payload = some (record {
    is_handoff = false;
    optional = false;
    sequence_optional = false;
    sequence_group = none;
    sequence_index = none;
    sequence_count = none;
    retry_attempt = none;
    outreach_id = some 9;
    outreach_type = some cleaning_6m;
  });
}

abbrev world : World
world = record {
  messages = λ i. if i == 5 then some message else none;
  contexts = λ c. record { inactivity_followup = none; cleaning_outreach = none };
  outreaches = [];
  accepted = [];
}

abbrev open_readings : Readings
open_readings = record {
  automation_enabled = true;
  assistant_enabled = true;
  handoff_human_only = false;
  suppressed_until = none;
  exclusion_modes = [];
  entitlement_active = true;
  is_basic = false;
  usage_exhausted = false;
  latest_inbound_at = none;
  recipient_is_individual = true;
  now = 100;
}

abbrev excluded_readings : Readings
excluded_readings = record open_readings { exclusion_modes = human_only ∷ [] }

abbrev sender : Sender
sender = record {
  send = λ m. delivered "wamid.1";
  send_plain_text = λ m. delivered "wamid.2";
  payload_is_valid = λ m. true;
}

abbrev task : Task
task = record { readings = open_readings; sender = some sender; message_id = 5 }

is-accepted : count 5 (run_tasks (task ∷ []) world).accepted ≡ 1
unfolding run_tasks flags_of
is-accepted = refl

world-keyed : (j : ℕ) (m : Message) → world.messages j ≡ some m → m.id ≡ j
world-keyed j m h = ground (arith, h)

run_tasks_once_example : count 5 (run_tasks (task ∷ task ∷ []) world).accepted ≤ 1
run_tasks_once_example = run_tasks_once (task ∷ task ∷ []) world 5 world-keyed refl

is-blocked : (flags_of excluded_readings message).automation_blocked ≡ true
unfolding flags_of
is-blocked = refl
