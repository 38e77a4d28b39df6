-- ===== src/Outbound/Rows.antt =====
-- app/repositories/outbound_tasks.py: what the worker writes, and app/whatsapp/retry_policy.py.
use Prim.Native.String.{String}
use whatsapp_atendimentos_ag.Prelude.{
  ℕ, ◌+◌, Bool, true, false, ◌&&◌, Option, none, some, List, map, leb, ◌==◌, if◌then◌else◌, get_or,
}
use whatsapp_atendimentos_ag.Booking.Types.{Uuid}
use whatsapp_atendimentos_ag.Booking.Slots.{Instant}
use whatsapp_atendimentos_ag.Booking.Ledger.{
  CustomerOutreach, OutreachStatus, OutreachType, incomplete_24h, cleaning_6m,
}
use whatsapp_atendimentos_ag.Outbound.Types.{
  pending, sent, failed, Message, Payload, Context, World,
}

-- MAX_OUTBOUND_RETRY_ATTEMPTS
abbrev pub max_outbound_retry_attempts : ℕ
max_outbound_retry_attempts = 3

-- `current_outbound_retry_attempt`
unfoldable pub current_outbound_retry_attempt : Option Payload → ℕ
current_outbound_retry_attempt none = 0
current_outbound_retry_attempt (some p) = get_or p.retry_attempt 0

-- An UPDATE of the message of an id.
abbrev pub change : Uuid → (Message → Message) → World → World
change i f w = record w {
  messages = λ j. elim (w.messages j) [ none ↦ none | some m ↦ some (if j == i then f m else m) ];
}

abbrev is_waiting : OutreachStatus → Bool
is_waiting OutreachStatus.pending = true
is_waiting _ = false

-- The UPDATE of a pending row of `customer_outreach`.
unfoldable pub settle_outreach :
    Uuid → OutreachStatus → List CustomerOutreach → List CustomerOutreach
settle_outreach i status os =
    map (λ o. if o.id == i && is_waiting o.status then record o { status = status } else o) os

abbrev outreach_of : Option Payload → Option Uuid
outreach_of none = none
outreach_of (some p) = p.outreach_id

-- The part of `mark_sent` on the context, lines 490 to 511.
unfoldable pub note_outreach : Option OutreachType → Uuid → Context → Context
note_outreach (some incomplete_24h) i c = record c { inactivity_followup = some i }
note_outreach (some cleaning_6m) i c = record c { cleaning_outreach = some i }
note_outreach none i c = c

-- `is_final` of `mark_sent`
unfoldable pub is_final : Payload → Bool
is_final p = elim p.sequence_count [
  | none ↦ true
  | some count ↦ elim p.sequence_index [ none ↦ true | some index ↦ index + 1 == count ]
]

unfoldable pub note_sent : Message → Payload → Option Uuid → World → World
unfolding note_outreach is_final settle_outreach
note_sent m p none w = w
note_sent m p (some o) w = record w {
  contexts = λ c.
      if c == m.conversation_id
      then note_outreach p.outreach_type o (w.contexts c)
      else w.contexts c;
  outreaches =
      if is_final p then settle_outreach o OutreachStatus.sent w.outreaches else w.outreaches;
}

-- Lines 480 to 529, after the UPDATE of the message.
unfoldable pub after_sent : Message → Option Payload → World → World
unfolding note_sent
after_sent m none w = w
after_sent m (some p) w = note_sent m p p.outreach_id w

-- `mark_sent`
unfoldable pub mark_sent : Instant → Message → String → World → World
unfolding after_sent
mark_sent now m provider_id w = after_sent m m.outbound_payload (
    change m.id
      (λ x. record x {
        provider_message_id = some provider_id;
        status = sent;
        sent_at = some (get_or x.sent_at now);
      })
      w)

unfoldable pub fail_outreach : Option Uuid → World → World
unfolding settle_outreach
fail_outreach none w = w
fail_outreach (some o) w = record w {
  outreaches = settle_outreach o OutreachStatus.failed w.outreaches;
}

-- `mark_failed`
unfoldable pub mark_failed : Message → World → World
unfolding fail_outreach
mark_failed m w =
    fail_outreach (outreach_of m.outbound_payload)
      (change m.id (λ x. record x { status = failed }) w)

abbrev no_payload : Payload
no_payload = record {
  is_handoff = false;
  optional = false;
  sequence_optional = false;
  sequence_group = none;
  sequence_index = none;
  sequence_count = none;
  retry_attempt = none;
  outreach_id = none;
  outreach_type = none;
}

-- `mark_retry_pending`: the number of the next attempt, if there is one.
unfoldable pub mark_retry_pending : Message → World → Option ℕ × World
unfolding current_outbound_retry_attempt
mark_retry_pending m w =
    let attempt = current_outbound_retry_attempt m.outbound_payload in
    if leb max_outbound_retry_attempts attempt
    then (none, change m.id (λ x. record x { status = failed }) w)
    else (
      some (attempt + 1),
      change m.id
          (λ x. record x {
            outbound_payload = some (record (get_or m.outbound_payload no_payload) {
              retry_attempt = some (attempt + 1);
            });
            status = pending;
          })
          w,
    )
