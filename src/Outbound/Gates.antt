-- ===== src/Outbound/Gates.antt =====
-- app/repositories/outbound_tasks.py: the guards of a delivery.
use whatsapp_atendimentos_ag.Prelude.{
  ℕ, ◌-◌, ◌*◌, Bool, true, false, not, ◌&&◌, ◌||◌, Option, none, some, List, [], ◌∷◌, ltb,
  if◌then◌else◌, any,
}
use whatsapp_atendimentos_ag.Booking.Slots.{Instant, minute}
use whatsapp_atendimentos_ag.Outbound.Types.{
  MessageType, template, reaction, MessageStatus, pending, Message, Payload,
}

abbrev pub is_handoff_notification : Option Payload → Bool
is_handoff_notification none = false
is_handoff_notification (some p) = p.is_handoff

-- `_automation_blocked_for_message`
unfoldable pub automation_blocked_for_message : Bool → Option Payload → Bool → Bool → Bool → Bool
automation_blocked_for_message is_manual payload active_ignore standard_blocked
      entitlement_blocked =
    if entitlement_blocked
    then true
    else if active_ignore
    then true
    else if is_manual || is_handoff_notification payload
    then false
    else standard_blocked

abbrev pub is_template : MessageType → Bool
is_template template = true
is_template _ = false

abbrev pub is_reaction : MessageType → Bool
is_reaction reaction = true
is_reaction _ = false

abbrev day : ℕ
day = 24 * 60 * minute

-- `_basic_service_window_blocked`; `is_basic` is `plan == "basic"`.
unfoldable pub basic_service_window_blocked : Bool → MessageType → Option Instant → Instant → Bool
basic_service_window_blocked is_basic t latest_inbound_at now =
    if not is_basic || is_reaction t
    then false
    else if is_template t
    then true
    else elim latest_inbound_at [ none ↦ true | some at ↦ ltb at (now - day) ]

-- A mode of an active exclusion of the recipient.
pub data ExclusionMode : Type 0 where
  ignore human_only : ExclusionMode

abbrev pub is_ignore : ExclusionMode → Bool
is_ignore ignore = true
is_ignore human_only = false

-- What `lock_message` reads beside the message. `exclusion_modes` are the modes of the active
-- exclusions of the recipient's identity or of one of its aliases; `entitlement_active`,
-- `is_basic` and `usage_exhausted` are the answers of app/billing.
pub record Readings : Type 0 where
  pub automation_enabled : Bool
  pub assistant_enabled : Bool
  pub handoff_human_only : Bool
  pub suppressed_until : Option Instant
  pub exclusion_modes : List ExclusionMode
  pub entitlement_active : Bool
  pub is_basic : Bool
  pub usage_exhausted : Bool
  pub latest_inbound_at : Option Instant
  pub recipient_is_individual : Bool
  pub now : Instant

abbrev suppressed : Option Instant → Instant → Bool
suppressed none now = false
suppressed (some until) now = ltb now until

abbrev is_empty : List ExclusionMode → Bool
is_empty [] = true
is_empty (x ∷ xs) = false

unfoldable pub standard_automation_blocked : Readings → Bool
standard_automation_blocked r =
    not r.automation_enabled
    || not r.assistant_enabled
    || r.handoff_human_only
    || suppressed r.suppressed_until r.now
    || not (is_empty r.exclusion_modes)

-- The three flags of a `StoredOutboundMessage`.
pub record Flags : Type 0 where
  pub automation_blocked : Bool
  pub quota_blocked : Bool
  pub service_window_blocked : Bool

abbrev pub is_pending : MessageStatus → Bool
is_pending pending = true
is_pending _ = false

-- The flags of `lock_message`, lines 193 to 253.
unfoldable pub flags_of : Readings → Message → Flags
unfolding automation_blocked_for_message basic_service_window_blocked standard_automation_blocked
flags_of r m =
    let blocked =
      automation_blocked_for_message m.is_manual m.outbound_payload
        (any is_ignore r.exclusion_modes) (standard_automation_blocked r)
        (not r.entitlement_active) in
    let counted = is_pending m.status && not blocked && not (is_reaction m.message_type) in
    record {
      automation_blocked = blocked;
      quota_blocked = counted && r.usage_exhausted;
      service_window_blocked =
          counted
          && r.is_basic
          && basic_service_window_blocked r.is_basic m.message_type r.latest_inbound_at r.now;
    }
