-- ===== src/Kernel/StateEquality.antt =====
-- valp_cli/protocol_kernel.py: `==` on states, which a dataclass derives from its fields. A status
-- that is a text equals the enumeration's member of that value, since the enumeration extends `str`.
use visible_agent_loop_proto.Prelude.{
  ℤ, String, Bool, true, ◌≡◌, ◌↔◌, refl, Option, List, Eq, ◌==◌, eq_sound, ap, int_eq, string_eq,
  option_eq, list_eq, pair_eq, parts_iff,
}
use visible_agent_loop_proto.Kernel.TaskStatuses.{task_status_value}
use visible_agent_loop_proto.Kernel.ControlWords.{
  SuspensionStatus, WakeReason, ControlStatus, suspension_status_eq, wake_reason_eq,
  control_status_eq,
}
use visible_agent_loop_proto.Kernel.Words.{word_value}
use visible_agent_loop_proto.Kernel.Identities.{Identity, identity_eq}
use visible_agent_loop_proto.Kernel.WorkItems.{WorkItem, work_item_eq}
use visible_agent_loop_proto.Kernel.States.{Suspension, ControlState, AcceptedEvent, State}

abbrev SuspensionParts : Type 0
SuspensionParts =
    Identity
    × (Identity
        × (ℤ
            × (SuspensionStatus
                × (Identity
                    × (String × (List Identity × (Option Identity × (Option WakeReason))))))))

abbrev suspension_parts : Suspension → SuspensionParts
suspension_parts r = (
  r.task_id,
  (
    r.suspension_id,
    (
      r.suspension_epoch,
      (
        r.status,
        (
          r.wait_policy_id,
          (r.wait_policy_digest, (r.required_work_item_ids, (r.accepted_wake_id, (r.wake_reason)))),
        ),
      ),
    ),
  ),
)

suspension_whole : SuspensionParts → Suspension
suspension_whole t = record {
  task_id = t.0;
  suspension_id = t.1.0;
  suspension_epoch = t.1.1.0;
  status = t.1.1.1.0;
  wait_policy_id = t.1.1.1.1.0;
  wait_policy_digest = t.1.1.1.1.1.0;
  required_work_item_ids = t.1.1.1.1.1.1.0;
  accepted_wake_id = t.1.1.1.1.1.1.1.0;
  wake_reason = t.1.1.1.1.1.1.1.1;
}

suspension_again : (r : Suspension) → suspension_whole (suspension_parts r) ≡ r
unfolding suspension_whole
suspension_again r = refl

unfoldable pub suspension_beq : Suspension → Suspension → Bool
suspension_beq a b = suspension_parts a == suspension_parts b

pub suspension_iff : (a b : Suspension) → (suspension_beq a b ≡ true) ↔ (a ≡ b)
unfolding suspension_beq
suspension_iff = parts_iff suspension_parts suspension_whole suspension_again

instance abbrev pub suspension_eq : Eq Suspension
suspension_eq = record { beq = suspension_beq; beq_iff = suspension_iff }

abbrev ControlStateParts : Type 0
ControlStateParts = ℤ × (ControlStatus × (Option Identity))

abbrev control_state_parts : ControlState → ControlStateParts
control_state_parts r = (r.intent_version, (r.status, (r.active_interrupt_id)))

control_state_whole : ControlStateParts → ControlState
control_state_whole t = record { intent_version = t.0; status = t.1.0; active_interrupt_id = t.1.1 }

control_state_again : (r : ControlState) → control_state_whole (control_state_parts r) ≡ r
unfolding control_state_whole
control_state_again r = refl

unfoldable pub control_state_beq : ControlState → ControlState → Bool
control_state_beq a b = control_state_parts a == control_state_parts b

pub control_state_iff : (a b : ControlState) → (control_state_beq a b ≡ true) ↔ (a ≡ b)
unfolding control_state_beq
control_state_iff = parts_iff control_state_parts control_state_whole control_state_again

instance abbrev pub control_state_eq : Eq ControlState
control_state_eq = record { beq = control_state_beq; beq_iff = control_state_iff }

abbrev AcceptedEventParts : Type 0
AcceptedEventParts = Identity × (Identity × (String × (String)))

abbrev accepted_event_parts : AcceptedEvent → AcceptedEventParts
accepted_event_parts r = (r.event_id, (r.result_id, (r.input_digest, (r.result_digest))))

accepted_event_whole : AcceptedEventParts → AcceptedEvent
accepted_event_whole t = record {
  event_id = t.0;
  result_id = t.1.0;
  input_digest = t.1.1.0;
  result_digest = t.1.1.1;
}

accepted_event_again : (r : AcceptedEvent) → accepted_event_whole (accepted_event_parts r) ≡ r
unfolding accepted_event_whole
accepted_event_again r = refl

unfoldable pub accepted_event_beq : AcceptedEvent → AcceptedEvent → Bool
accepted_event_beq a b = accepted_event_parts a == accepted_event_parts b

pub accepted_event_iff : (a b : AcceptedEvent) → (accepted_event_beq a b ≡ true) ↔ (a ≡ b)
unfolding accepted_event_beq
accepted_event_iff = parts_iff accepted_event_parts accepted_event_whole accepted_event_again

instance abbrev pub accepted_event_eq : Eq AcceptedEvent
accepted_event_eq = record { beq = accepted_event_beq; beq_iff = accepted_event_iff }

abbrev StateParts : Type 0
StateParts =
    String
    × (Identity
        × (ℤ
            × (Identity
                × (ℤ
                    × (String
                        × (List AcceptedEvent
                            × (List WorkItem × (Option Suspension × (Option ControlState)))))))))

abbrev state_parts : State → StateParts
state_parts r = (
  r.protocol_version,
  (
    r.installation_id,
    (
      r.leader_epoch,
      (
        r.task_id,
        (
          r.revision,
          (
            word_value task_status_value r.status,
            (r.accepted_events, (r.work_items, (r.suspension, (r.control)))),
          ),
        ),
      ),
    ),
  ),
)

-- `a == b` on states.
unfoldable pub state_beq : State → State → Bool
state_beq a b = state_parts a == state_parts b

state_beq-parts : (a b : State) → state_beq a b ≡ true → state_parts a ≡ state_parts b
unfolding state_beq
state_beq-parts a b = eq_sound (state_parts a) (state_parts b)

pub state_beq-revision : (a b : State) → state_beq a b ≡ true → a.revision ≡ b.revision
state_beq-revision a b h = ap (λ (t : StateParts). t.1.1.1.1.0) (state_beq-parts a b h)

pub state_beq-accepted_events :
    (a b : State) → state_beq a b ≡ true → a.accepted_events ≡ b.accepted_events
state_beq-accepted_events a b h = ap (λ (t : StateParts). t.1.1.1.1.1.1.0) (state_beq-parts a b h)

pub state_beq-work_items : (a b : State) → state_beq a b ≡ true → a.work_items ≡ b.work_items
state_beq-work_items a b h = ap (λ (t : StateParts). t.1.1.1.1.1.1.1.0) (state_beq-parts a b h)
