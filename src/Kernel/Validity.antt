-- ===== src/Kernel/Validity.antt =====
-- valp_cli/protocol_kernel.py: the checks of states, events and evidence. The dynamic type tests
-- (`isinstance` of a field at its annotated type) hold of every value of the model; those of a
-- `Union[SomeEnum, str]` are `is_known`.
use visible_agent_loop_proto.Prelude.{
  ℤ, pos, negsuc, String, Bool, true, false, not, Option, none, some, List, [], ◌∷◌, map, ◌&&◌,
  length, all, is_none, is_subset, is_distinct, ◌==◌, ◌!=◌, int_eq, string_eq, option_eq,
}
use visible_agent_loop_proto.Kernel.IdentityKinds.{IdentityKind, identity_kind_eq}
use visible_agent_loop_proto.Kernel.TaskStatuses.{TaskStatus, task_status_eq}
use visible_agent_loop_proto.Kernel.ControlWords.{
  SuspensionStatus, ControlStatus, WakeReason, wake_reason_eq,
}
use visible_agent_loop_proto.Kernel.Words.{Word, known, text, is_known, absent_or_known}
use visible_agent_loop_proto.Kernel.Identities.{
  Identity, Evidence, identity_eq, has_identity_kind, absent_or_kind,
}
use visible_agent_loop_proto.Kernel.WorkItems.{Dependency, Attempt, WorkItem}
use visible_agent_loop_proto.Kernel.States.{Suspension, ControlState, AcceptedEvent, State}
use visible_agent_loop_proto.Kernel.Events.{Event}
use visible_agent_loop_proto.Kernel.Digests.{is_digest}

abbrev pub protocol_version : String
protocol_version = "0.3.0"

abbrev pub is_non_negative_int : ℤ → Bool
is_non_negative_int (pos n) = true
is_non_negative_int (negsuc n) = false

abbrev pub absent_or : {A : Type 0} → (A → Bool) → Option A → Bool
absent_or p none = true
absent_or p (some a) = p a

abbrev pub is_empty : {A : Type 0} → List A → Bool
is_empty [] = true
is_empty (x ∷ xs) = false

-- `_has_identity_kind` of an identity.
abbrev pub of_kind : IdentityKind → Identity → Bool
of_kind kind i = i.kind == kind

unfoldable pub accepted_event_is_valid : AcceptedEvent → Bool
accepted_event_is_valid value =
    of_kind IdentityKind.event value.event_id
    && of_kind IdentityKind.result value.result_id
    && is_digest value.input_digest
    && is_digest value.result_digest

unfoldable pub attempt_is_valid : Attempt → Bool
attempt_is_valid value =
    of_kind IdentityKind.task value.task_id
    && of_kind IdentityKind.work_item value.work_item_id
    && of_kind IdentityKind.attempt value.attempt_id
    && of_kind IdentityKind.dispatch value.dispatch_id
    && is_non_negative_int value.dispatch_generation

-- The conditions on the fields other than the attempt.
unfoldable pub item_fields_are_valid : WorkItem → Identity → Bool
item_fields_are_valid value task_id =
    value.task_id == task_id
    && of_kind IdentityKind.work_item value.work_item_id
    && all
        (λ (dep : Dependency).
          of_kind IdentityKind.work_item dep.work_item_id && dep.work_item_id != value.work_item_id)
        value.dependencies
    && is_distinct (map (λ (dep : Dependency). dep.work_item_id) value.dependencies)

unfoldable pub item_attempt_is_valid : WorkItem → Attempt → Bool
item_attempt_is_valid value attempt =
    attempt_is_valid attempt
    && attempt.task_id == value.task_id
    && attempt.work_item_id == value.work_item_id

unfoldable pub work_item_is_valid : Identity → WorkItem → Bool
work_item_is_valid task_id value =
    item_fields_are_valid value task_id
    && absent_or (item_attempt_is_valid value) value.current_attempt

abbrev pub work_item_ids : List WorkItem → List Identity
work_item_ids work_items = map (λ (item : WorkItem). item.work_item_id) work_items

-- What is required of the wake fields in each status.
abbrev pub wake_fields_are_valid : SuspensionStatus → Suspension → Bool
wake_fields_are_valid SuspensionStatus.waiting value =
    is_none value.accepted_wake_id && is_none value.wake_reason
wake_fields_are_valid SuspensionStatus.resumed value =
    has_identity_kind value.accepted_wake_id IdentityKind.wake
    && value.wake_reason == some WakeReason.dependency_ready

unfoldable pub suspension_is_valid : Identity → List Identity → Suspension → Bool
suspension_is_valid task_id item_ids value =
    value.task_id == task_id
    && of_kind IdentityKind.suspension value.suspension_id
    && is_non_negative_int value.suspension_epoch
    && of_kind IdentityKind.wait_policy value.wait_policy_id
    && is_digest value.wait_policy_digest
    && not (is_empty value.required_work_item_ids)
    && is_distinct value.required_work_item_ids
    && all (of_kind IdentityKind.work_item) value.required_work_item_ids
    && is_subset value.required_work_item_ids item_ids
    && wake_fields_are_valid value.status value

abbrev pub interrupt_field_is_valid : ControlStatus → Option Identity → Bool
interrupt_field_is_valid ControlStatus.active interrupt_id = is_none interrupt_id
interrupt_field_is_valid ControlStatus.interrupted interrupt_id =
    has_identity_kind interrupt_id IdentityKind.interrupt

unfoldable pub control_is_valid : ControlState → Bool
control_is_valid value =
    is_non_negative_int value.intent_version
    && interrupt_field_is_valid value.status value.active_interrupt_id

-- `value.status == status`, of a status that may be a text.
abbrev pub has_status : Word TaskStatus → TaskStatus → Bool
has_status (known s) status = s == status
has_status (text s) status = false

-- The fields of a state that hold no collection.
unfoldable pub state_header_is_valid : State → Bool
state_header_is_valid value =
    value.protocol_version == protocol_version
    && of_kind IdentityKind.installation value.installation_id
    && of_kind IdentityKind.task value.task_id
    && is_non_negative_int value.leader_epoch
    && is_non_negative_int value.revision
    && is_known value.status
    && value.revision == pos (length value.accepted_events)
    && not (value.revision == pos 0 && not (has_status value.status TaskStatus.published))

abbrev pub event_ids : List AcceptedEvent → List Identity
event_ids events = map (λ (item : AcceptedEvent). item.event_id) events

abbrev pub result_ids : List AcceptedEvent → List Identity
result_ids events = map (λ (item : AcceptedEvent). item.result_id) events

unfoldable pub state_is_valid : State → Bool
state_is_valid value =
    state_header_is_valid value
    && all accepted_event_is_valid value.accepted_events
    && all (work_item_is_valid value.task_id) value.work_items
    && absent_or (λ _. has_status value.status TaskStatus.executing) value.suspension
    && absent_or (suspension_is_valid value.task_id (work_item_ids value.work_items))
        value.suspension
    && absent_or control_is_valid value.control
    && is_distinct (event_ids value.accepted_events)
    && is_distinct (result_ids value.accepted_events)
    && is_distinct (work_item_ids value.work_items)

-- The conditions of `_event_is_valid`, in its order: the event itself,
unfoldable pub event_header_is_valid : Event → Bool
event_header_is_valid value =
    of_kind IdentityKind.event value.event_id
    && of_kind IdentityKind.installation value.installation_id
    && of_kind IdentityKind.task value.task_id
    && is_non_negative_int value.leader_epoch
    && is_non_negative_int value.expected_revision
    && is_known value.kind

-- the work item and its attempt,
unfoldable pub work_fields_are_valid : Event → Bool
work_fields_are_valid value =
    absent_or_kind value.work_item_id IdentityKind.work_item
    && absent_or_kind value.attempt_id IdentityKind.attempt
    && absent_or_kind value.dispatch_id IdentityKind.dispatch
    && absent_or is_non_negative_int value.dispatch_generation

-- the suspension and its wake,
unfoldable pub wait_fields_are_valid : Event → Bool
wait_fields_are_valid value =
    absent_or_kind value.suspension_id IdentityKind.suspension
    && absent_or is_non_negative_int value.suspension_epoch
    && absent_or_kind value.wait_policy_id IdentityKind.wait_policy
    && absent_or is_digest value.wait_policy_digest
    && all (of_kind IdentityKind.work_item) value.required_work_item_ids
    && absent_or_kind value.wake_id IdentityKind.wake
    && absent_or_known value.wake_reason

-- and the authority and the control.
unfoldable pub control_fields_are_valid : Event → Bool
control_fields_are_valid value =
    absent_or_kind value.authority_principal_id IdentityKind.principal
    && absent_or_kind value.authority_evidence_id IdentityKind.evidence
    && absent_or_known value.control_reason
    && absent_or_known value.cancellation_scope
    && absent_or_kind value.interrupt_id IdentityKind.interrupt
    && absent_or_kind value.redirect_id IdentityKind.redirect
    && absent_or is_non_negative_int value.intent_version
    && absent_or is_non_negative_int value.next_intent_version
    && all (of_kind IdentityKind.work_item) value.superseded_work_item_ids
    && is_distinct value.superseded_work_item_ids

unfoldable pub event_is_valid : Event → Bool
event_is_valid value =
    event_header_is_valid value
    && work_fields_are_valid value
    && wait_fields_are_valid value
    && control_fields_are_valid value

unfoldable pub evidence_set_is_valid : List Evidence → Bool
evidence_set_is_valid evidence_set =
    all
      (λ (item : Evidence).
        of_kind IdentityKind.evidence item.evidence_id && is_digest item.content_digest)
      evidence_set
    && is_distinct (map (λ (item : Evidence). item.evidence_id) evidence_set)
