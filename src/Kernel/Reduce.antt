-- ===== src/Kernel/Reduce.antt =====
-- valp_cli/protocol_kernel.py: `reduce`, from its checks through the branch of the event's kind to
-- the result.
use Prim.Native.String.{◌++◌ as concat}
use visible_agent_loop_proto.Prelude.{
  String, Bool, not, Option, none, some, List, ◌||◌, ◌&&◌, find, ◌==◌, ◌!=◌, int_eq, string_eq,
  if◌then◌else◌,
}
use visible_agent_loop_proto.Kernel.IdentityKinds.{IdentityKind}
use visible_agent_loop_proto.Kernel.TaskStatuses.{TaskStatus, task_status_eq}
use visible_agent_loop_proto.Kernel.ControlWords.{
  ControlStatus, suspension_status_eq, control_status_eq,
}
use visible_agent_loop_proto.Kernel.EventKinds.{EventKind, KernelErrorCode}
use visible_agent_loop_proto.Kernel.Words.{Word, known, absent_or_known}
use visible_agent_loop_proto.Kernel.Identities.{Evidence, identity_eq, new_identity, Identity}
use visible_agent_loop_proto.Kernel.States.{AcceptedEvent, State, Suspension}
use visible_agent_loop_proto.Kernel.Events.{Event}
use visible_agent_loop_proto.Kernel.Results.{Result}
use visible_agent_loop_proto.Kernel.Digests.{Sha256, input_digest}
use visible_agent_loop_proto.Kernel.Validity.{state_is_valid, event_is_valid, evidence_set_is_valid}
use visible_agent_loop_proto.Kernel.Authority.{authority_is_valid, attempt_event_is_stale}
use visible_agent_loop_proto.Kernel.Outcomes.{
  Outcome, returned, raised, value_error, Change, Branch, conflict, changed, fails,
}
use visible_agent_loop_proto.Kernel.ControlEvents.{current_control}
use visible_agent_loop_proto.Kernel.Branches.{branch, passes_interrupt, settled}
use visible_agent_loop_proto.Kernel.Acceptance.{reject, rejection, refused, accept}

abbrev pub is_event : Event → AcceptedEvent → Bool
is_event event item = item.event_id == event.event_id

-- The checks on the state, the event and the evidence, which refuse with a state conflict.
unfoldable pub inputs_are_valid : EventKind → State → Event → List Evidence → Bool
inputs_are_valid kind state event evidence_set =
    state_is_valid state
    && event_is_valid event
    && evidence_set_is_valid evidence_set
    && event.installation_id == state.installation_id
    && event.leader_epoch == state.leader_epoch
    && authority_is_valid kind event evidence_set

abbrev pub words_are_known : Event → Bool
words_are_known event =
    absent_or_known event.wake_reason
    && absent_or_known event.control_reason
    && absent_or_known event.cancellation_scope

module _ ⦃sha : Sha256⦄ where
  -- The accepted result, once its identity is made: an empty value would raise.
  abbrev pub named :
      State
      → Event
      → String
      → TaskStatus
      → Change
      → Option Suspension
      → Option Identity
      → Outcome Result
  named state event digest_of_input target change suspension none =
      raised (value_error "identity value must be a non-empty string")
  named state event digest_of_input target change suspension (some result_id) =
      returned
        (Result.accepted (accept state event digest_of_input target change suspension result_id))

  abbrev pub with_suspension :
      State → Event → String → TaskStatus → Change → Option (Option Suspension) → Outcome Result
  with_suspension state event digest_of_input target change none = refused state digest_of_input
  with_suspension state event digest_of_input target change (some suspension) =
      named state event digest_of_input target change suspension
        (new_identity IdentityKind.result (concat event.event_id.value ":accepted"))

  abbrev pub with_target :
      EventKind → TaskStatus → State → Event → String → Change → Option TaskStatus → Outcome Result
  with_target kind status state event digest_of_input change none = refused state digest_of_input
  with_target kind status state event digest_of_input change (some target) =
      with_suspension state event digest_of_input target change
        (settled kind (target != status) change.suspension)

  -- From the branch's change to the result.
  unfoldable pub conclude :
      EventKind → TaskStatus → State → Event → String → Change → Outcome Result
  conclude kind status state event digest_of_input change =
      with_target kind status state event digest_of_input change change.target_status

  abbrev pub carry_out : EventKind → TaskStatus → State → Event → String → Branch → Outcome Result
  carry_out kind status state event digest_of_input conflict = refused state digest_of_input
  carry_out kind status state event digest_of_input (changed change) =
      conclude kind status state event digest_of_input change
  carry_out kind status state event digest_of_input (fails x) = raised x

  -- From the test of the task and the revision on, where the event is a new one.
  unfoldable pub reduce_new : EventKind → TaskStatus → State → Event → String → Outcome Result
  reduce_new kind status state event digest_of_input =
      if event.task_id != state.task_id || event.expected_revision != state.revision
      then refused state digest_of_input
      else if (current_control state.control).status == ControlStatus.interrupted
          && not (passes_interrupt kind)
      then refused state digest_of_input
      else carry_out kind status state event digest_of_input (branch kind status state event)

  -- An event identity that was accepted before: the same input, or a conflict.
  abbrev pub repeated : State → String → AcceptedEvent → Outcome Result
  repeated state digest_of_input prior =
      if prior.input_digest == digest_of_input
      then returned (
          Result.no_op (record {
            state = state;
            input_digest = digest_of_input;
            prior_result_id = prior.result_id;
            prior_result_digest = prior.result_digest;
          }))
      else returned (
          reject state digest_of_input KernelErrorCode.idempotency_conflict (some prior.result_id)
            (some prior.result_digest))

  abbrev pub look_up :
      EventKind → TaskStatus → State → Event → String → Option AcceptedEvent → Outcome Result
  look_up kind status state event digest_of_input (some prior) =
      repeated state digest_of_input prior
  look_up kind status state event digest_of_input none =
      reduce_new kind status state event digest_of_input

  -- From the checks on, where every enumeration value is known.
  unfoldable pub reduce_known :
      EventKind → TaskStatus → State → Event → List Evidence → String → Outcome Result
  reduce_known kind status state event evidence_set digest_of_input =
      if not (inputs_are_valid kind state event evidence_set)
      then refused state digest_of_input
      else if attempt_event_is_stale kind state event
      then refused state digest_of_input
      else look_up kind status state event digest_of_input
          (find (is_event event) state.accepted_events)

  -- `isinstance(state.status, TaskStatus)` and `isinstance(event.kind, EventKind)`
  abbrev pub reduce_words :
      Word EventKind → Word TaskStatus → State → Event → List Evidence → String → Outcome Result
  reduce_words (known kind) (known status) state event evidence_set digest_of_input =
      if words_are_known event
      then reduce_known kind status state event evidence_set digest_of_input
      else rejection state digest_of_input KernelErrorCode.unknown_enum_value
  reduce_words _ _ state event evidence_set digest_of_input =
      rejection state digest_of_input KernelErrorCode.unknown_enum_value

  unfoldable pub reduce : State → Event → List Evidence → Outcome Result
  reduce state event evidence_set =
      reduce_words event.kind state.status state event evidence_set
        (input_digest state event evidence_set)
