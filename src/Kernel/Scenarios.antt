-- ===== src/Kernel/Scenarios.antt =====
-- Runs of the kernel of valp_cli/protocol_kernel.py on concrete tasks: a cancellation, a wake and a
-- failure after the end.
use visible_agent_loop_proto.Prelude.{pos, Bool, true, false, none, some, [], ◌∷◌, ◌≡◌, refl}
use visible_agent_loop_proto.Kernel.IdentityKinds.{IdentityKind}
use visible_agent_loop_proto.Kernel.TaskStatuses.{TaskStatus}
use visible_agent_loop_proto.Kernel.WorkStatuses.{WorkItemStatus, AttemptStatus}
use visible_agent_loop_proto.Kernel.ControlWords.{ControlStatus, SuspensionStatus, WakeReason}
use visible_agent_loop_proto.Kernel.EventKinds.{EventKind}
use visible_agent_loop_proto.Kernel.Words.{known}
use visible_agent_loop_proto.Kernel.States.{State}
use visible_agent_loop_proto.Kernel.Events.{Event}
use visible_agent_loop_proto.Kernel.Results.{Accepted, Result}
use visible_agent_loop_proto.Kernel.Outcomes.{Outcome, returned, raised}
use visible_agent_loop_proto.Kernel.Reduce.{reduce}
use visible_agent_loop_proto.Kernel.Validity.{state_is_valid}
use visible_agent_loop_proto.Kernel.Samples.{
  id, parity, published, cancellation, authority, state_with, item, attempt_on, needs_a,
  some_digest, event, on_item_event, task_id,
}

abbrev blank : Accepted
blank = record {
  result_id = id IdentityKind.result "none";
  state = published;
  input_digest = "";
  result_digest = "";
  obligations = [];
  audit_facts = [];
}

-- The accepted result of an outcome that has one.
abbrev pub after : Outcome Result → Accepted
after (returned (Result.accepted a)) = a
after _ = blank

abbrev pub is_accepted : Outcome Result → Bool
is_accepted (returned (Result.accepted a)) = true
is_accepted _ = false

pub accepted_after :
    (o : Outcome Result) → is_accepted o ≡ true → o ≡ returned (Result.accepted (after o))
accepted_after (returned (Result.accepted a)) h = refl
accepted_after (returned (Result.no_op n)) h = cc
accepted_after (returned (Result.rejected r)) h = cc
accepted_after (raised x) h = cc

abbrev pub cancel : Event
cancel = cancellation "e1" 0

abbrev pub interrupted : State
interrupted = record published {
  control = some (record {
    intent_version = pos 0;
    status = ControlStatus.interrupted;
    active_interrupt_id = some (id IdentityKind.interrupt "n1");
  });
}

-- A task after one event.
abbrev pub later : TaskStatus → State
later status =
    record (state_with status (
      item "a" WorkItemStatus.completed [] (some (attempt_on "a" AttemptStatus.completed))
      ∷ item "b" WorkItemStatus.pending needs_a none
      ∷ [])) {
        revision = pos 1;
        accepted_events =
            record {
              event_id = id IdentityKind.event "e0";
              result_id = id IdentityKind.result "e0:accepted";
              input_digest = some_digest;
              result_digest = some_digest;
            }
            ∷ [];
      }

abbrev pub suspended : State
suspended = record (later TaskStatus.executing) {
  suspension = some (record {
    task_id = task_id;
    suspension_id = id IdentityKind.suspension "s1";
    suspension_epoch = pos 0;
    status = SuspensionStatus.waiting;
    wait_policy_id = id IdentityKind.wait_policy "w1";
    wait_policy_digest = some_digest;
    required_work_item_ids = id IdentityKind.work_item "a" ∷ [];
    accepted_wake_id = none;
    wake_reason = none;
  });
}

abbrev pub wake : Event
wake = record (event "e1" EventKind.wake_accepted 1) {
  suspension_id = some (id IdentityKind.suspension "s1");
  suspension_epoch = some (pos 0);
  wait_policy_id = some (id IdentityKind.wait_policy "w1");
  wait_policy_digest = some some_digest;
  required_work_item_ids = id IdentityKind.work_item "a" ∷ [];
  wake_id = some (id IdentityKind.wake "k1");
  wake_reason = some (known WakeReason.dependency_ready);
}

abbrev pub failure : Event
failure = on_item_event "e1" EventKind.work_item_failed 1 "b"

pub published_valid : state_is_valid published ≡ true
unfolding state_is_valid visible_agent_loop_proto.Kernel.Validity.state_header_is_valid
    visible_agent_loop_proto.Prelude.all visible_agent_loop_proto.Kernel.Validity.work_item_is_valid
    visible_agent_loop_proto.Kernel.Validity.item_fields_are_valid
    visible_agent_loop_proto.Prelude.is_distinct
    visible_agent_loop_proto.Kernel.Validity.item_attempt_is_valid
    visible_agent_loop_proto.Kernel.Validity.attempt_is_valid
    visible_agent_loop_proto.Prelude.contains
published_valid = refl

pub published_cancels : is_accepted (reduce published cancel authority) ≡ true
unfolding visible_agent_loop_proto.Kernel.Reduce.inputs_are_valid
    visible_agent_loop_proto.Kernel.Reduce.conclude
    visible_agent_loop_proto.Kernel.Reduce.reduce_new
    visible_agent_loop_proto.Kernel.Reduce.reduce_known
    visible_agent_loop_proto.Kernel.Reduce.reduce
    visible_agent_loop_proto.Kernel.Validity.accepted_event_is_valid
    visible_agent_loop_proto.Kernel.Validity.attempt_is_valid
    visible_agent_loop_proto.Kernel.Validity.item_fields_are_valid
    visible_agent_loop_proto.Kernel.Validity.item_attempt_is_valid
    visible_agent_loop_proto.Kernel.Validity.work_item_is_valid
    visible_agent_loop_proto.Kernel.Validity.suspension_is_valid
    visible_agent_loop_proto.Kernel.Validity.control_is_valid
    visible_agent_loop_proto.Kernel.Validity.state_header_is_valid
    visible_agent_loop_proto.Kernel.Validity.state_is_valid
    visible_agent_loop_proto.Kernel.Validity.event_header_is_valid
    visible_agent_loop_proto.Kernel.Validity.work_fields_are_valid
    visible_agent_loop_proto.Kernel.Validity.wait_fields_are_valid
    visible_agent_loop_proto.Kernel.Validity.control_fields_are_valid
    visible_agent_loop_proto.Kernel.Validity.event_is_valid
    visible_agent_loop_proto.Kernel.Validity.evidence_set_is_valid
    visible_agent_loop_proto.Kernel.Authority.authority_is_valid
    visible_agent_loop_proto.Kernel.Authority.cancelled_work_item
    visible_agent_loop_proto.Kernel.Authority.dict_get
    visible_agent_loop_proto.Kernel.Authority.eligible_from
    visible_agent_loop_proto.Kernel.Authority.eligible_work_item
    visible_agent_loop_proto.Kernel.Authority.same_attempt
    visible_agent_loop_proto.Kernel.Authority.attempt_event_is_stale
    visible_agent_loop_proto.Kernel.Branches.branch
    visible_agent_loop_proto.Kernel.Outcomes.refuse_if
    visible_agent_loop_proto.Kernel.Outcomes.attribute_of
    visible_agent_loop_proto.Kernel.ControlEvents.interrupt_requested
    visible_agent_loop_proto.Kernel.ControlEvents.interrupt_resumed
    visible_agent_loop_proto.Kernel.ControlEvents.cancel_where
    visible_agent_loop_proto.Kernel.ControlEvents.redirect_authorized
    visible_agent_loop_proto.Kernel.ControlEvents.task_cancelled
    visible_agent_loop_proto.Kernel.WaitEvents.suspension_started
    visible_agent_loop_proto.Kernel.WaitEvents.some_incomplete
    visible_agent_loop_proto.Kernel.WaitEvents.wake_accepted
    visible_agent_loop_proto.Kernel.ItemEvents.item_index
    visible_agent_loop_proto.Kernel.ItemEvents.replace_at
    visible_agent_loop_proto.Kernel.ItemEvents.on_item
    visible_agent_loop_proto.Kernel.ItemEvents.eligible_step
    visible_agent_loop_proto.Kernel.ItemEvents.work_item_eligible
    visible_agent_loop_proto.Kernel.ItemEvents.is_required_by_any
    visible_agent_loop_proto.Kernel.ItemEvents.cancellation_is_malformed
    visible_agent_loop_proto.Kernel.ItemEvents.skip_is_refused
    visible_agent_loop_proto.Kernel.ItemEvents.item_step
    visible_agent_loop_proto.Kernel.ItemEvents.work_item_event
    visible_agent_loop_proto.Kernel.Transitions.task_transition
    visible_agent_loop_proto.Kernel.Acceptance.accept
    visible_agent_loop_proto.Kernel.Digests.is_digest visible_agent_loop_proto.Kernel.Digests.codes
    visible_agent_loop_proto.Kernel.Identities.new_identity visible_agent_loop_proto.Prelude.all
    visible_agent_loop_proto.Prelude.any visible_agent_loop_proto.Prelude.contains
    visible_agent_loop_proto.Prelude.is_distinct visible_agent_loop_proto.Prelude.is_subset
    visible_agent_loop_proto.Prelude.find
published_cancels = refl

pub interrupted_cancels : is_accepted (reduce interrupted cancel authority) ≡ true
unfolding visible_agent_loop_proto.Kernel.Reduce.inputs_are_valid
    visible_agent_loop_proto.Kernel.Reduce.conclude
    visible_agent_loop_proto.Kernel.Reduce.reduce_new
    visible_agent_loop_proto.Kernel.Reduce.reduce_known
    visible_agent_loop_proto.Kernel.Reduce.reduce
    visible_agent_loop_proto.Kernel.Validity.accepted_event_is_valid
    visible_agent_loop_proto.Kernel.Validity.attempt_is_valid
    visible_agent_loop_proto.Kernel.Validity.item_fields_are_valid
    visible_agent_loop_proto.Kernel.Validity.item_attempt_is_valid
    visible_agent_loop_proto.Kernel.Validity.work_item_is_valid
    visible_agent_loop_proto.Kernel.Validity.suspension_is_valid
    visible_agent_loop_proto.Kernel.Validity.control_is_valid
    visible_agent_loop_proto.Kernel.Validity.state_header_is_valid
    visible_agent_loop_proto.Kernel.Validity.state_is_valid
    visible_agent_loop_proto.Kernel.Validity.event_header_is_valid
    visible_agent_loop_proto.Kernel.Validity.work_fields_are_valid
    visible_agent_loop_proto.Kernel.Validity.wait_fields_are_valid
    visible_agent_loop_proto.Kernel.Validity.control_fields_are_valid
    visible_agent_loop_proto.Kernel.Validity.event_is_valid
    visible_agent_loop_proto.Kernel.Validity.evidence_set_is_valid
    visible_agent_loop_proto.Kernel.Authority.authority_is_valid
    visible_agent_loop_proto.Kernel.Authority.cancelled_work_item
    visible_agent_loop_proto.Kernel.Authority.dict_get
    visible_agent_loop_proto.Kernel.Authority.eligible_from
    visible_agent_loop_proto.Kernel.Authority.eligible_work_item
    visible_agent_loop_proto.Kernel.Authority.same_attempt
    visible_agent_loop_proto.Kernel.Authority.attempt_event_is_stale
    visible_agent_loop_proto.Kernel.Branches.branch
    visible_agent_loop_proto.Kernel.Outcomes.refuse_if
    visible_agent_loop_proto.Kernel.Outcomes.attribute_of
    visible_agent_loop_proto.Kernel.ControlEvents.interrupt_requested
    visible_agent_loop_proto.Kernel.ControlEvents.interrupt_resumed
    visible_agent_loop_proto.Kernel.ControlEvents.cancel_where
    visible_agent_loop_proto.Kernel.ControlEvents.redirect_authorized
    visible_agent_loop_proto.Kernel.ControlEvents.task_cancelled
    visible_agent_loop_proto.Kernel.WaitEvents.suspension_started
    visible_agent_loop_proto.Kernel.WaitEvents.some_incomplete
    visible_agent_loop_proto.Kernel.WaitEvents.wake_accepted
    visible_agent_loop_proto.Kernel.ItemEvents.item_index
    visible_agent_loop_proto.Kernel.ItemEvents.replace_at
    visible_agent_loop_proto.Kernel.ItemEvents.on_item
    visible_agent_loop_proto.Kernel.ItemEvents.eligible_step
    visible_agent_loop_proto.Kernel.ItemEvents.work_item_eligible
    visible_agent_loop_proto.Kernel.ItemEvents.is_required_by_any
    visible_agent_loop_proto.Kernel.ItemEvents.cancellation_is_malformed
    visible_agent_loop_proto.Kernel.ItemEvents.skip_is_refused
    visible_agent_loop_proto.Kernel.ItemEvents.item_step
    visible_agent_loop_proto.Kernel.ItemEvents.work_item_event
    visible_agent_loop_proto.Kernel.Transitions.task_transition
    visible_agent_loop_proto.Kernel.Acceptance.accept
    visible_agent_loop_proto.Kernel.Digests.is_digest visible_agent_loop_proto.Kernel.Digests.codes
    visible_agent_loop_proto.Kernel.Identities.new_identity visible_agent_loop_proto.Prelude.all
    visible_agent_loop_proto.Prelude.any visible_agent_loop_proto.Prelude.contains
    visible_agent_loop_proto.Prelude.is_distinct visible_agent_loop_proto.Prelude.is_subset
    visible_agent_loop_proto.Prelude.find
interrupted_cancels = refl

pub suspended_wakes : is_accepted (reduce suspended wake []) ≡ true
unfolding visible_agent_loop_proto.Kernel.Reduce.inputs_are_valid
    visible_agent_loop_proto.Kernel.Reduce.conclude
    visible_agent_loop_proto.Kernel.Reduce.reduce_new
    visible_agent_loop_proto.Kernel.Reduce.reduce_known
    visible_agent_loop_proto.Kernel.Reduce.reduce
    visible_agent_loop_proto.Kernel.Validity.accepted_event_is_valid
    visible_agent_loop_proto.Kernel.Validity.attempt_is_valid
    visible_agent_loop_proto.Kernel.Validity.item_fields_are_valid
    visible_agent_loop_proto.Kernel.Validity.item_attempt_is_valid
    visible_agent_loop_proto.Kernel.Validity.work_item_is_valid
    visible_agent_loop_proto.Kernel.Validity.suspension_is_valid
    visible_agent_loop_proto.Kernel.Validity.control_is_valid
    visible_agent_loop_proto.Kernel.Validity.state_header_is_valid
    visible_agent_loop_proto.Kernel.Validity.state_is_valid
    visible_agent_loop_proto.Kernel.Validity.event_header_is_valid
    visible_agent_loop_proto.Kernel.Validity.work_fields_are_valid
    visible_agent_loop_proto.Kernel.Validity.wait_fields_are_valid
    visible_agent_loop_proto.Kernel.Validity.control_fields_are_valid
    visible_agent_loop_proto.Kernel.Validity.event_is_valid
    visible_agent_loop_proto.Kernel.Validity.evidence_set_is_valid
    visible_agent_loop_proto.Kernel.Authority.authority_is_valid
    visible_agent_loop_proto.Kernel.Authority.cancelled_work_item
    visible_agent_loop_proto.Kernel.Authority.dict_get
    visible_agent_loop_proto.Kernel.Authority.eligible_from
    visible_agent_loop_proto.Kernel.Authority.eligible_work_item
    visible_agent_loop_proto.Kernel.Authority.same_attempt
    visible_agent_loop_proto.Kernel.Authority.attempt_event_is_stale
    visible_agent_loop_proto.Kernel.Branches.branch
    visible_agent_loop_proto.Kernel.Outcomes.refuse_if
    visible_agent_loop_proto.Kernel.Outcomes.attribute_of
    visible_agent_loop_proto.Kernel.ControlEvents.interrupt_requested
    visible_agent_loop_proto.Kernel.ControlEvents.interrupt_resumed
    visible_agent_loop_proto.Kernel.ControlEvents.cancel_where
    visible_agent_loop_proto.Kernel.ControlEvents.redirect_authorized
    visible_agent_loop_proto.Kernel.ControlEvents.task_cancelled
    visible_agent_loop_proto.Kernel.WaitEvents.suspension_started
    visible_agent_loop_proto.Kernel.WaitEvents.some_incomplete
    visible_agent_loop_proto.Kernel.WaitEvents.wake_accepted
    visible_agent_loop_proto.Kernel.ItemEvents.item_index
    visible_agent_loop_proto.Kernel.ItemEvents.replace_at
    visible_agent_loop_proto.Kernel.ItemEvents.on_item
    visible_agent_loop_proto.Kernel.ItemEvents.eligible_step
    visible_agent_loop_proto.Kernel.ItemEvents.work_item_eligible
    visible_agent_loop_proto.Kernel.ItemEvents.is_required_by_any
    visible_agent_loop_proto.Kernel.ItemEvents.cancellation_is_malformed
    visible_agent_loop_proto.Kernel.ItemEvents.skip_is_refused
    visible_agent_loop_proto.Kernel.ItemEvents.item_step
    visible_agent_loop_proto.Kernel.ItemEvents.work_item_event
    visible_agent_loop_proto.Kernel.Transitions.task_transition
    visible_agent_loop_proto.Kernel.Acceptance.accept
    visible_agent_loop_proto.Kernel.Digests.is_digest visible_agent_loop_proto.Kernel.Digests.codes
    visible_agent_loop_proto.Kernel.Identities.new_identity visible_agent_loop_proto.Prelude.all
    visible_agent_loop_proto.Prelude.any visible_agent_loop_proto.Prelude.contains
    visible_agent_loop_proto.Prelude.is_distinct visible_agent_loop_proto.Prelude.is_subset
    visible_agent_loop_proto.Prelude.find
suspended_wakes = refl

pub done_fails : is_accepted (reduce (later TaskStatus.done) failure []) ≡ true
unfolding visible_agent_loop_proto.Kernel.Reduce.inputs_are_valid
    visible_agent_loop_proto.Kernel.Reduce.conclude
    visible_agent_loop_proto.Kernel.Reduce.reduce_new
    visible_agent_loop_proto.Kernel.Reduce.reduce_known
    visible_agent_loop_proto.Kernel.Reduce.reduce
    visible_agent_loop_proto.Kernel.Validity.accepted_event_is_valid
    visible_agent_loop_proto.Kernel.Validity.attempt_is_valid
    visible_agent_loop_proto.Kernel.Validity.item_fields_are_valid
    visible_agent_loop_proto.Kernel.Validity.item_attempt_is_valid
    visible_agent_loop_proto.Kernel.Validity.work_item_is_valid
    visible_agent_loop_proto.Kernel.Validity.suspension_is_valid
    visible_agent_loop_proto.Kernel.Validity.control_is_valid
    visible_agent_loop_proto.Kernel.Validity.state_header_is_valid
    visible_agent_loop_proto.Kernel.Validity.state_is_valid
    visible_agent_loop_proto.Kernel.Validity.event_header_is_valid
    visible_agent_loop_proto.Kernel.Validity.work_fields_are_valid
    visible_agent_loop_proto.Kernel.Validity.wait_fields_are_valid
    visible_agent_loop_proto.Kernel.Validity.control_fields_are_valid
    visible_agent_loop_proto.Kernel.Validity.event_is_valid
    visible_agent_loop_proto.Kernel.Validity.evidence_set_is_valid
    visible_agent_loop_proto.Kernel.Authority.authority_is_valid
    visible_agent_loop_proto.Kernel.Authority.cancelled_work_item
    visible_agent_loop_proto.Kernel.Authority.dict_get
    visible_agent_loop_proto.Kernel.Authority.eligible_from
    visible_agent_loop_proto.Kernel.Authority.eligible_work_item
    visible_agent_loop_proto.Kernel.Authority.same_attempt
    visible_agent_loop_proto.Kernel.Authority.attempt_event_is_stale
    visible_agent_loop_proto.Kernel.Branches.branch
    visible_agent_loop_proto.Kernel.Outcomes.refuse_if
    visible_agent_loop_proto.Kernel.Outcomes.attribute_of
    visible_agent_loop_proto.Kernel.ControlEvents.interrupt_requested
    visible_agent_loop_proto.Kernel.ControlEvents.interrupt_resumed
    visible_agent_loop_proto.Kernel.ControlEvents.cancel_where
    visible_agent_loop_proto.Kernel.ControlEvents.redirect_authorized
    visible_agent_loop_proto.Kernel.ControlEvents.task_cancelled
    visible_agent_loop_proto.Kernel.WaitEvents.suspension_started
    visible_agent_loop_proto.Kernel.WaitEvents.some_incomplete
    visible_agent_loop_proto.Kernel.WaitEvents.wake_accepted
    visible_agent_loop_proto.Kernel.ItemEvents.item_index
    visible_agent_loop_proto.Kernel.ItemEvents.replace_at
    visible_agent_loop_proto.Kernel.ItemEvents.on_item
    visible_agent_loop_proto.Kernel.ItemEvents.eligible_step
    visible_agent_loop_proto.Kernel.ItemEvents.work_item_eligible
    visible_agent_loop_proto.Kernel.ItemEvents.is_required_by_any
    visible_agent_loop_proto.Kernel.ItemEvents.cancellation_is_malformed
    visible_agent_loop_proto.Kernel.ItemEvents.skip_is_refused
    visible_agent_loop_proto.Kernel.ItemEvents.item_step
    visible_agent_loop_proto.Kernel.ItemEvents.work_item_event
    visible_agent_loop_proto.Kernel.Transitions.task_transition
    visible_agent_loop_proto.Kernel.Acceptance.accept
    visible_agent_loop_proto.Kernel.Digests.is_digest visible_agent_loop_proto.Kernel.Digests.codes
    visible_agent_loop_proto.Kernel.Identities.new_identity visible_agent_loop_proto.Prelude.all
    visible_agent_loop_proto.Prelude.any visible_agent_loop_proto.Prelude.contains
    visible_agent_loop_proto.Prelude.is_distinct visible_agent_loop_proto.Prelude.is_subset
    visible_agent_loop_proto.Prelude.find
done_fails = refl
