-- ===== src/Kernel/EventKinds.antt =====
-- valp_cli/protocol_kernel.py: the kinds of event, and the error codes.
use visible_agent_loop_proto.Prelude.{String}

pub data EventKind : Type 0 where
  routing_validation_started routing_validation_passed dispatch_accepted work_completed
        verification_passed verification_failed review_passed review_rejected
        approval_required_raised fix_dispatch_requested approval_granted approval_denied
        recording_completed task_blocked blocked_recovery_to_fixing task_failed task_cancelled
        work_item_eligible attempt_created attempt_completed attempt_fenced attempt_submitted
        attempt_running attempt_failed attempt_cancelled work_item_partial work_item_degraded
        work_item_blocked work_item_failed work_item_cancelled work_item_skipped suspension_started
        wake_accepted interrupt_requested interrupt_resumed redirect_authorized :
      EventKind

unfoldable pub event_kind_value : EventKind → String
event_kind_value routing_validation_started = "routing_validation_started"
event_kind_value routing_validation_passed = "routing_validation_passed"
event_kind_value dispatch_accepted = "dispatch_accepted"
event_kind_value work_completed = "work_completed"
event_kind_value verification_passed = "verification_passed"
event_kind_value verification_failed = "verification_failed"
event_kind_value review_passed = "review_passed"
event_kind_value review_rejected = "review_rejected"
event_kind_value approval_required_raised = "approval_required_raised"
event_kind_value fix_dispatch_requested = "fix_dispatch_requested"
event_kind_value approval_granted = "approval_granted"
event_kind_value approval_denied = "approval_denied"
event_kind_value recording_completed = "recording_completed"
event_kind_value task_blocked = "task_blocked"
event_kind_value blocked_recovery_to_fixing = "blocked_recovery_to_fixing"
event_kind_value task_failed = "task_failed"
event_kind_value task_cancelled = "task_cancelled"
event_kind_value work_item_eligible = "work_item_eligible"
event_kind_value attempt_created = "attempt_created"
event_kind_value attempt_completed = "attempt_completed"
event_kind_value attempt_fenced = "attempt_fenced"
event_kind_value attempt_submitted = "attempt_submitted"
event_kind_value attempt_running = "attempt_running"
event_kind_value attempt_failed = "attempt_failed"
event_kind_value attempt_cancelled = "attempt_cancelled"
event_kind_value work_item_partial = "work_item_partial"
event_kind_value work_item_degraded = "work_item_degraded"
event_kind_value work_item_blocked = "work_item_blocked"
event_kind_value work_item_failed = "work_item_failed"
event_kind_value work_item_cancelled = "work_item_cancelled"
event_kind_value work_item_skipped = "work_item_skipped"
event_kind_value suspension_started = "suspension_started"
event_kind_value wake_accepted = "wake_accepted"
event_kind_value interrupt_requested = "interrupt_requested"
event_kind_value interrupt_resumed = "interrupt_resumed"
event_kind_value redirect_authorized = "redirect_authorized"

pub data ResultVariant : Type 0 where
  accepted no_op rejected : ResultVariant

unfoldable pub result_variant_value : ResultVariant → String
result_variant_value accepted = "accepted"
result_variant_value no_op = "no_op"
result_variant_value rejected = "rejected"

pub data KernelErrorCode : Type 0 where
  unknown_enum_value state_conflict idempotency_conflict : KernelErrorCode

unfoldable pub kernel_error_code_value : KernelErrorCode → String
kernel_error_code_value unknown_enum_value = "VALP-E-UNKNOWN-ENUM-VALUE"
kernel_error_code_value state_conflict = "VALP-E-STATE-CONFLICT"
kernel_error_code_value idempotency_conflict = "VALP-E-IDEMPOTENCY-CONFLICT"
