-- ===== src/Kernel/Transitions.antt =====
-- valp_cli/protocol_kernel.py: `KERNEL_TASK_TRANSITIONS`, and the sets of statuses that `reduce` names.
use visible_agent_loop_proto.Prelude.{Bool, true, false, Option, none, some, if◌then◌else◌}
use visible_agent_loop_proto.Kernel.TaskStatuses.{TaskStatus}
use visible_agent_loop_proto.Kernel.WorkStatuses.{WorkItemStatus}
use visible_agent_loop_proto.Kernel.EventKinds.{EventKind}

-- `status in {DONE, FAILED, CANCELLED}`
abbrev pub is_terminal : TaskStatus → Bool
is_terminal TaskStatus.done = true
is_terminal TaskStatus.failed = true
is_terminal TaskStatus.cancelled = true
is_terminal _ = false

-- `status in terminal_work_items`
abbrev pub is_terminal_item : WorkItemStatus → Bool
is_terminal_item WorkItemStatus.completed = true
is_terminal_item WorkItemStatus.partial = true
is_terminal_item WorkItemStatus.degraded = true
is_terminal_item WorkItemStatus.failed = true
is_terminal_item WorkItemStatus.cancelled = true
is_terminal_item WorkItemStatus.skipped = true
is_terminal_item _ = false

-- `KERNEL_TASK_TRANSITIONS.get((status, kind))`
unfoldable pub task_transition : TaskStatus → EventKind → Option TaskStatus
task_transition TaskStatus.published EventKind.routing_validation_started =
    some TaskStatus.routing_validation
task_transition TaskStatus.routing_validation EventKind.routing_validation_passed =
    some TaskStatus.dispatching
task_transition TaskStatus.dispatching EventKind.dispatch_accepted = some TaskStatus.executing
task_transition TaskStatus.executing EventKind.work_completed = some TaskStatus.verifying
task_transition TaskStatus.verifying EventKind.verification_passed = some TaskStatus.reviewing
task_transition TaskStatus.verifying EventKind.verification_failed = some TaskStatus.fixing
task_transition TaskStatus.reviewing EventKind.review_passed = some TaskStatus.recording
task_transition TaskStatus.reviewing EventKind.review_rejected = some TaskStatus.fixing
task_transition TaskStatus.reviewing EventKind.approval_required_raised =
    some TaskStatus.approval_required
task_transition TaskStatus.fixing EventKind.fix_dispatch_requested = some TaskStatus.dispatching
task_transition TaskStatus.approval_required EventKind.approval_granted = some TaskStatus.recording
task_transition TaskStatus.approval_required EventKind.approval_denied = some TaskStatus.fixing
task_transition TaskStatus.recording EventKind.recording_completed = some TaskStatus.done
task_transition TaskStatus.executing EventKind.task_blocked = some TaskStatus.blocked
task_transition TaskStatus.verifying EventKind.task_blocked = some TaskStatus.blocked
task_transition TaskStatus.reviewing EventKind.task_blocked = some TaskStatus.blocked
task_transition TaskStatus.fixing EventKind.task_blocked = some TaskStatus.blocked
task_transition TaskStatus.blocked EventKind.blocked_recovery_to_fixing = some TaskStatus.fixing
task_transition status EventKind.task_failed =
    if is_terminal status then none else some TaskStatus.failed
task_transition status EventKind.task_cancelled =
    if is_terminal status then none else some TaskStatus.cancelled
task_transition _ _ = none
