-- ===== src/Kernel/Branches.antt =====
-- valp_cli/protocol_kernel.py, `reduce`: the choice of a branch by the kind of event, and what becomes
-- of a suspension.
use visible_agent_loop_proto.Prelude.{
  Bool, true, false, not, Option, none, some, [], ◌&&◌, ◌==◌, int_eq, string_eq, if◌then◌else◌,
}
use visible_agent_loop_proto.Kernel.TaskStatuses.{TaskStatus, task_status_eq}
use visible_agent_loop_proto.Kernel.ControlWords.{
  SuspensionStatus, suspension_status_eq, control_status_eq,
}
use visible_agent_loop_proto.Kernel.EventKinds.{EventKind}
use visible_agent_loop_proto.Kernel.Identities.{identity_eq}
use visible_agent_loop_proto.Kernel.States.{Suspension, State}
use visible_agent_loop_proto.Kernel.Events.{Event}
use visible_agent_loop_proto.Kernel.Transitions.{task_transition}
use visible_agent_loop_proto.Kernel.Outcomes.{Branch, changed}
use visible_agent_loop_proto.Kernel.ControlEvents.{
  interrupt_requested, interrupt_resumed, redirect_authorized, task_cancelled,
}
use visible_agent_loop_proto.Kernel.WaitEvents.{suspension_started, wake_accepted}
use visible_agent_loop_proto.Kernel.ItemEvents.{work_item_eligible, work_item_event}
use visible_agent_loop_proto.Kernel.AttemptEvents.{attempt_created, attempt_fenced, attempt_event}

-- The last `else`: a task event changes nothing but the status.
abbrev pub task_event : EventKind → TaskStatus → State → Branch
task_event kind status state = changed (record {
  target_status = task_transition status kind;
  work_items = state.work_items;
  suspension = state.suspension;
  control = state.control;
  obligations = [];
  audit_facts = [];
})

-- The chain of tests on `event.kind`.
unfoldable pub branch : EventKind → TaskStatus → State → Event → Branch
branch EventKind.interrupt_requested status state event = interrupt_requested status state event
branch EventKind.interrupt_resumed status state event = interrupt_resumed status state event
branch EventKind.redirect_authorized status state event = redirect_authorized status state event
branch EventKind.task_cancelled status state event = task_cancelled status state event
branch EventKind.suspension_started status state event = suspension_started status state event
branch EventKind.wake_accepted status state event = wake_accepted status state event
branch EventKind.work_item_eligible status state event = work_item_eligible status state event
branch EventKind.attempt_created status state event = attempt_created status state event
branch EventKind.attempt_fenced status state event = attempt_fenced status state event
branch EventKind.attempt_submitted status state event =
    attempt_event EventKind.attempt_submitted status state event
branch EventKind.attempt_running status state event =
    attempt_event EventKind.attempt_running status state event
branch EventKind.attempt_completed status state event =
    attempt_event EventKind.attempt_completed status state event
branch EventKind.attempt_failed status state event =
    attempt_event EventKind.attempt_failed status state event
branch EventKind.attempt_cancelled status state event =
    attempt_event EventKind.attempt_cancelled status state event
branch EventKind.work_item_partial status state event =
    work_item_event EventKind.work_item_partial status state event
branch EventKind.work_item_degraded status state event =
    work_item_event EventKind.work_item_degraded status state event
branch EventKind.work_item_blocked status state event =
    work_item_event EventKind.work_item_blocked status state event
branch EventKind.work_item_failed status state event =
    work_item_event EventKind.work_item_failed status state event
branch EventKind.work_item_cancelled status state event =
    work_item_event EventKind.work_item_cancelled status state event
branch EventKind.work_item_skipped status state event =
    work_item_event EventKind.work_item_skipped status state event
branch kind status state event = task_event kind status state

-- The kinds that an interrupted task still takes.
abbrev pub passes_interrupt : EventKind → Bool
passes_interrupt EventKind.interrupt_resumed = true
passes_interrupt EventKind.redirect_authorized = true
passes_interrupt EventKind.task_cancelled = true
passes_interrupt EventKind.task_failed = true
passes_interrupt _ = false

-- The kinds that may end a wait.
abbrev pub ends_wait : EventKind → Bool
ends_wait EventKind.task_blocked = true
ends_wait EventKind.task_failed = true
ends_wait EventKind.task_cancelled = true
ends_wait _ = false

-- What becomes of the suspension when the status changes; `none` is a conflict.
abbrev pub settled : EventKind → Bool → Option Suspension → Option (Option Suspension)
settled kind moves none = some none
settled kind moves (some s) =
    if moves
    then if s.status == SuspensionStatus.waiting && not (ends_wait kind) then none else some none
    else some (some s)
