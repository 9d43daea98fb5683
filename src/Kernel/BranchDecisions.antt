-- ===== src/Kernel/BranchDecisions.antt =====
-- What the branch of an event decided on, for every kind of event.
use visible_agent_loop_proto.Prelude.{◌≡◌, refl, arith, []}
use visible_agent_loop_proto.Kernel.TaskStatuses.{TaskStatus}
use visible_agent_loop_proto.Kernel.EventKinds.{EventKind}
use visible_agent_loop_proto.Kernel.States.{State}
use visible_agent_loop_proto.Kernel.Events.{Event}
use visible_agent_loop_proto.Kernel.Transitions.{task_transition}
use visible_agent_loop_proto.Kernel.Outcomes.{Change, changed}
use visible_agent_loop_proto.Kernel.Branches.{branch, task_event}
use visible_agent_loop_proto.Kernel.Decisions.{
  Interrupts, interrupt_requested-Interrupts, Resumes, interrupt_resumed-Resumes, Redirects,
  redirect_authorized-Redirects, Cancels, task_cancelled-Cancels,
}
use visible_agent_loop_proto.Kernel.WaitDecisions.{
  Suspends, suspension_started-Suspends, Wakes, wake_accepted-Wakes,
}
use visible_agent_loop_proto.Kernel.ItemMoves.{Moves, work_item_eligible-Moves}
use visible_agent_loop_proto.Kernel.AttemptDecisions.{
  attempt_created-Moves, attempt_fenced-Moves, attempt_event-Moves,
}
use visible_agent_loop_proto.Kernel.ItemDecisions.{work_item_event-Moves}

-- A task event changes the status alone.
pub record Proceeds (kind : EventKind) (status : TaskStatus) (state : State) (c : Change)
    : Type 0 where
  pub target : c.target_status ≡ task_transition status kind
  pub items : c.work_items ≡ state.work_items
  pub suspension : c.suspension ≡ state.suspension
  pub control : c.control ≡ state.control
  pub obligations : c.obligations ≡ []

pub data Decision (kind : EventKind) (status : TaskStatus) (state : State) (event : Event)
    (c : Change) : Type 0 where
  interrupts :
      kind ≡ EventKind.interrupt_requested
      → Interrupts status state event c
      → Decision kind status state event c
  resumes :
      kind ≡ EventKind.interrupt_resumed
      → Resumes status state event c
      → Decision kind status state event c
  redirects :
      kind ≡ EventKind.redirect_authorized
      → Redirects status state event c
      → Decision kind status state event c
  cancels :
      kind ≡ EventKind.task_cancelled
      → Cancels status state event c
      → Decision kind status state event c
  suspends :
      kind ≡ EventKind.suspension_started
      → Suspends status state event c
      → Decision kind status state event c
  wakes :
      kind ≡ EventKind.wake_accepted
      → Wakes status state event c
      → Decision kind status state event c
  moves : Moves kind status state event c → Decision kind status state event c
  proceeds : Proceeds kind status state c → Decision kind status state event c

proceeds_of :
    (kind : EventKind) (status : TaskStatus) (state : State) (event : Event) (c : Change)
    → task_event kind status state ≡ changed c
    → Decision kind status state event c
proceeds_of kind status state event c h = proceeds (record {
  target = ground arith;
  items = ground arith;
  suspension = ground arith;
  control = ground arith;
  obligations = ground arith;
})

pub branch-Decision :
    (kind : EventKind) (status : TaskStatus) (state : State) (event : Event) (c : Change)
    → branch kind status state event ≡ changed c
    → Decision kind status state event c
unfolding branch
branch-Decision EventKind.interrupt_requested status state event c h =
    interrupts refl (interrupt_requested-Interrupts status state event c h)
branch-Decision EventKind.interrupt_resumed status state event c h =
    resumes refl (interrupt_resumed-Resumes status state event c h)
branch-Decision EventKind.redirect_authorized status state event c h =
    redirects refl (redirect_authorized-Redirects status state event c h)
branch-Decision EventKind.task_cancelled status state event c h =
    cancels refl (task_cancelled-Cancels status state event c h)
branch-Decision EventKind.suspension_started status state event c h =
    suspends refl (suspension_started-Suspends status state event c h)
branch-Decision EventKind.wake_accepted status state event c h =
    wakes refl (wake_accepted-Wakes status state event c h)
branch-Decision EventKind.work_item_eligible status state event c h =
    moves (work_item_eligible-Moves status state event c h)
branch-Decision EventKind.attempt_created status state event c h =
    moves (attempt_created-Moves status state event c h)
branch-Decision EventKind.attempt_fenced status state event c h =
    moves (attempt_fenced-Moves status state event c h)
branch-Decision EventKind.attempt_submitted status state event c h =
    moves (attempt_event-Moves EventKind.attempt_submitted status state event c refl h)
branch-Decision EventKind.attempt_running status state event c h =
    moves (attempt_event-Moves EventKind.attempt_running status state event c refl h)
branch-Decision EventKind.attempt_completed status state event c h =
    moves (attempt_event-Moves EventKind.attempt_completed status state event c refl h)
branch-Decision EventKind.attempt_failed status state event c h =
    moves (attempt_event-Moves EventKind.attempt_failed status state event c refl h)
branch-Decision EventKind.attempt_cancelled status state event c h =
    moves (attempt_event-Moves EventKind.attempt_cancelled status state event c refl h)
branch-Decision EventKind.work_item_partial status state event c h =
    moves (work_item_event-Moves EventKind.work_item_partial status state event c refl h)
branch-Decision EventKind.work_item_degraded status state event c h =
    moves (work_item_event-Moves EventKind.work_item_degraded status state event c refl h)
branch-Decision EventKind.work_item_blocked status state event c h =
    moves (work_item_event-Moves EventKind.work_item_blocked status state event c refl h)
branch-Decision EventKind.work_item_failed status state event c h =
    moves (work_item_event-Moves EventKind.work_item_failed status state event c refl h)
branch-Decision EventKind.work_item_cancelled status state event c h =
    moves (work_item_event-Moves EventKind.work_item_cancelled status state event c refl h)
branch-Decision EventKind.work_item_skipped status state event c h =
    moves (work_item_event-Moves EventKind.work_item_skipped status state event c refl h)
branch-Decision kind status state event c h = proceeds_of kind status state event c h
