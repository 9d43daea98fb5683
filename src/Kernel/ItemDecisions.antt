-- ===== src/Kernel/ItemDecisions.antt =====
-- The branches of `reduce` for one work item, read backwards: the events about the item itself.
use visible_agent_loop_proto.Prelude.{
  ℕ, Bool, true, false, Option, none, some, ◌≡◌, refl, arith, contains, int_eq, option_eq, or_left,
  not-false, sym, inl, inr, Bool-cases,
}
use visible_agent_loop_proto.Kernel.TaskStatuses.{TaskStatus}
use visible_agent_loop_proto.Kernel.WorkStatuses.{
  WorkItemStatus, AttemptStatus, work_item_status_eq, attempt_status_eq,
}
use visible_agent_loop_proto.Kernel.EventKinds.{EventKind}
use visible_agent_loop_proto.Kernel.Identities.{identity_eq}
use visible_agent_loop_proto.Kernel.WorkItems.{Attempt, WorkItem}
use visible_agent_loop_proto.Kernel.States.{State}
use visible_agent_loop_proto.Kernel.Events.{Event}
use visible_agent_loop_proto.Kernel.Authority.{is_open, cancelled_attempt}
use visible_agent_loop_proto.Kernel.Outcomes.{Change, changed, refuse_if-changed}
use visible_agent_loop_proto.Kernel.ItemEvents.{
  allowed, targets, item_step, work_item_event, is_cancellation,
}
use visible_agent_loop_proto.Kernel.ItemMoves.{
  AttemptMove, Moves, Steps, item_edge, kept, moved, on_item-Moves,
}
use visible_agent_loop_proto.Kernel.AttemptDecisions.{Steps-of_change, either_change}

-- The kinds of the branch for the end of a work item.
abbrev pub is_item_kind : EventKind → Bool
is_item_kind EventKind.work_item_partial = true
is_item_kind EventKind.work_item_degraded = true
is_item_kind EventKind.work_item_blocked = true
is_item_kind EventKind.work_item_failed = true
is_item_kind EventKind.work_item_cancelled = true
is_item_kind EventKind.work_item_skipped = true
is_item_kind _ = false

allowed-edge :
    (kind : EventKind) (s : WorkItemStatus)
    → is_item_kind kind ≡ true
    → allowed kind s ≡ true
    → item_edge kind s (targets kind) ≡ true
unfolding contains
allowed-edge EventKind.work_item_partial s k h = ground arith
allowed-edge EventKind.work_item_degraded s k h = ground arith
allowed-edge EventKind.work_item_blocked s k h = ground arith
allowed-edge EventKind.work_item_failed s k h = ground arith
allowed-edge EventKind.work_item_cancelled s k h = ground arith
allowed-edge EventKind.work_item_skipped s k h = ground arith
allowed-edge _ s k h = cc

cancelled-target :
    (kind : EventKind) → is_cancellation kind ≡ true → targets kind ≡ WorkItemStatus.cancelled
cancelled-target EventKind.work_item_cancelled h = refl
cancelled-target _ h = cc

pub cancelled_attempt-AttemptMove :
    (state : State) (event : Event) (item : WorkItem) (o : Option Attempt)
    → item.current_attempt ≡ o
    → AttemptMove state event item (cancelled_attempt o)
cancelled_attempt-AttemptMove state event item none e = kept (sym e)
cancelled_attempt-AttemptMove state event item (some a) e = elim (Bool-cases (is_open a.status)) [
  | inl y ↦ moved a AttemptStatus.cancelled e y (rw y)
  | inr n ↦ kept (rw n (sym e))
]

item_step-Steps :
    (kind : EventKind) (status : TaskStatus) (state : State) (event : Event) (i : ℕ)
    (item : WorkItem) (c : Change)
    → is_item_kind kind ≡ true
    → item_step kind status state event i item ≡ changed c
    → Steps kind status state event i item c
unfolding item_step
item_step-Steps kind status state event i item c k h =
    let (g, h1) = refuse_if-changed _ _ c h in
    let (g', h2) = refuse_if-changed _ _ c h1 in
    let edge = allowed-edge kind item.status k (not-false _ (or_left _ _ g')) in
    elim (either_change _ _ _ _ c h2) [
      | inl (b, p, e') ↦
          Steps-of_change kind status state event i item WorkItemStatus.cancelled
            (cancelled_attempt item.current_attempt) _ _ c (rw (cancelled-target kind b) at edge)
            (cancelled_attempt-AttemptMove state event item item.current_attempt refl) e'
      | inr (b, e') ↦
          Steps-of_change kind status state event i item (targets kind) item.current_attempt _ _ c
            edge (kept refl) e'
    ]

pub work_item_event-Moves :
    (kind : EventKind) (status : TaskStatus) (state : State) (event : Event) (c : Change)
    → is_item_kind kind ≡ true
    → work_item_event kind status state event ≡ changed c
    → Moves kind status state event c
unfolding work_item_event
work_item_event-Moves kind status state event c k h =
    on_item-Moves kind status state event (item_step kind status state event) c
      (λ i item h1. item_step-Steps kind status state event i item c k h1) h
