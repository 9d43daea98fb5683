-- ===== src/Kernel/SoundChanges.antt =====
-- The changes that the branches of `reduce` decide on: in a valid state with a valid event, the work
-- items, the suspension and the control that they assign are valid.
use visible_agent_loop_proto.Kernel.Indexing.{
  work_item_ids-replace_at, all-replace_at, all-get_elem?,
}
use visible_agent_loop_proto.Kernel.BranchDecisions.{
  Decision, interrupts, resumes, redirects, cancels, suspends, wakes, moves, proceeds,
}
use visible_agent_loop_proto.Kernel.ItemMoves.{Moves}
use visible_agent_loop_proto.Kernel.WaitDecisions.{Suspends, Wakes}
use visible_agent_loop_proto.Kernel.EventKinds.{EventKind}
use visible_agent_loop_proto.Prelude.{
  ℤ, Bool, true, Option, none, some, ◌≡◌, refl, all, arith, ap, ◌==◌, int_eq, option_eq, list_eq,
  string_eq, is_none, List, false,
}
use visible_agent_loop_proto.Kernel.IdentityKinds.{identity_kind_eq, IdentityKind}
use visible_agent_loop_proto.Kernel.TaskStatuses.{TaskStatus, task_status_eq}
use visible_agent_loop_proto.Kernel.ControlWords.{
  wake_reason_eq, suspension_status_eq, ControlStatus, control_status_eq, SuspensionStatus,
  WakeReason,
}
use visible_agent_loop_proto.Kernel.Words.{known}
use visible_agent_loop_proto.Kernel.Identities.{Identity, identity_eq, identity_iff, absent_or_kind}
use visible_agent_loop_proto.Kernel.WorkItems.{WorkItem}
use visible_agent_loop_proto.Kernel.States.{ControlState, State, Suspension}
use visible_agent_loop_proto.Kernel.Events.{Event}
use visible_agent_loop_proto.Kernel.Validity.{
  absent_or, work_item_is_valid, work_item_ids, suspension_is_valid, control_is_valid,
  control_fields_are_valid, of_kind, wait_fields_are_valid, work_fields_are_valid,
}
use visible_agent_loop_proto.Kernel.Outcomes.{Change}
use visible_agent_loop_proto.Kernel.ControlEvents.{current_control, cancel_where, is_invalidated}
use visible_agent_loop_proto.Kernel.Facts.{StateParts, EventParts}
use visible_agent_loop_proto.Kernel.Decisions.{active_control, is_unfinished}
use visible_agent_loop_proto.Kernel.SoundItems.{
  cancel_where-valid, work_item_ids-cancel_where, moved_item-valid,
}

-- What `_state_is_valid` asks of the parts that a change assigns.
pub record SoundChange (status : TaskStatus) (state : State) (c : Change) : Type 0 where
  pub items_valid : all (work_item_is_valid state.task_id) c.work_items ≡ true
  pub ids_kept : work_item_ids c.work_items ≡ work_item_ids state.work_items
  pub suspended_executing : absent_or (λ _. status == TaskStatus.executing) c.suspension ≡ true
  pub suspension_valid :
      absent_or (suspension_is_valid state.task_id (work_item_ids state.work_items)) c.suspension
      ≡ true
  pub control_valid : absent_or control_is_valid c.control ≡ true

executing_kept :
    (status : TaskStatus) (state : State)
    → state.status ≡ known status
    → StateParts state
    → absent_or (λ _. status == TaskStatus.executing) state.suspension ≡ true
executing_kept status state e p = rw e at p.suspended_executing

-- Work items, suspension and control that stay are valid.
of_same :
    (status : TaskStatus) (state : State) (c : Change)
    → state.status ≡ known status
    → StateParts state
    → c.work_items ≡ state.work_items
    → c.suspension ≡ state.suspension
    → absent_or control_is_valid c.control ≡ true
    → SoundChange status state c
of_same status state c e p i s k = record {
  items_valid = rw i p.items_valid;
  ids_kept = ap work_item_ids i;
  suspended_executing = rw s (executing_kept status state e p);
  suspension_valid = rw s p.suspension_valid;
  control_valid = k;
}

current_control-valid :
    (o : Option ControlState)
    → absent_or control_is_valid o ≡ true
    → control_is_valid (current_control o) ≡ true
unfolding control_is_valid
current_control-valid none h = refl
current_control-valid (some c) h = h

-- An active control is valid at any version that is.
active_control-valid :
    (c : ControlState)
    → control_is_valid c ≡ true
    → control_is_valid (active_control c.intent_version) ≡ true
unfolding control_is_valid
active_control-valid c h = ground arith

interrupted-valid :
    (c : ControlState) (event : Event) (i : Identity)
    → control_is_valid c ≡ true
    → control_fields_are_valid event ≡ true
    → event.interrupt_id ≡ some i
    → control_is_valid (record {
      intent_version = c.intent_version;
      status = ControlStatus.interrupted;
      active_interrupt_id = event.interrupt_id;
    })
      ≡ true
unfolding control_is_valid control_fields_are_valid
interrupted-valid c event i h f e = ground arith

next-valid :
    (event : Event) (n : ℤ)
    → control_fields_are_valid event ≡ true
    → event.next_intent_version ≡ some n
    → control_is_valid (active_control n) ≡ true
unfolding control_is_valid control_fields_are_valid
next-valid event n f e = ground arith

-- Cancelled work items, no suspension and an active control.
of_cancelled :
    (status : TaskStatus) (state : State) (c : Change) (chosen : WorkItem → Bool) (k : ControlState)
    → StateParts state
    → c.work_items ≡ (cancel_where chosen state.work_items).0
    → c.suspension ≡ none
    → c.control ≡ some k
    → control_is_valid k ≡ true
    → SoundChange status state c
of_cancelled status state c chosen k p i s e v = record {
  items_valid = rw i (cancel_where-valid state.task_id chosen state.work_items p.items_valid);
  ids_kept = rw i (work_item_ids-cancel_where chosen state.work_items);
  suspended_executing = rw s refl;
  suspension_valid = rw s refl;
  control_valid = rw e v;
}

started-valid :
    (status : TaskStatus) (state : State) (event : Event) (c : Change)
    → of_kind IdentityKind.task state.task_id ≡ true
    → wait_fields_are_valid event ≡ true
    → (p : Suspends status state event c)
    → suspension_is_valid state.task_id (work_item_ids state.work_items) p.started ≡ true
unfolding suspension_is_valid wait_fields_are_valid
started-valid status state event c k f p =
    let (w, r) = p.no_wake in
    ground (
      arith,
      p.required,
      p.required_some,
      p.required_distinct,
      p.required_known,
      p.names_suspension,
      p.names_epoch,
      p.names_policy,
      p.names_digest,
      p.waits,
      identity_iff p.started.task_id state.task_id,
      p.task,
    )

resumed-valid :
    (task : Identity) (ids : List Identity) (s : Suspension) (wake : Option Identity)
    → suspension_is_valid task ids s ≡ true
    → absent_or_kind wake IdentityKind.wake ≡ true
    → is_none wake ≡ false
    → suspension_is_valid task ids (record s {
      status = SuspensionStatus.resumed;
      accepted_wake_id = wake;
      wake_reason = some WakeReason.dependency_ready;
    })
      ≡ true
unfolding suspension_is_valid
resumed-valid task ids s none v k n = cc
resumed-valid task ids s (some w) v k n = ground arith

wake_named :
    (event : Event)
    → wait_fields_are_valid event ≡ true
    → absent_or_kind event.wake_id IdentityKind.wake ≡ true
unfolding wait_fields_are_valid
wake_named event f = ground arith

of_Suspends :
    (status : TaskStatus) (state : State) (event : Event) (c : Change)
    → StateParts state
    → of_kind IdentityKind.task state.task_id ≡ true
    → wait_fields_are_valid event ≡ true
    → Suspends status state event c
    → SoundChange status state c
of_Suspends status state event c p k f d = record {
  items_valid = rw d.items p.items_valid;
  ids_kept = ap work_item_ids d.items;
  suspended_executing = rw d.suspension (ground (arith, d.executing));
  suspension_valid = rw d.suspension (started-valid status state event c k f d);
  control_valid = rw d.control p.control_valid;
}

of_Wakes :
    (status : TaskStatus) (state : State) (event : Event) (c : Change)
    → StateParts state
    → wait_fields_are_valid event ≡ true
    → Wakes status state event c
    → SoundChange status state c
of_Wakes status state event c p f d = record {
  items_valid = rw d.items p.items_valid;
  ids_kept = ap work_item_ids d.items;
  suspended_executing = rw d.suspension (ground (arith, d.executing));
  suspension_valid = rw d.suspension (
      resumed-valid state.task_id (work_item_ids state.work_items) d.current event.wake_id
        (rw d.was_suspended at p.suspension_valid) (wake_named event f) d.names_wake);
  control_valid = rw d.control p.control_valid;
}

of_Moves :
    (kind : EventKind) (status : TaskStatus) (state : State) (event : Event) (c : Change)
    → state.status ≡ known status
    → StateParts state
    → of_kind IdentityKind.task state.task_id ≡ true
    → work_fields_are_valid event ≡ true
    → Moves kind status state event c
    → SoundChange status state c
of_Moves kind status state event c e p k f d =
    let next = record d.item { status = d.next_status; current_attempt = d.next_attempt } in
    let v =
      all-get_elem? (work_item_is_valid state.task_id) d.index state.work_items {item = d.item}
        p.items_valid d.found in
    record {
      items_valid = rw d.items (
          all-replace_at (work_item_is_valid state.task_id) d.index next state.work_items
            p.items_valid
            (moved_item-valid state event d.item d.next_status d.next_attempt k f v d.attempt));
      ids_kept =
          rw d.items
            (work_item_ids-replace_at d.index next state.work_items {item = d.item} d.found refl);
      suspended_executing = rw d.suspension (executing_kept status state e p);
      suspension_valid = rw d.suspension p.suspension_valid;
      control_valid = rw d.control p.control_valid;
    }

-- Every decision assigns valid parts.
pub Decision-SoundChange :
    (kind : EventKind) (status : TaskStatus) (state : State) (event : Event) (c : Change)
    → state.status ≡ known status
    → StateParts state
    → of_kind IdentityKind.task state.task_id ≡ true
    → EventParts event
    → Decision kind status state event c
    → SoundChange status state c
Decision-SoundChange kind status state event c e p k f (interrupts _ d) =
    let v = current_control-valid state.control p.control_valid in
    of_same status state c e p d.items d.suspension (
      rw d.control (
        interrupted-valid (current_control state.control) event d.interrupt v f.control
          d.names_interrupt))
Decision-SoundChange kind status state event c e p k f (resumes _ d) =
    let v = current_control-valid state.control p.control_valid in
    of_same status state c e p d.items d.suspension
      (rw d.control (active_control-valid (current_control state.control) v))
Decision-SoundChange kind status state event c e p k f (redirects _ d) =
    of_cancelled status state c (is_invalidated event) (active_control d.next) p d.items
      d.suspension d.control (next-valid event d.next f.control d.next_named)
Decision-SoundChange kind status state event c e p k f (cancels _ d) =
    let v = current_control-valid state.control p.control_valid in
    of_cancelled status state c is_unfinished
      (active_control (current_control state.control).intent_version) p d.items d.suspension
      d.control (active_control-valid (current_control state.control) v)
Decision-SoundChange kind status state event c e p k f (suspends _ d) =
    of_Suspends status state event c p k f.wait d
Decision-SoundChange kind status state event c e p k f (wakes _ d) =
    of_Wakes status state event c p f.wait d
Decision-SoundChange kind status state event c e p k f (moves d) =
    of_Moves kind status state event c e p k f.work d
Decision-SoundChange kind status state event c e p k f (proceeds d) =
    of_same status state c e p d.items d.suspension (rw d.control p.control_valid)
