-- ===== src/Kernel/Decisions.antt =====
-- The branches of `reduce` for the control and the suspension of a task, read backwards: what a
-- change that they decide on shows, and what it assigns.
use visible_agent_loop_proto.Prelude.{
  ℤ, Bool, false, not, none, some, [], ◌≡◌, arith, add_one, ◌!=◌, int_eq, string_eq, option_eq,
  list_eq,
}
use visible_agent_loop_proto.Kernel.TaskStatuses.{TaskStatus, task_status_eq}
use visible_agent_loop_proto.Kernel.ControlWords.{
  ControlStatus, suspension_status_eq, control_status_eq,
}
use visible_agent_loop_proto.Kernel.EventKinds.{EventKind}
use visible_agent_loop_proto.Kernel.Identities.{Identity, identity_eq}
use visible_agent_loop_proto.Kernel.WorkItems.{WorkItem}
use visible_agent_loop_proto.Kernel.States.{ControlState, State}
use visible_agent_loop_proto.Kernel.Events.{Event}
use visible_agent_loop_proto.Kernel.Transitions.{is_terminal, is_terminal_item, task_transition}
use visible_agent_loop_proto.Kernel.Outcomes.{
  Change, changed, refuse_if-changed, attribute_of-changed,
}
use visible_agent_loop_proto.Kernel.ControlEvents.{
  current_control, cancel_where, is_invalidated, epoch_of, interrupt_requested, interrupt_resumed,
  redirect_authorized, task_cancelled,
}

abbrev pub active_control : ℤ → ControlState
active_control version = record {
  intent_version = version;
  status = ControlStatus.active;
  active_interrupt_id = none;
}

pub record Interrupts (status : TaskStatus) (state : State) (event : Event) (c : Change)
    : Type 0 where
  pub open_task : is_terminal status ≡ false
  pub was_active : ((current_control state.control).status != ControlStatus.active) ≡ false
  pub interrupt : Identity
  pub names_interrupt : event.interrupt_id ≡ some interrupt
  pub names_version :
      (event.intent_version != some (current_control state.control).intent_version) ≡ false
  pub target : c.target_status ≡ some status
  pub items : c.work_items ≡ state.work_items
  pub suspension : c.suspension ≡ state.suspension
  pub control :
      c.control
      ≡ some (record {
        intent_version = (current_control state.control).intent_version;
        status = ControlStatus.interrupted;
        active_interrupt_id = event.interrupt_id;
      })
  pub obligations : c.obligations ≡ []

pub interrupt_requested-Interrupts :
    (status : TaskStatus) (state : State) (event : Event) (c : Change)
    → interrupt_requested status state event ≡ changed c
    → Interrupts status state event c
unfolding interrupt_requested
interrupt_requested-Interrupts status state event c h =
    let (g, h1) = refuse_if-changed _ _ c h in
    let (i, ni, h2) = attribute_of-changed event.interrupt_id _ c h1 in
    let (p, np, h3) = attribute_of-changed event.authority_principal_id _ c h2 in
    record {
      open_task = ground arith;
      was_active = ground arith;
      interrupt = i;
      names_interrupt = ni;
      names_version = ground arith;
      target = ground arith;
      items = ground arith;
      suspension = ground arith;
      control = ground arith;
      obligations = ground arith;
    }

pub record Resumes (status : TaskStatus) (state : State) (event : Event) (c : Change) : Type 0 where
  pub was_interrupted :
      ((current_control state.control).status != ControlStatus.interrupted) ≡ false
  pub names_active :
      (event.interrupt_id != (current_control state.control).active_interrupt_id) ≡ false
  pub names_version :
      (event.intent_version != some (current_control state.control).intent_version) ≡ false
  pub target : c.target_status ≡ some status
  pub items : c.work_items ≡ state.work_items
  pub suspension : c.suspension ≡ state.suspension
  pub control : c.control ≡ some (active_control (current_control state.control).intent_version)
  pub obligations : c.obligations ≡ []

pub interrupt_resumed-Resumes :
    (status : TaskStatus) (state : State) (event : Event) (c : Change)
    → interrupt_resumed status state event ≡ changed c
    → Resumes status state event c
unfolding interrupt_resumed
interrupt_resumed-Resumes status state event c h =
    let (g, h1) = refuse_if-changed _ _ c h in
    let (i, ni, h2) = attribute_of-changed event.interrupt_id _ c h1 in
    let (p, np, h3) = attribute_of-changed event.authority_principal_id _ c h2 in
    record {
      was_interrupted = ground arith;
      names_active = ground arith;
      names_version = ground arith;
      target = ground arith;
      items = ground arith;
      suspension = ground arith;
      control = ground arith;
      obligations = ground arith;
    }

pub record Redirects (status : TaskStatus) (state : State) (event : Event) (c : Change)
    : Type 0 where
  pub open_task : is_terminal status ≡ false
  pub names_version :
      (event.intent_version != some (current_control state.control).intent_version) ≡ false
  pub names_next :
      (event.next_intent_version != some (add_one (current_control state.control).intent_version))
      ≡ false
  pub next : ℤ
  pub next_named : event.next_intent_version ≡ some next
  pub target : c.target_status ≡ some TaskStatus.fixing
  pub items : c.work_items ≡ (cancel_where (is_invalidated event) state.work_items).0
  pub suspension : c.suspension ≡ none
  pub control : c.control ≡ some (active_control next)
  pub obligations : c.obligations ≡ (cancel_where (is_invalidated event) state.work_items).1

pub redirect_authorized-Redirects :
    (status : TaskStatus) (state : State) (event : Event) (c : Change)
    → redirect_authorized status state event ≡ changed c
    → Redirects status state event c
unfolding redirect_authorized
redirect_authorized-Redirects status state event c h =
    let (g, h1) = refuse_if-changed _ _ c h in
    let (r, nr, h2) = attribute_of-changed event.redirect_id _ c h1 in
    let (p, np, h3) = attribute_of-changed event.authority_principal_id _ c h2 in
    let (n, nn, h4) = attribute_of-changed event.next_intent_version _ c h3 in
    record {
      open_task = ground arith;
      names_version = ground arith;
      names_next = ground arith;
      next = n;
      next_named = nn;
      target = ground arith;
      items = ground arith;
      suspension = ground arith;
      control = ground arith;
      obligations = ground arith;
    }

abbrev pub is_unfinished : WorkItem → Bool
is_unfinished item = not (is_terminal_item item.status)

pub record Cancels (status : TaskStatus) (state : State) (event : Event) (c : Change) : Type 0 where
  pub target : c.target_status ≡ task_transition status EventKind.task_cancelled
  pub names_epoch : (event.suspension_epoch != epoch_of state.suspension) ≡ false
  pub items : c.work_items ≡ (cancel_where is_unfinished state.work_items).0
  pub suspension : c.suspension ≡ none
  pub control : c.control ≡ some (active_control (current_control state.control).intent_version)
  pub obligations : c.obligations ≡ (cancel_where is_unfinished state.work_items).1

pub task_cancelled-Cancels :
    (status : TaskStatus) (state : State) (event : Event) (c : Change)
    → task_cancelled status state event ≡ changed c
    → Cancels status state event c
unfolding task_cancelled
task_cancelled-Cancels status state event c h =
    let (g, h1) = refuse_if-changed _ _ c h in
    let (p, np, h2) = attribute_of-changed event.authority_principal_id _ c h1 in
    record {
      target = ground arith;
      names_epoch = ground arith;
      items = ground arith;
      suspension = ground arith;
      control = ground arith;
      obligations = ground arith;
    }
