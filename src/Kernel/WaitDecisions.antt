-- ===== src/Kernel/WaitDecisions.antt =====
-- The branches of `reduce` for a suspension and its wake, read backwards: what a change that they
-- decide on shows, and what it assigns.
use visible_agent_loop_proto.Prelude.{
  true, false, Option, none, some, [], ◌≡◌, refl, arith, is_none, is_subset, is_distinct, ◌!=◌,
  int_eq, string_eq, option_eq, list_eq, or_left, or_right,
}
use visible_agent_loop_proto.Kernel.TaskStatuses.{TaskStatus, task_status_eq}
use visible_agent_loop_proto.Kernel.ControlWords.{
  SuspensionStatus, WakeReason, suspension_status_eq,
}
use visible_agent_loop_proto.Kernel.Identities.{identity_eq}
use visible_agent_loop_proto.Kernel.States.{Suspension, State}
use visible_agent_loop_proto.Kernel.Events.{Event}
use visible_agent_loop_proto.Kernel.Validity.{is_empty, work_item_ids}
use visible_agent_loop_proto.Kernel.Outcomes.{
  Change, changed, refuse_if-changed, attribute_of-changed,
}
use visible_agent_loop_proto.Kernel.WaitEvents.{
  misfits_prior, some_incomplete, suspension_started, wake_of, wake_accepted,
}

pub record Suspends (status : TaskStatus) (state : State) (event : Event) (c : Change)
    : Type 0 where
  pub executing : (status != TaskStatus.executing) ≡ false
  pub started : Suspension
  pub required : started.required_work_item_ids ≡ event.required_work_item_ids
  pub required_some : is_empty event.required_work_item_ids ≡ false
  pub required_distinct : is_distinct event.required_work_item_ids ≡ true
  pub required_known :
      is_subset event.required_work_item_ids (work_item_ids state.work_items) ≡ true
  pub task : started.task_id ≡ state.task_id
  pub names_suspension : event.suspension_id ≡ some started.suspension_id
  pub names_epoch : event.suspension_epoch ≡ some started.suspension_epoch
  pub names_policy : event.wait_policy_id ≡ some started.wait_policy_id
  pub names_digest : event.wait_policy_digest ≡ some started.wait_policy_digest
  pub waits : started.status ≡ SuspensionStatus.waiting
  pub no_wake : (started.accepted_wake_id ≡ none) × (started.wake_reason ≡ none)
  pub fits : misfits_prior event state.suspension ≡ false
  pub target : c.target_status ≡ some status
  pub items : c.work_items ≡ state.work_items
  pub suspension : c.suspension ≡ some started
  pub control : c.control ≡ state.control
  pub obligations : c.obligations ≡ []

pub suspension_started-Suspends :
    (status : TaskStatus) (state : State) (event : Event) (c : Change)
    → suspension_started status state event ≡ changed c
    → Suspends status state event c
unfolding suspension_started
suspension_started-Suspends status state event c h =
    let (g, h1) = refuse_if-changed _ _ c h in
    let (i, ni, h2) = attribute_of-changed event.suspension_id _ c h1 in
    let (e, ne, h3) = attribute_of-changed event.suspension_epoch _ c h2 in
    let (p, np, h4) = attribute_of-changed event.wait_policy_id _ c h3 in
    let (d, nd, h5) = attribute_of-changed event.wait_policy_digest _ c h4 in
    record {
      executing = ground arith;
      started = record {
        task_id = state.task_id;
        suspension_id = i;
        suspension_epoch = e;
        status = SuspensionStatus.waiting;
        wait_policy_id = p;
        wait_policy_digest = d;
        required_work_item_ids = event.required_work_item_ids;
        accepted_wake_id = none;
        wake_reason = none;
      };
      required = refl;
      required_some = ground arith;
      required_distinct = ground arith;
      required_known = ground arith;
      task = refl;
      names_suspension = ni;
      names_epoch = ne;
      names_policy = np;
      names_digest = nd;
      waits = refl;
      no_wake = (refl, refl);
      fits = ground arith;
      target = ground arith;
      items = ground arith;
      suspension = ground arith;
      control = ground arith;
      obligations = ground arith;
    }

pub record Wakes (status : TaskStatus) (state : State) (event : Event) (c : Change) : Type 0 where
  pub current : Suspension
  pub was_suspended : state.suspension ≡ some current
  pub executing : (status != TaskStatus.executing) ≡ false
  pub was_waiting : (current.status != SuspensionStatus.waiting) ≡ false
  pub names_suspension : (event.suspension_id != some current.suspension_id) ≡ false
  pub names_epoch : (event.suspension_epoch != some current.suspension_epoch) ≡ false
  pub names_wake : is_none event.wake_id ≡ false
  pub complete : some_incomplete state.work_items current.required_work_item_ids ≡ false
  pub target : c.target_status ≡ some status
  pub items : c.work_items ≡ state.work_items
  pub suspension :
      c.suspension
      ≡ some (record current {
        status = SuspensionStatus.resumed;
        accepted_wake_id = event.wake_id;
        wake_reason = some WakeReason.dependency_ready;
      })
  pub control : c.control ≡ state.control
  pub obligations : c.obligations ≡ []

wake_of-Wakes :
    (status : TaskStatus) (state : State) (event : Event) (s : Option Suspension) (c : Change)
    → state.suspension ≡ s
    → wake_of status state event s ≡ changed c
    → Wakes status state event c
wake_of-Wakes status state event none c e h = cc
wake_of-Wakes status state event (some s) c e h =
    let (g, h1) = refuse_if-changed _ _ c h in
    record {
      current = s;
      was_suspended = e;
      executing = or_left _ _ (
          or_left _ _ (
            or_left _ _ (
              or_left _ _
                (or_left _ _ (or_left _ _ (or_left _ _ (or_left _ _ (or_left _ _ g))))))));
      was_waiting = or_right _ _ (
          or_left _ _ (
            or_left _ _ (
              or_left _ _
                (or_left _ _ (or_left _ _ (or_left _ _ (or_left _ _ (or_left _ _ g))))))));
      names_suspension = or_right _ _ (
          or_left _ _
            (or_left _ _ (or_left _ _ (or_left _ _ (or_left _ _ (or_left _ _ (or_left _ _ g)))))));
      names_epoch =
          or_right _ _
            (or_left _ _ (or_left _ _ (or_left _ _ (or_left _ _ (or_left _ _ (or_left _ _ g))))));
      names_wake = or_right _ _ (or_left _ _ (or_left _ _ g));
      complete = or_right _ _ g;
      target = ground arith;
      items = ground arith;
      suspension = ground arith;
      control = ground arith;
      obligations = ground arith;
    }

pub wake_accepted-Wakes :
    (status : TaskStatus) (state : State) (event : Event) (c : Change)
    → wake_accepted status state event ≡ changed c
    → Wakes status state event c
unfolding wake_accepted
wake_accepted-Wakes status state event c h =
    wake_of-Wakes status state event state.suspension c refl h
