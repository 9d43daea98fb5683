-- ===== src/Kernel/ControlEvents.antt =====
-- valp_cli/protocol_kernel.py, `reduce`: the branches for interrupt, resumption, redirect and the
-- cancellation of a task.
use Prim.Native.String.{◌++◌ as concat}
use visible_agent_loop_proto.Prelude.{
  ℤ, pos, String, Bool, false, not, Option, none, some, List, [], ◌∷◌, ◌++◌, ◌||◌, ◌&&◌, contains,
  is_subset, is_none, add_one, ◌==◌, ◌!=◌, int_eq, option_eq, string_eq, if◌then◌else◌,
}
use visible_agent_loop_proto.Kernel.TaskStatuses.{TaskStatus}
use visible_agent_loop_proto.Kernel.ControlWords.{
  ControlStatus, CancellationScope, control_status_eq, cancellation_scope_eq,
  cancellation_scope_value,
}
use visible_agent_loop_proto.Kernel.EventKinds.{EventKind}
use visible_agent_loop_proto.Kernel.Words.{Word, known, text}
use visible_agent_loop_proto.Kernel.Identities.{identity_eq}
use visible_agent_loop_proto.Kernel.WorkItems.{WorkItem}
use visible_agent_loop_proto.Kernel.States.{Suspension, ControlState, State}
use visible_agent_loop_proto.Kernel.Events.{Event}
use visible_agent_loop_proto.Kernel.Validity.{is_empty, work_item_ids}
use visible_agent_loop_proto.Kernel.Authority.{cancelled_work_item}
use visible_agent_loop_proto.Kernel.Transitions.{is_terminal, is_terminal_item, task_transition}
use visible_agent_loop_proto.Kernel.Outcomes.{Branch, changed, attribute_of, formatted, refuse_if}

-- `control or ControlState(0, ControlStatus.ACTIVE)`
abbrev pub current_control : Option ControlState → ControlState
current_control none = record {
  intent_version = pos 0;
  status = ControlStatus.active;
  active_interrupt_id = none;
}
current_control (some c) = c

-- `scope == CancellationScope.X`; a text equals the member of that value.
abbrev pub has_scope : Option (Word CancellationScope) → CancellationScope → Bool
has_scope none scope = false
has_scope (some (known s)) scope = s == scope
has_scope (some (text t)) scope = t == cancellation_scope_value scope

unfoldable pub interrupt_requested : TaskStatus → State → Event → Branch
interrupt_requested status state event =
    let control = current_control state.control in
    refuse_if
      (is_terminal status
        || control.status != ControlStatus.active
        || is_none event.interrupt_id
        || event.intent_version != some control.intent_version
        || not (is_none event.redirect_id)
        || not (is_none event.next_intent_version)
        || not (is_none event.cancellation_scope)
        || not (is_empty event.superseded_work_item_ids))
      (attribute_of event.interrupt_id λ interrupt.
        attribute_of event.authority_principal_id λ principal. changed (record {
          target_status = some status;
          work_items = state.work_items;
          suspension = state.suspension;
          control = some (record {
            intent_version = control.intent_version;
            status = ControlStatus.interrupted;
            active_interrupt_id = event.interrupt_id;
          });
          obligations = [];
          audit_facts =
              concat "interrupted:" (concat interrupt.value (concat ":" principal.value)) ∷ [];
        }))

unfoldable pub interrupt_resumed : TaskStatus → State → Event → Branch
interrupt_resumed status state event =
    let control = current_control state.control in
    refuse_if
      (control.status != ControlStatus.interrupted
        || event.interrupt_id != control.active_interrupt_id
        || event.intent_version != some control.intent_version
        || not (is_none event.redirect_id)
        || not (is_none event.next_intent_version)
        || not (is_none event.cancellation_scope)
        || not (is_empty event.superseded_work_item_ids))
      (attribute_of event.interrupt_id λ interrupt.
        attribute_of event.authority_principal_id λ principal. changed (record {
          target_status = some status;
          work_items = state.work_items;
          suspension = state.suspension;
          control = some (record {
            intent_version = control.intent_version;
            status = ControlStatus.active;
            active_interrupt_id = none;
          });
          obligations = [];
          audit_facts =
              concat "interrupt_resumed:" (concat interrupt.value (concat ":" principal.value))
              ∷ [];
        }))

-- The loop that cancels some of the work items and collects their obligations.
unfoldable pub cancel_where : (WorkItem → Bool) → List WorkItem → List WorkItem × List String
unfolding cancelled_work_item
cancel_where chosen [] = ([], [])
cancel_where chosen (item ∷ rest) =
    let (next_items, emitted) = cancel_where chosen rest in
    let (cancelled, obligations) = cancelled_work_item item in
    if chosen item
    then (cancelled ∷ next_items, obligations ++ emitted)
    else (item ∷ next_items, emitted)

abbrev pub is_invalidated : Event → WorkItem → Bool
is_invalidated event item =
    contains event.superseded_work_item_ids item.work_item_id && not (is_terminal_item item.status)

unfoldable pub redirect_authorized : TaskStatus → State → Event → Branch
redirect_authorized status state event =
    let control = current_control state.control in
    let items = cancel_where (is_invalidated event) state.work_items in
    refuse_if
      (is_terminal status
        || is_none event.redirect_id
        || not (is_none event.interrupt_id)
        || event.intent_version != some control.intent_version
        || event.next_intent_version != some (add_one control.intent_version)
        || not (is_none event.cancellation_scope)
        || not (is_subset event.superseded_work_item_ids (work_item_ids state.work_items)))
      (attribute_of event.redirect_id λ redirect.
        attribute_of event.authority_principal_id λ principal.
          attribute_of event.next_intent_version λ next. changed (record {
            target_status = some TaskStatus.fixing;
            work_items = items.0;
            suspension = none;
            control = some (record {
              intent_version = next;
              status = ControlStatus.active;
              active_interrupt_id = none;
            });
            obligations = items.1;
            audit_facts =
                concat "redirected:" (
                  concat redirect.value (
                    concat ":" (
                      concat (formatted event.intent_version)
                        (concat ":" (formatted event.next_intent_version)))))
                ∷ concat "redirect_authority:" principal.value
                ∷ [];
          }))

-- The suspension epoch that the event must name.
abbrev pub epoch_of : Option Suspension → Option ℤ
epoch_of none = none
epoch_of (some s) = some s.suspension_epoch

unfoldable pub task_cancelled : TaskStatus → State → Event → Branch
task_cancelled status state event =
    let control = current_control state.control in
    let items = cancel_where (λ item. not (is_terminal_item item.status)) state.work_items in
    refuse_if
      (not (has_scope event.cancellation_scope CancellationScope.task)
        || not (is_none event.work_item_id)
        || not (is_none event.attempt_id)
        || not (is_none event.dispatch_id)
        || not (is_none event.dispatch_generation)
        || not (is_none event.interrupt_id)
        || not (is_none event.redirect_id)
        || not (is_none event.intent_version)
        || not (is_none event.next_intent_version)
        || not (is_empty event.superseded_work_item_ids)
        || event.suspension_epoch != epoch_of state.suspension)
      (attribute_of event.authority_principal_id λ principal. changed (record {
        target_status = task_transition status EventKind.task_cancelled;
        work_items = items.0;
        suspension = none;
        control = some (record {
          intent_version = control.intent_version;
          status = ControlStatus.active;
          active_interrupt_id = none;
        });
        obligations = items.1;
        audit_facts =
            concat "cancelled:task:" (concat state.task_id.value (concat ":" principal.value)) ∷ [];
      }))
