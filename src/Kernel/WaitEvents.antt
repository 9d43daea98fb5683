-- ===== src/Kernel/WaitEvents.antt =====
-- valp_cli/protocol_kernel.py, `reduce`: the branches for a suspension and for its wake.
use visible_agent_loop_proto.Prelude.{
  pos, Bool, true, false, not, Option, none, some, List, [], ◌||◌, any, is_none, is_subset,
  is_distinct, add_one, ◌==◌, ◌!=◌, int_eq, string_eq, option_eq, list_eq,
}
use visible_agent_loop_proto.Kernel.TaskStatuses.{TaskStatus, task_status_eq}
use visible_agent_loop_proto.Kernel.WorkStatuses.{WorkItemStatus, work_item_status_eq}
use visible_agent_loop_proto.Kernel.ControlWords.{
  SuspensionStatus, WakeReason, suspension_status_eq, wake_reason_eq, wake_reason_value,
}
use visible_agent_loop_proto.Kernel.Words.{Word, known, text}
use visible_agent_loop_proto.Kernel.Identities.{Identity, identity_eq}
use visible_agent_loop_proto.Kernel.WorkItems.{WorkItem}
use visible_agent_loop_proto.Kernel.States.{Suspension, State}
use visible_agent_loop_proto.Kernel.Events.{Event}
use visible_agent_loop_proto.Kernel.Validity.{is_empty, work_item_ids}
use visible_agent_loop_proto.Kernel.Authority.{dict_get}
use visible_agent_loop_proto.Kernel.Outcomes.{Branch, conflict, changed, attribute_of, refuse_if}

-- The epoch and the identity must fit the suspension that was there before.
abbrev pub misfits_prior : Event → Option Suspension → Bool
misfits_prior event none = event.suspension_epoch != some (pos 0)
misfits_prior event (some prior) =
    prior.status != SuspensionStatus.resumed
    || event.suspension_epoch != some (add_one prior.suspension_epoch)
    || event.suspension_id == some prior.suspension_id

unfoldable pub suspension_started : TaskStatus → State → Event → Branch
suspension_started status state event =
    refuse_if
      (status != TaskStatus.executing
        || is_none event.suspension_id
        || is_none event.suspension_epoch
        || is_none event.wait_policy_id
        || is_none event.wait_policy_digest
        || is_empty event.required_work_item_ids
        || not (is_distinct event.required_work_item_ids)
        || not (is_none event.wake_id)
        || not (is_none event.wake_reason)
        || misfits_prior event state.suspension
        || not (is_subset event.required_work_item_ids (work_item_ids state.work_items)))
      (attribute_of event.suspension_id λ suspension_id.
        attribute_of event.suspension_epoch λ epoch. attribute_of event.wait_policy_id λ policy.
          attribute_of event.wait_policy_digest λ policy_digest. changed (record {
            target_status = some status;
            work_items = state.work_items;
            suspension = some (record {
              task_id = state.task_id;
              suspension_id = suspension_id;
              suspension_epoch = epoch;
              status = SuspensionStatus.waiting;
              wait_policy_id = policy;
              wait_policy_digest = policy_digest;
              required_work_item_ids = event.required_work_item_ids;
              accepted_wake_id = none;
              wake_reason = none;
            });
            control = state.control;
            obligations = [];
            audit_facts = [];
          }))

-- `reason == WakeReason.DEPENDENCY_READY`; a text equals the member of that value.
abbrev pub is_dependency_ready : Option (Word WakeReason) → Bool
is_dependency_ready none = false
is_dependency_ready (some (known r)) = r == WakeReason.dependency_ready
is_dependency_ready (some (text t)) = t == wake_reason_value WakeReason.dependency_ready

abbrev pub is_incomplete : Option WorkItem → Bool
is_incomplete none = true
is_incomplete (some item) = item.status != WorkItemStatus.completed

-- `any(items.get(item) is None or items[item].status != COMPLETED for item in required)`
unfoldable pub some_incomplete : List WorkItem → List Identity → Bool
some_incomplete work_items required =
    any (λ item. is_incomplete (dict_get work_items item)) required

abbrev pub wake_of : TaskStatus → State → Event → Option Suspension → Branch
wake_of status state event none = conflict
wake_of status state event (some current) =
    refuse_if
      (status != TaskStatus.executing
        || current.status != SuspensionStatus.waiting
        || event.suspension_id != some current.suspension_id
        || event.suspension_epoch != some current.suspension_epoch
        || event.wait_policy_id != some current.wait_policy_id
        || event.wait_policy_digest != some current.wait_policy_digest
        || event.required_work_item_ids != current.required_work_item_ids
        || is_none event.wake_id
        || not (is_dependency_ready event.wake_reason)
        || some_incomplete state.work_items current.required_work_item_ids)
      (changed (record {
        target_status = some status;
        work_items = state.work_items;
        suspension = some (record {
          task_id = current.task_id;
          suspension_id = current.suspension_id;
          suspension_epoch = current.suspension_epoch;
          status = SuspensionStatus.resumed;
          wait_policy_id = current.wait_policy_id;
          wait_policy_digest = current.wait_policy_digest;
          required_work_item_ids = current.required_work_item_ids;
          accepted_wake_id = event.wake_id;
          wake_reason = some WakeReason.dependency_ready;
        });
        control = state.control;
        obligations = [];
        audit_facts = [];
      }))

unfoldable pub wake_accepted : TaskStatus → State → Event → Branch
wake_accepted status state event = wake_of status state event state.suspension
