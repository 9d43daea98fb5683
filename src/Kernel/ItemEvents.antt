-- ===== src/Kernel/ItemEvents.antt =====
-- valp_cli/protocol_kernel.py, `reduce`: the branches for one work item.
use Prim.Native.String.{◌++◌ as concat}
use mathlib.Core.Option
use visible_agent_loop_proto.Prelude.{
  ℕ, suc, String, Bool, true, false, not, Option, none, some, List, [], ◌∷◌, ◌++◌, ◌||◌, ◌&&◌, any,
  is_none, take, drop, get_elem?, contains, ◌==◌, ◌!=◌, int_eq, option_eq, if◌then◌else◌,
}
use visible_agent_loop_proto.Kernel.TaskStatuses.{TaskStatus}
use visible_agent_loop_proto.Kernel.WorkStatuses.{
  WorkItemStatus, WorkItemRequirement, work_item_status_eq, work_item_requirement_eq,
}
use visible_agent_loop_proto.Kernel.ControlWords.{CancellationScope}
use visible_agent_loop_proto.Kernel.EventKinds.{EventKind}
use visible_agent_loop_proto.Kernel.Identities.{Identity, identity_eq}
use visible_agent_loop_proto.Kernel.WorkItems.{Dependency, WorkItem}
use visible_agent_loop_proto.Kernel.States.{State}
use visible_agent_loop_proto.Kernel.Events.{Event}
use visible_agent_loop_proto.Kernel.Validity.{is_empty}
use visible_agent_loop_proto.Kernel.Authority.{has_item_id, eligible_work_item, cancelled_work_item}
use visible_agent_loop_proto.Kernel.ControlEvents.{has_scope}
use visible_agent_loop_proto.Kernel.Outcomes.{
  Change, Branch, conflict, changed, fails, index_error, attribute_of, refuse_if,
}

-- `next((index for index, item in enumerate(work_items) if item.work_item_id == ...), None)`
unfoldable pub item_index : Event → List WorkItem → Option ℕ
item_index event [] = none
item_index event (item ∷ rest) =
    let later = Option.map suc (item_index event rest) in
    if has_item_id event item then some 0 else later

-- `work_items[:index] + (next_item,) + work_items[index + 1:]`
unfoldable pub replace_at : ℕ → WorkItem → List WorkItem → List WorkItem
replace_at index next_item work_items =
    take index work_items ++ next_item ∷ drop (suc index) work_items

abbrev pub at_index : State → ℕ → Option WorkItem → (ℕ → WorkItem → Branch) → Branch
at_index state index none k = fails index_error
at_index state index (some item) k = k index item

-- The item that the event names, and its place; a conflict where there is none.
abbrev pub on_index : State → Option ℕ → (ℕ → WorkItem → Branch) → Branch
on_index state none k = conflict
on_index state (some index) k = at_index state index (get_elem? state.work_items index) k

unfoldable pub on_item : State → Event → (ℕ → WorkItem → Branch) → Branch
on_item state event k =
    refuse_if (is_none event.work_item_id) (on_index state (item_index event state.work_items) k)

-- The end that the branches for one item share: only that item has changed.
abbrev pub item_change : TaskStatus → State → ℕ → WorkItem → List String → List String → Change
item_change status state index next_item obligations audit_facts = record {
  target_status = some status;
  work_items = replace_at index next_item state.work_items;
  suspension = state.suspension;
  control = state.control;
  obligations = obligations;
  audit_facts = audit_facts;
}

abbrev pub eligible_branch : TaskStatus → State → ℕ → WorkItem → Option (List String) → Branch
eligible_branch status state index item none = conflict
eligible_branch status state index item (some audit_facts) =
    refuse_if (item.status != WorkItemStatus.pending) (
      changed (
        item_change status state index (record item { status = WorkItemStatus.eligible }) []
          audit_facts))

unfoldable pub eligible_step : TaskStatus → State → ℕ → WorkItem → Branch
eligible_step status state index item =
    eligible_branch status state index item (eligible_work_item state item)

unfoldable pub work_item_eligible : TaskStatus → State → Event → Branch
unfolding eligible_step on_item
work_item_eligible status state event = on_item state event (eligible_step status state)

-- `dependency.work_item_id == item.work_item_id and dependency.requirement == REQUIRED`
abbrev requires : Identity → Dependency → Bool
requires work_item_id dependency =
    dependency.work_item_id == work_item_id
    && dependency.requirement == WorkItemRequirement.required

unfoldable pub is_required_by_any : List WorkItem → Identity → Bool
is_required_by_any work_items work_item_id =
    any (λ (candidate : WorkItem). any (requires work_item_id) candidate.dependencies) work_items

-- The dicts `allowed` and `targets`, over the kinds of the branch.
abbrev pub allowed : EventKind → WorkItemStatus → Bool
allowed EventKind.work_item_partial status = contains (WorkItemStatus.running ∷ []) status
allowed EventKind.work_item_degraded status = contains (WorkItemStatus.running ∷ []) status
allowed EventKind.work_item_blocked status =
    contains
      (WorkItemStatus.pending ∷ WorkItemStatus.eligible ∷ WorkItemStatus.submitted
        ∷ WorkItemStatus.running ∷ [])
      status
allowed EventKind.work_item_skipped status =
    contains (WorkItemStatus.pending ∷ WorkItemStatus.eligible ∷ []) status
allowed _ status =
    contains
      (WorkItemStatus.pending ∷ WorkItemStatus.eligible ∷ WorkItemStatus.submitted
        ∷ WorkItemStatus.running ∷ WorkItemStatus.blocked ∷ [])
      status

abbrev pub targets : EventKind → WorkItemStatus
targets EventKind.work_item_partial = WorkItemStatus.partial
targets EventKind.work_item_degraded = WorkItemStatus.degraded
targets EventKind.work_item_blocked = WorkItemStatus.blocked
targets EventKind.work_item_failed = WorkItemStatus.failed
targets EventKind.work_item_cancelled = WorkItemStatus.cancelled
targets _ = WorkItemStatus.skipped

abbrev pub is_cancellation : EventKind → Bool
is_cancellation EventKind.work_item_cancelled = true
is_cancellation _ = false

abbrev pub is_skip : EventKind → Bool
is_skip EventKind.work_item_skipped = true
is_skip _ = false

-- The fields that the cancellation of one item must have, or must not have.
unfoldable pub cancellation_is_malformed : Event → Bool
cancellation_is_malformed event =
    not (has_scope event.cancellation_scope CancellationScope.work_item)
    || not (is_none event.attempt_id)
    || not (is_none event.dispatch_id)
    || not (is_none event.dispatch_generation)
    || not (is_none event.interrupt_id)
    || not (is_none event.redirect_id)
    || not (is_none event.intent_version)
    || not (is_none event.next_intent_version)
    || not (is_empty event.superseded_work_item_ids)

unfoldable pub skip_is_refused : State → WorkItem → Bool
unfolding is_required_by_any
skip_is_refused state item =
    item.requirement == WorkItemRequirement.required
    || is_required_by_any state.work_items item.work_item_id

abbrev pub cancelled_fact : WorkItem → Identity → String
cancelled_fact item principal =
    concat "cancelled:work_item:" (concat item.work_item_id.value (concat ":" principal.value))

unfoldable pub item_step : EventKind → TaskStatus → State → Event → ℕ → WorkItem → Branch
unfolding cancellation_is_malformed skip_is_refused cancelled_work_item
item_step kind status state event index item =
    refuse_if (is_cancellation kind && cancellation_is_malformed event) (
      refuse_if (not (allowed kind item.status) || (is_skip kind && skip_is_refused state item)) (
        if is_cancellation kind
        then attribute_of event.authority_principal_id (λ principal. changed (
            item_change status state index (cancelled_work_item item).0 (cancelled_work_item item).1
              (cancelled_fact item principal ∷ [])))
        else changed
            (item_change status state index (record item { status = targets kind }) [] [])))

unfoldable pub work_item_event : EventKind → TaskStatus → State → Event → Branch
unfolding item_step on_item
work_item_event kind status state event = on_item state event (item_step kind status state event)
