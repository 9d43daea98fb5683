-- ===== src/Kernel/AttemptEvents.antt =====
-- valp_cli/protocol_kernel.py, `reduce`: the branches for the current attempt of a work item.
use Prim.Native.String.{◌++◌ as concat}
use visible_agent_loop_proto.Prelude.{
  ℕ, ℤ, String, Bool, true, false, not, Option, none, some, [], ◌∷◌, ◌||◌, ◌&&◌, is_none, contains,
  ltb_ℤ, ◌==◌, ◌!=◌, int_eq, option_eq, if◌then◌else◌,
}
use visible_agent_loop_proto.Kernel.TaskStatuses.{TaskStatus}
use visible_agent_loop_proto.Kernel.WorkStatuses.{
  WorkItemStatus, AttemptStatus, work_item_status_eq, attempt_status_eq,
}
use visible_agent_loop_proto.Kernel.ControlWords.{CancellationScope}
use visible_agent_loop_proto.Kernel.EventKinds.{EventKind}
use visible_agent_loop_proto.Kernel.Identities.{Identity, identity_eq}
use visible_agent_loop_proto.Kernel.WorkItems.{Attempt, WorkItem}
use visible_agent_loop_proto.Kernel.States.{State}
use visible_agent_loop_proto.Kernel.Events.{Event}
use visible_agent_loop_proto.Kernel.Validity.{is_empty}
use visible_agent_loop_proto.Kernel.Authority.{
  same_attempt, is_open, is_live, adapter_cancel_obligation,
}
use visible_agent_loop_proto.Kernel.ControlEvents.{has_scope}
use visible_agent_loop_proto.Kernel.Outcomes.{Branch, conflict, changed, attribute_of, refuse_if}
use visible_agent_loop_proto.Kernel.ItemEvents.{on_item, item_change}

-- `generation <= current_attempt.dispatch_generation`, where both are there.
abbrev pub is_not_later : Option ℤ → Option Attempt → Bool
is_not_later (some generation) (some attempt) = not (ltb_ℤ attempt.dispatch_generation generation)
is_not_later _ _ = false

-- `event.attempt_id == item.current_attempt.attempt_id`, where the attempt is there.
abbrev pub reuses_attempt_id : Event → Option Attempt → Bool
reuses_attempt_id event none = false
reuses_attempt_id event (some attempt) = event.attempt_id == some attempt.attempt_id

abbrev pub is_retry : WorkItem → Bool
is_retry item = item.status == WorkItemStatus.blocked && not (is_none item.current_attempt)

unfoldable pub created_step : TaskStatus → State → Event → ℕ → WorkItem → Branch
created_step status state event index item =
    refuse_if
      (not (contains (WorkItemStatus.eligible ∷ WorkItemStatus.blocked ∷ []) item.status)
        || (not (is_none item.current_attempt) && not (is_retry item))
        || is_none event.attempt_id
        || is_none event.dispatch_id
        || is_none event.dispatch_generation
        || (is_retry item && is_not_later event.dispatch_generation item.current_attempt)
        || (is_retry item && reuses_attempt_id event item.current_attempt))
      (attribute_of event.attempt_id λ attempt_id. attribute_of event.dispatch_id λ dispatch_id.
        attribute_of event.dispatch_generation λ generation. changed (
          item_change status state index
            (record item {
              status = WorkItemStatus.submitted;
              current_attempt = some (record {
                task_id = state.task_id;
                work_item_id = item.work_item_id;
                attempt_id = attempt_id;
                dispatch_id = dispatch_id;
                dispatch_generation = generation;
                status = AttemptStatus.created;
              });
            })
            [] []))

unfoldable pub attempt_created : TaskStatus → State → Event → Branch
unfolding created_step on_item
attempt_created status state event = on_item state event (created_step status state event)

abbrev pub fence : TaskStatus → State → Event → ℕ → WorkItem → Option Attempt → Branch
fence status state event index item none = conflict
fence status state event index item (some attempt) =
    refuse_if (not (is_open attempt.status) || not (same_attempt event attempt)) (
      changed (
        item_change status state index
          (record item {
            current_attempt = some (record attempt { status = AttemptStatus.fenced });
          })
          [] []))

unfoldable pub fenced_step : TaskStatus → State → Event → ℕ → WorkItem → Branch
unfolding same_attempt
fenced_step status state event index item = fence status state event index item item.current_attempt

unfoldable pub attempt_fenced : TaskStatus → State → Event → Branch
unfolding fenced_step on_item
attempt_fenced status state event = on_item state event (fenced_step status state event)

-- A row of `transitions`: the statuses required of the item and of the attempt, and the next ones.
pub record AttemptTransition : Type 0 where
  pub required_item_status : Option WorkItemStatus
  pub required_attempt_status : Option AttemptStatus
  pub next_item_status : WorkItemStatus
  pub next_attempt_status : AttemptStatus

-- The dict `transitions`, over the kinds of the branch.
abbrev pub transitions : EventKind → AttemptTransition
transitions EventKind.attempt_submitted = record {
  required_item_status = some WorkItemStatus.submitted;
  required_attempt_status = some AttemptStatus.created;
  next_item_status = WorkItemStatus.running;
  next_attempt_status = AttemptStatus.submitted;
}
transitions EventKind.attempt_running = record {
  required_item_status = some WorkItemStatus.running;
  required_attempt_status = some AttemptStatus.submitted;
  next_item_status = WorkItemStatus.running;
  next_attempt_status = AttemptStatus.running;
}
transitions EventKind.attempt_completed = record {
  required_item_status = some WorkItemStatus.running;
  required_attempt_status = some AttemptStatus.running;
  next_item_status = WorkItemStatus.completed;
  next_attempt_status = AttemptStatus.completed;
}
transitions EventKind.attempt_failed = record {
  required_item_status = none;
  required_attempt_status = none;
  next_item_status = WorkItemStatus.failed;
  next_attempt_status = AttemptStatus.failed;
}
transitions _ = record {
  required_item_status = none;
  required_attempt_status = none;
  next_item_status = WorkItemStatus.cancelled;
  next_attempt_status = AttemptStatus.cancelled;
}

abbrev pub is_attempt_cancellation : EventKind → Bool
is_attempt_cancellation EventKind.attempt_cancelled = true
is_attempt_cancellation _ = false

-- `kind in {ATTEMPT_FAILED, ATTEMPT_CANCELLED}`
abbrev pub is_attempt_end : EventKind → Bool
is_attempt_end EventKind.attempt_failed = true
is_attempt_end EventKind.attempt_cancelled = true
is_attempt_end _ = false

unfoldable pub attempt_cancellation_is_malformed : Event → Bool
attempt_cancellation_is_malformed event =
    not (has_scope event.cancellation_scope CancellationScope.attempt)
    || not (is_none event.interrupt_id)
    || not (is_none event.redirect_id)
    || not (is_none event.intent_version)
    || not (is_none event.next_intent_version)
    || not (is_empty event.superseded_work_item_ids)

-- `required is not None and status != required`
abbrev differs_item : WorkItemStatus → Option WorkItemStatus → Bool
differs_item status none = false
differs_item status (some required) = status != required

abbrev differs_attempt : AttemptStatus → Option AttemptStatus → Bool
differs_attempt status none = false
differs_attempt status (some required) = status != required

-- The statuses from which the kind may not go on.
unfoldable pub transition_is_refused : EventKind → WorkItemStatus → AttemptStatus → Bool
transition_is_refused kind item_status attempt_status =
    differs_item item_status (transitions kind).required_item_status
    || differs_attempt attempt_status (transitions kind).required_attempt_status
    || (is_attempt_end kind
        && (not (contains (WorkItemStatus.submitted ∷ WorkItemStatus.running ∷ []) item_status)
            || not (is_open attempt_status)))

abbrev pub cancelled_fact : Attempt → Identity → String
cancelled_fact attempt principal =
    concat "cancelled:attempt:" (concat attempt.attempt_id.value (concat ":" principal.value))

abbrev pub progress :
    EventKind → TaskStatus → State → Event → ℕ → WorkItem → Option Attempt → Branch
progress kind status state event index item none = conflict
progress kind status state event index item (some attempt) =
    let next_item = record item {
      status = (transitions kind).next_item_status;
      current_attempt = some (record attempt { status = (transitions kind).next_attempt_status });
    } in
    refuse_if (attempt.status == AttemptStatus.fenced || not (same_attempt event attempt)) (
      refuse_if (transition_is_refused kind item.status attempt.status) (
        if is_attempt_cancellation kind
        then attribute_of event.authority_principal_id (λ principal. changed (
            item_change status state index next_item
              (if is_live attempt.status then adapter_cancel_obligation attempt ∷ [] else [])
              (cancelled_fact attempt principal ∷ [])))
        else changed (item_change status state index next_item [] [])))

unfoldable pub progress_step : EventKind → TaskStatus → State → Event → ℕ → WorkItem → Branch
unfolding attempt_cancellation_is_malformed same_attempt transition_is_refused
    adapter_cancel_obligation
progress_step kind status state event index item =
    refuse_if (is_attempt_cancellation kind && attempt_cancellation_is_malformed event)
      (progress kind status state event index item item.current_attempt)

unfoldable pub attempt_event : EventKind → TaskStatus → State → Event → Branch
unfolding progress_step on_item
attempt_event kind status state event = on_item state event (progress_step kind status state event)
