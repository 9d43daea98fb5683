-- ===== src/Kernel/Authority.antt =====
-- valp_cli/protocol_kernel.py: authority-bound events, cancellation of a work item, eligibility, and
-- the test for an attempt event that is stale.
use Prim.Native.String.{◌++◌ as concat}
use visible_agent_loop_proto.Prelude.{
  ℤ, String, Bool, true, false, not, Option, none, some, List, [], ◌∷◌, ◌++◌, ◌&&◌, ◌||◌, any, find,
  ltb_ℤ, ◌==◌, ◌!=◌, int_eq, option_eq, pair_eq, if◌then◌else◌,
}
use visible_agent_loop_proto.Json.{str, int, fields}
use visible_agent_loop_proto.Kernel.IdentityKinds.{IdentityKind}
use visible_agent_loop_proto.Kernel.WorkStatuses.{
  WorkItemStatus, WorkItemRequirement, AttemptStatus, work_item_status_eq, attempt_status_eq,
}
use visible_agent_loop_proto.Kernel.EventKinds.{EventKind}
use visible_agent_loop_proto.Kernel.Words.{Word, is_known}
use visible_agent_loop_proto.Kernel.Identities.{Identity, Evidence, identity_eq, has_identity_kind}
use visible_agent_loop_proto.Kernel.WorkItems.{Dependency, Attempt, WorkItem}
use visible_agent_loop_proto.Kernel.States.{State}
use visible_agent_loop_proto.Kernel.Events.{Event}
use visible_agent_loop_proto.Kernel.Digests.{canonical_json}

-- `_AUTHORITY_BOUND_EVENTS`
abbrev pub is_authority_bound : EventKind → Bool
is_authority_bound EventKind.task_cancelled = true
is_authority_bound EventKind.work_item_cancelled = true
is_authority_bound EventKind.attempt_cancelled = true
is_authority_bound EventKind.interrupt_requested = true
is_authority_bound EventKind.interrupt_resumed = true
is_authority_bound EventKind.redirect_authorized = true
is_authority_bound _ = false

-- `isinstance(event.control_reason, ControlReason)`
abbrev pub present_and_known : {A : Type 0} → Option (Word A) → Bool
present_and_known none = false
present_and_known (some w) = is_known w

unfoldable pub authority_is_valid : EventKind → Event → List Evidence → Bool
authority_is_valid kind event evidence_set =
    not (is_authority_bound kind)
    || (has_identity_kind event.authority_principal_id IdentityKind.principal
        && has_identity_kind event.authority_evidence_id IdentityKind.evidence
        && present_and_known event.control_reason
        && any (λ (item : Evidence). some item.evidence_id == event.authority_evidence_id)
            evidence_set)

unfoldable pub adapter_cancel_obligation : Attempt → String
adapter_cancel_obligation attempt = concat "adapter_cancel:" (
    canonical_json (
      fields (
        ("task_id", str attempt.task_id.value)
        ∷ ("work_item_id", str attempt.work_item_id.value)
        ∷ ("attempt_id", str attempt.attempt_id.value)
        ∷ ("dispatch_id", str attempt.dispatch_id.value)
        ∷ ("dispatch_generation", int attempt.dispatch_generation)
        ∷ [])))

-- `status in {CREATED, SUBMITTED, RUNNING}`
abbrev pub is_open : AttemptStatus → Bool
is_open AttemptStatus.created = true
is_open AttemptStatus.submitted = true
is_open AttemptStatus.running = true
is_open _ = false

-- `status in {SUBMITTED, RUNNING}`
abbrev pub is_live : AttemptStatus → Bool
is_live AttemptStatus.submitted = true
is_live AttemptStatus.running = true
is_live _ = false

-- The attempt of a cancelled work item, and what the adapter is obliged to do about it.
abbrev pub cancelled_attempt : Option Attempt → Option Attempt
cancelled_attempt none = none
cancelled_attempt (some a) =
    if is_open a.status then some (record a { status = AttemptStatus.cancelled }) else some a

abbrev pub cancel_obligations : Option Attempt → List String
cancel_obligations none = []
cancel_obligations (some a) = if is_live a.status then adapter_cancel_obligation a ∷ [] else []

unfoldable pub cancelled_work_item : WorkItem → WorkItem × List String
cancelled_work_item item = (
  record item {
    status = WorkItemStatus.cancelled;
    current_attempt = cancelled_attempt item.current_attempt;
  },
  cancel_obligations item.current_attempt,
)

-- `items.get(key)` of `{item.work_item_id: item for item in work_items}`: the last one wins.
unfoldable pub dict_get : List WorkItem → Identity → Option WorkItem
dict_get [] key = none
dict_get (item ∷ rest) key =
    let here = if item.work_item_id == key then some item else none in
    elim (dict_get rest key) [ some later ↦ some later | none ↦ here ]

soft_unmet : WorkItem → WorkItem → String
soft_unmet item target =
    concat "soft_dependency_unmet:"
      (concat item.work_item_id.value (concat ":" target.work_item_id.value))

-- One round of the loop over the dependencies: `none` is `return False, ()`.
abbrev dependency_round :
    WorkItem → WorkItemRequirement → WorkItem → List String → Option (List String)
dependency_round item WorkItemRequirement.required target facts =
    if target.status != WorkItemStatus.completed then none else some facts
dependency_round item WorkItemRequirement.soft target facts =
    if target.status != WorkItemStatus.completed
    then some (facts ++ soft_unmet item target ∷ [])
    else some facts
dependency_round item WorkItemRequirement.optional target facts = some facts

-- The loop of `_eligible_work_item`, from the facts collected so far.
unfoldable pub eligible_from :
    List WorkItem → WorkItem → List Dependency → List String → Option (List String)
unfolding soft_unmet
eligible_from work_items item [] facts = some facts
eligible_from work_items item (dependency ∷ rest) facts =
    elim (dict_get work_items dependency.work_item_id) [
      | none ↦ none
      | some target ↦ elim (dependency_round item dependency.requirement target facts) [
        | none ↦ none
        | some facts' ↦ eligible_from work_items item rest facts'
      ]
    ]

-- `none` is `(False, ())`, and `some facts` is `(True, facts)`.
unfoldable pub eligible_work_item : State → WorkItem → Option (List String)
unfolding eligible_from
eligible_work_item state item = eligible_from state.work_items item item.dependencies []

-- `_ATTEMPT_SCOPED_EVENTS`
abbrev pub is_attempt_scoped : EventKind → Bool
is_attempt_scoped EventKind.attempt_created = true
is_attempt_scoped EventKind.attempt_submitted = true
is_attempt_scoped EventKind.attempt_running = true
is_attempt_scoped EventKind.attempt_completed = true
is_attempt_scoped EventKind.attempt_failed = true
is_attempt_scoped EventKind.attempt_cancelled = true
is_attempt_scoped EventKind.attempt_fenced = true
is_attempt_scoped _ = false

-- `event_tuple == current_tuple`
unfoldable pub same_attempt : Event → Attempt → Bool
same_attempt event attempt =
    event.attempt_id == some attempt.attempt_id
    && event.dispatch_id == some attempt.dispatch_id
    && event.dispatch_generation == some attempt.dispatch_generation

-- `generation is not None and generation > than`
abbrev pub is_later : Option ℤ → ℤ → Bool
is_later none than = false
is_later (some generation) than = ltb_ℤ than generation

abbrev pub attempt_is_stale : EventKind → Event → WorkItem → Option Attempt → Bool
attempt_is_stale EventKind.attempt_created event item none = false
attempt_is_stale EventKind.attempt_created event item (some attempt) =
    not (same_attempt event attempt)
    && not (
        item.status == WorkItemStatus.blocked
        && event.attempt_id != some attempt.attempt_id
        && is_later event.dispatch_generation attempt.dispatch_generation)
attempt_is_stale _ event item none = true
attempt_is_stale _ event item (some attempt) =
    not (same_attempt event attempt) || attempt.status == AttemptStatus.fenced

abbrev pub has_item_id : Event → WorkItem → Bool
has_item_id event item = some item.work_item_id == event.work_item_id

abbrev pub item_is_stale : EventKind → Event → Option WorkItem → Bool
item_is_stale kind event none = true
item_is_stale kind event (some item) = attempt_is_stale kind event item item.current_attempt

unfoldable pub attempt_event_is_stale : EventKind → State → Event → Bool
unfolding same_attempt
attempt_event_is_stale kind state event =
    is_attempt_scoped kind && item_is_stale kind event (find (has_item_id event) state.work_items)
