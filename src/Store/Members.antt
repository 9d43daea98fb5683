-- ===== src/Store/Members.antt =====
-- The members of the enumerations of valp_cli/protocol_kernel.py in their order, and the member of a value:
-- `SomeEnum(value)`, which valp_cli/kernel_store.py calls.
use visible_agent_loop_proto.Prelude.{
  String, Option, some, List, [], ◌∷◌, ◌≡◌, refl, ◌==◌, string_eq, find,
}
use visible_agent_loop_proto.Kernel.IdentityKinds.{IdentityKind, identity_kind_value}
use visible_agent_loop_proto.Kernel.TaskStatuses.{TaskStatus, task_status_value}
use visible_agent_loop_proto.Kernel.WorkStatuses.{WorkItemStatus, work_item_status_value}
use visible_agent_loop_proto.Kernel.WorkStatuses.{WorkItemRequirement, work_item_requirement_value}
use visible_agent_loop_proto.Kernel.WorkStatuses.{AttemptStatus, attempt_status_value}
use visible_agent_loop_proto.Kernel.ControlWords.{SuspensionStatus, suspension_status_value}
use visible_agent_loop_proto.Kernel.ControlWords.{WakeReason, wake_reason_value}
use visible_agent_loop_proto.Kernel.ControlWords.{ControlStatus, control_status_value}
use visible_agent_loop_proto.Kernel.ControlWords.{ControlReason, control_reason_value}
use visible_agent_loop_proto.Kernel.ControlWords.{CancellationScope, cancellation_scope_value}
use visible_agent_loop_proto.Kernel.EventKinds.{EventKind, event_kind_value}

abbrev pub identity_kind_members : List IdentityKind
identity_kind_members =
    IdentityKind.installation ∷ IdentityKind.task ∷ IdentityKind.work_item ∷ IdentityKind.attempt
    ∷ IdentityKind.dispatch ∷ IdentityKind.event ∷ IdentityKind.evidence ∷ IdentityKind.receipt
    ∷ IdentityKind.claim ∷ IdentityKind.result ∷ IdentityKind.suspension ∷ IdentityKind.wait_policy
    ∷ IdentityKind.wake ∷ IdentityKind.principal ∷ IdentityKind.interrupt ∷ IdentityKind.redirect
    ∷ []

-- `IdentityKind(value)`
unfoldable pub identity_kind_of : String → Option IdentityKind
unfolding find identity_kind_value
identity_kind_of value = find (λ m. identity_kind_value m == value) identity_kind_members

pub identity_kind_of-identity_kind_value :
    (m : IdentityKind) → identity_kind_of (identity_kind_value m) ≡ some m
unfolding identity_kind_of identity_kind_value find
identity_kind_of-identity_kind_value IdentityKind.installation = refl
identity_kind_of-identity_kind_value IdentityKind.task = refl
identity_kind_of-identity_kind_value IdentityKind.work_item = refl
identity_kind_of-identity_kind_value IdentityKind.attempt = refl
identity_kind_of-identity_kind_value IdentityKind.dispatch = refl
identity_kind_of-identity_kind_value IdentityKind.event = refl
identity_kind_of-identity_kind_value IdentityKind.evidence = refl
identity_kind_of-identity_kind_value IdentityKind.receipt = refl
identity_kind_of-identity_kind_value IdentityKind.claim = refl
identity_kind_of-identity_kind_value IdentityKind.result = refl
identity_kind_of-identity_kind_value IdentityKind.suspension = refl
identity_kind_of-identity_kind_value IdentityKind.wait_policy = refl
identity_kind_of-identity_kind_value IdentityKind.wake = refl
identity_kind_of-identity_kind_value IdentityKind.principal = refl
identity_kind_of-identity_kind_value IdentityKind.interrupt = refl
identity_kind_of-identity_kind_value IdentityKind.redirect = refl

abbrev pub task_status_members : List TaskStatus
task_status_members =
    TaskStatus.published ∷ TaskStatus.routing_validation ∷ TaskStatus.dispatching
    ∷ TaskStatus.executing ∷ TaskStatus.verifying ∷ TaskStatus.reviewing ∷ TaskStatus.fixing
    ∷ TaskStatus.approval_required ∷ TaskStatus.recording ∷ TaskStatus.done ∷ TaskStatus.blocked
    ∷ TaskStatus.failed ∷ TaskStatus.cancelled ∷ []

-- `TaskStatus(value)`
unfoldable pub task_status_of : String → Option TaskStatus
unfolding find task_status_value
task_status_of value = find (λ m. task_status_value m == value) task_status_members

pub task_status_of-task_status_value :
    (m : TaskStatus) → task_status_of (task_status_value m) ≡ some m
unfolding task_status_of task_status_value find
task_status_of-task_status_value TaskStatus.published = refl
task_status_of-task_status_value TaskStatus.routing_validation = refl
task_status_of-task_status_value TaskStatus.dispatching = refl
task_status_of-task_status_value TaskStatus.executing = refl
task_status_of-task_status_value TaskStatus.verifying = refl
task_status_of-task_status_value TaskStatus.reviewing = refl
task_status_of-task_status_value TaskStatus.fixing = refl
task_status_of-task_status_value TaskStatus.approval_required = refl
task_status_of-task_status_value TaskStatus.recording = refl
task_status_of-task_status_value TaskStatus.done = refl
task_status_of-task_status_value TaskStatus.blocked = refl
task_status_of-task_status_value TaskStatus.failed = refl
task_status_of-task_status_value TaskStatus.cancelled = refl

abbrev pub work_item_status_members : List WorkItemStatus
work_item_status_members =
    WorkItemStatus.pending ∷ WorkItemStatus.eligible ∷ WorkItemStatus.submitted
    ∷ WorkItemStatus.running ∷ WorkItemStatus.completed ∷ WorkItemStatus.partial
    ∷ WorkItemStatus.degraded ∷ WorkItemStatus.blocked ∷ WorkItemStatus.failed
    ∷ WorkItemStatus.cancelled ∷ WorkItemStatus.skipped ∷ []

-- `WorkItemStatus(value)`
unfoldable pub work_item_status_of : String → Option WorkItemStatus
unfolding find work_item_status_value
work_item_status_of value = find (λ m. work_item_status_value m == value) work_item_status_members

pub work_item_status_of-work_item_status_value :
    (m : WorkItemStatus) → work_item_status_of (work_item_status_value m) ≡ some m
unfolding work_item_status_of work_item_status_value find
work_item_status_of-work_item_status_value WorkItemStatus.pending = refl
work_item_status_of-work_item_status_value WorkItemStatus.eligible = refl
work_item_status_of-work_item_status_value WorkItemStatus.submitted = refl
work_item_status_of-work_item_status_value WorkItemStatus.running = refl
work_item_status_of-work_item_status_value WorkItemStatus.completed = refl
work_item_status_of-work_item_status_value WorkItemStatus.partial = refl
work_item_status_of-work_item_status_value WorkItemStatus.degraded = refl
work_item_status_of-work_item_status_value WorkItemStatus.blocked = refl
work_item_status_of-work_item_status_value WorkItemStatus.failed = refl
work_item_status_of-work_item_status_value WorkItemStatus.cancelled = refl
work_item_status_of-work_item_status_value WorkItemStatus.skipped = refl

abbrev pub work_item_requirement_members : List WorkItemRequirement
work_item_requirement_members =
    WorkItemRequirement.required ∷ WorkItemRequirement.optional ∷ WorkItemRequirement.soft ∷ []

-- `WorkItemRequirement(value)`
unfoldable pub work_item_requirement_of : String → Option WorkItemRequirement
unfolding find work_item_requirement_value
work_item_requirement_of value =
    find (λ m. work_item_requirement_value m == value) work_item_requirement_members

pub work_item_requirement_of-work_item_requirement_value :
    (m : WorkItemRequirement) → work_item_requirement_of (work_item_requirement_value m) ≡ some m
unfolding work_item_requirement_of work_item_requirement_value find
work_item_requirement_of-work_item_requirement_value WorkItemRequirement.required = refl
work_item_requirement_of-work_item_requirement_value WorkItemRequirement.optional = refl
work_item_requirement_of-work_item_requirement_value WorkItemRequirement.soft = refl

abbrev pub attempt_status_members : List AttemptStatus
attempt_status_members =
    AttemptStatus.created ∷ AttemptStatus.submitted ∷ AttemptStatus.running
    ∷ AttemptStatus.completed ∷ AttemptStatus.failed ∷ AttemptStatus.cancelled
    ∷ AttemptStatus.fenced ∷ []

-- `AttemptStatus(value)`
unfoldable pub attempt_status_of : String → Option AttemptStatus
unfolding find attempt_status_value
attempt_status_of value = find (λ m. attempt_status_value m == value) attempt_status_members

pub attempt_status_of-attempt_status_value :
    (m : AttemptStatus) → attempt_status_of (attempt_status_value m) ≡ some m
unfolding attempt_status_of attempt_status_value find
attempt_status_of-attempt_status_value AttemptStatus.created = refl
attempt_status_of-attempt_status_value AttemptStatus.submitted = refl
attempt_status_of-attempt_status_value AttemptStatus.running = refl
attempt_status_of-attempt_status_value AttemptStatus.completed = refl
attempt_status_of-attempt_status_value AttemptStatus.failed = refl
attempt_status_of-attempt_status_value AttemptStatus.cancelled = refl
attempt_status_of-attempt_status_value AttemptStatus.fenced = refl

abbrev pub suspension_status_members : List SuspensionStatus
suspension_status_members = SuspensionStatus.waiting ∷ SuspensionStatus.resumed ∷ []

-- `SuspensionStatus(value)`
unfoldable pub suspension_status_of : String → Option SuspensionStatus
unfolding find suspension_status_value
suspension_status_of value =
    find (λ m. suspension_status_value m == value) suspension_status_members

pub suspension_status_of-suspension_status_value :
    (m : SuspensionStatus) → suspension_status_of (suspension_status_value m) ≡ some m
unfolding suspension_status_of suspension_status_value find
suspension_status_of-suspension_status_value SuspensionStatus.waiting = refl
suspension_status_of-suspension_status_value SuspensionStatus.resumed = refl

abbrev pub wake_reason_members : List WakeReason
wake_reason_members = WakeReason.dependency_ready ∷ []

-- `WakeReason(value)`
unfoldable pub wake_reason_of : String → Option WakeReason
unfolding find wake_reason_value
wake_reason_of value = find (λ m. wake_reason_value m == value) wake_reason_members

pub wake_reason_of-wake_reason_value :
    (m : WakeReason) → wake_reason_of (wake_reason_value m) ≡ some m
unfolding wake_reason_of wake_reason_value find
wake_reason_of-wake_reason_value WakeReason.dependency_ready = refl

abbrev pub control_status_members : List ControlStatus
control_status_members = ControlStatus.active ∷ ControlStatus.interrupted ∷ []

-- `ControlStatus(value)`
unfoldable pub control_status_of : String → Option ControlStatus
unfolding find control_status_value
control_status_of value = find (λ m. control_status_value m == value) control_status_members

pub control_status_of-control_status_value :
    (m : ControlStatus) → control_status_of (control_status_value m) ≡ some m
unfolding control_status_of control_status_value find
control_status_of-control_status_value ControlStatus.active = refl
control_status_of-control_status_value ControlStatus.interrupted = refl

abbrev pub control_reason_members : List ControlReason
control_reason_members =
    ControlReason.user_requested ∷ ControlReason.runtime_failed ∷ ControlReason.policy_enforced
    ∷ ControlReason.superseded_by_redirect ∷ []

-- `ControlReason(value)`
unfoldable pub control_reason_of : String → Option ControlReason
unfolding find control_reason_value
control_reason_of value = find (λ m. control_reason_value m == value) control_reason_members

pub control_reason_of-control_reason_value :
    (m : ControlReason) → control_reason_of (control_reason_value m) ≡ some m
unfolding control_reason_of control_reason_value find
control_reason_of-control_reason_value ControlReason.user_requested = refl
control_reason_of-control_reason_value ControlReason.runtime_failed = refl
control_reason_of-control_reason_value ControlReason.policy_enforced = refl
control_reason_of-control_reason_value ControlReason.superseded_by_redirect = refl

abbrev pub cancellation_scope_members : List CancellationScope
cancellation_scope_members =
    CancellationScope.task ∷ CancellationScope.work_item ∷ CancellationScope.attempt ∷ []

-- `CancellationScope(value)`
unfoldable pub cancellation_scope_of : String → Option CancellationScope
unfolding find cancellation_scope_value
cancellation_scope_of value =
    find (λ m. cancellation_scope_value m == value) cancellation_scope_members

pub cancellation_scope_of-cancellation_scope_value :
    (m : CancellationScope) → cancellation_scope_of (cancellation_scope_value m) ≡ some m
unfolding cancellation_scope_of cancellation_scope_value find
cancellation_scope_of-cancellation_scope_value CancellationScope.task = refl
cancellation_scope_of-cancellation_scope_value CancellationScope.work_item = refl
cancellation_scope_of-cancellation_scope_value CancellationScope.attempt = refl

abbrev pub event_kind_members : List EventKind
event_kind_members =
    EventKind.routing_validation_started ∷ EventKind.routing_validation_passed
    ∷ EventKind.dispatch_accepted ∷ EventKind.work_completed ∷ EventKind.verification_passed
    ∷ EventKind.verification_failed ∷ EventKind.review_passed ∷ EventKind.review_rejected
    ∷ EventKind.approval_required_raised ∷ EventKind.fix_dispatch_requested
    ∷ EventKind.approval_granted ∷ EventKind.approval_denied ∷ EventKind.recording_completed
    ∷ EventKind.task_blocked ∷ EventKind.blocked_recovery_to_fixing ∷ EventKind.task_failed
    ∷ EventKind.task_cancelled ∷ EventKind.work_item_eligible ∷ EventKind.attempt_created
    ∷ EventKind.attempt_completed ∷ EventKind.attempt_fenced ∷ EventKind.attempt_submitted
    ∷ EventKind.attempt_running ∷ EventKind.attempt_failed ∷ EventKind.attempt_cancelled
    ∷ EventKind.work_item_partial ∷ EventKind.work_item_degraded ∷ EventKind.work_item_blocked
    ∷ EventKind.work_item_failed ∷ EventKind.work_item_cancelled ∷ EventKind.work_item_skipped
    ∷ EventKind.suspension_started ∷ EventKind.wake_accepted ∷ EventKind.interrupt_requested
    ∷ EventKind.interrupt_resumed ∷ EventKind.redirect_authorized ∷ []

-- `EventKind(value)`
unfoldable pub event_kind_of : String → Option EventKind
unfolding find event_kind_value
event_kind_of value = find (λ m. event_kind_value m == value) event_kind_members

pub event_kind_of-event_kind_value : (m : EventKind) → event_kind_of (event_kind_value m) ≡ some m
unfolding event_kind_of event_kind_value find
event_kind_of-event_kind_value EventKind.routing_validation_started = refl
event_kind_of-event_kind_value EventKind.routing_validation_passed = refl
event_kind_of-event_kind_value EventKind.dispatch_accepted = refl
event_kind_of-event_kind_value EventKind.work_completed = refl
event_kind_of-event_kind_value EventKind.verification_passed = refl
event_kind_of-event_kind_value EventKind.verification_failed = refl
event_kind_of-event_kind_value EventKind.review_passed = refl
event_kind_of-event_kind_value EventKind.review_rejected = refl
event_kind_of-event_kind_value EventKind.approval_required_raised = refl
event_kind_of-event_kind_value EventKind.fix_dispatch_requested = refl
event_kind_of-event_kind_value EventKind.approval_granted = refl
event_kind_of-event_kind_value EventKind.approval_denied = refl
event_kind_of-event_kind_value EventKind.recording_completed = refl
event_kind_of-event_kind_value EventKind.task_blocked = refl
event_kind_of-event_kind_value EventKind.blocked_recovery_to_fixing = refl
event_kind_of-event_kind_value EventKind.task_failed = refl
event_kind_of-event_kind_value EventKind.task_cancelled = refl
event_kind_of-event_kind_value EventKind.work_item_eligible = refl
event_kind_of-event_kind_value EventKind.attempt_created = refl
event_kind_of-event_kind_value EventKind.attempt_completed = refl
event_kind_of-event_kind_value EventKind.attempt_fenced = refl
event_kind_of-event_kind_value EventKind.attempt_submitted = refl
event_kind_of-event_kind_value EventKind.attempt_running = refl
event_kind_of-event_kind_value EventKind.attempt_failed = refl
event_kind_of-event_kind_value EventKind.attempt_cancelled = refl
event_kind_of-event_kind_value EventKind.work_item_partial = refl
event_kind_of-event_kind_value EventKind.work_item_degraded = refl
event_kind_of-event_kind_value EventKind.work_item_blocked = refl
event_kind_of-event_kind_value EventKind.work_item_failed = refl
event_kind_of-event_kind_value EventKind.work_item_cancelled = refl
event_kind_of-event_kind_value EventKind.work_item_skipped = refl
event_kind_of-event_kind_value EventKind.suspension_started = refl
event_kind_of-event_kind_value EventKind.wake_accepted = refl
event_kind_of-event_kind_value EventKind.interrupt_requested = refl
event_kind_of-event_kind_value EventKind.interrupt_resumed = refl
event_kind_of-event_kind_value EventKind.redirect_authorized = refl
