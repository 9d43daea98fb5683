-- ===== src/Kernel/Samples.antt =====
-- Concrete inputs for the tests: a digest function, a task with two work items, and its events.
use visible_agent_loop_proto.Prelude.{
  ℕ, ◌+◌, ◌%◌, pos, String, true, ◌≡◌, Option, none, some, List, [], ◌∷◌, eqb, Bool-cases, inl, inr,
  if◌then◌else◌, all, contains,
}
use visible_agent_loop_proto.Kernel.IdentityKinds.{IdentityKind}
use visible_agent_loop_proto.Kernel.TaskStatuses.{TaskStatus}
use visible_agent_loop_proto.Kernel.WorkStatuses.{
  WorkItemStatus, WorkItemRequirement, AttemptStatus,
}
use visible_agent_loop_proto.Kernel.ControlWords.{ControlReason, CancellationScope}
use visible_agent_loop_proto.Kernel.EventKinds.{EventKind}
use visible_agent_loop_proto.Kernel.Words.{known}
use visible_agent_loop_proto.Kernel.Identities.{Identity, Evidence}
use visible_agent_loop_proto.Kernel.WorkItems.{Dependency, Attempt, WorkItem}
use visible_agent_loop_proto.Kernel.States.{State}
use visible_agent_loop_proto.Kernel.Events.{Event}
use visible_agent_loop_proto.Kernel.Digests.{codes, is_hexdigest, Sha256}

-- A checksum in the place of SHA-256: the parity of the code points, as 64 digits.
abbrev pub even_digest : String
even_digest = "0000000000000000000000000000000000000000000000000000000000000000"

abbrev odd_digest : String
odd_digest = "1111111111111111111111111111111111111111111111111111111111111111"

abbrev sum : List ℕ → ℕ
sum [] = 0
sum (x ∷ xs) = x + sum xs

unfoldable pub checksum : String → String
unfolding codes
checksum t = if eqb (sum (codes t) % 2) 0 then even_digest else odd_digest

pub checksum-is_hexdigest : (t : String) → is_hexdigest (checksum t) ≡ true
unfolding checksum is_hexdigest all contains
checksum-is_hexdigest t = elim (Bool-cases (eqb (sum (codes t) % 2) 0)) [
  | inl e ↦ rw e
  | inr e ↦ rw e
]

instance abbrev pub parity : Sha256
parity = record { hexdigest = checksum; hexdigest-is_hexdigest = checksum-is_hexdigest }

abbrev pub id : IdentityKind → String → Identity
id kind value = record { kind = kind; value = value }

abbrev pub task_id : Identity
task_id = id IdentityKind.task "t1"

abbrev pub item : String → WorkItemStatus → List Dependency → Option Attempt → WorkItem
item name status dependencies attempt = record {
  task_id = task_id;
  work_item_id = id IdentityKind.work_item name;
  requirement = WorkItemRequirement.required;
  status = status;
  dependencies = dependencies;
  current_attempt = attempt;
}

abbrev pub attempt_on : String → AttemptStatus → Attempt
attempt_on name status = record {
  task_id = task_id;
  work_item_id = id IdentityKind.work_item name;
  attempt_id = id IdentityKind.attempt "a1";
  dispatch_id = id IdentityKind.dispatch "d1";
  dispatch_generation = pos 1;
  status = status;
}

abbrev pub state_with : TaskStatus → List WorkItem → State
state_with status work_items = record {
  protocol_version = "0.3.0";
  installation_id = id IdentityKind.installation "i1";
  leader_epoch = pos 1;
  task_id = task_id;
  revision = pos 0;
  status = known status;
  accepted_events = [];
  work_items = work_items;
  suspension = none;
  control = none;
}

abbrev pub needs_a : List Dependency
needs_a =
    record {
      work_item_id = id IdentityKind.work_item "a";
      requirement = WorkItemRequirement.required;
    }
    ∷ []

abbrev pub published : State
published = state_with TaskStatus.published (
    item "a" WorkItemStatus.running [] (some (attempt_on "a" AttemptStatus.running))
    ∷ item "b" WorkItemStatus.pending needs_a none
    ∷ [])

abbrev pub event : String → EventKind → ℕ → Event
event name kind revision = record {
  event_id = id IdentityKind.event name;
  installation_id = id IdentityKind.installation "i1";
  leader_epoch = pos 1;
  task_id = task_id;
  kind = known kind;
  expected_revision = pos revision;
  work_item_id = none;
  attempt_id = none;
  dispatch_id = none;
  dispatch_generation = none;
  suspension_id = none;
  suspension_epoch = none;
  wait_policy_id = none;
  wait_policy_digest = none;
  required_work_item_ids = [];
  wake_id = none;
  wake_reason = none;
  authority_principal_id = none;
  authority_evidence_id = none;
  control_reason = none;
  cancellation_scope = none;
  interrupt_id = none;
  redirect_id = none;
  intent_version = none;
  next_intent_version = none;
  superseded_work_item_ids = [];
}

abbrev pub on_item_event : String → EventKind → ℕ → String → Event
on_item_event name kind revision item_name = record (event name kind revision) {
  work_item_id = some (id IdentityKind.work_item item_name);
}

-- An event about the attempt of `attempt_on`.
abbrev pub on_attempt_event : String → EventKind → ℕ → String → Event
on_attempt_event name kind revision item_name =
    record (on_item_event name kind revision item_name) {
      attempt_id = some (id IdentityKind.attempt "a1");
      dispatch_id = some (id IdentityKind.dispatch "d1");
      dispatch_generation = some (pos 1);
    }

abbrev pub some_digest : String
some_digest = "sha256:0000000000000000000000000000000000000000000000000000000000000000"

abbrev pub authority : List Evidence
authority =
    record { evidence_id = id IdentityKind.evidence "v1"; content_digest = some_digest } ∷ []

-- An event that names its principal, its evidence and its reason.
abbrev pub authorised : Event → Event
authorised e = record e {
  authority_principal_id = some (id IdentityKind.principal "p1");
  authority_evidence_id = some (id IdentityKind.evidence "v1");
  control_reason = some (known ControlReason.user_requested);
}

abbrev pub interruption : String → ℕ → Event
interruption name revision =
    record (authorised (event name EventKind.interrupt_requested revision)) {
      interrupt_id = some (id IdentityKind.interrupt "n1");
      intent_version = some (pos 0);
    }

abbrev pub cancellation : String → ℕ → Event
cancellation name revision = record (authorised (event name EventKind.task_cancelled revision)) {
  cancellation_scope = some (known CancellationScope.task);
}
