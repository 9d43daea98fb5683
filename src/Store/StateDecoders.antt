-- ===== src/Store/StateDecoders.antt =====
-- valp_cli/kernel_store.py: the decoders of the parts of a kernel state, `_identity` to `_state`.
use visible_agent_loop_proto.Prelude.{
  Option, none, some, [], ◌∷◌, ◌==◌, string_eq, if◌then◌else◌, List, String,
}
use visible_agent_loop_proto.Json.{Json, null}
use visible_agent_loop_proto.Kernel.IdentityKinds.{IdentityKind, identity_kind_eq}
use visible_agent_loop_proto.Kernel.Words.{known}
use visible_agent_loop_proto.Kernel.Identities.{Identity, new_identity}
use visible_agent_loop_proto.Kernel.WorkItems.{Dependency, Attempt, WorkItem}
use visible_agent_loop_proto.Kernel.States.{Suspension, ControlState, AcceptedEvent, State}
use visible_agent_loop_proto.Kernel.Outcomes.{Outcome, returned, raised, value_error, ◌>>=◌}
use visible_agent_loop_proto.Store.Members.{
  identity_kind_of, task_status_of, work_item_status_of, work_item_requirement_of,
  attempt_status_of, suspension_status_of, wake_reason_of, control_status_of,
}
use visible_agent_loop_proto.Store.Shapes.{
  shape, at, optional_at, get, text_of, integer_of, array_of, array_or_empty, word_of, versioned,
}

-- `Identity(kind, value)`, and the check of its kind.
abbrev pub checked_identity : IdentityKind → Option Identity → Outcome Identity
checked_identity kind none = raised (value_error "identity value must be a non-empty string")
checked_identity kind (some i) =
    if i.kind == kind then returned i else raised (value_error "Kernel identity kind mismatch")

-- `_identity(value, kind)`
unfoldable pub identity_from : IdentityKind → Json → Outcome Identity
identity_from kind value = shape value ("kind" ∷ "value" ∷ []) [] >>= λ fs.
    at "kind" fs (word_of identity_kind_of) >>= λ k.
    at "value" fs text_of >>= λ v. checked_identity kind (new_identity k v)

-- `_dependency(value)`
unfoldable pub dependency_from : Json → Outcome Dependency
dependency_from value = shape value ("work_item_id" ∷ "requirement" ∷ []) [] >>= λ fs.
    at "work_item_id" fs (identity_from IdentityKind.work_item) >>= λ i.
    at "requirement" fs (word_of work_item_requirement_of) >>= λ r.
    returned (record { work_item_id = i; requirement = r })

-- `_attempt(value)`
unfoldable pub attempt_from : Json → Outcome Attempt
attempt_from value =
    shape value
      ("task_id" ∷ "work_item_id" ∷ "attempt_id" ∷ "dispatch_id" ∷ "dispatch_generation" ∷ "status"
        ∷ [])
      []
    >>= λ fs. at "task_id" fs (identity_from IdentityKind.task) >>= λ t.
        at "work_item_id" fs (identity_from IdentityKind.work_item) >>= λ w.
        at "attempt_id" fs (identity_from IdentityKind.attempt) >>= λ a.
        at "dispatch_id" fs (identity_from IdentityKind.dispatch) >>= λ d.
        at "dispatch_generation" fs integer_of >>= λ g.
        at "status" fs (word_of attempt_status_of) >>= λ s. returned (record {
          task_id = t;
          work_item_id = w;
          attempt_id = a;
          dispatch_id = d;
          dispatch_generation = g;
          status = s;
        })

-- `_attempt(value) if value is not None else None`
abbrev pub attempt_or_none : Json → Outcome (Option Attempt)
attempt_or_none null = returned none
attempt_or_none value = attempt_from value >>= λ a. returned (some a)

-- `_work_item(value)`
unfoldable pub work_item_from : Json → Outcome WorkItem
work_item_from value =
    shape value
      ("task_id" ∷ "work_item_id" ∷ "requirement" ∷ "status" ∷ "dependencies" ∷ "current_attempt"
        ∷ [])
      []
    >>= λ fs. at "task_id" fs (identity_from IdentityKind.task) >>= λ t.
        at "work_item_id" fs (identity_from IdentityKind.work_item) >>= λ w.
        at "requirement" fs (word_of work_item_requirement_of) >>= λ r.
        at "status" fs (word_of work_item_status_of) >>= λ s.
        at "dependencies" fs (array_of dependency_from) >>= λ ds.
        at "current_attempt" fs attempt_or_none >>= λ a. returned (record {
          task_id = t;
          work_item_id = w;
          requirement = r;
          status = s;
          dependencies = ds;
          current_attempt = a;
        })

abbrev pub suspension_required : List String
suspension_required =
    "task_id" ∷ "suspension_id" ∷ "suspension_epoch" ∷ "status" ∷ "wait_policy_id"
    ∷ "wait_policy_digest" ∷ "required_work_item_ids" ∷ []

abbrev pub suspension_optional : List String
suspension_optional = "accepted_wake_id" ∷ "wake_reason" ∷ []

-- `_suspension(value)`
unfoldable pub suspension_from : Json → Outcome Suspension
suspension_from value = shape value suspension_required suspension_optional >>= λ fs.
    at "task_id" fs (identity_from IdentityKind.task) >>= λ t.
    at "suspension_id" fs (identity_from IdentityKind.suspension) >>= λ i.
    at "suspension_epoch" fs integer_of >>= λ e.
    at "status" fs (word_of suspension_status_of) >>= λ s.
    at "wait_policy_id" fs (identity_from IdentityKind.wait_policy) >>= λ p.
    at "wait_policy_digest" fs text_of >>= λ d.
    at "required_work_item_ids" fs (array_of (identity_from IdentityKind.work_item)) >>= λ ids.
    optional_at "accepted_wake_id" fs (identity_from IdentityKind.wake) >>= λ w.
    optional_at "wake_reason" fs (word_of wake_reason_of) >>= λ r. returned (record {
      task_id = t;
      suspension_id = i;
      suspension_epoch = e;
      status = s;
      wait_policy_id = p;
      wait_policy_digest = d;
      required_work_item_ids = ids;
      accepted_wake_id = w;
      wake_reason = r;
    })

abbrev pub control_required : List String
control_required = "intent_version" ∷ "status" ∷ []

abbrev pub control_optional : List String
control_optional = "active_interrupt_id" ∷ []

-- `_control(value)`
unfoldable pub control_from : Json → Outcome ControlState
control_from value = shape value control_required control_optional >>= λ fs.
    at "intent_version" fs integer_of >>= λ v. at "status" fs (word_of control_status_of) >>= λ s.
    optional_at "active_interrupt_id" fs (identity_from IdentityKind.interrupt) >>= λ i.
    returned (record { intent_version = v; status = s; active_interrupt_id = i })

-- `_accepted_event(value)`
unfoldable pub accepted_event_from : Json → Outcome AcceptedEvent
accepted_event_from value =
    shape value ("event_id" ∷ "result_id" ∷ "input_digest" ∷ "result_digest" ∷ []) [] >>= λ fs.
    at "event_id" fs (identity_from IdentityKind.event) >>= λ e.
    at "result_id" fs (identity_from IdentityKind.result) >>= λ r.
    at "input_digest" fs text_of >>= λ i. at "result_digest" fs text_of >>= λ d.
    returned (record { event_id = e; result_id = r; input_digest = i; result_digest = d })

abbrev pub state_required : List String
state_required =
    "schema_version" ∷ "protocol_version" ∷ "installation_id" ∷ "leader_epoch" ∷ "task_id"
    ∷ "revision" ∷ "status" ∷ "accepted_events" ∷ []

abbrev pub state_optional : List String
state_optional = "work_items" ∷ "suspension" ∷ "control" ∷ []

-- `_state(value)`
unfoldable pub state_from : Json → Outcome State
state_from value = shape value state_required state_optional >>= λ fs.
    versioned "valp-kernel-state.v1" fs (
      at "protocol_version" fs text_of >>= λ v.
      at "installation_id" fs (identity_from IdentityKind.installation) >>= λ i.
      at "leader_epoch" fs integer_of >>= λ l.
      at "task_id" fs (identity_from IdentityKind.task) >>= λ t.
      at "revision" fs integer_of >>= λ r. at "status" fs (word_of task_status_of) >>= λ s.
      at "accepted_events" fs (array_of accepted_event_from) >>= λ es.
      array_or_empty (get "work_items" fs) work_item_from >>= λ ws.
      optional_at "suspension" fs suspension_from >>= λ u.
      optional_at "control" fs control_from >>= λ c. returned (record {
        protocol_version = v;
        installation_id = i;
        leader_epoch = l;
        task_id = t;
        revision = r;
        status = known s;
        accepted_events = es;
        work_items = ws;
        suspension = u;
        control = c;
      }))
