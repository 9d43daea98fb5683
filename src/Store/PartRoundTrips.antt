-- ===== src/Store/PartRoundTrips.antt =====
-- The decoders of valp_cli/kernel_store.py undo the canonical forms of the parts of a state.
use visible_agent_loop_proto.Store.ShapeLemmas.{Given, each-map}
use visible_agent_loop_proto.Prelude.{
  ◌≡◌, refl, all, string_eq, is_subset, contains, arith, Option, none, some,
}
use visible_agent_loop_proto.Kernel.IdentityKinds.{IdentityKind, identity_kind_eq}
use visible_agent_loop_proto.Kernel.Identities.{Identity, identity_canonical, new_identity}
use visible_agent_loop_proto.Kernel.WorkItems.{
  Dependency, dependency_canonical, Attempt, attempt_canonical, WorkItem, work_item_canonical,
  attempt_or_null,
}
use visible_agent_loop_proto.Kernel.States.{AcceptedEvent, accepted_event_canonical}
use visible_agent_loop_proto.Kernel.Outcomes.{returned}
use visible_agent_loop_proto.Store.Members.{
  identity_kind_of-identity_kind_value, work_item_requirement_of-work_item_requirement_value,
  attempt_status_of-attempt_status_value, work_item_status_of-work_item_status_value,
}
use visible_agent_loop_proto.Store.Shapes.{get}
use visible_agent_loop_proto.Store.Readable.{
  Named, ReadableDependency, ReadableAttempt, ReadableAcceptedEvent, ReadableItem,
}
use visible_agent_loop_proto.Store.StateDecoders.{
  identity_from, dependency_from, attempt_from, accepted_event_from, checked_identity,
  attempt_or_none, work_item_from,
}

checked_identity-Named :
    (kind : IdentityKind) (i : Identity)
    → Named kind i
    → checked_identity kind (new_identity i.kind i.value) ≡ returned i
unfolding new_identity
checked_identity-Named kind i n =
    rw n.has_value (ground (arith, n.of_that_kind, identity_kind_eq.beq_iff i.kind kind))

pub identity_from-identity_canonical :
    (kind : IdentityKind) (i : Identity)
    → Named kind i
    → identity_from kind (identity_canonical i) ≡ returned i
unfolding identity_from identity_canonical get is_subset all contains
identity_from-identity_canonical kind i n =
    rw (identity_kind_of-identity_kind_value i.kind) (checked_identity-Named kind i n)

pub dependency_from-dependency_canonical :
    (d : Dependency) → ReadableDependency d → dependency_from (dependency_canonical d) ≡ returned d
unfolding dependency_from dependency_canonical get is_subset all contains
dependency_from-dependency_canonical d n =
    rw (identity_from-identity_canonical IdentityKind.work_item d.work_item_id n)
      (rw (work_item_requirement_of-work_item_requirement_value d.requirement) refl)

pub attempt_from-attempt_canonical :
    (a : Attempt) → ReadableAttempt a → attempt_from (attempt_canonical a) ≡ returned a
unfolding attempt_from attempt_canonical get is_subset all contains
attempt_from-attempt_canonical a n =
    rw (identity_from-identity_canonical IdentityKind.task a.task_id n.task) (
      rw (identity_from-identity_canonical IdentityKind.work_item a.work_item_id n.item) (
        rw (identity_from-identity_canonical IdentityKind.attempt a.attempt_id n.attempt) (
          rw (identity_from-identity_canonical IdentityKind.dispatch a.dispatch_id n.dispatch)
            (rw (attempt_status_of-attempt_status_value a.status) refl))))

pub accepted_event_from-accepted_event_canonical :
    (e : AcceptedEvent)
    → ReadableAcceptedEvent e
    → accepted_event_from (accepted_event_canonical e) ≡ returned e
unfolding accepted_event_from accepted_event_canonical get is_subset all contains
accepted_event_from-accepted_event_canonical e n =
    rw (identity_from-identity_canonical IdentityKind.event e.event_id n.event)
      (rw (identity_from-identity_canonical IdentityKind.result e.result_id n.result) refl)

attempt_or_none-attempt_or_null :
    (o : Option Attempt)
    → Given ReadableAttempt o
    → attempt_or_none (attempt_or_null o) ≡ returned o
unfolding attempt_canonical
attempt_or_none-attempt_or_null none h = refl
attempt_or_none-attempt_or_null (some a) h = rw (attempt_from-attempt_canonical a h) refl

pub work_item_from-work_item_canonical :
    (w : WorkItem) → ReadableItem w → work_item_from (work_item_canonical w) ≡ returned w
unfolding work_item_from work_item_canonical get is_subset all contains
work_item_from-work_item_canonical w n =
    rw (identity_from-identity_canonical IdentityKind.task w.task_id n.task) (
      rw (identity_from-identity_canonical IdentityKind.work_item w.work_item_id n.item) (
        rw (work_item_requirement_of-work_item_requirement_value w.requirement) (
          rw (work_item_status_of-work_item_status_value w.status) (
            rw
              (each-map ReadableDependency dependency_from dependency_canonical w.dependencies
                dependency_from-dependency_canonical n.dependencies)
              (rw (attempt_or_none-attempt_or_null w.current_attempt n.attempt) refl)))))
