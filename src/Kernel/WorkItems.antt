-- ===== src/Kernel/WorkItems.antt =====
-- valp_cli/protocol_kernel.py: `Dependency`, `Attempt` and `WorkItem`.
use visible_agent_loop_proto.Prelude.{
  ℤ, Bool, true, ◌≡◌, ◌↔◌, Option, none, some, List, [], ◌∷◌, map, ◌&&◌, Eq, ◌==◌, int_eq,
  option_eq, list_eq, arith, refl, pair_eq, parts_iff,
}
use visible_agent_loop_proto.Json.{Json, null, int, str, items, fields}
use visible_agent_loop_proto.Kernel.WorkStatuses.{
  WorkItemStatus, WorkItemRequirement, AttemptStatus, work_item_status_value,
  work_item_requirement_value, attempt_status_value, work_item_status_eq, work_item_requirement_eq,
  attempt_status_eq,
}
use visible_agent_loop_proto.Kernel.Identities.{
  Identity, identity_eq, identity_iff, identity_canonical,
}

pub record Dependency : Type 0 where
  pub work_item_id : Identity
  pub requirement : WorkItemRequirement

unfoldable pub dependency_canonical : Dependency → Json
dependency_canonical d = fields (
    ("work_item_id", identity_canonical d.work_item_id)
    ∷ ("requirement", str (work_item_requirement_value d.requirement))
    ∷ [])

abbrev pub dependency_beq : Dependency → Dependency → Bool
dependency_beq a b = a.work_item_id == b.work_item_id && a.requirement == b.requirement

pub dependency_iff : (a b : Dependency) → (dependency_beq a b ≡ true) ↔ (a ≡ b)
dependency_iff a b = ground (
  arith,
  identity_iff a.work_item_id b.work_item_id,
  work_item_requirement_eq.beq_iff a.requirement b.requirement,
)

instance abbrev pub dependency_eq : Eq Dependency
dependency_eq = record { beq = dependency_beq; beq_iff = dependency_iff }

pub record Attempt : Type 0 where
  pub task_id : Identity
  pub work_item_id : Identity
  pub attempt_id : Identity
  pub dispatch_id : Identity
  pub dispatch_generation : ℤ
  pub status : AttemptStatus

unfoldable pub attempt_canonical : Attempt → Json
attempt_canonical a = fields (
    ("task_id", identity_canonical a.task_id)
    ∷ ("work_item_id", identity_canonical a.work_item_id)
    ∷ ("attempt_id", identity_canonical a.attempt_id)
    ∷ ("dispatch_id", identity_canonical a.dispatch_id)
    ∷ ("dispatch_generation", int a.dispatch_generation)
    ∷ ("status", str (attempt_status_value a.status))
    ∷ [])

abbrev AttemptParts : Type 0
AttemptParts = Identity × (Identity × (Identity × (Identity × (ℤ × (AttemptStatus)))))

abbrev attempt_parts : Attempt → AttemptParts
attempt_parts r = (
  r.task_id,
  (r.work_item_id, (r.attempt_id, (r.dispatch_id, (r.dispatch_generation, (r.status))))),
)

attempt_whole : AttemptParts → Attempt
attempt_whole t = record {
  task_id = t.0;
  work_item_id = t.1.0;
  attempt_id = t.1.1.0;
  dispatch_id = t.1.1.1.0;
  dispatch_generation = t.1.1.1.1.0;
  status = t.1.1.1.1.1;
}

attempt_again : (r : Attempt) → attempt_whole (attempt_parts r) ≡ r
unfolding attempt_whole
attempt_again r = refl

unfoldable pub attempt_beq : Attempt → Attempt → Bool
attempt_beq a b = attempt_parts a == attempt_parts b

pub attempt_iff : (a b : Attempt) → (attempt_beq a b ≡ true) ↔ (a ≡ b)
unfolding attempt_beq
attempt_iff = parts_iff attempt_parts attempt_whole attempt_again

instance abbrev pub attempt_eq : Eq Attempt
attempt_eq = record { beq = attempt_beq; beq_iff = attempt_iff }

pub record WorkItem : Type 0 where
  pub task_id : Identity
  pub work_item_id : Identity
  pub requirement : WorkItemRequirement
  pub status : WorkItemStatus
  pub dependencies : List Dependency
  pub current_attempt : Option Attempt

abbrev pub attempt_or_null : Option Attempt → Json
attempt_or_null none = null
attempt_or_null (some a) = attempt_canonical a

unfoldable pub work_item_canonical : WorkItem → Json
work_item_canonical w = fields (
    ("task_id", identity_canonical w.task_id)
    ∷ ("work_item_id", identity_canonical w.work_item_id)
    ∷ ("requirement", str (work_item_requirement_value w.requirement))
    ∷ ("status", str (work_item_status_value w.status))
    ∷ ("dependencies", items (map dependency_canonical w.dependencies))
    ∷ ("current_attempt", attempt_or_null w.current_attempt)
    ∷ [])

abbrev WorkItemParts : Type 0
WorkItemParts =
    Identity
    × (Identity × (WorkItemRequirement × (WorkItemStatus × (List Dependency × (Option Attempt)))))

abbrev work_item_parts : WorkItem → WorkItemParts
work_item_parts r = (
  r.task_id,
  (r.work_item_id, (r.requirement, (r.status, (r.dependencies, (r.current_attempt))))),
)

work_item_whole : WorkItemParts → WorkItem
work_item_whole t = record {
  task_id = t.0;
  work_item_id = t.1.0;
  requirement = t.1.1.0;
  status = t.1.1.1.0;
  dependencies = t.1.1.1.1.0;
  current_attempt = t.1.1.1.1.1;
}

work_item_again : (r : WorkItem) → work_item_whole (work_item_parts r) ≡ r
unfolding work_item_whole
work_item_again r = refl

unfoldable pub work_item_beq : WorkItem → WorkItem → Bool
work_item_beq a b = work_item_parts a == work_item_parts b

pub work_item_iff : (a b : WorkItem) → (work_item_beq a b ≡ true) ↔ (a ≡ b)
unfolding work_item_beq
work_item_iff = parts_iff work_item_parts work_item_whole work_item_again

instance abbrev pub work_item_eq : Eq WorkItem
work_item_eq = record { beq = work_item_beq; beq_iff = work_item_iff }
