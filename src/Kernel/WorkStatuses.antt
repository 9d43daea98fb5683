-- ===== src/Kernel/WorkStatuses.antt =====
-- valp_cli/protocol_kernel.py: the statuses of a work item and of its attempt.
use visible_agent_loop_proto.Prelude.{
  ℕ, String, ◌≡◌, refl, ◌↔◌, true, Eq, eqb, index_iff, if◌then◌else◌,
}

pub data WorkItemStatus : Type 0 where
  pending eligible submitted running completed partial degraded blocked failed cancelled skipped :
      WorkItemStatus

unfoldable pub work_item_status_value : WorkItemStatus → String
work_item_status_value pending = "pending"
work_item_status_value eligible = "eligible"
work_item_status_value submitted = "submitted"
work_item_status_value running = "running"
work_item_status_value completed = "completed"
work_item_status_value partial = "partial"
work_item_status_value degraded = "degraded"
work_item_status_value blocked = "blocked"
work_item_status_value failed = "failed"
work_item_status_value cancelled = "cancelled"
work_item_status_value skipped = "skipped"

abbrev pub work_item_status_index : WorkItemStatus → ℕ
work_item_status_index pending = 0
work_item_status_index eligible = 1
work_item_status_index submitted = 2
work_item_status_index running = 3
work_item_status_index completed = 4
work_item_status_index partial = 5
work_item_status_index degraded = 6
work_item_status_index blocked = 7
work_item_status_index failed = 8
work_item_status_index cancelled = 9
work_item_status_index skipped = 10

work_item_status_member : ℕ → WorkItemStatus
work_item_status_member n =
    if eqb n 0
    then pending
    else if eqb n 1
    then eligible
    else if eqb n 2
    then submitted
    else if eqb n 3
    then running
    else if eqb n 4
    then completed
    else if eqb n 5
    then partial
    else if eqb n 6
    then degraded
    else if eqb n 7
    then blocked
    else if eqb n 8
    then failed
    else if eqb n 9
    then cancelled
    else skipped

work_item_status_found :
    (a : WorkItemStatus) → work_item_status_member (work_item_status_index a) ≡ a
unfolding work_item_status_member
work_item_status_found pending = refl
work_item_status_found eligible = refl
work_item_status_found submitted = refl
work_item_status_found running = refl
work_item_status_found completed = refl
work_item_status_found partial = refl
work_item_status_found degraded = refl
work_item_status_found blocked = refl
work_item_status_found failed = refl
work_item_status_found cancelled = refl
work_item_status_found skipped = refl

pub work_item_status_iff :
    (a b : WorkItemStatus)
    → (eqb (work_item_status_index a) (work_item_status_index b) ≡ true) ↔ (a ≡ b)
work_item_status_iff =
    index_iff work_item_status_index work_item_status_member work_item_status_found

instance abbrev pub work_item_status_eq : Eq WorkItemStatus
work_item_status_eq = record {
  beq = λ a b. eqb (work_item_status_index a) (work_item_status_index b);
  beq_iff = work_item_status_iff;
}

pub data WorkItemRequirement : Type 0 where
  required optional soft : WorkItemRequirement

unfoldable pub work_item_requirement_value : WorkItemRequirement → String
work_item_requirement_value required = "required"
work_item_requirement_value optional = "optional"
work_item_requirement_value soft = "soft"

abbrev pub work_item_requirement_index : WorkItemRequirement → ℕ
work_item_requirement_index required = 0
work_item_requirement_index optional = 1
work_item_requirement_index soft = 2

work_item_requirement_member : ℕ → WorkItemRequirement
work_item_requirement_member n = if eqb n 0 then required else if eqb n 1 then optional else soft

work_item_requirement_found :
    (a : WorkItemRequirement) → work_item_requirement_member (work_item_requirement_index a) ≡ a
unfolding work_item_requirement_member
work_item_requirement_found required = refl
work_item_requirement_found optional = refl
work_item_requirement_found soft = refl

pub work_item_requirement_iff :
    (a b : WorkItemRequirement)
    → (eqb (work_item_requirement_index a) (work_item_requirement_index b) ≡ true) ↔ (a ≡ b)
work_item_requirement_iff =
    index_iff work_item_requirement_index work_item_requirement_member work_item_requirement_found

instance abbrev pub work_item_requirement_eq : Eq WorkItemRequirement
work_item_requirement_eq = record {
  beq = λ a b. eqb (work_item_requirement_index a) (work_item_requirement_index b);
  beq_iff = work_item_requirement_iff;
}

pub data AttemptStatus : Type 0 where
  created submitted running completed failed cancelled fenced : AttemptStatus

unfoldable pub attempt_status_value : AttemptStatus → String
attempt_status_value created = "created"
attempt_status_value submitted = "submitted"
attempt_status_value running = "running"
attempt_status_value completed = "completed"
attempt_status_value failed = "failed"
attempt_status_value cancelled = "cancelled"
attempt_status_value fenced = "fenced"

abbrev pub attempt_status_index : AttemptStatus → ℕ
attempt_status_index created = 0
attempt_status_index submitted = 1
attempt_status_index running = 2
attempt_status_index completed = 3
attempt_status_index failed = 4
attempt_status_index cancelled = 5
attempt_status_index fenced = 6

attempt_status_member : ℕ → AttemptStatus
attempt_status_member n =
    if eqb n 0
    then created
    else if eqb n 1
    then submitted
    else if eqb n 2
    then running
    else if eqb n 3
    then completed
    else if eqb n 4
    then failed
    else if eqb n 5
    then cancelled
    else fenced

attempt_status_found : (a : AttemptStatus) → attempt_status_member (attempt_status_index a) ≡ a
unfolding attempt_status_member
attempt_status_found created = refl
attempt_status_found submitted = refl
attempt_status_found running = refl
attempt_status_found completed = refl
attempt_status_found failed = refl
attempt_status_found cancelled = refl
attempt_status_found fenced = refl

pub attempt_status_iff :
    (a b : AttemptStatus) → (eqb (attempt_status_index a) (attempt_status_index b) ≡ true) ↔ (a ≡ b)
attempt_status_iff = index_iff attempt_status_index attempt_status_member attempt_status_found

instance abbrev pub attempt_status_eq : Eq AttemptStatus
attempt_status_eq = record {
  beq = λ a b. eqb (attempt_status_index a) (attempt_status_index b);
  beq_iff = attempt_status_iff;
}
