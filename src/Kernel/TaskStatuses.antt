-- ===== src/Kernel/TaskStatuses.antt =====
-- valp_cli/protocol_kernel.py: the status of a task.
use visible_agent_loop_proto.Prelude.{
  ℕ, String, ◌≡◌, refl, ◌↔◌, true, Eq, eqb, index_iff, if◌then◌else◌,
}

pub data TaskStatus : Type 0 where
  published routing_validation dispatching executing verifying reviewing fixing approval_required
        recording done blocked failed cancelled :
      TaskStatus

unfoldable pub task_status_value : TaskStatus → String
task_status_value published = "published"
task_status_value routing_validation = "routing_validation"
task_status_value dispatching = "dispatching"
task_status_value executing = "executing"
task_status_value verifying = "verifying"
task_status_value reviewing = "reviewing"
task_status_value fixing = "fixing"
task_status_value approval_required = "approval_required"
task_status_value recording = "recording"
task_status_value done = "done"
task_status_value blocked = "blocked"
task_status_value failed = "failed"
task_status_value cancelled = "cancelled"

abbrev pub task_status_index : TaskStatus → ℕ
task_status_index published = 0
task_status_index routing_validation = 1
task_status_index dispatching = 2
task_status_index executing = 3
task_status_index verifying = 4
task_status_index reviewing = 5
task_status_index fixing = 6
task_status_index approval_required = 7
task_status_index recording = 8
task_status_index done = 9
task_status_index blocked = 10
task_status_index failed = 11
task_status_index cancelled = 12

task_status_member : ℕ → TaskStatus
task_status_member n =
    if eqb n 0
    then published
    else if eqb n 1
    then routing_validation
    else if eqb n 2
    then dispatching
    else if eqb n 3
    then executing
    else if eqb n 4
    then verifying
    else if eqb n 5
    then reviewing
    else if eqb n 6
    then fixing
    else if eqb n 7
    then approval_required
    else if eqb n 8
    then recording
    else if eqb n 9
    then done
    else if eqb n 10
    then blocked
    else if eqb n 11
    then failed
    else cancelled

task_status_found : (a : TaskStatus) → task_status_member (task_status_index a) ≡ a
unfolding task_status_member
task_status_found published = refl
task_status_found routing_validation = refl
task_status_found dispatching = refl
task_status_found executing = refl
task_status_found verifying = refl
task_status_found reviewing = refl
task_status_found fixing = refl
task_status_found approval_required = refl
task_status_found recording = refl
task_status_found done = refl
task_status_found blocked = refl
task_status_found failed = refl
task_status_found cancelled = refl

pub task_status_iff :
    (a b : TaskStatus) → (eqb (task_status_index a) (task_status_index b) ≡ true) ↔ (a ≡ b)
task_status_iff = index_iff task_status_index task_status_member task_status_found

instance abbrev pub task_status_eq : Eq TaskStatus
task_status_eq = record {
  beq = λ a b. eqb (task_status_index a) (task_status_index b);
  beq_iff = task_status_iff;
}
