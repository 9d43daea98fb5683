-- ===== src/Kernel/States.antt =====
-- valp_cli/protocol_kernel.py: `Suspension`, `ControlState`, `AcceptedEvent` and `State`.
use visible_agent_loop_proto.Prelude.{ℤ, String, Option, none, some, List, [], ◌∷◌, ◌++◌, map}
use visible_agent_loop_proto.Json.{Json, int, str, items, fields}
use visible_agent_loop_proto.Kernel.TaskStatuses.{TaskStatus, task_status_value}
use visible_agent_loop_proto.Kernel.ControlWords.{
  SuspensionStatus, WakeReason, ControlStatus, suspension_status_value, wake_reason_value,
  control_status_value,
}
use visible_agent_loop_proto.Kernel.Words.{Word, word_value}
use visible_agent_loop_proto.Kernel.Identities.{Identity, identity_canonical}
use visible_agent_loop_proto.Kernel.WorkItems.{WorkItem, work_item_canonical}

-- `if value is not None: record[name] = f(value)`
abbrev pub when_present {ℓ} : {A : Type ℓ} → String → (A → Json) → Option A → List (String × Json)
when_present name f none = []
when_present name f (some a) = (name, f a) ∷ []

-- `if values: record[name] = [f(value) for value in values]`
abbrev pub when_nonempty {ℓ} : {A : Type ℓ} → String → (A → Json) → List A → List (String × Json)
when_nonempty name f [] = []
when_nonempty name f (x ∷ xs) = (name, items (map f (x ∷ xs))) ∷ []

pub record Suspension : Type 0 where
  pub task_id : Identity
  pub suspension_id : Identity
  pub suspension_epoch : ℤ
  pub status : SuspensionStatus
  pub wait_policy_id : Identity
  pub wait_policy_digest : String
  pub required_work_item_ids : List Identity
  pub accepted_wake_id : Option Identity
  pub wake_reason : Option WakeReason

unfoldable pub suspension_canonical : Suspension → Json
suspension_canonical s = fields (
    (("task_id", identity_canonical s.task_id)
      ∷ ("suspension_id", identity_canonical s.suspension_id)
      ∷ ("suspension_epoch", int s.suspension_epoch)
      ∷ ("status", str (suspension_status_value s.status))
      ∷ ("wait_policy_id", identity_canonical s.wait_policy_id)
      ∷ ("wait_policy_digest", str s.wait_policy_digest)
      ∷ ("required_work_item_ids", items (map identity_canonical s.required_work_item_ids))
      ∷ [])
    ++ when_present "accepted_wake_id" identity_canonical s.accepted_wake_id
    ++ when_present "wake_reason" (λ r. str (wake_reason_value r)) s.wake_reason)

pub record ControlState : Type 0 where
  pub intent_version : ℤ
  pub status : ControlStatus
  pub active_interrupt_id : Option Identity

unfoldable pub control_state_canonical : ControlState → Json
control_state_canonical c = fields (
    (("intent_version", int c.intent_version)
      ∷ ("status", str (control_status_value c.status))
      ∷ [])
    ++ when_present "active_interrupt_id" identity_canonical c.active_interrupt_id)

pub record AcceptedEvent : Type 0 where
  pub event_id : Identity
  pub result_id : Identity
  pub input_digest : String
  pub result_digest : String

unfoldable pub accepted_event_canonical : AcceptedEvent → Json
accepted_event_canonical a = fields (
    ("event_id", identity_canonical a.event_id)
    ∷ ("result_id", identity_canonical a.result_id)
    ∷ ("input_digest", str a.input_digest)
    ∷ ("result_digest", str a.result_digest)
    ∷ [])

pub record State : Type 0 where
  pub protocol_version : String
  pub installation_id : Identity
  pub leader_epoch : ℤ
  pub task_id : Identity
  pub revision : ℤ
  pub status : Word TaskStatus
  pub accepted_events : List AcceptedEvent
  pub work_items : List WorkItem
  pub suspension : Option Suspension
  pub control : Option ControlState

unfoldable pub state_canonical : State → Json
state_canonical s = fields (
    (("schema_version", str "valp-kernel-state.v1")
      ∷ ("protocol_version", str s.protocol_version)
      ∷ ("installation_id", identity_canonical s.installation_id)
      ∷ ("leader_epoch", int s.leader_epoch)
      ∷ ("task_id", identity_canonical s.task_id)
      ∷ ("revision", int s.revision)
      ∷ ("status", str (word_value task_status_value s.status))
      ∷ ("accepted_events", items (map accepted_event_canonical s.accepted_events))
      ∷ [])
    ++ when_nonempty "work_items" work_item_canonical s.work_items
    ++ when_present "suspension" suspension_canonical s.suspension
    ++ when_present "control" control_state_canonical s.control)
