-- ===== src/Kernel/Events.antt =====
-- valp_cli/protocol_kernel.py: `Event`.
use visible_agent_loop_proto.Prelude.{ℤ, String, Option, List, [], ◌∷◌, ◌++◌}
use visible_agent_loop_proto.Json.{Json, int, str, fields}
use visible_agent_loop_proto.Kernel.EventKinds.{EventKind, event_kind_value}
use visible_agent_loop_proto.Kernel.ControlWords.{
  WakeReason, ControlReason, CancellationScope, wake_reason_value, control_reason_value,
  cancellation_scope_value,
}
use visible_agent_loop_proto.Kernel.Words.{Word, word_value}
use visible_agent_loop_proto.Kernel.Identities.{Identity, identity_canonical}
use visible_agent_loop_proto.Kernel.States.{when_present, when_nonempty}

pub record Event : Type 0 where
  pub event_id : Identity
  pub installation_id : Identity
  pub leader_epoch : ℤ
  pub task_id : Identity
  pub kind : Word EventKind
  pub expected_revision : ℤ
  pub work_item_id : Option Identity
  pub attempt_id : Option Identity
  pub dispatch_id : Option Identity
  pub dispatch_generation : Option ℤ
  pub suspension_id : Option Identity
  pub suspension_epoch : Option ℤ
  pub wait_policy_id : Option Identity
  pub wait_policy_digest : Option String
  pub required_work_item_ids : List Identity
  pub wake_id : Option Identity
  pub wake_reason : Option (Word WakeReason)
  pub authority_principal_id : Option Identity
  pub authority_evidence_id : Option Identity
  pub control_reason : Option (Word ControlReason)
  pub cancellation_scope : Option (Word CancellationScope)
  pub interrupt_id : Option Identity
  pub redirect_id : Option Identity
  pub intent_version : Option ℤ
  pub next_intent_version : Option ℤ
  pub superseded_work_item_ids : List Identity

abbrev pub identity_field : String → Option Identity → List (String × Json)
identity_field name i = when_present name identity_canonical i

unfoldable pub event_canonical : Event → Json
event_canonical e = fields (
    (("schema_version", str "valp-kernel-event.v1")
      ∷ ("event_id", identity_canonical e.event_id)
      ∷ ("installation_id", identity_canonical e.installation_id)
      ∷ ("leader_epoch", int e.leader_epoch)
      ∷ ("task_id", identity_canonical e.task_id)
      ∷ ("kind", str (word_value event_kind_value e.kind))
      ∷ ("expected_revision", int e.expected_revision)
      ∷ [])
    ++ identity_field "work_item_id" e.work_item_id
    ++ identity_field "attempt_id" e.attempt_id
    ++ identity_field "dispatch_id" e.dispatch_id
    ++ identity_field "suspension_id" e.suspension_id
    ++ identity_field "wait_policy_id" e.wait_policy_id
    ++ identity_field "wake_id" e.wake_id
    ++ identity_field "authority_principal_id" e.authority_principal_id
    ++ identity_field "authority_evidence_id" e.authority_evidence_id
    ++ identity_field "interrupt_id" e.interrupt_id
    ++ identity_field "redirect_id" e.redirect_id
    ++ when_present "dispatch_generation" int e.dispatch_generation
    ++ when_present "suspension_epoch" int e.suspension_epoch
    ++ when_present "wait_policy_digest" str e.wait_policy_digest
    ++ when_nonempty "required_work_item_ids" identity_canonical e.required_work_item_ids
    ++ when_present "wake_reason" (λ w. str (word_value wake_reason_value w)) e.wake_reason
    ++ when_present "control_reason" (λ w. str (word_value control_reason_value w)) e.control_reason
    ++ when_present "cancellation_scope" (λ w. str (word_value cancellation_scope_value w))
        e.cancellation_scope
    ++ when_present "intent_version" int e.intent_version
    ++ when_present "next_intent_version" int e.next_intent_version
    ++ when_nonempty "superseded_work_item_ids" identity_canonical e.superseded_work_item_ids)
