-- ===== src/Kernel/Facts.antt =====
-- The checks of valp_cli/protocol_kernel.py taken apart: one equation for each condition.
use visible_agent_loop_proto.Prelude.{
  pos, true, false, not, List, ◌≡◌, ◌&&◌, length, all, is_distinct, arith, ◌==◌, int_eq, string_eq,
}
use visible_agent_loop_proto.Kernel.IdentityKinds.{IdentityKind}
use visible_agent_loop_proto.Kernel.TaskStatuses.{TaskStatus}
use visible_agent_loop_proto.Kernel.EventKinds.{EventKind}
use visible_agent_loop_proto.Kernel.Words.{is_known}
use visible_agent_loop_proto.Kernel.Identities.{Evidence, identity_eq, has_identity_kind}
use visible_agent_loop_proto.Kernel.States.{State}
use visible_agent_loop_proto.Kernel.Events.{Event}
use visible_agent_loop_proto.Kernel.Validity.{
  protocol_version, is_non_negative_int, absent_or, of_kind, has_status, accepted_event_is_valid,
  work_item_is_valid, work_item_ids, suspension_is_valid, control_is_valid, state_header_is_valid,
  event_ids, result_ids, state_is_valid, event_is_valid, evidence_set_is_valid,
  event_header_is_valid, work_fields_are_valid, wait_fields_are_valid, control_fields_are_valid,
}
use visible_agent_loop_proto.Kernel.Authority.{authority_is_valid, is_authority_bound}
use visible_agent_loop_proto.Kernel.Reduce.{inputs_are_valid}

pub record StateParts (s : State) : Type 0 where
  pub header : state_header_is_valid s ≡ true
  pub events_valid : all accepted_event_is_valid s.accepted_events ≡ true
  pub items_valid : all (work_item_is_valid s.task_id) s.work_items ≡ true
  pub suspended_executing :
      absent_or (λ _. has_status s.status TaskStatus.executing) s.suspension ≡ true
  pub suspension_valid :
      absent_or (suspension_is_valid s.task_id (work_item_ids s.work_items)) s.suspension ≡ true
  pub control_valid : absent_or control_is_valid s.control ≡ true
  pub events_distinct : is_distinct (event_ids s.accepted_events) ≡ true
  pub results_distinct : is_distinct (result_ids s.accepted_events) ≡ true
  pub items_distinct : is_distinct (work_item_ids s.work_items) ≡ true

pub parts_of_state : (s : State) → state_is_valid s ≡ true → StateParts s
unfolding state_is_valid
parts_of_state s h = ground arith

pub state_of_parts : (s : State) → StateParts s → state_is_valid s ≡ true
unfolding state_is_valid
state_of_parts s p = ground arith

pub record HeaderParts (s : State) : Type 0 where
  pub version : (s.protocol_version == protocol_version) ≡ true
  pub installation : of_kind IdentityKind.installation s.installation_id ≡ true
  pub task : of_kind IdentityKind.task s.task_id ≡ true
  pub epoch : is_non_negative_int s.leader_epoch ≡ true
  pub revision_natural : is_non_negative_int s.revision ≡ true
  pub status_known : is_known s.status ≡ true
  pub revision_counts : (s.revision == pos (length s.accepted_events)) ≡ true
  pub first_published :
      (s.revision == pos 0 && not (has_status s.status TaskStatus.published)) ≡ false

pub parts_of_header : (s : State) → state_header_is_valid s ≡ true → HeaderParts s
unfolding state_header_is_valid
parts_of_header s h = ground arith

pub header_of_parts : (s : State) → HeaderParts s → state_header_is_valid s ≡ true
unfolding state_header_is_valid
header_of_parts s p = ground arith

pub record InputParts (kind : EventKind) (s : State) (e : Event) (ev : List Evidence) : Type 0 where
  pub state_valid : state_is_valid s ≡ true
  pub event_valid : event_is_valid e ≡ true
  pub evidence_valid : evidence_set_is_valid ev ≡ true
  pub same_installation : (e.installation_id == s.installation_id) ≡ true
  pub same_epoch : (e.leader_epoch == s.leader_epoch) ≡ true
  pub authority : authority_is_valid kind e ev ≡ true

pub parts_of_inputs :
    (kind : EventKind) (s : State) (e : Event) (ev : List Evidence)
    → inputs_are_valid kind s e ev ≡ true
    → InputParts kind s e ev
unfolding inputs_are_valid
parts_of_inputs kind s e ev h = ground arith

pub record EventParts (e : Event) : Type 0 where
  pub header : event_header_is_valid e ≡ true
  pub work : work_fields_are_valid e ≡ true
  pub wait : wait_fields_are_valid e ≡ true
  pub control : control_fields_are_valid e ≡ true

pub parts_of_event : (e : Event) → event_is_valid e ≡ true → EventParts e
unfolding event_is_valid
parts_of_event e h = ground arith

-- An authority-bound event names its principal.
pub principal_present :
    (kind : EventKind) (e : Event) (ev : List Evidence)
    → authority_is_valid kind e ev ≡ true
    → is_authority_bound kind ≡ true
    → has_identity_kind e.authority_principal_id IdentityKind.principal ≡ true
unfolding authority_is_valid
principal_present kind e ev h b = ground arith
