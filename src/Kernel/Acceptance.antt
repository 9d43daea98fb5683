-- ===== src/Kernel/Acceptance.antt =====
-- valp_cli/protocol_kernel.py: `_reject`, `_accepted_result_digest`, and the accepted result of
-- `reduce`.
use Prim.Native.String.{◌++◌ as concat}
use visible_agent_loop_proto.Prelude.{
  String, Bool, true, false, Option, none, some, List, [], ◌∷◌, ◌++◌, map, add_one, int_eq,
  string_eq, if◌then◌else◌,
}
use visible_agent_loop_proto.Json.{Json, int, str, items, fields}
use visible_agent_loop_proto.Kernel.IdentityKinds.{identity_kind_value}
use visible_agent_loop_proto.Kernel.TaskStatuses.{TaskStatus, task_status_eq, task_status_value}
use visible_agent_loop_proto.Kernel.ControlWords.{suspension_status_eq, control_status_eq}
use visible_agent_loop_proto.Kernel.EventKinds.{
  ResultVariant, KernelErrorCode, result_variant_value, kernel_error_code_value,
}
use visible_agent_loop_proto.Kernel.Words.{known, word_value}
use visible_agent_loop_proto.Kernel.Identities.{Identity, identity_eq, identity_canonical}
use visible_agent_loop_proto.Kernel.States.{Suspension, State, state_canonical}
use visible_agent_loop_proto.Kernel.Events.{Event}
use visible_agent_loop_proto.Kernel.Results.{Accepted, Result}
use visible_agent_loop_proto.Kernel.Digests.{Sha256, digest}
use visible_agent_loop_proto.Kernel.Outcomes.{Outcome, returned, Change}

-- `next_state.work_items or next_state.suspension is not None or next_state.control is not None`
abbrev pub has_parts : State → Bool
has_parts s = elim s.work_items [
  | x ∷ xs ↦ true
  | [] ↦ elim s.suspension [
    | some x ↦ true
    | none ↦ elim s.control [ some c ↦ true | none ↦ false ]
  ]
]

-- The state, as the digest of an accepted result sees it.
unfoldable pub digested_state : State → Json
digested_state next_state =
    if has_parts next_state
    then state_canonical next_state
    else fields (
        ("protocol_version", str next_state.protocol_version)
        ∷ ("installation_id", identity_canonical next_state.installation_id)
        ∷ ("leader_epoch", int next_state.leader_epoch)
        ∷ ("task_id", identity_canonical next_state.task_id)
        ∷ ("revision", int next_state.revision)
        ∷ ("status", str (word_value task_status_value next_state.status))
        ∷ [])

unfoldable pub reject : State → String → KernelErrorCode → Option Identity → Option String → Result
reject state digest_of_input error_code prior_result_id prior_result_digest =
    Result.rejected (record {
      state = state;
      input_digest = digest_of_input;
      error_code = kernel_error_code_value error_code;
      prior_result_id = prior_result_id;
      prior_result_digest = prior_result_digest;
    })

abbrev pub rejection : State → String → KernelErrorCode → Outcome Result
rejection state digest_of_input error_code =
    returned (reject state digest_of_input error_code none none)

abbrev pub refused : State → String → Outcome Result
refused state digest_of_input = rejection state digest_of_input KernelErrorCode.state_conflict

module _ ⦃sha : Sha256⦄ where
  unfoldable pub accepted_result_digest :
      Identity → Identity → State → State → String → List String → List String → String
  accepted_result_digest result_id event_id prior_state next_state digest_of_input obligations
        audit_facts =
      digest (
        fields (
          ("variant", str (result_variant_value ResultVariant.accepted))
          ∷ ("result_id", identity_canonical result_id)
          ∷ ("event_id", identity_canonical event_id)
          ∷ ("input_digest", str digest_of_input)
          ∷ ("prior_state_digest", str (digest (state_canonical prior_state)))
          ∷ ("state", digested_state next_state)
          ∷ ("obligations", items (map str obligations))
          ∷ ("audit_facts", items (map str audit_facts))
          ∷ []))

  -- `result_state`: the next state before the event joins the history.
  abbrev pub result_state : State → TaskStatus → Change → Option Suspension → State
  result_state state target change suspension = record {
    protocol_version = state.protocol_version;
    installation_id = state.installation_id;
    leader_epoch = state.leader_epoch;
    task_id = state.task_id;
    revision = add_one state.revision;
    status = known target;
    accepted_events = [];
    work_items = change.work_items;
    suspension = suspension;
    control = change.control;
  }

  abbrev pub audit_trail : Event → Change → List String
  audit_trail event change =
      concat "accepted:"
        (concat (identity_kind_value event.event_id.kind) (concat ":" event.event_id.value))
      ∷ change.audit_facts

  unfoldable pub accept :
      State → Event → String → TaskStatus → Change → Option Suspension → Identity → Accepted
  accept state event digest_of_input target change suspension result_id =
      let result_digest =
        accepted_result_digest result_id event.event_id state
          (result_state state target change suspension) digest_of_input change.obligations
          (audit_trail event change) in
      record {
        result_id = result_id;
        state = record (result_state state target change suspension) {
          accepted_events =
              state.accepted_events
              ++ (record {
                event_id = event.event_id;
                result_id = result_id;
                input_digest = digest_of_input;
                result_digest = result_digest;
              })
                ∷ [];
        };
        input_digest = digest_of_input;
        result_digest = result_digest;
        obligations = change.obligations;
        audit_facts = audit_trail event change;
      }
