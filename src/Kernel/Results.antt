-- ===== src/Kernel/Results.antt =====
-- valp_cli/protocol_kernel.py: `Accepted`, `NoOp`, `Rejected`, `Result` and `Replay`. A `Result`
-- holds exactly one of its three variants, which its constructor checks: it is a sum here.
use visible_agent_loop_proto.Prelude.{String, Option, List, [], ◌∷◌, ◌++◌, map}
use visible_agent_loop_proto.Json.{Json, str, items, fields}
use visible_agent_loop_proto.Kernel.EventKinds.{ResultVariant, result_variant_value}
use visible_agent_loop_proto.Kernel.Identities.{Identity, identity_canonical}
use visible_agent_loop_proto.Kernel.States.{State, state_canonical, when_present}

pub record Accepted : Type 0 where
  pub result_id : Identity
  pub state : State
  pub input_digest : String
  pub result_digest : String
  pub obligations : List String
  pub audit_facts : List String

unfoldable pub accepted_canonical : Accepted → Json
accepted_canonical a = fields (
    ("schema_version", str "valp-kernel-result.v1")
    ∷ ("variant", str (result_variant_value ResultVariant.accepted))
    ∷ ("result_id", identity_canonical a.result_id)
    ∷ ("state", state_canonical a.state)
    ∷ ("input_digest", str a.input_digest)
    ∷ ("result_digest", str a.result_digest)
    ∷ ("obligations", items (map str a.obligations))
    ∷ ("audit_facts", items (map str a.audit_facts))
    ∷ [])

pub record NoOp : Type 0 where
  pub state : State
  pub input_digest : String
  pub prior_result_id : Identity
  pub prior_result_digest : String

unfoldable pub no_op_canonical : NoOp → Json
no_op_canonical n = fields (
    ("schema_version", str "valp-kernel-result.v1")
    ∷ ("variant", str (result_variant_value ResultVariant.no_op))
    ∷ ("state", state_canonical n.state)
    ∷ ("input_digest", str n.input_digest)
    ∷ ("prior_result_id", identity_canonical n.prior_result_id)
    ∷ ("prior_result_digest", str n.prior_result_digest)
    ∷ [])

pub record Rejected : Type 0 where
  pub state : State
  pub input_digest : String
  pub error_code : String
  pub prior_result_id : Option Identity
  pub prior_result_digest : Option String

unfoldable pub rejected_canonical : Rejected → Json
rejected_canonical r = fields (
    (("schema_version", str "valp-kernel-result.v1")
      ∷ ("variant", str (result_variant_value ResultVariant.rejected))
      ∷ ("state", state_canonical r.state)
      ∷ ("input_digest", str r.input_digest)
      ∷ ("error_code", str r.error_code)
      ∷ [])
    ++ when_present "prior_result_id" identity_canonical r.prior_result_id
    ++ when_present "prior_result_digest" str r.prior_result_digest)

pub data Result : Type 0 where
  accepted : Accepted → Result
  no_op : NoOp → Result
  rejected : Rejected → Result

-- The property `Result.variant`.
unfoldable pub variant : Result → ResultVariant
variant (Result.accepted a) = ResultVariant.accepted
variant (Result.no_op n) = ResultVariant.no_op
variant (Result.rejected r) = ResultVariant.rejected

unfoldable pub result_canonical : Result → Json
result_canonical (Result.accepted a) = accepted_canonical a
result_canonical (Result.no_op n) = no_op_canonical n
result_canonical (Result.rejected r) = rejected_canonical r

-- The obligations of a `Replay` are always empty, which its constructor checks.
pub record Replay : Type 0 where
  pub state : State
  pub applied_result_digests : List String
  pub obligations : List String

unfoldable pub replay_canonical : Replay → Json
replay_canonical r = fields (
    ("schema_version", str "valp-kernel-replay.v1")
    ∷ ("state", state_canonical r.state)
    ∷ ("applied_result_digests", items (map str r.applied_result_digests))
    ∷ ("obligations", items (map str r.obligations))
    ∷ [])
