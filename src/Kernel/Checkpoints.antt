-- ===== src/Kernel/Checkpoints.antt =====
-- valp_cli/protocol_kernel.py: the roots of a replay, the digest of a replay prefix, and the
-- authentication of a checkpoint.
use visible_agent_loop_proto.Prelude.{
  ℤ, pos, String, Bool, false, not, Option, none, some, List, [], ◌∷◌, map, ◌||◌, ◌&&◌, length, all,
  get_last?, is_subset, is_distinct, ltb_ℤ, ◌==◌, int_eq, string_eq, if◌then◌else◌,
}
use visible_agent_loop_proto.Json.{Json, int, str, items, fields, sorted}
use visible_agent_loop_proto.Kernel.IdentityKinds.{IdentityKind}
use visible_agent_loop_proto.Kernel.Identities.{Identity, Evidence, identity_eq, identity_canonical}
use visible_agent_loop_proto.Kernel.States.{AcceptedEvent, State, state_canonical}
use visible_agent_loop_proto.Kernel.StateEquality.{state_beq}
use visible_agent_loop_proto.Kernel.Events.{Event, event_canonical}
use visible_agent_loop_proto.Kernel.Results.{Accepted, Result, result_canonical}
use visible_agent_loop_proto.Kernel.Digests.{
  Sha256, digest, canonical_json, canonical_evidence, is_digest,
}
use visible_agent_loop_proto.Kernel.Validity.{
  state_is_valid, evidence_set_is_valid, of_kind, is_empty,
}
use visible_agent_loop_proto.Kernel.Outcomes.{Outcome, returned, raised, value_error, ◌>>=◌}

pub record CheckpointTrustPolicy : Type 0 where
  pub trusted_evidence_ids : List Identity

-- `CheckpointTrustPolicy(identities)`: distinct identities of evidence, at least one, in order.
unfoldable pub new_trust_policy : List Identity → Outcome CheckpointTrustPolicy
new_trust_policy identities =
    if is_empty identities
      || not (all (of_kind IdentityKind.evidence) identities)
      || not (is_distinct identities)
    then raised (value_error "CheckpointTrustPolicy requires unique Evidence identities")
    else returned (record {
      trusted_evidence_ids = sorted (λ i. canonical_json (identity_canonical i)) identities;
    })

unfoldable pub trust_policy_canonical : CheckpointTrustPolicy → Json
trust_policy_canonical p = fields (
    ("schema_version", str "valp-kernel-checkpoint-trust-policy.v1")
    ∷ ("trusted_evidence_ids", items (map identity_canonical p.trusted_evidence_ids))
    ∷ [])

pub record GenesisRoot : Type 0 where
  pub state : State

pub record CheckpointRoot : Type 0 where
  pub state : State
  pub accepted_entry_count : ℤ
  pub prefix_digest : String
  pub tail_event_id : Identity
  pub tail_result_id : Identity
  pub tail_result_digest : String
  pub checkpoint_result_id : Identity
  pub trust_policy_digest : String

pub record ReplayEntry : Type 0 where
  pub event : Event
  pub evidence_set : List Evidence
  pub result : Result

unfoldable pub replay_entry_canonical : ReplayEntry → Json
replay_entry_canonical e = fields (
    ("schema_version", str "valp-kernel-replay-entry.v1")
    ∷ ("event", event_canonical e.event)
    ∷ ("evidence_set", items (canonical_evidence e.evidence_set))
    ∷ ("result", result_canonical e.result)
    ∷ [])

abbrev is_tail : CheckpointRoot → Option AcceptedEvent → Bool
is_tail value none = false
is_tail value (some tail) =
    value.tail_event_id == tail.event_id
    && value.tail_result_id == tail.result_id
    && value.tail_result_digest == tail.result_digest

-- A root whose count is at least 1 has a last accepted event.
unfoldable pub checkpoint_root_is_valid : CheckpointRoot → Bool
checkpoint_root_is_valid value =
    state_is_valid value.state
    && not (ltb_ℤ value.state.revision (pos 1))
    && value.accepted_entry_count == value.state.revision
    && value.accepted_entry_count == pos (length value.state.accepted_events)
    && is_digest value.prefix_digest
    && is_digest value.tail_result_digest
    && is_digest value.trust_policy_digest
    && of_kind IdentityKind.event value.tail_event_id
    && of_kind IdentityKind.result value.tail_result_id
    && of_kind IdentityKind.result value.checkpoint_result_id
    && is_tail value (get_last? value.state.accepted_events)

pub record CheckpointAuthentication : Type 0 where
  pub checkpoint_result : Result
  pub evidence_set : List Evidence
  pub trust_policy : CheckpointTrustPolicy

unfoldable pub checkpoint_authentication_canonical : CheckpointAuthentication → Json
checkpoint_authentication_canonical a = fields (
    ("schema_version", str "valp-kernel-checkpoint-authentication.v1")
    ∷ ("checkpoint_result", result_canonical a.checkpoint_result)
    ∷ ("evidence_set", items (canonical_evidence a.evidence_set))
    ∷ ("trust_policy", trust_policy_canonical a.trust_policy)
    ∷ [])

-- `set(xs) == set(ys)`
abbrev pub same_set : List Identity → List Identity → Bool
same_set xs ys = is_subset xs ys && is_subset ys xs

-- `Result.accepted`
abbrev pub accepted_of : Result → Option Accepted
accepted_of (Result.accepted a) = some a
accepted_of _ = none

abbrev pub evidence_ids : List Evidence → List Identity
evidence_ids evidence_set = map (λ (item : Evidence). item.evidence_id) evidence_set

module _ ⦃sha : Sha256⦄ where
  -- `EMPTY_REPLAY_PREFIX_DIGEST`
  unfoldable pub empty_replay_prefix_digest : String
  empty_replay_prefix_digest =
      digest (
        fields
          (("schema_version", str "valp-kernel-replay-prefix.v1") ∷ ("entries", items []) ∷ []))

  unfoldable pub genesis_root_canonical : GenesisRoot → Json
  genesis_root_canonical g = fields (
      ("schema_version", str "valp-kernel-genesis-root.v1")
      ∷ ("state", state_canonical g.state)
      ∷ ("prefix_digest", str empty_replay_prefix_digest)
      ∷ [])

  unfoldable pub checkpoint_root_canonical : CheckpointRoot → Json
  checkpoint_root_canonical r = fields (
      ("schema_version", str "valp-kernel-checkpoint-root.v1")
      ∷ ("state", state_canonical r.state)
      ∷ ("state_digest", str (digest (state_canonical r.state)))
      ∷ ("accepted_entry_count", int r.accepted_entry_count)
      ∷ ("prefix_digest", str r.prefix_digest)
      ∷ ("tail_event_id", identity_canonical r.tail_event_id)
      ∷ ("tail_result_id", identity_canonical r.tail_result_id)
      ∷ ("tail_result_digest", str r.tail_result_digest)
      ∷ ("checkpoint_result_id", identity_canonical r.checkpoint_result_id)
      ∷ ("trust_policy_digest", str r.trust_policy_digest)
      ∷ [])

  -- The loop of `replay_prefix_digest`: every entry must be accepted.
  unfoldable pub canonical_entries : List ReplayEntry → Outcome (List Json)
  canonical_entries [] = returned []
  canonical_entries (entry ∷ rest) = elim (accepted_of entry.result) [
    | none ↦ raised (value_error "replay prefix requires accepted ReplayEntry records")
    | some a ↦ canonical_entries rest >>= λ later. returned (replay_entry_canonical entry ∷ later)
  ]

  unfoldable pub replay_prefix_digest : List ReplayEntry → Outcome String
  unfolding canonical_entries
  replay_prefix_digest entries = canonical_entries entries >>= λ canonical. returned (
      digest (
        fields (
          ("schema_version", str "valp-kernel-replay-prefix.v1")
          ∷ ("entries", items canonical)
          ∷ [])))

  unfoldable pub statement_digest_for : CheckpointRoot → Result → CheckpointTrustPolicy → String
  statement_digest_for root checkpoint_result trust_policy = digest (
      fields (
        ("schema_version", str "valp-kernel-checkpoint-statement.v1")
        ∷ ("checkpoint_root", checkpoint_root_canonical root)
        ∷ ("checkpoint_result", result_canonical checkpoint_result)
        ∷ ("trust_policy_digest", str (digest (trust_policy_canonical trust_policy)))
        ∷ []))

  -- The checks on the accepted checkpoint result and on the evidence for it.
  unfoldable pub statement_is_backed : CheckpointRoot → CheckpointAuthentication → Accepted → Bool
  statement_is_backed root authentication accepted =
      state_beq accepted.state root.state
      && accepted.result_id == root.checkpoint_result_id
      && accepted.result_id == root.tail_result_id
      && accepted.result_digest == root.tail_result_digest
      && same_set (evidence_ids authentication.evidence_set)
          authentication.trust_policy.trusted_evidence_ids
      && all
          (λ (item : Evidence).
            item.content_digest
            == statement_digest_for root authentication.checkpoint_result
                authentication.trust_policy)
          authentication.evidence_set

  abbrev accepted_is_backed : CheckpointRoot → CheckpointAuthentication → Option Accepted → Bool
  accepted_is_backed root authentication none = false
  accepted_is_backed root authentication (some accepted) =
      statement_is_backed root authentication accepted

  abbrev authentication_is_valid : CheckpointRoot → CheckpointAuthentication → Bool
  authentication_is_valid root authentication =
      digest (trust_policy_canonical authentication.trust_policy) == root.trust_policy_digest
      && evidence_set_is_valid authentication.evidence_set
      && accepted_is_backed root authentication (accepted_of authentication.checkpoint_result)

  unfoldable pub checkpoint_authentication_is_valid :
      CheckpointRoot → Option CheckpointAuthentication → Bool
  checkpoint_authentication_is_valid root none = false
  checkpoint_authentication_is_valid root (some authentication) =
      checkpoint_root_is_valid root && authentication_is_valid root authentication
