-- ===== src/Store/ResultDecoders.antt =====
-- valp_cli/kernel_store.py: `_result`, `decode_replay_entry`, `decode_genesis_root`, and the decoders of the
-- checkpoints.
use visible_agent_loop_proto.Prelude.{
  String, Bool, false, none, some, List, [], ◌∷◌, ◌!=◌, string_eq, not, is_distinct, if◌then◌else◌,
}
use visible_agent_loop_proto.Json.{Json, obj, dumps}
use visible_agent_loop_proto.Kernel.IdentityKinds.{IdentityKind}
use visible_agent_loop_proto.Kernel.Identities.{identity_eq}
use visible_agent_loop_proto.Kernel.Results.{Result}
use visible_agent_loop_proto.Kernel.Outcomes.{Outcome, returned, raised, value_error, ◌>>=◌}
use visible_agent_loop_proto.Kernel.Digests.{Sha256}
use visible_agent_loop_proto.Kernel.Checkpoints.{
  CheckpointTrustPolicy, new_trust_policy, GenesisRoot, genesis_root_canonical, CheckpointRoot,
  checkpoint_root_canonical, checkpoint_root_is_valid, ReplayEntry, CheckpointAuthentication,
  evidence_ids,
}
use visible_agent_loop_proto.Kernel.Replay.{genesis, replay}
use visible_agent_loop_proto.Store.Shapes.{
  shape, members, at, optional_at, get, text_of, integer_of, array_of, versioned, is_text,
}
use visible_agent_loop_proto.Store.StateDecoders.{identity_from, state_from}
use visible_agent_loop_proto.Store.EventDecoders.{event_from, evidence_from}

abbrev accepted_fields : List String
accepted_fields =
    "schema_version" ∷ "variant" ∷ "result_id" ∷ "state" ∷ "input_digest" ∷ "result_digest"
    ∷ "obligations" ∷ "audit_facts" ∷ []

-- The branch of `_result` for an accepted result. The source keeps `input_digest`, `obligations` and `audit_facts` of any JSON
-- type here; a value that is no text is refused at once. In a journal entry the comparison with the recomputed
-- result refuses it in the source too; in the authentication of a checkpoint nothing does.
unfoldable pub accepted_from : Json → Outcome Result
accepted_from value = shape value accepted_fields [] >>= λ fs.
    at "result_id" fs (identity_from IdentityKind.result) >>= λ r. at "state" fs state_from >>= λ s.
    at "input_digest" fs text_of >>= λ i. at "result_digest" fs text_of >>= λ d.
    at "obligations" fs (array_of text_of) >>= λ os.
    at "audit_facts" fs (array_of text_of) >>= λ facts. returned (
      Result.accepted (record {
        result_id = r;
        state = s;
        input_digest = i;
        result_digest = d;
        obligations = os;
        audit_facts = facts;
      }))

unfoldable pub no_op_from : Json → Outcome Result
no_op_from value =
    shape value
      ("schema_version" ∷ "variant" ∷ "state" ∷ "input_digest" ∷ "prior_result_id"
        ∷ "prior_result_digest" ∷ [])
      []
    >>= λ fs. at "state" fs state_from >>= λ s. at "input_digest" fs text_of >>= λ i.
        at "prior_result_id" fs (identity_from IdentityKind.result) >>= λ r.
        at "prior_result_digest" fs text_of >>= λ d. returned (
          Result.no_op
            (record { state = s; input_digest = i; prior_result_id = r; prior_result_digest = d }))

unfoldable pub rejected_from : Json → Outcome Result
rejected_from value =
    shape value ("schema_version" ∷ "variant" ∷ "state" ∷ "input_digest" ∷ "error_code" ∷ [])
      ("prior_result_id" ∷ "prior_result_digest" ∷ [])
    >>= λ fs. at "state" fs state_from >>= λ s. at "input_digest" fs text_of >>= λ i.
        at "error_code" fs text_of >>= λ c.
        optional_at "prior_result_id" fs (identity_from IdentityKind.result) >>= λ r.
        optional_at "prior_result_digest" fs text_of >>= λ d. returned (
          Result.rejected (record {
            state = s;
            input_digest = i;
            error_code = c;
            prior_result_id = r;
            prior_result_digest = d;
          }))

-- `value.get(key) == expected`
abbrev pub has_text : String → String → List (String × Json) → Bool
has_text key expected fs = elim (get key fs) [ none ↦ false | some v ↦ is_text expected v ]

-- `_result(value)`
unfoldable pub result_from : Json → Outcome Result
result_from (obj fs) =
    if not (has_text "schema_version" "valp-kernel-result.v1" (members fs))
    then raised (value_error "unsupported Kernel Result schema")
    else if has_text "variant" "accepted" (members fs)
    then accepted_from (obj fs)
    else if has_text "variant" "no_op" (members fs)
    then no_op_from (obj fs)
    else if has_text "variant" "rejected" (members fs)
    then rejected_from (obj fs)
    else raised (value_error "unknown Kernel Result variant")
result_from _ = raised (value_error "unsupported Kernel Result schema")

-- `decode_replay_entry(value)`
unfoldable pub decode_replay_entry : Json → Outcome ReplayEntry
decode_replay_entry value =
    shape value ("schema_version" ∷ "event" ∷ "evidence_set" ∷ "result" ∷ []) [] >>= λ fs.
    versioned "valp-kernel-replay-entry.v1" fs (
      at "event" fs event_from >>= λ e.
      at "evidence_set" fs (array_of evidence_from) >>= λ evidence_set.
      at "result" fs result_from >>= λ r.
      returned (record { event = e; evidence_set = evidence_set; result = r }))

-- `_trust_policy(value)`
unfoldable pub trust_policy_from : Json → Outcome CheckpointTrustPolicy
trust_policy_from value = shape value ("schema_version" ∷ "trusted_evidence_ids" ∷ []) [] >>= λ fs.
    versioned "valp-kernel-checkpoint-trust-policy.v1" fs (
      at "trusted_evidence_ids" fs (array_of (identity_from IdentityKind.evidence)) >>= λ ids.
      new_trust_policy ids)

-- `CheckpointRoot(...)`: its `__post_init__` refuses bindings that are not valid.
unfoldable pub new_checkpoint_root : CheckpointRoot → Outcome CheckpointRoot
new_checkpoint_root root =
    if not (checkpoint_root_is_valid root)
    then raised (value_error "CheckpointRoot bindings are invalid")
    else returned root

-- `CheckpointAuthentication(...)`: its `__post_init__` refuses an evidence identity that occurs twice.
unfoldable pub new_checkpoint_authentication :
    CheckpointAuthentication → Outcome CheckpointAuthentication
new_checkpoint_authentication a =
    if not (is_distinct (evidence_ids a.evidence_set))
    then raised (value_error "CheckpointAuthentication requires unique Evidence identities")
    else returned a

-- `_checkpoint_authentication(value)`
unfoldable pub checkpoint_authentication_from : Json → Outcome CheckpointAuthentication
checkpoint_authentication_from value =
    shape value ("schema_version" ∷ "checkpoint_result" ∷ "evidence_set" ∷ "trust_policy" ∷ []) []
    >>= λ fs. versioned "valp-kernel-checkpoint-authentication.v1" fs (
        at "checkpoint_result" fs result_from >>= λ r.
        at "evidence_set" fs (array_of evidence_from) >>= λ es.
        at "trust_policy" fs trust_policy_from >>= λ p.
        new_checkpoint_authentication
          (record { checkpoint_result = r; evidence_set = es; trust_policy = p }))

module _ ⦃sha : Sha256⦄ where
  -- `decode_genesis_root(value)`
  unfoldable pub decode_genesis_root : Json → Outcome GenesisRoot
  decode_genesis_root value =
      shape value ("schema_version" ∷ "state" ∷ "prefix_digest" ∷ []) [] >>= λ fs.
      versioned "valp-kernel-genesis-root.v1" fs (
        at "state" fs state_from >>= λ s.
        if dumps (genesis_root_canonical (record { state = s })) != dumps value
        then raised (value_error "GenesisRoot canonical bindings mismatch")
        else replay (genesis (record { state = s })) [] none >>= λ done.
            returned (record { state = s }))

  -- `_checkpoint_root(value)`
  unfoldable pub checkpoint_root_from : Json → Outcome CheckpointRoot
  checkpoint_root_from value =
      shape value
        ("schema_version" ∷ "state" ∷ "state_digest" ∷ "accepted_entry_count" ∷ "prefix_digest"
          ∷ "tail_event_id" ∷ "tail_result_id" ∷ "tail_result_digest" ∷ "checkpoint_result_id"
          ∷ "trust_policy_digest" ∷ [])
        []
      >>= λ fs. versioned "valp-kernel-checkpoint-root.v1" fs (
          at "state" fs state_from >>= λ s. at "accepted_entry_count" fs integer_of >>= λ n.
          at "prefix_digest" fs text_of >>= λ p.
          at "tail_event_id" fs (identity_from IdentityKind.event) >>= λ e.
          at "tail_result_id" fs (identity_from IdentityKind.result) >>= λ r.
          at "tail_result_digest" fs text_of >>= λ d.
          at "checkpoint_result_id" fs (identity_from IdentityKind.result) >>= λ c.
          at "trust_policy_digest" fs text_of >>= λ t.
          new_checkpoint_root (record {
            state = s;
            accepted_entry_count = n;
            prefix_digest = p;
            tail_event_id = e;
            tail_result_id = r;
            tail_result_digest = d;
            checkpoint_result_id = c;
            trust_policy_digest = t;
          })
          >>= λ root.
              if dumps (checkpoint_root_canonical root) != dumps value
              then raised (value_error "CheckpointRoot canonical bindings mismatch")
              else returned root)
