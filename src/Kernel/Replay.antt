-- ===== src/Kernel/Replay.antt =====
-- valp_cli/protocol_kernel.py: `replay`.
use visible_agent_loop_proto.Prelude.{
  pos, String, Bool, not, Option, none, some, List, [], ◌∷◌, ◌||◌, is_none, ◌!=◌, int_eq, string_eq,
  if◌then◌else◌,
}
use visible_agent_loop_proto.Kernel.TaskStatuses.{TaskStatus}
use visible_agent_loop_proto.Kernel.States.{State}
use visible_agent_loop_proto.Kernel.Results.{Accepted, Result, Replay, result_canonical}
use visible_agent_loop_proto.Kernel.Digests.{Sha256, canonical_json}
use visible_agent_loop_proto.Kernel.Validity.{state_is_valid, has_status, is_empty}
use visible_agent_loop_proto.Kernel.Outcomes.{Outcome, returned, raised, value_error, ◌>>=◌}
use visible_agent_loop_proto.Kernel.Reduce.{reduce}
use visible_agent_loop_proto.Kernel.Checkpoints.{
  GenesisRoot, CheckpointRoot, ReplayEntry, CheckpointAuthentication, accepted_of,
  checkpoint_authentication_is_valid,
}

pub data Root : Type 0 where
  genesis : GenesisRoot → Root
  checkpoint : CheckpointRoot → Root

module _ ⦃sha : Sha256⦄ where
  abbrev pub matched : Result → Accepted → Outcome Accepted
  matched expected recomputed =
      if canonical_json (result_canonical (Result.accepted recomputed))
        != canonical_json (result_canonical expected)
      then raised (value_error "ReplayEntry Result does not match recomputed Result")
      else returned recomputed

  abbrev pub required : Result → Option Accepted → Outcome Accepted
  required expected none =
      raised (value_error "ReplayEntry inputs do not produce an accepted Result")
  required expected (some recomputed) = matched expected recomputed

  -- One round of the loop: the result that `reduce` computes again for the entry.
  unfoldable pub replay_entry : State → ReplayEntry → Outcome Accepted
  replay_entry current entry =
      if is_none (accepted_of entry.result)
      then raised (value_error "ReplayEntry must contain an accepted Result")
      else reduce current entry.event entry.evidence_set >>= λ recomputed.
          required entry.result (accepted_of recomputed)

  -- The loop over the entries: the last state, and the digests of the results.
  unfoldable pub replay_from : State → List ReplayEntry → Outcome (State × List String)
  replay_from current [] = returned (current, [])
  replay_from current (entry ∷ rest) = replay_entry current entry >>= λ recomputed.
      replay_from recomputed.state rest >>= λ later.
      returned (later.0, recomputed.result_digest ∷ later.1)

  -- A genesis root is the empty, published state.
  unfoldable pub genesis_is_valid : State → Bool
  genesis_is_valid state = not (
      not (state_is_valid state)
      || not (has_status state.status TaskStatus.published)
      || state.revision != pos 0
      || not (is_empty state.accepted_events))

  -- The state from which a root starts the replay.
  unfoldable pub verified_root : Root → Option CheckpointAuthentication → Outcome State
  verified_root (genesis root) authentication =
      if not (is_none authentication)
      then raised (value_error "GenesisRoot does not accept checkpoint authentication")
      else if not (genesis_is_valid root.state)
      then raised (value_error "GenesisRoot must be the canonical empty Task State")
      else returned root.state
  verified_root (checkpoint root) authentication =
      if not (checkpoint_authentication_is_valid root authentication)
      then raised (value_error "CheckpointRoot authentication is invalid")
      else returned root.state

  abbrev pub replayed : State × List String → Replay
  replayed (state, digests) = record {
    state = state;
    applied_result_digests = digests;
    obligations = [];
  }

  unfoldable pub replay : Root → List ReplayEntry → Option CheckpointAuthentication → Outcome Replay
  replay root entries authentication = verified_root root authentication >>= λ state.
      replay_from state entries >>= λ done. returned (replayed done)
