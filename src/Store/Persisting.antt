-- ===== src/Store/Persisting.antt =====
-- valp_cli/kernel_store.py: `persist_checkpoint`.
use visible_agent_loop_proto.Prelude.{
  pos, String, false, not, none, some, List, [], ◌==◌, ◌!=◌, string_eq, length, ltb_ℤ,
  if◌then◌else◌,
}
use visible_agent_loop_proto.Kernel.Identities.{identity_eq}
use visible_agent_loop_proto.Kernel.StateEquality.{state_beq}
use visible_agent_loop_proto.Kernel.Digests.{Sha256, canonical_json}
use visible_agent_loop_proto.Kernel.Outcomes.{
  Outcome, returned, raised, value_error, ◌>>=◌, os_error,
}
use visible_agent_loop_proto.Kernel.Checkpoints.{
  GenesisRoot, CheckpointRoot, ReplayEntry, CheckpointAuthentication, replay_prefix_digest,
}
use visible_agent_loop_proto.Kernel.Replay.{genesis, checkpoint, replay}
use visible_agent_loop_proto.Store.Files.{
  File, Files, Loads, Environment, Attempted, gives, throws, refuses, ◌>>>◌, lifted, replace, Ended,
  operation,
}
use visible_agent_loop_proto.Store.Recovery.{slice_to, envelope}
use visible_agent_loop_proto.Store.Operations.{loaded}

module _ ⦃sha : Sha256⦄ ⦃l : Loads⦄ where
  -- The checks of `persist_checkpoint` on what was loaded.
  unfoldable pub checkpoint_is_backed :
      GenesisRoot
      → List ReplayEntry
      → CheckpointRoot
      → CheckpointAuthentication
      → Outcome (Unit {0})
  checkpoint_is_backed g entries root authentication =
      if ltb_ℤ (pos (length entries)) root.accepted_entry_count
      then raised (value_error "checkpoint is ahead of the Kernel journal")
      else replay_prefix_digest (slice_to root.accepted_entry_count entries) >>= λ prefix_digest.
          if root.prefix_digest != prefix_digest
          then raised (value_error "checkpoint prefix digest does not match journal")
          else replay (genesis g) (slice_to root.accepted_entry_count entries) none >>= λ prefix.
              if not (state_beq prefix.state root.state)
              then raised (value_error "checkpoint State does not match journal prefix")
              else replay (checkpoint root) [] (some authentication) >>= λ done. returned tt

  abbrev pub replaced_checkpoint : Environment → Files → String → Ended (Unit {0})
  replaced_checkpoint env files payload =
      let (file, replaced, result) = replace env.fault files.checkpoint payload in
      record { files = record files { checkpoint = file }; replaced = replaced; result = result }

  -- A file with the text is left, and a directory cannot be read.
  abbrev pub checkpoint_over : Environment → Files → String → File → Ended (Unit {0})
  checkpoint_over env files payload File.irregular = record {
    files = files;
    replaced = false;
    result = throws os_error;
  }
  checkpoint_over env files payload File.absent = replaced_checkpoint env files payload
  checkpoint_over env files payload (File.holding old) =
      if old == payload
      then record { files = files; replaced = false; result = gives tt }
      else replaced_checkpoint env files payload

  abbrev pub checkpoint_written :
      Environment → Files → String → Attempted (Unit {0}) → Ended (Unit {0})
  checkpoint_written env files payload (refuses e) = record {
    files = files;
    replaced = false;
    result = refuses e;
  }
  checkpoint_written env files payload (throws x) = record {
    files = files;
    replaced = false;
    result = throws x;
  }
  checkpoint_written env files payload (gives u) =
      checkpoint_over env files payload files.checkpoint

  unfoldable pub persist_checkpoint_body :
      Environment → CheckpointRoot → CheckpointAuthentication → Files → Ended (Unit {0})
  persist_checkpoint_body env root authentication files =
      checkpoint_written env files (canonical_json (envelope root authentication)) (
        loaded files >>> λ (g, entries).
        lifted (checkpoint_is_backed g entries root authentication))

  -- `persist_checkpoint(root, authentication)`
  unfoldable pub persist_checkpoint :
      Environment → Files → CheckpointRoot → CheckpointAuthentication → Ended (Unit {0})
  persist_checkpoint env files root authentication =
      operation env files (persist_checkpoint_body env root authentication)
