-- ===== src/Store/FullReplay.antt =====
-- valp_cli/kernel_store.py: a recovery, with or without a checkpoint, is the replay of the whole journal from the genesis root.
use visible_agent_loop_proto.Prelude.{
  pos, not, Option, none, some, List, ◌≡◌, refl, sym, ap, ◌∙◌, ne_sound, string_eq, ◌!=◌, length,
  ltb_ℤ,
}
use visible_agent_loop_proto.Json.{dumps}
use visible_agent_loop_proto.Kernel.States.{state_canonical}
use visible_agent_loop_proto.Kernel.StateEquality.{state_beq}
use visible_agent_loop_proto.Kernel.Results.{Replay}
use visible_agent_loop_proto.Kernel.Digests.{Sha256}
use visible_agent_loop_proto.Kernel.Outcomes.{returned, bind-returned, raise_or, returned_inj}
use visible_agent_loop_proto.Kernel.Checkpoints.{
  GenesisRoot, CheckpointRoot, CheckpointAuthentication, ReplayEntry, replay_prefix_digest,
}
use visible_agent_loop_proto.Kernel.Replay.{genesis, checkpoint, replay}
use visible_agent_loop_proto.Store.Files.{Files, Loads, Environment, gives, lifted, reading}
use visible_agent_loop_proto.Store.Recovery.{
  KernelRecovery, slice_to, slice_from, load_genesis, load_entries, load_checkpoint, recovered_from,
  recovery_with, recover_unlocked, recovered,
}
use visible_agent_loop_proto.Store.Operations.{loaded, recover}
use visible_agent_loop_proto.Store.Locking.{operation-Performed}
use visible_agent_loop_proto.Store.Reloading.{bind-gives, lifted-gives}

module _ ⦃sha : Sha256⦄ ⦃l : Loads⦄ where
  -- The recovery of some entries has the state of their replay from the genesis root.
  pub record Replays (g : GenesisRoot) (entries : List ReplayEntry) (r : KernelRecovery)
      : Type 0 where
    pub all_entries : r.entries ≡ entries
    pub full : Replay
    pub replays : replay (genesis g) entries none ≡ returned full
    pub same_state : dumps (state_canonical r.replayed.state) ≡ dumps (state_canonical full.state)

  recovered_from_state :
      (g : GenesisRoot) (entries : List ReplayEntry) (full : Replay) (root : CheckpointRoot)
      (authentication : CheckpointAuthentication) (r : KernelRecovery)
      → recovered_from g entries full root authentication ≡ returned r
      → (r.entries ≡ entries)
        × (dumps (state_canonical r.replayed.state) ≡ dumps (state_canonical full.state))
  unfolding recovered_from
  recovered_from_state g entries full root authentication r h =
      let (ahead, h1) = raise_or (ltb_ℤ (pos (length entries)) root.accepted_entry_count) _ _ r h in
      let (prefix_digest, d, h2) =
        bind-returned (replay_prefix_digest (slice_to root.accepted_entry_count entries)) _ r h1 in
      let (digests, h3) = raise_or (root.prefix_digest != prefix_digest) _ _ r h2 in
      let (prefix, p, h4) =
        bind-returned (replay (genesis g) (slice_to root.accepted_entry_count entries) none) _ r
          h3 in
      let (states, h5) = raise_or (not (state_beq prefix.state root.state)) _ _ r h4 in
      let (found, f, h6) =
        bind-returned
          (replay (checkpoint root) (slice_from root.accepted_entry_count entries)
            (some authentication))
          _ r h5 in
      let (same, h7) =
        raise_or (dumps (state_canonical found.state) != dumps (state_canonical full.state)) _ _ r
          h6 in
      let equal = returned_inj _ r h7 in
      (
        sym (ap (λ x. x.entries) equal),
        sym (ap (λ x. dumps (state_canonical x.replayed.state)) equal) ∙ ne_sound _ _ same,
      )

  recovery_with_state :
      (g : GenesisRoot) (entries : List ReplayEntry) (full : Replay)
      (c : Option (CheckpointRoot × CheckpointAuthentication)) (r : KernelRecovery)
      → recovery_with g entries full c ≡ returned r
      → (r.entries ≡ entries)
        × (dumps (state_canonical r.replayed.state) ≡ dumps (state_canonical full.state))
  recovery_with_state g entries full none r h =
      let equal = returned_inj _ r h in
      (
        sym (ap (λ x. x.entries) equal),
        sym (ap (λ x. dumps (state_canonical x.replayed.state)) equal),
      )
  recovery_with_state g entries full (some (root, authentication)) r h =
      recovered_from_state g entries full root authentication r h

  pub recover_unlocked-Replays :
      (files : Files) (g : GenesisRoot) (entries : List ReplayEntry) (r : KernelRecovery)
      → recover_unlocked files g entries ≡ gives r
      → Replays g entries r
  unfolding recover_unlocked
  recover_unlocked-Replays files g entries r h =
      let (full, p, q) = bind-gives (lifted (replay (genesis g) entries none)) _ r h in
      let (c, p', q') = bind-gives (load_checkpoint files.checkpoint) _ r q in
      let (same, states) = recovery_with_state g entries full c r (lifted-gives _ r q') in
      record {
        all_entries = same;
        full = full;
        replays = lifted-gives _ full p;
        same_state = states;
      }

  recovered-Replays :
      (files : Files) (r : KernelRecovery)
      → recovered files ≡ gives r
      → (g : GenesisRoot) × (entries : List ReplayEntry) × (loaded files ≡ gives (g, entries))
        × Replays g entries r
  unfolding recovered loaded
  recovered-Replays files r h =
      let (g, p, q) = bind-gives (load_genesis files.genesis) _ r h in
      let (entries, p', q') = bind-gives (load_entries files.journal) _ r q in
      (g, entries, rw p (rw p' refl), recover_unlocked-Replays files g entries r q')

  -- A recovery that is given is the replay of the whole journal: the genesis root and the entries of the files are
  -- loaded, their replay returns, and the recovered state has the canonical text of the state of this replay, also where the recovery used a
  -- checkpoint. The files are left as they were.
  pub recover-Replays :
      (env : Environment) (files : Files) (r : KernelRecovery)
      → (recover env files).result ≡ gives r
      → ((recover env files).files ≡ files)
        × ((g : GenesisRoot) × (entries : List ReplayEntry) × (loaded files ≡ gives (g, entries))
            × Replays g entries r)
  unfolding recover
  recover-Replays env files r h =
      let p = operation-Performed env files (reading recovered) r h in
      (p.left, recovered-Replays files r p.gave)
