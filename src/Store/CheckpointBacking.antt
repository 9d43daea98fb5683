-- ===== src/Store/CheckpointBacking.antt =====
-- valp_cli/kernel_store.py: what a checkpoint that `persist_checkpoint` keeps is backed by.
use visible_agent_loop_proto.Prelude.{
  pos, String, Bool, true, false, not, none, some, List, ◌≡◌, refl, sym, ap, ◌∙◌, ne_sound,
  not-false, string_eq, ◌!=◌, length, ltb_ℤ, [], ◌⊎◌, inl, inr, if◌then◌else◌, ◌==◌,
}
use visible_agent_loop_proto.Kernel.StateEquality.{state_beq}
use visible_agent_loop_proto.Kernel.Results.{Replay}
use visible_agent_loop_proto.Kernel.Digests.{Sha256, canonical_json}
use visible_agent_loop_proto.Kernel.Outcomes.{returned, bind-returned, raise_or}
use visible_agent_loop_proto.Kernel.Checkpoints.{
  GenesisRoot, CheckpointRoot, CheckpointAuthentication, ReplayEntry, replay_prefix_digest,
  checkpoint_authentication_is_valid,
}
use visible_agent_loop_proto.Kernel.Replay.{genesis, checkpoint, replay, verified_root}
use visible_agent_loop_proto.Store.Files.{
  File, Files, Loads, Environment, Fault, no_fault, before_rename, after_rename, Attempted, gives,
  throws, refuses, Ended, ◌>>>◌, lifted, not_created, unlink_before_rename, unlink_after_rename,
}
use visible_agent_loop_proto.Store.Recovery.{slice_to, envelope}
use visible_agent_loop_proto.Store.Operations.{loaded}
use visible_agent_loop_proto.Store.Persisting.{
  checkpoint_is_backed, checkpoint_written, persist_checkpoint_body, persist_checkpoint,
  replaced_checkpoint, checkpoint_over,
}
use visible_agent_loop_proto.Store.Locking.{operation_files}
use visible_agent_loop_proto.Store.Reloading.{bind-gives, lifted-gives}

abbrev kept_as : Files → String → Files
kept_as files payload = record files { checkpoint = File.holding payload }

module _ ⦃sha : Sha256⦄ ⦃l : Loads⦄ where
  -- What backs a checkpoint: it is not ahead of the entries, the digest of their prefix is its own, the replay of the prefix ends
  -- in its state, and its authentication is valid.
  pub record Backed (g : GenesisRoot) (entries : List ReplayEntry) (root : CheckpointRoot)
      (authentication : CheckpointAuthentication) : Type 0 where
    pub not_ahead : ltb_ℤ (pos (length entries)) root.accepted_entry_count ≡ false
    pub same_digest :
        replay_prefix_digest (slice_to root.accepted_entry_count entries)
        ≡ returned root.prefix_digest
    pub prefix : Replay
    pub prefix_replays :
        replay (genesis g) (slice_to root.accepted_entry_count entries) none ≡ returned prefix
    pub same_state : state_beq prefix.state root.state ≡ true
    pub authentic : checkpoint_authentication_is_valid root (some authentication) ≡ true

  authentic_root :
      (root : CheckpointRoot) (authentication : CheckpointAuthentication) (done : Replay)
      → replay (checkpoint root) [] (some authentication) ≡ returned done
      → checkpoint_authentication_is_valid root (some authentication) ≡ true
  unfolding replay verified_root
  authentic_root root authentication done h =
      let (s, p, q) =
        bind-returned (verified_root (checkpoint root) (some authentication)) _ done h in
      not-false _
        (raise_or (not (checkpoint_authentication_is_valid root (some authentication))) _ _ s p).0

  checkpoint_is_backed-Backed :
      (g : GenesisRoot) (entries : List ReplayEntry) (root : CheckpointRoot)
      (authentication : CheckpointAuthentication)
      → checkpoint_is_backed g entries root authentication ≡ returned tt
      → Backed g entries root authentication
  unfolding checkpoint_is_backed
  checkpoint_is_backed-Backed g entries root authentication h =
      let (ahead, h1) =
        raise_or (ltb_ℤ (pos (length entries)) root.accepted_entry_count) _ _ tt h in
      let (prefix_digest, d, h2) =
        bind-returned (replay_prefix_digest (slice_to root.accepted_entry_count entries)) _ tt h1 in
      let (digests, h3) = raise_or (root.prefix_digest != prefix_digest) _ _ tt h2 in
      let (prefix, p, h4) =
        bind-returned (replay (genesis g) (slice_to root.accepted_entry_count entries) none) _ tt
          h3 in
      let (states, h5) = raise_or (not (state_beq prefix.state root.state)) _ _ tt h4 in
      let (done, a, h6) =
        bind-returned (replay (checkpoint root) [] (some authentication)) _ tt h5 in
      record {
        not_ahead = ahead;
        same_digest = d ∙ ap returned (sym (ne_sound root.prefix_digest prefix_digest digests));
        prefix = prefix;
        prefix_replays = p;
        same_state = not-false _ states;
        authentic = authentic_root root authentication done a;
      }

  -- The files are as before, or the file of the checkpoint alone has changed, to the text of one that is backed.
  abbrev pub Persisted : Files → CheckpointRoot → CheckpointAuthentication → Files → Type 0
  Persisted files root authentication later =
      (later ≡ files)
      ⊎ ((g : GenesisRoot) × (entries : List ReplayEntry) × (loaded files ≡ gives (g, entries))
          × Backed g entries root authentication
          × (later ≡ kept_as files (canonical_json (envelope root authentication))))

  checked_backing :
      (files : Files) (root : CheckpointRoot) (authentication : CheckpointAuthentication)
      → (loaded files >>> λ (g, entries).
          lifted (checkpoint_is_backed g entries root authentication))
        ≡ gives tt
      → (g : GenesisRoot) × (entries : List ReplayEntry) × (loaded files ≡ gives (g, entries))
        × Backed g entries root authentication
  checked_backing files root authentication h =
      let ((g, entries), k, c) = bind-gives (loaded files) _ tt h in
      (
        g,
        entries,
        k,
        checkpoint_is_backed-Backed g entries root authentication (lifted-gives _ tt c),
      )

  either-Persisted :
      (b : Bool) (files : Files) (root : CheckpointRoot) (authentication : CheckpointAuthentication)
      (E F : Ended (Unit {0}))
      → Persisted files root authentication E.files
      → Persisted files root authentication F.files
      → Persisted files root authentication (if b then E else F).files
  either-Persisted true files root authentication E F h k = h
  either-Persisted false files root authentication E F h k = k

  replaced-Persisted :
      (fault : Fault) (env : Environment) (files : Files) (root : CheckpointRoot)
      (authentication : CheckpointAuthentication)
      → (loaded files >>> λ (g, entries).
          lifted (checkpoint_is_backed g entries root authentication))
        ≡ gives tt
      → Persisted files root authentication
          (replaced_checkpoint
            (record env { fault = fault })
            files
            (canonical_json (envelope root authentication))).files
  replaced-Persisted before_rename env files root authentication h = inl refl
  replaced-Persisted not_created env files root authentication h = inl refl
  replaced-Persisted unlink_before_rename env files root authentication h = inl refl
  replaced-Persisted no_fault env files root authentication h =
      let (g, entries, k, backed) = checked_backing files root authentication h in
      inr (g, entries, k, backed, refl)
  replaced-Persisted after_rename env files root authentication h =
      let (g, entries, k, backed) = checked_backing files root authentication h in
      inr (g, entries, k, backed, refl)
  replaced-Persisted unlink_after_rename env files root authentication h =
      let (g, entries, k, backed) = checked_backing files root authentication h in
      inr (g, entries, k, backed, refl)

  over-Persisted :
      (file : File) (env : Environment) (files : Files) (root : CheckpointRoot)
      (authentication : CheckpointAuthentication)
      → (loaded files >>> λ (g, entries).
          lifted (checkpoint_is_backed g entries root authentication))
        ≡ gives tt
      → Persisted files root authentication
          (checkpoint_over env files (canonical_json (envelope root authentication)) file).files
  over-Persisted File.irregular env files root authentication h = inl refl
  over-Persisted File.absent env files root authentication h =
      replaced-Persisted env.fault env files root authentication h
  over-Persisted (File.holding old) env files root authentication h =
      either-Persisted (old == canonical_json (envelope root authentication)) files root
        authentication _ _ (inl refl) (replaced-Persisted env.fault env files root authentication h)

  written-Persisted :
      (o : Attempted (Unit {0})) (env : Environment) (files : Files) (root : CheckpointRoot)
      (authentication : CheckpointAuthentication)
      → (loaded files >>> λ (g, entries).
          lifted (checkpoint_is_backed g entries root authentication))
        ≡ o
      → Persisted files root authentication
          (checkpoint_written env files (canonical_json (envelope root authentication)) o).files
  written-Persisted (refuses e) env files root authentication h = inl refl
  written-Persisted (throws x) env files root authentication h = inl refl
  written-Persisted (gives u) env files root authentication h =
      over-Persisted files.checkpoint env files root authentication h

  -- Whatever happens to the lock, the replacement and the release, `persist_checkpoint` leaves every file as it was, or it replaces the
  -- file of the checkpoint alone, by the canonical text of the root and its authentication, where the checkpoint is
  -- not ahead of the journal, has the digest of the prefix of its length, this prefix replays from the
  -- genesis root to its state, and its authentication is valid.
  pub persist_checkpoint-Persisted :
      (env : Environment) (files : Files) (root : CheckpointRoot)
      (authentication : CheckpointAuthentication)
      → Persisted files root authentication (persist_checkpoint env files root authentication).files
  unfolding persist_checkpoint persist_checkpoint_body
  persist_checkpoint-Persisted env files root authentication =
      elim (operation_files env files (persist_checkpoint_body env root authentication)) [
        | inl same ↦ inl same
        | inr run ↦ rw run (written-Persisted _ env files root authentication refl)
      ]
