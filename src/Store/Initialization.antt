-- ===== src/Store/Initialization.antt =====
-- valp_cli/kernel_store.py: `initialize` of an empty store, and the recovery that follows.
use visible_agent_loop_proto.Store.Recovery.{
  genesis_of, recovered, load_genesis, load_entries, recover_unlocked, load_checkpoint,
}
use visible_agent_loop_proto.Kernel.Results.{Replay}
use visible_agent_loop_proto.Kernel.Checkpoints.{GenesisRoot, genesis_root_canonical}
use visible_agent_loop_proto.Kernel.Replay.{
  genesis, replay, replayed, verified_root, replay_from, genesis_is_valid,
}
use visible_agent_loop_proto.Kernel.Outcomes.{
  Outcome, returned, raised, bind-returned, raise_or, returned_inj,
}
use visible_agent_loop_proto.Store.Locking.{
  is_regular, undisturbed_operation, Calm, locked-Performed,
}
use visible_agent_loop_proto.Prelude.{String, ◌≡◌, refl, not, [], ap, sym, none, ◌∙◌, false}
use visible_agent_loop_proto.Kernel.Digests.{Sha256, canonical_json}
use visible_agent_loop_proto.Store.Files.{
  File, Files, Environment, Fault, no_fault, before_rename, after_rename, gives, Ended, replace,
  reading, Loads, not_created, unlink_before_rename, unlink_after_rename,
}
use visible_agent_loop_proto.Store.Operations.{
  initialize_body, initialize, initialize_after, recover,
}

-- A directory without a store.
pub record Empty (files : Files) : Type 0 where
  pub genesis : files.genesis ≡ File.absent
  pub journal : files.journal ≡ File.absent
  pub checkpoint : files.checkpoint ≡ File.absent
  pub effects : files.effects ≡ File.absent

abbrev replaced_genesis : Environment → Files → String → Ended (Unit {0})
replaced_genesis env files payload =
    let (file, replaced, result) = replace env.fault File.absent payload in
    record { files = record files { genesis = file }; replaced = replaced; result = result }

-- The files with the text of a genesis root.
abbrev pub initialized : ⦃sha : Sha256⦄ → Files → GenesisRoot → Files
initialized files root = record files {
  genesis = File.holding (canonical_json (genesis_root_canonical root));
}

module _ ⦃sha : Sha256⦄ where
  -- The body of `initialize` on an empty store replaces the file of the genesis root.
  first_body :
      (env : Environment) (payload : String) (files : Files)
      → Empty files
      → initialize_body env payload files ≡ replaced_genesis env files payload
  unfolding initialize_body
  first_body env payload files e = rw e.genesis (rw e.journal (rw e.checkpoint (rw e.effects refl)))

  written_genesis :
      (fault : Fault) (env : Environment) (payload : String) (files : Files)
      → (replaced_genesis (record env { fault = fault }) files payload).result ≡ gives tt
      → (replaced_genesis (record env { fault = fault }) files payload).files
        ≡ record files { genesis = File.holding payload }
  written_genesis no_fault env payload files h = refl
  written_genesis not_created env payload files h = cc
  written_genesis unlink_before_rename env payload files h = cc
  written_genesis unlink_after_rename env payload files h = cc
  written_genesis before_rename env payload files h = cc
  written_genesis after_rename env payload files h = cc

  initialize_after-gives :
      (env : Environment) (files : Files) (root : GenesisRoot) (o : Outcome Replay)
      → Empty files
      → (initialize_after env files root o).result ≡ gives tt
      → ((done : Replay) × (o ≡ returned done))
        × ((initialize_after env files root o).files ≡ initialized files root)
  initialize_after-gives env files root (raised x) e h = cc
  initialize_after-gives env files root (returned done) e h =
      let payload = canonical_json (genesis_root_canonical root) in
      let p = locked-Performed env files (initialize_body env payload) tt h in
      let same = first_body env payload files e in
      (
        (done, refl),
        p.left
            ∙ ap (λ E. E.files) same
            ∙ written_genesis env.fault env payload files (ap (λ E. E.result) (sym same) ∙ p.gave),
      )

  replay-genesis :
      (root : GenesisRoot) (done : Replay)
      → replay (genesis root) [] none ≡ returned done
      → done ≡ replayed (root.state, [])
  unfolding replay verified_root replay_from
  replay-genesis root done h =
      let (s, p, q) = bind-returned (verified_root (genesis root) none) _ done h in
      let (valid, same) = raise_or (not (genesis_is_valid root.state)) _ _ s p in
      sym (returned_inj _ done q) ∙ ap (λ x. replayed (x, [])) (sym (returned_inj _ s same))

module _ ⦃sha : Sha256⦄ ⦃l : Loads⦄ where
  recovered-initialized :
      (files : Files) (root : GenesisRoot) (done : Replay)
      → Empty files
      → genesis_of (canonical_json (genesis_root_canonical root)) ≡ returned root
      → replay (genesis root) [] none ≡ returned done
      → recovered (initialized files root)
        ≡ gives (record { replayed = done; entries = []; used_checkpoint = false })
  unfolding recovered load_genesis load_entries recover_unlocked load_checkpoint
  recovered-initialized files root done e g h = rw g (rw e.journal (rw h (rw e.checkpoint refl)))

  -- After an `initialize` of an empty store that succeeds, the file of the genesis root is the only one written, and a recovery that has the lock and releases it
  -- gives the root's state with no entries, no digests and no obligations. The written text must be read as the root.
  pub recover-initialize :
      (env later : Environment) (files : Files) (root : GenesisRoot)
      → Empty files
      → genesis_of (canonical_json (genesis_root_canonical root)) ≡ returned root
      → Calm later
      → (initialize env files root).result ≡ gives tt
      → ((initialize env files root).files ≡ initialized files root)
        × (recover later (initialize env files root).files ≡ record {
          files = initialized files root;
          replaced = false;
          result = gives (record {
            replayed = replayed (root.state, []);
            entries = [];
            used_checkpoint = false;
          });
        })
  unfolding initialize recover
  recover-initialize env later files root e g calm h =
      let ((done, k), left) =
        initialize_after-gives env files root (replay (genesis root) [] none) e h in
      (
        left,
        rw left (
            rw
              (undisturbed_operation later (initialized files root) (reading recovered) calm
                (ap is_regular e.journal))
              (rw (recovered-initialized files root done e g k)
                (rw (replay-genesis root done k) refl))),
      )
