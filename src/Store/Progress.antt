-- ===== src/Store/Progress.antt =====
-- valp_cli/kernel_store.py with valp_cli/protocol_kernel.py: an event that `reduce` accepts is appended and recovered, and an
-- append under an unreadable checkpoint.
use visible_agent_loop_proto.Prelude.{
  String, true, false, none, List, [], ◌∷◌, ◌++◌, ◌≡◌, refl, sym, ap, ◌∙◌, find, is_none, string_eq,
}
use visible_agent_loop_proto.Kernel.States.{State}
use visible_agent_loop_proto.Kernel.Events.{Event}
use visible_agent_loop_proto.Kernel.Identities.{Evidence}
use visible_agent_loop_proto.Kernel.Results.{Replay, Accepted, Result}
use visible_agent_loop_proto.Kernel.Digests.{Sha256}
use visible_agent_loop_proto.Kernel.Outcomes.{returned, value_error, bind-returned, returned_inj}
use visible_agent_loop_proto.Kernel.Reduce.{reduce}
use visible_agent_loop_proto.Kernel.Checkpoints.{GenesisRoot, ReplayEntry, accepted_of}
use visible_agent_loop_proto.Kernel.Replay.{
  genesis, replay, verified_root, replay_entry, replay_from, replayed,
}
use visible_agent_loop_proto.Kernel.RunReplay.{required_self}
use visible_agent_loop_proto.Store.Files.{
  File, Files, Loads, Environment, no_fault, gives, throws, refuses, caught, kernel_store_corrupt,
}
use visible_agent_loop_proto.Store.Recovery.{recover_unlocked, load_checkpoint}
use visible_agent_loop_proto.Store.Operations.{same_event, append, append_body, loaded}
use visible_agent_loop_proto.Store.AppendSpec.{rewritten, Extends}
use visible_agent_loop_proto.Store.Locking.{Calm, undisturbed_operation}
use visible_agent_loop_proto.Store.Reloading.{load_entries-Legible, loaded-gives}

module _ ⦃sha : Sha256⦄ where
  replay_from-append :
      (s t : State) (entries : List ReplayEntry) (digests : List String) (entry : ReplayEntry)
      (a : Accepted)
      → replay_from s entries ≡ returned (t, digests)
      → replay_entry t entry ≡ returned a
      → replay_from s (entries ++ entry ∷ []) ≡ returned (a.state, digests ++ a.result_digest ∷ [])
  unfolding replay_from
  replay_from-append s t [] digests entry a h k =
      let same = returned_inj _ _ h in
      rw (sym (ap (λ x. x.1) same)) (rw (ap (λ x. x.0) same) (rw k refl))
  replay_from-append s t (x ∷ rest) digests entry a h k =
      let (b, p, q) = bind-returned (replay_entry s x) _ (t, digests) h in
      let ((u, later), p', q') = bind-returned (replay_from b.state rest) _ (t, digests) q in
      let same = returned_inj _ _ q' in
      let again =
        replay_from-append b.state t rest later entry a
          (p' ∙ ap (λ v. returned (v, later)) (ap (λ v. v.0) same)) k in
      rw p (rw again (rw (sym (ap (λ v. v.1) same)) refl))

  -- The replay goes on with an entry of an accepted result.
  pub replay-append :
      (g : GenesisRoot) (entries : List ReplayEntry) (full : Replay) (event : Event)
      (evidence_set : List Evidence) (a : Accepted)
      → replay (genesis g) entries none ≡ returned full
      → reduce full.state event evidence_set ≡ returned (Result.accepted a)
      → replay
          (genesis g)
          (entries
            ++ record { event = event; evidence_set = evidence_set; result = Result.accepted a }
              ∷ [])
          none
        ≡ returned (replayed (a.state, full.applied_result_digests ++ a.result_digest ∷ []))
  unfolding replay replay_entry
  replay-append g entries full event evidence_set a h k =
      let (s, p, q) = bind-returned (verified_root (genesis g) none) _ full h in
      let ((t, digests), p', q') = bind-returned (replay_from s entries) _ full q in
      let same = returned_inj _ _ q' in
      let entry : ReplayEntry = record {
        event = event;
        evidence_set = evidence_set;
        result = Result.accepted a;
      } in
      let step =
        required_self a (reduce t event evidence_set)
          (ap (λ x. reduce x.state event evidence_set) same ∙ k) in
      rw p (
        rw (replay_from-append s t entries digests entry a p' step)
          (rw (sym (ap (λ x. x.applied_result_digests) same)) refl))

module _ ⦃sha : Sha256⦄ ⦃l : Loads⦄ where
  -- An append in a calm environment rewrites the journal where it may, and recovers from it.
  undisturbed_append :
      (env : Environment) (files : Files) (g : GenesisRoot) (entries : List ReplayEntry)
      (entry : ReplayEntry)
      → Calm env
      → env.fault ≡ no_fault
      → is_none (accepted_of entry.result) ≡ false
      → Extends files g entries entry
      → append env files entry ≡ record {
        files = rewritten files (entries ++ entry ∷ []);
        replaced = true;
        result =
            caught (
              recover_unlocked (rewritten files (entries ++ entry ∷ [])) g (entries ++ entry ∷ []));
      }
  unfolding append append_body
  undisturbed_append env files g entries entry calm f a s =
      let regular =
        (load_entries-Legible files.journal entries (loaded-gives files g entries s.read).1).0 in
      rw a (
        rw (undisturbed_operation env files (append_body env entry) calm regular)
          (rw s.read (rw s.new_event (rw s.replays (rw f refl)))))

  -- An event that `reduce` accepts, with its evidence, in the state of the journal's replay is committed: where no checkpoint is kept, the journal holds no entry of the
  -- event, the lock is had and released and the replacement succeeds, the append of the event's entry writes the
  -- journal with this entry at its end and gives the state of the accepted result, its digest after the earlier ones.
  pub append-reduce :
      (env : Environment) (files : Files) (g : GenesisRoot) (entries : List ReplayEntry)
      (full : Replay) (event : Event) (evidence_set : List Evidence) (a : Accepted)
      (entry : ReplayEntry)
      → Calm env
      → env.fault ≡ no_fault
      → files.checkpoint ≡ File.absent
      → loaded files ≡ gives (g, entries)
      → replay (genesis g) entries none ≡ returned full
      → entry ≡ record { event = event; evidence_set = evidence_set; result = Result.accepted a }
      → find (same_event entry) entries ≡ none
      → reduce full.state event evidence_set ≡ returned (Result.accepted a)
      → append env files entry ≡ record {
        files = rewritten files (entries ++ entry ∷ []);
        replaced = true;
        result = gives (record {
          replayed = replayed (a.state, full.applied_result_digests ++ a.result_digest ∷ []);
          entries = entries ++ entry ∷ [];
          used_checkpoint = false;
        });
      }
  unfolding recover_unlocked load_checkpoint
  append-reduce env files g entries full event evidence_set a entry calm f c h k e n r =
      let step =
        ap (λ x. replay (genesis g) (entries ++ x ∷ []) none) e
        ∙ replay-append g entries full event evidence_set a k r in
      let s : Extends files g entries entry = record {
        read = h;
        new_event = n;
        full = _;
        replays = step;
      } in
      rw
        (undisturbed_append env files g entries entry calm f
          (ap (λ x. is_none (accepted_of x.result)) e) s)
        (rw step (rw c refl))

  -- An append whose checkpoint file cannot be read, where the journal may go on with the entry, the lock is had and released and the replacement succeeds, rewrites the
  -- journal with the entry at its end, and still refuses as corrupt with the outcome "rejected".
  pub append_under_corrupt_checkpoint :
      (env : Environment) (files : Files) (g : GenesisRoot) (entries : List ReplayEntry)
      (entry : ReplayEntry) (message : String)
      → Calm env
      → env.fault ≡ no_fault
      → is_none (accepted_of entry.result) ≡ false
      → Extends files g entries entry
      → load_checkpoint files.checkpoint ≡ throws (value_error message)
      → append env files entry ≡ record {
        files = rewritten files (entries ++ entry ∷ []);
        replaced = true;
        result = refuses kernel_store_corrupt;
      }
  unfolding recover_unlocked
  append_under_corrupt_checkpoint env files g entries entry message calm f a s c =
      rw (undisturbed_append env files g entries entry calm f a s) (rw s.replays (rw c refl))
