-- ===== src/Store/AppendSpec.antt =====
-- valp_cli/kernel_store.py: what `append` promises of the files and its result, as a relation, and that it keeps the promise.
use visible_agent_loop_proto.Prelude.{
  Bool, true, false, Option, none, some, List, [], ◌∷◌, ◌++◌, ◌≡◌, refl, find, ◌==◌, string_eq,
  eq_sound,
}
use visible_agent_loop_proto.Kernel.Results.{Replay}
use visible_agent_loop_proto.Kernel.Digests.{Sha256}
use visible_agent_loop_proto.Kernel.Outcomes.{Outcome, returned, raised, Exception, os_error}
use visible_agent_loop_proto.Kernel.Checkpoints.{GenesisRoot, ReplayEntry}
use visible_agent_loop_proto.Kernel.Replay.{genesis, replay}
use visible_agent_loop_proto.Store.JournalText.{line_of}
use visible_agent_loop_proto.Store.Files.{
  File, Files, Loads, StoreError, Environment, Fault, no_fault, before_rename, after_rename,
  Attempted, gives, throws, refuses, Ended, durability_unknown, durability_precommit,
  store_idempotency_conflict, not_created, unlink_before_rename, unlink_after_rename,
}
use visible_agent_loop_proto.Store.Recovery.{KernelRecovery, journal_text, recover_unlocked}
use visible_agent_loop_proto.Store.Operations.{
  same_event, repeated_entry, append_body, append_loaded, append_found, replayed_append, loaded,
}

module _ ⦃sha : Sha256⦄ ⦃l : Loads⦄ where
  -- The files with the journal of some entries.
  abbrev pub rewritten : Files → List ReplayEntry → Files
  rewritten files entries = record files { journal = File.holding (journal_text entries) }

  -- The journal of a genesis root may go on with an entry of a new event: the replay of all of them succeeds.
  pub record Extends (files : Files) (g : GenesisRoot) (entries : List ReplayEntry)
      (entry : ReplayEntry) : Type 0 where
    pub read : loaded files ≡ gives (g, entries)
    pub new_event : find (same_event entry) entries ≡ none
    pub full : Replay
    pub replays : replay (genesis g) (entries ++ entry ∷ []) none ≡ returned full

  -- An entry with the event of an entry of the journal, which is the same entry.
  pub record Repeats (files : Files) (g : GenesisRoot) (entries : List ReplayEntry)
      (entry : ReplayEntry) : Type 0 where
    pub read : loaded files ≡ gives (g, entries)
    pub prior : ReplayEntry
    pub found : find (same_event entry) entries ≡ some prior
    pub same : line_of prior ≡ line_of entry

  -- How an append may end: nothing is written and the call fails; nothing is written, since the journal holds the entry, and the state is recovered;
  -- the journal is rewritten with the entry and the state is recovered from it; or it is rewritten and the call tells that it may be,
  -- or raises.
  pub data AppendEnds (files : Files) (entry : ReplayEntry) : Ended KernelRecovery → Type 0 where
    stops :
        (e : StoreError)
        → AppendEnds files entry (record { files = files; replaced = false; result = refuses e })
    fails :
        (x : Exception)
        → AppendEnds files entry (record { files = files; replaced = false; result = throws x })
    repeats :
        (g : GenesisRoot) (entries : List ReplayEntry)
        → Repeats files g entries entry
        → AppendEnds files entry
            (record { files = files; replaced = false; result = recover_unlocked files g entries })
    appends :
        (g : GenesisRoot) (entries : List ReplayEntry)
        → Extends files g entries entry
        → AppendEnds files entry (record {
          files = rewritten files (entries ++ entry ∷ []);
          replaced = true;
          result =
              recover_unlocked (rewritten files (entries ++ entry ∷ [])) g (entries ++ entry ∷ []);
        })
    is_unsure :
        (g : GenesisRoot) (entries : List ReplayEntry)
        → Extends files g entries entry
        → AppendEnds files entry (record {
          files = rewritten files (entries ++ entry ∷ []);
          replaced = true;
          result = refuses durability_unknown;
        })
    is_left :
        (g : GenesisRoot) (entries : List ReplayEntry)
        → Extends files g entries entry
        → AppendEnds files entry (record {
          files = rewritten files (entries ++ entry ∷ []);
          replaced = true;
          result = throws os_error;
        })

  written_ends :
      (env : Environment) (fault : Fault) (files : Files) (g : GenesisRoot)
      (entries : List ReplayEntry) (entry : ReplayEntry) (done : Replay)
      → loaded files ≡ gives (g, entries)
      → find (same_event entry) entries ≡ none
      → replay (genesis g) (entries ++ entry ∷ []) none ≡ returned done
      → AppendEnds files entry
          (replayed_append (record env { fault = fault }) files g entries entry (returned done))
  written_ends env no_fault files g entries entry done h n k =
      appends g entries (record { read = h; new_event = n; full = done; replays = k })
  written_ends env before_rename files g entries entry done h n k = stops durability_precommit
  written_ends env after_rename files g entries entry done h n k =
      is_unsure g entries (record { read = h; new_event = n; full = done; replays = k })
  written_ends env unlink_after_rename files g entries entry done h n k =
      is_left g entries (record { read = h; new_event = n; full = done; replays = k })
  written_ends env not_created files g entries entry done h n k = fails os_error
  written_ends env unlink_before_rename files g entries entry done h n k = fails os_error

  replayed_ends :
      (env : Environment) (files : Files) (g : GenesisRoot) (entries : List ReplayEntry)
      (entry : ReplayEntry) (o : Outcome Replay)
      → loaded files ≡ gives (g, entries)
      → find (same_event entry) entries ≡ none
      → replay (genesis g) (entries ++ entry ∷ []) none ≡ o
      → AppendEnds files entry (replayed_append env files g entries entry o)
  replayed_ends env files g entries entry (raised x) h n k = fails x
  replayed_ends env files g entries entry (returned done) h n k =
      written_ends env env.fault files g entries entry done h n k

  repeated_ends :
      (b : Bool) (files : Files) (g : GenesisRoot) (entries : List ReplayEntry)
      (entry prior : ReplayEntry)
      → loaded files ≡ gives (g, entries)
      → find (same_event entry) entries ≡ some prior
      → (line_of prior == line_of entry) ≡ b
      → AppendEnds files entry (record {
        files = files;
        replaced = false;
        result = repeated_entry files g entries entry prior;
      })
  repeated_ends true files g entries entry prior h n k = rw k (
      repeats g entries (record {
        read = h;
        prior = prior;
        found = n;
        same = eq_sound (line_of prior) (line_of entry) k;
      }))
  repeated_ends false files g entries entry prior h n k = rw k (stops store_idempotency_conflict)

  found_ends :
      (env : Environment) (files : Files) (g : GenesisRoot) (entries : List ReplayEntry)
      (entry : ReplayEntry) (o : Option ReplayEntry)
      → loaded files ≡ gives (g, entries)
      → find (same_event entry) entries ≡ o
      → AppendEnds files entry (append_found env files g entries entry o)
  found_ends env files g entries entry none h n = replayed_ends env files g entries entry _ h n refl
  found_ends env files g entries entry (some prior) h n =
      repeated_ends _ files g entries entry prior h n refl

  loaded_ends :
      (env : Environment) (files : Files) (entry : ReplayEntry)
      (o : Attempted (GenesisRoot × List ReplayEntry))
      → loaded files ≡ o
      → AppendEnds files entry (append_loaded env files entry o)
  loaded_ends env files entry (gives (g, entries)) h = found_ends env files g entries entry _ h refl
  loaded_ends env files entry (refuses e) h = stops e
  loaded_ends env files entry (throws x) h = fails x

  -- Under the lock an append ends in one of these ways in every environment: it refuses or raises and writes nothing; it finds its entry in the
  -- journal, writes nothing and recovers; or, where the event is new and the replay of the journal with the entry succeeds, it rewrites the
  -- journal and recovers from it, tells that the outcome is unknown, or raises where the temporary path cannot be removed.
  pub append_body-AppendEnds :
      (env : Environment) (entry : ReplayEntry) (files : Files)
      → AppendEnds files entry (append_body env entry files)
  unfolding append_body
  append_body-AppendEnds env entry files = loaded_ends env files entry (loaded files) refl
