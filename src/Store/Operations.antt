-- ===== src/Store/Operations.antt =====
-- valp_cli/kernel_store.py: `initialize`, `append` and `recover`.
use visible_agent_loop_proto.Kernel.Results.{Replay}
use visible_agent_loop_proto.Prelude.{
  String, Bool, true, false, Option, none, some, List, [], ◌∷◌, ◌++◌, ◌||◌, ◌==◌, ◌!=◌, string_eq,
  find, is_none, if◌then◌else◌,
}
use visible_agent_loop_proto.Json.{dumps}
use visible_agent_loop_proto.Kernel.Identities.{identity_eq}
use visible_agent_loop_proto.Kernel.Digests.{Sha256, canonical_json}
use visible_agent_loop_proto.Kernel.Outcomes.{Outcome, returned, raised}
use visible_agent_loop_proto.Kernel.Checkpoints.{
  GenesisRoot, genesis_root_canonical, ReplayEntry, replay_entry_canonical, accepted_of,
}
use visible_agent_loop_proto.Kernel.Replay.{genesis, replay}
use visible_agent_loop_proto.Store.Files.{
  File, Files, Loads, Environment, Attempted, gives, throws, refuses, ◌>>>◌, ensure_regular,
  replace, Ended, operation, reading, store_state_conflict, store_idempotency_conflict,
  kernel_store_corrupt, locked,
}
use visible_agent_loop_proto.Store.Recovery.{
  KernelRecovery, load_genesis, load_entries, journal_text, recover_unlocked, recovered,
}

abbrev pub exists : File → Bool
exists File.absent = false
exists _ = true

-- The body of `initialize` under the lock.
abbrev pub initialized_over : Environment → Files → String → File → Ended (Unit {0})
initialized_over env files payload (File.holding old) = record {
  files = files;
  replaced = false;
  result = if old != payload then refuses store_idempotency_conflict else gives tt;
}
initialized_over env files payload File.irregular = record {
  files = files;
  replaced = false;
  result = gives tt;
}
initialized_over env files payload File.absent =
    if exists files.journal || exists files.checkpoint || exists files.effects
    then record { files = files; replaced = false; result = refuses kernel_store_corrupt }
    else let (file, replaced, result) = replace env.fault files.genesis payload in
      record { files = record files { genesis = file }; replaced = replaced; result = result }

abbrev regular_or : Files → Ended (Unit {0}) → Attempted (Unit {0}) → Ended (Unit {0})
regular_or files ended (gives u) = ended
regular_or files ended (refuses e) = record { files = files; replaced = false; result = refuses e }
regular_or files ended (throws x) = record { files = files; replaced = false; result = throws x }

unfoldable pub initialize_body : Environment → String → Files → Ended (Unit {0})
initialize_body env payload files =
    regular_or files (initialized_over env files payload files.genesis) (
      ensure_regular files.genesis
        (ensure_regular files.checkpoint (ensure_regular files.effects (gives tt))))

-- The event of an entry has been accepted before.
abbrev pub same_event : ReplayEntry → ReplayEntry → Bool
same_event entry prior = prior.event.event_id == entry.event.event_id

module _ ⦃sha : Sha256⦄ where
  abbrev pub initialize_after :
      Environment → Files → GenesisRoot → Outcome Replay → Ended (Unit {0})
  initialize_after env files root (raised x) = record {
    files = files;
    replaced = false;
    result = throws x;
  }
  initialize_after env files root (returned done) =
      locked env files (initialize_body env (canonical_json (genesis_root_canonical root)))

  -- `initialize(genesis)`: its first replay is outside of the lock, and only the errors of the store are caught, which stay as they are.
  unfoldable pub initialize : Environment → Files → GenesisRoot → Ended (Unit {0})
  initialize env files root = initialize_after env files root (replay (genesis root) [] none)

module _ ⦃sha : Sha256⦄ ⦃l : Loads⦄ where
  -- The rewritten journal, and the recovery from it.
  abbrev pub appended_to :
      Environment → Files → GenesisRoot → List ReplayEntry → ReplayEntry → Ended KernelRecovery
  appended_to env files g entries entry =
      let (file, replaced, result) =
        replace env.fault files.journal (journal_text (entries ++ entry ∷ [])) in
      let next = record files { journal = file } in
      record {
        files = next;
        replaced = replaced;
        result = result >>> λ _. recover_unlocked next g (entries ++ entry ∷ []);
      }

  -- An entry whose event is in the journal: the same entry, or a conflict.
  abbrev pub repeated_entry :
      Files → GenesisRoot → List ReplayEntry → ReplayEntry → ReplayEntry → Attempted KernelRecovery
  repeated_entry files g entries entry prior =
      if dumps (replay_entry_canonical prior) == dumps (replay_entry_canonical entry)
      then recover_unlocked files g entries
      else refuses store_idempotency_conflict

  -- The rewriting of the journal where the replay with the new entry succeeds.
  abbrev pub replayed_append :
      Environment
      → Files
      → GenesisRoot
      → List ReplayEntry
      → ReplayEntry
      → Outcome Replay
      → Ended KernelRecovery
  replayed_append env files g entries entry (raised x) = record {
    files = files;
    replaced = false;
    result = throws x;
  }
  replayed_append env files g entries entry (returned done) = appended_to env files g entries entry

  abbrev pub checked_append :
      Environment → Files → GenesisRoot → List ReplayEntry → ReplayEntry → Ended KernelRecovery
  checked_append env files g entries entry =
      replayed_append env files g entries entry (replay (genesis g) (entries ++ entry ∷ []) none)

  -- The loop over the entries of the journal finds the first of the event.
  abbrev pub append_found :
      Environment
      → Files
      → GenesisRoot
      → List ReplayEntry
      → ReplayEntry
      → Option ReplayEntry
      → Ended KernelRecovery
  append_found env files g entries entry (some prior) = record {
    files = files;
    replaced = false;
    result = repeated_entry files g entries entry prior;
  }
  append_found env files g entries entry none = checked_append env files g entries entry

  abbrev pub append_loaded :
      Environment
      → Files
      → ReplayEntry
      → Attempted (GenesisRoot × List ReplayEntry)
      → Ended KernelRecovery
  append_loaded env files entry (gives (g, entries)) =
      append_found env files g entries entry (find (same_event entry) entries)
  append_loaded env files entry (refuses e) = record {
    files = files;
    replaced = false;
    result = refuses e;
  }
  append_loaded env files entry (throws x) = record {
    files = files;
    replaced = false;
    result = throws x;
  }

  -- `self._load_genesis()` and `self._load_entries()`
  unfoldable pub loaded : Files → Attempted (GenesisRoot × List ReplayEntry)
  loaded files = load_genesis files.genesis >>> λ g.
      load_entries files.journal >>> λ entries. gives (g, entries)

  unfoldable pub append_body : Environment → ReplayEntry → Files → Ended KernelRecovery
  append_body env entry files = append_loaded env files entry (loaded files)

  -- `append(entry)`
  unfoldable pub append : Environment → Files → ReplayEntry → Ended KernelRecovery
  append env files entry =
      if is_none (accepted_of entry.result)
      then record { files = files; replaced = false; result = refuses store_state_conflict }
      else operation env files (append_body env entry)

  -- `recover()`
  unfoldable pub recover : Environment → Files → Ended KernelRecovery
  recover env files = operation env files (reading recovered)
