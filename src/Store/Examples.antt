-- ===== src/Store/Examples.antt =====
-- The theorems about valp_cli/kernel_store.py at concrete inputs.
use visible_agent_loop_proto.Kernel.IdentityKinds.{IdentityKind}
use visible_agent_loop_proto.Kernel.Results.{Result}
use visible_agent_loop_proto.Store.CheckpointBacking.{Persisted, persist_checkpoint-Persisted}
use visible_agent_loop_proto.Kernel.Digests.{canonical_json}
use visible_agent_loop_proto.Store.Lines.{lines_of}
use visible_agent_loop_proto.Json.{Json, dumps}
use visible_agent_loop_proto.Prelude.{
  true, false, List, [], ◌∷◌, ◌≡◌, refl, ap, ◌∙◌, sym, find, pos,
}
use visible_agent_loop_proto.Kernel.Outcomes.{returned}
use visible_agent_loop_proto.Kernel.Replay.{replayed}
use visible_agent_loop_proto.Kernel.Checkpoints.{
  GenesisRoot, ReplayEntry, genesis_root_canonical, replay_entry_canonical, CheckpointRoot,
  CheckpointAuthentication,
}
use visible_agent_loop_proto.Kernel.Events.{event_canonical}
use visible_agent_loop_proto.Kernel.Samples.{parity, published, authority, id, some_digest}
use visible_agent_loop_proto.Kernel.Scenarios.{cancel}
use visible_agent_loop_proto.Store.Files.{File, Files, gives, refuses, kernel_store_corrupt}
use visible_agent_loop_proto.Store.Recovery.{KernelRecovery, journal_of, journal_text, genesis_of}
use visible_agent_loop_proto.Store.Operations.{append, recover, initialize, initialize_body, loaded}
use visible_agent_loop_proto.Store.Persisting.{persist_checkpoint}
use visible_agent_loop_proto.Store.EventDecoders.{decode_event}
use visible_agent_loop_proto.Store.ResultDecoders.{decode_replay_entry, decode_genesis_root}
use visible_agent_loop_proto.Store.EventRoundTrips.{decode_event-event_canonical}
use visible_agent_loop_proto.Store.EntryRoundTrips.{
  decode_replay_entry-replay_entry_canonical, decode_genesis_root-genesis_root_canonical,
}
use visible_agent_loop_proto.Store.JournalText.{
  Legible, journal_of-journal_text, lines_of-canonical_json,
}
use visible_agent_loop_proto.Store.Legibility.{ReadableEntry-Legible, genesis_of-canonical_json}
use visible_agent_loop_proto.Store.AppendSpec.{
  Extends, AppendEnds, append_body-AppendEnds, rewritten,
}
use visible_agent_loop_proto.Store.Operations.{append_body}
use visible_agent_loop_proto.Store.Locking.{undisturbed_body}
use visible_agent_loop_proto.Store.Durability.{
  Extended, append-Extended, recover-append, append-append,
}
use visible_agent_loop_proto.Store.FullReplay.{Replays, recover-Replays}
use visible_agent_loop_proto.Store.Progress.{
  append-reduce, append_under_corrupt_checkpoint, replay-append,
}
use visible_agent_loop_proto.Store.Initialization.{Empty, initialized, recover-initialize}
use visible_agent_loop_proto.Store.Scenarios.{
  cancelled, root, entry, published_readable, cancel_readable, entry_readable,
}
use visible_agent_loop_proto.Store.Samples.{
  two_texts, root_text, loads-root_text, loads-entry_line, entry-Legible, published_genesis,
  root_legible, calm, is_calm, empty, started, started_loaded, full, started_replays,
  cancel_accepted, empty_checkpoint,
}

decode_event-event_canonical_example : decode_event (event_canonical cancel) ≡ returned cancel
decode_event-event_canonical_example = decode_event-event_canonical cancel cancel_readable

decode_replay_entry-replay_entry_canonical_example :
    decode_replay_entry (replay_entry_canonical entry) ≡ returned entry
decode_replay_entry-replay_entry_canonical_example =
    decode_replay_entry-replay_entry_canonical entry entry_readable

decode_genesis_root-genesis_root_canonical_example :
    decode_genesis_root (genesis_root_canonical root) ≡ returned root
decode_genesis_root-genesis_root_canonical_example =
    decode_genesis_root-genesis_root_canonical root published_readable published_genesis

ReadableEntry-Legible_example : Legible entry
ReadableEntry-Legible_example = ReadableEntry-Legible entry entry_readable loads-entry_line

genesis_of-canonical_json_example : genesis_of root_text ≡ returned root
genesis_of-canonical_json_example =
    genesis_of-canonical_json root published_readable published_genesis loads-root_text

journal_of-journal_text_example : journal_of (journal_text (entry ∷ [])) ≡ returned (entry ∷ [])
journal_of-journal_text_example = journal_of-journal_text (entry ∷ []) (entry-Legible, tt)

abbrev pub kept : Files
kept = rewritten started (entry ∷ [])

abbrev pub recovery : KernelRecovery
recovery = record {
  replayed = replayed (cancelled.state, cancelled.result_digest ∷ []);
  entries = entry ∷ [];
  used_checkpoint = false;
}

append-reduce_example :
    append calm started entry ≡ record { files = kept; replaced = true; result = gives recovery }
unfolding find
append-reduce_example =
    append-reduce calm started root [] full cancel authority cancelled entry is_calm refl refl
      started_loaded started_replays refl refl cancel_accepted

appended :
    append calm started entry ≡ record { files = kept; replaced = true; result = gives recovery }
unfolding find
appended =
    append-reduce calm started root [] full cancel authority cancelled entry is_calm refl refl
      started_loaded started_replays refl refl cancel_accepted

appended_gives : (append calm started entry).result ≡ gives recovery
appended_gives = ap (λ E. E.result) appended

recover-append_example : recover calm (append calm started entry).files ≡ record {
  files = (append calm started entry).files;
  replaced = false;
  result = gives recovery;
}
recover-append_example =
    recover-append calm calm started entry recovery entry-Legible is_calm appended_gives

append-append_example : append calm (append calm started entry).files entry ≡ record {
  files = (append calm started entry).files;
  replaced = false;
  result = gives recovery;
}
append-append_example =
    append-append calm calm started entry recovery entry-Legible is_calm appended_gives

append_body-AppendEnds_example : AppendEnds started entry (append_body calm entry started)
append_body-AppendEnds_example = append_body-AppendEnds calm entry started

append-Extended_example : Extended started entry (append calm started entry).files
append-Extended_example = append-Extended calm started entry

pub recover-kept : (recover calm kept).result ≡ gives recovery
recover-kept =
    ap (λ E. (recover calm E.files).result) (sym appended)
    ∙ ap (λ E. E.result)
        (recover-append calm calm started entry recovery entry-Legible is_calm appended_gives)

recover-Replays_example :
    ((recover calm kept).files ≡ kept)
    × ((g : GenesisRoot) × (entries : List ReplayEntry) × (loaded kept ≡ gives (g, entries))
        × Replays g entries recovery)
recover-Replays_example = recover-Replays calm kept recovery recover-kept

-- The store of the genesis root with a checkpoint file that is not JSON.
abbrev damaged : Files
damaged = record started { checkpoint = File.holding "" }

damaged-Extends : Extends damaged root [] entry
unfolding find loaded
damaged-Extends = record {
  read = started_loaded;
  new_event = refl;
  full = replayed (cancelled.state, cancelled.result_digest ∷ []);
  replays = replay-append root [] full cancel authority cancelled started_replays cancel_accepted;
}

append_under_corrupt_checkpoint_example : append calm damaged entry ≡ record {
  files = rewritten damaged (entry ∷ []);
  replaced = true;
  result = refuses kernel_store_corrupt;
}
append_under_corrupt_checkpoint_example =
    append_under_corrupt_checkpoint calm damaged root [] entry "Expecting value" is_calm refl refl
      damaged-Extends empty_checkpoint

empty-Empty : Empty empty
empty-Empty = record { genesis = refl; journal = refl; checkpoint = refl; effects = refl }

initialized_gives : (initialize calm empty root).result ≡ gives tt
unfolding initialize initialize_body
initialized_gives =
    rw started_replays
      (rw (undisturbed_body calm empty (initialize_body calm root_text) is_calm refl) refl)

recover-initialize_example :
    ((initialize calm empty root).files ≡ initialized empty root)
    × (recover calm (initialize calm empty root).files ≡ record {
      files = initialized empty root;
      replaced = false;
      result =
          gives
            (record { replayed = replayed (published, []); entries = []; used_checkpoint = false });
    })
recover-initialize_example =
    recover-initialize calm calm empty root empty-Empty root_legible is_calm initialized_gives

lines_of-canonical_json_example :
    lines_of (canonical_json (Json.str "two\nlines")) ≡ dumps (Json.str "two\nlines") ∷ []
lines_of-canonical_json_example = lines_of-canonical_json (Json.str "two\nlines")

-- A checkpoint of the cancelled task, after one entry.
abbrev saved : CheckpointRoot
saved = record {
  state = cancelled.state;
  accepted_entry_count = pos 1;
  prefix_digest = some_digest;
  tail_event_id = cancel.event_id;
  tail_result_id = cancelled.result_id;
  tail_result_digest = cancelled.result_digest;
  checkpoint_result_id = cancelled.result_id;
  trust_policy_digest = some_digest;
}

abbrev authentication : CheckpointAuthentication
authentication = record {
  checkpoint_result = Result.accepted cancelled;
  evidence_set = authority;
  trust_policy = record { trusted_evidence_ids = id IdentityKind.evidence "v1" ∷ [] };
}

persist_checkpoint-Persisted_example :
    Persisted kept saved authentication (persist_checkpoint calm kept saved authentication).files
persist_checkpoint-Persisted_example = persist_checkpoint-Persisted calm kept saved authentication
