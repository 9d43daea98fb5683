-- ===== src/Store/Recovery.antt =====
-- valp_cli/kernel_store.py: loading the genesis root, the journal and the checkpoint, and the recovery of the state.
use Prim.Native.String.{◌++◌ as concat}
use visible_agent_loop_proto.Prelude.{
  ℤ, pos, negsuc, suc, ◌-◌, String, Bool, true, false, not, Option, none, some, List, [], ◌∷◌, ◌||◌,
  ◌==◌, ◌!=◌, string_eq, take, drop, length, ltb_ℤ, if◌then◌else◌,
}
use visible_agent_loop_proto.Json.{Json, str, fields, dumps}
use visible_agent_loop_proto.Kernel.Results.{Replay}
use visible_agent_loop_proto.Kernel.States.{state_canonical}
use visible_agent_loop_proto.Kernel.StateEquality.{state_beq}
use visible_agent_loop_proto.Kernel.Digests.{Sha256, canonical_json}
use visible_agent_loop_proto.Kernel.Outcomes.{Outcome, returned, raised, value_error, ◌>>=◌}
use visible_agent_loop_proto.Kernel.Checkpoints.{
  GenesisRoot, genesis_root_canonical, CheckpointRoot, checkpoint_root_canonical, ReplayEntry,
  replay_entry_canonical, CheckpointAuthentication, checkpoint_authentication_canonical,
  replay_prefix_digest,
}
use visible_agent_loop_proto.Kernel.Replay.{genesis, checkpoint, replay}
use visible_agent_loop_proto.Store.Shapes.{shape, at, versioned}
use visible_agent_loop_proto.Store.ResultDecoders.{
  decode_replay_entry, decode_genesis_root, checkpoint_root_from, checkpoint_authentication_from,
}
use visible_agent_loop_proto.Store.Lines.{
  lines_of, ends_in_newline, has_return, has_mark, ill_formed,
}
use visible_agent_loop_proto.Store.Files.{
  File, Files, Loads, Attempted, gives, throws, ◌>>>◌, lifted, ensure_regular, ledger_corrupt,
  refuses,
}

-- `KernelRecovery`
pub record KernelRecovery : Type 0 where
  pub replayed : Replay
  pub entries : List ReplayEntry
  pub used_checkpoint : Bool

-- `entries[:count]` and `entries[count:]`: a negative count is taken from the end.
abbrev pub slice_to : {A : Type 0} → ℤ → List A → List A
slice_to (pos n) xs = take n xs
slice_to (negsuc n) xs = take (length xs - suc n) xs

abbrev pub slice_from : {A : Type 0} → ℤ → List A → List A
slice_from (pos n) xs = drop n xs
slice_from (negsuc n) xs = drop (length xs - suc n) xs

module _ ⦃sha : Sha256⦄ ⦃l : Loads⦄ where
  -- `self._parse(payload)`
  abbrev pub parse : String → Outcome Json
  parse payload = elim (l.loads payload) [
    | none ↦ raised (value_error "Expecting value")
    | some value ↦ returned value
  ]

  -- `_read_canonical(path, decode_genesis_root)` of a text.
  unfoldable pub genesis_of : String → Outcome GenesisRoot
  genesis_of payload =
      if not (ends_in_newline payload) || has_return payload || has_mark payload
      then raised (value_error "noncanonical Kernel artifact")
      else parse payload >>= λ value. decode_genesis_root value >>= λ root.
          if payload != canonical_json (genesis_root_canonical root)
          then raised (value_error "noncanonical Kernel artifact")
          else returned root

  -- `_load_genesis`
  unfoldable pub load_genesis : File → Attempted GenesisRoot
  load_genesis File.absent = throws (value_error "Kernel GenesisRoot is missing")
  load_genesis File.irregular = refuses ledger_corrupt
  load_genesis (File.holding payload) = lifted (genesis_of payload)

  -- One line of the journal.
  unfoldable pub entry_of_line : String → Outcome ReplayEntry
  entry_of_line line =
      if line == ""
      then raised (value_error "Kernel journal contains a blank line")
      else parse line >>= λ value. decode_replay_entry value >>= λ entry.
          if line != dumps (replay_entry_canonical entry)
          then raised (value_error "Kernel journal contains a noncanonical entry")
          else returned entry

  unfoldable pub entries_of_lines : List String → Outcome (List ReplayEntry)
  entries_of_lines [] = returned []
  entries_of_lines (line ∷ rest) =
      entry_of_line line >>= λ entry. entries_of_lines rest >>= λ later. returned (entry ∷ later)

  unfoldable pub journal_of : String → Outcome (List ReplayEntry)
  journal_of payload =
      if ill_formed payload
      then raised (value_error "Kernel journal is not canonical LF-terminated JSONL")
      else entries_of_lines (lines_of payload)

  -- `_load_entries`
  unfoldable pub load_entries : File → Attempted (List ReplayEntry)
  load_entries file = ensure_regular file (elim file [
    | File.absent ↦ gives []
    | File.irregular ↦ gives []
    | File.holding payload ↦ lifted (journal_of payload)
  ])

  -- `_journal_bytes`
  unfoldable pub journal_text : List ReplayEntry → String
  journal_text [] = ""
  journal_text (entry ∷ rest) =
      concat (canonical_json (replay_entry_canonical entry)) (journal_text rest)

  abbrev pub envelope : CheckpointRoot → CheckpointAuthentication → Json
  envelope root authentication = fields (
      ("schema_version", str "valp-kernel-checkpoint-envelope.v1")
      ∷ ("root", checkpoint_root_canonical root)
      ∷ ("authentication", checkpoint_authentication_canonical authentication)
      ∷ [])

  unfoldable pub checkpoint_of : String → Outcome (CheckpointRoot × CheckpointAuthentication)
  checkpoint_of payload = parse payload >>= λ value.
      shape value ("schema_version" ∷ "root" ∷ "authentication" ∷ []) [] >>= λ fs.
      versioned "valp-kernel-checkpoint-envelope.v1" fs (
        at "root" fs checkpoint_root_from >>= λ root.
        at "authentication" fs checkpoint_authentication_from >>= λ authentication.
        if payload != canonical_json (envelope root authentication)
        then raised (value_error "checkpoint envelope is noncanonical")
        else returned (root, authentication))

  -- `_load_checkpoint`
  unfoldable pub load_checkpoint :
      File → Attempted (Option (CheckpointRoot × CheckpointAuthentication))
  load_checkpoint file = ensure_regular file (elim file [
    | File.absent ↦ gives none
    | File.irregular ↦ gives none
    | File.holding payload ↦ lifted (checkpoint_of payload) >>> λ c. gives (some c)
  ])

  -- The checks of a checkpoint against the journal, and the replay of the rest from it.
  unfoldable pub recovered_from :
      GenesisRoot
      → List ReplayEntry
      → Replay
      → CheckpointRoot
      → CheckpointAuthentication
      → Outcome KernelRecovery
  recovered_from g entries full root authentication =
      if ltb_ℤ (pos (length entries)) root.accepted_entry_count
      then raised (value_error "checkpoint is ahead of the Kernel journal")
      else replay_prefix_digest (slice_to root.accepted_entry_count entries) >>= λ prefix_digest.
          if root.prefix_digest != prefix_digest
          then raised (value_error "checkpoint prefix digest does not match journal")
          else replay (genesis g) (slice_to root.accepted_entry_count entries) none >>= λ prefix.
              if not (state_beq prefix.state root.state)
              then raised (value_error "checkpoint State does not match journal prefix")
              else replay (checkpoint root) (slice_from root.accepted_entry_count entries)
                  (some authentication)
                >>= λ recovered.
                    if dumps (state_canonical recovered.state) != dumps (state_canonical full.state)
                    then raised (value_error "checkpoint recovery differs from full Genesis replay")
                    else returned
                        (record { replayed = recovered; entries = entries; used_checkpoint = true })

  abbrev pub recovery_with :
      GenesisRoot
      → List ReplayEntry
      → Replay
      → Option (CheckpointRoot × CheckpointAuthentication)
      → Outcome KernelRecovery
  recovery_with g entries full none =
      returned (record { replayed = full; entries = entries; used_checkpoint = false })
  recovery_with g entries full (some (root, authentication)) =
      recovered_from g entries full root authentication

  -- `_recover_unlocked(genesis, entries)`
  unfoldable pub recover_unlocked :
      Files → GenesisRoot → List ReplayEntry → Attempted KernelRecovery
  recover_unlocked files g entries = lifted (replay (genesis g) entries none) >>> λ full.
      load_checkpoint files.checkpoint >>> λ c. lifted (recovery_with g entries full c)

  -- The body of `recover`.
  unfoldable pub recovered : Files → Attempted KernelRecovery
  recovered files = load_genesis files.genesis >>> λ g.
      load_entries files.journal >>> λ entries. recover_unlocked files g entries
