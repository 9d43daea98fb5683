-- ===== src/Store/Samples.antt =====
-- Concrete texts and files for the tests: what `json.loads` gives for two texts, and stores with and without a history.
use visible_agent_loop_proto.Prelude.{
  String, true, false, none, some, [], ◌≡◌, refl, sym, ap, ◌∙◌, ◌==◌, string_eq, eq_refl, eq_sound,
  if◌then◌else◌,
}
use visible_agent_loop_proto.Json.OneLine.{one_line-dumps}
use visible_agent_loop_proto.Kernel.Digests.{canonical_json}
use visible_agent_loop_proto.Kernel.Results.{Result, Replay}
use visible_agent_loop_proto.Kernel.Outcomes.{returned, value_error}
use visible_agent_loop_proto.Kernel.Reduce.{reduce}
use visible_agent_loop_proto.Kernel.Replay.{
  genesis, replay, genesis_is_valid, verified_root, replay_from, replayed,
}
use visible_agent_loop_proto.Kernel.Checkpoints.{genesis_root_canonical, replay_entry_canonical}
use visible_agent_loop_proto.Kernel.Samples.{parity, published, authority}
use visible_agent_loop_proto.Kernel.Scenarios.{
  accepted_after, cancel, published_cancels, published_valid,
}
use visible_agent_loop_proto.Store.Lines.{ends_in_newline}
use visible_agent_loop_proto.Store.JournalText.{
  false_when, ends_in_newline-one_line, line_of, Legible,
}
use visible_agent_loop_proto.Store.Legibility.{
  ends_in_newline-canonical_json, line_is_not_empty, ReadableEntry-Legible,
  genesis_of-canonical_json, parse_refused,
}
use visible_agent_loop_proto.Store.Files.{File, Files, Loads, Environment, no_fault, gives, throws}
use visible_agent_loop_proto.Store.Recovery.{
  genesis_of, load_genesis, load_entries, load_checkpoint, checkpoint_of,
}
use visible_agent_loop_proto.Store.Operations.{loaded}
use visible_agent_loop_proto.Store.Locking.{Calm}
use visible_agent_loop_proto.Store.Scenarios.{
  cancelled, root, entry, published_readable, entry_readable,
}

abbrev pub root_text : String
root_text = canonical_json (genesis_root_canonical root)

abbrev pub entry_line : String
entry_line = line_of entry

-- `json.loads` of the text of the root and of the line of the entry. Another text is refused.
instance abbrev pub two_texts : Loads
two_texts = record {
  loads = λ text.
      if text == root_text
      then some (genesis_root_canonical root)
      else if text == entry_line
      then some (replay_entry_canonical entry)
      else none;
}

pub loads-root_text : two_texts.loads root_text ≡ some (genesis_root_canonical root)
loads-root_text = rw (eq_refl root_text) refl

line_is_not_root : (entry_line == root_text) ≡ false
line_is_not_root = false_when (entry_line == root_text) λ h.
    sym (ends_in_newline-one_line entry_line (one_line-dumps (replay_entry_canonical entry)))
    ∙ ap ends_in_newline (eq_sound entry_line root_text h)
    ∙ ends_in_newline-canonical_json (genesis_root_canonical root)

pub loads-entry_line : two_texts.loads entry_line ≡ some (replay_entry_canonical entry)
loads-entry_line = rw line_is_not_root (rw (eq_refl entry_line) refl)

pub entry-Legible : Legible entry
entry-Legible = ReadableEntry-Legible entry entry_readable loads-entry_line

pub published_genesis : genesis_is_valid published ≡ true
unfolding genesis_is_valid
published_genesis = rw published_valid refl

pub root_legible : genesis_of root_text ≡ returned root
root_legible = genesis_of-canonical_json root published_readable published_genesis loads-root_text

-- The lock is had, the replacement succeeds and the lock is released.
abbrev pub calm : Environment
calm = record { lock_refused = none; fault = no_fault; release_fails = false; handling = false }

pub is_calm : Calm calm
is_calm = record { had = refl; lock_released = refl }

abbrev pub empty : Files
empty = record {
  genesis = File.absent;
  journal = File.absent;
  checkpoint = File.absent;
  effects = File.absent;
  proofs = none;
}

abbrev pub started : Files
started = record empty { genesis = File.holding root_text }

pub started_loaded : loaded started ≡ gives (root, [])
unfolding loaded load_genesis load_entries
started_loaded = rw root_legible refl

abbrev pub full : Replay
full = replayed (published, [])

pub started_replays : replay (genesis root) [] none ≡ returned full
unfolding replay verified_root replay_from
started_replays = rw published_genesis refl

pub cancel_accepted : reduce published cancel authority ≡ returned (Result.accepted cancelled)
cancel_accepted = accepted_after (reduce published cancel authority) published_cancels

empty_is_not_root : ("" == root_text) ≡ false
unfolding ends_in_newline
empty_is_not_root = false_when ("" == root_text) λ h.
    ap ends_in_newline (eq_sound "" root_text h)
    ∙ ends_in_newline-canonical_json (genesis_root_canonical root)

empty_is_not_line : ("" == entry_line) ≡ false
empty_is_not_line =
    false_when ("" == entry_line)
      λ h. sym (line_is_not_empty entry) ∙ ap (λ t. t == "") (sym (eq_sound "" entry_line h))

loads_nothing : two_texts.loads "" ≡ none
loads_nothing = rw empty_is_not_root (rw empty_is_not_line refl)

-- A checkpoint file without a text.
pub empty_checkpoint : load_checkpoint (File.holding "") ≡ throws (value_error "Expecting value")
unfolding load_checkpoint checkpoint_of
empty_checkpoint = rw (parse_refused "" loads_nothing) refl
