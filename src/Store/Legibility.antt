-- ===== src/Store/Legibility.antt =====
-- valp_cli/kernel_store.py: the texts that the store writes are read back, where `json.loads` gives back what was dumped.
use Prim.Native.String.{◌++◌ as concat}
use text.Mathlib.TextLemmas.{cons-append, append-nil}
use visible_agent_loop_proto.Prelude.{
  String, true, false, some, ◌≡◌, refl, sym, ap, ◌∙◌, ◌==◌, string_eq, eq_refl, contains, none,
}
use visible_agent_loop_proto.Json.{Json, Fields, obj, dumps}
use visible_agent_loop_proto.Json.OneLine.{one_line-dumps}
use visible_agent_loop_proto.Kernel.Digests.{Sha256, canonical_json, codes}
use visible_agent_loop_proto.Kernel.Outcomes.{returned, raised, value_error}
use visible_agent_loop_proto.Kernel.Checkpoints.{
  ReplayEntry, replay_entry_canonical, GenesisRoot, genesis_root_canonical,
}
use visible_agent_loop_proto.Kernel.Replay.{genesis_is_valid}
use visible_agent_loop_proto.Store.Readable.{ReadableState}
use visible_agent_loop_proto.Store.EntryRoundTrips.{
  ReadableEntry, decode_replay_entry-replay_entry_canonical,
  decode_genesis_root-genesis_root_canonical,
}
use visible_agent_loop_proto.Store.Lines.{ends_in_newline, has_return, has_mark}
use visible_agent_loop_proto.Store.JournalText.{
  Legible, line_of, char_is_not_empty, ends_in_newline_line, has_return_line,
}
use visible_agent_loop_proto.Store.Files.{Loads}
use visible_agent_loop_proto.Store.Recovery.{entry_of_line, genesis_of, parse}

-- The text of an object begins with a brace.
dumps-obj : (fs : Fields) → (rest : String) × (dumps (obj fs) ≡ String.◌∷◌ "{" rest)
unfolding dumps
dumps-obj fs = (_, cons-append "{" "" _)

object_is_not_empty : (fs : Fields) → (dumps (obj fs) == "") ≡ false
object_is_not_empty fs = let (rest, h) = dumps-obj fs in rw h (char_is_not_empty "{" rest)

has_mark-object : (fs : Fields) → has_mark (canonical_json (obj fs)) ≡ false
unfolding canonical_json
has_mark-object fs = let (rest, h) = dumps-obj fs in rw h (rw (cons-append "{" rest "\n") refl)

-- The canonical text of a value ends in the only line end that it has.
pub ends_in_newline-canonical_json : (value : Json) → ends_in_newline (canonical_json value) ≡ true
unfolding canonical_json
ends_in_newline-canonical_json value =
    ap ends_in_newline (sym (append-nil (concat (dumps value) "\n")))
    ∙ ends_in_newline_line (dumps value) "" refl

has_return-canonical_json : (value : Json) → has_return (canonical_json value) ≡ false
unfolding canonical_json has_return contains codes
has_return-canonical_json value =
    ap has_return (sym (append-nil (concat (dumps value) "\n")))
    ∙ has_return_line (dumps value) "" (one_line-dumps value) refl

module _ ⦃sha : Sha256⦄ ⦃l : Loads⦄ where
  parse_loaded :
      (text : String) (value : Json) → l.loads text ≡ some value → parse text ≡ returned value
  parse_loaded text value h = rw (h, parse) refl

  pub parse_refused :
      (text : String) → l.loads text ≡ none → parse text ≡ raised (value_error "Expecting value")
  parse_refused text h = rw (h, parse) refl

  pub line_is_not_empty : (entry : ReplayEntry) → (line_of entry == "") ≡ false
  unfolding replay_entry_canonical
  line_is_not_empty entry = object_is_not_empty _

  has_mark-genesis :
      (root : GenesisRoot) → has_mark (canonical_json (genesis_root_canonical root)) ≡ false
  unfolding genesis_root_canonical
  has_mark-genesis root = has_mark-object _

  -- The line of an accepted entry is read as this entry, where the entry is readable (its identities
  -- have values and the kinds of their fields, its enumeration members are known, and its evidence stands in canonical order) and
  -- `json.loads` gives the value back of which the line is the text.
  pub ReadableEntry-Legible :
      (entry : ReplayEntry)
      → ReadableEntry entry
      → l.loads (line_of entry) ≡ some (replay_entry_canonical entry)
      → Legible entry
  unfolding entry_of_line
  ReadableEntry-Legible entry n h = rw (line_is_not_empty entry) (
      rw (parse_loaded _ _ h) (
        rw (decode_replay_entry-replay_entry_canonical entry n)
          (rw (eq_refl (line_of entry)) refl)))

  -- The text that `initialize` writes for a genesis root is read as this root, where the root's state is the
  -- empty, published state of a task with readable identities and `json.loads` gives the value back of which it is
  -- the text.
  pub genesis_of-canonical_json :
      (root : GenesisRoot)
      → ReadableState root.state
      → genesis_is_valid root.state ≡ true
      → l.loads (canonical_json (genesis_root_canonical root)) ≡ some (genesis_root_canonical root)
      → genesis_of (canonical_json (genesis_root_canonical root)) ≡ returned root
  unfolding genesis_of
  genesis_of-canonical_json root n g h =
      rw (ends_in_newline-canonical_json (genesis_root_canonical root)) (
        rw (has_return-canonical_json (genesis_root_canonical root)) (
          rw (has_mark-genesis root) (
            rw (parse_loaded _ _ h) (
              rw (decode_genesis_root-genesis_root_canonical root n g)
                (rw (eq_refl (canonical_json (genesis_root_canonical root))) refl)))))
