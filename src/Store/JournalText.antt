-- ===== src/Store/JournalText.antt =====
-- valp_cli/kernel_store.py: reading the journal that `_journal_bytes` writes, and writing the journal that was read.
use visible_agent_loop_proto.Store.ResultDecoders.{decode_replay_entry}
use visible_agent_loop_proto.Kernel.Outcomes.{returned, bind-returned, returned_inj, raise_or}
use visible_agent_loop_proto.Store.Files.{Loads}
use visible_agent_loop_proto.Json.{dumps, Json}
use visible_agent_loop_proto.Store.Recovery.{
  journal_text, parse, entry_of_line, entries_of_lines, journal_of,
}
use visible_agent_loop_proto.Kernel.Checkpoints.{ReplayEntry, replay_entry_canonical}
use Prim.Native.Char.{Char}
use Prim.Native.String.{◌++◌ as concat}
use text.Mathlib.TextLemmas.{nil-append, cons-append, append-nil}
use visible_agent_loop_proto.Prelude.{
  String, true, false, ◌∷◌, ◌≡◌, refl, arith, ◌||◌, ◌==◌, string_eq, nat_eq, contains, ap, sym,
  eq_sound, map, Bool, List, All, [], ne_sound, ◌∙◌, ◌!=◌,
}
use visible_agent_loop_proto.Json.OneLine.{one_line, one_line-dumps}
use visible_agent_loop_proto.Kernel.Digests.{codes, canonical_json, Sha256}
use visible_agent_loop_proto.Store.Lines.{lines_of, ends_in_newline, has_return, ill_formed}

-- A text with its line end, before another text.
abbrev pub line_before : String → String → String
line_before s t = concat (concat s "\n") t

pub line_before_empty : (t : String) → line_before "" t ≡ String.◌∷◌ "\n" t
line_before_empty t = rw (nil-append "\n") (rw (cons-append "\n" "" t) (rw (nil-append t) refl))

pub line_before_char :
    (c : Char) (s t : String) → line_before (String.◌∷◌ c s) t ≡ String.◌∷◌ c (line_before s t)
line_before_char c s t = rw (cons-append c s "\n") (cons-append c (concat s "\n") t)

unfoldable pub begins_nothing : String → Bool
begins_nothing String.[] = true
begins_nothing (String.◌∷◌ c t) = false

pub false_when : (b : Bool) → (b ≡ true → false ≡ true) → b ≡ false
false_when true k = sym (k refl)
false_when false k = refl

-- A text with a character is not empty.
pub char_is_not_empty : (c : Char) (t : String) → (String.◌∷◌ c t == "") ≡ false
unfolding begins_nothing
char_is_not_empty c t =
    false_when (String.◌∷◌ c t == "") λ h. ap begins_nothing (eq_sound (String.◌∷◌ c t) "" h)

pub lines_of_line : (s t : String) → one_line s ≡ true → lines_of (line_before s t) ≡ s ∷ lines_of t
unfolding lines_of one_line
lines_of_line String.[] t h = rw (line_before_empty t) refl
lines_of_line (String.◌∷◌ c s) t h =
    rw (line_before_char c s t) (rw (lines_of_line s t (ground arith)) (ground arith))

-- The canonical text of a JSON value is one line of a file, the text that is dumped for the value.
pub lines_of-canonical_json : (value : Json) → lines_of (canonical_json value) ≡ dumps value ∷ []
unfolding canonical_json lines_of
lines_of-canonical_json value =
    ap lines_of (sym (append-nil (concat (dumps value) "\n")))
    ∙ lines_of_line (dumps value) "" (one_line-dumps value)

ends_in_newline_char :
    (c : Char) (t : String) → ends_in_newline t ≡ true → ends_in_newline (String.◌∷◌ c t) ≡ true
unfolding ends_in_newline
ends_in_newline_char c String.[] h = cc
ends_in_newline_char c (String.◌∷◌ d t) h = h

ends_unless : (b e : Bool) → b ≡ false → (b || e) ≡ true → e ≡ true
ends_unless b e h k = ground arith

pub ends_in_newline_line :
    (s t : String)
    → (t == "" || ends_in_newline t) ≡ true
    → ends_in_newline (line_before s t) ≡ true
unfolding ends_in_newline
ends_in_newline_line String.[] String.[] h = refl
ends_in_newline_line String.[] (String.◌∷◌ d t) h = rw (line_before_empty (String.◌∷◌ d t)) (
    ends_in_newline_char "\n" (String.◌∷◌ d t)
      (ends_unless (String.◌∷◌ d t == "") _ (char_is_not_empty d t) h))
ends_in_newline_line (String.◌∷◌ c s) t h =
    rw (line_before_char c s t)
      (ends_in_newline_char c (line_before s t) (ends_in_newline_line s t h))

pub has_return_line :
    (s t : String) → one_line s ≡ true → has_return t ≡ false → has_return (line_before s t) ≡ false
unfolding has_return one_line codes contains
has_return_line String.[] t h k = rw (line_before_empty t) k
has_return_line (String.◌∷◌ c s) t h k =
    rw (line_before_char c s t) (ground (arith, has_return_line s t))

-- A text on one line does not end in a line end.
pub ends_in_newline-one_line : (s : String) → one_line s ≡ true → ends_in_newline s ≡ false
unfolding one_line ends_in_newline
ends_in_newline-one_line String.[] h = refl
ends_in_newline-one_line (String.◌∷◌ c String.[]) h = ground arith
ends_in_newline-one_line (String.◌∷◌ c (String.◌∷◌ d s)) h =
    ends_in_newline-one_line (String.◌∷◌ d s) (ground arith)

abbrev pub line_of : ReplayEntry → String
line_of entry = dumps (replay_entry_canonical entry)

module _ ⦃sha : Sha256⦄ ⦃l : Loads⦄ where
  -- The lines of a journal that is written.
  lines_of-journal_text :
      (entries : List ReplayEntry) → lines_of (journal_text entries) ≡ map line_of entries
  unfolding journal_text canonical_json lines_of
  lines_of-journal_text [] = refl
  lines_of-journal_text (entry ∷ rest) =
      rw
        (lines_of_line (line_of entry) (journal_text rest)
          (one_line-dumps (replay_entry_canonical entry)))
        (rw (lines_of-journal_text rest) refl)

  has_return-journal_text : (entries : List ReplayEntry) → has_return (journal_text entries) ≡ false
  unfolding journal_text canonical_json has_return codes contains
  has_return-journal_text [] = refl
  has_return-journal_text (entry ∷ rest) =
      has_return_line (line_of entry) (journal_text rest)
        (one_line-dumps (replay_entry_canonical entry)) (has_return-journal_text rest)

  ends-journal_text :
      (entries : List ReplayEntry)
      → (journal_text entries == "" || ends_in_newline (journal_text entries)) ≡ true
  unfolding journal_text canonical_json
  ends-journal_text [] = refl
  ends-journal_text (entry ∷ rest) =
      ground
        (arith, ends_in_newline_line (line_of entry) (journal_text rest) (ends-journal_text rest))

  ill_formed-journal_text : (entries : List ReplayEntry) → ill_formed (journal_text entries) ≡ false
  ill_formed-journal_text entries =
      ground (arith, has_return-journal_text entries, ends-journal_text entries)

  -- An entry whose line is read as the entry.
  abbrev pub Legible : ReplayEntry → Type 0
  Legible entry = entry_of_line (line_of entry) ≡ returned entry

  entry_of_line-line_of :
      (line : String) (entry : ReplayEntry)
      → entry_of_line line ≡ returned entry
      → line ≡ line_of entry
  unfolding entry_of_line
  entry_of_line-line_of line entry h =
      let (nonempty, k) = raise_or (line == "") _ _ entry h in
      let (value, p, q) = bind-returned (parse line) _ entry k in
      let (e, d, m) = bind-returned (decode_replay_entry value) _ entry q in
      let (same, r) = raise_or (line != line_of e) _ _ entry m in
      ne_sound line (line_of e) same ∙ ap line_of (returned_inj e entry r)

  entries_of_lines-returned :
      (lines : List String) (entries : List ReplayEntry)
      → entries_of_lines lines ≡ returned entries
      → (lines ≡ map line_of entries) × All Legible entries
  unfolding entries_of_lines
  entries_of_lines-returned [] entries h = rw (sym (returned_inj [] entries h)) (refl, tt)
  entries_of_lines-returned (line ∷ rest) entries h =
      let (e, p, q) = bind-returned (entry_of_line line) _ entries h in
      let (es, p', q') = bind-returned (entries_of_lines rest) _ entries q in
      let (same, legible) = entries_of_lines-returned rest es p' in
      let first = entry_of_line-line_of line e p in
      rw (sym (returned_inj (e ∷ es) entries q')) (
        (
          ap (λ x. x ∷ rest) first ∙ ap (λ xs. line_of e ∷ xs) same,
          (ap entry_of_line (sym first) ∙ p, legible),
        ))

  entries_of_lines-line_of :
      (entries : List ReplayEntry)
      → All Legible entries
      → entries_of_lines (map line_of entries) ≡ returned entries
  unfolding entries_of_lines
  entries_of_lines-line_of [] l = refl
  entries_of_lines-line_of (entry ∷ rest) (k, l) = rw k (rw (entries_of_lines-line_of rest l) refl)

  -- The journal that is written from legible entries is read as these entries.
  pub journal_of-journal_text :
      (entries : List ReplayEntry)
      → All Legible entries
      → journal_of (journal_text entries) ≡ returned entries
  unfolding journal_of
  journal_of-journal_text entries l =
      rw (ill_formed-journal_text entries)
        (rw (lines_of-journal_text entries) (entries_of_lines-line_of entries l))

  -- What is read from a journal is legible.
  pub journal_of-returned :
      (payload : String) (entries : List ReplayEntry)
      → journal_of payload ≡ returned entries
      → All Legible entries
  unfolding journal_of
  journal_of-returned payload entries h =
      let (formed, k) = raise_or (ill_formed payload) _ _ entries h in
      (entries_of_lines-returned (lines_of payload) entries k).1
