-- ===== src/Store/LineTexts.antt =====
-- valp_cli/kernel_store.py: the text of a canonical file is the text of its lines.
use Prim.Native.Char.{Char, code}
use text.Mathlib.TextEquality.{Char-path}
use visible_agent_loop_proto.Prelude.{
  String, Bool, true, false, List, [], ◌∷◌, ◌≡◌, refl, sym, ap, ◌∙◌, eqb, eqb_iff, string_eq,
  if◌then◌else◌,
}
use visible_agent_loop_proto.Store.Lines.{onto_first, lines_of, ends_in_newline}
use visible_agent_loop_proto.Store.JournalText.{
  line_before, line_before_empty, line_before_char, begins_nothing,
}

-- The lines, each with its end.
unfoldable pub text_of_lines : List String → String
text_of_lines [] = ""
text_of_lines (line ∷ rest) = line_before line (text_of_lines rest)

is_feed : (c : Char) → eqb (code c) 10 ≡ true → "\n" ≡ c
is_feed c h = Char-path "\n" c (sym ((eqb_iff (code c) 10).0 h))

fed : (c : Char) (t : String) → eqb (code c) 10 ≡ true → line_before "" t ≡ String.◌∷◌ c t
fed c t h = line_before_empty t ∙ ap (λ d. String.◌∷◌ d t) (is_feed c h)

longer :
    (c d : Char) (t : String) (lines : List String)
    → text_of_lines lines ≡ String.◌∷◌ d t
    → text_of_lines (onto_first c lines) ≡ String.◌∷◌ c (String.◌∷◌ d t)
unfolding text_of_lines begins_nothing
longer c d t [] h = let b = ap begins_nothing h in cc
longer c d t (line ∷ rest) h =
    line_before_char c line (text_of_lines rest) ∙ ap (λ u. String.◌∷◌ c u) h

one_more :
    (b : Bool) (c d : Char) (t : String) (lines : List String)
    → eqb (code c) 10 ≡ b
    → text_of_lines lines ≡ String.◌∷◌ d t
    → text_of_lines (if b then "" ∷ lines else onto_first c lines) ≡ String.◌∷◌ c (String.◌∷◌ d t)
unfolding text_of_lines
one_more true c d t lines h k = ap (λ u. line_before "" u) k ∙ fed c (String.◌∷◌ d t) h
one_more false c d t lines h k = longer c d t lines k

last_line :
    (c : Char)
    → eqb (code c) 10 ≡ true
    → text_of_lines (lines_of (String.◌∷◌ c String.[])) ≡ String.◌∷◌ c String.[]
unfolding text_of_lines lines_of
last_line c h = rw h (fed c "" h)

pub text_of_lines-lines_of :
    (c : Char) (t : String)
    → ends_in_newline (String.◌∷◌ c t) ≡ true
    → text_of_lines (lines_of (String.◌∷◌ c t)) ≡ String.◌∷◌ c t
unfolding lines_of ends_in_newline
text_of_lines-lines_of c String.[] h = last_line c h
text_of_lines-lines_of c (String.◌∷◌ d t) h =
    one_more _ c d t (lines_of (String.◌∷◌ d t)) refl (text_of_lines-lines_of d t h)
