-- ===== src/Store/Lines.antt =====
-- valp_cli/kernel_store.py: the lines of a file that must be canonical LF-terminated JSONL.
use Prim.Native.Char.{Char, code}
use visible_agent_loop_proto.Prelude.{
  ℕ, String, Bool, false, not, List, [], ◌∷◌, eqb, if◌then◌else◌, ◌||◌, ◌&&◌, ◌==◌, string_eq,
  contains, nat_eq,
}
use visible_agent_loop_proto.Kernel.Digests.{codes}

-- A character before the first of the parts.
abbrev pub onto_first : Char → List String → List String
onto_first c [] = String.◌∷◌ c String.[] ∷ []
onto_first c (part ∷ parts) = String.◌∷◌ c part ∷ parts

-- `text.split(separator)`
unfoldable pub split_on : ℕ → String → List String
split_on separator String.[] = "" ∷ []
split_on separator (String.◌∷◌ c rest) =
    let parts = split_on separator rest in
    if eqb (code c) separator then "" ∷ parts else onto_first c parts

-- The lines of a text without their ends: what follows the last end is no line when it is empty.
unfoldable pub lines_of : String → List String
lines_of String.[] = []
lines_of (String.◌∷◌ c rest) =
    let later = lines_of rest in if eqb (code c) 10 then "" ∷ later else onto_first c later

abbrev pub newline : ℕ
newline = 10

abbrev pub carriage_return : ℕ
carriage_return = 13

-- `payload.endswith(b"\n")`
unfoldable pub ends_in_newline : String → Bool
ends_in_newline String.[] = false
ends_in_newline (String.◌∷◌ c String.[]) = eqb (code c) newline
ends_in_newline (String.◌∷◌ c (String.◌∷◌ d rest)) = ends_in_newline (String.◌∷◌ d rest)

unfoldable pub has_return : String → Bool
unfolding codes
has_return text = contains (codes text) carriage_return

-- `payload.startswith(b"\xef\xbb\xbf")`: the byte order mark.
abbrev pub has_mark : String → Bool
has_mark String.[] = false
has_mark (String.◌∷◌ c rest) = eqb (code c) 65279

abbrev pub ill_formed : String → Bool
ill_formed payload = not (payload == "") && (not (ends_in_newline payload) || has_return payload)
