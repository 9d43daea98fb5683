-- ===== src/Kernel/Digests.antt =====
-- valp_cli/protocol_kernel.py: `_canonical_json`, `_digest`, `_is_digest`, `_canonical_evidence` and
-- `_input_digest`. SHA-256 is `hashlib`'s: an instance argument here, with the form of the
-- text that `hexdigest` is documented to return and no other assumption.
use Prim.Native.Char.{code}
use Prim.Native.String.{◌++◌ as concat}
use visible_agent_loop_proto.Prelude.{
  ℕ, String, Bool, true, ◌≡◌, List, [], ◌∷◌, map, ◌&&◌, length, take, drop, all, contains, ◌==◌,
  nat_eq, list_eq,
}
use visible_agent_loop_proto.Json.{Json, str, items, fields, dumps, sorted}
use visible_agent_loop_proto.Kernel.Identities.{Evidence, evidence_canonical}
use visible_agent_loop_proto.Kernel.States.{State}
use visible_agent_loop_proto.Kernel.Events.{Event, event_canonical}

-- The code points of a text.
unfoldable pub codes : String → List ℕ
codes String.[] = []
codes (String.◌∷◌ c s) = code c ∷ codes s

abbrev pub hex_digits : List ℕ
unfolding codes
hex_digits = codes "0123456789abcdef"

-- 64 lower-case hexadecimal digits.
unfoldable pub is_hexdigest : String → Bool
unfolding codes
is_hexdigest t = length (codes t) == 64 && all (contains hex_digits) (codes t)

-- `hashlib.sha256(text.encode("utf-8")).hexdigest()`
pub record Sha256 : Type 0 where
  pub hexdigest : String → String
  pub hexdigest-is_hexdigest : (t : String) → is_hexdigest (hexdigest t) ≡ true

-- `len(value) == 71`, the prefix, and the digits of `value[7:]`.
unfoldable pub is_digest : String → Bool
unfolding codes
is_digest value =
    length (codes value) == 71
    && take 7 (codes value) == codes "sha256:"
    && all (contains hex_digits) (drop 7 (codes value))

unfoldable pub canonical_json : Json → String
canonical_json value = concat (dumps value) "\n"

-- `sorted(values, key=_canonical_json)` of the evidence.
unfoldable pub canonical_evidence : List Evidence → List Json
canonical_evidence evidence_set = sorted canonical_json (map evidence_canonical evidence_set)

module _ ⦃sha : Sha256⦄ where
  unfoldable pub digest : Json → String
  digest value = concat "sha256:" (sha.hexdigest (canonical_json value))

  unfoldable pub input_digest : State → Event → List Evidence → String
  input_digest state event evidence_set = digest (
      fields (
        ("protocol_version", str state.protocol_version)
        ∷ ("event", event_canonical event)
        ∷ ("evidence_set", items (canonical_evidence evidence_set))
        ∷ []))
