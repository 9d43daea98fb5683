-- ===== src/Store/EffectRecords.antt =====
-- valp_cli/kernel_store.py: the records of the effect ledger, and the loading of the ledger.
use Prim.Native.Char.{code}
use visible_agent_loop_proto.Prelude.{
  ℕ, ℤ, pos, suc, String, Bool, true, false, not, Option, none, some, List, [], ◌∷◌, ◌++◌, map,
  ◌&&◌, ◌||◌, ◌==◌, ◌!=◌, string_eq, any, contains, is_distinct, eqb, if◌then◌else◌, nat_eq, int_eq,
}
use visible_agent_loop_proto.Json.{Json, str, int, items, fields, dumps}
use visible_agent_loop_proto.Kernel.Digests.{Sha256, digest, is_digest, codes}
use visible_agent_loop_proto.Kernel.Outcomes.{Outcome, returned, raised, value_error, ◌>>=◌}
use visible_agent_loop_proto.Store.Shapes.{shape, at, versioned, text_of, integer_of, word_of}
use visible_agent_loop_proto.Store.Lines.{lines_of, split_on, has_mark, ill_formed}
use visible_agent_loop_proto.Store.Files.{File, Loads, Attempted, gives, lifted, ensure_regular}
use visible_agent_loop_proto.Store.Recovery.{parse}

-- `KernelEffectStatus`
pub data KernelEffectStatus : Type 0 where
  fulfilled blocked : KernelEffectStatus

unfoldable pub effect_status_value : KernelEffectStatus → String
effect_status_value fulfilled = "fulfilled"
effect_status_value blocked = "blocked"

unfoldable pub effect_status_of : String → Option KernelEffectStatus
effect_status_of value =
    if value == "fulfilled"
    then some fulfilled
    else if value == "blocked"
    then some blocked
    else none

abbrev pub effect_status_eq : KernelEffectStatus → KernelEffectStatus → Bool
effect_status_eq fulfilled fulfilled = true
effect_status_eq blocked blocked = true
effect_status_eq _ _ = false

-- `KernelEffectRecord`
pub record KernelEffectRecord : Type 0 where
  pub effect_id : String
  pub obligation : String
  pub status : KernelEffectStatus
  pub proof_ref : String
  pub proof_digest : String
  pub ledger_revision : ℤ
  pub prior_record_digest : String
  pub record_digest : String

abbrev pub fields_without_digest : KernelEffectRecord → List (String × Json)
fields_without_digest r =
    ("schema_version", str "valp-kernel-effect-record.v1")
    ∷ ("effect_id", str r.effect_id)
    ∷ ("obligation", str r.obligation)
    ∷ ("status", str (effect_status_value r.status))
    ∷ ("proof_ref", str r.proof_ref)
    ∷ ("proof_digest", str r.proof_digest)
    ∷ ("ledger_revision", int r.ledger_revision)
    ∷ ("prior_record_digest", str r.prior_record_digest)
    ∷ []

-- `canonical_without_digest()` and `canonical()`
unfoldable pub effect_canonical_without_digest : KernelEffectRecord → Json
effect_canonical_without_digest r = fields (fields_without_digest r)

unfoldable pub effect_canonical : KernelEffectRecord → Json
effect_canonical r = fields (fields_without_digest r ++ ("record_digest", str r.record_digest) ∷ [])

-- `text.startswith(prefix)`
unfoldable pub starts_with : String → String → Bool
starts_with text String.[] = true
starts_with String.[] (String.◌∷◌ c prefix) = false
starts_with (String.◌∷◌ d text) (String.◌∷◌ c prefix) =
    eqb (code d) (code c) && starts_with text prefix

abbrev pub slash : ℕ
slash = 47

abbrev pub backslash : ℕ
backslash = 92

-- `_safe_ref` on POSIX: `Path` drops the empty parts and the parts `.`.
unfoldable pub safe_ref : String → Bool
unfolding codes
safe_ref value =
    not (value == "" || contains (codes value) backslash)
    && not (starts_with value "/")
    && not (any (λ part. part == "..") (split_on slash value))

module _ ⦃sha : Sha256⦄ where
  unfoldable pub empty_effect_ledger_digest : String
  empty_effect_ledger_digest =
      digest (
        fields
          (("schema_version", str "valp-kernel-effect-ledger.v1") ∷ ("records", items []) ∷ []))

  -- `_effect_id(obligation)`
  unfoldable pub effect_id_of : String → String
  effect_id_of obligation = digest (
      fields (
        ("schema_version", str "valp-kernel-effect-identity.v1")
        ∷ ("obligation", str obligation)
        ∷ []))

  -- The shape of a line of the ledger.
  unfoldable pub effect_record_from : Json → Outcome KernelEffectRecord
  effect_record_from value =
      shape value
        ("schema_version" ∷ "effect_id" ∷ "obligation" ∷ "status" ∷ "proof_ref" ∷ "proof_digest"
          ∷ "ledger_revision" ∷ "prior_record_digest" ∷ "record_digest" ∷ [])
        []
      >>= λ fs. versioned "valp-kernel-effect-record.v1" fs (
          at "effect_id" fs text_of >>= λ effect_id. at "obligation" fs text_of >>= λ obligation.
          at "status" fs (word_of effect_status_of) >>= λ status.
          at "proof_ref" fs text_of >>= λ proof_ref.
          at "proof_digest" fs text_of >>= λ proof_digest.
          at "ledger_revision" fs integer_of >>= λ ledger_revision.
          at "prior_record_digest" fs text_of >>= λ prior_record_digest.
          at "record_digest" fs text_of >>= λ record_digest. returned (record {
            effect_id = effect_id;
            obligation = obligation;
            status = status;
            proof_ref = proof_ref;
            proof_digest = proof_digest;
            ledger_revision = ledger_revision;
            prior_record_digest = prior_record_digest;
            record_digest = record_digest;
          }))

  -- The bindings of a record at its place in the ledger.
  unfoldable pub bindings_are_valid : ℕ → String → KernelEffectRecord → Bool
  bindings_are_valid revision prior_digest r =
      starts_with r.obligation "adapter_cancel:"
      && (r.effect_id == effect_id_of r.obligation)
      && safe_ref r.proof_ref
      && is_digest r.proof_digest
      && (r.ledger_revision == pos revision)
      && (r.prior_record_digest == prior_digest)
      && (r.record_digest == digest (effect_canonical_without_digest r))

module _ ⦃sha : Sha256⦄ ⦃l : Loads⦄ where
  unfoldable pub effect_of_line : ℕ → String → String → Outcome KernelEffectRecord
  effect_of_line revision prior_digest line =
      if line == ""
      then raised (value_error "Kernel effect ledger contains a blank line")
      else parse line >>= λ value. effect_record_from value >>= λ r.
          if not (bindings_are_valid revision prior_digest r)
            || (line != dumps (effect_canonical r))
          then raised (value_error "Kernel effect record bindings are invalid")
          else returned r

  -- The loop over the lines, with the revision and the digest of the record before.
  unfoldable pub effects_of_lines : ℕ → String → List String → Outcome (List KernelEffectRecord)
  effects_of_lines revision prior_digest [] = returned []
  effects_of_lines revision prior_digest (line ∷ rest) =
      effect_of_line revision prior_digest line >>= λ r.
      effects_of_lines (suc revision) r.record_digest rest >>= λ later. returned (r ∷ later)

  abbrev pub distinct_effects : List KernelEffectRecord → Outcome (List KernelEffectRecord)
  distinct_effects records =
      if not (is_distinct (map (λ (r : KernelEffectRecord). r.effect_id) records))
      then raised (value_error "Kernel effect identity is duplicated")
      else returned records

  unfoldable pub ledger_of : String → Outcome (List KernelEffectRecord)
  ledger_of payload =
      if ill_formed payload || has_mark payload
      then raised (value_error "Kernel effect ledger is not canonical LF-terminated JSONL")
      else effects_of_lines 1 empty_effect_ledger_digest (lines_of payload) >>= distinct_effects

  -- `_load_effects`
  unfoldable pub load_effects : File → Attempted (List KernelEffectRecord)
  load_effects file = ensure_regular file (elim file [
    | File.absent ↦ gives []
    | File.irregular ↦ gives []
    | File.holding payload ↦ lifted (ledger_of payload)
  ])
