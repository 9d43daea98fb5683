-- ===== src/Store/LedgerText.antt =====
-- valp_cli/kernel_store.py: the effect ledger that is loaded, as a text and as a chain of records.
use visible_agent_loop_proto.Store.JournalText.{char_is_not_empty}
use Prim.Native.String.{◌++◌ as concat}
use text.Mathlib.TextLemmas.{nil-append, append-nil, append_assoc}
use visible_agent_loop_proto.Prelude.{
  ℕ, suc, String, false, not, List, [], ◌∷◌, ◌++◌, ◌≡◌, refl, sym, ap, ◌∙◌, map, get_last?, ◌==◌,
  ◌!=◌, ◌||◌, string_eq, ne_sound, arith, is_distinct,
}
use visible_agent_loop_proto.Json.{dumps}
use visible_agent_loop_proto.Kernel.Digests.{Sha256, canonical_json}
use visible_agent_loop_proto.Kernel.Outcomes.{returned, bind-returned, returned_inj, raise_or}
use visible_agent_loop_proto.Store.Lines.{lines_of, ill_formed, has_mark}
use visible_agent_loop_proto.Store.Files.{File, Loads, gives}
use visible_agent_loop_proto.Store.Recovery.{parse}
use visible_agent_loop_proto.Store.Reloading.{gives_inj, lifted-gives}
use visible_agent_loop_proto.Store.LineTexts.{text_of_lines, text_of_lines-lines_of}
use visible_agent_loop_proto.Store.EffectRecords.{
  KernelEffectRecord, effect_canonical, effect_record_from, bindings_are_valid, effect_of_line,
  effects_of_lines, distinct_effects, ledger_of, load_effects, empty_effect_ledger_digest,
}
use visible_agent_loop_proto.Store.Effects.{effects_text, prior_digest_of}

abbrev pub effect_line : KernelEffectRecord → String
effect_line r = dumps (effect_canonical r)

-- The text of a file, which is empty where there is none.
abbrev pub text_in : File → String
text_in File.absent = ""
text_in File.irregular = ""
text_in (File.holding payload) = payload

-- The digest after the records, from the one before them.
unfoldable pub last_digest : String → List KernelEffectRecord → String
last_digest prior [] = prior
last_digest prior (r ∷ rest) = last_digest r.record_digest rest

well_ended : (text : String) → ill_formed text ≡ false → text_of_lines (lines_of text) ≡ text
unfolding text_of_lines lines_of
well_ended String.[] h = refl
well_ended (String.◌∷◌ c t) h = text_of_lines-lines_of c t (ground (arith, char_is_not_empty c t))

module _ ⦃sha : Sha256⦄ where
  effects_text-map :
      (records : List KernelEffectRecord)
      → text_of_lines (map effect_line records) ≡ effects_text records
  unfolding effects_text text_of_lines canonical_json
  effects_text-map [] = refl
  effects_text-map (r ∷ rest) =
      ap (λ t. concat (canonical_json (effect_canonical r)) t) (effects_text-map rest)

  pub effects_text-append :
      (records : List KernelEffectRecord) (r : KernelEffectRecord)
      → effects_text (records ++ r ∷ [])
        ≡ concat (effects_text records) (canonical_json (effect_canonical r))
  unfolding effects_text
  effects_text-append [] r =
      append-nil (canonical_json (effect_canonical r))
      ∙ sym (nil-append (canonical_json (effect_canonical r)))
  effects_text-append (x ∷ rest) r =
      ap (λ t. concat (canonical_json (effect_canonical x)) t) (effects_text-append rest r)
      ∙ sym (
          append_assoc (canonical_json (effect_canonical x)) (effects_text rest)
            (canonical_json (effect_canonical r)))

  last_after :
      (prior : String) (x : KernelEffectRecord) (rest : List KernelEffectRecord)
      → prior_digest_of (get_last? (x ∷ rest)) ≡ last_digest x.record_digest rest
  unfolding last_digest
  last_after prior x [] = refl
  last_after prior x (y ∷ rest) = last_after prior y rest

  pub prior_digest_of-last :
      (records : List KernelEffectRecord)
      → prior_digest_of (get_last? records) ≡ last_digest empty_effect_ledger_digest records
  unfolding last_digest
  prior_digest_of-last [] = refl
  prior_digest_of-last (x ∷ rest) = last_after x.record_digest x rest

module _ ⦃sha : Sha256⦄ ⦃l : Loads⦄ where
  effect_of_line-returned :
      (revision : ℕ) (prior line : String) (r : KernelEffectRecord)
      → effect_of_line revision prior line ≡ returned r
      → line ≡ effect_line r
  unfolding effect_of_line
  effect_of_line-returned revision prior line r h =
      let (filled, k) = raise_or (line == "") _ _ r h in
      let (value, p, q) = bind-returned (parse line) _ r k in
      let (e, d, m) = bind-returned (effect_record_from value) _ r q in
      let (same, found) =
        raise_or (not (bindings_are_valid revision prior e) || line != effect_line e) _ _ r m in
      ne_sound line (effect_line e) (ground arith) ∙ ap effect_line (returned_inj e r found)

  effects_of_lines-map :
      (revision : ℕ) (prior : String) (lines : List String) (records : List KernelEffectRecord)
      → effects_of_lines revision prior lines ≡ returned records
      → lines ≡ map effect_line records
  unfolding effects_of_lines
  effects_of_lines-map revision prior [] records h =
      ap (map effect_line) (returned_inj [] records h)
  effects_of_lines-map revision prior (line ∷ rest) records h =
      let (r, p, q) = bind-returned (effect_of_line revision prior line) _ records h in
      let (later, p', q') =
        bind-returned (effects_of_lines (suc revision) r.record_digest rest) _ records q in
      ap (λ x. x ∷ rest) (effect_of_line-returned revision prior line r p)
      ∙ ap (λ xs. effect_line r ∷ xs)
          (effects_of_lines-map (suc revision) r.record_digest rest later p')
      ∙ ap (map effect_line) (returned_inj (r ∷ later) records q')

  distinct_effects-returned :
      (records found : List KernelEffectRecord)
      → distinct_effects records ≡ returned found
      → records ≡ found
  distinct_effects-returned records found h =
      let (distinct, k) =
        raise_or (not (is_distinct (map (λ (r : KernelEffectRecord). r.effect_id) records))) _ _
          found h in
      returned_inj records found k

  ledger_of-text :
      (payload : String) (records : List KernelEffectRecord)
      → ledger_of payload ≡ returned records
      → effects_text records ≡ payload
  unfolding ledger_of
  ledger_of-text payload records h =
      let (formed, k) = raise_or (ill_formed payload || has_mark payload) _ _ records h in
      let (found, p, q) =
        bind-returned (effects_of_lines 1 empty_effect_ledger_digest (lines_of payload)) _ records
          k in
      let same = distinct_effects-returned found records q in
      sym (effects_text-map records)
      ∙ ap (λ xs. text_of_lines (map effect_line xs)) (sym same)
      ∙ ap text_of_lines
          (sym (effects_of_lines-map 1 empty_effect_ledger_digest (lines_of payload) found p))
      ∙ well_ended payload (ground arith)

  -- The records that are loaded are written as the text that they were loaded from.
  pub load_effects-text :
      (file : File) (records : List KernelEffectRecord)
      → load_effects file ≡ gives records
      → effects_text records ≡ text_in file
  unfolding load_effects effects_text
  load_effects-text File.absent records h = ap effects_text (sym (gives_inj [] records h))
  load_effects-text File.irregular records h = cc
  load_effects-text (File.holding payload) records h =
      ledger_of-text payload records (lifted-gives (ledger_of payload) records h)
