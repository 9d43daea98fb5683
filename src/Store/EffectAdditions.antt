-- ===== src/Store/EffectAdditions.antt =====
-- valp_cli/kernel_store.py: one more record at the end of the effect ledger.
use visible_agent_loop_proto.Store.LedgerText.{
  effects_text-append, load_effects-text, prior_digest_of-last, last_digest, text_in,
}
use visible_agent_loop_proto.Store.Reloading.{bind-gives, lifted-gives}
use visible_agent_loop_proto.Store.Reconciliation.{accepted_obligations}
use visible_agent_loop_proto.Store.Recovery.{KernelRecovery, recovered}
use visible_agent_loop_proto.Kernel.Outcomes.{returned}
use Prim.Native.String.{◌++◌ as concat}
use visible_agent_loop_proto.Prelude.{
  String, true, none, List, [], ◌∷◌, ◌++◌, ◌≡◌, ◌⊎◌, refl, string_eq, if◌then◌else◌, Bool, false,
  not, suc, pos, length, contains, sym, ap, ◌∙◌, eq_refl, arith, nat_eq, int_eq,
}
use visible_agent_loop_proto.Kernel.Digests.{Sha256, is_digest, canonical_json}
use visible_agent_loop_proto.Store.Files.{
  File, Files, Loads, Attempted, gives, refuses, StoreError, store_state_conflict, lifted,
}
use visible_agent_loop_proto.Store.EffectRecords.{
  KernelEffectStatus, KernelEffectRecord, effect_id_of, bindings_are_valid, starts_with,
  effect_canonical_without_digest, safe_ref, effect_canonical, empty_effect_ledger_digest,
  load_effects,
}
use visible_agent_loop_proto.Store.Effects.{
  candidate_record, with_effect_id, effects_text, recordable,
}

module _ ⦃sha : Sha256⦄ where
  -- A record is about an effect: its obligation, its status and its proof.
  abbrev pub IsAbout : KernelEffectRecord → String → KernelEffectStatus → String → String → Type 0
  IsAbout r obligation status proof_ref proof_digest =
      (r.obligation ≡ obligation)
      × (r.status ≡ status)
      × (r.proof_ref ≡ proof_ref)
      × (r.proof_digest ≡ proof_digest)

  pub candidate_record-IsAbout :
      (records : List KernelEffectRecord) (obligation : String) (status : KernelEffectStatus)
      (proof_ref proof_digest : String)
      → IsAbout
          (candidate_record records obligation status proof_ref proof_digest)
          obligation
          status
          proof_ref
          proof_digest
  unfolding candidate_record
  candidate_record-IsAbout records obligation status proof_ref proof_digest =
      (refl, refl, refl, refl)

  -- The new record passes the checks of the loading at the end of the ledger.
  candidate_record-bindings_are_valid :
      (records : List KernelEffectRecord) (obligation : String) (status : KernelEffectStatus)
      (proof_ref proof_digest : String)
      → starts_with obligation "adapter_cancel:" ≡ true
      → safe_ref proof_ref ≡ true
      → is_digest proof_digest ≡ true
      → bindings_are_valid
          (suc (length records))
          (last_digest empty_effect_ledger_digest records)
          (candidate_record records obligation status proof_ref proof_digest)
        ≡ true
  unfolding candidate_record bindings_are_valid effect_canonical_without_digest
  candidate_record-bindings_are_valid records obligation status proof_ref proof_digest s f d =
      let candidate = candidate_record records obligation status proof_ref proof_digest in
      rw (sym (prior_digest_of-last records)) (
        ground (
          arith,
          eq_refl (effect_id_of obligation),
          eq_refl (pos (suc (length records))),
          eq_refl candidate.prior_record_digest,
          eq_refl candidate.record_digest,
        ))

module _ ⦃sha : Sha256⦄ ⦃l : Loads⦄ where
  -- An accepted effect has one more record at the end of the ledger, which is kept as it was.
  pub record Adds (files : Files) (obligation : String) (status : KernelEffectStatus)
      (proof_ref proof_digest : String) (later : Files) : Type 0 where
    pub recovery : KernelRecovery
    pub recovers : recovered files ≡ gives recovery
    pub obligations : List String
    pub are_accepted : accepted_obligations recovery.entries ≡ returned obligations
    pub is_owed : contains obligations obligation ≡ true
    pub records : List KernelEffectRecord
    pub are_loaded : load_effects files.effects ≡ gives records
    pub is_new : with_effect_id (effect_id_of obligation) records ≡ none
    pub added : KernelEffectRecord
    pub is_about : IsAbout added obligation status proof_ref proof_digest
    pub extends_chain :
        bindings_are_valid
          (suc (length records))
          (last_digest empty_effect_ledger_digest records)
          added
        ≡ true
    pub writes : later ≡ record files {
      effects =
          File.holding (concat (text_in files.effects) (canonical_json (effect_canonical added)));
    }

  -- The files are as before, or the ledger alone has one more record.
  abbrev pub Recorded : Files → String → KernelEffectStatus → String → String → Files → Type 0
  Recorded files obligation status proof_ref proof_digest later =
      (later ≡ files) ⊎ Adds files obligation status proof_ref proof_digest later

  refused_unless :
      {A : Type 0} (b : Bool) (e : StoreError) (rest : Attempted A) (a : A)
      → (if not b then refuses e else rest) ≡ gives a
      → (b ≡ true) × (rest ≡ gives a)
  refused_unless false e rest a h = cc
  refused_unless true e rest a h = (refl, h)

  pub recordable-loads :
      (files : Files) (obligation : String) (records : List KernelEffectRecord)
      → recordable files obligation ≡ gives records
      → load_effects files.effects ≡ gives records
  unfolding recordable
  recordable-loads files obligation records h =
      let (recovery, p, q) = bind-gives (recovered files) _ records h in
      let (obligations, p', q') =
        bind-gives (lifted (accepted_obligations recovery.entries)) _ records q in
      (refused_unless (contains obligations obligation) store_state_conflict _ records q').1

  -- The text of the ledger with one more record is the old text and then the line of the record.
  pub text_with :
      (files : Files) (obligation : String) (records : List KernelEffectRecord)
      (added : KernelEffectRecord)
      → recordable files obligation ≡ gives records
      → effects_text (records ++ added ∷ [])
        ≡ concat (text_in files.effects) (canonical_json (effect_canonical added))
  text_with files obligation records added h =
      effects_text-append records added
      ∙ ap (λ t. concat t (canonical_json (effect_canonical added)))
          (load_effects-text files.effects records (recordable-loads files obligation records h))

  pub rewritten-Adds :
      (files : Files) (records : List KernelEffectRecord) (obligation : String)
      (status : KernelEffectStatus) (proof_ref proof_digest : String)
      → starts_with obligation "adapter_cancel:" ≡ true
      → safe_ref proof_ref ≡ true
      → is_digest proof_digest ≡ true
      → recordable files obligation ≡ gives records
      → with_effect_id (effect_id_of obligation) records ≡ none
      → Adds files obligation status proof_ref proof_digest (record files {
        effects = File.holding (
            effects_text
              (records ++ candidate_record records obligation status proof_ref proof_digest ∷ []));
      })
  unfolding recordable
  rewritten-Adds files records obligation status proof_ref proof_digest s f d h n =
      let candidate = candidate_record records obligation status proof_ref proof_digest in
      let (recovery, p, q) = bind-gives (recovered files) _ records h in
      let (obligations, p', q') =
        bind-gives (lifted (accepted_obligations recovery.entries)) _ records q in
      let (owed, loaded) =
        refused_unless (contains obligations obligation) store_state_conflict _ records q' in
      record {
        recovery = recovery;
        recovers = p;
        obligations = obligations;
        are_accepted = lifted-gives _ obligations p';
        is_owed = owed;
        records = records;
        are_loaded = loaded;
        is_new = n;
        added = candidate;
        is_about = candidate_record-IsAbout records obligation status proof_ref proof_digest;
        extends_chain =
            candidate_record-bindings_are_valid records obligation status proof_ref proof_digest s f
              d;
        writes =
            ap (λ t. record files { effects = File.holding t })
              (text_with files obligation records candidate h);
      }
