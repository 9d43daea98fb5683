-- ===== src/Store/Effects.antt =====
-- valp_cli/kernel_store.py: `record_effect`.
use Prim.Native.String.{◌++◌ as concat}
use visible_agent_loop_proto.Prelude.{
  pos, suc, String, Bool, false, not, Option, none, some, List, [], ◌∷◌, ◌++◌, ◌&&◌, ◌||◌, ◌==◌,
  ◌!=◌, string_eq, contains, if◌then◌else◌, find, length, get_last?, int_eq,
}
use visible_agent_loop_proto.Kernel.Digests.{Sha256, canonical_json, digest, is_digest}
use visible_agent_loop_proto.Store.Files.{
  File, Proof, Files, Loads, Environment, Attempted, gives, throws, refuses, ◌>>>◌, lifted, replace,
  Ended, operation, ledger_corrupt, store_state_conflict, store_idempotency_conflict,
  unknown_or_committed_outcome,
}
use visible_agent_loop_proto.Store.Recovery.{recovered}
use visible_agent_loop_proto.Store.EffectRecords.{
  KernelEffectStatus, effect_status_eq, KernelEffectRecord, effect_canonical,
  effect_canonical_without_digest, starts_with, safe_ref, empty_effect_ledger_digest, effect_id_of,
  load_effects,
}
use visible_agent_loop_proto.Store.Reconciliation.{proof_matches, accepted_obligations}

module _ ⦃sha : Sha256⦄ where
  -- The proof that `record_effect` reads before it takes the lock.
  abbrev pub candidate_proof : Proof → String → Attempted (Unit {0})
  candidate_proof Proof.escaping proof_digest = refuses store_state_conflict
  candidate_proof Proof.irregular proof_digest = refuses ledger_corrupt
  candidate_proof Proof.missing proof_digest = refuses store_state_conflict
  candidate_proof (Proof.holding payload) proof_digest =
      if proof_matches payload proof_digest then gives tt else refuses store_state_conflict

  abbrev pub proof_available : Option (String → Proof) → String → String → Attempted (Unit {0})
  proof_available none proof_ref proof_digest = gives tt
  proof_available (some proofs) proof_ref proof_digest =
      candidate_proof (proofs proof_ref) proof_digest

  abbrev pub prior_digest_of : Option KernelEffectRecord → String
  prior_digest_of none = empty_effect_ledger_digest
  prior_digest_of (some r) = r.record_digest

  -- The record that the call would add, with the digest of its body.
  unfoldable pub candidate_record :
      List KernelEffectRecord → String → KernelEffectStatus → String → String → KernelEffectRecord
  candidate_record records obligation status proof_ref proof_digest =
      let body : KernelEffectRecord = record {
        effect_id = effect_id_of obligation;
        obligation = obligation;
        status = status;
        proof_ref = proof_ref;
        proof_digest = proof_digest;
        ledger_revision = pos (suc (length records));
        prior_record_digest = prior_digest_of (get_last? records);
        record_digest = "";
      } in
      record body { record_digest = digest (effect_canonical_without_digest body) }

  -- The same effect has been recorded, with the same proof.
  abbrev pub same_effect : KernelEffectRecord → KernelEffectRecord → Bool
  same_effect prior candidate =
      prior.obligation == candidate.obligation
      && effect_status_eq prior.status candidate.status
      && prior.proof_ref == candidate.proof_ref
      && prior.proof_digest == candidate.proof_digest

  abbrev pub with_effect_id : String → List KernelEffectRecord → Option KernelEffectRecord
  with_effect_id effect_id records =
      find (λ (r : KernelEffectRecord). r.effect_id == effect_id) records

  unfoldable pub effects_text : List KernelEffectRecord → String
  effects_text [] = ""
  effects_text (r ∷ rest) = concat (canonical_json (effect_canonical r)) (effects_text rest)

module _ ⦃sha : Sha256⦄ ⦃l : Loads⦄ where
  -- `exact != candidate`
  abbrev pub is_exact : Option KernelEffectRecord → KernelEffectRecord → Bool
  is_exact none candidate = false
  is_exact (some r) candidate =
      r.effect_id == candidate.effect_id
      && same_effect r candidate
      && r.ledger_revision == candidate.ledger_revision
      && r.prior_record_digest == candidate.prior_record_digest
      && r.record_digest == candidate.record_digest

  -- A replacement whose outcome is unknown counts where the ledger, read again, has the record.
  abbrev pub confirmed :
      File → KernelEffectRecord → Attempted (Unit {0}) → Attempted KernelEffectRecord
  confirmed file candidate (gives u) = gives candidate
  confirmed file candidate (throws x) = throws x
  confirmed file candidate (refuses e) =
      if e.commit_outcome != unknown_or_committed_outcome
      then refuses e
      else load_effects file >>> λ again.
          if is_exact (with_effect_id candidate.effect_id again) candidate
          then gives candidate
          else refuses e

  abbrev pub effect_written :
      Environment
      → Files
      → List KernelEffectRecord
      → KernelEffectRecord
      → Option KernelEffectRecord
      → Ended KernelEffectRecord
  effect_written env files records candidate (some prior) = record {
    files = files;
    replaced = false;
    result =
        if same_effect prior candidate then gives prior else refuses store_idempotency_conflict;
  }
  effect_written env files records candidate none =
      let (file, replaced, result) =
        replace env.fault files.effects (effects_text (records ++ candidate ∷ [])) in
      record {
        files = record files { effects = file };
        replaced = replaced;
        result = confirmed file candidate result;
      }

  -- The recovery, its obligations and the ledger.
  unfoldable pub recordable : Files → String → Attempted (List KernelEffectRecord)
  recordable files obligation = recovered files >>> λ recovery.
      lifted (accepted_obligations recovery.entries) >>> λ obligations.
      if not (contains obligations obligation)
      then refuses store_state_conflict
      else load_effects files.effects

  abbrev pub effect_loaded :
      Environment
      → Files
      → String
      → KernelEffectStatus
      → String
      → String
      → Attempted (List KernelEffectRecord)
      → Ended KernelEffectRecord
  effect_loaded env files obligation status proof_ref proof_digest (gives records) =
      effect_written env files records
        (candidate_record records obligation status proof_ref proof_digest)
        (with_effect_id (effect_id_of obligation) records)
  effect_loaded env files obligation status proof_ref proof_digest (refuses e) = record {
    files = files;
    replaced = false;
    result = refuses e;
  }
  effect_loaded env files obligation status proof_ref proof_digest (throws x) = record {
    files = files;
    replaced = false;
    result = throws x;
  }

  unfoldable pub record_effect_body :
      Environment → String → KernelEffectStatus → String → String → Files → Ended KernelEffectRecord
  record_effect_body env obligation status proof_ref proof_digest files =
      effect_loaded env files obligation status proof_ref proof_digest (recordable files obligation)

  abbrev pub effect_guarded :
      Environment
      → Files
      → Attempted (Unit {0})
      → (Files → Ended KernelEffectRecord)
      → Ended KernelEffectRecord
  effect_guarded env files (gives u) body = operation env files body
  effect_guarded env files (refuses e) body = record {
    files = files;
    replaced = false;
    result = refuses e;
  }
  effect_guarded env files (throws x) body = record {
    files = files;
    replaced = false;
    result = throws x;
  }

  -- `record_effect(obligation, status, proof_ref, proof_digest)`
  unfoldable pub record_effect :
      Environment → Files → String → KernelEffectStatus → String → String → Ended KernelEffectRecord
  record_effect env files obligation status proof_ref proof_digest =
      if not (starts_with obligation "adapter_cancel:")
        || not (safe_ref proof_ref)
        || not (is_digest proof_digest)
      then record { files = files; replaced = false; result = refuses store_state_conflict }
      else effect_guarded env files (proof_available files.proofs proof_ref proof_digest)
          (record_effect_body env obligation status proof_ref proof_digest)
