-- ===== src/Store/EffectRecording.antt =====
-- valp_cli/kernel_store.py: what `record_effect` does to the files in every environment.
use visible_agent_loop_proto.Store.Locking.{operation_files}
use visible_agent_loop_proto.Prelude.{
  String, true, Option, none, some, List, ◌≡◌, inl, inr, refl, string_eq, if◌then◌else◌, Bool,
  false, arith, nat_eq, int_eq,
}
use visible_agent_loop_proto.Kernel.Digests.{Sha256, is_digest}
use visible_agent_loop_proto.Store.Files.{
  Files, Loads, Environment, Fault, no_fault, before_rename, after_rename, Attempted, gives, throws,
  refuses, Ended, operation, not_created, unlink_before_rename, unlink_after_rename,
}
use visible_agent_loop_proto.Store.EffectRecords.{
  KernelEffectStatus, KernelEffectRecord, effect_id_of, starts_with, safe_ref,
}
use visible_agent_loop_proto.Store.Effects.{
  candidate_record, with_effect_id, effect_written, recordable, effect_loaded, effect_guarded,
  record_effect, record_effect_body, proof_available,
}
use visible_agent_loop_proto.Store.EffectAdditions.{Recorded, rewritten-Adds}

module _ ⦃sha : Sha256⦄ ⦃l : Loads⦄ where
  written-Recorded :
      (fault : Fault) (env : Environment) (files : Files) (records : List KernelEffectRecord)
      (found : Option KernelEffectRecord) (obligation : String) (status : KernelEffectStatus)
      (proof_ref proof_digest : String)
      → starts_with obligation "adapter_cancel:" ≡ true
      → safe_ref proof_ref ≡ true
      → is_digest proof_digest ≡ true
      → recordable files obligation ≡ gives records
      → with_effect_id (effect_id_of obligation) records ≡ found
      → Recorded files obligation status proof_ref proof_digest
          (effect_written
            (record env { fault = fault })
            files
            records
            (candidate_record records obligation status proof_ref proof_digest)
            found).files
  written-Recorded fault env files records (some prior) obligation status proof_ref proof_digest s f
        d h n =
      inl refl
  written-Recorded not_created env files records none obligation status proof_ref proof_digest s f d
        h n =
      inl refl
  written-Recorded before_rename env files records none obligation status proof_ref proof_digest s f
        d h n =
      inl refl
  written-Recorded unlink_before_rename env files records none obligation status proof_ref
        proof_digest s f d h n =
      inl refl
  written-Recorded no_fault env files records none obligation status proof_ref proof_digest s f d h
        n =
      inr (rewritten-Adds files records obligation status proof_ref proof_digest s f d h n)
  written-Recorded after_rename env files records none obligation status proof_ref proof_digest s f
        d h n =
      inr (rewritten-Adds files records obligation status proof_ref proof_digest s f d h n)
  written-Recorded unlink_after_rename env files records none obligation status proof_ref
        proof_digest s f d h n =
      inr (rewritten-Adds files records obligation status proof_ref proof_digest s f d h n)

  loaded-Recorded :
      (env : Environment) (files : Files) (o : Attempted (List KernelEffectRecord))
      (obligation : String) (status : KernelEffectStatus) (proof_ref proof_digest : String)
      → starts_with obligation "adapter_cancel:" ≡ true
      → safe_ref proof_ref ≡ true
      → is_digest proof_digest ≡ true
      → recordable files obligation ≡ o
      → Recorded files obligation status proof_ref proof_digest
          (effect_loaded env files obligation status proof_ref proof_digest o).files
  loaded-Recorded env files (gives records) obligation status proof_ref proof_digest s f d h =
      written-Recorded env.fault env files records _ obligation status proof_ref proof_digest s f d
        h refl
  loaded-Recorded env files (refuses e) obligation status proof_ref proof_digest s f d h = inl refl
  loaded-Recorded env files (throws x) obligation status proof_ref proof_digest s f d h = inl refl

  operation-Recorded :
      (env : Environment) (files : Files) (obligation : String) (status : KernelEffectStatus)
      (proof_ref proof_digest : String)
      → starts_with obligation "adapter_cancel:" ≡ true
      → safe_ref proof_ref ≡ true
      → is_digest proof_digest ≡ true
      → Recorded files obligation status proof_ref proof_digest
          (operation env files
            (record_effect_body env obligation status proof_ref proof_digest)).files
  unfolding record_effect_body
  operation-Recorded env files obligation status proof_ref proof_digest s f d =
      elim (operation_files env files
        (record_effect_body env obligation status proof_ref proof_digest)) [
          | inl same ↦ inl same
          | inr run ↦ rw run (
              loaded-Recorded env files (recordable files obligation) obligation status proof_ref
                proof_digest s f d refl)
        ]

  guarded-Recorded :
      (env : Environment) (files : Files) (guard : Attempted (Unit {0})) (obligation : String)
      (status : KernelEffectStatus) (proof_ref proof_digest : String)
      → starts_with obligation "adapter_cancel:" ≡ true
      → safe_ref proof_ref ≡ true
      → is_digest proof_digest ≡ true
      → Recorded files obligation status proof_ref proof_digest
          (effect_guarded env files guard
            (record_effect_body env obligation status proof_ref proof_digest)).files
  guarded-Recorded env files (gives u) obligation status proof_ref proof_digest s f d =
      operation-Recorded env files obligation status proof_ref proof_digest s f d
  guarded-Recorded env files (refuses e) obligation status proof_ref proof_digest s f d = inl refl
  guarded-Recorded env files (throws x) obligation status proof_ref proof_digest s f d = inl refl

  either-Recorded :
      (b : Bool) (files : Files) (E F : Ended KernelEffectRecord) (obligation : String)
      (status : KernelEffectStatus) (proof_ref proof_digest : String)
      → E.files ≡ files
      → (b ≡ false → Recorded files obligation status proof_ref proof_digest F.files)
      → Recorded files obligation status proof_ref proof_digest (if b then E else F).files
  either-Recorded true files E F obligation status proof_ref proof_digest h k = inl h
  either-Recorded false files E F obligation status proof_ref proof_digest h k = k refl

  -- Whatever happens to the lock, the replacement and the release, `record_effect` leaves every file as it was, or it
  -- replaces the effect ledger alone, by its old text and then the line of one more record. Then the files are
  -- recovered and the obligation is one of the accepted obligations of that recovery; the ledger is loaded and
  -- holds no record of the effect; the new record has the obligation, the status, the reference and the
  -- digest of the call; and it passes the checks of the loading at the place after the loaded records, where the
  -- digest before it is the one of the last record, or of the empty ledger.
  pub record_effect-Recorded :
      (env : Environment) (files : Files) (obligation : String) (status : KernelEffectStatus)
      (proof_ref proof_digest : String)
      → Recorded files obligation status proof_ref proof_digest
          (record_effect env files obligation status proof_ref proof_digest).files
  unfolding record_effect
  record_effect-Recorded env files obligation status proof_ref proof_digest =
      either-Recorded _ files _ _ obligation status proof_ref proof_digest refl λ b.
        guarded-Recorded env files (proof_available files.proofs proof_ref proof_digest) obligation
          status proof_ref proof_digest (ground arith) (ground arith) (ground arith)
