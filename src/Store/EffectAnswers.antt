-- ===== src/Store/EffectAnswers.antt =====
-- valp_cli/kernel_store.py: the record that `record_effect` gives.
use visible_agent_loop_proto.Store.LedgerText.{text_in}
use Prim.Native.String.{◌++◌ as concat}
use visible_agent_loop_proto.Store.EffectAdditions.{
  IsAbout, candidate_record-IsAbout, recordable-loads, text_with,
}
use visible_agent_loop_proto.Store.Locking.{operation-Performed}
use visible_agent_loop_proto.Prelude.{
  String, true, Option, none, some, List, [], ◌∷◌, ◌++◌, ◌≡◌, refl, sym, string_eq, eq_sound,
  if◌then◌else◌, arith, ◌!=◌, Bool, false, ◌⊎◌, inl, inr, ap, ◌∙◌,
}
use visible_agent_loop_proto.Kernel.Digests.{Sha256, is_digest, canonical_json}
use visible_agent_loop_proto.Store.Files.{
  File, Files, Loads, Environment, Attempted, gives, throws, refuses, StoreError, Ended,
  unknown_or_committed_outcome, operation, store_state_conflict, Fault, no_fault, not_created,
  before_rename, after_rename, unlink_before_rename, unlink_after_rename, durability_unknown,
  store_idempotency_conflict,
}
use visible_agent_loop_proto.Store.EffectRecords.{
  KernelEffectStatus, KernelEffectRecord, load_effects, safe_ref, starts_with, effect_id_of,
  effect_canonical,
}
use visible_agent_loop_proto.Store.Effects.{
  candidate_record, with_effect_id, effects_text, effect_written, recordable, effect_loaded,
  same_effect, confirmed, is_exact, effect_guarded, record_effect, record_effect_body,
  proof_available,
}
use visible_agent_loop_proto.Store.Reloading.{bind-gives, gives_inj}
use visible_agent_loop_proto.Store.EffectProofs.{Proven, proof_available-Proven}
use visible_agent_loop_proto.Store.EffectParts.{status_sound}

module _ ⦃sha : Sha256⦄ where
  same_effect-IsAbout :
      (r c : KernelEffectRecord)
      → same_effect r c ≡ true
      → IsAbout r c.obligation c.status c.proof_ref c.proof_digest
  same_effect-IsAbout r c h = (
    eq_sound r.obligation c.obligation (ground arith),
    status_sound r.status c.status (ground arith),
    eq_sound r.proof_ref c.proof_ref (ground arith),
    eq_sound r.proof_digest c.proof_digest (ground arith),
  )

module _ ⦃sha : Sha256⦄ ⦃l : Loads⦄ where
  refuse_or :
      (b : Bool) (e : StoreError) (rest : Attempted KernelEffectRecord) (r : KernelEffectRecord)
      → (if b then refuses e else rest) ≡ gives r
      → (b ≡ false) × (rest ≡ gives r)
  refuse_or true e rest r h = cc
  refuse_or false e rest r h = (refl, h)

  given_where :
      (b : Bool) (c : KernelEffectRecord) (e : StoreError) (r : KernelEffectRecord)
      → (if b then gives c else refuses e) ≡ gives r
      → (b ≡ true) × (c ≡ r)
  given_where true c e r h = (refl, gives_inj c r h)
  given_where false c e r h = cc

  confirmed-gives :
      (file : File) (candidate : KernelEffectRecord) (a : Attempted (Unit {0}))
      (r : KernelEffectRecord)
      → confirmed file candidate a ≡ gives r
      → candidate ≡ r
  confirmed-gives file candidate (gives u) r h = gives_inj candidate r h
  confirmed-gives file candidate (throws x) r h = cc
  confirmed-gives file candidate (refuses e) r h =
      let (known, k) = refuse_or (e.commit_outcome != unknown_or_committed_outcome) e _ r h in
      let (again, p, q) = bind-gives (load_effects file) _ r k in
      (given_where (is_exact (with_effect_id candidate.effect_id again) candidate) candidate e r
        q).1

  -- The record stood in the loaded ledger, which is as it was, or it is the new last line of the ledger.
  abbrev pub Stays : Files → String → KernelEffectRecord → Files → Type 0
  Stays files obligation r later =
      (records : List KernelEffectRecord) × (load_effects files.effects ≡ gives records)
      × (((with_effect_id (effect_id_of obligation) records ≡ some r) × (later ≡ files))
          ⊎ ((with_effect_id (effect_id_of obligation) records ≡ none)
              × (later ≡ record files {
                effects =
                    File.holding
                      (concat (text_in files.effects) (canonical_json (effect_canonical r)));
              })))

  -- The record is about the effect, and it stays in the ledger.
  abbrev pub Answers :
      Files → String → KernelEffectStatus → String → String → KernelEffectRecord → Files → Type 0
  Answers files obligation status proof_ref proof_digest r later =
      IsAbout r obligation status proof_ref proof_digest × Stays files obligation r later

  found-Answers :
      (files : Files) (records : List KernelEffectRecord) (prior : KernelEffectRecord)
      (obligation : String) (status : KernelEffectStatus) (proof_ref proof_digest : String)
      (r : KernelEffectRecord)
      → recordable files obligation ≡ gives records
      → with_effect_id (effect_id_of obligation) records ≡ some prior
      → (if same_effect prior (candidate_record records obligation status proof_ref proof_digest)
          then gives prior
          else refuses store_idempotency_conflict)
        ≡ gives r
      → Answers files obligation status proof_ref proof_digest r files
  unfolding candidate_record
  found-Answers files records prior obligation status proof_ref proof_digest r l n h =
      let candidate = candidate_record records obligation status proof_ref proof_digest in
      let (same, k) = given_where (same_effect prior candidate) prior _ r h in
      (
        rw (sym k) (same_effect-IsAbout prior candidate same),
        (records, recordable-loads files obligation records l, inl (n ∙ ap (λ x. some x) k, refl)),
      )

  new-Answers :
      (files : Files) (records : List KernelEffectRecord) (obligation : String)
      (status : KernelEffectStatus) (proof_ref proof_digest : String) (r : KernelEffectRecord)
      → recordable files obligation ≡ gives records
      → with_effect_id (effect_id_of obligation) records ≡ none
      → candidate_record records obligation status proof_ref proof_digest ≡ r
      → Answers files obligation status proof_ref proof_digest r (record files {
        effects = File.holding (
            effects_text
              (records ++ candidate_record records obligation status proof_ref proof_digest ∷ []));
      })
  new-Answers files records obligation status proof_ref proof_digest r l n k =
      let candidate = candidate_record records obligation status proof_ref proof_digest in
      rw (sym k) (
        candidate_record-IsAbout records obligation status proof_ref proof_digest,
        (
          records,
          recordable-loads files obligation records l,
          inr (
            n,
            ap (λ t. record files { effects = File.holding t })
                (text_with files obligation records candidate l),
          ),
        ),
      )

  written-Answers :
      (fault : Fault) (env : Environment) (files : Files) (records : List KernelEffectRecord)
      (found : Option KernelEffectRecord) (obligation : String) (status : KernelEffectStatus)
      (proof_ref proof_digest : String) (r : KernelEffectRecord)
      → recordable files obligation ≡ gives records
      → with_effect_id (effect_id_of obligation) records ≡ found
      → (effect_written
          (record env { fault = fault })
          files
          records
          (candidate_record records obligation status proof_ref proof_digest)
          found).result
        ≡ gives r
      → Answers files obligation status proof_ref proof_digest r
          (effect_written
            (record env { fault = fault })
            files
            records
            (candidate_record records obligation status proof_ref proof_digest)
            found).files
  written-Answers fault env files records (some prior) obligation status proof_ref proof_digest r l
        n h =
      found-Answers files records prior obligation status proof_ref proof_digest r l n h
  written-Answers no_fault env files records none obligation status proof_ref proof_digest r l n h =
      new-Answers files records obligation status proof_ref proof_digest r l n (gives_inj _ r h)
  written-Answers after_rename env files records none obligation status proof_ref proof_digest r l n
        h =
      new-Answers files records obligation status proof_ref proof_digest r l n
        (confirmed-gives _ _ (refuses durability_unknown) r h)
  written-Answers not_created env files records none obligation status proof_ref proof_digest r l n
        h =
      cc
  written-Answers before_rename env files records none obligation status proof_ref proof_digest r l
        n h =
      cc
  written-Answers unlink_before_rename env files records none obligation status proof_ref
        proof_digest r l n h =
      cc
  written-Answers unlink_after_rename env files records none obligation status proof_ref
        proof_digest r l n h =
      cc

  loaded-Answers :
      (env : Environment) (files : Files) (o : Attempted (List KernelEffectRecord))
      (obligation : String) (status : KernelEffectStatus) (proof_ref proof_digest : String)
      (r : KernelEffectRecord)
      → recordable files obligation ≡ o
      → (effect_loaded env files obligation status proof_ref proof_digest o).result ≡ gives r
      → Answers files obligation status proof_ref proof_digest r
          (effect_loaded env files obligation status proof_ref proof_digest o).files
  loaded-Answers env files (gives records) obligation status proof_ref proof_digest r l h =
      written-Answers env.fault env files records _ obligation status proof_ref proof_digest r l
        refl h
  loaded-Answers env files (refuses e) obligation status proof_ref proof_digest r l h = cc
  loaded-Answers env files (throws x) obligation status proof_ref proof_digest r l h = cc

  operation-Answers :
      (env : Environment) (files : Files) (obligation : String) (status : KernelEffectStatus)
      (proof_ref proof_digest : String) (r : KernelEffectRecord)
      → (operation env files
          (record_effect_body env obligation status proof_ref proof_digest)).result
        ≡ gives r
      → Answers files obligation status proof_ref proof_digest r
          (operation env files
            (record_effect_body env obligation status proof_ref proof_digest)).files
  unfolding record_effect_body
  operation-Answers env files obligation status proof_ref proof_digest r h =
      let p =
        operation-Performed env files
          (record_effect_body env obligation status proof_ref proof_digest) r h in
      rw p.left (
        loaded-Answers env files (recordable files obligation) obligation status proof_ref
          proof_digest r refl p.gave)

  guarded-Answers :
      (env : Environment) (files : Files) (guard : Attempted (Unit {0})) (obligation : String)
      (status : KernelEffectStatus) (proof_ref proof_digest : String) (r : KernelEffectRecord)
      → (effect_guarded env files guard
          (record_effect_body env obligation status proof_ref proof_digest)).result
        ≡ gives r
      → (guard ≡ gives tt)
        × Answers files obligation status proof_ref proof_digest r
            (effect_guarded env files guard
              (record_effect_body env obligation status proof_ref proof_digest)).files
  guarded-Answers env files (gives u) obligation status proof_ref proof_digest r h =
      (refl, operation-Answers env files obligation status proof_ref proof_digest r h)
  guarded-Answers env files (refuses e) obligation status proof_ref proof_digest r h = cc
  guarded-Answers env files (throws x) obligation status proof_ref proof_digest r h = cc

  else_given :
      (b : Bool) (E F : Ended KernelEffectRecord) (r : KernelEffectRecord)
      → E.result ≡ refuses store_state_conflict
      → (if b then E else F).result ≡ gives r
      → (b ≡ false) × ((if b then E else F).files ≡ F.files) × (F.result ≡ gives r)
  else_given true E F r e h = cc
  else_given false E F r e h = (refl, refl, h)

  -- A record that `record_effect` gives is about the effect that was asked for and stays in the ledger, in every
  -- environment: it has the obligation, the status, the reference and the digest of the call; either it stood in the
  -- loaded ledger and no file changes, or the loaded ledger had no record of the effect and the ledger alone
  -- is replaced, by its old text and then the line of this record; the obligation is an adapter cancellation, and
  -- the reference and the digest are well formed; and where the store has a proof root, a file that is not empty
  -- stands below it under the reference, and the SHA-256 of its text is the digest. A store without a proof root
  -- reads no proof.
  pub record_effect-IsAbout :
      (env : Environment) (files : Files) (obligation : String) (status : KernelEffectStatus)
      (proof_ref proof_digest : String) (r : KernelEffectRecord)
      → (record_effect env files obligation status proof_ref proof_digest).result ≡ gives r
      → IsAbout r obligation status proof_ref proof_digest
        × Stays files obligation r
            (record_effect env files obligation status proof_ref proof_digest).files
        × (starts_with obligation "adapter_cancel:" ≡ true)
        × (safe_ref proof_ref ≡ true)
        × (is_digest proof_digest ≡ true)
        × Proven files.proofs proof_ref proof_digest
  unfolding record_effect
  record_effect-IsAbout env files obligation status proof_ref proof_digest r h =
      let guard = proof_available files.proofs proof_ref proof_digest in
      let body = record_effect_body env obligation status proof_ref proof_digest in
      let (b, same, k) = else_given _ _ (effect_guarded env files guard body) r refl h in
      let (available, (about, stays)) =
        guarded-Answers env files guard obligation status proof_ref proof_digest r k in
      (
        about,
        rw same stays,
        ground arith,
        ground arith,
        ground arith,
        proof_available-Proven files.proofs proof_ref proof_digest available,
      )
