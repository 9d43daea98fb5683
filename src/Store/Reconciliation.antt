-- ===== src/Store/Reconciliation.antt =====
-- valp_cli/kernel_store.py: `reconcile_effects`.
use visible_agent_loop_proto.Json.{Json, fields, items, str}
use Prim.Native.String.{◌++◌ as concat}
use visible_agent_loop_proto.Prelude.{
  String, Bool, not, Option, none, some, List, [], ◌∷◌, ◌++◌, ◌||◌, ◌==◌, ◌!=◌, string_eq, all,
  contains, is_none, if◌then◌else◌, int_eq, map,
}
use visible_agent_loop_proto.Kernel.Digests.{Sha256}
use visible_agent_loop_proto.Kernel.Outcomes.{
  Outcome, returned, raised, value_error, os_error, attribute_error,
}
use visible_agent_loop_proto.Kernel.Checkpoints.{ReplayEntry, accepted_of}
use visible_agent_loop_proto.Store.Files.{
  Proof, Files, Loads, Environment, Attempted, gives, throws, refuses, ◌>>>◌, lifted, Ended,
  operation, reading, ledger_corrupt,
}
use visible_agent_loop_proto.Store.Recovery.{recovered}
use visible_agent_loop_proto.Store.EffectRecords.{
  KernelEffectStatus, fulfilled, blocked, effect_status_eq, KernelEffectRecord, effect_canonical,
  load_effects,
}

-- `KernelEffectReconciliation`
pub record KernelEffectReconciliation : Type 0 where
  pub pending : List String
  pub fulfilled : List KernelEffectRecord
  pub blocked : List KernelEffectRecord

-- `canonical()` of a reconciliation.
unfoldable pub reconciliation_canonical : KernelEffectReconciliation → Json
reconciliation_canonical r = fields (
    ("schema_version", str "valp-kernel-effect-reconciliation.v1")
    ∷ ("pending", items (map str r.pending))
    ∷ ("fulfilled", items (map effect_canonical r.fulfilled))
    ∷ ("blocked", items (map effect_canonical r.blocked))
    ∷ [])

-- The obligations of an entry that were not seen before, in their order.
unfoldable pub unseen : List String → List String → List String
unseen seen [] = seen
unseen seen (obligation ∷ rest) =
    unseen (if contains seen obligation then seen else seen ++ obligation ∷ []) rest

-- `_accepted_obligations(entries)`
unfoldable pub obligations_from : List String → List ReplayEntry → Outcome (List String)
obligations_from seen [] = returned seen
obligations_from seen (entry ∷ rest) = elim (accepted_of entry.result) [
  | none ↦ raised attribute_error
  | some accepted ↦ obligations_from (unseen seen accepted.obligations) rest
]

abbrev pub accepted_obligations : List ReplayEntry → Outcome (List String)
accepted_obligations entries = obligations_from [] entries

-- `by_obligation.get(obligation)`: of two records the later one.
unfoldable pub record_of : String → List KernelEffectRecord → Option KernelEffectRecord
record_of obligation [] = none
record_of obligation (r ∷ rest) =
    let later = record_of obligation rest in
    elim later [
      | some found ↦ some found
      | none ↦ if r.obligation == obligation then some r else none
    ]

unfoldable pub pending_of : List KernelEffectRecord → List String → List String
pending_of records [] = []
pending_of records (obligation ∷ rest) =
    let later = pending_of records rest in
    if is_none (record_of obligation records) then obligation ∷ later else later

abbrev pub with_status :
    KernelEffectStatus
    → Option KernelEffectRecord
    → List KernelEffectRecord
    → List KernelEffectRecord
with_status status none later = later
with_status status (some r) later = if effect_status_eq r.status status then r ∷ later else later

unfoldable pub having :
    KernelEffectStatus → List KernelEffectRecord → List String → List KernelEffectRecord
having status records [] = []
having status records (obligation ∷ rest) =
    with_status status (record_of obligation records) (having status records rest)

module _ ⦃sha : Sha256⦄ where
  -- `digest(payload)` of valp_cli/protocol_receipts.py, of a text.
  abbrev pub receipt_digest : String → String
  receipt_digest payload = concat "sha256:" (sha.hexdigest payload)

  abbrev pub proof_matches : String → String → Bool
  proof_matches payload proof_digest = not (payload == "" || receipt_digest payload != proof_digest)

  -- One round of `_validate_effect_proofs`.
  abbrev pub proof_checked : Proof → String → Attempted (Unit {0})
  proof_checked Proof.escaping proof_digest =
      throws (value_error "Kernel effect proof escapes the task root")
  proof_checked Proof.irregular proof_digest = refuses ledger_corrupt
  proof_checked Proof.missing proof_digest = throws os_error
  proof_checked (Proof.holding payload) proof_digest =
      if proof_matches payload proof_digest
      then gives tt
      else throws (value_error "Kernel effect proof bytes do not match the ledger")

  unfoldable pub proofs_checked : (String → Proof) → List KernelEffectRecord → Attempted (Unit {0})
  proofs_checked proofs [] = gives tt
  proofs_checked proofs (r ∷ rest) =
      proof_checked (proofs r.proof_ref) r.proof_digest >>> λ _. proofs_checked proofs rest

  -- `_validate_effect_proofs(records)`
  abbrev pub validate_effect_proofs :
      Option (String → Proof) → List KernelEffectRecord → Attempted (Unit {0})
  validate_effect_proofs none records = gives tt
  validate_effect_proofs (some proofs) records = proofs_checked proofs records

  -- `_reconcile_effects_unlocked(entries, records)`
  unfoldable pub reconcile_unlocked :
      Files → List ReplayEntry → List KernelEffectRecord → Attempted KernelEffectReconciliation
  reconcile_unlocked files entries records =
      lifted (accepted_obligations entries) >>> λ obligations.
      if not (all (λ (r : KernelEffectRecord). contains obligations r.obligation) records)
      then throws (value_error "Kernel effect record has no accepted obligation")
      else validate_effect_proofs files.proofs records >>> λ _. gives (record {
        pending = pending_of records obligations;
        fulfilled = having fulfilled records obligations;
        blocked = having blocked records obligations;
      })

module _ ⦃sha : Sha256⦄ ⦃l : Loads⦄ where
  unfoldable pub reconciled : Files → Attempted KernelEffectReconciliation
  reconciled files = recovered files >>> λ recovery.
      load_effects files.effects >>> λ records. reconcile_unlocked files recovery.entries records

  -- `reconcile_effects()`
  unfoldable pub reconcile_effects : Environment → Files → Ended KernelEffectReconciliation
  reconcile_effects env files = operation env files (reading reconciled)
