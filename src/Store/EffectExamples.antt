-- ===== src/Store/EffectExamples.antt =====
-- The theorems about the effects of valp_cli/kernel_store.py at concrete inputs.
use visible_agent_loop_proto.Prelude.{
  ℕ, ◌+◌, String, Bool, true, false, Option, none, some, List, [], ◌∷◌, ◌≡◌, refl, ap, ◌∙◌, sym,
  find, contains, is_none, ◌&&◌, length, eq_refl, string_eq, ◌==◌, all,
}
use visible_agent_loop_proto.Kernel.WorkStatuses.{AttemptStatus}
use visible_agent_loop_proto.Kernel.Digests.{is_digest, codes}
use visible_agent_loop_proto.Kernel.Authority.{adapter_cancel_obligation}
use visible_agent_loop_proto.Kernel.Outcomes.{returned}
use visible_agent_loop_proto.Kernel.Samples.{parity, attempt_on, some_digest, checksum, even_digest}
use visible_agent_loop_proto.Store.Files.{gives, reading, Files, Proof}
use visible_agent_loop_proto.Store.Recovery.{recovered}
use visible_agent_loop_proto.Store.Operations.{recover}
use visible_agent_loop_proto.Store.Locking.{operation-Performed, undisturbed_operation}
use visible_agent_loop_proto.Store.EffectRecords.{
  KernelEffectRecord, fulfilled, starts_with, safe_ref, load_effects,
}
use visible_agent_loop_proto.Store.Reconciliation.{
  KernelEffectReconciliation, accepted_obligations, obligations_from, unseen, record_of, pending_of,
  having, reconcile_unlocked,
}
use visible_agent_loop_proto.Store.Effects.{
  candidate_record, recordable, record_effect, record_effect_body, proof_available,
}
use visible_agent_loop_proto.Store.EffectLedger.{Accounts, reconcile_unlocked-Accounts}
use visible_agent_loop_proto.Store.EffectRecording.{record_effect-Recorded}
use visible_agent_loop_proto.Store.EffectAdditions.{IsAbout, Recorded}
use visible_agent_loop_proto.Store.EffectProofs.{Proven}
use visible_agent_loop_proto.Store.EffectAnswers.{Stays, record_effect-IsAbout}
use visible_agent_loop_proto.Store.Scenarios.{cancelled, entry}
use visible_agent_loop_proto.Store.Samples.{two_texts, calm, is_calm}
use visible_agent_loop_proto.Store.Examples.{kept, recovery, recover-kept}

abbrev obligation : String
obligation = adapter_cancel_obligation (attempt_on "a" AttemptStatus.running)

abbrev proof_ref : String
proof_ref = "proofs/p1.json"

-- The obligation of the cancellation is the one of the running attempt.
owed : cancelled.obligations ≡ obligation ∷ []
unfolding visible_agent_loop_proto.Kernel.Reduce.inputs_are_valid
    visible_agent_loop_proto.Kernel.Reduce.conclude
    visible_agent_loop_proto.Kernel.Reduce.reduce_new
    visible_agent_loop_proto.Kernel.Reduce.reduce_known
    visible_agent_loop_proto.Kernel.Reduce.reduce
    visible_agent_loop_proto.Kernel.Validity.accepted_event_is_valid
    visible_agent_loop_proto.Kernel.Validity.attempt_is_valid
    visible_agent_loop_proto.Kernel.Validity.item_fields_are_valid
    visible_agent_loop_proto.Kernel.Validity.item_attempt_is_valid
    visible_agent_loop_proto.Kernel.Validity.work_item_is_valid
    visible_agent_loop_proto.Kernel.Validity.suspension_is_valid
    visible_agent_loop_proto.Kernel.Validity.control_is_valid
    visible_agent_loop_proto.Kernel.Validity.state_header_is_valid
    visible_agent_loop_proto.Kernel.Validity.state_is_valid
    visible_agent_loop_proto.Kernel.Validity.event_header_is_valid
    visible_agent_loop_proto.Kernel.Validity.work_fields_are_valid
    visible_agent_loop_proto.Kernel.Validity.wait_fields_are_valid
    visible_agent_loop_proto.Kernel.Validity.control_fields_are_valid
    visible_agent_loop_proto.Kernel.Validity.event_is_valid
    visible_agent_loop_proto.Kernel.Validity.evidence_set_is_valid
    visible_agent_loop_proto.Kernel.Authority.authority_is_valid
    visible_agent_loop_proto.Kernel.Authority.cancelled_work_item
    visible_agent_loop_proto.Kernel.Authority.dict_get
    visible_agent_loop_proto.Kernel.Authority.eligible_from
    visible_agent_loop_proto.Kernel.Authority.eligible_work_item
    visible_agent_loop_proto.Kernel.Authority.same_attempt
    visible_agent_loop_proto.Kernel.Authority.attempt_event_is_stale
    visible_agent_loop_proto.Kernel.Branches.branch
    visible_agent_loop_proto.Kernel.Outcomes.refuse_if
    visible_agent_loop_proto.Kernel.Outcomes.attribute_of
    visible_agent_loop_proto.Kernel.ControlEvents.interrupt_requested
    visible_agent_loop_proto.Kernel.ControlEvents.interrupt_resumed
    visible_agent_loop_proto.Kernel.ControlEvents.cancel_where
    visible_agent_loop_proto.Kernel.ControlEvents.redirect_authorized
    visible_agent_loop_proto.Kernel.ControlEvents.task_cancelled
    visible_agent_loop_proto.Kernel.WaitEvents.suspension_started
    visible_agent_loop_proto.Kernel.WaitEvents.some_incomplete
    visible_agent_loop_proto.Kernel.WaitEvents.wake_accepted
    visible_agent_loop_proto.Kernel.ItemEvents.item_index
    visible_agent_loop_proto.Kernel.ItemEvents.replace_at
    visible_agent_loop_proto.Kernel.ItemEvents.on_item
    visible_agent_loop_proto.Kernel.ItemEvents.eligible_step
    visible_agent_loop_proto.Kernel.ItemEvents.work_item_eligible
    visible_agent_loop_proto.Kernel.ItemEvents.is_required_by_any
    visible_agent_loop_proto.Kernel.ItemEvents.cancellation_is_malformed
    visible_agent_loop_proto.Kernel.ItemEvents.skip_is_refused
    visible_agent_loop_proto.Kernel.ItemEvents.item_step
    visible_agent_loop_proto.Kernel.ItemEvents.work_item_event
    visible_agent_loop_proto.Kernel.Transitions.task_transition
    visible_agent_loop_proto.Kernel.Acceptance.accept
    visible_agent_loop_proto.Kernel.Digests.is_digest visible_agent_loop_proto.Kernel.Digests.codes
    visible_agent_loop_proto.Kernel.Identities.new_identity visible_agent_loop_proto.Prelude.all
    visible_agent_loop_proto.Prelude.any visible_agent_loop_proto.Prelude.contains
    visible_agent_loop_proto.Prelude.is_distinct visible_agent_loop_proto.Prelude.is_subset
    visible_agent_loop_proto.Prelude.find
owed = refl

abbrev done : KernelEffectRecord
done = candidate_record [] obligation fulfilled proof_ref some_digest

accepted : accepted_obligations (entry ∷ []) ≡ returned (obligation ∷ [])
unfolding obligations_from unseen contains
accepted = rw owed refl

abbrev reconciliation : KernelEffectReconciliation
reconciliation = record { pending = []; fulfilled = done ∷ []; blocked = [] }

reconciles : reconcile_unlocked kept (entry ∷ []) (done ∷ []) ≡ gives reconciliation
unfolding reconcile_unlocked all contains pending_of having record_of candidate_record
reconciles = rw accepted (rw (eq_refl obligation) refl)

reconcile_unlocked-Accounts_example :
    (obligations : List String) × (accepted_obligations (entry ∷ []) ≡ returned obligations)
    × Accounts obligations (done ∷ []) reconciliation
reconcile_unlocked-Accounts_example =
    reconcile_unlocked-Accounts kept (entry ∷ []) (done ∷ []) reconciliation reconciles

record_effect-Recorded_example :
    Recorded kept obligation fulfilled proof_ref some_digest
      (record_effect calm kept obligation fulfilled proof_ref some_digest).files
record_effect-Recorded_example =
    record_effect-Recorded calm kept obligation fulfilled proof_ref some_digest

-- The proof is below the root, and its checksum is the digest that the call names.
abbrev proof : String
proof = "b"

checksum-proof : checksum proof ≡ even_digest
unfolding checksum visible_agent_loop_proto.Kernel.Digests.codes
checksum-proof = refl

abbrev proven : Files
proven = record kept { proofs = some (λ _. Proof.holding proof) }

available : proof_available proven.proofs proof_ref some_digest ≡ gives tt
available = rw checksum-proof refl

recovered-kept : recovered kept ≡ gives recovery
unfolding recover
recovered-kept = (operation-Performed calm kept (reading recovered) recovery recover-kept).gave

recovered-proven : recovered proven ≡ gives recovery
unfolding recovered visible_agent_loop_proto.Store.Recovery.recover_unlocked
recovered-proven = recovered-kept

recordable-proven : recordable proven obligation ≡ gives []
unfolding recordable contains load_effects
recordable-proven = rw recovered-proven (rw accepted (rw (eq_refl obligation) refl))

is_adapter_cancel : starts_with obligation "adapter_cancel:" ≡ true
unfolding starts_with adapter_cancel_obligation
    visible_agent_loop_proto.Kernel.Digests.canonical_json visible_agent_loop_proto.Json.dumps
    visible_agent_loop_proto.Json.join visible_agent_loop_proto.Json.sorted
    visible_agent_loop_proto.Json.quoted visible_agent_loop_proto.Json.decimal
is_adapter_cancel = refl

is_safe : safe_ref proof_ref ≡ true
unfolding safe_ref contains starts_with visible_agent_loop_proto.Prelude.any
    visible_agent_loop_proto.Store.Lines.split_on
is_safe = refl

some_digest-is_digest : is_digest some_digest ≡ true
unfolding is_digest all contains
some_digest-is_digest = refl

records : (record_effect calm proven obligation fulfilled proof_ref some_digest).result ≡ gives done
unfolding record_effect record_effect_body find
records = rw is_adapter_cancel (
    rw is_safe (
      rw some_digest-is_digest (
        rw available (
          rw
            (undisturbed_operation calm proven
              (record_effect_body calm obligation fulfilled proof_ref some_digest) is_calm refl)
            (rw recordable-proven refl)))))

record_effect-IsAbout_example :
    IsAbout done obligation fulfilled proof_ref some_digest
    × Stays proven obligation done
        (record_effect calm proven obligation fulfilled proof_ref some_digest).files
    × (starts_with obligation "adapter_cancel:" ≡ true)
    × (safe_ref proof_ref ≡ true)
    × (is_digest some_digest ≡ true)
    × Proven proven.proofs proof_ref some_digest
record_effect-IsAbout_example =
    record_effect-IsAbout calm proven obligation fulfilled proof_ref some_digest done records
