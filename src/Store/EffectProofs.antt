-- ===== src/Store/EffectProofs.antt =====
-- valp_cli/kernel_store.py: the proof that `record_effect` reads.
use Prim.Native.String.{◌++◌ as concat}
use visible_agent_loop_proto.Store.Reconciliation.{proof_matches}
use visible_agent_loop_proto.Prelude.{
  String, true, Option, none, some, ◌≡◌, refl, string_eq, if◌then◌else◌, arith, Bool, false, ◌==◌,
  ◌⊎◌, inl, inr, ne_sound,
}
use visible_agent_loop_proto.Kernel.Digests.{Sha256}
use visible_agent_loop_proto.Store.Files.{gives, refuses, StoreError, store_state_conflict, Proof}
use visible_agent_loop_proto.Store.Effects.{proof_available, candidate_proof}

module _ ⦃sha : Sha256⦄ where
  -- The store has no proof root, or a file that is not empty stands there under the reference and has the digest.
  abbrev pub Proven : Option (String → Proof) → String → String → Type 0
  Proven proofs proof_ref proof_digest =
      (proofs ≡ none)
      ⊎ ((root : String → Proof) × (payload : String) × (proofs ≡ some root)
          × (root proof_ref ≡ Proof.holding payload)
          × ((payload == "") ≡ false)
          × (concat "sha256:" (sha.hexdigest payload) ≡ proof_digest))

  given_unless :
      (b : Bool) (e : StoreError) (u : Unit {0})
      → (if b then gives u else refuses e) ≡ gives u
      → b ≡ true
  given_unless true e u h = refl
  given_unless false e u h = cc

  candidate_proof-Proven :
      (root : String → Proof) (proof_ref proof_digest : String) (found : Proof)
      → root proof_ref ≡ found
      → candidate_proof found proof_digest ≡ gives tt
      → Proven (some root) proof_ref proof_digest
  candidate_proof-Proven root proof_ref proof_digest Proof.escaping e h = cc
  candidate_proof-Proven root proof_ref proof_digest Proof.irregular e h = cc
  candidate_proof-Proven root proof_ref proof_digest Proof.missing e h = cc
  candidate_proof-Proven root proof_ref proof_digest (Proof.holding payload) e h =
      let matches = given_unless (proof_matches payload proof_digest) store_state_conflict tt h in
      inr (
        root,
        payload,
        refl,
        e,
        ground arith,
        ne_sound (concat "sha256:" (sha.hexdigest payload)) proof_digest (ground arith),
      )

  pub proof_available-Proven :
      (proofs : Option (String → Proof)) (proof_ref proof_digest : String)
      → proof_available proofs proof_ref proof_digest ≡ gives tt
      → Proven proofs proof_ref proof_digest
  proof_available-Proven none proof_ref proof_digest h = inl refl
  proof_available-Proven (some root) proof_ref proof_digest h =
      candidate_proof-Proven root proof_ref proof_digest (root proof_ref) refl h
