-- ===== src/Store/EntryRoundTrips.antt =====
-- `decode_replay_entry` and `decode_genesis_root` of valp_cli/kernel_store.py undo the canonical forms of entries and roots.
use visible_agent_loop_proto.Json.Value.{item_list}
use visible_agent_loop_proto.Prelude.{
  String, true, List, [], ◌∷◌, ◌≡◌, refl, map, all, string_eq, is_subset, contains, eq_refl, All,
}
use visible_agent_loop_proto.Json.{str, dumps}
use visible_agent_loop_proto.Kernel.IdentityKinds.{IdentityKind}
use visible_agent_loop_proto.Kernel.EventKinds.{result_variant_value}
use visible_agent_loop_proto.Kernel.Identities.{evidence_canonical}
use visible_agent_loop_proto.Kernel.Results.{Accepted, accepted_canonical, Result, result_canonical}
use visible_agent_loop_proto.Kernel.Digests.{Sha256, canonical_evidence}
use visible_agent_loop_proto.Kernel.Outcomes.{returned}
use visible_agent_loop_proto.Kernel.Checkpoints.{
  ReplayEntry, replay_entry_canonical, GenesisRoot, genesis_root_canonical,
}
use visible_agent_loop_proto.Kernel.Replay.{replay, verified_root, genesis_is_valid, replay_from}
use visible_agent_loop_proto.Store.Shapes.{get, each, text_of}
use visible_agent_loop_proto.Store.ShapeLemmas.{each-map}
use visible_agent_loop_proto.Store.Readable.{Named, ReadableState, ReadableEvent, ReadableEvidence}
use visible_agent_loop_proto.Store.EventDecoders.{evidence_from}
use visible_agent_loop_proto.Store.ResultDecoders.{
  accepted_from, result_from, decode_replay_entry, decode_genesis_root,
}
use visible_agent_loop_proto.Store.PartRoundTrips.{identity_from-identity_canonical}
use visible_agent_loop_proto.Store.StateRoundTrips.{state_from-state_canonical}
use visible_agent_loop_proto.Store.EventRoundTrips.{
  event_from-event_canonical, evidence_from-evidence_canonical,
}

-- An accepted result that the decoder gives back.
pub record ReadableAccepted (a : Accepted) : Type 0 where
  pub result : Named IdentityKind.result a.result_id
  pub state : ReadableState a.state

anything : (xs : List String) → All (λ _. Unit {0}) xs
anything [] = tt
anything (x ∷ xs) = (tt, anything xs)

texts_back : (xs : List String) → each text_of (item_list (map str xs)) ≡ returned xs
texts_back xs = each-map (λ _. Unit {0}) text_of str xs (λ x _. refl) (anything xs)

accepted_from-accepted_canonical :
    (a : Accepted)
    → ReadableAccepted a
    → accepted_from (accepted_canonical a) ≡ returned (Result.accepted a)
unfolding accepted_from accepted_canonical get is_subset all contains result_variant_value
accepted_from-accepted_canonical a n =
    rw (identity_from-identity_canonical IdentityKind.result a.result_id n.result) (
      rw (state_from-state_canonical a.state n.state)
        (rw (texts_back a.obligations) (rw (texts_back a.audit_facts) refl)))

result_from-result_canonical :
    (a : Accepted)
    → ReadableAccepted a
    → result_from (result_canonical (Result.accepted a)) ≡ returned (Result.accepted a)
unfolding result_from result_canonical get accepted_canonical result_variant_value
result_from-result_canonical a n = accepted_from-accepted_canonical a n

-- An entry that the decoder gives back: its evidence stands in the canonical order.
pub record ReadableEntry (entry : ReplayEntry) : Type 0 where
  pub event : ReadableEvent entry.event
  pub evidence : All ReadableEvidence entry.evidence_set
  pub in_order : canonical_evidence entry.evidence_set ≡ map evidence_canonical entry.evidence_set
  pub accepted : Accepted
  pub result_accepted : entry.result ≡ Result.accepted accepted
  pub result : ReadableAccepted accepted

-- Decoding the canonical form of an accepted entry gives that entry back, where the identities of its event, its evidence and its
-- result have values and the kinds of their fields, the enumeration members are known, and the evidence stands in
-- its canonical order.
pub decode_replay_entry-replay_entry_canonical :
    (entry : ReplayEntry)
    → ReadableEntry entry
    → decode_replay_entry (replay_entry_canonical entry) ≡ returned entry
unfolding decode_replay_entry replay_entry_canonical get is_subset all contains
decode_replay_entry-replay_entry_canonical entry n =
    rw (event_from-event_canonical entry.event n.event) (
      rw n.in_order (
        rw
          (each-map ReadableEvidence evidence_from evidence_canonical entry.evidence_set
            evidence_from-evidence_canonical n.evidence)
          (rw n.result_accepted (rw (result_from-result_canonical n.accepted n.result) refl))))

module _ ⦃sha : Sha256⦄ where
  -- Decoding the canonical form of a genesis root gives that root back, where its state is the empty, published state of
  -- a task with readable identities.
  pub decode_genesis_root-genesis_root_canonical :
      (root : GenesisRoot)
      → ReadableState root.state
      → genesis_is_valid root.state ≡ true
      → decode_genesis_root (genesis_root_canonical root) ≡ returned root
  unfolding decode_genesis_root genesis_root_canonical get is_subset all contains replay
      verified_root replay_from
  decode_genesis_root-genesis_root_canonical root n g =
      rw (state_from-state_canonical root.state n)
        (rw (eq_refl (dumps (genesis_root_canonical root))) (rw g refl))
