-- ===== src/Store/EventRoundTrips.antt =====
-- `_event` and `_evidence` of valp_cli/kernel_store.py undo the canonical forms of events and evidence.
use mathlib.Core.Option
use visible_agent_loop_proto.Prelude.{
  String, true, Option, none, some, List, ◌∷◌, ◌++◌, ◌≡◌, refl, all, string_eq, is_subset, contains,
  eq_refl, All, ℤ,
}
use visible_agent_loop_proto.Json.{Json, str, int, dumps}
use visible_agent_loop_proto.Kernel.IdentityKinds.{IdentityKind}
use visible_agent_loop_proto.Kernel.EventKinds.{event_kind_value}
use visible_agent_loop_proto.Kernel.ControlWords.{
  wake_reason_value, control_reason_value, cancellation_scope_value,
}
use visible_agent_loop_proto.Kernel.Words.{Word, known, text, is_known, absent_or_known, word_value}
use visible_agent_loop_proto.Kernel.Identities.{
  Identity, identity_canonical, Evidence, evidence_canonical,
}
use visible_agent_loop_proto.Kernel.States.{when_present, when_nonempty}
use visible_agent_loop_proto.Kernel.Events.{Event, event_canonical, identity_field}
use visible_agent_loop_proto.Kernel.Outcomes.{returned}
use visible_agent_loop_proto.Store.Members.{
  event_kind_of, event_kind_of-event_kind_value, wake_reason_of, wake_reason_of-wake_reason_value,
  control_reason_of, control_reason_of-control_reason_value, cancellation_scope_of,
  cancellation_scope_of-cancellation_scope_value,
}
use visible_agent_loop_proto.Store.Shapes.{get, given, array_or_empty, integer_of, text_of}
use visible_agent_loop_proto.Store.ShapeLemmas.{
  reads, shape-fields, key_rules, all_keys, array_or_empty-array_or_none, given-map, Given,
  array_or_none,
}
use visible_agent_loop_proto.Store.Readable.{Named, ReadableEvent, ReadableEvidence}
use visible_agent_loop_proto.Store.StateDecoders.{identity_from}
use visible_agent_loop_proto.Store.EventDecoders.{
  event_required, event_optional, known_of, event_of, event_from, decode_event, evidence_from,
}
use visible_agent_loop_proto.Store.PartRoundTrips.{identity_from-identity_canonical}

-- The members of an event that may be left out.
abbrev event_rest : Event → List (String × Json)
event_rest e =
    identity_field "work_item_id" e.work_item_id
    ++ identity_field "attempt_id" e.attempt_id
    ++ identity_field "dispatch_id" e.dispatch_id
    ++ identity_field "suspension_id" e.suspension_id
    ++ identity_field "wait_policy_id" e.wait_policy_id
    ++ identity_field "wake_id" e.wake_id
    ++ identity_field "authority_principal_id" e.authority_principal_id
    ++ identity_field "authority_evidence_id" e.authority_evidence_id
    ++ identity_field "interrupt_id" e.interrupt_id
    ++ identity_field "redirect_id" e.redirect_id
    ++ when_present "dispatch_generation" int e.dispatch_generation
    ++ when_present "suspension_epoch" int e.suspension_epoch
    ++ when_present "wait_policy_digest" str e.wait_policy_digest
    ++ when_nonempty "required_work_item_ids" identity_canonical e.required_work_item_ids
    ++ when_present "wake_reason" (λ w. str (word_value wake_reason_value w)) e.wake_reason
    ++ when_present "control_reason" (λ w. str (word_value control_reason_value w)) e.control_reason
    ++ when_present "cancellation_scope" (λ w. str (word_value cancellation_scope_value w))
        e.cancellation_scope
    ++ when_present "intent_version" int e.intent_version
    ++ when_present "next_intent_version" int e.next_intent_version
    ++ when_nonempty "superseded_work_item_ids" identity_canonical e.superseded_work_item_ids

abbrev event_members : Event → List (String × Json)
event_members e =
    ("schema_version", str "valp-kernel-event.v1")
    ∷ ("event_id", identity_canonical e.event_id)
    ∷ ("installation_id", identity_canonical e.installation_id)
    ∷ ("leader_epoch", int e.leader_epoch)
    ∷ ("task_id", identity_canonical e.task_id)
    ∷ ("kind", str (word_value event_kind_value e.kind))
    ∷ ("expected_revision", int e.expected_revision)
    ∷ event_rest e

event_keys :
    (e : Event) → all_keys (contains (event_required ++ event_optional)) (event_rest e) ≡ true
unfolding contains
event_keys e = simp key_rules refl

-- A word that is known comes back from its value.
known_of-word_value :
    {A : Type 0} (value : A → String) (member : String → Option A)
    → ((m : A) → member (value m) ≡ some m)
    → (w : Word A) → is_known w ≡ true
    → known_of member (str (word_value value w)) ≡ returned w
known_of-word_value value member back (known m) h = rw (back m) refl
known_of-word_value value member back (text s) h = cc

given_known :
    {A : Type 0} (o : Option (Word A)) → absent_or_known o ≡ true → Given (λ w. is_known w ≡ true) o
given_known none h = tt
given_known (some w) h = h

-- A part whose decoder needs no condition.
given_free : {A : Type 0} (o : Option A) → Given (λ _. Unit {0}) o
given_free none = tt
given_free (some a) = tt

named_back :
    (kind : IdentityKind) (o : Option Identity)
    → Given (Named kind) o
    → given (Option.map identity_canonical o) (identity_from kind) ≡ returned o
named_back kind o n =
    given-map (Named kind) (identity_from kind) identity_canonical o
      (identity_from-identity_canonical kind) n

names_back :
    (xs : List Identity)
    → All (Named IdentityKind.work_item) xs
    → array_or_empty (array_or_none identity_canonical xs) (identity_from IdentityKind.work_item)
      ≡ returned xs
names_back xs n =
    array_or_empty-array_or_none (Named IdentityKind.work_item)
      (identity_from IdentityKind.work_item) identity_canonical xs
      (identity_from-identity_canonical IdentityKind.work_item) n

integer_back : (o : Option ℤ) → given (Option.map int o) integer_of ≡ returned o
integer_back o = given-map (λ _. Unit {0}) integer_of int o (λ n _. refl) (given_free o)

text_back : (o : Option String) → given (Option.map str o) text_of ≡ returned o
text_back o = given-map (λ _. Unit {0}) text_of str o (λ n _. refl) (given_free o)

word_back :
    {A : Type 0} (value : A → String) (member : String → Option A)
    → ((m : A) → member (value m) ≡ some m)
    → (o : Option (Word A)) → absent_or_known o ≡ true
    → given (Option.map (λ w. str (word_value value w)) o) (known_of member) ≡ returned o
word_back value member back o h =
    given-map (λ w. is_known w ≡ true) (known_of member) (λ w. str (word_value value w)) o
      (known_of-word_value value member back) (given_known o h)

event_of-event_members : (e : Event) → ReadableEvent e → event_of (event_members e) ≡ returned e
unfolding event_of
event_of-event_members e n = simp reads (
    rw (identity_from-identity_canonical IdentityKind.event e.event_id n.event) (
      rw
        (identity_from-identity_canonical IdentityKind.installation e.installation_id
          n.installation)
        (rw (identity_from-identity_canonical IdentityKind.task e.task_id n.task) (
          rw
            (known_of-word_value event_kind_value event_kind_of event_kind_of-event_kind_value
              e.kind n.kind)
            (rw (named_back IdentityKind.work_item e.work_item_id n.item) (
              rw (named_back IdentityKind.attempt e.attempt_id n.attempt) (
                rw (named_back IdentityKind.dispatch e.dispatch_id n.dispatch) (
                  rw (integer_back e.dispatch_generation) (
                    rw (named_back IdentityKind.suspension e.suspension_id n.suspension) (
                      rw (integer_back e.suspension_epoch) (
                        rw (named_back IdentityKind.wait_policy e.wait_policy_id n.policy) (
                          rw (text_back e.wait_policy_digest) (
                            rw (names_back e.required_work_item_ids n.required) (
                              rw (named_back IdentityKind.wake e.wake_id n.wake) (
                                rw
                                  (word_back wake_reason_value wake_reason_of
                                    wake_reason_of-wake_reason_value e.wake_reason n.reason)
                                  (rw
                                    (named_back IdentityKind.principal e.authority_principal_id
                                      n.principal)
                                    (rw
                                      (named_back IdentityKind.evidence e.authority_evidence_id
                                        n.evidence)
                                      (rw
                                        (word_back control_reason_value control_reason_of
                                          control_reason_of-control_reason_value e.control_reason
                                          n.control_reason)
                                        (rw
                                          (word_back cancellation_scope_value cancellation_scope_of
                                            cancellation_scope_of-cancellation_scope_value
                                            e.cancellation_scope n.scope)
                                          (rw
                                            (named_back IdentityKind.interrupt e.interrupt_id
                                              n.interrupt)
                                            (rw
                                              (named_back IdentityKind.redirect e.redirect_id
                                                n.redirect)
                                              (rw (integer_back e.intent_version) (
                                                rw (integer_back e.next_intent_version) (
                                                  rw
                                                    (names_back e.superseded_work_item_ids
                                                      n.superseded)
                                                    (refl)))))))))))))))))))))))))

pub event_from-event_canonical :
    (e : Event) → ReadableEvent e → event_from (event_canonical e) ≡ returned e
unfolding event_from event_canonical is_subset all contains
event_from-event_canonical e n =
    rw (shape-fields (event_members e) event_required event_optional refl (event_keys e))
      (simp reads (event_of-event_members e n))

-- Decoding the canonical form of an event whose identities have values and the kinds of their fields, and whose
-- enumeration members are known, gives that event back.
pub decode_event-event_canonical :
    (e : Event) → ReadableEvent e → decode_event (event_canonical e) ≡ returned e
unfolding decode_event
decode_event-event_canonical e n =
    rw (event_from-event_canonical e n) (rw (eq_refl (dumps (event_canonical e))) refl)

pub evidence_from-evidence_canonical :
    (e : Evidence) → ReadableEvidence e → evidence_from (evidence_canonical e) ≡ returned e
unfolding evidence_from evidence_canonical get is_subset all contains
evidence_from-evidence_canonical e n =
    rw (identity_from-identity_canonical IdentityKind.evidence e.evidence_id n) refl
