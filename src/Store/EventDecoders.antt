-- ===== src/Store/EventDecoders.antt =====
-- valp_cli/kernel_store.py: `_event`, `decode_event` and `_evidence`.
use visible_agent_loop_proto.Prelude.{String, Option, List, [], ◌∷◌, ◌!=◌, string_eq, if◌then◌else◌}
use visible_agent_loop_proto.Json.{Json, dumps}
use visible_agent_loop_proto.Kernel.IdentityKinds.{IdentityKind}
use visible_agent_loop_proto.Kernel.Words.{Word, known}
use visible_agent_loop_proto.Kernel.Identities.{Evidence}
use visible_agent_loop_proto.Kernel.Events.{Event, event_canonical}
use visible_agent_loop_proto.Kernel.Outcomes.{Outcome, returned, raised, value_error, ◌>>=◌}
use visible_agent_loop_proto.Store.Members.{
  event_kind_of, wake_reason_of, control_reason_of, cancellation_scope_of,
}
use visible_agent_loop_proto.Store.Shapes.{
  shape, at, optional_at, get, text_of, integer_of, array_or_empty, word_of, versioned,
}
use visible_agent_loop_proto.Store.StateDecoders.{identity_from}

abbrev pub event_required : List String
event_required =
    "schema_version" ∷ "event_id" ∷ "installation_id" ∷ "leader_epoch" ∷ "task_id" ∷ "kind"
    ∷ "expected_revision" ∷ []

abbrev pub event_optional : List String
event_optional =
    "work_item_id" ∷ "attempt_id" ∷ "dispatch_id" ∷ "dispatch_generation" ∷ "suspension_id"
    ∷ "suspension_epoch" ∷ "wait_policy_id" ∷ "wait_policy_digest" ∷ "required_work_item_ids"
    ∷ "wake_id" ∷ "wake_reason" ∷ "authority_principal_id" ∷ "authority_evidence_id"
    ∷ "control_reason" ∷ "cancellation_scope" ∷ "interrupt_id" ∷ "redirect_id" ∷ "intent_version"
    ∷ "next_intent_version" ∷ "superseded_work_item_ids" ∷ []

-- A member of an enumeration as a word.
abbrev pub known_of : {A : Type 0} → (String → Option A) → Json → Outcome (Word A)
known_of member value = word_of member value >>= λ m. returned (known m)

-- `_event(value)` of the members of the object.
unfoldable pub event_of : List (String × Json) → Outcome Event
event_of fs = at "event_id" fs (identity_from IdentityKind.event) >>= λ event_id.
    at "installation_id" fs (identity_from IdentityKind.installation) >>= λ installation_id.
    at "leader_epoch" fs integer_of >>= λ leader_epoch.
    at "task_id" fs (identity_from IdentityKind.task) >>= λ task_id.
    at "kind" fs (known_of event_kind_of) >>= λ kind.
    at "expected_revision" fs integer_of >>= λ expected_revision.
    optional_at "work_item_id" fs (identity_from IdentityKind.work_item) >>= λ work_item_id.
    optional_at "attempt_id" fs (identity_from IdentityKind.attempt) >>= λ attempt_id.
    optional_at "dispatch_id" fs (identity_from IdentityKind.dispatch) >>= λ dispatch_id.
    optional_at "dispatch_generation" fs integer_of >>= λ dispatch_generation.
    optional_at "suspension_id" fs (identity_from IdentityKind.suspension) >>= λ suspension_id.
    optional_at "suspension_epoch" fs integer_of >>= λ suspension_epoch.
    optional_at "wait_policy_id" fs (identity_from IdentityKind.wait_policy) >>= λ wait_policy_id.
    optional_at "wait_policy_digest" fs text_of >>= λ wait_policy_digest.
    array_or_empty (get "required_work_item_ids" fs) (identity_from IdentityKind.work_item)
    >>= λ required. optional_at "wake_id" fs (identity_from IdentityKind.wake) >>= λ wake_id.
        optional_at "wake_reason" fs (known_of wake_reason_of) >>= λ wake_reason.
        optional_at "authority_principal_id" fs (identity_from IdentityKind.principal)
        >>= λ principal.
            optional_at "authority_evidence_id" fs (identity_from IdentityKind.evidence)
            >>= λ evidence.
                optional_at "control_reason" fs (known_of control_reason_of) >>= λ control_reason.
                optional_at "cancellation_scope" fs (known_of cancellation_scope_of)
                >>= λ cancellation_scope.
                    optional_at "interrupt_id" fs (identity_from IdentityKind.interrupt)
                    >>= λ interrupt_id.
                        optional_at "redirect_id" fs (identity_from IdentityKind.redirect)
                        >>= λ redirect_id.
                            optional_at "intent_version" fs integer_of >>= λ intent_version.
                            optional_at "next_intent_version" fs integer_of
                            >>= λ next_intent_version.
                                array_or_empty (get "superseded_work_item_ids" fs)
                                  (identity_from IdentityKind.work_item)
                                >>= λ superseded. returned (record {
                                  event_id = event_id;
                                  installation_id = installation_id;
                                  leader_epoch = leader_epoch;
                                  task_id = task_id;
                                  kind = kind;
                                  expected_revision = expected_revision;
                                  work_item_id = work_item_id;
                                  attempt_id = attempt_id;
                                  dispatch_id = dispatch_id;
                                  dispatch_generation = dispatch_generation;
                                  suspension_id = suspension_id;
                                  suspension_epoch = suspension_epoch;
                                  wait_policy_id = wait_policy_id;
                                  wait_policy_digest = wait_policy_digest;
                                  required_work_item_ids = required;
                                  wake_id = wake_id;
                                  wake_reason = wake_reason;
                                  authority_principal_id = principal;
                                  authority_evidence_id = evidence;
                                  control_reason = control_reason;
                                  cancellation_scope = cancellation_scope;
                                  interrupt_id = interrupt_id;
                                  redirect_id = redirect_id;
                                  intent_version = intent_version;
                                  next_intent_version = next_intent_version;
                                  superseded_work_item_ids = superseded;
                                })

-- `_event(value)`
unfoldable pub event_from : Json → Outcome Event
event_from value = shape value event_required event_optional >>= λ fs.
    versioned "valp-kernel-event.v1" fs (event_of fs)

-- `decode_event(value)`: two values are equal when their canonical texts are.
unfoldable pub decode_event : Json → Outcome Event
decode_event value = event_from value >>= λ event.
    if dumps (event_canonical event) != dumps value
    then raised (value_error "Kernel Event canonical bindings mismatch")
    else returned event

-- `_evidence(value)`
unfoldable pub evidence_from : Json → Outcome Evidence
evidence_from value =
    shape value ("schema_version" ∷ "evidence_id" ∷ "content_digest" ∷ []) [] >>= λ fs.
    versioned "valp-kernel-evidence.v1" fs (
      at "evidence_id" fs (identity_from IdentityKind.evidence) >>= λ i.
      at "content_digest" fs text_of >>= λ d.
      returned (record { evidence_id = i; content_digest = d }))
