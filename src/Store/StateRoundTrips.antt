-- ===== src/Store/StateRoundTrips.antt =====
-- The decoders of valp_cli/kernel_store.py undo the canonical forms of suspensions, controls and states.
use visible_agent_loop_proto.Kernel.WorkItems.{work_item_canonical}
use visible_agent_loop_proto.Kernel.Words.{Word, known, text, is_known, word_value}
use visible_agent_loop_proto.Kernel.TaskStatuses.{TaskStatus, task_status_value}
use visible_agent_loop_proto.Store.Members.{
  suspension_status_of-suspension_status_value, wake_reason_of, wake_reason_of-wake_reason_value,
  task_status_of-task_status_value, control_status_of-control_status_value,
}
use visible_agent_loop_proto.Store.PartRoundTrips.{
  identity_from-identity_canonical, work_item_from-work_item_canonical,
  accepted_event_from-accepted_event_canonical,
}
use visible_agent_loop_proto.Kernel.Outcomes.{returned}
use visible_agent_loop_proto.Store.Readable.{
  ReadableSuspension, Named, ReadableState, ReadableControl, ReadableItem, ReadableAcceptedEvent,
}
use visible_agent_loop_proto.Store.StateDecoders.{
  suspension_from, suspension_required, suspension_optional, identity_from, state_from,
  state_required, state_optional, control_from, control_required, control_optional, work_item_from,
  accepted_event_from,
}
use visible_agent_loop_proto.Prelude.{
  String, true, Option, none, some, List, [], ◌∷◌, ◌++◌, ◌≡◌, refl, map, all, string_eq, is_subset,
  contains,
}
use visible_agent_loop_proto.Json.{Json, str, int, items}
use visible_agent_loop_proto.Kernel.IdentityKinds.{IdentityKind}
use visible_agent_loop_proto.Kernel.ControlWords.{
  suspension_status_value, wake_reason_value, WakeReason, control_status_value,
}
use visible_agent_loop_proto.Kernel.Identities.{identity_canonical}
use visible_agent_loop_proto.Kernel.States.{
  Suspension, suspension_canonical, when_present, State, state_canonical, ControlState,
  control_state_canonical, accepted_event_canonical, when_nonempty,
}
use visible_agent_loop_proto.Store.Shapes.{word_of}
use visible_agent_loop_proto.Store.ShapeLemmas.{
  reads, shape-fields, key_rules, all_keys, each-map, given-map, Given,
  array_or_empty-array_or_none,
}

abbrev suspension_base : Suspension → List (String × Json)
suspension_base s =
    ("task_id", identity_canonical s.task_id)
    ∷ ("suspension_id", identity_canonical s.suspension_id)
    ∷ ("suspension_epoch", int s.suspension_epoch)
    ∷ ("status", str (suspension_status_value s.status))
    ∷ ("wait_policy_id", identity_canonical s.wait_policy_id)
    ∷ ("wait_policy_digest", str s.wait_policy_digest)
    ∷ ("required_work_item_ids", items (map identity_canonical s.required_work_item_ids))
    ∷ []

abbrev suspension_members : Suspension → List (String × Json)
suspension_members s =
    suspension_base s
    ++ when_present "accepted_wake_id" identity_canonical s.accepted_wake_id
    ++ when_present "wake_reason" (λ r. str (wake_reason_value r)) s.wake_reason

given_any : {A : Type 0} (o : Option A) → Given (λ _. Unit {0}) o
given_any none = tt
given_any (some a) = tt

word_of-wake_reason_value :
    (r : WakeReason) → Unit {0} → word_of wake_reason_of (str (wake_reason_value r)) ≡ returned r
word_of-wake_reason_value r u = rw (wake_reason_of-wake_reason_value r) refl

suspension_keys :
    (s : Suspension)
    → all_keys (contains (suspension_required ++ suspension_optional)) (
        when_present "accepted_wake_id" identity_canonical s.accepted_wake_id
        ++ when_present "wake_reason" (λ r. str (wake_reason_value r)) s.wake_reason)
      ≡ true
unfolding contains
suspension_keys s = simp key_rules refl

pub suspension_from-suspension_canonical :
    (s : Suspension) → ReadableSuspension s → suspension_from (suspension_canonical s) ≡ returned s
unfolding suspension_from suspension_canonical is_subset all contains
suspension_from-suspension_canonical s n =
    rw
      (shape-fields (suspension_members s) suspension_required suspension_optional refl
        (suspension_keys s))
      (simp reads (
        rw (identity_from-identity_canonical IdentityKind.task s.task_id n.task) (
          rw (identity_from-identity_canonical IdentityKind.suspension s.suspension_id n.suspension)
            (rw (suspension_status_of-suspension_status_value s.status) (
              rw
                (identity_from-identity_canonical IdentityKind.wait_policy s.wait_policy_id
                  n.policy)
                (rw
                  (each-map (Named IdentityKind.work_item) (identity_from IdentityKind.work_item)
                    identity_canonical s.required_work_item_ids
                    (identity_from-identity_canonical IdentityKind.work_item) n.required)
                  (rw
                    (given-map (Named IdentityKind.wake) (identity_from IdentityKind.wake)
                      identity_canonical s.accepted_wake_id
                      (identity_from-identity_canonical IdentityKind.wake) n.wake)
                    (rw
                      (given-map (λ _. Unit) (word_of wake_reason_of)
                        (λ r. str (wake_reason_value r)) s.wake_reason word_of-wake_reason_value
                        (given_any s.wake_reason))
                      refl))))))))

control_keys :
    (c : ControlState)
    → all_keys
        (contains (control_required ++ control_optional))
        (when_present "active_interrupt_id" identity_canonical c.active_interrupt_id)
      ≡ true
unfolding contains
control_keys c = simp key_rules refl

pub control_from-control_state_canonical :
    (c : ControlState) → ReadableControl c → control_from (control_state_canonical c) ≡ returned c
unfolding control_from control_state_canonical is_subset all contains
control_from-control_state_canonical c n =
    rw
      (shape-fields
        (("intent_version", int c.intent_version)
          ∷ ("status", str (control_status_value c.status))
          ∷ when_present "active_interrupt_id" identity_canonical c.active_interrupt_id)
        control_required control_optional refl (control_keys c))
      (simp reads (
        rw (control_status_of-control_status_value c.status) (
          rw
            (given-map (Named IdentityKind.interrupt) (identity_from IdentityKind.interrupt)
              identity_canonical c.active_interrupt_id
              (identity_from-identity_canonical IdentityKind.interrupt) n)
            refl)))

-- The members of a state that may be left out.
abbrev state_rest : State → List (String × Json)
state_rest s =
    when_nonempty "work_items" work_item_canonical s.work_items
    ++ when_present "suspension" suspension_canonical s.suspension
    ++ when_present "control" control_state_canonical s.control

abbrev state_members : State → List (String × Json)
state_members s =
    ("schema_version", str "valp-kernel-state.v1")
    ∷ ("protocol_version", str s.protocol_version)
    ∷ ("installation_id", identity_canonical s.installation_id)
    ∷ ("leader_epoch", int s.leader_epoch)
    ∷ ("task_id", identity_canonical s.task_id)
    ∷ ("revision", int s.revision)
    ∷ ("status", str (word_value task_status_value s.status))
    ∷ ("accepted_events", items (map accepted_event_canonical s.accepted_events))
    ∷ state_rest s

state_keys :
    (s : State) → all_keys (contains (state_required ++ state_optional)) (state_rest s) ≡ true
unfolding contains
state_keys s = simp key_rules refl

known_status : (w : Word TaskStatus) → is_known w ≡ true → (m : TaskStatus) × (w ≡ known m)
known_status (known m) h = (m, refl)
known_status (text s) h = cc

pub state_from-state_canonical :
    (s : State) → ReadableState s → state_from (state_canonical s) ≡ returned s
unfolding state_from state_canonical is_subset all contains
state_from-state_canonical s n =
    let (m, e) = known_status s.status n.status in
    rw (shape-fields (state_members s) state_required state_optional refl (state_keys s)) (
      simp reads (
        rw
          (identity_from-identity_canonical IdentityKind.installation s.installation_id
            n.installation)
          (rw (identity_from-identity_canonical IdentityKind.task s.task_id n.task) (
            rw e (
              rw (task_status_of-task_status_value m) (
                rw
                  (each-map ReadableAcceptedEvent accepted_event_from accepted_event_canonical
                    s.accepted_events accepted_event_from-accepted_event_canonical n.events)
                  (rw
                    (array_or_empty-array_or_none ReadableItem work_item_from work_item_canonical
                      s.work_items work_item_from-work_item_canonical n.items)
                    (rw
                      (given-map ReadableSuspension suspension_from suspension_canonical
                        s.suspension suspension_from-suspension_canonical n.suspension)
                      (rw
                        (given-map ReadableControl control_from control_state_canonical s.control
                          control_from-control_state_canonical n.control)
                        refl)))))))))
