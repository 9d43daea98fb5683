-- ===== src/Kernel/Invariant.antt =====
-- The well-formedness of a state of valp_cli/protocol_kernel.py, and that `reduce` keeps it.
use visible_agent_loop_proto.Kernel.SoundChanges.{SoundChange, Decision-SoundChange}
use visible_agent_loop_proto.Kernel.BranchDecisions.{branch-Decision}
use visible_agent_loop_proto.Kernel.Acceptance.{accept, accepted_result_digest}
use visible_agent_loop_proto.Kernel.Outcomes.{Change, returned}
use visible_agent_loop_proto.Kernel.Results.{Accepted, Result}
use visible_agent_loop_proto.Kernel.Inversion.{accepted_identity, reduce-accepted}
use mathlib.Core.List.{map-append, List}
use visible_agent_loop_proto.Kernel.Digests.{Sha256, is_digest, input_digest}
use visible_agent_loop_proto.Kernel.Events.{Event}
use visible_agent_loop_proto.Kernel.Reduce.{is_event, reduce}
use visible_agent_loop_proto.Prelude.{
  pos, Bool, true, Option, none, some, [], ◌∷◌, ◌++◌, ◌≡◌, refl, all, length, arith, ◌==◌, ◌!=◌,
  add_one, length-append, int_eq, string_eq, list_eq, suc, eq_sound, find, is_distinct-append,
  all-append, eq_refl, is_distinct, String,
}
use visible_agent_loop_proto.Kernel.IdentityKinds.{identity_kind_eq, IdentityKind}
use visible_agent_loop_proto.Kernel.TaskStatuses.{TaskStatus, task_status_eq}
use visible_agent_loop_proto.Kernel.ControlWords.{suspension_status_eq}
use visible_agent_loop_proto.Kernel.EventKinds.{EventKind}
use visible_agent_loop_proto.Kernel.Words.{known}
use visible_agent_loop_proto.Kernel.Identities.{identity_eq, Evidence, Identity}
use visible_agent_loop_proto.Kernel.States.{Suspension, AcceptedEvent, State}
use visible_agent_loop_proto.Kernel.Validity.{
  absent_or, state_is_valid, accepted_event_is_valid, of_kind, event_ids, result_ids,
  event_header_is_valid,
}
use visible_agent_loop_proto.Kernel.Branches.{settled}
use visible_agent_loop_proto.Kernel.Facts.{
  HeaderParts, StateParts, parts_of_state, state_of_parts, header_of_parts, parts_of_header,
  parts_of_inputs, parts_of_event,
}
use visible_agent_loop_proto.Kernel.ResultIdentities.{
  names_result, find-is_event-event_ids, event_ids-result_ids, digest-is_digest,
}

-- A state that the kernel accepts, whose history has the result identities that the kernel gives.
pub record WellFormed (state : State) : Type 0 where
  pub valid : state_is_valid state ≡ true
  pub results_named : all names_result state.accepted_events ≡ true

-- A suspension that is kept keeps the status too.
settled-kept :
    (kind : EventKind) (status target : TaskStatus) (p : Suspension → Bool)
    (o s : Option Suspension)
    → settled kind (target != status) o ≡ some s
    → absent_or p o ≡ true
    → absent_or (λ _. status == TaskStatus.executing) o ≡ true
    → (absent_or p s ≡ true) × (absent_or (λ _. target == TaskStatus.executing) s ≡ true)
settled-kept kind status target p none s h v e = (cc, cc)
settled-kept kind status target p (some x) s h v e =
    ground (arith, task_status_eq.beq_iff target status)

-- The header of the next state.
header-valid :
    (state next : State) (target : TaskStatus) (entry : AcceptedEvent)
    → HeaderParts state
    → next.protocol_version ≡ state.protocol_version
    → next.installation_id ≡ state.installation_id
    → next.task_id ≡ state.task_id
    → next.leader_epoch ≡ state.leader_epoch
    → next.revision ≡ add_one state.revision
    → next.status ≡ known target
    → next.accepted_events ≡ state.accepted_events ++ entry ∷ []
    → HeaderParts next
header-valid state next target entry p v i t l r s a =
    let n : (state.revision == pos (length state.accepted_events)) ≡ true = p.revision_counts in
    let m : state.revision ≡ pos (length state.accepted_events) = eq_sound _ _ n in
    let k : next.revision ≡ pos (suc (length state.accepted_events)) = rw m at r in
    record {
      version = rw v p.version;
      installation = rw i p.installation;
      task = rw t p.task;
      epoch = rw l p.epoch;
      revision_natural = rw k refl;
      status_known = rw s refl;
      revision_counts =
          rw k (rw a (ground (arith, length-append state.accepted_events (entry ∷ []))));
      first_published = rw k (ground arith);
    }

module _ ⦃sha : Sha256⦄ where
  -- The history of the next state is valid, distinct, and named as the kernel names results.
  history-valid :
      (state : State) (event : Event) (evidence_set : List Evidence) (entry : AcceptedEvent)
      → StateParts state
      → all names_result state.accepted_events ≡ true
      → of_kind IdentityKind.event event.event_id ≡ true
      → find (is_event event) state.accepted_events ≡ none
      → entry.event_id ≡ event.event_id
      → entry.result_id ≡ accepted_identity event
      → is_digest entry.input_digest ≡ true
      → is_digest entry.result_digest ≡ true
      → let xs = state.accepted_events ++ entry ∷ [] in
        (all accepted_event_is_valid xs ≡ true)
        × (all names_result xs ≡ true)
        × (is_distinct (event_ids xs) ≡ true)
        × (is_distinct (result_ids xs) ≡ true)
  unfolding all accepted_event_is_valid
  history-valid state event evidence_set entry p n k f e r i o =
      let g = find-is_event-event_ids event state.accepted_events f in
      let q = event_ids-result_ids event.event_id state.accepted_events k p.events_valid n g in
      (
        all-append accepted_event_is_valid state.accepted_events (entry ∷ []) p.events_valid
            (rw e (rw r (ground arith))),
        all-append names_result state.accepted_events (entry ∷ []) n
            (rw e (rw r (ground (arith, eq_refl (accepted_identity event))))),
        rw (map-append (λ (x : AcceptedEvent). x.event_id) state.accepted_events (entry ∷ [])) (
            rw e (
              is_distinct-append (event_ids state.accepted_events) event.event_id p.events_distinct
                g)),
        rw (map-append (λ (x : AcceptedEvent). x.result_id) state.accepted_events (entry ∷ [])) (
            rw r (
              is_distinct-append (result_ids state.accepted_events) (accepted_identity event)
                p.results_distinct q)),
      )

  result_digest-is_digest :
      (result_id event_id : Identity) (prior next : State) (d : String)
      (obligations facts : List String)
      → is_digest (accepted_result_digest result_id event_id prior next d obligations facts) ≡ true
  unfolding accepted_result_digest
  result_digest-is_digest result_id event_id prior next d obligations facts = digest-is_digest _

  -- The parts of the state that `accept` builds, from those of the change and of the history.
  accept-StateParts :
      (kind : EventKind) (status target : TaskStatus) (state : State) (event : Event)
      (evidence_set : List Evidence) (c : Change) (s : Option Suspension)
      → WellFormed state
      → of_kind IdentityKind.event event.event_id ≡ true
      → find (is_event event) state.accepted_events ≡ none
      → SoundChange status state c
      → settled kind (target != status) c.suspension ≡ some s
      → WellFormed
          (accept state event
            (input_digest state event evidence_set)
            target
            c
            s
            (accepted_identity event)).state
  unfolding accept input_digest
  accept-StateParts kind status target state event evidence_set c s w k f d h =
      let p = parts_of_state state w.valid in
      let a =
        accept state event (input_digest state event evidence_set) target c s
          (accepted_identity event) in
      let entry : AcceptedEvent = record {
        event_id = event.event_id;
        result_id = accepted_identity event;
        input_digest = input_digest state event evidence_set;
        result_digest = a.result_digest;
      } in
      let (v, n, e, r) =
        history-valid state event evidence_set entry p w.results_named k f refl refl
          (digest-is_digest _) (result_digest-is_digest _ _ _ _ _ _ _) in
      let (sv, se) =
        settled-kept kind status target _ c.suspension s h d.suspension_valid
          d.suspended_executing in
      record {
        valid = state_of_parts a.state (record {
          header = header_of_parts a.state (
              header-valid state a.state target entry (parts_of_header state p.header) refl refl
                refl refl refl refl refl);
          events_valid = v;
          items_valid = d.items_valid;
          suspended_executing = se;
          suspension_valid = rw d.ids_kept sv;
          control_valid = d.control_valid;
          events_distinct = e;
          results_distinct = r;
          items_distinct = rw d.ids_kept p.items_distinct;
        });
        results_named = n;
      }

  -- A state that is well formed gives, by every accepted event, a state that is well formed.
  pub reduce-WellFormed :
      (state : State) (event : Event) (evidence_set : List Evidence) (a : Accepted)
      → WellFormed state
      → reduce state event evidence_set ≡ returned (Result.accepted a)
      → WellFormed a.state
  unfolding event_header_is_valid
  reduce-WellFormed state event evidence_set a w h =
      let x = reduce-accepted state event evidence_set a h in
      let c = x.fresh.concluded in
      let p = parts_of_state state w.valid in
      let e =
        parts_of_event event
          (parts_of_inputs x.kind state event evidence_set x.valid).event_valid in
      let d =
        Decision-SoundChange x.kind x.status state event x.fresh.change x.status_known p
          (parts_of_header state p.header).task e
          (branch-Decision x.kind x.status state event x.fresh.change x.fresh.branch_changed) in
      rw c.result (
        accept-StateParts x.kind x.status c.target state event evidence_set x.fresh.change
          c.suspension w (ground (arith, e.header)) x.is_new d c.suspension_settled)
