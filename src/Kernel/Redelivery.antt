-- ===== src/Kernel/Redelivery.antt =====
-- The second delivery of an event to `reduce` of valp_cli/protocol_kernel.py.
use visible_agent_loop_proto.Prelude.{
  List, ◌≡◌, refl, true, false, some, arith, ◌==◌, find, find-none-append, string_eq, eq_refl,
  int_eq, String,
}
use visible_agent_loop_proto.Kernel.TaskStatuses.{TaskStatus}
use visible_agent_loop_proto.Kernel.EventKinds.{EventKind}
use visible_agent_loop_proto.Kernel.Identities.{Evidence, identity_eq}
use visible_agent_loop_proto.Kernel.States.{State, AcceptedEvent}
use visible_agent_loop_proto.Kernel.Events.{Event}
use visible_agent_loop_proto.Kernel.Words.{known, Word}
use visible_agent_loop_proto.Kernel.Results.{Accepted, Result}
use visible_agent_loop_proto.Kernel.Digests.{Sha256, input_digest}
use visible_agent_loop_proto.Kernel.Outcomes.{returned}
use visible_agent_loop_proto.Kernel.Validity.{
  state_is_valid, event_is_valid, wait_fields_are_valid, control_fields_are_valid,
}
use visible_agent_loop_proto.Kernel.Authority.{attempt_event_is_stale, is_attempt_scoped}
use visible_agent_loop_proto.Kernel.Reduce.{
  reduce, reduce_known, is_event, inputs_are_valid, words_are_known, repeated, reduce_words,
}
use visible_agent_loop_proto.Kernel.Facts.{InputParts, parts_of_inputs, parts_of_event}
use visible_agent_loop_proto.Kernel.Inversion.{reduce-accepted}
use visible_agent_loop_proto.Kernel.Invariant.{WellFormed, reduce-WellFormed}
use visible_agent_loop_proto.Kernel.History.{reduce-Advances, history_entry}
use visible_agent_loop_proto.Kernel.StatusMoves.{reduce-StatusMove}

words_known_of : (event : Event) → event_is_valid event ≡ true → words_are_known event ≡ true
unfolding wait_fields_are_valid control_fields_are_valid
words_known_of event h = let p = parts_of_event event h in ground (arith, p.wait, p.control)

not_scoped-fresh :
    (kind : EventKind) (state : State) (event : Event)
    → is_attempt_scoped kind ≡ false
    → attempt_event_is_stale kind state event ≡ false
unfolding attempt_event_is_stale
not_scoped-fresh kind state event h = rw h refl

-- The checks on the inputs hold in another state of the same installation and epoch.
moved_inputs :
    (kind : EventKind) (state next : State) (event : Event) (evidence_set : List Evidence)
    → InputParts kind state event evidence_set
    → state_is_valid next ≡ true
    → next.installation_id ≡ state.installation_id
    → next.leader_epoch ≡ state.leader_epoch
    → inputs_are_valid kind next event evidence_set ≡ true
unfolding inputs_are_valid
moved_inputs kind state next event evidence_set p v i e =
    let a : (event.installation_id == next.installation_id) ≡ true = rw i p.same_installation in
    let b : (event.leader_epoch == next.leader_epoch) ≡ true = rw e p.same_epoch in
    ground (arith, p.event_valid, p.evidence_valid, p.authority)

module _ ⦃sha : Sha256⦄ where
  repeated_known :
      (kind : EventKind) (status : TaskStatus) (state : State) (event : Event)
      (evidence_set : List Evidence) (d : String) (prior : AcceptedEvent)
      → inputs_are_valid kind state event evidence_set ≡ true
      → attempt_event_is_stale kind state event ≡ false
      → find (is_event event) state.accepted_events ≡ some prior
      → reduce_known kind status state event evidence_set d ≡ repeated state d prior
  unfolding reduce_known
  repeated_known kind status state event evidence_set d prior v q f = rw v (rw q (rw f refl))

  repeated_words :
      (kw : Word EventKind) (sw : Word TaskStatus) (kind : EventKind) (status : TaskStatus)
      (state : State) (event : Event) (evidence_set : List Evidence) (d : String)
      (prior : AcceptedEvent)
      → kw ≡ known kind
      → sw ≡ known status
      → inputs_are_valid kind state event evidence_set ≡ true
      → words_are_known event ≡ true
      → attempt_event_is_stale kind state event ≡ false
      → find (is_event event) state.accepted_events ≡ some prior
      → reduce_words kw sw state event evidence_set d ≡ repeated state d prior
  repeated_words kw sw kind status state event evidence_set d prior k s v w q f =
      rw k (rw s (rw w (repeated_known kind status state event evidence_set d prior v q f)))

  -- An event that passes the checks and is found in the history gives the outcome for repeated ones.
  reduce-repeated :
      (kind : EventKind) (status : TaskStatus) (state : State) (event : Event)
      (evidence_set : List Evidence) (prior : AcceptedEvent)
      → event.kind ≡ known kind
      → state.status ≡ known status
      → inputs_are_valid kind state event evidence_set ≡ true
      → words_are_known event ≡ true
      → attempt_event_is_stale kind state event ≡ false
      → find (is_event event) state.accepted_events ≡ some prior
      → reduce state event evidence_set
        ≡ repeated state (input_digest state event evidence_set) prior
  unfolding reduce
  reduce-repeated kind status state event evidence_set prior k s v w q f =
      repeated_words event.kind state.status kind status state event evidence_set
        (input_digest state event evidence_set) prior k s v w q f

  -- An event about no attempt that was accepted in a state that is well formed is, delivered again
  -- with the same evidence to the next state, no operation: the result carries that state, and the
  -- identity and the digests of the accepted result.
  pub reduce-redelivered :
      (state : State) (event : Event) (evidence_set : List Evidence) (a : Accepted)
      (kind : EventKind)
      → WellFormed state
      → event.kind ≡ known kind
      → is_attempt_scoped kind ≡ false
      → reduce state event evidence_set ≡ returned (Result.accepted a)
      → reduce a.state event evidence_set
        ≡ returned (
            Result.no_op (record {
              state = a.state;
              input_digest = a.input_digest;
              prior_result_id = a.result_id;
              prior_result_digest = a.result_digest;
            }))
  unfolding input_digest
  reduce-redelivered state event evidence_set a kind w k n h =
      let x = reduce-accepted state event evidence_set a h in
      let d = reduce-Advances state event evidence_set a h in
      let (k', s, target, e, _, t, _) = reduce-StatusMove state event evidence_set a h in
      let q : x.kind ≡ kind = ground (arith, x.kind_known) in
      let p = parts_of_inputs kind state event evidence_set (rw q at x.valid) in
      let v =
        moved_inputs kind state a.state event evidence_set p
          (reduce-WellFormed state event evidence_set a w h).valid d.installation d.epoch in
      let f : find (is_event event) a.state.accepted_events ≡ some (history_entry event a) =
        rw d.history (
          find-none-append (is_event event) state.accepted_events (history_entry event a) x.is_new
            (eq_refl event.event_id)) in
      let i : input_digest a.state event evidence_set ≡ a.input_digest =
        rw d.version (rw d.input refl) in
      let r =
        reduce-repeated kind target a.state event evidence_set (history_entry event a) k t v
          (words_known_of event p.event_valid) (not_scoped-fresh kind a.state event n) f in
      rw (rw i at r) (rw (eq_refl a.input_digest) refl)
