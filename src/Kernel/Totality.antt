-- ===== src/Kernel/Totality.antt =====
-- valp_cli/protocol_kernel.py: `reduce` returns a result on every input.
use visible_agent_loop_proto.Kernel.Reduce.{
  conclude, carry_out, reduce_new, look_up, reduce_known, reduce_words, reduce, inputs_are_valid,
  is_event, words_are_known, with_suspension, with_target,
}
use visible_agent_loop_proto.Kernel.Inversion.{new_identity-accepted}
use visible_agent_loop_proto.Kernel.Authority.{attempt_event_is_stale}
use visible_agent_loop_proto.Prelude.{
  String, Bool, true, false, not, Option, none, some, List, ◌≡◌, refl, ◌||◌, ◌&&◌, find, ◌==◌, ◌!=◌,
  not-false, string_eq, int_eq, option_eq, Bool-cases, inl, inr, if◌then◌else◌,
}
use visible_agent_loop_proto.Kernel.TaskStatuses.{TaskStatus, task_status_eq}
use visible_agent_loop_proto.Kernel.ControlWords.{ControlStatus, control_status_eq}
use visible_agent_loop_proto.Kernel.EventKinds.{EventKind}
use visible_agent_loop_proto.Kernel.Words.{Word, known, text}
use visible_agent_loop_proto.Kernel.Identities.{Evidence, identity_eq}
use visible_agent_loop_proto.Kernel.States.{State, Suspension, AcceptedEvent}
use visible_agent_loop_proto.Kernel.Events.{Event}
use visible_agent_loop_proto.Kernel.Results.{Result}
use visible_agent_loop_proto.Kernel.Digests.{Sha256, input_digest}
use visible_agent_loop_proto.Kernel.Outcomes.{
  Outcome, returned, raised, Change, Branch, conflict, changed, fails,
}
use visible_agent_loop_proto.Kernel.ControlEvents.{current_control}
use visible_agent_loop_proto.Kernel.Branches.{branch, passes_interrupt, settled}
use visible_agent_loop_proto.Kernel.Acceptance.{reject, refused}
use visible_agent_loop_proto.Kernel.Facts.{parts_of_inputs, parts_of_state, principal_present}
use visible_agent_loop_proto.Kernel.BranchTotality.{NeverFails, branch-NeverFails}

-- `reduce` returns a result, and one that is not accepted carries the state it was given.
abbrev pub Settles : State → Outcome Result → Type 0
Settles state (returned (Result.accepted a)) = Unit
Settles state (returned (Result.no_op n)) = n.state ≡ state
Settles state (returned (Result.rejected r)) = r.state ≡ state
Settles state (raised x) = ⊥

module _ ⦃sha : Sha256⦄ where
  with_suspension-Settles :
      (state : State) (event : Event) (d : String) (target : TaskStatus) (change : Change)
      (o : Option (Option Suspension))
      → Settles state (with_suspension state event d target change o)
  unfolding reject
  with_suspension-Settles state event d target change none = refl
  with_suspension-Settles state event d target change (some s) = rw (new_identity-accepted event) tt

  with_target-Settles :
      (kind : EventKind) (status : TaskStatus) (state : State) (event : Event) (d : String)
      (change : Change) (o : Option TaskStatus)
      → Settles state (with_target kind status state event d change o)
  unfolding reject
  with_target-Settles kind status state event d change none = refl
  with_target-Settles kind status state event d change (some target) =
      with_suspension-Settles state event d target change
        (settled kind (target != status) change.suspension)

  conclude-Settles :
      (kind : EventKind) (status : TaskStatus) (state : State) (event : Event) (d : String)
      (change : Change)
      → Settles state (conclude kind status state event d change)
  unfolding conclude
  conclude-Settles kind status state event d change =
      with_target-Settles kind status state event d change change.target_status

  carry_out-Settles :
      (kind : EventKind) (status : TaskStatus) (state : State) (event : Event) (d : String)
      (b : Branch)
      → NeverFails b
      → Settles state (carry_out kind status state event d b)
  unfolding reject
  carry_out-Settles kind status state event d conflict n = refl
  carry_out-Settles kind status state event d (changed c) n =
      conclude-Settles kind status state event d c
  carry_out-Settles kind status state event d (fails x) n = n

  refused_or :
      (b : Bool) (state : State) (d : String) (rest : Outcome Result)
      → (b ≡ false → Settles state rest)
      → Settles state (if b then refused state d else rest)
  unfolding reject
  refused_or true state d rest h = refl
  refused_or false state d rest h = h refl

  look_up-Settles :
      (kind : EventKind) (status : TaskStatus) (state : State) (event : Event) (d : String)
      (o : Option AcceptedEvent)
      → NeverFails (branch kind status state event)
      → Settles state (look_up kind status state event d o)
  unfolding reduce_new reject
  look_up-Settles kind status state event d none n =
      refused_or (event.task_id != state.task_id || event.expected_revision != state.revision) state
        d _
        (λ _.
          refused_or
            ((current_control state.control).status == ControlStatus.interrupted
              && not (passes_interrupt kind))
            state d _
            (λ _. carry_out-Settles kind status state event d (branch kind status state event) n))
  look_up-Settles kind status state event d (some prior) n =
      elim (Bool-cases (prior.input_digest == d)) [ inl e ↦ rw e refl | inr e ↦ rw e refl ]

  reduce_known-Settles :
      (kind : EventKind) (status : TaskStatus) (state : State) (event : Event)
      (evidence_set : List Evidence) (d : String)
      → Settles state (reduce_known kind status state event evidence_set d)
  unfolding reduce_known
  reduce_known-Settles kind status state event evidence_set d =
      refused_or (not (inputs_are_valid kind state event evidence_set)) state d _ λ v.
        refused_or (attempt_event_is_stale kind state event) state d _ λ _.
          let p = parts_of_inputs kind state event evidence_set (not-false _ v) in
          look_up-Settles kind status state event d (find (is_event event) state.accepted_events) (
            branch-NeverFails status state event (parts_of_state state p.state_valid).control_valid
              kind (principal_present kind event evidence_set p.authority))

  reduce_words-Settles :
      (k : Word EventKind) (s : Word TaskStatus) (state : State) (event : Event)
      (evidence_set : List Evidence) (d : String)
      → Settles state (reduce_words k s state event evidence_set d)
  unfolding reject
  reduce_words-Settles (known k) (known s) state event evidence_set d =
      elim (Bool-cases (words_are_known event)) [
        | inl e ↦ rw e (reduce_known-Settles k s state event evidence_set d)
        | inr e ↦ rw e refl
      ]
  reduce_words-Settles (known k) (text s) state event evidence_set d = refl
  reduce_words-Settles (text k) s state event evidence_set d = refl

  -- On every input `reduce` returns a result and raises no exception; a result that is rejected or
  -- no operation carries the state it was given, unchanged.
  pub reduce-Settles :
      (state : State) (event : Event) (evidence_set : List Evidence)
      → Settles state (reduce state event evidence_set)
  unfolding reduce
  reduce-Settles state event evidence_set =
      reduce_words-Settles event.kind state.status state event evidence_set
        (input_digest state event evidence_set)
