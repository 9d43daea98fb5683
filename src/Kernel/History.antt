-- ===== src/Kernel/History.antt =====
-- What every result of `reduce` of valp_cli/protocol_kernel.py says about the state.
use visible_agent_loop_proto.Prelude.{Option, List, [], ◌∷◌, ◌++◌, ◌≡◌, refl, add_one, string_eq}
use visible_agent_loop_proto.Kernel.TaskStatuses.{TaskStatus, task_status_eq}
use visible_agent_loop_proto.Kernel.Identities.{Evidence}
use visible_agent_loop_proto.Kernel.States.{Suspension, AcceptedEvent, State}
use visible_agent_loop_proto.Kernel.Events.{Event}
use visible_agent_loop_proto.Kernel.Results.{Accepted, Result}
use visible_agent_loop_proto.Kernel.Digests.{Sha256, input_digest}
use visible_agent_loop_proto.Kernel.Outcomes.{returned, Change}
use visible_agent_loop_proto.Kernel.Acceptance.{accept}
use visible_agent_loop_proto.Kernel.Reduce.{reduce}
use visible_agent_loop_proto.Kernel.Inversion.{accepted_identity, reduce-accepted}

-- The entry that an accepted event leaves in the history.
abbrev pub history_entry : Event → Accepted → AcceptedEvent
history_entry event a = record {
  event_id = event.event_id;
  result_id = a.result_id;
  input_digest = a.input_digest;
  result_digest = a.result_digest;
}

module _ ⦃sha : Sha256⦄ where
  -- What stays, and what grows, when an event is accepted.
  pub record Advances (state : State) (event : Event) (evidence_set : List Evidence) (a : Accepted)
      : Type 0 where
    pub expected : event.expected_revision ≡ state.revision
    pub revision : a.state.revision ≡ add_one state.revision
    pub history : a.state.accepted_events ≡ state.accepted_events ++ history_entry event a ∷ []
    pub input : a.input_digest ≡ input_digest state event evidence_set
    pub identity : a.result_id ≡ accepted_identity event
    pub version : a.state.protocol_version ≡ state.protocol_version
    pub installation : a.state.installation_id ≡ state.installation_id
    pub epoch : a.state.leader_epoch ≡ state.leader_epoch
    pub task : a.state.task_id ≡ state.task_id

  Advances-of :
      (state : State) (event : Event) (evidence_set : List Evidence) (target : TaskStatus)
      (change : Change) (s : Option Suspension) (a : Accepted)
      → event.expected_revision ≡ state.revision
      → a
        ≡ accept state event
            (input_digest state event evidence_set)
            target
            change
            s
            (accepted_identity event)
      → Advances state event evidence_set a
  unfolding accept
  Advances-of state event evidence_set target change s a r e = rw e (record {
    expected = r;
    revision = refl;
    history = refl;
    input = refl;
    identity = refl;
    version = refl;
    installation = refl;
    epoch = refl;
    task = refl;
  })

  -- An accepted event names the current revision. The next state has the revision after it and the
  -- event at the end of the history, under the result's identity and digests; the version, the
  -- installation, the epoch and the task stay.
  pub reduce-Advances :
      (state : State) (event : Event) (evidence_set : List Evidence) (a : Accepted)
      → reduce state event evidence_set ≡ returned (Result.accepted a)
      → Advances state event evidence_set a
  reduce-Advances state event evidence_set a h =
      let x = reduce-accepted state event evidence_set a h in
      let c = x.fresh.concluded in
      Advances-of state event evidence_set c.target x.fresh.change c.suspension a
        x.fresh.same_revision c.result
