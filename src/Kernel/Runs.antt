-- ===== src/Kernel/Runs.antt =====
-- Runs of valp_cli/protocol_kernel.py: what holds along any sequence of accepted events, and the
-- replays, which are runs.
use mathlib.Core.List.{append-nil, append_assoc}
use visible_agent_loop_proto.Prelude.{List, [], ◌∷◌, ◌++◌, ◌≡◌, true, sym}
use visible_agent_loop_proto.Kernel.TaskStatuses.{TaskStatus}
use visible_agent_loop_proto.Kernel.Identities.{Evidence}
use visible_agent_loop_proto.Kernel.States.{State, AcceptedEvent}
use visible_agent_loop_proto.Kernel.Events.{Event}
use visible_agent_loop_proto.Kernel.Words.{known}
use visible_agent_loop_proto.Kernel.Results.{Accepted, Result}
use visible_agent_loop_proto.Kernel.Digests.{Sha256}
use visible_agent_loop_proto.Kernel.Outcomes.{returned}
use visible_agent_loop_proto.Kernel.Transitions.{is_terminal}
use visible_agent_loop_proto.Kernel.Reduce.{reduce}
use visible_agent_loop_proto.Kernel.Invariant.{WellFormed, reduce-WellFormed}
use visible_agent_loop_proto.Kernel.History.{reduce-Advances, history_entry}
use visible_agent_loop_proto.Kernel.StatusMoves.{reduce-terminal}

module _ ⦃sha : Sha256⦄ where
  -- A sequence of accepted events from one state to another.
  pub data Run : State → State → Type 0 where
    ends : {s : State} → Run s s
    steps :
        {s t : State} (event : Event) (evidence_set : List Evidence) (a : Accepted)
        → reduce s event evidence_set ≡ returned (Result.accepted a)
        → Run a.state t
        → Run s t

  -- Every state that a run reaches from a state that is well formed is well formed.
  pub Run-WellFormed : {s t : State} → Run s t → WellFormed s → WellFormed t
  Run-WellFormed ends w = w
  Run-WellFormed (steps {s} event evidence_set a h r) w =
      Run-WellFormed r (reduce-WellFormed s event evidence_set a w h)

  -- A run only appends to the history: the events that were accepted stay, in their order.
  pub Run-history :
      {s t : State}
      → Run s t
      → (later : List AcceptedEvent) × (t.accepted_events ≡ s.accepted_events ++ later)
  Run-history {s} ends = ([], sym (append-nil s.accepted_events))
  Run-history {s} {t} (steps event evidence_set a h r) =
      let (later, e) = Run-history r in
      let d = reduce-Advances s event evidence_set a h in
      (
        history_entry event a ∷ later,
        rw (← append_assoc s.accepted_events (history_entry event a ∷ []) later)
            (rw (← d.history) e),
      )

  -- A run does not change the status of a task that has ended.
  pub Run-terminal :
      {s t : State} (status : TaskStatus)
      → Run s t
      → s.status ≡ known status
      → is_terminal status ≡ true
      → t.status ≡ known status
  Run-terminal status ends e k = e
  Run-terminal status (steps {s} event evidence_set a h r) e k =
      Run-terminal status r (reduce-terminal s event evidence_set a status e k h) k
