-- ===== src/Kernel/StatusMoves.antt =====
-- How an accepted event of valp_cli/protocol_kernel.py moves the status of the task.
use visible_agent_loop_proto.Prelude.{true, false, some, none, ◌≡◌, refl, arith, List}
use visible_agent_loop_proto.Kernel.TaskStatuses.{TaskStatus}
use visible_agent_loop_proto.Kernel.EventKinds.{EventKind}
use visible_agent_loop_proto.Kernel.Identities.{Evidence}
use visible_agent_loop_proto.Kernel.States.{State}
use visible_agent_loop_proto.Kernel.Events.{Event}
use visible_agent_loop_proto.Kernel.Results.{Accepted, Result}
use visible_agent_loop_proto.Kernel.Words.{known}
use visible_agent_loop_proto.Kernel.Digests.{Sha256}
use visible_agent_loop_proto.Kernel.Outcomes.{Change, returned}
use visible_agent_loop_proto.Kernel.Transitions.{is_terminal, task_transition}
use visible_agent_loop_proto.Kernel.Acceptance.{accept}
use visible_agent_loop_proto.Kernel.Reduce.{reduce}
use visible_agent_loop_proto.Kernel.Inversion.{reduce-accepted}
use visible_agent_loop_proto.Kernel.BranchDecisions.{
  Decision, branch-Decision, interrupts, resumes, redirects, cancels, suspends, wakes, moves,
  proceeds,
}

-- The status stays, takes a transition of the table, or goes to fixing by a redirection of a task
-- that has not ended.
pub data StatusMove (kind : EventKind) (status target : TaskStatus) : Type 0 where
  stays : target ≡ status → StatusMove kind status target
  transits : task_transition status kind ≡ some target → StatusMove kind status target
  redirected :
      kind ≡ EventKind.redirect_authorized
      → is_terminal status ≡ false
      → target ≡ TaskStatus.fixing
      → StatusMove kind status target

some_inj_status : (s t : TaskStatus) → some s ≡ some t → t ≡ s
some_inj_status s t h = cc

Decision-StatusMove :
    (kind : EventKind) (status target : TaskStatus) (state : State) (event : Event) (c : Change)
    → c.target_status ≡ some target
    → Decision kind status state event c
    → StatusMove kind status target
Decision-StatusMove kind status target state event c h (interrupts k d) =
    stays (some_inj_status status target (rw d.target at h))
Decision-StatusMove kind status target state event c h (resumes k d) =
    stays (some_inj_status status target (rw d.target at h))
Decision-StatusMove kind status target state event c h (redirects k d) =
    redirected k d.open_task (some_inj_status TaskStatus.fixing target (rw d.target at h))
Decision-StatusMove kind status target state event c h (cancels k d) =
    transits (rw k (rw d.target at h))
Decision-StatusMove kind status target state event c h (suspends k d) =
    stays (some_inj_status status target (rw d.target at h))
Decision-StatusMove kind status target state event c h (wakes k d) =
    stays (some_inj_status status target (rw d.target at h))
Decision-StatusMove kind status target state event c h (moves d) =
    stays (some_inj_status status target (rw d.target at h))
Decision-StatusMove kind status target state event c h (proceeds d) = transits (rw d.target at h)

-- No row of the table starts from a status that ends the task.
terminal-no_transition :
    (s : TaskStatus) (k : EventKind) → is_terminal s ≡ true → task_transition s k ≡ none
unfolding task_transition
terminal-no_transition TaskStatus.done k h = ground arith
terminal-no_transition TaskStatus.failed k h = ground arith
terminal-no_transition TaskStatus.cancelled k h = ground arith
terminal-no_transition _ k h = cc

terminal-stays :
    (kind : EventKind) (status target : TaskStatus)
    → is_terminal status ≡ true
    → StatusMove kind status target
    → target ≡ status
terminal-stays kind status target t (stays e) = e
terminal-stays kind status target t (transits e) =
    cc (rw (terminal-no_transition status kind t) at e)
terminal-stays kind status target t (redirected k n e) = ground arith

module _ ⦃sha : Sha256⦄ where
  -- The kind of an accepted event, the status before it and the status after it make a move: the
  -- status stays, or takes a transition of the table, or a redirection sets a task that has not
  -- ended to fixing.
  pub reduce-StatusMove :
      (state : State) (event : Event) (evidence_set : List Evidence) (a : Accepted)
      → reduce state event evidence_set ≡ returned (Result.accepted a)
      → (kind : EventKind) × (status : TaskStatus) × (target : TaskStatus) × (event.kind
          ≡ known kind)
        × (state.status ≡ known status)
        × (a.state.status ≡ known target)
        × StatusMove kind status target
  unfolding accept
  reduce-StatusMove state event evidence_set a h =
      let x = reduce-accepted state event evidence_set a h in
      let c = x.fresh.concluded in
      (
        x.kind,
        x.status,
        c.target,
        x.kind_known,
        x.status_known,
        rw c.result refl,
        Decision-StatusMove x.kind x.status c.target state event x.fresh.change c.target_found
            (branch-Decision x.kind x.status state event x.fresh.change x.fresh.branch_changed),
      )

  -- The status of a task that has ended stays under every accepted event.
  pub reduce-terminal :
      (state : State) (event : Event) (evidence_set : List Evidence) (a : Accepted)
      (status : TaskStatus)
      → state.status ≡ known status
      → is_terminal status ≡ true
      → reduce state event evidence_set ≡ returned (Result.accepted a)
      → a.state.status ≡ known status
  reduce-terminal state event evidence_set a status e t h =
      let (kind, before, target, k, b, after, m) = reduce-StatusMove state event evidence_set a h in
      let same : before ≡ status = cc in
      let kept : target ≡ before = terminal-stays kind before target (rw same t) m in cc
