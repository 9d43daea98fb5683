-- ===== src/Kernel/Controls.antt =====
-- The control of a task in `reduce` of valp_cli/protocol_kernel.py: an interruption, a wake and a
-- cancellation, from the accepted result.
use visible_agent_loop_proto.Prelude.{
  ℕ, Bool, List, ◌≡◌, refl, true, false, some, none, Option, get_elem?, not, arith, ◌==◌, ◌!=◌,
  ◌&&◌, contains, all, string_eq, ne_sound,
}
use visible_agent_loop_proto.Kernel.TaskStatuses.{TaskStatus, task_status_eq}
use visible_agent_loop_proto.Kernel.ControlWords.{
  SuspensionStatus, ControlStatus, control_status_eq, suspension_status_eq,
}
use visible_agent_loop_proto.Kernel.EventKinds.{EventKind}
use visible_agent_loop_proto.Kernel.Identities.{Identity, Evidence, identity_eq}
use visible_agent_loop_proto.Kernel.WorkItems.{Attempt, WorkItem}
use visible_agent_loop_proto.Kernel.States.{Suspension, State}
use visible_agent_loop_proto.Kernel.Events.{Event}
use visible_agent_loop_proto.Kernel.Words.{known}
use visible_agent_loop_proto.Kernel.Results.{Accepted, Result}
use visible_agent_loop_proto.Kernel.Digests.{Sha256}
use visible_agent_loop_proto.Kernel.Outcomes.{Change, returned}
use visible_agent_loop_proto.Kernel.Transitions.{task_transition}
use visible_agent_loop_proto.Kernel.ControlEvents.{current_control}
use visible_agent_loop_proto.Kernel.Authority.{adapter_cancel_obligation, is_live}
use visible_agent_loop_proto.Kernel.Branches.{branch, passes_interrupt, settled}
use visible_agent_loop_proto.Kernel.WaitEvents.{some_incomplete}
use visible_agent_loop_proto.Kernel.Acceptance.{accept}
use visible_agent_loop_proto.Kernel.Reduce.{reduce}
use visible_agent_loop_proto.Kernel.Inversion.{reduce-accepted}
use visible_agent_loop_proto.Kernel.Decisions.{task_cancelled-Cancels}
use visible_agent_loop_proto.Kernel.WaitDecisions.{wake_accepted-Wakes}
use visible_agent_loop_proto.Kernel.BranchDecisions.{
  Decision, branch-Decision, interrupts, resumes, redirects, cancels, suspends, wakes, moves,
  proceeds,
}
use visible_agent_loop_proto.Kernel.Gates.{
  has_ended, cancel_where-has_ended, cancel_where-obligation, edge-passes_interrupt, Completed,
  complete_of,
}

-- What an interrupted task still does.
pub data Passes (kind : EventKind) (items next : List WorkItem) : Type 0 where
  resuming : kind ≡ EventKind.interrupt_resumed → next ≡ items → Passes kind items next
  redirecting : kind ≡ EventKind.redirect_authorized → Passes kind items next
  cancelling : kind ≡ EventKind.task_cancelled → Passes kind items next
  proceeding : passes_interrupt kind ≡ true → next ≡ items → Passes kind items next

Decision-Passes :
    (kind : EventKind) (status : TaskStatus) (state : State) (event : Event) (c : Change)
    → passes_interrupt kind ≡ true
    → Decision kind status state event c
    → Passes kind state.work_items c.work_items
Decision-Passes kind status state event c p (interrupts k d) = cc (rw k at p)
Decision-Passes kind status state event c p (resumes k d) = resuming k d.items
Decision-Passes kind status state event c p (redirects k d) = redirecting k
Decision-Passes kind status state event c p (cancels k d) = cancelling k
Decision-Passes kind status state event c p (suspends k d) = cc (rw k at p)
Decision-Passes kind status state event c p (wakes k d) = cc (rw k at p)
Decision-Passes kind status state event c p (moves d) =
    cc (rw (edge-passes_interrupt kind d.item.status d.next_status d.edge) at p)
Decision-Passes kind status state event c p (proceeds d) = proceeding p d.items

passes_of : (b p : Bool) → b ≡ true → (b && not p) ≡ false → p ≡ true
passes_of b p e h = ground arith

-- What the wake of a task shows.
pub record Woken (state : State) (a : Accepted) : Type 0 where
  pub current : Suspension
  pub was_suspended : state.suspension ≡ some current
  pub was_waiting : current.status ≡ SuspensionStatus.waiting
  pub complete :
      (id : Identity)
      → contains current.required_work_item_ids id ≡ true
      → Completed state.work_items id
  pub resumed : Suspension
  pub is_suspended : a.state.suspension ≡ some resumed
  pub is_resumed : resumed.status ≡ SuspensionStatus.resumed
  pub items : a.state.work_items ≡ state.work_items

-- What the cancellation of a task leaves.
pub record Cancelled (state : State) (a : Accepted) : Type 0 where
  pub status : a.state.status ≡ known TaskStatus.cancelled
  pub suspension : a.state.suspension ≡ none
  pub control : (current_control a.state.control).status ≡ ControlStatus.active
  pub ended : all has_ended a.state.work_items ≡ true
  pub obligations :
      (i : ℕ) (item : WorkItem) (attempt : Attempt)
      → get_elem? state.work_items i ≡ some item
      → has_ended item ≡ false
      → item.current_attempt ≡ some attempt
      → is_live attempt.status ≡ true
      → contains a.obligations (adapter_cancel_obligation attempt) ≡ true

cancelled_target :
    (s t : TaskStatus)
    → task_transition s EventKind.task_cancelled ≡ some t
    → t ≡ TaskStatus.cancelled
unfolding task_transition
cancelled_target s t h = ground arith

settled-none :
    (k : EventKind) (b : Bool) (o s : Option Suspension)
    → o ≡ none
    → settled k b o ≡ some s
    → s ≡ none
settled-none k b none s e h = cc
settled-none k b (some x) s e h = cc

settled-stays :
    (k : EventKind) (b : Bool) (x : Suspension) (s : Option Suspension)
    → b ≡ false
    → settled k b (some x) ≡ some s
    → s ≡ some x
settled-stays k true x s e h = cc
settled-stays k false x s e h = cc

module _ ⦃sha : Sha256⦄ where
  -- While the control of the task is interrupted, an accepted event resumes it, redirects it,
  -- cancels it, or is another of the kinds that pass, and the work items stay unless it redirects
  -- or cancels.
  pub reduce-Passes :
      (state : State) (event : Event) (evidence_set : List Evidence) (a : Accepted)
      → (current_control state.control).status ≡ ControlStatus.interrupted
      → reduce state event evidence_set ≡ returned (Result.accepted a)
      → (kind : EventKind) × (event.kind ≡ known kind)
        × Passes kind state.work_items a.state.work_items
  unfolding accept
  reduce-Passes state event evidence_set a i h =
      let x = reduce-accepted state event evidence_set a h in
      (
        x.kind,
        x.kind_known,
        rw x.fresh.concluded.result (
            Decision-Passes x.kind x.status state event x.fresh.change
              (passes_of ((current_control state.control).status == ControlStatus.interrupted)
                (passes_interrupt x.kind) (rw i) x.fresh.not_interrupted)
              (branch-Decision x.kind x.status state event x.fresh.change x.fresh.branch_changed)),
      )

  -- An accepted cancellation of the task cancels it: it has no suspension and an active control,
  -- every work item has ended, and each live attempt of an item that had not ended is one that the
  -- obligations tell the adapter to cancel.
  pub reduce-Cancelled :
      (state : State) (event : Event) (evidence_set : List Evidence) (a : Accepted)
      → event.kind ≡ known EventKind.task_cancelled
      → reduce state event evidence_set ≡ returned (Result.accepted a)
      → Cancelled state a
  unfolding accept branch
  reduce-Cancelled state event evidence_set a k h =
      let x = reduce-accepted state event evidence_set a h in
      let q : x.kind ≡ EventKind.task_cancelled = ground (arith, x.kind_known) in
      let c = x.fresh.concluded in
      let d =
        task_cancelled-Cancels x.status state event x.fresh.change
          (rw q at x.fresh.branch_changed) in
      rw c.result (record {
        status = rw (cancelled_target x.status c.target (rw d.target at c.target_found)) refl;
        suspension = settled-none _ _ _ _ d.suspension c.suspension_settled;
        control = rw d.control refl;
        ended = rw d.items (cancel_where-has_ended state.work_items);
        obligations = λ i item attempt f e t l.
            rw d.obligations (cancel_where-obligation state.work_items i item attempt f e t l);
      })

  -- An accepted wake finds the task suspended and waiting, and every work item that the suspension
  -- requires among the items and completed; the suspension is then resumed and the items stay.
  pub reduce-Woken :
      (state : State) (event : Event) (evidence_set : List Evidence) (a : Accepted)
      → event.kind ≡ known EventKind.wake_accepted
      → reduce state event evidence_set ≡ returned (Result.accepted a)
      → Woken state a
  unfolding accept branch some_incomplete
  reduce-Woken state event evidence_set a k h =
      let x = reduce-accepted state event evidence_set a h in
      let q : x.kind ≡ EventKind.wake_accepted = ground (arith, x.kind_known) in
      let c = x.fresh.concluded in
      let d =
        wake_accepted-Wakes x.status state event x.fresh.change (rw q at x.fresh.branch_changed) in
      let n : (c.target != x.status) ≡ false =
        ground (arith, d.target, c.target_found, task_status_eq.beq_iff c.target x.status) in
      rw c.result (record {
        current = d.current;
        was_suspended = d.was_suspended;
        was_waiting = ne_sound _ _ d.was_waiting;
        complete =
            λ id e. complete_of state.work_items d.current.required_work_item_ids id d.complete e;
        resumed = _;
        is_suspended =
            settled-stays x.kind (c.target != x.status) _ c.suspension n
              (rw d.suspension at c.suspension_settled);
        is_resumed = refl;
        items = d.items;
      })
