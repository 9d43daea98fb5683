-- ===== src/Kernel/BranchTotality.antt =====
-- valp_cli/protocol_kernel.py: no branch of `reduce` raises an exception.
use visible_agent_loop_proto.Kernel.Authority.{is_authority_bound}
use visible_agent_loop_proto.Prelude.{
  ℕ, Bool, true, false, Option, none, some, ◌≡◌, refl, arith, string_eq, int_eq, option_eq,
  if◌then◌else◌,
}
use visible_agent_loop_proto.Kernel.IdentityKinds.{IdentityKind}
use visible_agent_loop_proto.Kernel.TaskStatuses.{TaskStatus, task_status_eq}
use visible_agent_loop_proto.Kernel.ControlWords.{control_status_eq}
use visible_agent_loop_proto.Kernel.EventKinds.{EventKind}
use visible_agent_loop_proto.Kernel.Identities.{Identity, identity_eq, has_identity_kind}
use visible_agent_loop_proto.Kernel.WorkItems.{WorkItem, Attempt}
use visible_agent_loop_proto.Kernel.States.{State, Suspension}
use visible_agent_loop_proto.Kernel.Events.{Event}
use visible_agent_loop_proto.Kernel.Validity.{absent_or, control_is_valid}
use visible_agent_loop_proto.Kernel.Outcomes.{
  Change, Branch, changed, fails, attribute_of, refuse_if,
}
use visible_agent_loop_proto.Kernel.ControlEvents.{
  interrupt_requested, interrupt_resumed, redirect_authorized, task_cancelled,
}
use visible_agent_loop_proto.Kernel.WaitEvents.{suspension_started, wake_of, wake_accepted}
use visible_agent_loop_proto.Kernel.ItemEvents.{
  on_item, on_index, item_index, eligible_step, item_step, work_item_eligible, work_item_event,
  is_cancellation,
}
use visible_agent_loop_proto.Kernel.AttemptEvents.{
  created_step, fenced_step, progress, progress_step, attempt_created, attempt_fenced,
  attempt_event, is_attempt_cancellation, fence,
}
use visible_agent_loop_proto.Kernel.Branches.{branch}
use visible_agent_loop_proto.Kernel.Indexing.{item_index-found}

-- The branch raises nothing.
abbrev pub NeverFails : Branch → Type 0
NeverFails (fails x) = ⊥
NeverFails _ = Unit

abbrev HasPrincipal : Event → Type 0
HasPrincipal event = has_identity_kind event.authority_principal_id IdentityKind.principal ≡ true

guarded-NeverFails : (b : Bool) (x : Branch) → NeverFails x → NeverFails (refuse_if b x)
unfolding refuse_if
guarded-NeverFails true x h = tt
guarded-NeverFails false x h = h

interrupt_requested-NeverFails :
    (status : TaskStatus) (state : State) (event : Event)
    → HasPrincipal event
    → NeverFails (interrupt_requested status state event)
unfolding interrupt_requested refuse_if attribute_of
interrupt_requested-NeverFails status state event p = ground arith

interrupt_resumed-NeverFails :
    (status : TaskStatus) (state : State) (event : Event)
    → HasPrincipal event
    → absent_or control_is_valid state.control ≡ true
    → NeverFails (interrupt_resumed status state event)
unfolding interrupt_resumed control_is_valid refuse_if attribute_of
interrupt_resumed-NeverFails status state event p v = ground arith

redirect_authorized-NeverFails :
    (status : TaskStatus) (state : State) (event : Event)
    → HasPrincipal event
    → NeverFails (redirect_authorized status state event)
unfolding redirect_authorized refuse_if attribute_of
redirect_authorized-NeverFails status state event p = ground arith

task_cancelled-NeverFails :
    (status : TaskStatus) (state : State) (event : Event)
    → HasPrincipal event
    → NeverFails (task_cancelled status state event)
unfolding task_cancelled refuse_if attribute_of
task_cancelled-NeverFails status state event p = ground arith

suspension_started-NeverFails :
    (status : TaskStatus) (state : State) (event : Event)
    → NeverFails (suspension_started status state event)
unfolding suspension_started refuse_if attribute_of
suspension_started-NeverFails status state event = ground arith

wake_of-NeverFails :
    (status : TaskStatus) (state : State) (event : Event) (s : Option Suspension)
    → NeverFails (wake_of status state event s)
wake_of-NeverFails status state event none = tt
wake_of-NeverFails status state event (some s) = guarded-NeverFails _ _ (tt {0})

-- The index that is found is in range.
on_item-NeverFails :
    (state : State) (event : Event) (k : ℕ → WorkItem → Branch)
    → ((i : ℕ) (item : WorkItem) → NeverFails (k i item))
    → NeverFails (on_item state event k)
unfolding on_item
on_item-NeverFails state event k f =
    guarded-NeverFails _ _ (go (item_index event state.work_items) refl)
  where
    go : (o : Option ℕ) → item_index event state.work_items ≡ o → NeverFails (on_index state o k)
    go none e = tt
    go (some i) e =
        let (item, found, named) = item_index-found event state.work_items i e in
        rw found (f i item)

eligible_step-NeverFails :
    (status : TaskStatus) (state : State) (i : ℕ) (item : WorkItem)
    → NeverFails (eligible_step status state i item)
unfolding eligible_step refuse_if attribute_of
eligible_step-NeverFails status state i item = ground arith

created_step-NeverFails :
    (status : TaskStatus) (state : State) (event : Event) (i : ℕ) (item : WorkItem)
    → NeverFails (created_step status state event i item)
unfolding created_step refuse_if attribute_of
created_step-NeverFails status state event i item = ground arith

fence-NeverFails :
    (status : TaskStatus) (state : State) (event : Event) (i : ℕ) (item : WorkItem)
    (o : Option Attempt)
    → NeverFails (fence status state event i item o)
fence-NeverFails status state event i item none = tt
fence-NeverFails status state event i item (some a) = guarded-NeverFails _ _ (tt {0})

-- An optional fact that names the principal.
principal-NeverFails :
    (event : Event) (b : Bool) (f : Identity → Change) (c : Change)
    → (b ≡ true → HasPrincipal event)
    → NeverFails
        (if b then attribute_of event.authority_principal_id (λ p. changed (f p)) else changed c)
unfolding attribute_of
principal-NeverFails event b f c h = ground arith

item_step-NeverFails :
    (kind : EventKind) (status : TaskStatus) (state : State) (event : Event) (i : ℕ)
    (item : WorkItem)
    → (is_cancellation kind ≡ true → HasPrincipal event)
    → NeverFails (item_step kind status state event i item)
unfolding item_step
item_step-NeverFails kind status state event i item h =
    guarded-NeverFails _ _ (guarded-NeverFails _ _ (principal-NeverFails event _ _ _ h))

progress-NeverFails :
    (kind : EventKind) (status : TaskStatus) (state : State) (event : Event) (i : ℕ)
    (item : WorkItem) (o : Option Attempt)
    → (is_attempt_cancellation kind ≡ true → HasPrincipal event)
    → NeverFails (progress kind status state event i item o)
unfolding progress_step
progress-NeverFails kind status state event i item none h = tt
progress-NeverFails kind status state event i item (some a) h =
    guarded-NeverFails _ _ (guarded-NeverFails _ _ (principal-NeverFails event _ _ _ h))

progress_step-NeverFails :
    (kind : EventKind) (status : TaskStatus) (state : State) (event : Event) (i : ℕ)
    (item : WorkItem)
    → (is_attempt_cancellation kind ≡ true → HasPrincipal event)
    → NeverFails (progress_step kind status state event i item)
unfolding progress_step
progress_step-NeverFails kind status state event i item h =
    guarded-NeverFails _ _
      (progress-NeverFails kind status state event i item item.current_attempt h)

cancellation-bound :
    (kind : EventKind) → is_cancellation kind ≡ true → is_authority_bound kind ≡ true
cancellation-bound EventKind.work_item_cancelled h = refl
cancellation-bound _ h = cc

attempt_cancellation-bound :
    (kind : EventKind) → is_attempt_cancellation kind ≡ true → is_authority_bound kind ≡ true
attempt_cancellation-bound EventKind.attempt_cancelled h = refl
attempt_cancellation-bound _ h = cc

-- The branch of an event that passed the checks raises nothing.
module _ (status : TaskStatus) (state : State) (event : Event)
    (controlled : absent_or control_is_valid state.control ≡ true) where
  item_event-NeverFails :
      (kind : EventKind)
      → (is_authority_bound kind ≡ true → HasPrincipal event)
      → NeverFails (work_item_event kind status state event)
  unfolding work_item_event
  item_event-NeverFails kind p =
      on_item-NeverFails state event (item_step kind status state event) (λ i item.
        item_step-NeverFails kind status state event i item (λ c. p (cancellation-bound kind c)))

  attempt_event-NeverFails :
      (kind : EventKind)
      → (is_authority_bound kind ≡ true → HasPrincipal event)
      → NeverFails (attempt_event kind status state event)
  unfolding attempt_event
  attempt_event-NeverFails kind p =
      on_item-NeverFails state event (progress_step kind status state event) (λ i item.
        progress_step-NeverFails kind status state event i item
          (λ c. p (attempt_cancellation-bound kind c)))

  pub branch-NeverFails :
      (kind : EventKind)
      → (is_authority_bound kind ≡ true → HasPrincipal event)
      → NeverFails (branch kind status state event)
  unfolding branch wake_accepted work_item_eligible attempt_created attempt_fenced fenced_step
  branch-NeverFails EventKind.interrupt_requested p =
      interrupt_requested-NeverFails status state event (p refl)
  branch-NeverFails EventKind.interrupt_resumed p =
      interrupt_resumed-NeverFails status state event (p refl) controlled
  branch-NeverFails EventKind.redirect_authorized p =
      redirect_authorized-NeverFails status state event (p refl)
  branch-NeverFails EventKind.task_cancelled p =
      task_cancelled-NeverFails status state event (p refl)
  branch-NeverFails EventKind.suspension_started p =
      suspension_started-NeverFails status state event
  branch-NeverFails EventKind.wake_accepted p =
      wake_of-NeverFails status state event state.suspension
  branch-NeverFails EventKind.work_item_eligible p =
      on_item-NeverFails state event (eligible_step status state)
        (eligible_step-NeverFails status state)
  branch-NeverFails EventKind.attempt_created p =
      on_item-NeverFails state event (created_step status state event)
        (created_step-NeverFails status state event)
  branch-NeverFails EventKind.attempt_fenced p =
      on_item-NeverFails state event (fenced_step status state event)
        (λ i item. fence-NeverFails status state event i item item.current_attempt)
  branch-NeverFails EventKind.attempt_submitted p =
      attempt_event-NeverFails EventKind.attempt_submitted p
  branch-NeverFails EventKind.attempt_running p =
      attempt_event-NeverFails EventKind.attempt_running p
  branch-NeverFails EventKind.attempt_completed p =
      attempt_event-NeverFails EventKind.attempt_completed p
  branch-NeverFails EventKind.attempt_failed p = attempt_event-NeverFails EventKind.attempt_failed p
  branch-NeverFails EventKind.attempt_cancelled p =
      attempt_event-NeverFails EventKind.attempt_cancelled p
  branch-NeverFails EventKind.work_item_partial p =
      item_event-NeverFails EventKind.work_item_partial p
  branch-NeverFails EventKind.work_item_degraded p =
      item_event-NeverFails EventKind.work_item_degraded p
  branch-NeverFails EventKind.work_item_blocked p =
      item_event-NeverFails EventKind.work_item_blocked p
  branch-NeverFails EventKind.work_item_failed p =
      item_event-NeverFails EventKind.work_item_failed p
  branch-NeverFails EventKind.work_item_cancelled p =
      item_event-NeverFails EventKind.work_item_cancelled p
  branch-NeverFails EventKind.work_item_skipped p =
      item_event-NeverFails EventKind.work_item_skipped p
  branch-NeverFails kind p = tt
