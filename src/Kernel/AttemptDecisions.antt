-- ===== src/Kernel/AttemptDecisions.antt =====
-- The branches of `reduce` for one work item, read backwards: the events about attempts.
use visible_agent_loop_proto.Kernel.AttemptEvents.{
  is_retry, created_step, is_not_later, reuses_attempt_id, fence, fenced_step, attempt_fenced,
  attempt_created, transitions, transition_is_refused, progress, progress_step, attempt_event,
}
use visible_agent_loop_proto.Prelude.{
  ℕ, String, Bool, true, false, Option, none, some, List, [], ◌∷◌, ◌≡◌, refl, ◌&&◌, arith, contains,
  int_eq, option_eq, not, is_none, or_left, not-false, ap, inl, inr, ◌⊎◌, if◌then◌else◌,
}
use visible_agent_loop_proto.Kernel.TaskStatuses.{TaskStatus}
use visible_agent_loop_proto.Kernel.WorkStatuses.{
  WorkItemStatus, AttemptStatus, work_item_status_eq, attempt_status_eq,
}
use visible_agent_loop_proto.Kernel.EventKinds.{EventKind}
use visible_agent_loop_proto.Kernel.Identities.{identity_eq, Identity}
use visible_agent_loop_proto.Kernel.WorkItems.{Attempt, WorkItem}
use visible_agent_loop_proto.Kernel.States.{State}
use visible_agent_loop_proto.Kernel.Events.{Event}
use visible_agent_loop_proto.Kernel.Authority.{is_open}
use visible_agent_loop_proto.Kernel.Outcomes.{
  Change, changed, refuse_if-changed, attribute_of-changed, attribute_of,
}
use visible_agent_loop_proto.Kernel.ItemEvents.{item_change}
use visible_agent_loop_proto.Kernel.ItemMoves.{
  AttemptMove, Moves, Steps, Supersedes, created, item_edge, moved, new_attempt, on_item-Moves,
}

-- The guards of a creation, one by one.
record MayCreate (event : Event) (item : WorkItem) : Type 0 where
  startable :
      not (contains (WorkItemStatus.eligible ∷ WorkItemStatus.blocked ∷ []) item.status) ≡ false
  replaceable : (not (is_none item.current_attempt) && not (is_retry item)) ≡ false
  later : (is_retry item && is_not_later event.dispatch_generation item.current_attempt) ≡ false
  other : (is_retry item && reuses_attempt_id event item.current_attempt) ≡ false

created_step-MayCreate :
    (status : TaskStatus) (state : State) (event : Event) (i : ℕ) (item : WorkItem) (c : Change)
    → created_step status state event i item ≡ changed c
    → MayCreate event item
unfolding created_step
created_step-MayCreate status state event i item c h =
    let (g, h1) = refuse_if-changed _ _ c h in
    record {
      startable = ground arith;
      replaceable = ground arith;
      later = ground arith;
      other = ground arith;
    }

Supersedes-of :
    (event : Event) (item : WorkItem) (new : Attempt) (o : Option Attempt)
    → item.current_attempt ≡ o
    → event.attempt_id ≡ some new.attempt_id
    → event.dispatch_generation ≡ some new.dispatch_generation
    → MayCreate event item
    → Supersedes new o
Supersedes-of event item new none e a g m = tt
Supersedes-of event item new (some old) e a g m =
    let r : is_retry item ≡ true = ground (arith, m.replaceable) in
    (ground (arith, m.later), ground (arith, m.other))

startable-edge :
    (s : WorkItemStatus)
    → not (contains (WorkItemStatus.eligible ∷ WorkItemStatus.blocked ∷ []) s) ≡ false
    → item_edge EventKind.attempt_created s WorkItemStatus.submitted ≡ true
unfolding contains
startable-edge s h = ground arith

created_step-Steps :
    (status : TaskStatus) (state : State) (event : Event) (i : ℕ) (item : WorkItem) (c : Change)
    → created_step status state event i item ≡ changed c
    → Steps EventKind.attempt_created status state event i item c
unfolding created_step
created_step-Steps status state event i item c h =
    let (g, h1) = refuse_if-changed _ _ c h in
    let m = created_step-MayCreate status state event i item c h in
    let (a, na, h2) = attribute_of-changed event.attempt_id _ c h1 in
    let (d, nd, h3) = attribute_of-changed event.dispatch_id _ c h2 in
    let (n, nn, h4) = attribute_of-changed event.dispatch_generation _ c h3 in
    record {
      next_status = WorkItemStatus.submitted;
      next_attempt = some (new_attempt state item a d n);
      edge = startable-edge item.status m.startable;
      attempt = created (new_attempt state item a d n) refl refl refl na nd nn refl (
          Supersedes-of event item (new_attempt state item a d n) item.current_attempt refl na nn
            m);
      items = ground arith;
      target = ground arith;
      suspension = ground arith;
      control = ground arith;
    }

pub attempt_created-Moves :
    (status : TaskStatus) (state : State) (event : Event) (c : Change)
    → attempt_created status state event ≡ changed c
    → Moves EventKind.attempt_created status state event c
unfolding attempt_created
attempt_created-Moves status state event c h =
    on_item-Moves EventKind.attempt_created status state event (created_step status state event) c
      (λ i item h1. created_step-Steps status state event i item c h1) h

same-edge : (s : WorkItemStatus) → item_edge EventKind.attempt_fenced s s ≡ true
same-edge s = ground (arith, work_item_status_eq.beq_iff s s)

fence-Steps :
    (status : TaskStatus) (state : State) (event : Event) (i : ℕ) (item : WorkItem)
    (o : Option Attempt) (c : Change)
    → item.current_attempt ≡ o
    → fence status state event i item o ≡ changed c
    → Steps EventKind.attempt_fenced status state event i item c
fence-Steps status state event i item none c e h = cc
fence-Steps status state event i item (some a) c e h =
    let (g, h1) = refuse_if-changed _ _ c h in
    record {
      next_status = item.status;
      next_attempt = some (record a { status = AttemptStatus.fenced });
      edge = same-edge item.status;
      attempt = moved a AttemptStatus.fenced e (not-false _ (or_left _ _ g)) refl;
      items = ground arith;
      target = ground arith;
      suspension = ground arith;
      control = ground arith;
    }

pub attempt_fenced-Moves :
    (status : TaskStatus) (state : State) (event : Event) (c : Change)
    → attempt_fenced status state event ≡ changed c
    → Moves EventKind.attempt_fenced status state event c
unfolding attempt_fenced fenced_step
attempt_fenced-Moves status state event c h =
    on_item-Moves EventKind.attempt_fenced status state event (fenced_step status state event) c
      (λ i item h1. fence-Steps status state event i item item.current_attempt c refl h1) h

-- The kinds of the branch for the progress of an attempt.
abbrev pub is_progress : EventKind → Bool
is_progress EventKind.attempt_submitted = true
is_progress EventKind.attempt_running = true
is_progress EventKind.attempt_completed = true
is_progress EventKind.attempt_failed = true
is_progress EventKind.attempt_cancelled = true
is_progress _ = false

-- What a transition that is not refused starts from.
refused_fields :
    (kind : EventKind) (s : WorkItemStatus) (a : AttemptStatus)
    → is_progress kind ≡ true
    → transition_is_refused kind s a ≡ false
    → (is_open a ≡ true) × (item_edge kind s (transitions kind).next_item_status ≡ true)
unfolding transition_is_refused contains
refused_fields EventKind.attempt_submitted s a p h = ground arith
refused_fields EventKind.attempt_running s a p h = ground arith
refused_fields EventKind.attempt_completed s a p h = ground arith
refused_fields EventKind.attempt_failed s a p h = ground arith
refused_fields EventKind.attempt_cancelled s a p h = ground arith
refused_fields _ s a p h = cc

pub Steps-of_change :
    (kind : EventKind) (status : TaskStatus) (state : State) (event : Event) (i : ℕ)
    (item : WorkItem) (t : WorkItemStatus) (next : Option Attempt) (obligations facts : List String)
    (c : Change)
    → item_edge kind item.status t ≡ true
    → AttemptMove state event item next
    → c
      ≡ item_change status state i
          (record item { status = t; current_attempt = next })
          obligations
          facts
    → Steps kind status state event i item c
Steps-of_change kind status state event i item t next obligations facts c e m p = record {
  next_status = t;
  next_attempt = next;
  edge = e;
  attempt = m;
  items = ap (λ (x : Change). x.work_items) p;
  target = ap (λ (x : Change). x.target_status) p;
  suspension = ap (λ (x : Change). x.suspension) p;
  control = ap (λ (x : Change). x.control) p;
}

-- A branch that ends in one of two changes.
pub either_change :
    (b : Bool) (o : Option Identity) (f : Identity → Change) (g c : Change)
    → (if b then attribute_of o (λ p. changed (f p)) else changed g) ≡ changed c
    → ((b ≡ true) × (p : Identity) × (c ≡ f p)) ⊎ ((b ≡ false) × (c ≡ g))
either_change true o f g c h = let (p, n, e) = attribute_of-changed o _ c h in inl (refl, p, cc)
either_change false o f g c h = inr (refl, cc)

progress-Steps :
    (kind : EventKind) (status : TaskStatus) (state : State) (event : Event) (i : ℕ)
    (item : WorkItem) (o : Option Attempt) (c : Change)
    → is_progress kind ≡ true
    → item.current_attempt ≡ o
    → progress kind status state event i item o ≡ changed c
    → Steps kind status state event i item c
progress-Steps kind status state event i item none c k e h = cc
progress-Steps kind status state event i item (some a) c k e h =
    let (g, h1) = refuse_if-changed _ _ c h in
    let (g', h2) = refuse_if-changed _ _ c h1 in
    let (opened, edge) = refused_fields kind item.status a.status k g' in
    let t = (transitions kind).next_item_status in
    let next = some (record a { status = (transitions kind).next_attempt_status }) in
    let m : AttemptMove state event item next =
      moved a (transitions kind).next_attempt_status e opened refl in
    elim (either_change _ _ _ _ c h2) [
      | inl (b, p, e') ↦ Steps-of_change kind status state event i item t next _ _ c edge m e'
      | inr (b, e') ↦ Steps-of_change kind status state event i item t next _ _ c edge m e'
    ]

pub attempt_event-Moves :
    (kind : EventKind) (status : TaskStatus) (state : State) (event : Event) (c : Change)
    → is_progress kind ≡ true
    → attempt_event kind status state event ≡ changed c
    → Moves kind status state event c
unfolding attempt_event progress_step
attempt_event-Moves kind status state event c k h =
    on_item-Moves kind status state event (progress_step kind status state event) c
      (λ i item h1.
        progress-Steps kind status state event i item item.current_attempt c k refl
          (refuse_if-changed _ _ c h1).1)
      h
