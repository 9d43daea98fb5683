-- ===== src/Kernel/ItemMoves.antt =====
-- The branches of `reduce` for one work item, read backwards: how an item and its attempt may
-- move, and eligibility.
use visible_agent_loop_proto.Prelude.{
  ℕ, String, Bool, true, false, Option, none, some, List, [], ◌∷◌, ◌≡◌, refl, ◌||◌, ◌&&◌, arith,
  get_elem?, contains, ltb_ℤ, ◌==◌, int_eq, option_eq, ℤ,
}
use visible_agent_loop_proto.Kernel.TaskStatuses.{TaskStatus}
use visible_agent_loop_proto.Kernel.WorkStatuses.{
  WorkItemStatus, AttemptStatus, work_item_status_eq, attempt_status_eq,
}
use visible_agent_loop_proto.Kernel.EventKinds.{EventKind}
use visible_agent_loop_proto.Kernel.Identities.{identity_eq, Identity}
use visible_agent_loop_proto.Kernel.WorkItems.{Attempt, WorkItem}
use visible_agent_loop_proto.Kernel.States.{State}
use visible_agent_loop_proto.Kernel.Events.{Event}
use visible_agent_loop_proto.Kernel.Authority.{has_item_id, is_open, eligible_work_item}
use visible_agent_loop_proto.Kernel.Outcomes.{Change, Branch, changed, refuse_if-changed}
use visible_agent_loop_proto.Kernel.ItemEvents.{
  item_index, replace_at, on_item, on_index, eligible_branch, work_item_eligible, eligible_step,
}
use visible_agent_loop_proto.Kernel.Indexing.{item_index-found}

-- The new attempt follows the one that was there: a later generation of another attempt.
abbrev pub Supersedes : Attempt → Option Attempt → Type 0
Supersedes new none = Unit
Supersedes new (some old) =
    (ltb_ℤ old.dispatch_generation new.dispatch_generation ≡ true)
    × ((some new.attempt_id == some old.attempt_id) ≡ false)

-- What an event may do to the attempt of the item that it names.
pub data AttemptMove (state : State) (event : Event) (item : WorkItem) (next : Option Attempt)
    : Type 0 where
  kept : next ≡ item.current_attempt → AttemptMove state event item next
  moved :
      (a : Attempt) (s : AttemptStatus)
      → item.current_attempt ≡ some a
      → is_open a.status ≡ true
      → next ≡ some (record a { status = s })
      → AttemptMove state event item next
  created :
      (a : Attempt)
      → next ≡ some a
      → a.task_id ≡ state.task_id
      → a.work_item_id ≡ item.work_item_id
      → event.attempt_id ≡ some a.attempt_id
      → event.dispatch_id ≡ some a.dispatch_id
      → event.dispatch_generation ≡ some a.dispatch_generation
      → a.status ≡ AttemptStatus.created
      → Supersedes a item.current_attempt
      → AttemptMove state event item next

-- The edges of the work items' statuses, by the kind of event.
abbrev pub item_edge : EventKind → WorkItemStatus → WorkItemStatus → Bool
item_edge EventKind.work_item_eligible s t =
    s == WorkItemStatus.pending && t == WorkItemStatus.eligible
item_edge EventKind.attempt_created s t =
    (s == WorkItemStatus.eligible || s == WorkItemStatus.blocked) && t == WorkItemStatus.submitted
item_edge EventKind.attempt_submitted s t =
    s == WorkItemStatus.submitted && t == WorkItemStatus.running
item_edge EventKind.attempt_running s t = s == WorkItemStatus.running && t == WorkItemStatus.running
item_edge EventKind.attempt_completed s t =
    s == WorkItemStatus.running && t == WorkItemStatus.completed
item_edge EventKind.attempt_failed s t =
    (s == WorkItemStatus.submitted || s == WorkItemStatus.running) && t == WorkItemStatus.failed
item_edge EventKind.attempt_cancelled s t =
    (s == WorkItemStatus.submitted || s == WorkItemStatus.running) && t == WorkItemStatus.cancelled
item_edge EventKind.attempt_fenced s t = s == t
item_edge EventKind.work_item_partial s t =
    s == WorkItemStatus.running && t == WorkItemStatus.partial
item_edge EventKind.work_item_degraded s t =
    s == WorkItemStatus.running && t == WorkItemStatus.degraded
item_edge EventKind.work_item_blocked s t =
    contains
      (WorkItemStatus.pending ∷ WorkItemStatus.eligible ∷ WorkItemStatus.submitted
        ∷ WorkItemStatus.running ∷ [])
      s
    && t == WorkItemStatus.blocked
item_edge EventKind.work_item_failed s t =
    contains
      (WorkItemStatus.pending ∷ WorkItemStatus.eligible ∷ WorkItemStatus.submitted
        ∷ WorkItemStatus.running ∷ WorkItemStatus.blocked ∷ [])
      s
    && t == WorkItemStatus.failed
item_edge EventKind.work_item_cancelled s t =
    contains
      (WorkItemStatus.pending ∷ WorkItemStatus.eligible ∷ WorkItemStatus.submitted
        ∷ WorkItemStatus.running ∷ WorkItemStatus.blocked ∷ [])
      s
    && t == WorkItemStatus.cancelled
item_edge EventKind.work_item_skipped s t =
    (s == WorkItemStatus.pending || s == WorkItemStatus.eligible) && t == WorkItemStatus.skipped
item_edge _ s t = false

-- One item moves, and the rest of the state stays.
pub record Moves (kind : EventKind) (status : TaskStatus) (state : State) (event : Event)
    (c : Change) : Type 0 where
  pub index : ℕ
  pub item : WorkItem
  pub next_status : WorkItemStatus
  pub next_attempt : Option Attempt
  pub found : get_elem? state.work_items index ≡ some item
  pub named : has_item_id event item ≡ true
  pub edge : item_edge kind item.status next_status ≡ true
  pub attempt : AttemptMove state event item next_attempt
  pub items :
      c.work_items
      ≡ replace_at index
          (record item { status = next_status; current_attempt = next_attempt })
          state.work_items
  pub target : c.target_status ≡ some status
  pub suspension : c.suspension ≡ state.suspension
  pub control : c.control ≡ state.control

-- The same for a branch that works on an index and an item.
pub record Steps (kind : EventKind) (status : TaskStatus) (state : State) (event : Event)
    (index : ℕ) (item : WorkItem) (c : Change) : Type 0 where
  pub next_status : WorkItemStatus
  pub next_attempt : Option Attempt
  pub edge : item_edge kind item.status next_status ≡ true
  pub attempt : AttemptMove state event item next_attempt
  pub items :
      c.work_items
      ≡ replace_at index
          (record item { status = next_status; current_attempt = next_attempt })
          state.work_items
  pub target : c.target_status ≡ some status
  pub suspension : c.suspension ≡ state.suspension
  pub control : c.control ≡ state.control

pub on_item-changed :
    (state : State) (event : Event) (k : ℕ → WorkItem → Branch) (c : Change)
    → on_item state event k ≡ changed c
    → (i : ℕ) × (item : WorkItem) × (get_elem? state.work_items i ≡ some item)
      × (has_item_id event item ≡ true)
      × (k i item ≡ changed c)
unfolding on_item
on_item-changed state event k c h =
    let (g, h1) = refuse_if-changed _ _ c h in go (item_index event state.work_items) refl h1
  where
    go :
        (o : Option ℕ)
        → item_index event state.work_items ≡ o
        → on_index state o k ≡ changed c
        → (i : ℕ) × (item : WorkItem) × (get_elem? state.work_items i ≡ some item)
          × (has_item_id event item ≡ true)
          × (k i item ≡ changed c)
    go none e h1 = cc
    go (some i) e h1 =
        let (item, found, named) = item_index-found event state.work_items i e in
        (i, item, found, named, rw found at h1)

pub on_item-Moves :
    (kind : EventKind) (status : TaskStatus) (state : State) (event : Event)
    (k : ℕ → WorkItem → Branch) (c : Change)
    → ((i : ℕ) (item : WorkItem) → k i item ≡ changed c → Steps kind status state event i item c)
    → on_item state event k ≡ changed c
    → Moves kind status state event c
on_item-Moves kind status state event k c steps h =
    let (i, item, found, named, h1) = on_item-changed state event k c h in
    let s = steps i item h1 in
    record {
      index = i;
      item = item;
      next_status = s.next_status;
      next_attempt = s.next_attempt;
      found = found;
      named = named;
      edge = s.edge;
      attempt = s.attempt;
      items = s.items;
      target = s.target;
      suspension = s.suspension;
      control = s.control;
    }

eligible_branch-Steps :
    (status : TaskStatus) (state : State) (event : Event) (i : ℕ) (item : WorkItem)
    (o : Option (List String)) (c : Change)
    → eligible_branch status state i item o ≡ changed c
    → Steps EventKind.work_item_eligible status state event i item c
eligible_branch-Steps status state event i item none c h = cc
eligible_branch-Steps status state event i item (some facts) c h =
    let (g, h1) = refuse_if-changed _ _ c h in
    record {
      next_status = WorkItemStatus.eligible;
      next_attempt = item.current_attempt;
      edge = ground arith;
      attempt = kept refl;
      items = ground arith;
      target = ground arith;
      suspension = ground arith;
      control = ground arith;
    }

pub work_item_eligible-Moves :
    (status : TaskStatus) (state : State) (event : Event) (c : Change)
    → work_item_eligible status state event ≡ changed c
    → Moves EventKind.work_item_eligible status state event c
unfolding work_item_eligible
work_item_eligible-Moves status state event c h =
    on_item-Moves EventKind.work_item_eligible status state event (eligible_step status state) c
      (λ i item h1.
        eligible_branch-Steps status state event i item (eligible_work_item state item) c h1)
      h

abbrev pub new_attempt : State → WorkItem → Identity → Identity → ℤ → Attempt
new_attempt state item a d n = record {
  task_id = state.task_id;
  work_item_id = item.work_item_id;
  attempt_id = a;
  dispatch_id = d;
  dispatch_generation = n;
  status = AttemptStatus.created;
}
