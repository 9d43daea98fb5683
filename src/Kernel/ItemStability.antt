-- ===== src/Kernel/ItemStability.antt =====
-- What an accepted event of valp_cli/protocol_kernel.py may not do to a work item that has ended.
use visible_agent_loop_proto.Kernel.BranchDecisions.{
  Decision, branch-Decision, interrupts, resumes, redirects, cancels, suspends, wakes, moves,
  proceeds,
}
use visible_agent_loop_proto.Kernel.Decisions.{is_unfinished}
use visible_agent_loop_proto.Kernel.Inversion.{reduce-accepted}
use visible_agent_loop_proto.Kernel.Reduce.{reduce}
use visible_agent_loop_proto.Kernel.Acceptance.{accept}
use visible_agent_loop_proto.Kernel.Outcomes.{Change, returned}
use visible_agent_loop_proto.Kernel.Digests.{Sha256}
use visible_agent_loop_proto.Kernel.Results.{Accepted, Result}
use visible_agent_loop_proto.Kernel.Events.{Event}
use visible_agent_loop_proto.Kernel.States.{State}
use visible_agent_loop_proto.Kernel.TaskStatuses.{TaskStatus}
use visible_agent_loop_proto.Prelude.{
  ℕ, zero, suc, Bool, List, [], ◌∷◌, ◌≡◌, refl, true, false, some, get_elem?, arith, Bool-cases,
  inl, inr, contains,
}
use visible_agent_loop_proto.Kernel.WorkStatuses.{
  WorkItemStatus, work_item_status_eq, work_item_status_iff,
}
use visible_agent_loop_proto.Kernel.EventKinds.{EventKind}
use visible_agent_loop_proto.Kernel.Identities.{Identity, Evidence}
use visible_agent_loop_proto.Kernel.WorkItems.{WorkItem}
use visible_agent_loop_proto.Kernel.Transitions.{is_terminal_item}
use visible_agent_loop_proto.Kernel.ControlEvents.{cancel_where, is_invalidated}
use visible_agent_loop_proto.Kernel.ItemEvents.{replace_at}
use visible_agent_loop_proto.Kernel.ItemMoves.{item_edge}

-- The item at the index has this identity and this status.
pub record Holds (xs : List WorkItem) (i : ℕ) (id : Identity) (s : WorkItemStatus) : Type 0 where
  pub item : WorkItem
  pub there : get_elem? xs i ≡ some item
  pub identity : item.work_item_id ≡ id
  pub status : item.status ≡ s

Holds-in_rest :
    (x : WorkItem) (xs : List WorkItem) (i : ℕ) (id : Identity) (s : WorkItemStatus)
    → Holds xs i id s
    → Holds (x ∷ xs) (suc i) id s
Holds-in_rest x xs i id s h = record {
  item = h.item;
  there = h.there;
  identity = h.identity;
  status = h.status;
}

-- A replacement that keeps the identity, and the status where it has ended.
Holds-replace_at :
    (j i : ℕ) (old v : WorkItem) (xs : List WorkItem) (id : Identity) (s : WorkItemStatus)
    → get_elem? xs j ≡ some old
    → v.work_item_id ≡ old.work_item_id
    → (old.status ≡ s → v.status ≡ s)
    → Holds xs i id s
    → Holds (replace_at j v xs) i id s
unfolding replace_at
Holds-replace_at j i old v [] id s f n k h = absurd (ground (arith, h.there))
Holds-replace_at zero zero old v (x ∷ xs) id s f n k h =
    let a : h.item ≡ old = ground (arith, h.there) in
    record {
      item = v;
      there = refl;
      identity = rw n (rw (← a) h.identity);
      status = k (rw (← a) h.status);
    }
Holds-replace_at zero (suc i) old v (x ∷ xs) id s f n k h = record {
  item = h.item;
  there = h.there;
  identity = h.identity;
  status = h.status;
}
Holds-replace_at (suc j) zero old v (x ∷ xs) id s f n k h = record {
  item = h.item;
  there = h.there;
  identity = h.identity;
  status = h.status;
}
Holds-replace_at (suc j) (suc i) old v (x ∷ xs) id s f n k h =
    Holds-in_rest x (replace_at j v xs) i id s (
      Holds-replace_at j i old v xs id s f n k
        (record { item = h.item; there = h.there; identity = h.identity; status = h.status }))

Holds-cancel_where :
    (chosen : WorkItem → Bool) (i : ℕ) (xs : List WorkItem) (id : Identity) (s : WorkItemStatus)
    → ((x : WorkItem) → x.status ≡ s → chosen x ≡ false)
    → Holds xs i id s
    → Holds (cancel_where chosen xs).0 i id s
unfolding cancel_where
Holds-cancel_where chosen i [] id s k h = h
Holds-cancel_where chosen zero (x ∷ xs) id s k h =
    let a : h.item ≡ x = ground (arith, h.there) in
    rw (k x (rw (← a) h.status)) (record {
      item = x;
      there = refl;
      identity = rw (← a) h.identity;
      status = rw (← a) h.status;
    })
Holds-cancel_where chosen (suc i) (x ∷ xs) id s k h =
    let r =
      Holds-cancel_where chosen i xs id s k
        (record { item = h.item; there = h.there; identity = h.identity; status = h.status }) in
    elim (Bool-cases (chosen x)) [
      | inl y ↦
          rw y (record { item = r.item; there = r.there; identity = r.identity; status = r.status })
      | inr n ↦
          rw n (record { item = r.item; there = r.there; identity = r.identity; status = r.status })
    ]

-- No edge leads from a status that ends a work item to another status.
terminal-edge :
    (kind : EventKind) (s t : WorkItemStatus)
    → is_terminal_item s ≡ true
    → item_edge kind s t ≡ true
    → t ≡ s
unfolding contains
terminal-edge kind s t h e = ground (arith, work_item_status_iff s t)

Holds-same :
    (xs ys : List WorkItem) (i : ℕ) (id : Identity) (s : WorkItemStatus)
    → ys ≡ xs
    → Holds xs i id s
    → Holds ys i id s
Holds-same xs ys i id s e h = rw e h

ended_stays :
    (event : Event) (x : WorkItem)
    → is_terminal_item x.status ≡ true
    → is_invalidated event x ≡ false
ended_stays event x h = ground arith

trans_status : (u t s : WorkItemStatus) → u ≡ t → t ≡ s → u ≡ s
trans_status u t s e f = cc

-- An item that has ended keeps its place, its identity and its status in every decision.
Decision-Holds :
    (kind : EventKind) (status : TaskStatus) (state : State) (event : Event) (c : Change) (i : ℕ)
    (id : Identity) (s : WorkItemStatus)
    → is_terminal_item s ≡ true
    → Decision kind status state event c
    → Holds state.work_items i id s
    → Holds c.work_items i id s
Decision-Holds kind status state event c i id s t (interrupts _ d) h =
    Holds-same state.work_items c.work_items i id s d.items h
Decision-Holds kind status state event c i id s t (resumes _ d) h =
    Holds-same state.work_items c.work_items i id s d.items h
Decision-Holds kind status state event c i id s t (suspends _ d) h =
    Holds-same state.work_items c.work_items i id s d.items h
Decision-Holds kind status state event c i id s t (wakes _ d) h =
    Holds-same state.work_items c.work_items i id s d.items h
Decision-Holds kind status state event c i id s t (proceeds d) h =
    Holds-same state.work_items c.work_items i id s d.items h
Decision-Holds kind status state event c i id s t (redirects _ d) h = rw d.items (
    Holds-cancel_where (is_invalidated event) i state.work_items id s
      (λ x e. ended_stays event x (rw e t)) h)
Decision-Holds kind status state event c i id s t (cancels _ d) h =
    rw d.items
      (Holds-cancel_where is_unfinished i state.work_items id s (λ x e. rw e (rw t refl)) h)
Decision-Holds kind status state event c i id s t (moves d) h = rw d.items (
    Holds-replace_at d.index i d.item
      (record d.item { status = d.next_status; current_attempt = d.next_attempt }) state.work_items
      id s d.found refl
      (λ e.
        trans_status d.next_status d.item.status s
          (terminal-edge kind d.item.status d.next_status (rw e t) d.edge) e)
      h)

module _ ⦃sha : Sha256⦄ where
  -- Under every accepted event, a work item that has ended keeps its place in the state's items, its
  -- identity and its status.
  pub reduce-Holds :
      (state : State) (event : Event) (evidence_set : List Evidence) (a : Accepted) (i : ℕ)
      (id : Identity) (s : WorkItemStatus)
      → is_terminal_item s ≡ true
      → Holds state.work_items i id s
      → reduce state event evidence_set ≡ returned (Result.accepted a)
      → Holds a.state.work_items i id s
  unfolding accept
  reduce-Holds state event evidence_set a i id s t w h =
      let x = reduce-accepted state event evidence_set a h in
      rw x.fresh.concluded.result (
        Decision-Holds x.kind x.status state event x.fresh.change i id s t
          (branch-Decision x.kind x.status state event x.fresh.change x.fresh.branch_changed) w)
