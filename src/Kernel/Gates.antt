-- ===== src/Kernel/Gates.antt =====
-- The gates of `reduce` of valp_cli/protocol_kernel.py: what an interrupted task takes, what wakes a
-- suspended task, and what the cancellation of a task leaves.
use visible_agent_loop_proto.Prelude.{
  ℕ, zero, suc, Bool, List, [], ◌∷◌, ◌≡◌, inl, inr, refl, true, false, some, none, Option,
  get_elem?, arith, Bool-cases, ◌==◌, contains, contains-append, all, any, string_eq, eq_refl,
  eq_sound, ne_sound, or_left, or_right, if◌then◌else◌,
}
use visible_agent_loop_proto.Kernel.TaskStatuses.{task_status_eq}
use visible_agent_loop_proto.Kernel.WorkStatuses.{WorkItemStatus, work_item_status_eq}
use visible_agent_loop_proto.Kernel.ControlWords.{control_status_eq, suspension_status_eq}
use visible_agent_loop_proto.Kernel.EventKinds.{EventKind}
use visible_agent_loop_proto.Kernel.Identities.{Identity, identity_eq}
use visible_agent_loop_proto.Kernel.WorkItems.{Attempt, WorkItem}
use visible_agent_loop_proto.Kernel.Transitions.{is_terminal_item}
use visible_agent_loop_proto.Kernel.ControlEvents.{cancel_where}
use visible_agent_loop_proto.Kernel.Authority.{
  adapter_cancel_obligation, is_live, dict_get, cancelled_work_item,
}
use visible_agent_loop_proto.Kernel.Branches.{passes_interrupt}
use visible_agent_loop_proto.Kernel.WaitEvents.{is_incomplete}
use visible_agent_loop_proto.Kernel.Decisions.{is_unfinished}
use visible_agent_loop_proto.Kernel.ItemMoves.{item_edge}

-- The item has ended.
abbrev pub has_ended : WorkItem → Bool
has_ended item = is_terminal_item item.status

pub cancel_where-has_ended :
    (xs : List WorkItem) → all has_ended (cancel_where is_unfinished xs).0 ≡ true
unfolding cancel_where all cancelled_work_item
cancel_where-has_ended [] = refl
cancel_where-has_ended (x ∷ xs) = elim (Bool-cases (is_terminal_item x.status)) [
  | inl y ↦ rw y (ground (arith, cancel_where-has_ended xs))
  | inr n ↦ rw n (cancel_where-has_ended xs)
]

-- A live attempt of an item that has not ended is one that the adapter is told to cancel.
pub cancel_where-obligation :
    (xs : List WorkItem) (i : ℕ) (item : WorkItem) (attempt : Attempt)
    → get_elem? xs i ≡ some item
    → has_ended item ≡ false
    → item.current_attempt ≡ some attempt
    → is_live attempt.status ≡ true
    → contains (cancel_where is_unfinished xs).1 (adapter_cancel_obligation attempt) ≡ true
unfolding cancel_where contains cancelled_work_item
cancel_where-obligation [] i item attempt f e c l = cc
cancel_where-obligation (x ∷ xs) zero item attempt f e c l =
    let p : x ≡ item = ground arith in
    rw p (rw e (rw c (rw l (ground (arith, eq_refl (adapter_cancel_obligation attempt))))))
cancel_where-obligation (x ∷ xs) (suc i) item attempt f e c l =
    let r = cancel_where-obligation xs i item attempt f e c l in
    elim (Bool-cases (is_terminal_item x.status)) [
      | inl y ↦ rw y r
      | inr n ↦ rw n (
          ground (
            arith,
            contains-append _ (cancel_where is_unfinished xs).1 (adapter_cancel_obligation attempt),
          ))
    ]

-- A moving item does not pass an interruption.
pub edge-passes_interrupt :
    (kind : EventKind) (s t : WorkItemStatus)
    → item_edge kind s t ≡ true
    → passes_interrupt kind ≡ false
unfolding contains
edge-passes_interrupt kind s t e = ground arith

-- The completed item of an identity.
pub record Completed (items : List WorkItem) (id : Identity) : Type 0 where
  pub index : ℕ
  pub item : WorkItem
  pub there : get_elem? items index ≡ some item
  pub identity : item.work_item_id ≡ id
  pub status : item.status ≡ WorkItemStatus.completed

completed_status :
    (x item : WorkItem)
    → some x ≡ some item
    → is_incomplete (some item) ≡ false
    → x.status ≡ WorkItemStatus.completed
completed_status x item p n = ne_sound x.status WorkItemStatus.completed (ground arith)

dict_get-found :
    (items : List WorkItem) (id : Identity) (item : WorkItem)
    → dict_get items id ≡ some item
    → is_incomplete (some item) ≡ false
    → Completed items id
unfolding dict_get
dict_get-found [] id item e n = cc
dict_get-found (x ∷ xs) id item e n =
    go (dict_get xs id) refl (λ d. dict_get-found xs id item d n) e
  where
    go :
        (o : Option WorkItem)
        → dict_get xs id ≡ o
        → (dict_get xs id ≡ some item → Completed xs id)
        → elim o [ some later ↦ some later | none ↦ if x.work_item_id == id then some x else none ]
          ≡ some item
        → Completed (x ∷ xs) id
    go none d f e1 = elim (Bool-cases (x.work_item_id == id)) [
      | inl y ↦ record {
        index = 0;
        item = x;
        there = refl;
        identity = eq_sound x.work_item_id id y;
        status = completed_status x item (rw y at e1) n;
      }
      | inr m ↦ cc (rw m at e1)
    ]
    go (some later) d f e1 =
        let r = f (cc (d, e1)) in
        record {
          index = suc r.index;
          item = r.item;
          there = r.there;
          identity = r.identity;
          status = r.status;
        }

complete_get :
    (items : List WorkItem) (id : Identity) (o : Option WorkItem)
    → dict_get items id ≡ o
    → is_incomplete o ≡ false
    → Completed items id
complete_get items id none e n = cc
complete_get items id (some item) e n = dict_get-found items id item e n

pub complete_of :
    (items : List WorkItem) (required : List Identity) (id : Identity)
    → any (λ i. is_incomplete (dict_get items i)) required ≡ false
    → contains required id ≡ true
    → Completed items id
unfolding any contains
complete_of items [] id n c = cc
complete_of items (x ∷ xs) id n c = elim (Bool-cases (id == x)) [
  | inl y ↦ complete_get items id (dict_get items id) refl (
      rw (← eq_sound id x y) at (
        or_left (is_incomplete (dict_get items x)) (any (λ i. is_incomplete (dict_get items i)) xs)
          n))
  | inr m ↦ complete_of items xs id (or_right _ _ n) (rw m at c)
]
