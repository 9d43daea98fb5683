-- ===== src/Kernel/SoundItems.antt =====
-- The moves and cancellations of work items in `reduce` keep every work item valid and keep the
-- identities of the work items.
use visible_agent_loop_proto.Prelude.{
  Bool, true, Option, none, some, List, [], ◌∷◌, ◌≡◌, refl, all, arith, ap, Bool-cases, inl, inr,
}
use visible_agent_loop_proto.Kernel.IdentityKinds.{IdentityKind}
use visible_agent_loop_proto.Kernel.WorkStatuses.{WorkItemStatus, AttemptStatus}
use visible_agent_loop_proto.Kernel.Identities.{Identity, identity_eq, identity_iff}
use visible_agent_loop_proto.Kernel.WorkItems.{Attempt, WorkItem}
use visible_agent_loop_proto.Kernel.States.{State}
use visible_agent_loop_proto.Kernel.Events.{Event}
use visible_agent_loop_proto.Kernel.Validity.{
  absent_or, of_kind, attempt_is_valid, item_fields_are_valid, item_attempt_is_valid,
  work_item_is_valid, work_item_ids, work_fields_are_valid,
}
use visible_agent_loop_proto.Kernel.Authority.{is_open, cancelled_attempt, cancelled_work_item}
use visible_agent_loop_proto.Kernel.ControlEvents.{cancel_where}
use visible_agent_loop_proto.Kernel.ItemMoves.{AttemptMove, kept, moved, created}

-- A change of an attempt's status keeps it valid.
restatus-valid :
    (item : WorkItem) (a : Attempt) (s : AttemptStatus)
    → item_attempt_is_valid item a ≡ true
    → item_attempt_is_valid item (record a { status = s }) ≡ true
unfolding item_attempt_is_valid attempt_is_valid
restatus-valid item a s h = h

created-valid :
    (state : State) (event : Event) (item : WorkItem) (a : Attempt)
    → of_kind IdentityKind.task state.task_id ≡ true
    → work_fields_are_valid event ≡ true
    → item_fields_are_valid item state.task_id ≡ true
    → a.task_id ≡ state.task_id
    → a.work_item_id ≡ item.work_item_id
    → event.attempt_id ≡ some a.attempt_id
    → event.dispatch_id ≡ some a.dispatch_id
    → event.dispatch_generation ≡ some a.dispatch_generation
    → item_attempt_is_valid item a ≡ true
unfolding item_attempt_is_valid attempt_is_valid item_fields_are_valid work_fields_are_valid
created-valid state event item a k f v t w na nd ng = ground (
  arith,
  identity_iff a.task_id item.task_id,
  identity_iff item.task_id state.task_id,
  identity_iff a.work_item_id item.work_item_id,
)

-- The attempt after a move is valid for the item.
AttemptMove-valid :
    (state : State) (event : Event) (item : WorkItem) (next : Option Attempt)
    → of_kind IdentityKind.task state.task_id ≡ true
    → work_fields_are_valid event ≡ true
    → work_item_is_valid state.task_id item ≡ true
    → AttemptMove state event item next
    → absent_or (item_attempt_is_valid item) next ≡ true
unfolding work_item_is_valid
AttemptMove-valid state event item next k f v (kept e) = rw e (ground arith)
AttemptMove-valid state event item next k f v (moved a s e o n) =
    rw n (restatus-valid item a s (ground arith))
AttemptMove-valid state event item next k f v (created a n t w na nd ng s r) =
    rw n (created-valid state event item a k f (ground arith) t w na nd ng)

-- An item whose status and attempt move is valid.
pub moved_item-valid :
    (state : State) (event : Event) (item : WorkItem) (s : WorkItemStatus) (next : Option Attempt)
    → of_kind IdentityKind.task state.task_id ≡ true
    → work_fields_are_valid event ≡ true
    → work_item_is_valid state.task_id item ≡ true
    → AttemptMove state event item next
    → work_item_is_valid state.task_id (record item { status = s; current_attempt = next }) ≡ true
unfolding work_item_is_valid item_fields_are_valid item_attempt_is_valid
moved_item-valid state event item s next k f v m =
    ground (arith, AttemptMove-valid state event item next k f v m)

cancelled_attempt-valid :
    (item : WorkItem) (o : Option Attempt)
    → absent_or (item_attempt_is_valid item) o ≡ true
    → absent_or (item_attempt_is_valid item) (cancelled_attempt o) ≡ true
cancelled_attempt-valid item none h = refl
cancelled_attempt-valid item (some a) h = elim (Bool-cases (is_open a.status)) [
  | inl y ↦ rw y (restatus-valid item a AttemptStatus.cancelled h)
  | inr n ↦ rw n h
]

cancelled_work_item-valid :
    (task : Identity) (item : WorkItem)
    → work_item_is_valid task item ≡ true
    → work_item_is_valid task (cancelled_work_item item).0 ≡ true
unfolding work_item_is_valid item_fields_are_valid item_attempt_is_valid cancelled_work_item
cancelled_work_item-valid task item v =
    ground (arith, cancelled_attempt-valid item item.current_attempt)

pub cancel_where-valid :
    (task : Identity) (chosen : WorkItem → Bool) (xs : List WorkItem)
    → all (work_item_is_valid task) xs ≡ true
    → all (work_item_is_valid task) (cancel_where chosen xs).0 ≡ true
unfolding cancel_where all
cancel_where-valid task chosen [] h = refl
cancel_where-valid task chosen (x ∷ xs) h =
    ground (arith, cancelled_work_item-valid task x, cancel_where-valid task chosen xs)

pub work_item_ids-cancel_where :
    (chosen : WorkItem → Bool) (xs : List WorkItem)
    → work_item_ids (cancel_where chosen xs).0 ≡ work_item_ids xs
unfolding cancel_where
work_item_ids-cancel_where chosen [] = refl
work_item_ids-cancel_where chosen (x ∷ xs) = elim (Bool-cases (chosen x)) [
  | inl y ↦ rw y (ap (λ l. x.work_item_id ∷ l) (work_item_ids-cancel_where chosen xs))
  | inr n ↦ rw n (ap (λ l. x.work_item_id ∷ l) (work_item_ids-cancel_where chosen xs))
]
