-- ===== src/Kernel/Indexing.antt =====
-- `item_index` and `replace_at` of the branches of `reduce`: the index found is that of the event's
-- item, and a replacement changes that item alone.
use visible_agent_loop_proto.Prelude.{
  ℕ, zero, suc, Bool, true, Option, none, some, List, [], ◌∷◌, ◌≡◌, refl, all, get_elem?, arith,
  option_eq, ap, Bool-cases, inl, inr,
}
use mathlib.Core.Option
use visible_agent_loop_proto.Kernel.Identities.{identity_eq}
use visible_agent_loop_proto.Kernel.WorkItems.{WorkItem}
use visible_agent_loop_proto.Kernel.Events.{Event}
use visible_agent_loop_proto.Kernel.Validity.{work_item_ids}
use visible_agent_loop_proto.Kernel.Authority.{has_item_id}
use visible_agent_loop_proto.Kernel.ItemEvents.{item_index, replace_at}

head-index : (i : ℕ) → some 0 ≡ some i → i ≡ 0
head-index i h = ground arith

-- An index into the rest of the list.
shifted :
    {P : WorkItem → Type 0} (x : WorkItem) (xs : List WorkItem) (i : ℕ) (o : Option ℕ)
    → Option.map suc o ≡ some i
    → ((j : ℕ) → o ≡ some j → (item : WorkItem) × (get_elem? xs j ≡ some item) × P item)
    → (item : WorkItem) × (get_elem? (x ∷ xs) i ≡ some item) × P item
shifted x xs i none h f = absurd (ground arith)
shifted x xs zero (some j) h f = absurd (ground arith)
shifted x xs (suc i) (some j) h f = f i (ground arith)

pub item_index-found :
    (e : Event) (xs : List WorkItem) (i : ℕ)
    → item_index e xs ≡ some i
    → (item : WorkItem) × (get_elem? xs i ≡ some item) × (has_item_id e item ≡ true)
unfolding item_index
item_index-found e [] i h = cc
item_index-found e (x ∷ xs) i h = elim (Bool-cases (has_item_id e x)) [
  | inl y ↦ (x, rw (head-index i (rw y at h)), y)
  | inr n ↦ shifted x xs i (item_index e xs) (rw n at h) (item_index-found e xs)
]

pub replace_at-suc :
    (i : ℕ) (v x : WorkItem) (xs : List WorkItem)
    → replace_at (suc i) v (x ∷ xs) ≡ x ∷ replace_at i v xs
unfolding replace_at
replace_at-suc i v x xs = refl

-- The item that is replaced keeps its identity, so the identities stay.
pub work_item_ids-replace_at :
    (i : ℕ) (v : WorkItem) (xs : List WorkItem) {item : WorkItem}
    → get_elem? xs i ≡ some item
    → v.work_item_id ≡ item.work_item_id
    → work_item_ids (replace_at i v xs) ≡ work_item_ids xs
unfolding replace_at
work_item_ids-replace_at i v [] h e = ground arith
work_item_ids-replace_at zero v (x ∷ xs) h e = ground arith
work_item_ids-replace_at (suc i) v (x ∷ xs) h e =
    ap (λ l. x.work_item_id ∷ l) (work_item_ids-replace_at i v xs h e)

pub all-replace_at :
    (p : WorkItem → Bool) (i : ℕ) (v : WorkItem) (xs : List WorkItem)
    → all p xs ≡ true
    → p v ≡ true
    → all p (replace_at i v xs) ≡ true
unfolding replace_at all
all-replace_at p zero v [] h k = ground arith
all-replace_at p (suc i) v [] h k = ground arith
all-replace_at p zero v (x ∷ xs) h k = ground arith
all-replace_at p (suc i) v (x ∷ xs) h k = ground (arith, all-replace_at p i v xs)

pub all-get_elem? :
    (p : WorkItem → Bool) (i : ℕ) (xs : List WorkItem) {item : WorkItem}
    → all p xs ≡ true
    → get_elem? xs i ≡ some item
    → p item ≡ true
unfolding all
all-get_elem? p i [] h e = ground arith
all-get_elem? p zero (x ∷ xs) h e = ground arith
all-get_elem? p (suc i) (x ∷ xs) {item = item} h e =
    ground (arith, all-get_elem? p i xs {item = item})
