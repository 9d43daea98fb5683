-- ===== src/Kernel/Outcomes.antt =====
-- valp_cli/protocol_kernel.py: what a call may end in, and what a branch of `reduce` decides.
use visible_agent_loop_proto.Prelude.{
  ℤ, String, Option, none, some, List, Bool, true, false, ◌≡◌, refl, if◌then◌else◌,
}
use visible_agent_loop_proto.Json.{decimal}
use visible_agent_loop_proto.Kernel.TaskStatuses.{TaskStatus}
use visible_agent_loop_proto.Kernel.WorkItems.{WorkItem}
use visible_agent_loop_proto.Kernel.States.{Suspension, ControlState}

-- The exceptions that the kernel's code can raise.
pub data Exception : Type 0 where
  attribute_error index_error os_error : Exception
  value_error key_error type_error : String → Exception

pub data Outcome {ℓ} (A : Type ℓ) : Type ℓ where
  returned : A → Outcome A
  raised : Exception → Outcome A

infixl 5 ◌>>=◌
abbrev pub ◌>>=◌ {ℓ κ} : {A : Type ℓ} {B : Type κ} → Outcome A → (A → Outcome B) → Outcome B
returned a >>= f = f a
raised x >>= f = raised x

-- The local variables that the branches of `reduce` assign.
pub record Change : Type 0 where
  pub target_status : Option TaskStatus
  pub work_items : List WorkItem
  pub suspension : Option Suspension
  pub control : Option ControlState
  pub obligations : List String
  pub audit_facts : List String

-- A branch rejects with a state conflict, goes on with its change, or raises.
pub data Branch : Type 0 where
  conflict : Branch
  changed : Change → Branch
  fails : Exception → Branch

-- `if refused: return _reject(..., STATE_CONFLICT_ERROR)`, and then the rest.
unfoldable pub refuse_if : Bool → Branch → Branch
refuse_if true rest = conflict
refuse_if false rest = rest

pub refuse_if-changed :
    (b : Bool) (rest : Branch) (c : Change)
    → refuse_if b rest ≡ changed c
    → (b ≡ false) × (rest ≡ changed c)
unfolding refuse_if
refuse_if-changed true rest c h = cc
refuse_if-changed false rest c h = (refl, h)

-- `value.attribute` of a value that may be `None`.
unfoldable pub attribute_of : {A : Type 0} → Option A → (A → Branch) → Branch
attribute_of none k = fails attribute_error
attribute_of (some a) k = k a

pub attribute_of-changed :
    {A : Type 0} (o : Option A) (k : A → Branch) (c : Change)
    → attribute_of o k ≡ changed c
    → (a : A) × (o ≡ some a) × (k a ≡ changed c)
unfolding attribute_of
attribute_of-changed none k c h = cc
attribute_of-changed (some a) k c h = (a, refl, h)

-- An integer, or `None`, in a format string.
abbrev pub formatted : Option ℤ → String
formatted none = "None"
formatted (some n) = decimal n

-- A chain that returns went through its first part.
pub bind-returned :
    {A B : Type 0} (o : Outcome A) (f : A → Outcome B) (b : B)
    → (o >>= f) ≡ returned b
    → (a : A) × (o ≡ returned a) × (f a ≡ returned b)
bind-returned (returned a) f b h = (a, refl, h)
bind-returned (raised x) f b h = cc

pub raise_or :
    {A : Type 0} (b : Bool) (x : Exception) (rest : Outcome A) (a : A)
    → (if b then raised x else rest) ≡ returned a
    → (b ≡ false) × (rest ≡ returned a)
raise_or true x rest a h = cc
raise_or false x rest a h = (refl, h)

pub returned_inj : {A : Type 0} (a b : A) → returned a ≡ returned b → a ≡ b
returned_inj a b h = cc
