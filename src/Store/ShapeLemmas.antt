-- ===== src/Store/ShapeLemmas.antt =====
-- The access to the members of a canonical object of valp_cli/kernel_store.py: what `get` finds among members
-- that may be left out, and how arrays and optional members decode.
use visible_agent_loop_proto.Kernel.Validity.{is_empty}
use mathlib.Core.Option
use visible_agent_loop_proto.Prelude.{
  String, Bool, true, Option, none, some, List, [], ◌∷◌, ◌++◌, ◌≡◌, refl, map, all, ◌==◌, string_eq,
  is_subset, contains, if◌then◌else◌, Bool-cases, inl, inr, ap, arith, All, is_none, ◌||◌, ◌&&◌,
}
use visible_agent_loop_proto.Json.{Json, items, fields}
use visible_agent_loop_proto.Json.Value.{field_list, item_list}
use visible_agent_loop_proto.Kernel.States.{when_present, when_nonempty}
use visible_agent_loop_proto.Kernel.Outcomes.{Outcome, returned}
use visible_agent_loop_proto.Store.Shapes.{members, keys, shape, get, given, each, array_or_empty}

pub members-field_list : (xs : List (String × Json)) → members (field_list xs) ≡ xs
members-field_list [] = refl
members-field_list ((k, v) ∷ xs) = ap (λ rest. (k, v) ∷ rest) (members-field_list xs)

-- The first of two finds.
abbrev pub or_else : Option Json → Option Json → Option Json
or_else none o = o
or_else (some v) o = some v

pub get-append :
    (key : String) (xs ys : List (String × Json))
    → get key (xs ++ ys) ≡ or_else (get key xs) (get key ys)
unfolding get
get-append key [] ys = refl
get-append key ((k, v) ∷ xs) ys = elim (Bool-cases (k == key)) [
  | inl y ↦ rw y refl
  | inr n ↦ rw n (get-append key xs ys)
]

pub get-when_present :
    {A : Type 0} (key name : String) (f : A → Json) (o : Option A)
    → get key (when_present name f o) ≡ (if name == key then Option.map f o else none)
unfolding get
get-when_present key name f none = elim (Bool-cases (name == key)) [
  | inl y ↦ rw y refl
  | inr n ↦ rw n refl
]
get-when_present key name f (some a) = refl

-- The array of a list that is left out when it is empty.
abbrev pub array_or_none : {A : Type 0} → (A → Json) → List A → Option Json
array_or_none f [] = none
array_or_none f (x ∷ xs) = some (items (map f (x ∷ xs)))

pub get-when_nonempty :
    {A : Type 0} (key name : String) (f : A → Json) (xs : List A)
    → get key (when_nonempty name f xs) ≡ (if name == key then array_or_none f xs else none)
unfolding get
get-when_nonempty key name f [] = elim (Bool-cases (name == key)) [
  | inl y ↦ rw y refl
  | inr n ↦ rw n refl
]
get-when_nonempty key name f (x ∷ xs) = refl

pub get-cons :
    (key k : String) (v : Json) (xs : List (String × Json))
    → get key ((k, v) ∷ xs) ≡ (if k == key then some v else get key xs)
unfolding get
get-cons key k v xs = refl

pub get-nil : (key : String) → get key [] ≡ none
unfolding get
get-nil key = refl

pub or_else-none : (o : Option Json) → or_else o none ≡ o
or_else-none none = refl
or_else-none (some v) = refl

-- What is found among the members of a canonical form.
pub ruleset reads =
    (get-nil, get-cons, get-append, get-when_present, get-when_nonempty, or_else-none)

-- Every key of the members has the property.
abbrev pub all_keys : (String → Bool) → List (String × Json) → Bool
all_keys p xs = all p (keys xs)

pub all_keys-append :
    (p : String → Bool) (xs ys : List (String × Json))
    → all_keys p (xs ++ ys) ≡ (all_keys p xs && all_keys p ys)
unfolding all
all_keys-append p [] ys = refl
all_keys-append p ((key, v) ∷ xs) ys = ground (arith, all_keys-append p xs ys)

pub all_keys-when_present :
    {A : Type 0} (p : String → Bool) (name : String) (f : A → Json) (o : Option A)
    → all_keys p (when_present name f o) ≡ (p name || is_none o)
unfolding all
all_keys-when_present p name f none = ground arith
all_keys-when_present p name f (some a) = ground arith

pub all_keys-when_nonempty :
    {A : Type 0} (p : String → Bool) (name : String) (f : A → Json) (xs : List A)
    → all_keys p (when_nonempty name f xs) ≡ (p name || is_empty xs)
unfolding all
all_keys-when_nonempty p name f [] = ground arith
all_keys-when_nonempty p name f (x ∷ xs) = ground arith

-- The keys of a canonical form, where each is one of those that the shape allows.
pub ruleset key_rules = (all_keys-append, all_keys-when_present, all_keys-when_nonempty)

pub shape-fields :
    (xs : List (String × Json)) (required optional : List String)
    → is_subset required (keys xs) ≡ true
    → all_keys (contains (required ++ optional)) xs ≡ true
    → shape (fields xs) required optional ≡ returned xs
unfolding is_subset
shape-fields xs required optional r o = rw (members-field_list xs) (rw r (rw o refl))

-- A value that is there has the property.
abbrev pub Given : {A : Type 0} → (A → Type 0) → Option A → Type 0
Given P none = Unit
Given P (some a) = P a

-- A decoder that undoes the canonical form of the readable elements undoes that of the array,
pub each-map :
    {A : Type 0} (P : A → Type 0) (d : Json → Outcome A) (f : A → Json) (xs : List A)
    → ((x : A) → P x → d (f x) ≡ returned x)
    → All P xs
    → each d (item_list (map f xs)) ≡ returned xs
unfolding each
each-map P d f [] u h = refl
each-map P d f (x ∷ xs) u (h, hs) = rw (u x h) (rw (each-map P d f xs u hs) refl)

-- of an array that is left out when it is empty,
pub array_or_empty-array_or_none :
    {A : Type 0} (P : A → Type 0) (d : Json → Outcome A) (f : A → Json) (xs : List A)
    → ((x : A) → P x → d (f x) ≡ returned x)
    → All P xs
    → array_or_empty (array_or_none f xs) d ≡ returned xs
array_or_empty-array_or_none P d f [] u h = refl
array_or_empty-array_or_none P d f (x ∷ xs) u h = each-map P d f (x ∷ xs) u h

-- and of a value that may be left out.
pub given-map :
    {A : Type 0} (P : A → Type 0) (d : Json → Outcome A) (f : A → Json) (o : Option A)
    → ((x : A) → P x → d (f x) ≡ returned x)
    → Given P o
    → given (Option.map f o) d ≡ returned o
given-map P d f none u h = refl
given-map P d f (some a) u h = rw (u a h) refl
