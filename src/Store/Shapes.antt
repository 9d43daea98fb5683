-- ===== src/Store/Shapes.antt =====
-- valp_cli/kernel_store.py: `_shape`, and the access to the members of a decoded JSON object. A dict is the
-- list of its members: `_reject_pairs` lets no key occur twice, so the first of a key is its only one.
use visible_agent_loop_proto.Prelude.{
  ℤ, String, Option, none, some, List, [], ◌∷◌, ◌++◌, map, ◌&&◌, ◌==◌, string_eq, is_subset,
  if◌then◌else◌, Bool, false,
}
use visible_agent_loop_proto.Json.{Json, int, str, arr, obj, Items, Fields}
use visible_agent_loop_proto.Json.Value.{no_items, item, no_fields, field}
use visible_agent_loop_proto.Kernel.Outcomes.{
  Outcome, returned, raised, value_error, key_error, type_error, ◌>>=◌,
}

-- The members of an object.
abbrev pub members : Fields → List (String × Json)
members no_fields = []
members (field key value rest) = (key, value) ∷ members rest

abbrev pub keys : List (String × Json) → List String
keys fs = map (λ (m : String × Json). m.0) fs

-- `_shape(value, required, optional)`
abbrev pub shape : Json → List String → List String → Outcome (List (String × Json))
shape (obj fs) required optional =
    if is_subset required (keys (members fs))
      && is_subset (keys (members fs)) (required ++ optional)
    then returned (members fs)
    else raised (value_error "unexpected Kernel object shape")
shape _ required optional = raised (value_error "unexpected Kernel object shape")

-- `value.get(key)`
unfoldable pub get : String → List (String × Json) → Option Json
get key [] = none
get key ((k, value) ∷ rest) = let later = get key rest in if k == key then some value else later

-- `value[key]`, and what is made of it.
abbrev pub entry_of : {A : Type 0} → String → Option Json → (Json → Outcome A) → Outcome A
entry_of key none f = raised (key_error key)
entry_of key (some value) f = f value

abbrev pub at : {A : Type 0} → String → List (String × Json) → (Json → Outcome A) → Outcome A
at key fs f = entry_of key (get key fs) f

-- `f(value[key]) if key in value else None`
abbrev pub given : {A : Type 0} → Option Json → (Json → Outcome A) → Outcome (Option A)
given none f = returned none
given (some value) f = f value >>= λ a. returned (some a)

abbrev pub optional_at :
    {A : Type 0} → String → List (String × Json) → (Json → Outcome A) → Outcome (Option A)
optional_at key fs f = given (get key fs) f

-- A text and an integer. Of another value the source keeps the field as it is, and the checks that follow
-- refuse it; here the type is asked for at once.
abbrev pub text_of : Json → Outcome String
text_of (str s) = returned s
text_of _ = raised (type_error "str")

abbrev pub integer_of : Json → Outcome ℤ
integer_of (int n) = returned n
integer_of _ = raised (type_error "int")

-- `tuple(f(item) for item in value)`
unfoldable pub each : {A : Type 0} → (Json → Outcome A) → Items → Outcome (List A)
each f no_items = returned []
each f (item x xs) = f x >>= λ a. each f xs >>= λ rest. returned (a ∷ rest)

-- An array, and otherwise a `ValueError`.
abbrev pub array_of : {A : Type 0} → (Json → Outcome A) → Json → Outcome (List A)
array_of f (arr xs) = each f xs
array_of f _ = raised (value_error "not an array")

-- `value.get(key, [])` as an array.
abbrev pub array_or_empty : {A : Type 0} → Option Json → (Json → Outcome A) → Outcome (List A)
array_or_empty none f = returned []
array_or_empty (some value) f = array_of f value

-- A member of an enumeration, from its value.
abbrev pub member_of : {A : Type 0} → Option A → Outcome A
member_of none = raised (value_error "not a valid member")
member_of (some m) = returned m

abbrev pub word_of : {A : Type 0} → (String → Option A) → Json → Outcome A
word_of member (str s) = member_of (member s)
word_of member _ = raised (value_error "not a valid member")

abbrev pub is_text : String → Json → Bool
is_text expected (str s) = s == expected
is_text expected _ = false

-- `if value["schema_version"] != version: raise ValueError`
abbrev pub versioned : {A : Type 0} → String → List (String × Json) → Outcome A → Outcome A
versioned version fs rest =
    at "schema_version" fs
      λ value. if is_text version value then rest else raised (value_error "unsupported schema")
