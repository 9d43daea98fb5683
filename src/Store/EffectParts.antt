-- ===== src/Store/EffectParts.antt =====
-- valp_cli/kernel_store.py: the parts into which a reconciliation divides the obligations.
use visible_agent_loop_proto.Prelude.{
  suc, ◌+◌, String, true, not, Option, none, some, List, [], ◌∷◌, ◌≡◌, refl, sym, ap, ◌∙◌, ◌&&◌,
  ◌==◌, string_eq, eq_sound, contains, is_none, if◌then◌else◌, arith, ℕ, Bool, any, get_elem?, map,
  false, ◌||◌, All,
}
use visible_agent_loop_proto.Store.EffectRecords.{
  KernelEffectStatus, fulfilled, blocked, effect_status_eq, KernelEffectRecord,
}
use visible_agent_loop_proto.Store.Reconciliation.{record_of, pending_of, with_status, having}

-- How often a text stands in a list.
abbrev once : String → String → ℕ
once o x = if o == x then 1 else 0

unfoldable pub occurrences : String → List String → ℕ
occurrences o [] = 0
occurrences o (x ∷ xs) = once o x + occurrences o xs

abbrev pub obligations_of : List KernelEffectRecord → List String
obligations_of records = map (λ (r : KernelEffectRecord). r.obligation) records

-- Some record of the ledger has the obligation.
unfoldable pub is_recorded : List KernelEffectRecord → String → Bool
is_recorded records o = any (λ (r : KernelEffectRecord). r.obligation == o) records

-- A record stands in the ledger, with the status.
abbrev pub Stands : List KernelEffectRecord → KernelEffectStatus → KernelEffectRecord → Type 0
Stands records status r = (i : ℕ) × (get_elem? records i ≡ some r) × (r.status ≡ status)

-- A record after the first is found before it.
latest_or_first :
    (later : Option KernelEffectRecord) (r : KernelEffectRecord) (b recorded : Bool)
    → is_none later ≡ not recorded
    → is_none (elim later [ some found ↦ some found | none ↦ if b then some r else none ])
      ≡ not (b || recorded)
latest_or_first none r true recorded h = ground arith
latest_or_first none r false recorded h = ground arith
latest_or_first (some found) r true recorded h = ground arith
latest_or_first (some found) r false recorded h = ground arith

record_of-is_recorded :
    (records : List KernelEffectRecord) (o : String)
    → is_none (record_of o records) ≡ not (is_recorded records o)
unfolding record_of is_recorded any
record_of-is_recorded [] o = refl
record_of-is_recorded (r ∷ rest) o =
    latest_or_first (record_of o rest) r (r.obligation == o) _ (record_of-is_recorded rest o)

first_found :
    (b : Bool) (r found : KernelEffectRecord)
    → (if b then some r else none) ≡ some found
    → (b ≡ true) × (r ≡ found)
first_found true r found h = (refl, cc)
first_found false r found h = cc

found_in :
    (rest : List KernelEffectRecord) (r : KernelEffectRecord) (o : String)
    (found : KernelEffectRecord) (later : Option KernelEffectRecord)
    → ((x : KernelEffectRecord)
        → later ≡ some x
        → (x.obligation ≡ o) × ((i : ℕ) × (get_elem? rest i ≡ some x)))
    → elim later [ some x ↦ some x | none ↦ if r.obligation == o then some r else none ]
      ≡ some found
    → (found.obligation ≡ o) × ((i : ℕ) × (get_elem? (r ∷ rest) i ≡ some found))
found_in rest r o found (some x) k h =
    let same : x ≡ found = cc in let (named, (i, at)) = k found h in (named, (suc i, at))
found_in rest r o found none k h =
    let (b, same) = first_found (r.obligation == o) r found h in
    (
      ap (λ (x : KernelEffectRecord). x.obligation) (sym same) ∙ eq_sound r.obligation o b,
      (0, ap some same),
    )

record_of-found :
    (records : List KernelEffectRecord) (o : String) (found : KernelEffectRecord)
    → record_of o records ≡ some found
    → (found.obligation ≡ o) × ((i : ℕ) × (get_elem? records i ≡ some found))
unfolding record_of
record_of-found [] o found h = cc
record_of-found (r ∷ rest) o found h =
    found_in rest r o found (record_of o rest) (record_of-found rest o) h

same_recorded :
    (records : List KernelEffectRecord) (o x : String)
    → (o == x) ≡ true
    → is_recorded records o ≡ is_recorded records x
same_recorded records o x h = ap (is_recorded records) (eq_sound o x h)

pub contains-pending_of :
    (records : List KernelEffectRecord) (obligations : List String) (o : String)
    → contains (pending_of records obligations) o
      ≡ (contains obligations o && not (is_recorded records o))
unfolding pending_of contains
contains-pending_of records [] o = refl
contains-pending_of records (x ∷ rest) o = ground (
  arith,
  contains-pending_of records rest o,
  same_recorded records o x,
  record_of-is_recorded records x,
)

-- The part of one obligation: it is pending, or its record is fulfilled or blocked.
once_status :
    (s : KernelEffectStatus) (o : String) (r : KernelEffectRecord) (p : List String)
    (f b : List KernelEffectRecord)
    → occurrences o p
        + occurrences o (obligations_of (if effect_status_eq s fulfilled then r ∷ f else f))
        + occurrences o (obligations_of (if effect_status_eq s blocked then r ∷ b else b))
      ≡ once o r.obligation
        + (occurrences o p + occurrences o (obligations_of f) + occurrences o (obligations_of b))
unfolding occurrences
once_status fulfilled o r p f b = omega arith
once_status blocked o r p f b = omega arith

once_with :
    (o x : String) (found : Option KernelEffectRecord) (p : List String)
    (f b : List KernelEffectRecord)
    → ((r : KernelEffectRecord) → found ≡ some r → r.obligation ≡ x)
    → occurrences o (if is_none found then x ∷ p else p)
        + occurrences o (obligations_of (with_status fulfilled found f))
        + occurrences o (obligations_of (with_status blocked found b))
      ≡ once o x
        + (occurrences o p + occurrences o (obligations_of f) + occurrences o (obligations_of b))
unfolding occurrences
once_with o x none p f b h = omega arith
once_with o x (some r) p f b h =
    once_status r.status o r p f b
    ∙ ap
        (λ y.
          once o y
          + (occurrences o p + occurrences o (obligations_of f) + occurrences o (obligations_of b)))
        (h r refl)

pub each_once :
    (records : List KernelEffectRecord) (obligations : List String) (o : String)
    → occurrences o (pending_of records obligations)
        + occurrences o (obligations_of (having fulfilled records obligations))
        + occurrences o (obligations_of (having blocked records obligations))
      ≡ occurrences o obligations
unfolding pending_of having occurrences
each_once records [] o = refl
each_once records (x ∷ rest) o =
    once_with o x (record_of x records) (pending_of records rest) (having fulfilled records rest)
      (having blocked records rest) (λ r h. (record_of-found records x r h).0)
    ∙ ap (λ n. once o x + n) (each_once records rest o)

pub status_sound : (s t : KernelEffectStatus) → effect_status_eq s t ≡ true → s ≡ t
status_sound fulfilled fulfilled h = refl
status_sound fulfilled blocked h = cc
status_sound blocked fulfilled h = cc
status_sound blocked blocked h = refl

stand_if :
    (records : List KernelEffectRecord) (status : KernelEffectStatus) (r : KernelEffectRecord)
    (later : List KernelEffectRecord) (b : Bool)
    → effect_status_eq r.status status ≡ b
    → ((i : ℕ) × (get_elem? records i ≡ some r))
    → All (Stands records status) later
    → All (Stands records status) (if b then r ∷ later else later)
stand_if records status r later true h (i, at) k = ((i, at, status_sound r.status status h), k)
stand_if records status r later false h at k = k

stand_with :
    (records : List KernelEffectRecord) (status : KernelEffectStatus) (x : String)
    (found : Option KernelEffectRecord) (later : List KernelEffectRecord)
    → ((r : KernelEffectRecord) → found ≡ some r → (i : ℕ) × (get_elem? records i ≡ some r))
    → All (Stands records status) later
    → All (Stands records status) (with_status status found later)
stand_with records status x none later h k = k
stand_with records status x (some r) later h k = stand_if records status r later _ refl (h r refl) k

pub all_stand :
    (records : List KernelEffectRecord) (status : KernelEffectStatus) (obligations : List String)
    → All (Stands records status) (having status records obligations)
unfolding having
all_stand records status [] = tt
all_stand records status (x ∷ rest) =
    stand_with records status x (record_of x records) (having status records rest)
      (λ r h. (record_of-found records x r h).1) (all_stand records status rest)
