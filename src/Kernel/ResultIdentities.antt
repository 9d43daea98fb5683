-- ===== src/Kernel/ResultIdentities.antt =====
-- The identities and the digests that `reduce` of valp_cli/protocol_kernel.py gives to results: a new
use text.Mathlib.TextLemmas.{append_cancel_right, nil-append, cons-append}
-- event gives a new result identity, and a digest has the form that `_is_digest` asks for.
use Prim.Native.Char.{code}
use Prim.Native.String.{◌++◌ as concat}
use visible_agent_loop_proto.Prelude.{
  String, Bool, true, false, none, List, [], ◌∷◌, ◌++◌, ◌≡◌, refl, all, find, contains, arith, ap,
  ◌==◌, nat_eq, list_eq, Option, some,
}
use visible_agent_loop_proto.Kernel.IdentityKinds.{
  IdentityKind, identity_kind_eq, identity_kind_iff,
}
use visible_agent_loop_proto.Kernel.Identities.{Identity, identity_eq, identity_iff}
use visible_agent_loop_proto.Kernel.States.{AcceptedEvent}
use visible_agent_loop_proto.Kernel.Events.{Event}
use visible_agent_loop_proto.Json.{Json}
use visible_agent_loop_proto.Kernel.Digests.{
  Sha256, is_digest, is_hexdigest, digest, codes, canonical_json,
}
use visible_agent_loop_proto.Kernel.Validity.{
  of_kind, event_ids, result_ids, accepted_event_is_valid,
}
use visible_agent_loop_proto.Kernel.Reduce.{is_event}

-- The identity of the result of an event that was accepted.
abbrev pub result_of : Identity → Identity
result_of i = record { kind = IdentityKind.result; value = concat i.value ":accepted" }

-- The entry has the identity that `reduce` gives to the result of its event.
abbrev pub names_result : AcceptedEvent → Bool
names_result e = e.result_id == result_of e.event_id

codes-append : (s t : String) → codes (concat s t) ≡ codes s ++ codes t
unfolding codes
codes-append String.[] t = ap codes (nil-append t)
codes-append (String.◌∷◌ c s) t = rw (cons-append c s t) (ap (λ l. code c ∷ l) (codes-append s t))

prefixed : (s : String) → is_hexdigest s ≡ true → is_digest (concat "sha256:" s) ≡ true
unfolding is_hexdigest is_digest codes
prefixed s h = rw (codes-append "sha256:" s) (ground arith)

-- A digest that the kernel computes passes the check of digests.
pub digest-is_digest : ⦃sha : Sha256⦄ → (value : Json) → is_digest (digest value) ≡ true
unfolding digest
digest-is_digest ⦃sha⦄ value =
    prefixed (sha.hexdigest (canonical_json value))
      (sha.hexdigest-is_hexdigest (canonical_json value))

eq_comm : (i j : Identity) → (i == j) ≡ (j == i)
eq_comm i j = ground (arith, identity_iff i j, identity_iff j i)

not_found :
    (b : Bool) (x : AcceptedEvent) (rest : Option AcceptedEvent)
    → elim b [ true ↦ some x | false ↦ rest ] ≡ none
    → (b ≡ false) × (rest ≡ none)
not_found true x rest h = cc
not_found false x rest h = (refl, h)

-- An event that is not found in the history is not one of its events.
pub find-is_event-event_ids :
    (event : Event) (xs : List AcceptedEvent)
    → find (is_event event) xs ≡ none
    → contains (event_ids xs) event.event_id ≡ false
unfolding find contains
find-is_event-event_ids event [] h = refl
find-is_event-event_ids event (x ∷ xs) h =
    let (n, r) = not_found (is_event event x) x (find (is_event event) xs) h in
    rw (eq_comm event.event_id x.event_id) (rw n (find-is_event-event_ids event xs r))

result_of_inj : (i j : Identity) → i.kind ≡ j.kind → result_of i ≡ result_of j → i ≡ j
result_of_inj i j k h =
    let v = append_cancel_right i.value j.value ":accepted" (ap (λ (x : Identity). x.value) h) in
    same i j k v
  where
    same : (i j : Identity) → i.kind ≡ j.kind → i.value ≡ j.value → i ≡ j
    same i j k v = cc

-- Then its result is not one of the history's results either.
pub event_ids-result_ids :
    (i : Identity) (xs : List AcceptedEvent)
    → of_kind IdentityKind.event i ≡ true
    → all accepted_event_is_valid xs ≡ true
    → all names_result xs ≡ true
    → contains (event_ids xs) i ≡ false
    → contains (result_ids xs) (result_of i) ≡ false
unfolding contains all accepted_event_is_valid
event_ids-result_ids i [] k v n h = refl
event_ids-result_ids i (x ∷ xs) k v n h = ground (
  arith,
  event_ids-result_ids i xs,
  identity_iff (result_of i) x.result_id,
  identity_iff x.result_id (result_of x.event_id),
  identity_iff i x.event_id,
  identity_kind_iff i.kind IdentityKind.event,
  identity_kind_iff x.event_id.kind IdentityKind.event,
  result_of_inj i x.event_id,
)
