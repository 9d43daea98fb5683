-- ===== src/Kernel/ReplaySound.antt =====
-- `replay` of valp_cli/protocol_kernel.py: a replay that succeeds is a run of accepted events.
use visible_agent_loop_proto.Kernel.ResultIdentities.{names_result}
use visible_agent_loop_proto.Prelude.{
  List, [], ◌∷◌, ◌≡◌, refl, true, String, none, Bool, arith, is_none, ◌!=◌, not, string_eq,
  not-false, all, ap,
}
use visible_agent_loop_proto.Kernel.States.{State, AcceptedEvent}
use visible_agent_loop_proto.Kernel.Results.{Accepted, Result, Replay, result_canonical}
use visible_agent_loop_proto.Kernel.Validity.{is_empty}
use visible_agent_loop_proto.Kernel.Digests.{Sha256, canonical_json}
use visible_agent_loop_proto.Kernel.Outcomes.{
  returned, ◌>>=◌, bind-returned, returned_inj, raise_or,
}
use visible_agent_loop_proto.Kernel.Reduce.{reduce}
use visible_agent_loop_proto.Kernel.Checkpoints.{ReplayEntry, accepted_of, GenesisRoot}
use visible_agent_loop_proto.Kernel.Replay.{
  genesis, replay_entry, replay_from, replay, verified_root, genesis_is_valid, required, replayed,
}
use visible_agent_loop_proto.Kernel.Invariant.{WellFormed}
use visible_agent_loop_proto.Kernel.Runs.{Run, ends, steps, Run-WellFormed}

all_empty :
    (p : AcceptedEvent → Bool) (xs : List AcceptedEvent) → is_empty xs ≡ true → all p xs ≡ true
unfolding all
all_empty p [] h = refl
all_empty p (x ∷ xs) h = cc

module _ ⦃sha : Sha256⦄ where
  required-returned :
      (expected : Result) (r : Result) (a : Accepted)
      → required expected (accepted_of r) ≡ returned a
      → r ≡ Result.accepted a
  required-returned expected (Result.accepted x) a h =
      let (b, e) =
        raise_or
          (canonical_json (result_canonical (Result.accepted x))
            != canonical_json (result_canonical expected))
          _ (returned x) a h in
      ap Result.accepted (returned_inj x a e)
  required-returned expected (Result.no_op n) a h = cc
  required-returned expected (Result.rejected r) a h = cc

  replay_entry-accepted :
      (s : State) (entry : ReplayEntry) (a : Accepted)
      → replay_entry s entry ≡ returned a
      → reduce s entry.event entry.evidence_set ≡ returned (Result.accepted a)
  unfolding replay_entry
  replay_entry-accepted s entry a h =
      let (b, h1) =
        raise_or (is_none (accepted_of entry.result)) _
          (reduce s entry.event entry.evidence_set >>= λ r. required entry.result (accepted_of r)) a
          h in
      let (r, e, h2) =
        bind-returned (reduce s entry.event entry.evidence_set)
          (λ r. required entry.result (accepted_of r)) a h1 in
      rw (required-returned entry.result r a h2) at e

  -- The loop of `replay` takes a run to the state that it returns.
  pub replay_from-Run :
      (s t : State) (entries : List ReplayEntry) (digests : List String)
      → replay_from s entries ≡ returned (t, digests)
      → Run s t
  unfolding replay_from
  replay_from-Run s t [] digests h =
      rw (ap (λ (p : State × List String). p.0) (returned_inj (s, []) (t, digests) h)) ends
  replay_from-Run s t (entry ∷ rest) digests h =
      let (a, e, h1) =
        bind-returned (replay_entry s entry)
          (λ x. replay_from x.state rest >>= λ l. returned (l.0, x.result_digest ∷ l.1))
          (t, digests) h in
      let (l, f, h2) =
        bind-returned (replay_from a.state rest) (λ l. returned (l.0, a.result_digest ∷ l.1))
          (t, digests) h1 in
      let q : l.0 ≡ t =
        ap (λ (p : State × List String). p.0)
          (returned_inj (l.0, a.result_digest ∷ l.1) (t, digests) h2) in
      steps entry.event entry.evidence_set a (replay_entry-accepted s entry a e)
        (rw q at (replay_from-Run a.state l.0 rest l.1 f))

  genesis-WellFormed : (s : State) → genesis_is_valid s ≡ true → WellFormed s
  unfolding genesis_is_valid all
  genesis-WellFormed s h = record {
    valid = ground arith;
    results_named = all_empty names_result s.accepted_events (ground arith);
  }

  -- A replay from a genesis root that succeeds ends in a state that is well formed.
  pub replay-WellFormed :
      (root : GenesisRoot) (entries : List ReplayEntry) (result : Replay)
      → replay (genesis root) entries none ≡ returned result
      → WellFormed result.state
  unfolding replay verified_root
  replay-WellFormed root entries result h =
      let (s, e, h1) =
        bind-returned (verified_root (genesis root) none)
          (λ s. replay_from s entries >>= λ d. returned (replayed d)) result h in
      let (d, f, h2) =
        bind-returned (replay_from s entries) (λ d. returned (replayed d)) result h1 in
      let (n, e1) = raise_or (not (genesis_is_valid root.state)) _ (returned root.state) s e in
      let q : d.0 ≡ result.state =
        ap (λ (r : Replay). r.state) (returned_inj (replayed d) result h2) in
      let w : WellFormed s =
        rw (returned_inj root.state s e1) at
          (genesis-WellFormed root.state (not-false (genesis_is_valid root.state) n)) in
      rw q at (Run-WellFormed (replay_from-Run s d.0 entries d.1 f) w)
