-- ===== src/Kernel/RunReplay.antt =====
-- `replay` of valp_cli/protocol_kernel.py and runs: the entries that a run leaves replay to its end.
use visible_agent_loop_proto.Prelude.{
  String, true, none, List, [], ◌∷◌, ◌≡◌, refl, string_eq, eq_refl,
}
use visible_agent_loop_proto.Kernel.States.{State}
use visible_agent_loop_proto.Kernel.Results.{Accepted, Result, result_canonical}
use visible_agent_loop_proto.Kernel.Digests.{Sha256, canonical_json}
use visible_agent_loop_proto.Kernel.Outcomes.{Outcome, returned, ◌>>=◌}
use visible_agent_loop_proto.Kernel.Reduce.{reduce}
use visible_agent_loop_proto.Kernel.Checkpoints.{ReplayEntry, GenesisRoot, accepted_of}
use visible_agent_loop_proto.Kernel.Replay.{
  genesis, replay, verified_root, genesis_is_valid, replay_entry, replay_from, matched, required,
}
use visible_agent_loop_proto.Kernel.Runs.{Run, ends, steps}

module _ ⦃sha : Sha256⦄ where
  -- The entries that a run leaves: each event with its evidence and its accepted result.
  abbrev pub entries_of : {s t : State} → Run s t → List ReplayEntry
  entries_of ends = []
  entries_of (steps event evidence_set a h r) =
      record { event = event; evidence_set = evidence_set; result = Result.accepted a }
      ∷ entries_of r

  abbrev pub digests_of : {s t : State} → Run s t → List String
  digests_of ends = []
  digests_of (steps event evidence_set a h r) = a.result_digest ∷ digests_of r

  matched_self : (a : Accepted) → matched (Result.accepted a) a ≡ returned a
  matched_self a = rw (eq_refl (canonical_json (result_canonical (Result.accepted a)))) refl

  pub required_self :
      (a : Accepted) (o : Outcome Result)
      → o ≡ returned (Result.accepted a)
      → (o >>= λ r. required (Result.accepted a) (accepted_of r)) ≡ returned a
  required_self a o h = rw h (matched_self a)

  -- The rest of the loop after one entry.
  abbrev continued : List ReplayEntry → Accepted → Outcome (State × List String)
  continued rest x = replay_from x.state rest >>= λ l. returned (l.0, x.result_digest ∷ l.1)

  chained :
      (a : Accepted) (t : State) (rest : List ReplayEntry) (o : Outcome Accepted)
      (digests : List String)
      → o ≡ returned a
      → replay_from a.state rest ≡ returned (t, digests)
      → (o >>= continued rest) ≡ returned (t, a.result_digest ∷ digests)
  chained a t rest o digests h k = rw h (rw k refl)

  replay_from-entries_of :
      {s t : State} (r : Run s t) → replay_from s (entries_of r) ≡ returned (t, digests_of r)
  unfolding replay_from replay_entry
  replay_from-entries_of ends = refl
  replay_from-entries_of {s} {t} (steps event evidence_set a h r) =
      chained a t (entries_of r) _ (digests_of r) (required_self a (reduce s event evidence_set) h)
        (replay_from-entries_of r)

  -- The entries of a run from a genesis root replay: the replay returns the state at the run's end,
  -- with the digests of the run's results in their order and no obligations.
  pub replay-entries_of :
      (root : GenesisRoot) (t : State) (r : Run root.state t)
      → genesis_is_valid root.state ≡ true
      → replay (genesis root) (entries_of r) none
        ≡ returned (record { state = t; applied_result_digests = digests_of r; obligations = [] })
  unfolding replay verified_root
  replay-entries_of root t r g = rw g (rw (replay_from-entries_of r) refl)
