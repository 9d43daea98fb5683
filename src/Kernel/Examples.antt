-- ===== src/Kernel/Examples.antt =====
-- The theorems about valp_cli/protocol_kernel.py at concrete inputs.
use visible_agent_loop_proto.Json.{Json}
use visible_agent_loop_proto.Kernel.ResultIdentities.{digest-is_digest}
use visible_agent_loop_proto.Kernel.Digests.{digest, is_digest}
use visible_agent_loop_proto.Kernel.ReplaySound.{replay-WellFormed}
use visible_agent_loop_proto.Kernel.RunReplay.{entries_of, digests_of, replay-entries_of}
use visible_agent_loop_proto.Kernel.Replay.{genesis, replay, genesis_is_valid}
use visible_agent_loop_proto.Kernel.Checkpoints.{GenesisRoot}
use visible_agent_loop_proto.Prelude.{true, none, List, [], ◌++◌, ◌≡◌, refl, all}
use visible_agent_loop_proto.Kernel.IdentityKinds.{IdentityKind}
use visible_agent_loop_proto.Kernel.TaskStatuses.{TaskStatus}
use visible_agent_loop_proto.Kernel.WorkStatuses.{WorkItemStatus}
use visible_agent_loop_proto.Kernel.EventKinds.{EventKind}
use visible_agent_loop_proto.Kernel.Words.{known}
use visible_agent_loop_proto.Kernel.States.{AcceptedEvent, State}
use visible_agent_loop_proto.Kernel.Results.{Accepted, Result, Replay}
use visible_agent_loop_proto.Kernel.Outcomes.{returned}
use visible_agent_loop_proto.Kernel.Reduce.{reduce}
use visible_agent_loop_proto.Kernel.Samples.{id, parity, published, authority}
use visible_agent_loop_proto.Kernel.Scenarios.{
  after, accepted_after, cancel, interrupted, later, suspended, wake, failure, published_valid,
  published_cancels, interrupted_cancels, suspended_wakes, done_fails,
}
use visible_agent_loop_proto.Kernel.Invariant.{WellFormed, reduce-WellFormed}
use visible_agent_loop_proto.Kernel.Runs.{
  Run, ends, steps, Run-WellFormed, Run-history, Run-terminal,
}
use visible_agent_loop_proto.Kernel.Redelivery.{reduce-redelivered}
use visible_agent_loop_proto.Kernel.Totality.{Settles, reduce-Settles}
use visible_agent_loop_proto.Kernel.Controls.{
  Cancelled, reduce-Cancelled, Woken, reduce-Woken, Passes, reduce-Passes,
}
use visible_agent_loop_proto.Kernel.ItemStability.{Holds, reduce-Holds}
use visible_agent_loop_proto.Kernel.StatusMoves.{StatusMove, reduce-StatusMove}
use visible_agent_loop_proto.Kernel.History.{Advances, reduce-Advances}

published-WellFormed : WellFormed published
unfolding all
published-WellFormed = record { valid = published_valid; results_named = refl }

abbrev cancelled : Accepted
cancelled = after (reduce published cancel authority)

cancelled_by : reduce published cancel authority ≡ returned (Result.accepted cancelled)
cancelled_by = accepted_after (reduce published cancel authority) published_cancels

abbrev woken : Accepted
woken = after (reduce suspended wake [])

woken_by : reduce suspended wake [] ≡ returned (Result.accepted woken)
woken_by = accepted_after (reduce suspended wake []) suspended_wakes

abbrev finished : State
finished = later TaskStatus.done

abbrev failed : Accepted
failed = after (reduce finished failure [])

failed_by : reduce finished failure [] ≡ returned (Result.accepted failed)
failed_by = accepted_after (reduce finished failure []) done_fails

reduce-WellFormed_example : WellFormed cancelled.state
reduce-WellFormed_example =
    reduce-WellFormed published cancel authority cancelled published-WellFormed cancelled_by

cancelled_run : Run published cancelled.state
cancelled_run = steps cancel authority cancelled cancelled_by ends

finished_run : Run finished failed.state
finished_run = steps failure [] failed failed_by ends

Run-WellFormed_example : WellFormed cancelled.state
Run-WellFormed_example = Run-WellFormed cancelled_run published-WellFormed

Run-history_example :
    (more : List AcceptedEvent) × (cancelled.state.accepted_events
      ≡ published.accepted_events ++ more)
Run-history_example = Run-history cancelled_run

Run-terminal_example : failed.state.status ≡ known TaskStatus.done
Run-terminal_example = Run-terminal TaskStatus.done finished_run refl refl

reduce-redelivered_example :
    reduce cancelled.state cancel authority
    ≡ returned (
        Result.no_op (record {
          state = cancelled.state;
          input_digest = cancelled.input_digest;
          prior_result_id = cancelled.result_id;
          prior_result_digest = cancelled.result_digest;
        }))
reduce-redelivered_example =
    reduce-redelivered published cancel authority cancelled EventKind.task_cancelled
      published-WellFormed refl refl cancelled_by

reduce-Settles_example : Settles published (reduce published wake [])
reduce-Settles_example = reduce-Settles published wake []

reduce-Cancelled_example : Cancelled published cancelled
reduce-Cancelled_example = reduce-Cancelled published cancel authority cancelled refl cancelled_by

reduce-Woken_example : Woken suspended woken
reduce-Woken_example = reduce-Woken suspended wake [] woken refl woken_by

abbrev cancelled_later : Accepted
cancelled_later = after (reduce interrupted cancel authority)

cancelled_later_by :
    reduce interrupted cancel authority ≡ returned (Result.accepted cancelled_later)
cancelled_later_by = accepted_after (reduce interrupted cancel authority) interrupted_cancels

reduce-Passes_example :
    (kind : EventKind) × (cancel.kind ≡ known kind)
    × Passes kind interrupted.work_items cancelled_later.state.work_items
reduce-Passes_example =
    reduce-Passes interrupted cancel authority cancelled_later refl cancelled_later_by

item_a : Holds finished.work_items 0 (id IdentityKind.work_item "a") WorkItemStatus.completed
item_a = record { item = _; there = refl; identity = refl; status = refl }

reduce-Holds_example :
    Holds failed.state.work_items 0 (id IdentityKind.work_item "a") WorkItemStatus.completed
reduce-Holds_example =
    reduce-Holds finished failure [] failed 0 (id IdentityKind.work_item "a")
      WorkItemStatus.completed refl item_a failed_by

reduce-StatusMove_example :
    (kind : EventKind) × (status : TaskStatus) × (target : TaskStatus) × (cancel.kind ≡ known kind)
    × (published.status ≡ known status)
    × (cancelled.state.status ≡ known target)
    × StatusMove kind status target
reduce-StatusMove_example = reduce-StatusMove published cancel authority cancelled cancelled_by

reduce-Advances_example : Advances published cancel authority cancelled
reduce-Advances_example = reduce-Advances published cancel authority cancelled cancelled_by

abbrev root : GenesisRoot
root = record { state = published }

published_genesis : genesis_is_valid published ≡ true
unfolding genesis_is_valid
published_genesis = rw published_valid refl

abbrev replayed_cancellation : Replay
replayed_cancellation = record {
  state = cancelled.state;
  applied_result_digests = digests_of cancelled_run;
  obligations = [];
}

replay-entries_of_example :
    replay (genesis root) (entries_of cancelled_run) none ≡ returned replayed_cancellation
replay-entries_of_example = replay-entries_of root cancelled.state cancelled_run published_genesis

replays : replay (genesis root) (entries_of cancelled_run) none ≡ returned replayed_cancellation
replays = replay-entries_of root cancelled.state cancelled_run published_genesis

replay-WellFormed_example : WellFormed cancelled.state
replay-WellFormed_example =
    replay-WellFormed root (entries_of cancelled_run) replayed_cancellation replays

digest-is_digest_example : is_digest (digest (Json.str "valp")) ≡ true
digest-is_digest_example = digest-is_digest (Json.str "valp")
