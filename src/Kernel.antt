-- ===== src/Kernel.antt =====
-- valp_cli/protocol_kernel.py: the pure protocol kernel.
pub mod IdentityKinds
pub mod TaskStatuses
pub mod WorkStatuses
pub mod ControlWords
pub mod EventKinds
pub mod Identities
pub mod WorkItems
pub mod Words
pub mod States
pub mod StateEquality
pub mod Events
pub mod Results
pub mod Digests
pub mod Validity
pub mod Authority
pub mod Outcomes
pub mod Transitions
pub mod ControlEvents
pub mod WaitEvents
pub mod ItemEvents
pub mod AttemptEvents
pub mod Branches
pub mod Acceptance
pub mod Reduce
pub mod Checkpoints
pub mod Replay
pub mod Inversion
pub mod Facts
pub mod Indexing
pub mod Decisions
pub mod WaitDecisions
pub mod ItemDecisions
pub mod AttemptDecisions
pub mod ItemMoves
pub mod BranchDecisions
pub mod Totality
pub mod BranchTotality
pub mod SoundItems
pub mod SoundChanges
pub mod ResultIdentities
pub mod Invariant
pub mod StatusMoves
pub mod History
pub mod Runs
pub mod ReplaySound
pub mod ItemStability
pub mod Gates
pub mod Controls
pub mod Redelivery
pub mod RunReplay
pub mod Samples
pub mod Scenarios
pub mod Examples
