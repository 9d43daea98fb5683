-- ===== src/Lib.antt =====
-- A verification of the protocol kernel of the Visible Agent Loop Protocol, valp_cli/protocol_kernel.py,
-- and of the store that keeps its history, valp_cli/kernel_store.py.
--
-- The kernel is a pure function: `reduce` takes the state of a task, an event and the evidence for it,
-- and returns a result that is accepted, no operation or rejected. `replay` folds `reduce` over the
-- entries of a history from a genesis state or from an authenticated checkpoint. A
-- `KernelStore` keeps the genesis root, the journal of the accepted entries, a checkpoint and the ledger
-- of the effects as files: `append` replays the journal with the new entry before it replaces the file,
-- and `recover` replays what it reads. The rest of the package runs the obligations and talks to
-- adapters.
--
-- Prelude: lists, decided equality, numbers and sets. Python's `int` is the type ℤ over native
--   numbers, sets and dictionaries of hashable keys are lists.
-- Json: the values that the kernel serialises, and `json.dumps` with sorted keys, compact separators
--   and no escaping beyond what JSON requires. The digits of a number are taken with as many rounds as
--   the number itself, and one round divides it by ten, so they suffice.
-- Kernel/IdentityKinds, TaskStatuses, WorkStatuses, ControlWords, EventKinds: the enumerations.
-- Kernel/Words: a field of type `Union[SomeEnum, str]`.
-- Kernel/Identities, WorkItems, States, Events, Results: the dataclasses and their `canonical`.
-- Kernel/StateEquality: the equality of states that the checkpoints test.
-- Kernel/Digests: `_canonical_json`, `_digest`, `_is_digest`, `_input_digest`.
-- Kernel/Validity: `_state_is_valid`, `_event_is_valid`, `_evidence_set_is_valid` and their parts.
-- Kernel/Authority: `_authority_is_valid`, `_cancelled_work_item`, `_eligible_work_item`,
--   `_attempt_event_is_stale`.
-- Kernel/Outcomes, Transitions, ControlEvents, WaitEvents, ItemEvents, AttemptEvents, Branches: the
--   branches of `reduce`. A branch decides on a conflict, on the values of its local variables, or on
--   an exception where it would dereference `None`.
-- Kernel/Acceptance, Reduce: the checks before the branches, and the result after them.
-- Kernel/Checkpoints, Replay: the roots, the replay prefix, and `replay`.
-- Kernel/Inversion, Facts, Indexing, Decisions, WaitDecisions, ItemMoves, AttemptDecisions,
--   ItemDecisions, BranchDecisions, BranchTotality, SoundItems, SoundChanges, ResultIdentities,
--   Gates: lemmas.
-- Kernel/Invariant, History, StatusMoves, Runs, ReplaySound, RunReplay, ItemStability, Controls,
--   Redelivery, Totality: the properties.
-- Kernel/Samples, Scenarios, Examples: concrete inputs.
--
-- Store/Members, Shapes, StateDecoders, EventDecoders, ResultDecoders: the decoders of kernel_store.py.
-- Store/Files: the files of a store, what a call may end in, `_replace`, `_ensure_regular` and `_locked`
--   (the last two of valp_cli/receipt_store.py). Store/Lines: the lines of a canonical file.
-- Store/Recovery: `_load_genesis`, `_load_entries`, `_load_checkpoint`, `_recover_unlocked`.
-- Store/Operations, Persisting: `initialize`, `append`, `recover`; `persist_checkpoint`.
-- Store/EffectRecords, Reconciliation, Effects: `_load_effects`, `reconcile_effects`, `record_effect`.
-- Store/ShapeLemmas, Readable, PartRoundTrips, StateRoundTrips, EventRoundTrips, EntryRoundTrips,
--   JournalText, Legibility and Json/OneLine: what is written is read back.
-- Store/AppendSpec: how an append may end, as a relation. Store/Locking, Reloading, Durability,
--   FullReplay, Progress, Initialization, CheckpointBacking: the properties of the operations.
-- Store/LineTexts, LedgerText: the text and the chain of a loaded effect ledger.
-- Store/EffectParts, EffectLedger, EffectAdditions, EffectRecording, EffectProofs, EffectAnswers: the
--   properties of the effects.
-- Store/Scenarios, Samples, Examples, EffectExamples: concrete inputs.
--
-- An operation of the store takes the files and gives the files after it with its result. What the
-- operating system does meanwhile is an argument, an environment: it refuses the lock or grants it; the
-- directory or the temporary file cannot be made, a replacement fails before or after the rename, the
-- temporary path cannot be removed before or after it, or all goes well; the release of the lock
-- succeeds or fails. The environment also tells whether the caller handles an exception, since
-- `sys.exc_info()` sees it at the release.
-- `json.loads` is an instance argument without a law; a theorem that reads a text back asks that
-- `json.loads` gives for this text the value it was dumped from, members in the order of the dump's
-- argument: two equal dicts are one value here. The code compares dicts where the model compares their
-- dumped texts. A decoder refuses a field whose JSON value has a wrong type at once, where the code
-- keeps the value. In a state, an event, a root or an entry of the journal a later check of the code
-- refuses it too. In the accepted result of the authentication of a checkpoint no check reads the
-- types of `input_digest`, `obligations` and `audit_facts`: there the model refuses a checkpoint that
-- the code may take. A file is a text, so invalid UTF-8 does not occur; links do not occur, and of the
-- lock file only the refusal of the lock is seen. The paths of `_safe_ref` are those of POSIX.
--
-- SHA-256 is a parameter: an instance argument with the documented form of `hexdigest`, 64 lower-case
-- hexadecimal digits, and no other assumption. Values of a wrong dynamic type, which the `isinstance`
-- tests refuse, have no counterpart, and neither have lone surrogates in texts.
--
-- Not modelled: `ClaimResult`, which no function of the kernel reads, the ledger of receipts in
-- receipt_store.py, and the modules of valp_cli that are not named here.
pub mod Prelude
pub mod Json
pub mod Kernel
pub mod Store
