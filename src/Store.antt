-- ===== src/Store.antt =====
-- valp_cli/kernel_store.py: the decoders of canonical JSON and the durable store of the kernel's history.
pub mod Members
pub mod Shapes
pub mod StateDecoders
pub mod EventDecoders
pub mod ResultDecoders
pub mod ShapeLemmas
pub mod Readable
pub mod PartRoundTrips
pub mod StateRoundTrips
pub mod EventRoundTrips
pub mod EntryRoundTrips
pub mod Files
pub mod Lines
pub mod Recovery
pub mod Operations
pub mod Persisting
pub mod JournalText
pub mod AppendSpec
pub mod Locking
pub mod Reloading
pub mod Durability
pub mod FullReplay
pub mod Progress
pub mod Legibility
pub mod Initialization
pub mod CheckpointBacking
pub mod EffectRecords
pub mod Reconciliation
pub mod Effects
pub mod EffectParts
pub mod EffectLedger
pub mod LineTexts
pub mod LedgerText
pub mod EffectAdditions
pub mod EffectRecording
pub mod EffectProofs
pub mod EffectAnswers
pub mod Scenarios
pub mod Samples
pub mod Examples
pub mod EffectExamples
