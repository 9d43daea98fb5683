-- ===== src/Store/Durability.antt =====
-- valp_cli/kernel_store.py: what `append` does to the files in every environment, and that what it gave is found again.
use visible_agent_loop_proto.Prelude.{
  Bool, true, false, List, [], ◌∷◌, ◌++◌, ◌≡◌, ◌⊎◌, inl, inr, refl, is_none, eq_refl, string_eq,
  if◌then◌else◌,
}
use visible_agent_loop_proto.Kernel.Digests.{Sha256}
use visible_agent_loop_proto.Kernel.Checkpoints.{GenesisRoot, ReplayEntry, accepted_of}
use visible_agent_loop_proto.Store.JournalText.{Legible, line_of}
use visible_agent_loop_proto.Store.Files.{
  Files, Loads, Environment, gives, refuses, Ended, operation, reading, store_state_conflict,
}
use visible_agent_loop_proto.Store.Recovery.{KernelRecovery, recovered}
use visible_agent_loop_proto.Store.Operations.{append_body, append, recover}
use visible_agent_loop_proto.Store.AppendSpec.{
  rewritten, Extends, AppendEnds, stops, fails, repeats, appends, is_unsure, append_body-AppendEnds,
  is_left,
}
use visible_agent_loop_proto.Store.Locking.{
  is_regular, Calm, operation-Performed, operation_files, undisturbed_operation,
}
use visible_agent_loop_proto.Store.Reloading.{
  load_entries-Legible, loaded-gives, recovered-loaded, Holds, AppendEnds-Holds,
}

module _ ⦃sha : Sha256⦄ ⦃l : Loads⦄ where
  -- The files are as before, or only the journal has changed, to the one of a longer history that replays.
  abbrev pub Extended : Files → ReplayEntry → Files → Type 0
  Extended files entry later =
      (later ≡ files)
      ⊎ ((g : GenesisRoot) × (entries : List ReplayEntry) × Extends files g entries entry
          × (later ≡ rewritten files (entries ++ entry ∷ [])))

  AppendEnds-Extended :
      (files : Files) (entry : ReplayEntry) (E : Ended KernelRecovery)
      → AppendEnds files entry E
      → Extended files entry E.files
  AppendEnds-Extended files entry E (stops e) = inl refl
  AppendEnds-Extended files entry E (fails x) = inl refl
  AppendEnds-Extended files entry E (repeats g entries s) = inl refl
  AppendEnds-Extended files entry E (appends g entries s) = inr (g, entries, s, refl)
  AppendEnds-Extended files entry E (is_unsure g entries s) = inr (g, entries, s, refl)
  AppendEnds-Extended files entry E (is_left g entries s) = inr (g, entries, s, refl)

  operation-Extended :
      (env : Environment) (files : Files) (entry : ReplayEntry)
      → Extended files entry (operation env files (append_body env entry)).files
  operation-Extended env files entry = elim (operation_files env files (append_body env entry)) [
    | inl same ↦ inl same
    | inr run ↦ rw run (AppendEnds-Extended files entry _ (append_body-AppendEnds env entry files))
  ]

  either-Extended :
      (b : Bool) (files : Files) (entry : ReplayEntry) (E F : Ended KernelRecovery)
      → Extended files entry E.files
      → Extended files entry F.files
      → Extended files entry (if b then E else F).files
  either-Extended true files entry E F h k = h
  either-Extended false files entry E F h k = k

  -- Whatever happens to the lock, the replacement and the release, an append leaves every file as it was, or it
  -- replaces the journal alone, by the lines of its entries and then of the new one, where the journal held no entry of
  -- this event and the replay of all of them from the genesis root succeeds.
  pub append-Extended :
      (env : Environment) (files : Files) (entry : ReplayEntry)
      → Extended files entry (append env files entry).files
  unfolding append
  append-Extended env files entry =
      either-Extended (is_none (accepted_of entry.result)) files entry _ _ (inl refl)
        (operation-Extended env files entry)

  -- Kept with its journal, which is a regular file.
  abbrev Kept : Files → ReplayEntry → KernelRecovery → Type 0
  Kept files entry r = (is_regular files.journal ≡ true) × Holds files entry r

  Holds-Kept :
      (files : Files) (entry : ReplayEntry) (r : KernelRecovery)
      → Holds files entry r
      → Kept files entry r
  Holds-Kept files entry r h = (
    (load_entries-Legible files.journal h.entries
        (loaded-gives files h.root h.entries h.is_repeated.read).1).0,
    h,
  )

  operation-Kept :
      (env : Environment) (files : Files) (entry : ReplayEntry) (r : KernelRecovery)
      → Legible entry
      → (operation env files (append_body env entry)).result ≡ gives r
      → Kept (operation env files (append_body env entry)).files entry r
  operation-Kept env files entry r k h =
      let p = operation-Performed env files (append_body env entry) r h in
      rw p.left (
        Holds-Kept _ entry r
          (AppendEnds-Holds files entry _ r (append_body-AppendEnds env entry files) k p.gave))

  either-Kept :
      (b : Bool) (entry : ReplayEntry) (E F : Ended KernelRecovery) (r : KernelRecovery)
      → ((if b then E else F).result ≡ gives r)
      → E.result ≡ refuses store_state_conflict
      → (F.result ≡ gives r → Kept F.files entry r)
      → (b ≡ false) × Kept (if b then E else F).files entry r
  either-Kept true entry E F r h e k = cc
  either-Kept false entry E F r h e k = (refl, k h)

  append-Kept :
      (env : Environment) (files : Files) (entry : ReplayEntry) (r : KernelRecovery)
      → Legible entry
      → (append env files entry).result ≡ gives r
      → (is_none (accepted_of entry.result) ≡ false) × Kept (append env files entry).files entry r
  unfolding append
  append-Kept env files entry r k h =
      either-Kept (is_none (accepted_of entry.result)) entry _ _ r h refl
        (operation-Kept env files entry r k)

  Kept-recover :
      (env : Environment) (files : Files) (entry : ReplayEntry) (r : KernelRecovery)
      → Calm env
      → Kept files entry r
      → recover env files ≡ record { files = files; replaced = false; result = gives r }
  unfolding recover
  Kept-recover env files entry r calm (regular, h) =
      rw (undisturbed_operation env files (reading recovered) calm regular)
        (rw (recovered-loaded files h.root h.entries h.is_repeated.read) (rw h.recovers refl))

  repeated_body :
      (env : Environment) (files : Files) (entry : ReplayEntry) (r : KernelRecovery)
      → Holds files entry r
      → append_body env entry files ≡ record { files = files; replaced = false; result = gives r }
  unfolding append_body
  repeated_body env files entry r h = rw h.is_repeated.read (
      rw h.is_repeated.found
        (rw h.is_repeated.same (rw (eq_refl (line_of entry)) (rw h.recovers refl))))

  Kept-append :
      (env : Environment) (files : Files) (entry : ReplayEntry) (r : KernelRecovery)
      → is_none (accepted_of entry.result) ≡ false
      → Calm env
      → Kept files entry r
      → append env files entry ≡ record { files = files; replaced = false; result = gives r }
  unfolding append
  Kept-append env files entry r a calm (regular, h) = rw a (
      rw (undisturbed_operation env files (append_body env entry) calm regular)
        (rw (repeated_body env files entry r h) refl))

  -- An append that gives a recovery is durable: of the files that it leaves, a later recovery that has the lock and releases it gives this recovery, and
  -- changes nothing. The entry must be legible: the line that is written for it is read as this entry, as it is for a
  -- readable entry with its evidence in canonical order where `json.loads` gives back the value that was dumped.
  pub recover-append :
      (env later : Environment) (files : Files) (entry : ReplayEntry) (r : KernelRecovery)
      → Legible entry
      → Calm later
      → (append env files entry).result ≡ gives r
      → recover later (append env files entry).files
        ≡ record { files = (append env files entry).files; replaced = false; result = gives r }
  recover-append env later files entry r k calm h =
      Kept-recover later (append env files entry).files entry r calm
        (append-Kept env files entry r k h).1

  -- An append is idempotent: after an append that gives a recovery, a second one of the same entry that has the lock and releases it gives
  -- the same recovery, and changes no file. The entry must be legible: the line that is written for it is read as this entry, as it is for a
  -- readable entry with its evidence in canonical order where `json.loads` gives back the value that was dumped.
  pub append-append :
      (env later : Environment) (files : Files) (entry : ReplayEntry) (r : KernelRecovery)
      → Legible entry
      → Calm later
      → (append env files entry).result ≡ gives r
      → append later (append env files entry).files entry
        ≡ record { files = (append env files entry).files; replaced = false; result = gives r }
  append-append env later files entry r k calm h =
      let (accepted, kept) = append-Kept env files entry r k h in
      Kept-append later (append env files entry).files entry r accepted calm kept
