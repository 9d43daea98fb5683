-- ===== src/Store/Reloading.antt =====
-- valp_cli/kernel_store.py: the files that an append leaves are loaded as the entries that it recovered.
use visible_agent_loop_proto.Kernel.Identities.{identity_eq}
use visible_agent_loop_proto.Prelude.{
  true, List, [], ◌∷◌, ◌++◌, ◌≡◌, refl, find-none-append, eq_refl, string_eq, All, sym, ap, ◌∙◌,
  if◌then◌else◌, Bool, false,
}
use visible_agent_loop_proto.Kernel.Digests.{Sha256}
use visible_agent_loop_proto.Kernel.Outcomes.{Outcome, returned, raised, Exception}
use visible_agent_loop_proto.Kernel.Checkpoints.{GenesisRoot, ReplayEntry}
use visible_agent_loop_proto.Store.JournalText.{
  Legible, journal_of-journal_text, journal_of-returned,
}
use visible_agent_loop_proto.Store.Files.{
  File, Files, Loads, Attempted, gives, throws, refuses, ◌>>>◌, lifted, Ended,
}
use visible_agent_loop_proto.Store.Recovery.{
  KernelRecovery, load_genesis, load_entries, journal_of, journal_text, recover_unlocked, recovered,
}
use visible_agent_loop_proto.Store.Operations.{same_event, loaded}
use visible_agent_loop_proto.Store.AppendSpec.{
  rewritten, Repeats, AppendEnds, stops, fails, repeats, appends, is_unsure, is_left,
}
use visible_agent_loop_proto.Store.Locking.{is_regular}

-- A chain that gives a value went through its first part.
pub bind-gives :
    {A B : Type 0} (o : Attempted A) (f : A → Attempted B) (b : B)
    → (o >>> f) ≡ gives b
    → (a : A) × (o ≡ gives a) × (f a ≡ gives b)
bind-gives (gives a) f b h = (a, refl, h)
bind-gives (refuses e) f b h = cc
bind-gives (throws x) f b h = cc

pub throw_or :
    {A : Type 0} (b : Bool) (x : Exception) (rest : Attempted A) (a : A)
    → (if b then throws x else rest) ≡ gives a
    → (b ≡ false) × (rest ≡ gives a)
throw_or true x rest a h = cc
throw_or false x rest a h = (refl, h)

pub gives_inj : {A : Type 0} (a b : A) → gives a ≡ gives b → a ≡ b
gives_inj a b h = cc

pub lifted-gives : {A : Type 0} (o : Outcome A) (a : A) → lifted o ≡ gives a → o ≡ returned a
lifted-gives (returned x) a h = cc
lifted-gives (raised x) a h = cc

All-append :
    {A : Type 0} (P : A → Type 0) (xs : List A) (x : A) → All P xs → P x → All P (xs ++ x ∷ [])
All-append P [] x h k = (k, tt)
All-append P (y ∷ xs) x (p, h) k = (p, All-append P xs x h k)

module _ ⦃sha : Sha256⦄ ⦃l : Loads⦄ where
  pub load_entries-Legible :
      (file : File) (entries : List ReplayEntry)
      → load_entries file ≡ gives entries
      → (is_regular file ≡ true) × All Legible entries
  unfolding load_entries
  load_entries-Legible File.absent entries h = (refl, rw (sym (gives_inj [] entries h)) tt)
  load_entries-Legible File.irregular entries h = cc
  load_entries-Legible (File.holding payload) entries h =
      (refl, journal_of-returned payload entries (lifted-gives (journal_of payload) entries h))

  load_entries-journal_text :
      (entries : List ReplayEntry)
      → All Legible entries
      → load_entries (File.holding (journal_text entries)) ≡ gives entries
  unfolding load_entries
  load_entries-journal_text entries h = rw (journal_of-journal_text entries h) refl

  pub loaded-gives :
      (files : Files) (g : GenesisRoot) (entries : List ReplayEntry)
      → loaded files ≡ gives (g, entries)
      → (load_genesis files.genesis ≡ gives g) × (load_entries files.journal ≡ gives entries)
  unfolding loaded
  loaded-gives files g entries h =
      let (g', p, q) = bind-gives (load_genesis files.genesis) _ (g, entries) h in
      let (entries', p', q') = bind-gives (load_entries files.journal) _ (g, entries) q in
      let same = gives_inj (g', entries') (g, entries) q' in
      (p ∙ ap (λ x. gives x.0) same, p' ∙ ap (λ x. gives x.1) same)

  pub recovered-loaded :
      (files : Files) (g : GenesisRoot) (entries : List ReplayEntry)
      → loaded files ≡ gives (g, entries)
      → recovered files ≡ recover_unlocked files g entries
  unfolding recovered
  recovered-loaded files g entries h =
      let (p, q) = loaded-gives files g entries h in rw p (rw q refl)

  loaded-rewritten :
      (files : Files) (g : GenesisRoot) (entries : List ReplayEntry) (entry : ReplayEntry)
      → loaded files ≡ gives (g, entries)
      → Legible entry
      → loaded (rewritten files (entries ++ entry ∷ [])) ≡ gives (g, entries ++ entry ∷ [])
  unfolding loaded
  loaded-rewritten files g entries entry h legible =
      let (p, q) = loaded-gives files g entries h in
      let (regular, old) = load_entries-Legible files.journal entries q in
      rw p (
        rw
          (load_entries-journal_text (entries ++ entry ∷ [])
            (All-append Legible entries entry old legible))
          refl)

  -- After an append that gives a recovery the journal holds the entry, and this recovery is the one of the files.
  pub record Holds (files : Files) (entry : ReplayEntry) (r : KernelRecovery) : Type 0 where
    pub root : GenesisRoot
    pub entries : List ReplayEntry
    pub is_repeated : Repeats files root entries entry
    pub recovers : recover_unlocked files root entries ≡ gives r

  pub AppendEnds-Holds :
      (files : Files) (entry : ReplayEntry) (E : Ended KernelRecovery) (r : KernelRecovery)
      → AppendEnds files entry E
      → Legible entry
      → E.result ≡ gives r
      → Holds E.files entry r
  AppendEnds-Holds files entry E r (stops e) k h = cc
  AppendEnds-Holds files entry E r (fails x) k h = cc
  AppendEnds-Holds files entry E r (repeats g entries s) k h = record {
    root = g;
    entries = entries;
    is_repeated = s;
    recovers = h;
  }
  AppendEnds-Holds files entry E r (appends g entries s) k h = record {
    root = g;
    entries = entries ++ entry ∷ [];
    is_repeated = record {
      read = loaded-rewritten files g entries entry s.read k;
      prior = entry;
      found =
          find-none-append (same_event entry) entries entry s.new_event
            (eq_refl entry.event.event_id);
      same = refl;
    };
    recovers = h;
  }
  AppendEnds-Holds files entry E r (is_unsure g entries s) k h = cc
  AppendEnds-Holds files entry E r (is_left g entries s) k h = cc
