-- ===== src/Store/EffectLedger.antt =====
-- valp_cli/kernel_store.py: what a reconciliation tells of the obligations.
use visible_agent_loop_proto.Kernel.Results.{Accepted}
use visible_agent_loop_proto.Prelude.{
  ◌+◌, String, true, not, Option, none, some, List, [], ◌∷◌, ◌≡◌, refl, sym, ap, ◌∙◌, ◌&&◌,
  string_eq, all, contains, if◌then◌else◌, Bool, false, All, is_distinct, is_distinct-append, ◌++◌,
}
use visible_agent_loop_proto.Kernel.Digests.{Sha256}
use visible_agent_loop_proto.Kernel.Outcomes.{returned, raised, attribute_error, returned_inj}
use visible_agent_loop_proto.Kernel.Checkpoints.{ReplayEntry, accepted_of}
use visible_agent_loop_proto.Store.Files.{Files, gives, lifted}
use visible_agent_loop_proto.Store.EffectRecords.{fulfilled, blocked, KernelEffectRecord}
use visible_agent_loop_proto.Store.Reconciliation.{
  KernelEffectReconciliation, accepted_obligations, validate_effect_proofs, reconcile_unlocked,
  obligations_from, unseen,
}
use visible_agent_loop_proto.Store.Reloading.{bind-gives, gives_inj, lifted-gives, throw_or}
use visible_agent_loop_proto.Store.EffectParts.{
  each_once, all_stand, contains-pending_of, occurrences, obligations_of, is_recorded, Stands,
}

added :
    (seen : List String) (x : String) (b : Bool)
    → contains seen x ≡ b
    → is_distinct seen ≡ true
    → is_distinct (if b then seen else seen ++ x ∷ []) ≡ true
added seen x true c h = h
added seen x false c h = is_distinct-append seen x h c

unseen-is_distinct :
    (seen obligations : List String)
    → is_distinct seen ≡ true
    → is_distinct (unseen seen obligations) ≡ true
unfolding unseen
unseen-is_distinct seen [] h = h
unseen-is_distinct seen (x ∷ rest) h =
    unseen-is_distinct (if contains seen x then seen else seen ++ x ∷ []) rest
      (added seen x _ refl h)

after_entry :
    (seen : List String) (rest : List ReplayEntry) (obligations : List String) (o : Option Accepted)
    → is_distinct seen ≡ true
    → ((a : Accepted)
        → obligations_from (unseen seen a.obligations) rest ≡ returned obligations
        → is_distinct obligations ≡ true)
    → elim o [
      | none ↦ raised attribute_error
      | some a ↦ obligations_from (unseen seen a.obligations) rest
    ]
      ≡ returned obligations
    → is_distinct obligations ≡ true
after_entry seen rest obligations none d k h = cc
after_entry seen rest obligations (some a) d k h = k a h

obligations_from-is_distinct :
    (seen : List String) (entries : List ReplayEntry) (obligations : List String)
    → is_distinct seen ≡ true
    → obligations_from seen entries ≡ returned obligations
    → is_distinct obligations ≡ true
unfolding obligations_from
obligations_from-is_distinct seen [] obligations d h = ap is_distinct (sym (returned_inj _ _ h)) ∙ d
obligations_from-is_distinct seen (entry ∷ rest) obligations d h =
    after_entry seen rest obligations (accepted_of entry.result) d
      (λ a.
        obligations_from-is_distinct (unseen seen a.obligations) rest obligations
          (unseen-is_distinct seen a.obligations d))
      h

nothing-is_distinct : is_distinct {A = String} [] ≡ true
unfolding is_distinct
nothing-is_distinct = refl

-- What a reconciliation tells of the accepted obligations and the records of the ledger.
pub record Accounts (obligations : List String) (records : List KernelEffectRecord)
    (r : KernelEffectReconciliation) : Type 0 where
  pub distinct : is_distinct obligations ≡ true
  pub each :
      (o : String)
      → occurrences o r.pending
          + occurrences o (obligations_of r.fulfilled)
          + occurrences o (obligations_of r.blocked)
        ≡ occurrences o obligations
  pub unrecorded :
      (o : String) → contains r.pending o ≡ (contains obligations o && not (is_recorded records o))
  pub all_fulfilled : All (Stands records fulfilled) r.fulfilled
  pub all_blocked : All (Stands records blocked) r.blocked

module _ ⦃sha : Sha256⦄ where
  -- A reconciliation that is given accounts for the accepted obligations of the entries, which are distinct: every obligation stands as often among the
  -- pending ones, the obligations of the fulfilled records and those of the blocked records together as among the accepted ones; it is
  -- pending exactly where it is accepted and no record of the ledger has it; and every fulfilled or blocked record
  -- stands in the ledger with that status.
  pub reconcile_unlocked-Accounts :
      (files : Files) (entries : List ReplayEntry) (records : List KernelEffectRecord)
      (r : KernelEffectReconciliation)
      → reconcile_unlocked files entries records ≡ gives r
      → (obligations : List String) × (accepted_obligations entries ≡ returned obligations)
        × Accounts obligations records r
  unfolding reconcile_unlocked
  reconcile_unlocked-Accounts files entries records r h =
      let (obligations, p, q) = bind-gives (lifted (accepted_obligations entries)) _ r h in
      let (known, k) =
        throw_or (not (all (λ (x : KernelEffectRecord). contains obligations x.obligation) records))
          _ _ r q in
      let (done, v, g) = bind-gives (validate_effect_proofs files.proofs records) _ r k in
      rw (sym (gives_inj _ r g)) (
        obligations,
        lifted-gives _ obligations p,
        record {
          distinct =
              obligations_from-is_distinct [] entries obligations nothing-is_distinct
                (lifted-gives _ obligations p);
          each = each_once records obligations;
          unrecorded = contains-pending_of records obligations;
          all_fulfilled = all_stand records fulfilled obligations;
          all_blocked = all_stand records blocked obligations;
        },
      )
