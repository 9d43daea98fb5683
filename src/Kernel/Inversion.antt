-- ===== src/Kernel/Inversion.antt =====
-- `reduce` read backwards: everything that an accepted result shows about its inputs.
use package.text.Mathlib.TextLemmas.{append-ne-nil_of_right_ne-nil, cons-ne-nil}
use Prim.Native.String.{◌++◌ as concat}
use visible_agent_loop_proto.Prelude.{
  String, Bool, true, false, not, Option, none, some, List, ◌≡◌, refl, ◌&&◌, find, ◌==◌, ◌!=◌,
  eq_sound, ne_sound, int_eq, Bool-cases, inl, inr, or_left, or_right, not-false, ◌||◌,
  if◌then◌else◌, string_eq,
}
use visible_agent_loop_proto.Kernel.IdentityKinds.{IdentityKind}
use visible_agent_loop_proto.Kernel.TaskStatuses.{TaskStatus, task_status_eq}
use visible_agent_loop_proto.Kernel.ControlWords.{ControlStatus, control_status_eq}
use visible_agent_loop_proto.Kernel.EventKinds.{EventKind}
use visible_agent_loop_proto.Kernel.Words.{Word, known, text}
use visible_agent_loop_proto.Kernel.Identities.{Identity, Evidence, identity_eq, new_identity}
use visible_agent_loop_proto.Kernel.States.{Suspension, AcceptedEvent, State}
use visible_agent_loop_proto.Kernel.Events.{Event}
use visible_agent_loop_proto.Kernel.Results.{Accepted, Result}
use visible_agent_loop_proto.Kernel.Digests.{Sha256, input_digest}
use visible_agent_loop_proto.Kernel.Authority.{attempt_event_is_stale}
use visible_agent_loop_proto.Kernel.Outcomes.{
  Outcome, returned, Change, Branch, conflict, changed, fails,
}
use visible_agent_loop_proto.Kernel.ControlEvents.{current_control}
use visible_agent_loop_proto.Kernel.Branches.{branch, passes_interrupt, settled}
use visible_agent_loop_proto.Kernel.Acceptance.{reject, accept, refused}
use visible_agent_loop_proto.Kernel.Reduce.{
  conclude, carry_out, reduce_new, is_event, inputs_are_valid, look_up, reduce_known,
  words_are_known, reduce_words, reduce, with_suspension, with_target,
}

-- The identity of the accepted result of an event.
abbrev pub accepted_identity : Event → Identity
accepted_identity event = record {
  kind = IdentityKind.result;
  value = concat event.event_id.value ":accepted";
}

nonempty : (s : String) → (concat s ":accepted" == "") ≡ false
nonempty s = elim (Bool-cases (concat s ":accepted" == "")) [
  | inl e ↦ absurd (
      append-ne-nil_of_right_ne-nil s (λ p. cons-ne-nil _ _ p)
        (eq_sound (concat s ":accepted") "" e))
  | inr e ↦ e
]

pub new_identity-accepted :
    (event : Event)
    → new_identity IdentityKind.result (concat event.event_id.value ":accepted")
      ≡ some (accepted_identity event)
unfolding new_identity
new_identity-accepted event = rw (nonempty event.event_id.value)

module _ ⦃sha : Sha256⦄ where
  -- What the end of `reduce` shows: the target, the suspension and the identity of the result.
  pub record Concluded (kind : EventKind) (status : TaskStatus) (state : State) (event : Event)
      (d : String) (change : Change) (a : Accepted) : Type 0 where
    pub target : TaskStatus
    pub suspension : Option Suspension
    pub target_found : change.target_status ≡ some target
    pub suspension_settled : settled kind (target != status) change.suspension ≡ some suspension
    pub result : a ≡ accept state event d target change suspension (accepted_identity event)

  with_suspension-accepted :
      (state : State) (event : Event) (d : String) (target : TaskStatus) (change : Change)
      (o : Option (Option Suspension)) (a : Accepted)
      → with_suspension state event d target change o ≡ returned (Result.accepted a)
      → (s : Option Suspension) × (o ≡ some s)
        × (a ≡ accept state event d target change s (accepted_identity event))
  unfolding reject
  with_suspension-accepted state event d target change none a h = cc
  with_suspension-accepted state event d target change (some s) a h =
      (s, refl, cc (rw (new_identity-accepted event) at h))

  with_target-accepted :
      (kind : EventKind) (status : TaskStatus) (state : State) (event : Event) (d : String)
      (change : Change) (o : Option TaskStatus) (a : Accepted)
      → change.target_status ≡ o
      → with_target kind status state event d change o ≡ returned (Result.accepted a)
      → Concluded kind status state event d change a
  unfolding reject
  with_target-accepted kind status state event d change none a e h = cc
  with_target-accepted kind status state event d change (some target) a e h =
      let (s, q, r) =
        with_suspension-accepted state event d target change
          (settled kind (target != status) change.suspension) a h in
      record {
        target = target;
        suspension = s;
        target_found = e;
        suspension_settled = q;
        result = r;
      }

  conclude-accepted :
      (kind : EventKind) (status : TaskStatus) (state : State) (event : Event) (d : String)
      (change : Change) (a : Accepted)
      → conclude kind status state event d change ≡ returned (Result.accepted a)
      → Concluded kind status state event d change a
  unfolding conclude
  conclude-accepted kind status state event d change a h =
      with_target-accepted kind status state event d change change.target_status a refl h

  -- What an accepted result shows of a new event.
  pub record Fresh (kind : EventKind) (status : TaskStatus) (state : State) (event : Event)
      (d : String) (a : Accepted) : Type 0 where
    pub change : Change
    pub same_task : event.task_id ≡ state.task_id
    pub same_revision : event.expected_revision ≡ state.revision
    pub not_interrupted :
        ((current_control state.control).status == ControlStatus.interrupted
          && not (passes_interrupt kind))
        ≡ false
    pub branch_changed : branch kind status state event ≡ changed change
    pub concluded : Concluded kind status state event d change a

  carry_out-accepted :
      (kind : EventKind) (status : TaskStatus) (state : State) (event : Event) (d : String)
      (b : Branch) (a : Accepted)
      → carry_out kind status state event d b ≡ returned (Result.accepted a)
      → (change : Change) × (b ≡ changed change) × Concluded kind status state event d change a
  unfolding reject
  carry_out-accepted kind status state event d conflict a h = cc
  carry_out-accepted kind status state event d (changed change) a h =
      (change, refl, conclude-accepted kind status state event d change a h)
  carry_out-accepted kind status state event d (fails x) a h = cc

  -- An accepted result does not come from the refusing side of a test.
  not_refused :
      (b : Bool) (state : State) (d : String) (rest : Outcome Result) (a : Accepted)
      → (if b then refused state d else rest) ≡ returned (Result.accepted a)
      → (b ≡ false) × (rest ≡ returned (Result.accepted a))
  unfolding reject
  not_refused true state d rest a h = cc
  not_refused false state d rest a h = (refl, h)

  reduce_new-accepted :
      (kind : EventKind) (status : TaskStatus) (state : State) (event : Event) (d : String)
      (a : Accepted)
      → reduce_new kind status state event d ≡ returned (Result.accepted a)
      → Fresh kind status state event d a
  unfolding reduce_new
  reduce_new-accepted kind status state event d a h =
      let (p, h1) =
        not_refused (event.task_id != state.task_id || event.expected_revision != state.revision)
          state d _ a h in
      let (q, h2) =
        not_refused
          ((current_control state.control).status == ControlStatus.interrupted
            && not (passes_interrupt kind))
          state d _ a h1 in
      let (change, b, c) =
        carry_out-accepted kind status state event d (branch kind status state event) a h2 in
      record {
        change = change;
        same_task = ne_sound event.task_id state.task_id (or_left _ _ p);
        same_revision = ne_sound event.expected_revision state.revision (or_right _ _ p);
        not_interrupted = q;
        branch_changed = b;
        concluded = c;
      }

  look_up-accepted :
      (kind : EventKind) (status : TaskStatus) (state : State) (event : Event) (d : String)
      (o : Option AcceptedEvent) (a : Accepted)
      → look_up kind status state event d o ≡ returned (Result.accepted a)
      → (o ≡ none) × Fresh kind status state event d a
  unfolding reject
  look_up-accepted kind status state event d none a h =
      (refl, reduce_new-accepted kind status state event d a h)
  look_up-accepted kind status state event d (some prior) a h =
      elim (Bool-cases (prior.input_digest == d)) [
        | inl e ↦ cc (rw e at h)
        | inr e ↦ cc (rw e at h)
      ]

  -- Everything that an accepted result shows.
  pub record Acceptance (state : State) (event : Event) (evidence_set : List Evidence)
      (a : Accepted) : Type 0 where
    pub kind : EventKind
    pub status : TaskStatus
    pub kind_known : event.kind ≡ known kind
    pub status_known : state.status ≡ known status
    pub valid : inputs_are_valid kind state event evidence_set ≡ true
    pub not_stale : attempt_event_is_stale kind state event ≡ false
    pub is_new : find (is_event event) state.accepted_events ≡ none
    pub fresh : Fresh kind status state event (input_digest state event evidence_set) a

  reduce_known-accepted :
      (kind : EventKind) (status : TaskStatus) (state : State) (event : Event)
      (evidence_set : List Evidence) (d : String) (a : Accepted)
      → reduce_known kind status state event evidence_set d ≡ returned (Result.accepted a)
      → (inputs_are_valid kind state event evidence_set ≡ true)
        × (attempt_event_is_stale kind state event ≡ false)
        × (find (is_event event) state.accepted_events ≡ none)
        × Fresh kind status state event d a
  unfolding reduce_known
  reduce_known-accepted kind status state event evidence_set d a h =
      let (p, h1) =
        not_refused (not (inputs_are_valid kind state event evidence_set)) state d _ a h in
      let (q, h2) = not_refused (attempt_event_is_stale kind state event) state d _ a h1 in
      let (n, f) =
        look_up-accepted kind status state event d (find (is_event event) state.accepted_events) a
          h2 in
      (not-false _ p, q, n, f)

  reduce_words-accepted :
      (k : Word EventKind) (s : Word TaskStatus) (state : State) (event : Event)
      (evidence_set : List Evidence) (d : String) (a : Accepted)
      → reduce_words k s state event evidence_set d ≡ returned (Result.accepted a)
      → (kind : EventKind) × (status : TaskStatus) × (k ≡ known kind)
        × (s ≡ known status)
        × (reduce_known kind status state event evidence_set d ≡ returned (Result.accepted a))
  unfolding reject
  reduce_words-accepted (known k) (known s) state event evidence_set d a h =
      elim (Bool-cases (words_are_known event)) [
        | inl e ↦ (k, s, refl, refl, rw e at h)
        | inr e ↦ cc (rw e at h)
      ]
  reduce_words-accepted (known k) (text s) state event evidence_set d a h = cc
  reduce_words-accepted (text k) s state event evidence_set d a h = cc

  pub reduce-accepted :
      (state : State) (event : Event) (evidence_set : List Evidence) (a : Accepted)
      → reduce state event evidence_set ≡ returned (Result.accepted a)
      → Acceptance state event evidence_set a
  unfolding reduce
  reduce-accepted state event evidence_set a h =
      let (kind, status, k, s, h1) =
        reduce_words-accepted event.kind state.status state event evidence_set
          (input_digest state event evidence_set) a h in
      let (v, q, n, f) =
        reduce_known-accepted kind status state event evidence_set
          (input_digest state event evidence_set) a h1 in
      record {
        kind = kind;
        status = status;
        kind_known = k;
        status_known = s;
        valid = v;
        not_stale = q;
        is_new = n;
        fresh = f;
      }
