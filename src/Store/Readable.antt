-- ===== src/Store/Readable.antt =====
-- The values that the constructors of valp_cli/protocol_kernel.py can make with identities of the kinds that the
-- decoders of valp_cli/kernel_store.py ask for.
use visible_agent_loop_proto.Prelude.{true, false, ◌≡◌, ◌==◌, string_eq, All}
use visible_agent_loop_proto.Kernel.IdentityKinds.{IdentityKind}
use visible_agent_loop_proto.Kernel.Words.{is_known, absent_or_known}
use visible_agent_loop_proto.Kernel.Identities.{Identity, Evidence}
use visible_agent_loop_proto.Kernel.WorkItems.{Dependency, Attempt, WorkItem}
use visible_agent_loop_proto.Kernel.States.{Suspension, ControlState, AcceptedEvent, State}
use visible_agent_loop_proto.Kernel.Events.{Event}
use visible_agent_loop_proto.Store.ShapeLemmas.{Given}

-- An identity of the kind, with a value.
pub record Named (kind : IdentityKind) (i : Identity) : Type 0 where
  pub of_that_kind : i.kind ≡ kind
  pub has_value : (i.value == "") ≡ false

abbrev pub ReadableDependency : Dependency → Type 0
ReadableDependency d = Named IdentityKind.work_item d.work_item_id

pub record ReadableAttempt (a : Attempt) : Type 0 where
  pub task : Named IdentityKind.task a.task_id
  pub item : Named IdentityKind.work_item a.work_item_id
  pub attempt : Named IdentityKind.attempt a.attempt_id
  pub dispatch : Named IdentityKind.dispatch a.dispatch_id

pub record ReadableItem (w : WorkItem) : Type 0 where
  pub task : Named IdentityKind.task w.task_id
  pub item : Named IdentityKind.work_item w.work_item_id
  pub dependencies : All ReadableDependency w.dependencies
  pub attempt : Given ReadableAttempt w.current_attempt

pub record ReadableSuspension (s : Suspension) : Type 0 where
  pub task : Named IdentityKind.task s.task_id
  pub suspension : Named IdentityKind.suspension s.suspension_id
  pub policy : Named IdentityKind.wait_policy s.wait_policy_id
  pub required : All (Named IdentityKind.work_item) s.required_work_item_ids
  pub wake : Given (Named IdentityKind.wake) s.accepted_wake_id

abbrev pub ReadableControl : ControlState → Type 0
ReadableControl c = Given (Named IdentityKind.interrupt) c.active_interrupt_id

pub record ReadableAcceptedEvent (e : AcceptedEvent) : Type 0 where
  pub event : Named IdentityKind.event e.event_id
  pub result : Named IdentityKind.result e.result_id

pub record ReadableState (s : State) : Type 0 where
  pub installation : Named IdentityKind.installation s.installation_id
  pub task : Named IdentityKind.task s.task_id
  pub status : is_known s.status ≡ true
  pub events : All ReadableAcceptedEvent s.accepted_events
  pub items : All ReadableItem s.work_items
  pub suspension : Given ReadableSuspension s.suspension
  pub control : Given ReadableControl s.control

pub record ReadableEvent (e : Event) : Type 0 where
  pub event : Named IdentityKind.event e.event_id
  pub installation : Named IdentityKind.installation e.installation_id
  pub task : Named IdentityKind.task e.task_id
  pub kind : is_known e.kind ≡ true
  pub item : Given (Named IdentityKind.work_item) e.work_item_id
  pub attempt : Given (Named IdentityKind.attempt) e.attempt_id
  pub dispatch : Given (Named IdentityKind.dispatch) e.dispatch_id
  pub suspension : Given (Named IdentityKind.suspension) e.suspension_id
  pub policy : Given (Named IdentityKind.wait_policy) e.wait_policy_id
  pub required : All (Named IdentityKind.work_item) e.required_work_item_ids
  pub wake : Given (Named IdentityKind.wake) e.wake_id
  pub reason : absent_or_known e.wake_reason ≡ true
  pub principal : Given (Named IdentityKind.principal) e.authority_principal_id
  pub evidence : Given (Named IdentityKind.evidence) e.authority_evidence_id
  pub control_reason : absent_or_known e.control_reason ≡ true
  pub scope : absent_or_known e.cancellation_scope ≡ true
  pub interrupt : Given (Named IdentityKind.interrupt) e.interrupt_id
  pub redirect : Given (Named IdentityKind.redirect) e.redirect_id
  pub superseded : All (Named IdentityKind.work_item) e.superseded_work_item_ids

abbrev pub ReadableEvidence : Evidence → Type 0
ReadableEvidence e = Named IdentityKind.evidence e.evidence_id
