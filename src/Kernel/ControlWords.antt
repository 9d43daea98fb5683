-- ===== src/Kernel/ControlWords.antt =====
-- valp_cli/protocol_kernel.py: the closed vocabularies of suspension and control.
use visible_agent_loop_proto.Prelude.{
  ℕ, String, ◌≡◌, refl, ◌↔◌, true, Eq, eqb, index_iff, if◌then◌else◌,
}

pub data SuspensionStatus : Type 0 where
  waiting resumed : SuspensionStatus

unfoldable pub suspension_status_value : SuspensionStatus → String
suspension_status_value waiting = "waiting"
suspension_status_value resumed = "resumed"

abbrev pub suspension_status_index : SuspensionStatus → ℕ
suspension_status_index waiting = 0
suspension_status_index resumed = 1

suspension_status_member : ℕ → SuspensionStatus
suspension_status_member n = if eqb n 0 then waiting else resumed

suspension_status_found :
    (a : SuspensionStatus) → suspension_status_member (suspension_status_index a) ≡ a
unfolding suspension_status_member
suspension_status_found waiting = refl
suspension_status_found resumed = refl

pub suspension_status_iff :
    (a b : SuspensionStatus)
    → (eqb (suspension_status_index a) (suspension_status_index b) ≡ true) ↔ (a ≡ b)
suspension_status_iff =
    index_iff suspension_status_index suspension_status_member suspension_status_found

instance abbrev pub suspension_status_eq : Eq SuspensionStatus
suspension_status_eq = record {
  beq = λ a b. eqb (suspension_status_index a) (suspension_status_index b);
  beq_iff = suspension_status_iff;
}

pub data WakeReason : Type 0 where
  dependency_ready : WakeReason

unfoldable pub wake_reason_value : WakeReason → String
wake_reason_value dependency_ready = "dependency_ready"

abbrev pub wake_reason_index : WakeReason → ℕ
wake_reason_index dependency_ready = 0

wake_reason_member : ℕ → WakeReason
wake_reason_member n = dependency_ready

wake_reason_found : (a : WakeReason) → wake_reason_member (wake_reason_index a) ≡ a
unfolding wake_reason_member
wake_reason_found dependency_ready = refl

pub wake_reason_iff :
    (a b : WakeReason) → (eqb (wake_reason_index a) (wake_reason_index b) ≡ true) ↔ (a ≡ b)
wake_reason_iff = index_iff wake_reason_index wake_reason_member wake_reason_found

instance abbrev pub wake_reason_eq : Eq WakeReason
wake_reason_eq = record {
  beq = λ a b. eqb (wake_reason_index a) (wake_reason_index b);
  beq_iff = wake_reason_iff;
}

pub data ControlStatus : Type 0 where
  active interrupted : ControlStatus

unfoldable pub control_status_value : ControlStatus → String
control_status_value active = "active"
control_status_value interrupted = "interrupted"

abbrev pub control_status_index : ControlStatus → ℕ
control_status_index active = 0
control_status_index interrupted = 1

control_status_member : ℕ → ControlStatus
control_status_member n = if eqb n 0 then active else interrupted

control_status_found : (a : ControlStatus) → control_status_member (control_status_index a) ≡ a
unfolding control_status_member
control_status_found active = refl
control_status_found interrupted = refl

pub control_status_iff :
    (a b : ControlStatus) → (eqb (control_status_index a) (control_status_index b) ≡ true) ↔ (a ≡ b)
control_status_iff = index_iff control_status_index control_status_member control_status_found

instance abbrev pub control_status_eq : Eq ControlStatus
control_status_eq = record {
  beq = λ a b. eqb (control_status_index a) (control_status_index b);
  beq_iff = control_status_iff;
}

pub data ControlReason : Type 0 where
  user_requested runtime_failed policy_enforced superseded_by_redirect : ControlReason

unfoldable pub control_reason_value : ControlReason → String
control_reason_value user_requested = "user_requested"
control_reason_value runtime_failed = "runtime_failed"
control_reason_value policy_enforced = "policy_enforced"
control_reason_value superseded_by_redirect = "superseded_by_redirect"

pub data CancellationScope : Type 0 where
  task work_item attempt : CancellationScope

unfoldable pub cancellation_scope_value : CancellationScope → String
cancellation_scope_value task = "task"
cancellation_scope_value work_item = "work_item"
cancellation_scope_value attempt = "attempt"

abbrev pub cancellation_scope_index : CancellationScope → ℕ
cancellation_scope_index task = 0
cancellation_scope_index work_item = 1
cancellation_scope_index attempt = 2

cancellation_scope_member : ℕ → CancellationScope
cancellation_scope_member n = if eqb n 0 then task else if eqb n 1 then work_item else attempt

cancellation_scope_found :
    (a : CancellationScope) → cancellation_scope_member (cancellation_scope_index a) ≡ a
unfolding cancellation_scope_member
cancellation_scope_found task = refl
cancellation_scope_found work_item = refl
cancellation_scope_found attempt = refl

pub cancellation_scope_iff :
    (a b : CancellationScope)
    → (eqb (cancellation_scope_index a) (cancellation_scope_index b) ≡ true) ↔ (a ≡ b)
cancellation_scope_iff =
    index_iff cancellation_scope_index cancellation_scope_member cancellation_scope_found

instance abbrev pub cancellation_scope_eq : Eq CancellationScope
cancellation_scope_eq = record {
  beq = λ a b. eqb (cancellation_scope_index a) (cancellation_scope_index b);
  beq_iff = cancellation_scope_iff;
}
