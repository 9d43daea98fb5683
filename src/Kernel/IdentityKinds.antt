-- ===== src/Kernel/IdentityKinds.antt =====
-- valp_cli/protocol_kernel.py: the kinds of identity.
use visible_agent_loop_proto.Prelude.{
  ℕ, String, ◌≡◌, refl, ◌↔◌, true, Eq, eqb, index_iff, if◌then◌else◌,
}

pub data IdentityKind : Type 0 where
  installation task work_item attempt dispatch event evidence receipt claim result suspension
        wait_policy wake principal interrupt redirect :
      IdentityKind

unfoldable pub identity_kind_value : IdentityKind → String
identity_kind_value installation = "installation"
identity_kind_value task = "task"
identity_kind_value work_item = "work_item"
identity_kind_value attempt = "attempt"
identity_kind_value dispatch = "dispatch"
identity_kind_value event = "event"
identity_kind_value evidence = "evidence"
identity_kind_value receipt = "receipt"
identity_kind_value claim = "claim"
identity_kind_value result = "result"
identity_kind_value suspension = "suspension"
identity_kind_value wait_policy = "wait_policy"
identity_kind_value wake = "wake"
identity_kind_value principal = "principal"
identity_kind_value interrupt = "interrupt"
identity_kind_value redirect = "redirect"

abbrev pub identity_kind_index : IdentityKind → ℕ
identity_kind_index installation = 0
identity_kind_index task = 1
identity_kind_index work_item = 2
identity_kind_index attempt = 3
identity_kind_index dispatch = 4
identity_kind_index event = 5
identity_kind_index evidence = 6
identity_kind_index receipt = 7
identity_kind_index claim = 8
identity_kind_index result = 9
identity_kind_index suspension = 10
identity_kind_index wait_policy = 11
identity_kind_index wake = 12
identity_kind_index principal = 13
identity_kind_index interrupt = 14
identity_kind_index redirect = 15

identity_kind_member : ℕ → IdentityKind
identity_kind_member n =
    if eqb n 0
    then installation
    else if eqb n 1
    then task
    else if eqb n 2
    then work_item
    else if eqb n 3
    then attempt
    else if eqb n 4
    then dispatch
    else if eqb n 5
    then event
    else if eqb n 6
    then evidence
    else if eqb n 7
    then receipt
    else if eqb n 8
    then claim
    else if eqb n 9
    then result
    else if eqb n 10
    then suspension
    else if eqb n 11
    then wait_policy
    else if eqb n 12
    then wake
    else if eqb n 13
    then principal
    else if eqb n 14
    then interrupt
    else redirect

identity_kind_found : (a : IdentityKind) → identity_kind_member (identity_kind_index a) ≡ a
unfolding identity_kind_member
identity_kind_found installation = refl
identity_kind_found task = refl
identity_kind_found work_item = refl
identity_kind_found attempt = refl
identity_kind_found dispatch = refl
identity_kind_found event = refl
identity_kind_found evidence = refl
identity_kind_found receipt = refl
identity_kind_found claim = refl
identity_kind_found result = refl
identity_kind_found suspension = refl
identity_kind_found wait_policy = refl
identity_kind_found wake = refl
identity_kind_found principal = refl
identity_kind_found interrupt = refl
identity_kind_found redirect = refl

pub identity_kind_iff :
    (a b : IdentityKind) → (eqb (identity_kind_index a) (identity_kind_index b) ≡ true) ↔ (a ≡ b)
identity_kind_iff = index_iff identity_kind_index identity_kind_member identity_kind_found

instance abbrev pub identity_kind_eq : Eq IdentityKind
identity_kind_eq = record {
  beq = λ a b. eqb (identity_kind_index a) (identity_kind_index b);
  beq_iff = identity_kind_iff;
}
