-- ===== src/Kernel/Identities.antt =====
-- valp_cli/protocol_kernel.py: `Identity`, its checks, and `Evidence`.
use visible_agent_loop_proto.Prelude.{
  String, Bool, true, false, ◌≡◌, ◌↔◌, Option, none, some, [], ◌∷◌, ◌&&◌, Eq, ◌==◌, string_eq,
  arith, if◌then◌else◌,
}
use visible_agent_loop_proto.Json.{Json, str, fields}
use visible_agent_loop_proto.Kernel.IdentityKinds.{
  IdentityKind, identity_kind_value, identity_kind_eq,
}

pub record Identity : Type 0 where
  pub kind : IdentityKind
  pub value : String

-- `Identity(kind, value)`: an empty value is refused.
unfoldable pub new_identity : IdentityKind → String → Option Identity
new_identity kind value = if value == "" then none else some (record { kind = kind; value = value })

abbrev pub identity_beq : Identity → Identity → Bool
identity_beq a b = a.kind == b.kind && a.value == b.value

pub identity_iff : (a b : Identity) → (identity_beq a b ≡ true) ↔ (a ≡ b)
identity_iff a b =
    ground (arith, identity_kind_eq.beq_iff a.kind b.kind, string_eq.beq_iff a.value b.value)

instance abbrev pub identity_eq : Eq Identity
identity_eq = record { beq = identity_beq; beq_iff = identity_iff }

unfoldable pub identity_canonical : Identity → Json
identity_canonical i =
    fields (("kind", str (identity_kind_value i.kind)) ∷ ("value", str i.value) ∷ [])

-- `_has_identity_kind` of a value that may be `None`.
abbrev pub has_identity_kind : Option Identity → IdentityKind → Bool
has_identity_kind none kind = false
has_identity_kind (some i) kind = i.kind == kind

-- `value is None or _has_identity_kind(value, kind)`
abbrev pub absent_or_kind : Option Identity → IdentityKind → Bool
absent_or_kind none kind = true
absent_or_kind (some i) kind = i.kind == kind

pub record Evidence : Type 0 where
  pub evidence_id : Identity
  pub content_digest : String

unfoldable pub evidence_canonical : Evidence → Json
evidence_canonical e = fields (
    ("schema_version", str "valp-kernel-evidence.v1")
    ∷ ("evidence_id", identity_canonical e.evidence_id)
    ∷ ("content_digest", str e.content_digest)
    ∷ [])
