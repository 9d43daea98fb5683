-- ===== src/Kernel/Words.antt =====
-- valp_cli/protocol_kernel.py: a field of type `Union[SomeEnum, str]`.
use visible_agent_loop_proto.Prelude.{Bool, true, false, String, Option, none, some}

pub data Word (A : Type 0) : Type 0 where
  known : A → Word A
  text : String → Word A

-- `isinstance(word, SomeEnum)`
abbrev pub is_known : {A : Type 0} → Word A → Bool
is_known (known a) = true
is_known (text s) = false

-- `word is None or isinstance(word, SomeEnum)`
abbrev pub absent_or_known : {A : Type 0} → Option (Word A) → Bool
absent_or_known none = true
absent_or_known (some w) = is_known w

-- `word.value if isinstance(word, SomeEnum) else word`
abbrev pub word_value : {A : Type 0} → (A → String) → Word A → String
word_value value (known a) = value a
word_value value (text s) = s
