-- ===== src/Store/Files.antt =====
-- valp_cli/kernel_store.py and valp_cli/receipt_store.py: the files of a store, what a call may end in, the replacement of a
-- file and the lock around every operation. What the operating system does during a call is an argument.
use visible_agent_loop_proto.Prelude.{
  String, Bool, true, false, Option, none, some, if◌then◌else◌, ◌&&◌, not,
}
use visible_agent_loop_proto.Json.{Json}
use visible_agent_loop_proto.Kernel.Outcomes.{
  Outcome, returned, raised, Exception, attribute_error, index_error, os_error, value_error,
  key_error, type_error,
}

-- A path: nothing, a directory, or a file with its text.
pub data File : Type 0 where
  absent irregular : File
  holding : String → File

-- A path that a proof reference names, resolved below the root of the task.
pub data Proof : Type 0 where
  escaping irregular missing : Proof
  holding : String → Proof

-- The files of a `KernelStore`, and the proofs below its `proof_root` where it has one.
pub record Files : Type 0 where
  pub genesis : File
  pub journal : File
  pub checkpoint : File
  pub effects : File
  pub proofs : Option (String → Proof)

-- `json.loads` with the hooks of `_parse`, on a text: a dict that repeats a key and a constant such as `NaN` are refused.
pub record Loads : Type 0 where
  pub loads : String → Option Json

-- `ReceiptStoreError(code, message, outcome=outcome)` and `KernelStoreError`.
pub record StoreError : Type 0 where
  pub error_code : String
  pub commit_outcome : String

abbrev pub rejected_outcome : String
rejected_outcome = "rejected"

abbrev pub unknown_or_committed_outcome : String
unknown_or_committed_outcome = "unknown_or_committed"

abbrev pub rejected_with : String → StoreError
rejected_with error_code = record { error_code = error_code; commit_outcome = rejected_outcome }

abbrev pub kernel_store_corrupt : StoreError
kernel_store_corrupt = rejected_with "VALP-E-KERNEL-STORE-CORRUPT"

abbrev pub ledger_corrupt : StoreError
ledger_corrupt = rejected_with "VALP-E-RECEIPT-LEDGER-CORRUPT"

abbrev pub store_state_conflict : StoreError
store_state_conflict = rejected_with "VALP-E-STATE-CONFLICT"

abbrev pub store_idempotency_conflict : StoreError
store_idempotency_conflict = rejected_with "VALP-E-IDEMPOTENCY-CONFLICT"

abbrev pub lock_unavailable : StoreError
lock_unavailable = rejected_with "VALP-E-LOCK-UNAVAILABLE"

abbrev pub durability_precommit : StoreError
durability_precommit = rejected_with "VALP-E-DURABILITY-PRECOMMIT"

abbrev pub durability_unknown : StoreError
durability_unknown = record {
  error_code = "VALP-E-DURABILITY-UNKNOWN-OR-COMMITTED";
  commit_outcome = unknown_or_committed_outcome;
}

-- What a call may end in.
pub data Attempted {ℓ} (A : Type ℓ) : Type ℓ where
  gives : A → Attempted A
  refuses : StoreError → Attempted A
  throws : Exception → Attempted A

infixl 5 ◌>>>◌
abbrev pub ◌>>>◌ {ℓ κ} : {A : Type ℓ} {B : Type κ} → Attempted A → (A → Attempted B) → Attempted B
gives a >>> f = f a
refuses e >>> f = refuses e
throws x >>> f = throws x

abbrev pub lifted {ℓ} : {A : Type ℓ} → Outcome A → Attempted A
lifted (returned a) = gives a
lifted (raised x) = throws x

-- `except (OSError, ..., ValueError, KeyError, TypeError)`: the store is corrupt. Other exceptions pass.
abbrev pub caught {ℓ} : {A : Type ℓ} → Attempted A → Attempted A
caught (gives a) = gives a
caught (refuses e) = refuses e
caught (throws os_error) = refuses kernel_store_corrupt
caught (throws (value_error m)) = refuses kernel_store_corrupt
caught (throws (key_error k)) = refuses kernel_store_corrupt
caught (throws (type_error t)) = refuses kernel_store_corrupt
caught (throws attribute_error) = throws attribute_error
caught (throws index_error) = throws index_error

-- What happens to a replacement: nothing; the directory or the temporary file cannot be made; a failure before the rename,
-- or one after it; or, before or after the rename, the temporary path cannot be removed for another reason than its absence.
pub data Fault : Type 0 where
  no_fault not_created before_rename after_rename unlink_before_rename unlink_after_rename : Fault

-- What the operating system does during one operation.
pub record Environment : Type 0 where
  pub lock_refused : Option StoreError
  pub fault : Fault
  pub release_fails : Bool
  -- `sys.exc_info()` of the caller: an exception is being handled.
  pub handling : Bool

-- A replaced file with whether the rename took place, and the end of the call.
abbrev pub replace : Fault → File → String → (File × Bool × Attempted (Unit {0}))
replace no_fault file payload = (File.holding payload, true, gives tt)
replace not_created file payload = (file, false, throws os_error)
replace before_rename file payload = (file, false, refuses durability_precommit)
replace after_rename file payload = (File.holding payload, true, refuses durability_unknown)
replace unlink_before_rename file payload = (file, false, throws os_error)
replace unlink_after_rename file payload = (File.holding payload, true, throws os_error)

-- `_ensure_regular`
abbrev pub ensure_regular : {A : Type 0} → File → Attempted A → Attempted A
ensure_regular File.irregular rest = refuses ledger_corrupt
ensure_regular File.absent rest = rest
ensure_regular (File.holding text) rest = rest

-- The end of the body of an operation: the files, whether one was replaced, and the result.
pub record Ended (A : Type 0) : Type 0 where
  pub files : Files
  pub replaced : Bool
  pub result : Attempted A

-- The release of the lock: its failure is told only where the body did not fail and no exception is being handled.
abbrev pub released : {A : Type 0} → Bool → Bool → Attempted A → Attempted A
released false replaced result = result
released true replaced (refuses e) = refuses e
released true replaced (throws x) = throws x
released true replaced (gives a) =
    refuses (if replaced then durability_unknown else lock_unavailable)

-- The body, and the release of the lock after it.
abbrev pub ran : {A : Type 0} → Environment → Files → (Files → Ended A) → Ended A
ran env files body =
    let ended = body files in
    record ended {
      result = released (env.release_fails && not env.handling) ended.replaced ended.result;
    }

-- `with self._locked()`: the journal must be a regular file, and then the lock is asked for.
abbrev pub locked_with :
    {A : Type 0} → Environment → Files → File → Option StoreError → (Files → Ended A) → Ended A
locked_with env files File.irregular lock body = record {
  files = files;
  replaced = false;
  result = refuses ledger_corrupt;
}
locked_with env files File.absent (some e) body = record {
  files = files;
  replaced = false;
  result = refuses e;
}
locked_with env files File.absent none body = ran env files body
locked_with env files (File.holding text) (some e) body = record {
  files = files;
  replaced = false;
  result = refuses e;
}
locked_with env files (File.holding text) none body = ran env files body

-- A body under the lock.
unfoldable pub locked : {A : Type 0} → Environment → Files → (Files → Ended A) → Ended A
locked env files body = locked_with env files files.journal env.lock_refused body

-- An operation: its body under the lock, and the exceptions that it catches.
unfoldable pub operation : {A : Type 0} → Environment → Files → (Files → Ended A) → Ended A
unfolding locked
operation env files body =
    let ended = locked env files body in record ended { result = caught ended.result }

-- A body that reads.
abbrev pub reading : {A : Type 0} → (Files → Attempted A) → Files → Ended A
reading f files = record { files = files; replaced = false; result = f files }
