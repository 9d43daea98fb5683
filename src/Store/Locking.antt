-- ===== src/Store/Locking.antt =====
-- valp_cli/kernel_store.py: an operation under the lock ends as its body does, or changes no file.
use visible_agent_loop_proto.Prelude.{
  Bool, true, false, Option, none, some, ◌≡◌, ◌⊎◌, inl, inr, refl, ◌&&◌, not, ap,
}
use visible_agent_loop_proto.Kernel.Outcomes.{
  attribute_error, index_error, os_error, value_error, key_error, type_error,
}
use visible_agent_loop_proto.Store.Files.{
  File, Files, StoreError, Environment, Attempted, gives, throws, refuses, caught, released,
  locked_with, operation, Ended, locked,
}

abbrev pub is_regular : File → Bool
is_regular File.irregular = false
is_regular File.absent = true
is_regular (File.holding text) = true

-- The lock is had and released.
pub record Calm (env : Environment) : Type 0 where
  pub had : env.lock_refused ≡ none
  pub lock_released : env.release_fails ≡ false

module _ {A : Type 0} where
  caught-gives : (a : Attempted A) (r : A) → caught a ≡ gives r → a ≡ gives r
  caught-gives (gives x) r h = h
  caught-gives (refuses e) r h = cc
  caught-gives (throws attribute_error) r h = cc
  caught-gives (throws index_error) r h = cc
  caught-gives (throws os_error) r h = cc
  caught-gives (throws (value_error m)) r h = cc
  caught-gives (throws (key_error k)) r h = cc
  caught-gives (throws (type_error t)) r h = cc

  released-gives :
      (fails replaced : Bool) (a : Attempted A) (r : A)
      → released fails replaced a ≡ gives r
      → a ≡ gives r
  released-gives false replaced a r h = h
  released-gives true replaced (gives x) r h = cc
  released-gives true replaced (refuses e) r h = cc
  released-gives true replaced (throws x) r h = cc

  -- The body was run on a regular journal, and what it gave is given.
  pub record Performed (files : Files) (body : Files → Ended A) (E : Ended A) (r : A) : Type 0 where
    pub regular : is_regular files.journal ≡ true
    pub gave : (body files).result ≡ gives r
    pub left : E.files ≡ (body files).files

  run_performed :
      (env : Environment) (files : Files) (body : Files → Ended A) (r : A)
      → caught (
          released
            (env.release_fails && not env.handling)
            (body files).replaced
            (body files).result)
        ≡ gives r
      → (body files).result ≡ gives r
  run_performed env files body r h =
      released-gives (env.release_fails && not env.handling) (body files).replaced
        (body files).result r (caught-gives _ r h)

  locked_performed :
      (env : Environment) (files : Files) (file : File) (lock : Option StoreError)
      (body : Files → Ended A) (r : A)
      → caught (locked_with env files file lock body).result ≡ gives r
      → (is_regular file ≡ true)
        × ((body files).result ≡ gives r)
        × ((locked_with env files file lock body).files ≡ (body files).files)
  locked_performed env files File.irregular lock body r h = cc
  locked_performed env files File.absent (some e) body r h = cc
  locked_performed env files (File.holding text) (some e) body r h = cc
  locked_performed env files File.absent none body r h =
      (refl, run_performed env files body r h, refl)
  locked_performed env files (File.holding text) none body r h =
      (refl, run_performed env files body r h, refl)

  pub operation-Performed :
      (env : Environment) (files : Files) (body : Files → Ended A) (r : A)
      → (operation env files body).result ≡ gives r
      → Performed files body (operation env files body) r
  unfolding operation
  operation-Performed env files body r h =
      let (regular, gave, left) =
        locked_performed env files files.journal env.lock_refused body r h in
      record { regular = regular; gave = gave; left = left }

  locked_files :
      (env : Environment) (files : Files) (file : File) (lock : Option StoreError)
      (body : Files → Ended A)
      → ((locked_with env files file lock body).files ≡ files)
        ⊎ ((locked_with env files file lock body).files ≡ (body files).files)
  locked_files env files File.irregular lock body = inl refl
  locked_files env files File.absent (some e) body = inl refl
  locked_files env files (File.holding text) (some e) body = inl refl
  locked_files env files File.absent none body = inr refl
  locked_files env files (File.holding text) none body = inr refl

  -- The files after an operation are the ones before it, or the ones that its body leaves.
  pub operation_files :
      (env : Environment) (files : Files) (body : Files → Ended A)
      → ((operation env files body).files ≡ files)
        ⊎ ((operation env files body).files ≡ (body files).files)
  unfolding operation
  operation_files env files body = locked_files env files files.journal env.lock_refused body

  undisturbed_lock :
      (env : Environment) (files : Files) (file : File) (body : Files → Ended A)
      → is_regular file ≡ true
      → env.release_fails ≡ false
      → locked_with env files file none body ≡ body files
  undisturbed_lock env files File.irregular body g h = cc
  undisturbed_lock env files File.absent body g h = rw h refl
  undisturbed_lock env files (File.holding text) body g h = rw h refl

  -- An operation with the lock ends as its body does, but for the exceptions that it catches.
  pub undisturbed_operation :
      (env : Environment) (files : Files) (body : Files → Ended A)
      → Calm env
      → is_regular files.journal ≡ true
      → operation env files body ≡ record (body files) { result = caught (body files).result }
  unfolding operation
  undisturbed_operation env files body c g =
      rw c.had (rw (undisturbed_lock env files files.journal body g c.lock_released) refl)

  -- The same of a body under the lock whose exceptions are not caught.
  pub locked-Performed :
      (env : Environment) (files : Files) (body : Files → Ended A) (r : A)
      → (locked env files body).result ≡ gives r
      → Performed files body (locked env files body) r
  unfolding locked
  locked-Performed env files body r h =
      let (regular, gave, left) =
        locked_performed env files files.journal env.lock_refused body r (ap caught h) in
      record { regular = regular; gave = gave; left = left }

  pub undisturbed_body :
      (env : Environment) (files : Files) (body : Files → Ended A)
      → Calm env
      → is_regular files.journal ≡ true
      → locked env files body ≡ body files
  unfolding locked
  undisturbed_body env files body c g =
      rw c.had (undisturbed_lock env files files.journal body g c.lock_released)
