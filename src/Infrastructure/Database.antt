-- ===== src/Infrastructure/Database.antt =====
-- infrastructure/database.py: the two context managers of `DatabaseManager`. What runs inside the
-- `async with` is an action of the caller. The engine of SQLAlchemy is a parameter, and its models
-- are not modelled; `_sanitize_url` and `build_database_url` are in Infrastructure/Url.
pub mod Atomic
mod Tests
use converse_os.Prelude.{◌≡◌, ℕ, suc, Bool, Result, ok, raise, if◌then◌else◌}
use converse_os.Domain.Exceptions.{Exn, runtime_error}

-- The sessions of one database, with what the documentation says of them: the work of a session is
-- seen by others when a commit has returned. What a commit that raises has stored is left open.
-- `open_sessions` counts the sessions that were made and are not closed: neither a commit nor a
-- rollback closes one.
pub record Database : Type 1 where
  pub D : Type 0
  pub Content : Type 0
  pub stored : D → Content
  pub working : D → Content
  pub open_sessions : D → ℕ
  pub begin : D → D
  pub commit : D → Result Exn (Unit {0}) × D
  pub rollback : D → Result Exn (Unit {0}) × D
  pub close : D → D
  pub stored-begin : (d : D) → stored (begin d) ≡ stored d
  pub open_sessions-begin : (d : D) → open_sessions (begin d) ≡ suc (open_sessions d)
  pub stored-commit : (d d' : D) → commit d ≡ (ok tt, d') → stored d' ≡ working d
  pub open_sessions-commit : (d : D) → open_sessions (commit d).1 ≡ open_sessions d
  pub stored-rollback : (d : D) → stored (rollback d).1 ≡ stored d
  pub open_sessions-rollback : (d : D) → open_sessions (rollback d).1 ≡ open_sessions d
  pub stored-close : (d : D) → stored (close d) ≡ stored d
  pub open_sessions-close : (d : D) (n : ℕ) → open_sessions d ≡ suc n → open_sessions (close d) ≡ n

-- `_session_factory` is set by `initialize`.
pub record DatabaseManager : Type 0 where
  pub initialized : Bool

module _ (database : Database) (m : DatabaseManager) where
  open database use {D, begin, commit, rollback, close}

  abbrev pub Block : Type 0 → Type 0
  Block A = D → Result Exn A × D

  -- the guard at the start of both managers
  unfoldable pub with_factory : {A : Type 0} → Block A → Block A
  with_factory block d =
      if m.initialized
      then block d
      else (raise (runtime_error "DatabaseManager not initialized. Call initialize() first."), d)

  -- the `except` and the `finally` clause after an exception
  unfoldable pub roll_back : {A : Type 0} → Exn → Block A
  roll_back e d =
      let (r, d') = rollback d in (elim r [ ok _ ↦ raise e | raise x ↦ raise x ], close d')

  -- the rest of the `try` after the block has returned
  unfoldable pub commit_block : {A : Type 0} → A → Block A
  unfolding roll_back
  commit_block a d =
      let (r, d') = commit d in elim r [ ok _ ↦ (ok a, close d') | raise e ↦ roll_back e d' ]

  unfoldable pub session : {A : Type 0} → Block A → Block A
  unfolding with_factory roll_back commit_block
  session block = with_factory (λ d.
      let (r, d') = block (begin d) in
      elim r [ ok a ↦ commit_block a d' | raise e ↦ roll_back e d' ])

  unfoldable pub read_session : {A : Type 0} → Block A → Block A
  unfolding with_factory
  read_session block = with_factory (λ d. let (r, d') = block (begin d) in (r, close d'))
