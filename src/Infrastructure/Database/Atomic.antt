-- ===== src/Infrastructure/Database/Atomic.antt =====
-- What a session stores, and that it is closed.
use converse_os.Prelude.{
  ◌≡◌, refl, ap, ◌∙◌, ℕ, suc, ◌⊎◌, inl, inr, true, Result, ok, raise, Result-cases,
}
use converse_os.Domain.Exceptions.{Exn}
use converse_os.Infrastructure.Database.{
  Database, DatabaseManager, Block, with_factory, roll_back, commit_block, session, read_session,
}

module _ (database : Database) (m : DatabaseManager) where
  open database use {D, stored, working, open_sessions, begin, commit, rollback, close}

  -- A block works through its session: it stores nothing by itself and leaves no session open.
  abbrev pub IsWork : {A : Type 0} → Block database m A → Type 0
  IsWork block =
      (d : D) → (stored (block d).1 ≡ stored d) × (open_sessions (block d).1 ≡ open_sessions d)

  -- the error of the rollback, if it raises, and the given one otherwise
  abbrev pub error_of : Exn → Result Exn (Unit {0}) → Exn
  error_of e (ok _) = e
  error_of e (raise x) = x

  -- How a session ends that began with the content `c` and `n` sessions open, where `work` is what
  -- the block leaves. The block has returned and the commit too: its work is stored and its result
  -- passed on. Or the block has raised: nothing is stored and the session raises its error, or that of
  -- the rollback. Or the commit has raised: so does the session, and the content is the one that the
  -- commit has left.
  abbrev pub Ends :
      {A : Type 0} → Database.Content database → ℕ → Result Exn A × D → Result Exn A × D → Type 0
  Ends {A = A} c n work after =
      (open_sessions after.1 ≡ n)
      × (((a : A) × (work.0 ≡ ok a)
            × ((commit work.1).0 ≡ ok tt)
            × (after.0 ≡ ok a)
            × (stored after.1 ≡ working work.1))
          ⊎ ((e : Exn) × (work.0 ≡ raise e)
              × (after.0 ≡ raise (error_of e (rollback work.1).0))
              × (stored after.1 ≡ c))
          ⊎ ((a : A) × (e : Exn) × (work.0 ≡ ok a)
              × ((commit work.1).0 ≡ raise e)
              × (after.0 ≡ raise (error_of e (rollback (commit work.1).1).0))
              × (stored after.1 ≡ stored (commit work.1).1)))

  -- the session is closed with the content that it had, and the error is raised
  roll_back_lem :
      {A : Type 0} (n : ℕ) (e : Exn) (d : D)
      → open_sessions d ≡ suc n
      → let after = roll_back database m {A = A} e d in
        (open_sessions after.1 ≡ n)
        × (after.0 ≡ raise (error_of e (rollback d).0))
        × (stored after.1 ≡ stored d)
  unfolding roll_back
  roll_back_lem n e d open_ =
      let closed = database.open_sessions-close _ n (database.open_sessions-rollback d ∙ open_) in
      let kept = database.stored-close _ ∙ database.stored-rollback d in
      elim (Result-cases (rollback d).0) [
        | inl (u, h) ↦ rw h (closed, refl, kept)
        | inr (x, h) ↦ rw h (closed, refl, kept)
      ]

  commit_block-Ends :
      {A : Type 0} (c : Database.Content database) (n : ℕ) (a : A) (d : D)
      → open_sessions d ≡ suc n
      → Ends c n (ok a, d) (commit_block database m a d)
  unfolding commit_block
  commit_block-Ends c n a d open_ = elim (Result-cases (commit d).0) [
    | inl (u, h) ↦
        rw (h, commit_block)
          (
            database.open_sessions-close _ n (database.open_sessions-commit d ∙ open_),
            inl (
              a,
              refl,
              refl,
              refl,
              database.stored-close _ ∙ database.stored-commit d _ (ap (λ r. (r, (commit d).1)) h),
            ),
          )
    | inr (e, h) ↦
        let (closed, raises, kept) =
          roll_back_lem n e (commit d).1 (database.open_sessions-commit d ∙ open_) in
        rw (h, commit_block) (closed, inr (inr (a, e, refl, refl, raises, kept)))
  ]

  -- The manager is initialized, and the block works through its session. If the block and the commit
  -- return, the session stores all of what the block has done and returns its result. If the block
  -- raises, nothing is stored and the session raises the error of the block, or the one of the
  -- rollback. If the commit raises, so does the session, and the rollback after it changes nothing
  -- of what is stored. In each case the session is closed.
  pub session-Ends :
      {A : Type 0} (block : Block database m A) (d : D)
      → m.initialized ≡ true
      → IsWork block
      → Ends (stored d) (open_sessions d) (block (begin d)) (session database m block d)
  unfolding session with_factory
  session-Ends block d h works = rw h (elim (Result-cases (block (begin d)).0) [
    | inl (a, ran) ↦ rw ran (commit_block-Ends (stored d) (open_sessions d) a _ used)
    | inr (e, ran) ↦
        let (closed, raises, same) = roll_back_lem (open_sessions d) e _ used in
        rw ran (closed, inr (inl (e, refl, raises, same ∙ kept)))
  ])
    where
      kept : stored (block (begin d)).1 ≡ stored d
      kept = (works (begin d)).0 ∙ database.stored-begin d

      used : open_sessions (block (begin d)).1 ≡ suc (open_sessions d)
      used = (works (begin d)).1 ∙ database.open_sessions-begin d

  -- A read session stores nothing, returns what its block returns or raises, and is closed. The manager is initialized; the block works through its session.
  pub read_session-stores_nothing :
      {A : Type 0} (block : Block database m A) (d : D)
      → m.initialized ≡ true
      → IsWork block
      → let (r, d') = read_session database m block d in
        (r ≡ (block (begin d)).0) × (stored d' ≡ stored d) × (open_sessions d' ≡ open_sessions d)
  unfolding read_session with_factory
  read_session-stores_nothing block d h works = rw h (
    refl,
    database.stored-close _ ∙ (works (begin d)).0 ∙ database.stored-begin d,
    database.open_sessions-close _ _ ((works (begin d)).1 ∙ database.open_sessions-begin d),
  )
