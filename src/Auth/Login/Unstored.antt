-- ===== src/Auth/Login/Unstored.antt =====
-- No login changes what the database stores.
use converse_os.Prelude.{
  String, ◌≡◌, refl, sym, ap, ◌∙◌, Option, none, some, List, [], ◌∷◌, Result, ok, raise, not,
}
use converse_os.Domain.Exceptions.{Exn}
use converse_os.Infrastructure.UnitOfWork.{Uow}
use converse_os.Application.Commands.Unstored.{
  Isolates, StoresNothing, lift-StoresNothing, on_session-StoresNothing, then-StoresNothing,
  save_with_event-StoresNothing, if-StoresNothing, async_with-StoresNothing, Works, KernelWorks,
}
use converse_os.Auth.Credentials.{UserCredentials, record_failed_login, is_locked}
use converse_os.Auth.Password.{verify_hash}
use converse_os.Auth.Login.{
  LoginCommandHandler, LoginCommand, Moment, issue_tokens, fail_login, succeed_login, check_account,
  check_login, login_with, login,
}

module _ {D B : Type 0} (handler : LoginCommandHandler D B) where
  -- logins one after the other, whatever each of them returns or raises
  abbrev pub attempts : List (LoginCommand × Moment) → Uow D B → Uow D B
  attempts [] u = u
  attempts ((command, at) ∷ rest) u = attempts rest (login handler command at u).1

module _ {D B Content : Type 0} (handler : LoginCommandHandler D B) (stored : D → Content)
    (repo_works : Works stored handler.repo)
    (kernel_works : KernelWorks stored handler.kernel) where
  issue_tokens-StoresNothing : (c : UserCredentials) → StoresNothing stored (issue_tokens handler c)
  unfolding issue_tokens
  issue_tokens-StoresNothing c =
      then-StoresNothing stored _ _ (lift-StoresNothing stored _) (λ access_token.
        then-StoresNothing stored _ _ (lift-StoresNothing stored _)
          (λ refresh_token. lift-StoresNothing stored _))

  fail_login-StoresNothing :
      (at : Moment) (c : UserCredentials) → StoresNothing stored (fail_login handler at c)
  unfolding fail_login
  fail_login-StoresNothing at c =
      let failed = record_failed_login 5 15 at.recorded at.updated c in
      then-StoresNothing stored _ _
        (on_session-StoresNothing stored _ (repo_works.save_stored failed))
        (λ _. then-StoresNothing stored _ _ (kernel_works failed) (λ c'.
          then-StoresNothing stored _ _ (lift-StoresNothing stored _)
            (λ _. lift-StoresNothing stored _)))

  succeed_login-StoresNothing :
      (command : LoginCommand) (at : Moment) (c : UserCredentials)
      → StoresNothing stored (succeed_login handler command at c)
  unfolding succeed_login
  succeed_login-StoresNothing command at c =
      then-StoresNothing stored _ _
        (save_with_event-StoresNothing stored handler.kernel handler.repo.save _ _ kernel_works
          repo_works.save_stored)
        issue_tokens-StoresNothing

  check_account-StoresNothing :
      (command : LoginCommand) (at : Moment) (c : UserCredentials) (hash : Option String)
      → StoresNothing stored (check_account handler command at c hash)
  unfolding check_account
  check_account-StoresNothing command at c none = lift-StoresNothing stored _
  check_account-StoresNothing command at c (some hash) =
      if-StoresNothing stored (not c.is_active) _ _ (lift-StoresNothing stored _) (
        if-StoresNothing stored (is_locked at.checked c) _ _ (lift-StoresNothing stored _) (
          if-StoresNothing stored (verify_hash handler.pwd_context hash command.password) _ _
            (succeed_login-StoresNothing command at c) (fail_login-StoresNothing at c)))

  check_login-StoresNothing :
      (command : LoginCommand) (at : Moment) (found : Option UserCredentials)
      → StoresNothing stored (check_login handler command at found)
  unfolding check_login
  check_login-StoresNothing command at none = lift-StoresNothing stored _
  check_login-StoresNothing command at (some c) =
      check_account-StoresNothing command at c c.password_hash

  login_with-StoresNothing :
      (command : LoginCommand) (at : Moment) (read : Result Exn String)
      → Isolates handler.sessions stored
      → StoresNothing stored (login_with handler command at read)
  unfolding login_with
  login_with-StoresNothing command at (raise e) isolates = lift-StoresNothing stored _
  login_with-StoresNothing command at (ok email) isolates =
      async_with-StoresNothing stored handler.sessions isolates _ (
        then-StoresNothing stored _ _
          (on_session-StoresNothing stored _ (repo_works.find_stored email))
          (check_login-StoresNothing command at))

  -- No login changes what the database stores: neither one that succeeds nor one that is refused, and
  -- whatever the calls raise.
  pub login-StoresNothing :
      (command : LoginCommand) (at : Moment)
      → Isolates handler.sessions stored
      → StoresNothing stored (login handler command at)
  unfolding login
  login-StoresNothing command at isolates =
      login_with-StoresNothing command at (handler.email_of command.email) isolates

  attempts-stored :
      (logins : List (LoginCommand × Moment)) (u : Uow D B)
      → Isolates handler.sessions stored
      → stored (attempts handler logins u).db ≡ stored u.db
  attempts-stored [] u isolates = refl
  attempts-stored ((command, at) ∷ rest) u isolates =
      attempts-stored rest (login handler command at u).1 isolates
      ∙ login-StoresNothing command at isolates u

  -- What the look-up of an address finds in a new session, which sees what is stored, is the same
  -- after any logins as before them: however many of them fail, none is counted, and none locks an
  -- account; and none that succeeds is recorded. What is stored changes only with a commit of a
  -- session, and the repository and the kernel's calls work through the session.
  pub attempts-find :
      (found : Content → String → Result Exn (Option UserCredentials))
      (logins : List (LoginCommand × Moment)) (email : String) (u : Uow D B)
      → Isolates handler.sessions stored
      → ((k : String) (d : D)
          → (handler.repo.find k (handler.sessions.begin d)).0 ≡ found (stored d) k)
      → (handler.repo.find email (handler.sessions.begin (attempts handler logins u).db)).0
        ≡ (handler.repo.find email (handler.sessions.begin u.db)).0
  attempts-find found logins email u isolates sees =
      sees email (attempts handler logins u).db
      ∙ ap (λ c. found c email) (attempts-stored logins u isolates)
      ∙ sym (sees email u.db)
