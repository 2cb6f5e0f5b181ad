-- ===== src/Auth/Register/Unstored.antt =====
-- No registration is stored.
use converse_os.Prelude.{String, Option, none, some, Result, ok, raise}
use converse_os.Domain.Exceptions.{Exn}
use converse_os.Application.Commands.Unstored.{
  Isolates, StoresNothing, lift-StoresNothing, on_session-StoresNothing, then-StoresNothing,
  save_with_event-StoresNothing, async_with-StoresNothing, Works, KernelWorks,
}
use converse_os.Auth.Credentials.{UserCredentials}
use converse_os.Auth.Register.{
  RegisterCommandHandler, RegisterCommand, Fresh, add_user, read_command, register_with, register,
}

module _ {D B Content : Type 0} (handler : RegisterCommandHandler D B) (stored : D → Content)
    (repo_works : Works stored handler.repo) (kernel_works : KernelWorks stored handler.kernel)
    (isolates : Isolates handler.sessions stored) where
  add_user-StoresNothing :
      (fresh : Fresh) (email hash : String) (existing : Option UserCredentials)
      → StoresNothing stored (add_user handler fresh email hash existing)
  unfolding add_user
  add_user-StoresNothing fresh email hash (some existing) = lift-StoresNothing stored _
  add_user-StoresNothing fresh email hash none =
      then-StoresNothing stored _ _
        (save_with_event-StoresNothing stored handler.kernel handler.repo.save _ _ kernel_works
          repo_works.save_stored)
        (λ _. lift-StoresNothing stored _)

  register_with-StoresNothing :
      (fresh : Fresh) (read : Result Exn (String × String))
      → StoresNothing stored (register_with handler fresh read)
  unfolding register_with
  register_with-StoresNothing fresh (raise e) = lift-StoresNothing stored _
  register_with-StoresNothing fresh (ok (email, hash)) =
      async_with-StoresNothing stored handler.sessions isolates _ (
        then-StoresNothing stored _ _
          (on_session-StoresNothing stored _ (repo_works.find_stored email))
          (add_user-StoresNothing fresh email hash))

  -- No registration changes what the database stores, whatever its outcome. The repository and the
  -- kernel's calls work through the session, and what is stored changes only with a commit.
  pub register-StoresNothing :
      (salt : handler.pwd_context.Salt) (command : RegisterCommand) (fresh : Fresh)
      → StoresNothing stored (register handler salt command fresh)
  unfolding register
  register-StoresNothing salt command fresh =
      register_with-StoresNothing fresh (read_command handler salt command)
