-- ===== src/Audit/LogAction/Unstored.antt =====
-- What becomes of an entry of the audit trail.
use converse_os.Prelude.{◌≡◌, Result}
use converse_os.Domain.Exceptions.{Exn}
use converse_os.Infrastructure.UnitOfWork.{Sessions}
use converse_os.Application.Commands.{Kernel}
use converse_os.Application.Commands.Unstored.{
  Isolates, StoresNothing, lift-StoresNothing, on_session-StoresNothing, then-StoresNothing,
  async_with-StoresNothing,
}
use converse_os.Audit.Log.{AuditLog}
use converse_os.Audit.LogAction.{LogActionCommand, AuditLogResponse, Fresh, log_action}

module _ {D B Content : Type 0} (sessions : Sessions D)
    (kernel : Kernel AuditLog AuditLogResponse D B)
    (save : AuditLog → D → Result Exn (Unit {0}) × D) where
  -- No action that is logged changes what the database stores, whether the command is answered or not.
  -- The save works through its session, and what is stored changes only with a commit.
  pub log_action-StoresNothing :
      (stored : D → Content) (fresh : Fresh) (command : LogActionCommand)
      → Isolates sessions stored
      → ((log : AuditLog) (d : D) → stored (save log d).1 ≡ stored d)
      → StoresNothing stored (log_action sessions kernel save fresh command)
  unfolding log_action
  log_action-StoresNothing stored fresh command isolates works =
      async_with-StoresNothing stored sessions isolates _ (
        then-StoresNothing stored _ _ (on_session-StoresNothing stored _ (works _))
          (λ _. lift-StoresNothing stored _))
