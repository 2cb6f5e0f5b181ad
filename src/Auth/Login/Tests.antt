-- ===== src/Auth/Login/Tests.antt =====
-- Logins on a database in memory that stores one account, and instances of their theorems.
use converse_os.Prelude.{
  ℕ, String, ◌≡◌, ◌≢◌, refl, none, some, List, [], ◌∷◌, true, false, ◌==◌, string_eq, ok,
}
use converse_os.Prelude.Dict.{Dict, lookup}
use converse_os.Domain.Entity.{new_root, new_entity}
use converse_os.Infrastructure.UnitOfWork.{Uow, aenter, aexit, close_session}
use converse_os.Application.Commands.{
  on_session, lift, ◌then◌, save_with_event, leave_block, async_with,
}
use converse_os.Application.Commands.Memory.{
  Store, memory_sessions, content, memory_isolates, memory_repository, memory_works, memory_kernel,
  memory_kernel_works,
}
use converse_os.Auth.Credentials.{UserCredentials, record_successful_login, is_locked}
use converse_os.Auth.Password.{verify_hash}
use converse_os.Auth.Login.{
  LoginCommandHandler, LoginCommand, TokenResponse, Moment, issue_tokens, succeed_login,
  check_account, check_login, login_with, login,
}
use converse_os.Infrastructure.Rows.Memory.{memory}
use converse_os.Auth.Repository.{
  UserCredentialsModel, model_of, save_credentials, credentials_by_email,
}
use converse_os.Auth.Login.Sql.{login_sql}
use converse_os.Auth.Login.Unstored.{attempts, attempts-find}

abbrev Accounts : Type 0
Accounts = Dict String UserCredentials

abbrev handler : LoginCommandHandler (Store Accounts) (Unit {0})
handler = record {
  sessions = memory_sessions;
  kernel = memory_kernel;
  email_of = λ text. ok text;
  pwd_context = record { Salt = ℕ; hash = λ salt raw. raw; verify = λ raw value. raw == value };
  repo = memory_repository (λ c. c.email);
  jwt_handler = record {
    create_access_token = λ user tenant roles minutes. ok "access";
    create_refresh_token = λ user days. ok "refresh";
  };
  settings = record { access_minutes = 15; refresh_days = 7 };
}

abbrev account : UserCredentials
account = record {
  root = new_root (new_entity 1 0 0);
  user_id = 7;
  email = "a@b.co";
  password_hash = some "correct horse";
  is_active = true;
  is_email_verified = false;
  last_login_at = none;
  failed_login_attempts = 4;
  locked_until = none;
}

abbrev unit : Uow (Store Accounts) (Unit {0})
unit = record {
  has_session = false;
  pending_events = [];
  db = record { content = ("a@b.co", account) ∷ []; work = [] };
  bus = tt;
}

abbrev right : LoginCommand
right = record {
  email = "a@b.co";
  password = "correct horse";
  ip_address = none;
  user_agent = none;
}

abbrev wrong : LoginCommand
wrong = record right { password = "battery staple" }

abbrev at : Moment
at = record {
  checked = 10;
  recorded = 11;
  updated = 12;
  rechecked = 13;
  occurred = 14;
  event_id = 99;
}

abbrev tokens : TokenResponse
tokens = record {
  access_token = "access";
  refresh_token = "refresh";
  token_type = "Bearer";
  expires_in = 900;
}

login_run : (login handler right at unit).0 ≡ ok tokens
unfolding login login_with check_login check_account succeed_login issue_tokens async_with
    leave_block save_with_event on_session lift ◌then◌ aenter aexit close_session is_locked
    verify_hash lookup record_successful_login
login_run = refl

abbrev six_wrong : List (LoginCommand × Moment)
six_wrong = (wrong, at) ∷ (wrong, at) ∷ (wrong, at) ∷ (wrong, at) ∷ (wrong, at) ∷ (wrong, at) ∷ []

attempts-find_example :
    (handler.repo.find "a@b.co" (handler.sessions.begin (attempts handler six_wrong unit).db)).0
    ≡ (handler.repo.find "a@b.co" (handler.sessions.begin unit.db)).0
attempts-find_example =
    attempts-find handler content (memory_works (λ c. c.email))
      (memory_kernel_works TokenResponse content) (λ accounts email. ok (lookup email accounts))
      six_wrong "a@b.co" unit memory_isolates (λ k d. refl)

abbrev rows : Dict ℕ UserCredentialsModel
rows = (7, model_of account) ∷ []

-- the handler with the repository of the service, on rows in memory
abbrev sql_handler : LoginCommandHandler (Dict ℕ UserCredentialsModel) (Unit {0})
sql_handler = record {
  sessions = record {
    begin = λ d. d;
    commit = λ d. (ok tt, d);
    rollback = λ d. (ok tt, d);
    close = λ d. d;
  };
  kernel = memory_kernel;
  email_of = handler.email_of;
  pwd_context = handler.pwd_context;
  repo = record {
    find = λ email d. (credentials_by_email memory email d, d);
    save = save_credentials memory;
  };
  jwt_handler = handler.jwt_handler;
  settings = handler.settings;
}

abbrev sql_unit : Uow (Dict ℕ UserCredentialsModel) (Unit {0})
sql_unit = record { has_session = false; pending_events = []; db = rows; bus = tt }

login_sql_example : (login sql_handler right at sql_unit).0 ≢ ok tokens
login_sql_example = login_sql memory sql_handler right at sql_unit tokens (λ email s. refl)
