-- ===== src/Auth/Login/Sql.antt =====
-- Logins with the repository of the service, `SqlUserCredentialsRepository`.
use converse_os.Prelude.{
  String, ◌≡◌, ◌≢◌, refl, sym, ◌∙◌, Option, none, some, List, [], ◌∷◌, Result, ok, raise,
}
use converse_os.Domain.Exceptions.{Exn}
use converse_os.Infrastructure.Rows.{Table, to_entity, one_or_none, entity_of, find_one}
use converse_os.Infrastructure.UnitOfWork.{Uow, aenter}
use converse_os.Application.Commands.{refused, on_session}
use converse_os.Application.Commands.Answered.{then-Passed, lift_raises, async_with-ok}
use converse_os.Auth.Credentials.{UserCredentials}
use converse_os.Auth.Repository.{UserCredentialsModel, credentials_by_email}
use converse_os.Auth.Login.{
  LoginCommandHandler, LoginCommand, Moment, check_login, login_with, login,
}

-- no look-up makes an entity
entity_of_nothing :
    {Row E : Type 0} (table : Table Row) (rows : List Row) (found : Option E)
    → entity_of table rows ≡ ok found
    → found ≡ none
unfolding entity_of one_or_none to_entity
entity_of_nothing table [] none h = refl
entity_of_nothing table [] (some e) h = cc
entity_of_nothing table (r ∷ []) found h = cc
entity_of_nothing table (r ∷ q ∷ rs) found h = cc

credentials_by_email_nothing :
    (table : Table UserCredentialsModel) (email : String) (s : table.S)
    (found : Option UserCredentials)
    → credentials_by_email table email s ≡ ok found
    → found ≡ none
unfolding credentials_by_email find_one
credentials_by_email_nothing table email s found h =
    entity_of_nothing table (table.select _ s) found h

module _ {B : Type 0} (table : Table UserCredentialsModel)
    (handler : LoginCommandHandler table.S B) where
  no_answer :
      (command : LoginCommand) (at : Moment) (found : Option UserCredentials) (u : Uow table.S B)
      (answer : handler.kernel.Answer)
      → found ≡ none
      → (check_login handler command at found u).0 ≢ ok answer
  unfolding check_login
  no_answer command at none u answer e h = lift_raises refused answer u h
  no_answer command at (some c) u answer e h = cc

  login_with_sql :
      (command : LoginCommand) (at : Moment) (read : Result Exn String) (u : Uow table.S B)
      (answer : handler.kernel.Answer)
      → ((email : String) (s : table.S)
          → (handler.repo.find email s).0 ≡ credentials_by_email table email s)
      → (login_with handler command at read u).0 ≢ ok answer
  unfolding login_with on_session aenter
  login_with_sql command at (raise e) u answer sql h = lift_raises _ answer u h
  login_with_sql command at (ok email) u answer sql h =
      let passed =
        then-Passed (on_session (handler.repo.find email)) (check_login handler command at) _ answer
          (async_with-ok handler.sessions _ u answer h) in
      no_answer command at passed.value _ answer
        (credentials_by_email_nothing table email (handler.sessions.begin u.db) passed.value
          (sym (sql email (handler.sessions.begin u.db)) ∙ passed.returned))
        passed.continued

  -- With the repository of the service no login is answered, whatever the database holds and the
  -- password is.
  pub login_sql :
      (command : LoginCommand) (at : Moment) (u : Uow table.S B) (answer : handler.kernel.Answer)
      → ((email : String) (s : table.S)
          → (handler.repo.find email s).0 ≡ credentials_by_email table email s)
      → (login handler command at u).0 ≢ ok answer
  unfolding login
  login_sql command at u answer sql =
      login_with_sql command at (handler.email_of command.email) u answer sql
