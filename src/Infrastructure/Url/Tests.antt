-- ===== src/Infrastructure/Url/Tests.antt =====
-- The theorems on the database of one of the services.
use converse_os.Prelude.{◌≡◌, refl, arith}
use converse_os.Prelude.Decimal.{decimal}
use converse_os.Infrastructure.Url.{sanitize_url, build_database_url}
use converse_os.Infrastructure.Url.Secrets.{sanitize_url-build}

logged_url :
    sanitize_url (build_database_url "db" 5432 "auth" "secret" "auth_db" "asyncpg")
    ≡ "postgresql+asyncpg://auth:***@db:5432/auth_db"
unfolding sanitize_url build_database_url decimal
logged_url = refl

sanitize_url-build_example :
    sanitize_url (build_database_url "db" 5432 "u" "pw" "auth_db" "pg")
    ≡ build_database_url "db" 5432 "u" "***" "auth_db" "pg"
sanitize_url-build_example =
    sanitize_url-build "db" 5432 "u" "pw" "auth_db" "pg" (ground arith) (ground arith)
      (ground arith) (ground arith)
