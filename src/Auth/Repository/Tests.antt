-- ===== src/Auth/Repository/Tests.antt =====
-- The theorem on two users.
use converse_os.Prelude.{◌≡◌, refl, some, [], true, ok}
use converse_os.Prelude.Dict.{lookup, insert}
use converse_os.Domain.Entity.{new_entity}
use converse_os.Infrastructure.Rows.Memory.{memory}
use converse_os.Auth.Credentials.{UserCredentials, create}
use converse_os.Auth.Repository.{save_credentials}

abbrev ann : UserCredentials
ann = create (new_entity 1 0 0) 21 "ann@example.com" (some "hash") true

abbrev bob : UserCredentials
bob = create (new_entity 2 0 0) 22 "bob@example.com" (some "hash") true

saved_ann : (save_credentials memory ann []).0 ≡ ok tt
unfolding save_credentials lookup
saved_ann = refl

saved_bob : (save_credentials memory bob (save_credentials memory ann []).1).0 ≡ ok tt
unfolding save_credentials create lookup insert
saved_bob = refl
