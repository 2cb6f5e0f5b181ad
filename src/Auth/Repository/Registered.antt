-- ===== src/Auth/Repository/Registered.antt =====
-- Who can be looked up after a registration.
use converse_os.Prelude.{
  ℕ, ◌≡◌, ◌≢◌, refl, ap, ◌∙◌, Option, none, some, List, [], ◌∷◌, false, ◌==◌, ==_iff, ==_refl,
  nat_eq, string_eq, if◌then◌else◌, ok, raise, arith,
}
use converse_os.Domain.Exceptions.{Exn}
use converse_os.Infrastructure.Rows.{Table}
use converse_os.Infrastructure.Rows.Upsert.{saved, upsert-get, find_one-raises}
use converse_os.Auth.Credentials.{UserCredentials}
use converse_os.Auth.Repository.{
  UserCredentialsModel, model_of, save_credentials, credentials_by_email,
}

other_user : (k j : ℕ) → k ≢ j → (k == j) ≡ false
other_user k j h = ground (arith, ==_iff k j)

module _ (table : Table UserCredentialsModel) where
  open table use {S, get}

  -- saves of other users, one after the other
  abbrev pub save_all : List UserCredentials → S → S
  save_all [] s = s
  save_all (c ∷ cs) s = save_all cs (save_credentials table c s).1

  -- every save returns, and none of them is for the user
  abbrev pub SavesOthers : ℕ → List UserCredentials → S → Type 0
  SavesOthers id [] s = Unit
  SavesOthers id (c ∷ cs) s =
      ((save_credentials table c s).0 ≡ ok tt)
      × (c.user_id ≢ id)
      × SavesOthers id cs (save_credentials table c s).1

  saved-model_of :
      (c : UserCredentials) (row : Option UserCredentialsModel)
      → saved table (model_of c) (λ model. model_of c) row ≡ model_of c
  saved-model_of c none = refl
  saved-model_of c (some row) = refl

  save-get_credentials :
      (c : UserCredentials) (s : S)
      → (save_credentials table c s).0 ≡ ok tt
      → (j : ℕ)
      → get (save_credentials table c s).1 j
        ≡ (if c.user_id == j then some (model_of c) else get s j)
  unfolding save_credentials
  save-get_credentials c s h j =
      upsert-get table c.user_id (model_of c) (λ model. model_of c) s h j
      ∙ ap (λ row. if c.user_id == j then some row else get s j)
          (saved-model_of c (get s c.user_id))

  save_all-keeps :
      (cs : List UserCredentials) (id : ℕ) (row : UserCredentialsModel) (s : S)
      → SavesOthers id cs s
      → get s id ≡ some row
      → get (save_all cs s) id ≡ some row
  save_all-keeps [] id row s h found = found
  save_all-keeps (c ∷ cs) id row s (returned, differs, rest) found =
      save_all-keeps cs id row (save_credentials table c s).1 rest (
        save-get_credentials c s returned id
        ∙ ap (λ b. if b then some (model_of c) else get s id) (other_user c.user_id id differs)
        ∙ found)

  -- Once the credentials of a user are saved, whoever is saved after that, the look-up of the user's
  -- address, with which every login begins, raises.
  pub credentials_by_email-raises :
      (c : UserCredentials) (cs : List UserCredentials) (s : S)
      → (save_credentials table c s).0 ≡ ok tt
      → SavesOthers c.user_id cs (save_credentials table c s).1
      → (e : Exn) × (credentials_by_email table c.email (save_all cs (save_credentials table c s).1)
          ≡ raise e)
  unfolding credentials_by_email model_of
  credentials_by_email-raises c cs s h others = find_one-raises table _ _ (
      table.select_complete _ _ c.user_id (model_of c)
        (save_all-keeps cs c.user_id (model_of c) _ others (
          save-get_credentials c s h c.user_id
          ∙ ap (λ b. if b then some (model_of c) else get s c.user_id) (==_refl c.user_id)))
        (==_refl c.email))
