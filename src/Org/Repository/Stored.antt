-- ===== src/Org/Repository/Stored.antt =====
-- What is stored of an organization, and what can be read again.
use converse_os.Prelude.{
  ℕ, ◌≡◌, ◌≢◌, refl, ap, ◌∙◌, Option, none, some, List, [], ◌∷◌, map, true, false, Bool, ◌==◌,
  ==_refl, nat_eq, string_eq, if◌then◌else◌, ok, raise,
}
use converse_os.Domain.Exceptions.{Exn}
use converse_os.Infrastructure.Rows.{Table, to_entity, no_reconstitute}
use converse_os.Infrastructure.Rows.Upsert.{saved, upsert-get, upsert-get_self, find_one-raises}
use converse_os.Org.Organization.{OrganizationMember, Organization}
use converse_os.Org.Repository.{
  OrganizationMemberModel, OrganizationModel, member_models, new_model, updated_model, save,
  get_by_id, get_by_slug,
}

module _ (table : Table OrganizationModel) where
  open table use {S, get}

  -- the mark of deletion that the row has
  abbrev pub marked : Option OrganizationModel → Bool
  marked none = false
  marked (some row) = row.is_deleted

  -- the row of a member
  abbrev pub member_row : OrganizationMember → OrganizationMemberModel
  member_row m = record { id = m.entity.id; user_id = m.user_id; role = m.role }

  -- the row that holds what an organization holds, with a mark of deletion
  abbrev pub row_of : Organization → Bool → OrganizationModel
  row_of org deleted = record {
    name = org.name;
    slug = org.slug;
    billing_plan = org.billing_plan;
    is_active = org.is_active;
    settings = org.settings;
    members = map member_row org.members;
    is_deleted = deleted;
  }

  member_models_lem : (ms : List OrganizationMember) → member_models ms ≡ map member_row ms
  unfolding member_models
  member_models_lem [] = refl
  member_models_lem (m ∷ ms) = ap (λ rows. member_row m ∷ rows) (member_models_lem ms)

  saved-row_of :
      (org : Organization) (row : Option OrganizationModel)
      → saved table (new_model org) (updated_model org) row ≡ row_of org (marked row)
  unfolding new_model updated_model
  saved-row_of org none =
      ap (λ ms. record (row_of org false) { members = ms }) (member_models_lem org.members)
  saved-row_of org (some row) =
      ap (λ ms. record (row_of org row.is_deleted) { members = ms }) (member_models_lem org.members)

  -- When a save has returned, the row of the organization holds its name, slug, plan, activity and
  -- settings and, in their order, its members with the identifier, user and role of each, and every other row is as it was; but the mark of deletion is that of the row before, or
  -- false for a new row, whatever the mark of the organization is.
  pub save-get :
      (org : Organization) (s : S)
      → (save table org s).0 ≡ ok tt
      → (j : ℕ)
      → get (save table org s).1 j ≡ (
          if org.root.entity.id == j
          then some (row_of org (marked (get s org.root.entity.id)))
          else get s j)
  unfolding save
  save-get org s h j =
      upsert-get table org.root.entity.id (new_model org) (updated_model org) s h j
      ∙ ap (λ row. if org.root.entity.id == j then some row else get s j)
          (saved-row_of org (get s org.root.entity.id))

  -- When a save has returned, neither `get_by_id` nor `get_by_slug` finds the organization again: both
  -- raise.
  pub save-unreadable :
      (org : Organization) (s : S)
      → (save table org s).0 ≡ ok tt
      → let after = (save table org s).1 in
        (get_by_id table org.root.entity.id after ≡ raise no_reconstitute)
        × ((e : Exn) × (get_by_slug table org.slug after ≡ raise e))
  unfolding save get_by_id get_by_slug new_model
  save-unreadable org s h = (ap (to_entity table) stored, find_one-raises table _ _ some_row)
    where
      row : OrganizationModel
      row = saved table (new_model org) (updated_model org) (get s org.root.entity.id)

      stored : get (save table org s).1 org.root.entity.id ≡ some row
      stored = upsert-get_self table org.root.entity.id (new_model org) (updated_model org) s h

      same_slug : (row.slug == org.slug) ≡ true
      same_slug =
          ap (λ r. r.slug == org.slug) (saved-row_of org (get s org.root.entity.id))
          ∙ ==_refl org.slug

      some_row : table.select (λ model. model.slug == org.slug) (save table org s).1 ≢ []
      some_row = table.select_complete _ _ org.root.entity.id row stored same_slug
