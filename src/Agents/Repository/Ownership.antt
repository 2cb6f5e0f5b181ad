-- ===== src/Agents/Repository/Ownership.antt =====
-- Whose agent a row is.
use converse_os.Prelude.{
  ℕ, ◌≡◌, ◌≢◌, refl, ap, ◌∙◌, Option, none, some, List, [], ◌∷◌, ◌==◌, ==_refl, nat_eq, ok, raise,
}
use converse_os.Infrastructure.Rows.{Table, no_reconstitute}
use converse_os.Infrastructure.Rows.Upsert.{saved, upsert-get_self}
use converse_os.Agents.Agent.{Agent}
use converse_os.Agents.Repository.{
  AgentModel, new_agent_model, updated_agent_model, save_agent, agents_of, list_by_org,
}

module _ (table : Table AgentModel) where
  open table use {S, get}

  -- the organization that the row has, or that of a new row
  abbrev pub owner_of : Agent → Option AgentModel → ℕ
  owner_of a none = a.org_id
  owner_of a (some row) = row.org_id

  owner_of-saved :
      (a : Agent) (row : Option AgentModel)
      → (saved table (new_agent_model a) (updated_agent_model a) row).org_id ≡ owner_of a row
  unfolding new_agent_model updated_agent_model
  owner_of-saved a none = refl
  owner_of-saved a (some row) = refl

  nonempty-raises :
      (rows : List AgentModel) → rows ≢ [] → agents_of table rows ≡ raise no_reconstitute
  unfolding agents_of
  nonempty-raises [] h = absurd (h refl)
  nonempty-raises (row ∷ rows) h = refl

  -- When a save has returned, the agent belongs to the organization of its row before, or to its own
  -- if there was none, and the list of the agents of that organization raises.
  pub list_by_org-raises :
      (a : Agent) (s : S)
      → (save_agent table a s).0 ≡ ok tt
      → list_by_org table (owner_of a (get s a.root.entity.id)) (save_agent table a s).1
        ≡ raise no_reconstitute
  unfolding list_by_org save_agent
  list_by_org-raises a s h = nonempty-raises _ (
      table.select_complete _ _ a.root.entity.id _
        (upsert-get_self table a.root.entity.id (new_agent_model a) (updated_agent_model a) s h)
        (ap (λ o. o == owner_of a (get s a.root.entity.id))
            (owner_of-saved a (get s a.root.entity.id))
          ∙ ==_refl (owner_of a (get s a.root.entity.id))))
