-- ===== src/Domain/Entity.antt =====
-- domain/base_entity.py and domain/aggregate_root.py. A datetime is the number of seconds that the
-- clock shows; each reading of the clock is an argument, in the order of the calls.
pub mod Deletion
pub mod Delivery
mod Tests
use converse_os.Prelude.{
  ℕ, Option, none, some, List, [], ◌∷◌, ◌++◌, Bool, true, false, ◌==◌, nat_eq,
}

pub record BaseEntity : Type 0 where
  pub id : ℕ
  pub created_at : ℕ
  pub updated_at : ℕ
  pub is_deleted : Bool
  pub deleted_at : Option ℕ

-- the default factories of the fields: a new identifier and two readings of the clock
unfoldable pub new_entity : ℕ → ℕ → ℕ → BaseEntity
new_entity id created updated = record {
  id = id;
  created_at = created;
  updated_at = updated;
  is_deleted = false;
  deleted_at = none;
}

unfoldable pub mark_updated : ℕ → BaseEntity → BaseEntity
mark_updated now e = record e { updated_at = now }

unfoldable pub soft_delete : ℕ → ℕ → BaseEntity → BaseEntity
unfolding mark_updated
soft_delete now later e = mark_updated later (record e { is_deleted = true; deleted_at = some now })

unfoldable pub restore : ℕ → BaseEntity → BaseEntity
unfolding mark_updated
restore now e = mark_updated now (record e { is_deleted = false; deleted_at = none })

-- `__eq__`
unfoldable pub equals : BaseEntity → BaseEntity → Bool
equals a b = a.id == b.id

-- An aggregate root: an entity with its pending events.
pub record AggregateRoot {ℓ} (E : Type ℓ) : Type ℓ where
  pub entity : BaseEntity
  pub domain_events : List E

module _ {ℓ} {E : Type ℓ} where
  unfoldable pub new_root : BaseEntity → AggregateRoot E
  new_root e = record { entity = e; domain_events = [] }

  unfoldable pub register_event : E → AggregateRoot E → AggregateRoot E
  register_event e a = record a { domain_events = a.domain_events ++ e ∷ [] }

  unfoldable pub collect_events : AggregateRoot E → List E × AggregateRoot E
  collect_events a = (a.domain_events, record a { domain_events = [] })

  unfoldable pub has_pending_events : AggregateRoot E → Bool
  has_pending_events a = elim a.domain_events [ [] ↦ false | e ∷ es ↦ true ]

  -- `mark_updated` of the root
  unfoldable pub touch : ℕ → AggregateRoot E → AggregateRoot E
  unfolding mark_updated
  touch now a = record a { entity = mark_updated now a.entity }
