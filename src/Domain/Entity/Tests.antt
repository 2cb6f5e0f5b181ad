-- ===== src/Domain/Entity/Tests.antt =====
-- Instances of the theorems on entities and aggregates.
use converse_os.Prelude.{ℕ, none, List, [], ◌∷◌, false}
use converse_os.Domain.Entity.{BaseEntity, AggregateRoot}
use converse_os.Domain.Entity.Delivery.{Use, register, collect}

abbrev fresh : BaseEntity
fresh = record { id = 7; created_at = 100; updated_at = 100; is_deleted = false; deleted_at = none }

abbrev uses : List (Use ℕ)
uses = register 1 ∷ register 2 ∷ collect ∷ register 3 ∷ []

abbrev root : AggregateRoot ℕ
root = record { entity = fresh; domain_events = 9 ∷ [] }
