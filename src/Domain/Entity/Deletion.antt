-- ===== src/Domain/Entity/Deletion.antt =====
-- Soft deletion.
use converse_os.Prelude.{ℕ, ◌≡◌, refl, ◌∙◌, ==_iff, nat_eq, none, some, true, false, List, [], ◌∷◌}
use converse_os.Domain.Entity.{BaseEntity, mark_updated, soft_delete, restore, equals}

-- The flag and the timestamp agree.
abbrev pub IsConsistent : BaseEntity → Type 0
IsConsistent e = e.is_deleted ≡ elim e.deleted_at [ none ↦ false | some t ↦ true ]

-- What can happen to an entity, with the readings of the clock.
pub data Change : Type 0 where
  mark : ℕ → Change
  delete : ℕ → ℕ → Change
  undelete : ℕ → Change

abbrev pub change : Change → BaseEntity → BaseEntity
change (mark now) e = mark_updated now e
change (delete now later) e = soft_delete now later e
change (undelete now) e = restore now e

abbrev pub changes : List Change → BaseEntity → BaseEntity
changes [] e = e
changes (c ∷ cs) e = changes cs (change c e)

change-IsConsistent : (c : Change) (e : BaseEntity) → IsConsistent e → IsConsistent (change c e)
unfolding mark_updated soft_delete restore
change-IsConsistent (mark now) e h = h
change-IsConsistent _ e h = refl

change-same :
    (c : Change) (e : BaseEntity)
    → ((change c e).id ≡ e.id) × ((change c e).created_at ≡ e.created_at)
unfolding mark_updated soft_delete restore
change-same (mark now) e = (refl, refl)
change-same _ e = (refl, refl)

changes-same :
    (cs : List Change) (e : BaseEntity)
    → ((changes cs e).id ≡ e.id) × ((changes cs e).created_at ≡ e.created_at)
changes-same [] e = (refl, refl)
changes-same (c ∷ cs) e =
    let (id_rest, created_rest) = changes-same cs (change c e) in
    let (id_first, created_first) = change-same c e in
    (id_rest ∙ id_first, created_rest ∙ created_first)

changes_keep : (cs : List Change) (e : BaseEntity) → IsConsistent e → IsConsistent (changes cs e)
changes_keep [] e h = h
changes_keep (c ∷ cs) e h = changes_keep cs (change c e) (change-IsConsistent c e h)

-- Whatever is done to a consistent entity, its deletion flag and its deletion time agree, and it
-- stays equal to itself with the same creation time.
pub changes-IsConsistent :
    (cs : List Change) (e : BaseEntity)
    → IsConsistent e
    → IsConsistent (changes cs e)
      × (equals (changes cs e) e ≡ true)
      × ((changes cs e).created_at ≡ e.created_at)
unfolding equals
changes-IsConsistent cs e h =
    let (same_id, same_created) = changes-same cs e in
    (changes_keep cs e h, (==_iff (changes cs e).id e.id).1 same_id, same_created)
