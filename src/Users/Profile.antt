-- ===== src/Users/Profile.antt =====
-- domain/entities/user_profile.py: `UserProfile`. The address is given by its text. Each reading of
-- the clock is an argument.
pub mod Changes
mod Tests
use converse_os.Prelude.{ℕ, String, Option, none, some, [], string_eq}
use converse_os.Prelude.Dict.{Dict, update}
use converse_os.Domain.Value.{Value}
use converse_os.Domain.Events.{DomainEvent}
use converse_os.Domain.Entity.{BaseEntity, AggregateRoot, new_root, touch}

pub record UserProfile : Type 0 where
  pub root : AggregateRoot DomainEvent
  pub email : String
  pub first_name : Option String
  pub last_name : Option String
  pub avatar_url : Option String
  pub preferences : Dict String Value
  pub timezone : String

-- `create`, on the entity that holds the identifier of the user
unfoldable pub create : BaseEntity → String → Option String → Option String → UserProfile
unfolding new_root
create entity email first_name last_name = record {
  root = new_root entity;
  email = email;
  first_name = first_name;
  last_name = last_name;
  avatar_url = none;
  preferences = [];
  timezone = "UTC";
}

-- the arguments of `update_profile`
pub record ProfileChange : Type 0 where
  pub first_name : Option String
  pub last_name : Option String
  pub avatar_url : Option String
  pub timezone : Option String

-- an optional field, which a call without the argument leaves as it is
unfoldable pub changed : Option String → Option String → Option String
changed none old = old
changed (some new) old = some new

-- a field that always has a value
unfoldable pub replaced : Option String → String → String
replaced none old = old
replaced (some new) old = new

unfoldable pub update_profile : ProfileChange → ℕ → UserProfile → UserProfile
unfolding changed replaced touch
update_profile c now p = record p {
  root = touch now p.root;
  first_name = changed c.first_name p.first_name;
  last_name = changed c.last_name p.last_name;
  avatar_url = changed c.avatar_url p.avatar_url;
  timezone = replaced c.timezone p.timezone;
}

unfoldable pub update_preferences : Dict String Value → ℕ → UserProfile → UserProfile
unfolding update touch
update_preferences new now p = record p {
  root = touch now p.root;
  preferences = update p.preferences new;
}
