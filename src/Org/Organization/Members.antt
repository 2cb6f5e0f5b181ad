-- ===== src/Org/Organization/Members.antt =====
-- The members of an organization: no user twice, and never without an owner.
use mathlib.Core.Path.{subst}
use converse_os.Prelude.{
  ap, ℕ, String, ◌+◌, ◌≤◌, ◌≡◌, refl, ◌⊎◌, inl, inr, Option, none, some, Option-cases, Bool-cases,
  List, [], ◌∷◌, ◌++◌, Bool, true, false, ◌||◌, ◌&&◌, ◌==◌, nat_eq, string_eq, ==_iff, Result, ok,
  raise, leb, arith, if◌then◌else◌,
}
use converse_os.Domain.Entity.{BaseEntity, touch}
use converse_os.Domain.Exceptions.{Exn}
use converse_os.Org.Organization.{
  OrganizationMember, Organization, is_member, find_member, owner_count, without_user, add_member,
  create, drop_member, remove_member,
}

-- no user is listed twice
abbrev pub HasUniqueUsers : List OrganizationMember → Type 0
HasUniqueUsers [] = Unit
HasUniqueUsers (m ∷ ms) = (is_member m.user_id ms ≡ false) × HasUniqueUsers ms

pub record IsValid (org : Organization) : Type 0 where
  pub unique : HasUniqueUsers org.members
  pub owned : 1 ≤ owner_count org.members

owner_count-append :
    (xs ys : List OrganizationMember) → owner_count (xs ++ ys) ≡ owner_count xs + owner_count ys
unfolding owner_count
owner_count-append [] ys = omega arith
owner_count-append (x ∷ xs) ys = ground (arith, owner_count-append xs ys)

is_member-add :
    (u : ℕ) (m : OrganizationMember) (xs : List OrganizationMember)
    → is_member u (xs ++ m ∷ []) ≡ u == m.user_id || is_member u xs
unfolding is_member
is_member-add u m [] = ground arith
is_member-add u m (x ∷ xs) = ground (arith, is_member-add u m xs)

HasUniqueUsers-add :
    (m : OrganizationMember) (xs : List OrganizationMember)
    → HasUniqueUsers xs
    → is_member m.user_id xs ≡ false
    → HasUniqueUsers (xs ++ m ∷ [])
unfolding is_member
HasUniqueUsers-add m [] u h = (refl, tt)
HasUniqueUsers-add m (x ∷ xs) (new, u) h =
    ground (arith, HasUniqueUsers-add m xs u, is_member-add x.user_id m xs)

is_member-without_user :
    (u v : ℕ) (xs : List OrganizationMember)
    → is_member u (without_user v xs) ≡ (if u == v then false else is_member u xs)
unfolding is_member without_user
is_member-without_user u v [] = ground arith
is_member-without_user u v (x ∷ xs) = ground (arith, is_member-without_user u v xs)

HasUniqueUsers-without_user :
    (v : ℕ) (xs : List OrganizationMember) → HasUniqueUsers xs → HasUniqueUsers (without_user v xs)
unfolding without_user
HasUniqueUsers-without_user v [] h = tt
HasUniqueUsers-without_user v (x ∷ xs) (new, h) =
    ground (arith, HasUniqueUsers-without_user v xs h, is_member-without_user x.user_id v xs)

without_user_absent :
    (v : ℕ) (xs : List OrganizationMember) → is_member v xs ≡ false → without_user v xs ≡ xs
unfolding without_user is_member
without_user_absent v [] h = refl
without_user_absent v (x ∷ xs) h = ground (arith, without_user_absent v xs)

-- without one user there is at most one owner less, and none less if the user is no owner
owner_count-without_user :
    (v : ℕ) (xs : List OrganizationMember) {m : OrganizationMember}
    → HasUniqueUsers xs
    → find_member v xs ≡ some m
    → owner_count xs ≡ owner_count (without_user v xs) + (if m.role == "OWNER" then 1 else 0)
unfolding without_user find_member owner_count
owner_count-without_user v [] u h = cc
owner_count-without_user v (x ∷ xs) {m} (new, u) h =
    ground (arith, owner_count-without_user v xs {m = m} u, without_user_absent v xs)

-- A new organization is valid: its creator is its only member, and an owner.
pub create-IsValid :
    (org_entity member_entity : BaseEntity) (now : ℕ) (name slug : String) (owner_id : ℕ)
    → let org = create org_entity member_entity now name slug owner_id in
      IsValid org × (is_member owner_id org.members ≡ true)
unfolding create add_member is_member owner_count
create-IsValid org_entity member_entity now name slug owner_id =
    (record { unique = (refl, tt); owned = omega arith }, ground (arith, ==_iff owner_id owner_id))

-- Adding a user who is a member raises and changes nothing. Adding anyone else makes the user a
-- member, and keeps the organization valid and every other membership as it was.
pub add_member-cases :
    (entity : BaseEntity) (now u : ℕ) (role : String) (org : Organization)
    → IsValid org
    → let (r, org') = add_member entity now u role org in
      (is_member u org.members ≡ true) × (¬ (r ≡ ok tt)) × (org' ≡ org)
      ⊎ (is_member u org.members ≡ false)
        × (r ≡ ok tt)
        × IsValid org'
        × ((v : ℕ) → is_member v org'.members ≡ (v == u || is_member v org.members))
unfolding add_member
add_member-cases entity now u role org valid = elim (Bool-cases (is_member u org.members)) [
  | inl old ↦ inl (rw (old, add_member) (refl, λ e. cc, refl))
  | inr new ↦ inr (
      rw (new, add_member)
        (
          refl,
          refl,
          record {
            unique =
                HasUniqueUsers-add (record { entity = entity; user_id = u; role = role })
                  org.members valid.unique new;
            owned = omega (
              arith,
              valid.owned,
              owner_count-append org.members
                  (record { entity = entity; user_id = u; role = role } ∷ []),
            );
          },
          λ v. is_member-add v (record { entity = entity; user_id = u; role = role }) org.members,
        ))
]

-- The outcome of a call that raises and leaves the organization as it was.
abbrev pub Fails : Organization → Result Exn (Unit {0}) × Organization → Type 0
Fails org (raise e, org') = org' ≡ org
Fails org (ok _, org') = ⊥

-- The outcome of a call that takes one member out of the list, the one of this user, writes the time
-- of the change, leaves everything else, and keeps the organization valid.
pub record Removes (now u : ℕ) (org : Organization) (out : Result Exn (Unit {0}) × Organization)
    : Type 0 where
  pub member : OrganizationMember
  pub before : List OrganizationMember
  pub after : List OrganizationMember
  pub of_user : member.user_id ≡ u
  pub listed : org.members ≡ before ++ member ∷ after
  pub returns : out ≡ (
    ok tt,
    record org {
      root = record org.root { entity = record org.root.entity { updated_at = now } };
      members = before ++ after;
    },
  )
  pub valid : IsValid out.1
  pub gone : is_member u out.1.members ≡ false

abbrev pub is_last_owner : Option OrganizationMember → List OrganizationMember → Bool
is_last_owner none ms = false
is_last_owner (some m) ms = m.role == "OWNER" && leb (owner_count ms) 1

-- with no user twice, leaving out the user takes out the one member that is found
without_user_split :
    (u : ℕ) (xs : List OrganizationMember) {m : OrganizationMember}
    → HasUniqueUsers xs
    → find_member u xs ≡ some m
    → (before : List OrganizationMember) × (after : List OrganizationMember) × (m.user_id ≡ u)
      × (xs ≡ before ++ m ∷ after)
      × (without_user u xs ≡ before ++ after)
unfolding without_user find_member
without_user_split u [] unique h = cc
without_user_split u (x ∷ xs) {m} (new, unique) h = elim (Bool-cases (x.user_id == u)) [
  | inl same ↦
      let is_u : x.user_id ≡ u = (==_iff x.user_id u).0 same in
      let is_m : x ≡ m = ground arith in
      (
        [],
        xs,
        ground arith,
        ap (λ y. y ∷ xs) is_m,
        rw same (without_user_absent u xs (subst (λ i. is_member i xs ≡ false) is_u new)),
      )
  | inr other ↦
      let (before, after, of_user, listed, left) =
        without_user_split u xs {m = m} unique (rw other at h) in
      (x ∷ before, after, of_user, ap (λ l. x ∷ l) listed, rw other (ap (λ l. x ∷ l) left))
]

drop_member-Removes :
    (now u : ℕ) (org : Organization) {m : OrganizationMember}
    → IsValid org
    → find_member u org.members ≡ some m
    → is_last_owner (some m) org.members ≡ false
    → Removes now u org (ok tt, drop_member now u org)
unfolding touch
drop_member-Removes now u org {m} valid found kept =
    let (earlier, later, of_user, listed, left) =
      without_user_split u org.members {m = m} valid.unique found in
    record {
      member = m;
      before = earlier;
      after = later;
      of_user = of_user;
      listed = listed;
      returns = rw left refl;
      valid = record {
        unique = HasUniqueUsers-without_user u org.members valid.unique;
        owned = ground (
          arith,
          valid.owned,
          kept,
          owner_count-without_user u org.members {m = m} valid.unique found,
        );
      };
      gone = ground (arith, is_member-without_user u u org.members, ==_iff u u);
    }

-- In a valid organization, removing a user who is no member changes nothing, not even the time of
-- the last change. Removing an owner who is the last one raises and changes nothing. Any other member
-- is taken out of the list: the other members keep their roles and their order, the time of the
-- change is written, nothing else changes, and the organization stays valid.
pub remove_member-cases :
    (now u : ℕ) (org : Organization)
    → IsValid org
    → let outcome = remove_member now u org in
      let member = find_member u org.members in
      (member ≡ none) × (outcome ≡ (ok tt, org))
      ⊎ (¬ (member ≡ none)) × (is_last_owner member org.members ≡ true) × Fails org outcome
      ⊎ (¬ (member ≡ none)) × (is_last_owner member org.members ≡ false) × Removes now u org outcome
unfolding remove_member
remove_member-cases now u org valid = elim (Option-cases (find_member u org.members)) [
  | inl absent ↦ inl (absent, rw (absent, remove_member))
  | inr (m, found) ↦ elim (Bool-cases (m.role == "OWNER")) [
    | inl owner ↦ elim (Bool-cases (leb (owner_count org.members) 1)) [
      | inl last ↦ inr (inl (λ e. cc, ground arith, rw (found, owner, last, remove_member)))
      | inr more ↦ inr (
          inr (
            λ e. cc,
            ground arith,
            rw (found, owner, more, remove_member)
                (drop_member-Removes now u org {m = m} valid found (ground arith)),
          ))
    ]
    | inr plain ↦ inr (
        inr (
          λ e. cc,
          ground arith,
          rw (found, plain, remove_member)
              (drop_member-Removes now u org {m = m} valid found (ground arith)),
        ))
  ]
]
