-- ===== src/Security/Rbac/Checks.antt =====
-- The checks on several permissions, and the guard that `require_permission` puts before an endpoint.
use mathlib.Core.Bool.{false≢true}
use converse_os.Prelude.{
  String, ◌≡◌, refl, ◌↔◌, ◌⊎◌, Option, none, some, List, [], ◌∷◌, Bool, true, false, Any, here,
  there, All, contains, all_in, Bool-cases, inl, inr, Result, raise, arith,
}
use converse_os.Domain.Exceptions.{Exn, domain, authorization_error}
use converse_os.Security.Rbac.Table.{Permission}
use converse_os.Security.Rbac.Equality.{permission_eq}
use converse_os.Security.Rbac.Engine.{
  get_permissions_for_roles, has_permission, denied, no_user, check_permission, intersection,
  non_empty, has_any_permission, has_all_permissions, CurrentUser, roles_of, require_permission,
}

intersection_sound :
    (s required : List Permission)
    → non_empty (intersection s required) ≡ true
    → Any (λ p. contains p s ≡ true) required
unfolding intersection
intersection_sound s [] h = cc
intersection_sound s (p ∷ required) h = elim (Bool-cases (contains p s)) [
  | inl held ↦ here held
  | inr missing ↦ there (intersection_sound s required (rw missing at h))
]

intersection_complete :
    (s required : List Permission)
    → Any (λ p. contains p s ≡ true) required
    → non_empty (intersection s required) ≡ true
unfolding intersection
intersection_complete s [] a = elim a [ ]
intersection_complete s (p ∷ required) (here h) = rw h
intersection_complete s (p ∷ required) (there a) =
    ground (arith, intersection_complete s required a)

-- `has_any_permission` holds exactly when `has_permission` holds of some required permission; so it
-- fails for an empty list.
pub has_any_permission_iff :
    (roles : List String) (required : List Permission)
    → (has_any_permission roles required ≡ true) ↔ Any (λ p. has_permission roles p ≡ true) required
unfolding has_any_permission has_permission
has_any_permission_iff roles required = (
  intersection_sound (get_permissions_for_roles roles) required,
  intersection_complete (get_permissions_for_roles roles) required,
)

all_in_iff :
    (s required : List Permission)
    → (all_in s required ≡ true) ↔ All (λ p. contains p s ≡ true) required
unfolding all_in
all_in_iff s [] = (λ h. tt, λ h. refl)
all_in_iff s (p ∷ required) = (
  λ h. elim (Bool-cases (contains p s)) [
    | inl held ↦ (held, (all_in_iff s required).0 (rw held at h))
    | inr missing ↦ absurd (false≢true (rw missing at h))
  ],
  λ h. rw h.0 ((all_in_iff s required).1 h.1),
)

-- `has_all_permissions` holds exactly when `has_permission` holds of every required permission; so
-- it holds for an empty list.
pub has_all_permissions_iff :
    (roles : List String) (required : List Permission)
    → (has_all_permissions roles required ≡ true)
      ↔ All (λ p. has_permission roles p ≡ true) required
unfolding has_all_permissions has_permission
has_all_permissions_iff roles required = all_in_iff (get_permissions_for_roles roles) required

-- the caller may run the endpoint: there is a user, and its roles grant the permission
abbrev pub may_call : Option CurrentUser → Permission → Bool
may_call none permission = false
may_call (some user) permission = has_permission (roles_of user) permission

-- The outcome is that of a refusal: an AuthorizationError with its error code, and the state as
-- it was.
abbrev pub Refused : {S A : Type 0} → S → Result Exn A × S → Type 0
Refused s (raise (domain e), s') =
    (e.class ≡ authorization_error) × (e.error_code ≡ "AUTHORIZATION_ERROR") × (s' ≡ s)
Refused s _ = ⊥

module _ {S A : Type 0} (permission : Permission) (resource : String) where
  -- With a user whose roles grant the permission the decorated endpoint is the endpoint itself;
  -- without a user, or without the permission, the endpoint does not run: the call raises an
  -- AuthorizationError and the state stays as it was.
  pub require_permission-guards :
      (func : S → Result Exn A × S) (user : Option CurrentUser) (s : S)
      → (may_call user permission ≡ true)
          × (require_permission permission resource func user s ≡ func s)
        ⊎ (may_call user permission ≡ false)
          × Refused s (require_permission permission resource func user s)
  unfolding require_permission check_permission no_user denied
  require_permission-guards func none s = inr (refl, (refl, refl, refl))
  require_permission-guards func (some user) s =
      elim (Bool-cases (has_permission (roles_of user) permission)) [
        | inl held ↦ inl (held, rw (held, require_permission))
        | inr missing ↦ inr (missing, rw (missing, require_permission) (refl, refl, refl))
      ]
