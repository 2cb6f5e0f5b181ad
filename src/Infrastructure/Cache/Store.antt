-- ===== src/Infrastructure/Cache/Store.antt =====
-- The cache as its callers see it: a function of a tenant and a key, and the calls on it.
use converse_os.Prelude.{
  ℕ, String, List, [], ◌∷◌, Option, none, some, Bool, true, false, ◌&&◌, ◌==◌, string_eq,
  if◌then◌else◌, Result, ok,
}
use converse_os.Domain.Exceptions.{Exn}
use converse_os.Infrastructure.Cache.{Cached, value}

-- a call for a tenant
pub data Op (V : Type 0) : Type 0 where
  put : String → String → V → Option ℕ → Op V
  erase : String → String → Op V
  claim : String → String → V → ℕ → Op V
  read : String → String → Op V

abbrev pub tenant_of : {V : Type 0} → Op V → String
tenant_of (put t k v ttl) = t
tenant_of (erase t k) = t
tenant_of (claim t k v ttl) = t
tenant_of (read t k) = t

-- what a call returns
pub data Reply (V : Type 0) : Type 0 where
  done : Reply V
  flag : Bool → Reply V
  found : Option (Cached V) → Reply V

-- The abstract view: a function of a tenant and a key.
abbrev pub Store : Type 0 → Type 0
Store V = String → String → Option V

abbrev pub update_at : {V : Type 0} → Store V → String → String → Option V → Store V
update_at f t k o u j = if t == u && k == j then o else f u j

abbrev pub is_some : {V : Type 0} → Option V → Bool
is_some none = false
is_some (some v) = true

-- what a reader gets for what was set, by what JSON gives back for a value
abbrev pub cached : {V : Type 0} → (V → V) → Option V → Option (Cached V)
cached returned none = none
cached returned (some v) = some (value (returned v))

abbrev pub claim_at : {V : Type 0} → Store V → String → String → V → Option V → Reply V × Store V
claim_at f t k v none = (flag true, update_at f t k (some v))
claim_at f t k v (some w) = (flag false, f)

abbrev pub perform_at : {V : Type 0} → (V → V) → Op V → Store V → Reply V × Store V
perform_at returned (put t k v ttl) f = (done, update_at f t k (some v))
perform_at returned (erase t k) f = (flag (is_some (f t k)), update_at f t k none)
perform_at returned (claim t k v ttl) f = claim_at f t k v (f t k)
perform_at returned (read t k) f = (found (cached returned (f t k)), f)

abbrev pub replay :
    {V : Type 0} → (V → V) → List (Op V) → Store V → List (Result Exn (Reply V)) × Store V
replay returned [] f = ([], f)
replay returned (op ∷ ops) f =
    let (reply, f') = perform_at returned op f in
    let (replies, last) = replay returned ops f' in (ok reply ∷ replies, last)
