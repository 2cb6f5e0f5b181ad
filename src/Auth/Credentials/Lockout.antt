-- ===== src/Auth/Credentials/Lockout.antt =====
-- When an account is locked.
use converse_os.Prelude.{
  ℕ, String, ◌+◌, ◌*◌, ◌≤◌, ◌<◌, ◌≡◌, refl, inl, inr, Option-cases, Option, some, List, [], ◌∷◌,
  Bool, true, ◌&&◌, ltb, leb, length, arith,
}
use converse_os.Domain.Entity.{BaseEntity}
use converse_os.Auth.Credentials.{
  UserCredentials, create, record_successful_login, record_failed_login, is_locked, update_password,
}

-- failed logins at these times, with these settings
abbrev pub failures : ℕ → ℕ → List ℕ → UserCredentials → UserCredentials
failures m d [] c = c
failures m d (t ∷ ts) c = failures m d ts (record_failed_login m d t t c)

attempts-failures :
    (m d : ℕ) (ts : List ℕ) (c : UserCredentials)
    → (failures m d ts c).failed_login_attempts ≡ c.failed_login_attempts + length ts
unfolding record_failed_login
attempts-failures m d [] c = omega arith
attempts-failures m d (t ∷ ts) c =
    omega (arith, attempts-failures m d ts (record_failed_login m d t t c))

-- as long as the attempts stay below the maximum the lock is left alone
locked_until-failures :
    (m d : ℕ) (ts : List ℕ) (c : UserCredentials)
    → c.failed_login_attempts + length ts < m
    → (failures m d ts c).locked_until ≡ c.locked_until
unfolding record_failed_login
locked_until-failures m d [] c h = refl
locked_until-failures m d (t ∷ ts) c h =
    ground (arith, locked_until-failures m d ts (record_failed_login m d t t c))

-- After a successful login followed by failed ones, the last of them at time `t`, the account is
-- locked at time `now` exactly when the failures have reached the maximum number of attempts and
-- the lock's duration has not passed since `t`.
pub lockout_exact :
    (m d : ℕ) (ts : List ℕ) (t s u now : ℕ) (c : UserCredentials)
    → is_locked now (record_failed_login m d t t (failures m d ts (record_successful_login s u c)))
      ≡ leb m (length ts + 1) && ltb now (t + d * 60)
unfolding is_locked record_failed_login record_successful_login
lockout_exact m d ts t s u now c = ground (
  arith,
  attempts-failures m d ts (record_successful_login s u c),
  locked_until-failures m d ts (record_successful_login s u c),
)

-- What can happen to credentials: the logins, with the default settings, and a new password.
pub data Action : Type 0 where
  login : ℕ → ℕ → Action
  fail : ℕ → ℕ → Action
  set_password : String → ℕ → Action

abbrev pub act : Action → UserCredentials → UserCredentials
act (login now later) c = record_successful_login now later c
act (fail now later) c = record_failed_login 5 15 now later c
act (set_password hash now) c = update_password hash now c

abbrev pub history : List Action → UserCredentials → UserCredentials
history [] c = c
history (a ∷ rest) c = history rest (act a c)

-- the number of failed logins since the last successful one, `n` of them before the list
abbrev pub streak : List Action → ℕ → ℕ
streak [] n = n
streak (login now later ∷ rest) n = streak rest 0
streak (fail now later ∷ rest) n = streak rest (n + 1)
streak (set_password hash now ∷ rest) n = streak rest n

-- A lock is only there with at least five failures on record.
record IsGuarded (n : ℕ) (c : UserCredentials) : Type 0 where
  counted : c.failed_login_attempts ≡ n
  earned : (u : ℕ) → c.locked_until ≡ some u → 5 ≤ n

is_locked-IsGuarded :
    (n now : ℕ) (c : UserCredentials) → IsGuarded n c → is_locked now c ≡ true → 5 ≤ n
unfolding is_locked
is_locked-IsGuarded n now c g h = elim (Option-cases c.locked_until) [
  | inl open_account ↦ ground arith
  | inr (u, e) ↦ g.earned u e
]

fail-IsGuarded :
    (n now later : ℕ) (c : UserCredentials)
    → IsGuarded n c
    → IsGuarded (n + 1) (record_failed_login 5 15 now later c)
unfolding record_failed_login
fail-IsGuarded n now later c g = record {
  counted = omega (arith, g.counted);
  earned = λ u e. ground (arith, g.earned u, g.counted);
}

history-IsGuarded :
    (actions : List Action) (n : ℕ) (c : UserCredentials)
    → IsGuarded n c
    → IsGuarded (streak actions n) (history actions c)
unfolding record_successful_login update_password
history-IsGuarded [] n c g = g
history-IsGuarded (login now later ∷ rest) n c g =
    history-IsGuarded rest 0 _ (record { counted = refl; earned = λ u e. cc })
history-IsGuarded (fail now later ∷ rest) n c g =
    history-IsGuarded rest (n + 1) _ (fail-IsGuarded n now later c g)
history-IsGuarded (set_password hash now ∷ rest) n c g =
    history-IsGuarded rest n _ (record { counted = g.counted; earned = g.earned })

-- From creation on, whatever logins, failures and password changes there are, an account that is
-- locked has had at least five failed logins since the last successful one.
pub is_locked-streak :
    (entity : BaseEntity) (user_id : ℕ) (email : String) (hash : Option String) (active : Bool)
    (actions : List Action) (now : ℕ)
    → is_locked now (history actions (create entity user_id email hash active)) ≡ true
    → 5 ≤ streak actions 0
unfolding create
is_locked-streak entity user_id email hash active actions now h =
    is_locked-IsGuarded (streak actions 0) now _
      (history-IsGuarded actions 0 _ (record { counted = refl; earned = λ u e. cc })) h

-- With the failures on record at or above the limit, one more failure locks the account for the
-- full duration, also after an earlier lock has run out: only a successful login resets the count.
pub relock :
    (m d t u now : ℕ) (c : UserCredentials)
    → m ≤ c.failed_login_attempts
    → is_locked now (record_failed_login m d t u c) ≡ ltb now (t + d * 60)
unfolding is_locked record_failed_login
relock m d t u now c h = ground arith
