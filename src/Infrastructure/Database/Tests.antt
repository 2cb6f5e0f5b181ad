-- ===== src/Infrastructure/Database/Tests.antt =====
-- The theorems on a database of one list of numbers, whose commits succeed.
use converse_os.Prelude.{
  ◌≡◌, refl, sym, ap, ℕ, suc, ◌-◌, List, [], ◌∷◌, true, Result, ok, raise, arith,
}
use converse_os.Domain.Exceptions.{Exn, other}
use converse_os.Infrastructure.Database.{Database, DatabaseManager, Block, session}
use converse_os.Infrastructure.Database.Atomic.{Ends, session-Ends}

record Table : Type 0 where
  rows : List ℕ
  changed : List ℕ
  in_use : ℕ

abbrev commit_table : Table → Result Exn (Unit {0}) × Table
commit_table d = (ok tt, record d { rows = d.changed })

abbrev table : Database
table = record {
  D = Table;
  Content = List ℕ;
  stored = λ d. d.rows;
  working = λ d. d.changed;
  open_sessions = λ d. d.in_use;
  begin = λ d. record d { changed = d.rows; in_use = suc d.in_use };
  commit = commit_table;
  rollback = λ d. (ok tt, record d { changed = d.rows });
  close = λ d. record d { in_use = d.in_use - 1 };
  stored-begin = λ d. refl;
  open_sessions-begin = λ d. refl;
  stored-commit = λ d d' h. ap (λ p. p.1.rows) (sym h);
  open_sessions-commit = λ d. refl;
  stored-rollback = λ d. refl;
  open_sessions-rollback = λ d. refl;
  stored-close = λ d. refl;
  open_sessions-close = λ d n h. omega arith;
}

abbrev manager : DatabaseManager
manager = record { initialized = true }

abbrev before : Table
before = record { rows = 1 ∷ []; changed = []; in_use = 2 }

-- a block that adds a row
abbrev add_row : Block table manager ℕ
add_row d = (ok 7, record d { changed = 5 ∷ d.changed })

-- a block that adds a row and raises
abbrev add_and_raise : Block table manager ℕ
add_and_raise d = (raise (other "broken"), record d { changed = 6 ∷ d.changed })

added : (session table manager add_row before).1.rows ≡ 5 ∷ 1 ∷ []
unfolding session
added = refl

not_added : (session table manager add_and_raise before).1.rows ≡ 1 ∷ []
unfolding session
not_added = refl

session-Ends_example :
    Ends table manager
      (1 ∷ [])
      2
      (add_row (record before { changed = 1 ∷ []; in_use = 3 }))
      (session table manager add_row before)
session-Ends_example = session-Ends table manager add_row before refl (λ d. (refl, refl))
