-- ===== src/Application/Commands/Memory.antt =====
-- An instance of what the handlers take: a database in memory, its sessions and a repository on it,
-- and a kernel whose calls do what their names say.
use converse_os.Prelude.{◌≡◌, refl, Result, ok, Eq}
use converse_os.Prelude.Dict.{Dict, lookup, insert}
use converse_os.Prelude.Decimal.{decimal}
use converse_os.Domain.Exceptions.{Exn}
use converse_os.Infrastructure.UnitOfWork.{Sessions}
use converse_os.Infrastructure.UnitOfWork.Commit.{RollsBack}
use converse_os.Application.Commands.{Repository, Kernel}
use converse_os.Application.Commands.Unstored.{Isolates, Works, KernelWorks}

-- what is stored, and what the session sees
pub record Store (C : Type 0) : Type 0 where
  pub content : C
  pub work : C

module _ {C : Type 0} where
  abbrev pub memory_sessions : Sessions (Store C)
  memory_sessions = record {
    begin = λ d. record d { work = d.content };
    commit = λ d. (ok tt, record d { content = d.work });
    rollback = λ d. (ok tt, record d { work = d.content });
    close = λ d. d;
  }

  abbrev pub content : Store C → C
  content d = d.content

  abbrev pub memory_isolates : Isolates memory_sessions content
  memory_isolates = record {
    stored-begin = λ d. refl;
    stored-rollback = λ d. refl;
    stored-close = λ d. refl;
  }

  abbrev pub memory_rolls_back : RollsBack memory_sessions
  memory_rolls_back = λ d. refl

module _ {K A : Type 0} ⦃e : Eq K⦄ (key : A → K) where
  abbrev pub memory_repository : Repository K A (Store (Dict K A))
  memory_repository = record {
    find = λ k d. (ok (lookup k d.work), d);
    save = λ a d. (ok tt, record d { work = insert (key a) a d.work });
  }

  abbrev pub memory_works : Works content memory_repository
  memory_works = record { find_stored = λ k d. refl; save_stored = λ a d. refl }

module _ {A T D B : Type 0} where
  abbrev pub memory_kernel : Kernel A T D B
  memory_kernel = record {
    Answer = T;
    result_ok = λ t. t;
    str_uuid = decimal;
    add_domain_event = λ e a. ok a;
    register_aggregate = λ a u. (ok a, u);
  }

same_view :
    {A V : Type 0} (view : A → V) (a a' : A)
    → (let r : Result Exn A = ok a in r ≡ ok a')
    → view a' ≡ view a
same_view view a a' h = cc

module _ {A D B : Type 0} (T : Type 0) where
  pub memory_kernel_works :
      {C : Type 0} (stored : D → C)
      → KernelWorks stored (memory_kernel {A = A} {T = T} {D = D} {B = B})
  memory_kernel_works stored a u = refl
