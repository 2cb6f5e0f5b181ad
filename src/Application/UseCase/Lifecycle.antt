-- ===== src/Application/UseCase/Lifecycle.antt =====
-- What a use case has done when it returns or raises.
use converse_os.Prelude.{◌≡◌, refl, false, ok, raise}
use converse_os.Domain.Exceptions.{Exn}
use converse_os.Application.UseCase.{
  UseCase, Transaction, and_then, check, finish, run, leave, run_transaction,
}

module _ {I O S : Type 0} (uc : UseCase I O S) (transaction : Transaction S) where
  -- If the validation or the authorization raises, both kinds of use case raise the same exception in
  -- the state that the two checks leave: no transaction is begun and nothing is executed.
  pub run-check :
      (input : I) (s s' : S) (e : Exn)
      → check uc input s ≡ (raise e, s')
      → (run uc input s ≡ (raise e, s')) × (run_transaction uc transaction input s ≡ (raise e, s'))
  unfolding run run_transaction and_then
  run-check input s s' e h = rw h (refl, refl)

  -- A use case inside a transaction whose steps all succeed up to the end of the transaction is
  -- committed there: if the step after it raises, the caller gets the exception, but the state is the
  -- one that this step leaves after the commit, and nothing is rolled back.
  pub run_transaction_committed :
      (input : I) (s s1 s2 s3 s4 s5 : S) (result : O) (e : Exn)
      → check uc input s ≡ (ok tt, s1)
      → transaction.enter s1 ≡ (ok tt, s2)
      → uc.execute input s2 ≡ (ok result, s3)
      → transaction.exit false s3 ≡ (ok tt, s4)
      → uc.post_execute input result s4 ≡ (raise e, s5)
      → run_transaction uc transaction input s ≡ (raise e, s5)
  unfolding run_transaction leave finish and_then
  run_transaction_committed input s s1 s2 s3 s4 s5 result e c n x d p = rw (c, n, x, d, p) refl
