-- ===== src/Application/UseCase.antt =====
-- application/use_case.py: the life cycle of a use case, plain and inside a transaction. Each step is
-- what awaiting the method does to the state `S`.
pub mod Lifecycle
mod Tests
use converse_os.Prelude.{Bool, true, false, Result, ok, raise}
use converse_os.Domain.Exceptions.{Exn}

-- the methods that a subclass gives; the first two and the last do nothing by default
pub record UseCase (I O S : Type 0) : Type 0 where
  pub validate : I → S → Result Exn (Unit {0}) × S
  pub authorize : I → S → Result Exn (Unit {0}) × S
  pub execute : I → S → Result Exn O × S
  pub post_execute : I → O → S → Result Exn (Unit {0}) × S

-- what `_begin_transaction` returns: `__aenter__`, and `__aexit__`, told whether the block raised
pub record Transaction (S : Type 0) : Type 0 where
  pub enter : S → Result Exn (Unit {0}) × S
  pub exit : Bool → S → Result Exn (Unit {0}) × S

-- one awaited call after the other, up to one that raises
unfoldable pub and_then :
    {A B S : Type 0} → Result Exn A × S → (A → S → Result Exn B × S) → Result Exn B × S
and_then (ok a, s) k = k a s
and_then (raise e, s) k = (raise e, s)

-- a hook that is not overridden
unfoldable pub no_hook : {I S : Type 0} → I → S → Result Exn (Unit {0}) × S
no_hook input s = (ok tt, s)

module _ {I O S : Type 0} (uc : UseCase I O S) where
  -- the two checks at the start of both `__call__`
  unfoldable pub check : I → S → Result Exn (Unit {0}) × S
  unfolding and_then
  check input s = and_then (uc.validate input s) (λ _. uc.authorize input)

  -- the call of `_post_execute`, and the result
  unfoldable pub finish : I → O → S → Result Exn O × S
  unfolding and_then
  finish input result s = and_then (uc.post_execute input result s) (λ _ s'. (ok result, s'))

  -- `UseCase.__call__`
  unfoldable pub run : I → S → Result Exn O × S
  unfolding check finish and_then
  run input s = and_then (check input s) (λ _ s1. and_then (uc.execute input s1) (finish input))

  module _ (transaction : Transaction S) where
    -- the end of the block of `async with`; what `__aexit__` raises replaces the block's exception
    unfoldable pub leave : Result Exn O × S → Result Exn O × S
    unfolding and_then
    leave (ok result, s) = and_then (transaction.exit false s) (λ _ s'. (ok result, s'))
    leave (raise e, s) = and_then (transaction.exit true s) (λ _ s'. (raise e, s'))

    -- `TransactionalUseCase.__call__`
    unfoldable pub run_transaction : I → S → Result Exn O × S
    unfolding check finish and_then leave
    run_transaction input s = and_then (check input s) (λ _ s1.
        and_then (and_then (transaction.enter s1) (λ _ s2. leave (uc.execute input s2)))
          (finish input))
