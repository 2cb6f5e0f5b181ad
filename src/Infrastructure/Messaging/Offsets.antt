-- ===== src/Infrastructure/Messaging/Offsets.antt =====
-- Which offsets are committed, when some messages fail.
use converse_os.Prelude.{◌<◌, arith}
use converse_os.Prelude.{suc, ◌≡◌, refl, ap, ◌∙◌, [], ◌∷◌, false, ok, raise}
use converse_os.Domain.Exceptions.{Exn}
use converse_os.Infrastructure.Messaging.{
  Message, Client, ConsumerManager, handle_message, commit_position, after_handler, process,
  consume_all,
}

module _ {S : Type 0} (client : Client) (k : ConsumerManager S) where
  open client use {C, deliver, committed}

  -- A message whose handler raises leaves the committed offset as it is. But the loop goes on, and
  -- when the next message, with a greater offset, is handled, the committed offset is the one after
  -- that message, which is past the failed one. The manager commits by hand, and the broker accepts
  -- the commit.
  pub consume_all_failed :
      (failed next : Message) (s s1 s2 : S) (c c2 : C) (e : Exn)
      → k.enable_auto_commit ≡ false
      → failed.offset < next.offset
      → handle_message client k failed s ≡ (raise e, s1)
      → handle_message client k next s1 ≡ (ok tt, s2)
      → client.commit (deliver next (deliver failed c)) ≡ (ok tt, c2)
      → (committed (consume_all client k (failed ∷ []) (s, c)).1 ≡ committed c)
        × (consume_all client k (failed ∷ next ∷ []) (s, c) ≡ (s2, c2))
        × (committed c2 ≡ suc next.offset)
        × (failed.offset < committed c2)
  unfolding consume_all process after_handler commit_position
  consume_all_failed failed next s s1 s2 c c2 e manual later fails succeeds accepted =
      (first, both, stored, omega (arith, stored, later))
    where
      skipped : process client k failed (s, c) ≡ (s1, deliver failed c)
      skipped = ap (λ r. after_handler client k r (deliver failed c)) fails

      first : committed (consume_all client k (failed ∷ []) (s, c)).1 ≡ committed c
      first = ap (λ r. committed r.1) skipped ∙ client.committed-deliver failed c

      handled : process client k next (s1, deliver failed c) ≡ (s2, c2)
      handled =
          ap (λ r. after_handler client k r (deliver next (deliver failed c))) succeeds
          ∙ rw (manual, accepted) refl

      both : consume_all client k (failed ∷ next ∷ []) (s, c) ≡ (s2, c2)
      both = ap (process client k next) skipped ∙ handled

      stored : committed c2 ≡ suc next.offset
      stored =
          client.commit-position _ c2 accepted ∙ client.position-deliver next (deliver failed c)
