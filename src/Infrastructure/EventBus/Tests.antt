-- ===== src/Infrastructure/EventBus/Tests.antt =====
-- Instances of the theorems on the bus.
use converse_os.Prelude.{ℕ, String, ◌+◌, ◌≡◌, refl, none, List, [], ◌∷◌, string_eq, ok, raise}
use converse_os.Domain.Events.{DomainEvent}
use converse_os.Domain.Exceptions.{other}
use converse_os.Infrastructure.EventBus.{Handler, subscribe, publish}
use converse_os.Infrastructure.EventBus.Dispatch.{
  subscribe_all, run_state, failures, publish-subscribe_all,
}

abbrev event : DomainEvent
event = record {
  class = "UserRegistered";
  event_id = 1;
  event_type = "UserRegistered";
  occurred_at = 0;
  aggregate_id = none;
  tenant_id = none;
  correlation_id = none;
  causation_id = none;
  metadata = [];
  payload = [];
}

-- one handler counts and raises, the next counts again
abbrev breaks : Handler ℕ
breaks e n = (raise (other "boom"), n + 1)

abbrev counts : Handler ℕ
counts e n = (ok tt, n + 10)

abbrev subs : List (String × Handler ℕ)
subs = ("UserRegistered", breaks) ∷ ("Other", breaks) ∷ ("UserRegistered", counts) ∷ []

publish_run :
    publish (subscribe_all subs []) event (record { state = 0; logged = [] })
    ≡ record { state = 11; logged = other "boom" ∷ [] }
unfolding publish subscribe
publish_run = refl

publish-subscribe_all_example :
    publish (subscribe_all subs []) event (record { state = 0; logged = [] }) ≡ record {
      state = run_state event (breaks ∷ counts ∷ []) 0;
      logged = failures event (breaks ∷ counts ∷ []) 0;
    }
publish-subscribe_all_example = publish-subscribe_all subs event (record { state = 0; logged = [] })
