-- ===== src/Infrastructure/UnitOfWork/Broadcast/Tests.antt =====
-- The theorem on two events, the second of which is refused.
use converse_os.Prelude.{ℕ, ◌+◌, refl, some, [], ◌∷◌, true, ok}
use converse_os.Infrastructure.EventBus.{Process}
use converse_os.Infrastructure.EventBus.Kafka.{publish_event}
use converse_os.Infrastructure.EventBus.Sending.{Ends}
use converse_os.Infrastructure.EventBus.Sending.Example.{small_broker, kafka_bus, registered, idle}
use converse_os.Infrastructure.Messaging.Producer.{Broker}
use converse_os.Infrastructure.UnitOfWork.{Sessions, Uow, commit}
use converse_os.Infrastructure.UnitOfWork.Broadcast.{commit-Ends}

-- what is stored, and what the open transaction adds
abbrev counter : Sessions (ℕ × ℕ)
counter = record {
  begin = λ d. (d.0, 0);
  commit = λ d. (ok tt, (d.0 + d.1, 0));
  rollback = λ d. (ok tt, (d.0, 0));
  close = λ d. (d.0, 0);
}

abbrev work : Uow (ℕ × ℕ) (Process ℕ × Broker.K small_broker)
work = record {
  has_session = true;
  pending_events = registered ∷ registered ∷ [];
  db = (10, 5);
  bus = (idle, []);
}

commit-Ends_example :
    let outcome = commit counter (some (publish_event small_broker kafka_bus)) work in
    Ends small_broker kafka_bus (registered ∷ registered ∷ []) (idle, []) (outcome.0, outcome.1.bus)
commit-Ends_example = commit-Ends counter small_broker kafka_bus work (λ d. refl) refl refl refl
