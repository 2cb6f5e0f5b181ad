-- ===== src/Infrastructure/EventBus/Sending/Tests.antt =====
-- The theorem on a broker that takes one message and refuses the next.
use converse_os.Prelude.{◌≡◌, refl, [], ◌∷◌, raise}
use converse_os.Domain.Exceptions.{other}
use converse_os.Infrastructure.EventBus.Kafka.{publish_event}
use converse_os.Infrastructure.EventBus.Sending.Example.{small_broker, kafka_bus, registered, idle}
use converse_os.Infrastructure.UnitOfWork.{publish_many}

refused_run :
    (publish_many
      (publish_event small_broker kafka_bus)
      (registered ∷ registered ∷ [])
      (idle, [])).0
    ≡ raise (other "KafkaError")
unfolding publish_many publish_event
refused_run = refl
