-- ===== src/Infrastructure/Messaging/Tests.antt =====
-- The theorem on a partition with two messages, of which the first has a handler that raises.
use converse_os.Prelude.{
  ℕ, suc, ◌<◌, ◌≡◌, refl, sym, ap, [], ◌∷◌, none, some, true, false, Result, ok, raise, arith,
}
use converse_os.Domain.Exceptions.{Exn, other}
use converse_os.Infrastructure.Messaging.{
  Message, MessageHandler, Client, ConsumerManager, register_handler, handle_message, consume_all,
}
use converse_os.Infrastructure.Messaging.Offsets.{consume_all_failed}

-- the position and the committed offset
record Offsets : Type 0 where
  position : ℕ
  committed : ℕ

abbrev stored : Offsets → Result Exn (Unit {0}) × Offsets
stored c = (ok tt, record c { committed = c.position })

commit-position : (c c' : Offsets) → stored c ≡ (ok tt, c') → c'.committed ≡ c.position
commit-position c c' h = ap (λ r. r.1.committed) (sym h)

abbrev client : Client
client = record {
  C = Offsets;
  deliver = λ m c. record c { position = suc m.offset };
  commit = stored;
  position = λ c. c.position;
  committed = λ c. c.committed;
  position-deliver = λ m c. refl;
  committed-deliver = λ m c. refl;
  commit-position = commit-position;
}

-- The state counts the handled messages.
abbrev count_up : MessageHandler ℕ
count_up m n = (ok tt, suc n)

abbrev refuse : MessageHandler ℕ
refuse m n = (raise (other "database"), n)

abbrev manager : ConsumerManager ℕ
manager = register_handler "user.created" refuse (
    register_handler "user.deleted" count_up
      (record { started = true; enable_auto_commit = false; handlers = [] }))

abbrev created : Message
created = record { offset = 4; event_type = some "user.created"; kind = none; payload = "" }

abbrev deleted : Message
deleted = record { offset = 5; event_type = none; kind = some "user.deleted"; payload = "" }

abbrev start : Offsets
start = record { position = 4; committed = 4 }

abbrev after : Offsets
after = record { position = 6; committed = 6 }

created_fails : handle_message client manager created 0 ≡ (raise (other "database"), 0)
unfolding handle_message register_handler
created_fails = refl

deleted_succeeds : handle_message client manager deleted 0 ≡ (ok tt, 1)
unfolding handle_message register_handler
deleted_succeeds = refl

consume_all_failed_example :
    ((consume_all client manager (created ∷ []) (0, start)).1.committed ≡ 4)
    × (consume_all client manager (created ∷ deleted ∷ []) (0, start) ≡ (1, after))
    × (after.committed ≡ 6)
    × (4 < after.committed)
unfolding register_handler
consume_all_failed_example =
    consume_all_failed client manager created deleted 0 0 1 start after (other "database") manual
      (omega arith) created_fails deleted_succeeds refl
  where
    manual : manager.enable_auto_commit ≡ false
    manual = refl
