-- ===== src/Infrastructure/Messaging.antt =====
-- infrastructure/messaging.py: `KafkaConsumerManager`. The messages that the broker delivers are a
-- list; the broker's client and the handlers are parameters. A message holds what the loop reads of
-- it. The producer is in Messaging/Producer, the start and the end in Messaging/Connection; log lines
-- are left out.
pub mod Offsets
pub mod Producer
pub mod Connection
mod Tests
use converse_os.Prelude.{
  ℕ, suc, ◌+◌, ◌≡◌, String, List, [], ◌∷◌, Option, none, some, Bool, true, false, not, string_eq,
  Result, ok, raise, if◌then◌else◌,
}
use converse_os.Prelude.Dict.{Dict, lookup, insert}
use converse_os.Domain.Exceptions.{Exn, runtime_error}

-- `value.get("event_type", value.get("type", "unknown"))` reads two entries of the value.
pub record Message : Type 0 where
  pub offset : ℕ
  pub event_type : Option String
  pub kind : Option String
  pub payload : String

unfoldable pub type_of : Message → String
type_of msg = elim msg.event_type [
  | some event_type ↦ event_type
  | none ↦ elim msg.kind [ some kind ↦ kind | none ↦ "unknown" ]
]

abbrev pub MessageHandler : Type 0 → Type 0
MessageHandler S = Message → S → Result Exn (Unit {0}) × S

-- The client of one partition, as documented: a delivered message moves the position behind it,
-- and `commit` without arguments stores the position.
pub record Client : Type 1 where
  pub C : Type 0
  pub deliver : Message → C → C
  pub commit : C → Result Exn (Unit {0}) × C
  pub position : C → ℕ
  pub committed : C → ℕ
  pub position-deliver : (m : Message) (c : C) → position (deliver m c) ≡ suc m.offset
  pub committed-deliver : (m : Message) (c : C) → committed (deliver m c) ≡ committed c
  pub commit-position : (c c' : C) → commit c ≡ (ok tt, c') → committed c' ≡ position c

pub record ConsumerManager (S : Type 0) : Type 0 where
  pub started : Bool
  pub enable_auto_commit : Bool
  pub handlers : Dict String (MessageHandler S)

module _ {S : Type 0} where
  unfoldable pub register_handler :
      String → MessageHandler S → ConsumerManager S → ConsumerManager S
  unfolding insert
  register_handler event_type handler k = record k {
    handlers = insert event_type handler k.handlers;
  }

  module _ (client : Client) (k : ConsumerManager S) where
    open client use {C, deliver}

    -- the handler of the message, if there is one
    unfoldable pub handle_message : Message → S → Result Exn (Unit {0}) × S
    unfolding lookup type_of
    handle_message msg s = elim (lookup (type_of msg) k.handlers) [
      | none ↦ (ok tt, s)
      | some handler ↦ handler msg s
    ]

    -- "Manual commit after processing"
    unfoldable pub commit_position : C → C
    commit_position c = if not k.enable_auto_commit then (client.commit c).1 else c

    -- the end of the body of the loop: what the handler raises is logged, and nothing is committed
    unfoldable pub after_handler : Result Exn (Unit {0}) × S → C → S × C
    unfolding commit_position
    after_handler (raise e, s) c = (s, c)
    after_handler (ok _, s) c = (s, commit_position c)

    -- the body of the loop
    unfoldable pub process : Message → S × C → S × C
    unfolding handle_message after_handler
    process msg (s, c) = after_handler (handle_message msg s) (deliver msg c)

    unfoldable pub consume_all : List Message → S × C → S × C
    unfolding process
    consume_all [] state = state
    consume_all (msg ∷ msgs) state = consume_all msgs (process msg state)

    unfoldable pub consume : List Message → S × C → Result Exn (Unit {0}) × (S × C)
    unfolding consume_all
    consume msgs state =
        if k.started
        then (ok tt, consume_all msgs state)
        else (raise (runtime_error "Consumer not started."), state)
