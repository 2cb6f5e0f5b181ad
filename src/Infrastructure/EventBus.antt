-- ===== src/Infrastructure/EventBus.antt =====
-- infrastructure/event_bus.py: the bus inside a process. Handlers are actions on the state `S` of
-- the process that may raise; what a handler has written before it raises stays written. The error
-- log is kept, since a failing handler shows there alone.
pub mod Dispatch
pub mod Kafka
pub mod Sending
mod Tests
use converse_os.Prelude.{
  String, Option, none, some, List, [], ◌∷◌, ◌++◌, Bool, true, false, ◌==◌, string_eq, Result, ok,
  raise, if◌then◌else◌,
}
use converse_os.Prelude.Dict.{Dict, lookup, insert}
use converse_os.Domain.Events.{DomainEvent}
use converse_os.Domain.Exceptions.{Exn}

abbrev pub Handler : Type 0 → Type 0
Handler S = DomainEvent → S → Result Exn (Unit {0}) × S

-- The state of the process beside the errors that the bus has logged.
pub record Process (S : Type 0) : Type 0 where
  pub state : S
  pub logged : List Exn

-- `_handlers`: the handlers of each event class
abbrev pub Handlers : Type 0 → Type 0
Handlers S = Dict String (List (Handler S))

module _ {S : Type 0} where
  -- `self._handlers.get(event_type, [])`
  unfoldable pub handlers_of : String → Handlers S → List (Handler S)
  unfolding lookup
  handlers_of class hs = elim (lookup class hs) [ none ↦ [] | some l ↦ l ]

  -- `subscribe`
  unfoldable pub subscribe : String → Handler S → Handlers S → Handlers S
  unfolding lookup insert
  subscribe class handler hs = elim (lookup class hs) [
    | none ↦ insert class (handler ∷ []) hs
    | some l ↦ insert class (l ++ handler ∷ []) hs
  ]

  -- the `try` round one handler
  unfoldable pub call_handler : DomainEvent → Handler S → Process S → Process S
  call_handler event handler p =
      let (r, s) = handler event p.state in
      elim r [
        | ok _ ↦ record p { state = s }
        | raise e ↦ record { state = s; logged = p.logged ++ e ∷ [] }
      ]

  unfoldable pub call_handlers : DomainEvent → List (Handler S) → Process S → Process S
  unfolding call_handler
  call_handlers event [] p = p
  call_handlers event (h ∷ hs) p = call_handlers event hs (call_handler event h p)

  -- `publish`
  unfoldable pub publish : Handlers S → DomainEvent → Process S → Process S
  unfolding call_handlers handlers_of
  publish hs event p = call_handlers event (handlers_of event.class hs) p

  -- `publish_many`
  unfoldable pub publish_many : Handlers S → List DomainEvent → Process S → Process S
  unfolding publish
  publish_many hs [] p = p
  publish_many hs (e ∷ es) p = publish_many hs es (publish hs e p)
