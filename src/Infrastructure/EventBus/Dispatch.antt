-- ===== src/Infrastructure/EventBus/Dispatch.antt =====
-- Which handlers an event reaches.
use mathlib.Core.List.{append_assoc, append-nil}
use converse_os.Prelude.{
  String, ◌≡◌, refl, sym, ap, ◌∙◌, inl, inr, Option-cases, List, [], ◌∷◌, ◌++◌, ◌==◌, string_eq,
  ==_iff, Result, ok, raise, if◌then◌else◌, arith, Bool-cases,
}
use converse_os.Prelude.Dict.{lookup, lookup-insert}
use converse_os.Domain.Events.{DomainEvent}
use converse_os.Domain.Exceptions.{Exn}
use converse_os.Infrastructure.EventBus.{
  Handler, Process, Handlers, handlers_of, subscribe, call_handler, call_handlers, publish,
}

-- what a run adds to the log
abbrev pub failure : Result Exn (Unit {0}) → List Exn
failure (ok _) = []
failure (raise e) = e ∷ []

module _ {S : Type 0} where
  -- After a subscription the handlers of that class are the earlier ones followed by the new one,
  -- and those of every other class are as they were.
  pub handlers_of-subscribe :
      (class other : String) (h : Handler S) (hs : Handlers S)
      → handlers_of other (subscribe class h hs)
        ≡ (if class == other then handlers_of class hs ++ h ∷ [] else handlers_of other hs)
  unfolding handlers_of subscribe
  handlers_of-subscribe class other h hs = elim (Option-cases (lookup class hs)) [
    | inl first ↦
        rw (first, subscribe)
          (ground (arith, first, lookup-insert class other (h ∷ []) hs, ==_iff class other))
    | inr (l, found) ↦
        rw (found, subscribe)
          (ground (arith, found, lookup-insert class other (l ++ h ∷ []) hs, ==_iff class other))
  ]

  -- subscriptions, in the order in which they are made
  abbrev pub subscribe_all : List (String × Handler S) → Handlers S → Handlers S
  subscribe_all [] hs = hs
  subscribe_all ((class, h) ∷ rest) hs = subscribe_all rest (subscribe class h hs)

  -- the handlers among the subscriptions that are for a class
  abbrev pub subscribed : String → List (String × Handler S) → List (Handler S)
  subscribed class [] = []
  subscribed class ((other, h) ∷ rest) =
      let later = subscribed class rest in if other == class then h ∷ later else later

  handlers_of-subscribe_all :
      (class : String) (subs : List (String × Handler S)) (hs : Handlers S)
      → handlers_of class (subscribe_all subs hs) ≡ handlers_of class hs ++ subscribed class subs
  handlers_of-subscribe_all class [] hs = sym (append-nil _)
  handlers_of-subscribe_all class ((other, h) ∷ rest) hs =
      handlers_of-subscribe_all class rest (subscribe other h hs)
      ∙ simp handlers_of-subscribe (elim (Bool-cases (other == class)) [
        | inl same ↦
            rw (same, append_assoc)
              (ap (λ c. handlers_of c hs ++ h ∷ subscribed class rest)
                ((==_iff other class).0 same))
        | inr new ↦ rw new
      ])

  -- the state and the error of a handler's run
  abbrev pub run_state : DomainEvent → List (Handler S) → S → S
  run_state e [] s = s
  run_state e (h ∷ hs) s = run_state e hs (h e s).1

  abbrev pub failures : DomainEvent → List (Handler S) → S → List Exn
  failures e [] s = []
  failures e (h ∷ hs) s = failure (h e s).0 ++ failures e hs (h e s).1

  call_handler_lem :
      (e : DomainEvent) (h : Handler S) (p : Process S)
      → call_handler e h p
        ≡ record { state = (h e p.state).1; logged = p.logged ++ failure (h e p.state).0 }
  unfolding call_handler
  call_handler_lem e h p = go (h e p.state).0
    where
      go :
          (r : Result Exn (Unit {0}))
          → elim r as (λ _. Process S) [
            | ok _ ↦ record p { state = (h e p.state).1 }
            | raise x ↦ record { state = (h e p.state).1; logged = p.logged ++ x ∷ [] }
          ]
            ≡ record { state = (h e p.state).1; logged = p.logged ++ failure r }
      go (ok _) = rw append-nil
      go (raise x) = refl

  call_handlers_lem :
      (e : DomainEvent) (hs : List (Handler S)) (p : Process S)
      → call_handlers e hs p
        ≡ record { state = run_state e hs p.state; logged = p.logged ++ failures e hs p.state }
  unfolding call_handlers call_handler
  call_handlers_lem e [] p = rw append-nil
  call_handlers_lem e (h ∷ hs) p =
      rw (call_handler_lem e h p) (call_handlers_lem e hs _ ∙ rw append_assoc)

  -- Publishing an event runs every handler that was subscribed to its class, in the order of the
  -- subscriptions, each on the state that the one before it left, also where that one raised; the
  -- errors raised are logged in the same order, and publishing itself does not raise.
  pub publish-subscribe_all :
      (subs : List (String × Handler S)) (e : DomainEvent) (p : Process S)
      → let hs = subscribed e.class subs in
        publish (subscribe_all subs []) e p
        ≡ record { state = run_state e hs p.state; logged = p.logged ++ failures e hs p.state }
  unfolding publish
  publish-subscribe_all subs e p =
      rw (handlers_of-subscribe_all e.class subs [])
        (call_handlers_lem e (subscribed e.class subs) p)
