-- ===== src/Domain/Entity/Delivery.antt =====
-- The pending events of an aggregate: each is collected once, in the order of registration.
use mathlib.Core.List.{append_assoc, append-nil}
use converse_os.Prelude.{◌≡◌, sym, ap, ◌∙◌, List, [], ◌∷◌, ◌++◌}
use converse_os.Domain.Entity.{AggregateRoot, register_event, collect_events}

pub data Use {ℓ} (E : Type ℓ) : Type ℓ where
  register : E → Use E
  collect : Use E

module _ {ℓ} {E : Type ℓ} where
  abbrev pub registered : List (Use E) → List E
  registered [] = []
  registered (register e ∷ us) = e ∷ registered us
  registered (collect ∷ us) = registered us

  -- what the collecting calls return, one after the other, and the aggregate at the end
  abbrev pub run : List (Use E) → AggregateRoot E → List E × AggregateRoot E
  run [] a = ([], a)
  run (register e ∷ us) a = run us (register_event e a)
  run (collect ∷ us) a =
      let (batch, a') = collect_events a in let (rest, last) = run us a' in (batch ++ rest, last)

  -- Over any sequence of calls, the events collected, followed by those still pending, are those
  -- that were pending at the start followed by those registered: none is lost, doubled or moved.
  pub run-registered :
      (us : List (Use E)) (a : AggregateRoot E)
      → let (collected, last) = run us a in
        collected ++ last.domain_events ≡ a.domain_events ++ registered us
  unfolding register_event collect_events
  run-registered [] a = sym (append-nil a.domain_events)
  run-registered (register e ∷ us) a =
      run-registered us (register_event e a) ∙ append_assoc a.domain_events (e ∷ []) (registered us)
  run-registered (collect ∷ us) a =
      append_assoc a.domain_events _ _
      ∙ ap (λ es. a.domain_events ++ es) (run-registered us (collect_events a).1)
