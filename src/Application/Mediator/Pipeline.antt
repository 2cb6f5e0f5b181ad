-- ===== src/Application/Mediator/Pipeline.antt =====
-- Which handler a request reaches, and in what order the behaviors run.
use converse_os.Prelude.{
  String, ◌≡◌, refl, ap, ◌∙◌, Option, none, some, List, [], ◌∷◌, ◌++◌, ◌==◌, string_eq,
  if◌then◌else◌,
}
use Prim.Native.String.{◌++◌ as str_append}
use converse_os.Prelude.{raise, Bool, true, false}
use converse_os.Domain.Exceptions.{value_error}
use converse_os.Prelude.Dict.{Dict, insert, lookup, lookup-insert}
use converse_os.Application.Mediator.{
  Action, Handler, PipelineBehavior, Mediator, register_command_handler, add_pipeline_behavior,
  wrap, reversed, execute_pipeline, dispatch_to, send, query,
}

module _ {Q R S : Type 0} where
  -- the behaviors around an action, the first one outermost
  abbrev pub nest : List (PipelineBehavior Q R S) → Q → Action R S → Action R S
  nest [] request final = final
  nest (b ∷ bs) request final = b request (nest bs request final)

  wrap-append :
      (q : Q) (bs cs : List (PipelineBehavior Q R S)) (f : Action R S)
      → wrap q (bs ++ cs) f ≡ wrap q cs (wrap q bs f)
  unfolding wrap
  wrap-append q [] cs f = refl
  wrap-append q (b ∷ bs) cs f = wrap-append q bs cs (b q f)

  wrap-reversed :
      (q : Q) (bs : List (PipelineBehavior Q R S)) (f : Action R S)
      → wrap q (reversed bs) f ≡ nest bs q f
  unfolding wrap reversed
  wrap-reversed q [] f = refl
  wrap-reversed q (b ∷ bs) f =
      wrap-append q (reversed bs) (b ∷ []) f ∙ ap (λ g. b q g) (wrap-reversed q bs f)

  -- The loop that puts the behaviors around the handler from the last to the first is the nesting in
  -- which the behavior that was added first is the outermost one.
  pub execute_pipeline-nest :
      (bs : List (PipelineBehavior Q R S)) (q : Q) (f : Action R S)
      → execute_pipeline bs q f ≡ nest bs q f
  unfolding execute_pipeline
  execute_pipeline-nest [] q f = refl
  execute_pipeline-nest (b ∷ bs) q f = wrap-reversed q (b ∷ bs) f

  nest-append :
      (bs cs : List (PipelineBehavior Q R S)) (q : Q) (f : Action R S)
      → nest (bs ++ cs) q f ≡ nest bs q (nest cs q f)
  nest-append [] cs q f = refl
  nest-append (b ∷ bs) cs q f = ap (λ g. b q g) (nest-append bs cs q f)

  module _ (type_of : Q → String) where
    if-dispatch :
        (msg : String) (m : Mediator Q R S) (d : Dict String (Handler Q R S)) (c : Q) (s : S)
        (h : Handler Q R S) (b : Bool) (o : Option (Handler Q R S))
        → dispatch_to msg (record m { command_handlers = d }) c (if b then some h else o) s
          ≡ (if b then execute_pipeline m.pipeline_behaviors c (h c) s else dispatch_to msg m c o s)
    unfolding dispatch_to
    if-dispatch msg m d c s h true o = refl
    if-dispatch msg m d c s h false none = refl
    if-dispatch msg m d c s h false (some k) = refl

    -- After a handler is registered for a type of commands, a command of that type reaches this
    -- handler through the pipeline, whatever was registered for the type before; what happens to any
    -- other command, and to every query, is as before.
    pub send-register :
        (t : String) (h : Handler Q R S) (m : Mediator Q R S) (c : Q) (s : S)
        → (send type_of (register_command_handler t h m) c s ≡ (
            if t == type_of c
            then execute_pipeline m.pipeline_behaviors c (h c) s
            else send type_of m c s))
          × (query type_of (register_command_handler t h m) c s ≡ query type_of m c s)
    unfolding send query register_command_handler dispatch_to
    send-register t h m c s = (
      rw (lookup-insert t (type_of c) h m.command_handlers) (
          if-dispatch _ m (insert t h m.command_handlers) c s h (t == type_of c)
            (lookup (type_of c) m.command_handlers)),
      refl,
    )

    dispatch_to-add :
        (msg : String) (b : PipelineBehavior Q R S) (m : Mediator Q R S) (c : Q)
        (o : Option (Handler Q R S))
        → dispatch_to msg (add_pipeline_behavior b m) c o ≡ elim o [
          | none ↦ λ s. (raise (value_error msg), s)
          | some h ↦ nest m.pipeline_behaviors c (b c (h c))
        ]
    unfolding dispatch_to add_pipeline_behavior
    dispatch_to-add msg b m c none = refl
    dispatch_to-add msg b m c (some h) =
        execute_pipeline-nest (m.pipeline_behaviors ++ (b ∷ [])) c (h c)
        ∙ nest-append m.pipeline_behaviors (b ∷ []) c (h c)

    -- A behavior that is added runs inside the ones added before it, right around the handler; a
    -- command without a handler raises before any behavior runs.
    pub send-add :
        (b : PipelineBehavior Q R S) (m : Mediator Q R S) (c : Q)
        → send type_of (add_pipeline_behavior b m) c
          ≡ elim (lookup (type_of c) m.command_handlers) [
            | none ↦ λ s. (
              raise (value_error (str_append "No command handler registered for " (type_of c))),
              s,
            )
            | some h ↦ nest m.pipeline_behaviors c (b c (h c))
          ]
    unfolding send add_pipeline_behavior
    send-add b m c = dispatch_to-add _ b m c (lookup (type_of c) m.command_handlers)
