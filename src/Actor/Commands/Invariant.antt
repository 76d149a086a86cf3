-- ===== src/Actor/Commands/Invariant.antt =====
-- The invariant of a flow's actor, and how it answers (receiveCommand of actor/graph.go).
use completer.Prelude.{
  subst, ℕ, ◌≡◌, refl, inl, inr, String, List, [], ◌∷◌, ◌++◌, Option, none, some, true, arith,
  Outcome, Ensures, Ensures-bind, Ensures-mono, length, ◌≤◌, Option-cases,
}
use completer.Model.Event.{Event, graph_created}
use completer.Model.Command.{Command}
use completer.Graph.Stage.{CompletionGraph}
use completer.Graph.Engine.{World}
use completer.Graph.Validate.{validate_command, max_stages}
use completer.Graph.Validate.Acceptance.{IsNumbered}
use completer.Persistence.Provider.{ProviderState}
use completer.Persistence.Mixin.{persist_receive}
use completer.Actor.State.{
  Host, GraphActor, Message, respond_created, respond_error, replies, replies-append,
}
use completer.Actor.Updates.Progress.{persist_receive-ends}
use completer.Actor.Commands.Answers.{accepts}
use completer.Actor.Commands.{
  run_command, run_create, receive_command, validate_cmd, on_graph, dispatch_command,
}
use completer.Actor.Commands.Soundness.{IsSound}
use completer.Actor.Commands.Handling.{Answered, run_command-Answered}

-- An actor that has a graph has one whose keys are below its size and that has at most `max_stages`
-- stages.
abbrev pub IsSoundGraph : Option CompletionGraph → Type 0
IsSoundGraph none = Unit
IsSoundGraph (some g) = IsNumbered g.stages × (length g.stages ≤ max_stages)

-- A later actor that is sound, and what was answered.
abbrev AnsweredActor : {J : Type 0} → Command → (a b : GraphActor J) → Type 0
AnsweredActor c a b =
    IsSoundGraph b.graph
    × (ms : List Message) × (replies b.host.sent ≡ replies a.host.sent ++ ms)
    × (accepts c ms ≡ true)

module _ {J : Type 0} (P : ProviderState Event J) (range : ℕ → List ℕ → List ℕ) where
  on_graph-Answered :
      (c : Command) (f : World (Host J) → Outcome (World (Host J))) (a : GraphActor J)
      → IsSoundGraph a.graph
      → ((g : CompletionGraph)
          → a.graph ≡ some g
          → IsSound (record { graph = g; host = a.host })
          → Ensures
              (Answered P range c (record { graph = g; host = a.host }))
              (f (record { graph = g; host = a.host })))
      → Ensures (AnsweredActor c a) (on_graph P range 2005 f a)
  on_graph-Answered c f a sound next = by_graph a.graph refl sound
    where
      by_graph :
          (o : Option CompletionGraph)
          → a.graph ≡ o
          → IsSoundGraph o
          → Ensures
              (AnsweredActor c a)
              (on_graph P range 2005 f (record { graph = o; host = a.host }))
      by_graph none e k = tt
      by_graph (some g) e k =
          Ensures-bind (Answered P range c (record { graph = g; host = a.host }))
            (AnsweredActor c a) (f (record { graph = g; host = a.host })) _ (next g e k) (λ v x. x)

  valid_on_graph :
      (a : GraphActor J) (g : CompletionGraph) (c : Command)
      → a.graph ≡ some g
      → validate_cmd a.graph c ≡ none
      → (validate_command g c ≡ none) × (validate_cmd (some g) c ≡ none)
  unfolding validate_cmd
  valid_on_graph a g c e h = let v = subst (λ x. validate_cmd x c ≡ none) e h in (by_command c v, v)
    where
      by_command : (d : Command) → validate_cmd (some g) d ≡ none → validate_command g d ≡ none
      by_command (Command.create_graph f) q = absurd (cc)
      by_command _ q = q

  dispatch-Answered :
      (now later : ℕ) (flow_id : String) (c : Command) (a : GraphActor J)
      → IsSoundGraph a.graph
      → validate_cmd a.graph c ≡ none
      → Ensures (AnsweredActor c a) (dispatch_command P range 2005 now later flow_id c a)
  unfolding run_create accepts
  dispatch-Answered now later flow_id (Command.create_graph f) a sound ok =
      Ensures-bind (λ x. Unit) (AnsweredActor (Command.create_graph f) a)
        (persist_receive P (graph_created flow_id f) a.host.mixin) _
        (persist_receive-ends P range (graph_created flow_id f) a.host.mixin)
        (λ x u. (
          (tt, omega arith),
          respond_created flow_id ∷ [],
          replies-append a.host.sent (respond_created flow_id ∷ []),
          refl,
        ))
  dispatch-Answered now later flow_id c a sound ok =
      on_graph-Answered c (run_command P range 2005 now later c) a sound (λ g e s.
        let v = valid_on_graph a g c e ok in
        run_command-Answered P range now later c (record { graph = g; host = a.host }) s v.0 v.1)

  receive_command-Handled :
      (now later : ℕ) (flow_id : String) (c : Command) (a : GraphActor J)
      → IsSoundGraph a.graph
      → Ensures (AnsweredActor c a) (receive_command P range 2005 now later flow_id c a)
  unfolding receive_command accepts
  receive_command-Handled now later flow_id c a sound =
      elim (Option-cases (validate_cmd a.graph c)) [
        | inl e ↦ rw (e, receive_command) (dispatch-Answered now later flow_id c a sound e)
        | inr (x, e) ↦
            rw (e, receive_command)
              (sound, respond_error x ∷ [], replies-append a.host.sent (respond_error x ∷ []), refl)
      ]

  -- Whatever a flow's actor receives, valid or not, if its graph's keys, should it have one, are
  -- below their number and that is at most `max_stages`, on 2005 units of fuel, and unless there was
  -- a panic: it is answered exactly once if it is a request, by a reply of the request's kind or by
  -- an error, and never otherwise, whatever else the command brings about, except that a message of
  -- the program itself that is not valid is answered by an error.
  pub receive_command-Answered :
      (now later : ℕ) (flow_id : String) (c : Command) (a : GraphActor J)
      → IsSoundGraph a.graph
      → Ensures
          (λ b.
            (ms : List Message) × (replies b.host.sent ≡ replies a.host.sent ++ ms)
            × (accepts c ms ≡ true))
          (receive_command P range 2005 now later flow_id c a)
  receive_command-Answered now later flow_id c a sound =
      Ensures-mono (AnsweredActor c a) _ (receive_command P range 2005 now later flow_id c a)
        (receive_command-Handled now later flow_id c a sound) (λ b h. (h.1, h.2, h.3))

  -- Whatever command a flow's actor receives, valid or not, it is handled in full on 2005 units of
  -- fuel, with every event and call that it brings about, and the keys of the graph that the actor
  -- then has, if any, are below its size, which is at most `max_stages`, if they were before; unless
  -- there was a panic.
  pub receive_command-IsSoundGraph :
      (now later : ℕ) (flow_id : String) (c : Command) (a : GraphActor J)
      → IsSoundGraph a.graph
      → Ensures (λ b. IsSoundGraph b.graph) (receive_command P range 2005 now later flow_id c a)
  receive_command-IsSoundGraph now later flow_id c a sound =
      Ensures-mono (AnsweredActor c a) _ (receive_command P range 2005 now later flow_id c a)
        (receive_command-Handled now later flow_id c a sound) (λ b h. h.0)
