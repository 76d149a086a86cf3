-- ===== src/Actor/Commands/Sourcing.antt =====
-- A flow is the fold of its journal, over the commands that its actor receives (receiveCommand of
-- actor/graph.go).
use completer.Prelude.{
  ℕ, ◌≡◌, refl, ap, ◌∙◌, inl, inr, String, List, [], ◌∷◌, ◌++◌, Option, none, some, Outcome, done,
  panicked, ◌>>=◌, for_each, for_each-append, for_each_inv, Ensures, Ensures-mono, Ensures-Whenever,
  Whenever, Whenever-bind, Whenever-eq, Option-cases, graph_not_initialized,
}
use completer.Model.Event.{Event, graph_created}
use completer.Model.Command.{Command}
use completer.Graph.Stage.{CompletionGraph}
use completer.Graph.Engine.{World}
use completer.Graph.Replay.{forget, replay, replay_all}
use completer.Graph.Replay.Forgetting.{forget_flow, replay_all-effects}
use completer.Persistence.Provider.{ProviderState}
use completer.Persistence.Mixin.{persist_receive}
use completer.Actor.State.{Host, GraphActor}
use completer.Actor.Updates.Growth.{persist_all, persist_all-append}
use completer.Actor.Updates.Sourcing.{Follows}
use completer.Actor.Commands.{
  run_command, run_create, receive_command, validate_cmd, on_graph, dispatch_command, actor_of,
}
use completer.Actor.Commands.Invariant.{IsSoundGraph, receive_command-IsSoundGraph}
use completer.Actor.Commands.Following.{run_command-Follows}

module _ {J : Type 0} (P : ProviderState Event J) where
  -- The later actor's journal has some events more, and what they stand for takes the flow that the
  -- earlier actor has to the flow that the later one has.
  pub record Sourced (a b : GraphActor J) : Type 0 where
    pub events : List Event
    pub journaled : persist_all P events a.host.mixin ≡ done b.host.mixin
    pub replayed : replay_all events (forget_flow a.graph) ≡ done (forget_flow b.graph)

  Sourced-refl :
      (a b : GraphActor J) → a.graph ≡ b.graph → a.host.mixin ≡ b.host.mixin → Sourced a b
  unfolding persist_all replay_all for_each
  Sourced-refl a b g m = record {
    events = [];
    journaled = ap done m;
    replayed = ap (λ o. done (forget_flow o)) g;
  }

  Sourced-trans : (a b c : GraphActor J) → Sourced a b → Sourced b c → Sourced a c
  unfolding replay_all
  Sourced-trans a b c p q = record {
    events = p.events ++ q.events;
    journaled =
        persist_all-append P p.events q.events a.host.mixin b.host.mixin c.host.mixin p.journaled
          q.journaled;
    replayed =
        rw (for_each-append replay p.events q.events (forget_flow a.graph), p.replayed) q.replayed;
  }

  module _ (range : ℕ → List ℕ → List ℕ) where
    on_graph-Sourced :
        (fuel : ℕ) (f : World (Host J) → Outcome (World (Host J))) (a : GraphActor J)
        → ((w : World (Host J)) → Whenever (Follows P range w) (f w))
        → Whenever (Sourced a) (on_graph P range fuel f a)
    on_graph-Sourced fuel f a follows = by_graph a.graph refl
      where
        by_graph :
            (o : Option CompletionGraph)
            → a.graph ≡ o
            → Whenever (Sourced a) (elim o [
              | none ↦ panicked graph_not_initialized
              | some g ↦ f (record { graph = g; host = a.host }) >>= actor_of P range fuel
            ])
        by_graph none e = tt
        by_graph (some g) e =
            Whenever-bind (Follows P range (record { graph = g; host = a.host })) (Sourced a)
              (f (record { graph = g; host = a.host })) _
              (follows (record { graph = g; host = a.host }))
              (λ v h. record {
                events = h.events;
                journaled = h.journaled;
                replayed =
                    ap (λ o. replay_all h.events (forget_flow o)) e
                    ∙ replay_all-effects h.events (forget g) (forget v.graph) h.continuing h.folded;
              })

    run_create-Sourced :
        (fuel : ℕ) (flow_id f : String) (a : GraphActor J)
        → Whenever (Sourced a) (run_create P range fuel flow_id f a.host)
    unfolding run_create replay_all replay for_each persist_all forget
    run_create-Sourced fuel flow_id f a =
        Whenever-bind (λ x. persist_receive P (graph_created flow_id f) a.host.mixin ≡ done x)
          (Sourced a) (persist_receive P (graph_created flow_id f) a.host.mixin) _
          (Whenever-eq (persist_receive P (graph_created flow_id f) a.host.mixin))
          (λ x p. record {
            events = graph_created flow_id f ∷ [];
            journaled = rw p refl;
            replayed = refl;
          })

    receive_command-Sourced :
        (fuel now later : ℕ) (flow_id : String) (c : Command) (a : GraphActor J)
        → Whenever (Sourced a) (receive_command P range fuel now later flow_id c a)
    unfolding receive_command
    receive_command-Sourced fuel now later flow_id c a =
        elim (Option-cases (validate_cmd a.graph c)) [
          | inl e ↦ rw (e, receive_command) (dispatched c)
          | inr (x, e) ↦ rw (e, receive_command) (Sourced-refl a _ refl refl)
        ]
      where
        dispatched :
            (d : Command)
            → Whenever (Sourced a) (dispatch_command P range fuel now later flow_id d a)
        dispatched (Command.create_graph f) = run_create-Sourced fuel flow_id f a
        dispatched d =
            on_graph-Sourced fuel (run_command P range fuel now later d) a
              (run_command-Follows P range fuel now later d)

    -- The actor's mailbox: each command with the two readings of the clock.
    unfoldable pub receive_commands :
        (flow_id : String) → List (ℕ × ℕ × Command) → GraphActor J → Outcome (GraphActor J)
    receive_commands flow_id cs a =
        for_each (λ (now, later, c). receive_command P range 2005 now later flow_id c) cs a

    pub receive_commands-Kept :
        (flow_id : String) (cs : List (ℕ × ℕ × Command)) (a : GraphActor J)
        → IsSoundGraph a.graph
        → Ensures (λ b. IsSoundGraph b.graph × Sourced a b) (receive_commands flow_id cs a)
    unfolding receive_commands
    receive_commands-Kept flow_id cs a sound =
        for_each_inv (λ b. IsSoundGraph b.graph × Sourced a b) _
          (λ (now, later, c) b (s, h).
            Ensures-mono (λ d. IsSoundGraph d.graph × Sourced b d) _
              (receive_command P range 2005 now later flow_id c b)
              (Ensures-Whenever (λ d. IsSoundGraph d.graph) (Sourced b)
                (receive_command P range 2005 now later flow_id c b)
                (receive_command-IsSoundGraph P range now later flow_id c b s)
                (receive_command-Sourced 2005 now later flow_id c b))
              (λ d k. (k.0, Sourced-trans a b d h k.1)))
          cs a (sound, Sourced-refl a a refl refl)

    -- Whatever commands a flow's actor receives, valid or not, in any order, on 2005 units of fuel
    -- each: the events that they bring about are journaled in order, and what these stand for, as a
    -- fold that knows no triggers, calls or orders of visits, takes the flow that the actor had to
    -- the flow that it has then, up to the marks of triggered stages; if the keys of the graph that
    -- it had, should it have had one, were below their number and that at most `max_stages`, and
    -- unless there was a panic. So an actor that starts without a graph has the fold of what it
    -- journals.
    pub receive_commands-Sourced :
        (flow_id : String) (cs : List (ℕ × ℕ × Command)) (a : GraphActor J)
        → IsSoundGraph a.graph
        → Ensures (Sourced a) (receive_commands flow_id cs a)
    receive_commands-Sourced flow_id cs a sound =
        Ensures-mono (λ b. IsSoundGraph b.graph × Sourced a b) (Sourced a)
          (receive_commands flow_id cs a) (receive_commands-Kept flow_id cs a sound) (λ b h. h.1)
