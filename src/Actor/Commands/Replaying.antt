-- ===== src/Actor/Commands/Replaying.antt =====
-- A flow's actor that is started again replays its journal (receiveEvent of actor/graph.go, `init` of
-- persistence/plugin.go).
use completer.Prelude.{
  ℕ, suc, ◌+◌, ◌≡◌, refl, ap, ◌∙◌, List, [], ◌∷◌, Option, none, some, true, false, length, arith,
  Outcome, done, panicked, out_of_fuel, ◌>>=◌, for_each, All, graph_not_initialized,
}
use completer.Model.Event.{
  Event, graph_created, graph_committed, graph_terminating, graph_completed, delay_scheduled,
  stage_added, stage_completed, stage_composed, faas_invocation_started, faas_invocation_completed,
}
use completer.Graph.Stage.{CompletionGraph}
use completer.Graph.Engine.{World}
use completer.Graph.Replay.{forget, replay, replay_all, Continues}
use completer.Graph.Replay.Forgetting.{forget_flow, replay-effect}
use completer.Persistence.Provider.{ProviderState, enumerate}
use completer.Persistence.Mixin.{Mixin, replay_event}
use completer.Actor.State.{Host, GraphActor}
use completer.Actor.Updates.{update}
use completer.Actor.Updates.Composition.{IsUncomposed, ComposesNothing}
use completer.Actor.Updates.Replaying.{IsReplayed, update-IsReplayed}
use completer.Actor.Commands.{
  receive_event, on_graph, actor_of, actor_mixin, set_actor_mixin, schedule_delay,
}

abbrev pub IsUncomposedFlow : Option CompletionGraph → Type 0
IsUncomposedFlow none = Unit
IsUncomposedFlow (some g) = IsUncomposed g

-- What an event stands for is what became of the actor's flow, panics included.
abbrev IsReplayedFlow : {J : Type 0} → Event → GraphActor J → Outcome (GraphActor J) → Type 0
IsReplayedFlow e a (done b) =
    (replay e (forget_flow a.graph) ≡ done (forget_flow b.graph))
    × (b.host.mixin ≡ a.host.mixin)
    × IsUncomposedFlow b.graph
IsReplayedFlow e a (panicked p) = replay e (forget_flow a.graph) ≡ panicked p
IsReplayedFlow e a out_of_fuel = ⊥

module _ {J : Type 0} (P : ProviderState Event J) (range : ℕ → List ℕ → List ℕ) (fuel : ℕ) where
  on_graph-IsReplayedFlow :
      (e : Event) (a : GraphActor J)
      → Continues e
      → ComposesNothing e
      → replay e none ≡ panicked graph_not_initialized
      → a.host.mixin.recovering ≡ true
      → IsUncomposedFlow a.graph
      → IsReplayedFlow e a (on_graph P range (suc fuel) (update P range (suc fuel) e false) a)
  on_graph-IsReplayedFlow e a c plain absent rec un = by_graph a.graph un
    where
      by_world :
          (g : CompletionGraph) (m : Outcome (World (Host J)))
          → IsReplayed e (record { graph = g; host = a.host }) m
          → IsReplayedFlow e (record a { graph = some g }) (m >>= actor_of P range (suc fuel))
      by_world g (done v) h =
          (rw (replay-effect e (forget g) c, h.0) refl, ap (λ x. x.mixin) h.1, h.2)
      by_world g (panicked p) h = rw (replay-effect e (forget g) c, h) refl
      by_world g out_of_fuel h = h

      by_graph :
          (o : Option CompletionGraph)
          → IsUncomposedFlow o
          → IsReplayedFlow e
              (record a { graph = o })
              (on_graph P range
                (suc fuel)
                (update P range (suc fuel) e false)
                (record a { graph = o }))
      by_graph none k = absent
      by_graph (some g) k =
          by_world g (update P range (suc fuel) e false (record { graph = g; host = a.host }))
            (update-IsReplayed P range fuel e (record { graph = g; host = a.host }) plain rec k)

  receive_event-IsReplayedFlow :
      (now : ℕ) (e : Event) (a : GraphActor J)
      → ComposesNothing e
      → a.host.mixin.recovering ≡ true
      → IsUncomposedFlow a.graph
      → IsReplayedFlow e a (receive_event P range (suc fuel) now e a)
  unfolding receive_event replay forget schedule_delay
  receive_event-IsReplayedFlow now (graph_created f g) a plain rec un = (refl, refl, tt)
  receive_event-IsReplayedFlow now (delay_scheduled i t) a plain rec un = (refl, refl, un)
  receive_event-IsReplayedFlow now graph_committed a plain rec un =
      on_graph-IsReplayedFlow graph_committed a tt tt refl rec un
  receive_event-IsReplayedFlow now (graph_terminating status) a plain rec un =
      on_graph-IsReplayedFlow (graph_terminating status) a tt tt refl rec un
  receive_event-IsReplayedFlow now graph_completed a plain rec un =
      on_graph-IsReplayedFlow graph_completed a tt tt refl rec un
  receive_event-IsReplayedFlow now (stage_added e) a plain rec un =
      on_graph-IsReplayedFlow (stage_added e) a tt tt refl rec un
  receive_event-IsReplayedFlow now (stage_completed i r) a plain rec un =
      on_graph-IsReplayedFlow (stage_completed i r) a tt tt refl rec un
  receive_event-IsReplayedFlow now (stage_composed i j) a plain rec un = absurd plain
  receive_event-IsReplayedFlow now (faas_invocation_started i f) a plain rec un =
      on_graph-IsReplayedFlow (faas_invocation_started i f) a tt tt refl rec un
  receive_event-IsReplayedFlow now (faas_invocation_completed i r c) a plain rec un =
      on_graph-IsReplayedFlow (faas_invocation_completed i r c) a tt tt refl rec un

  abbrev pub replay_journal : (now : ℕ) → List (ℕ × Event) → GraphActor J → Outcome (GraphActor J)
  replay_journal now ies a =
      for_each
        (replay_event P (actor_mixin P range (suc fuel)) (set_actor_mixin P range (suc fuel))
          (receive_event P range (suc fuel) now))
        ies a

  -- The mixin behind the `i`th event.
  abbrev pub behind : ℕ → Mixin J → Mixin J
  behind i x = record x { event_index = i }

  abbrev pub AreReplayed : ℕ → List Event → GraphActor J → Outcome (GraphActor J) → Type 0
  AreReplayed i es a (done b) =
      (replay_all es (forget_flow a.graph) ≡ done (forget_flow b.graph))
      × (b.host.mixin ≡ behind (i + length es) a.host.mixin)
  AreReplayed i es a (panicked p) = replay_all es (forget_flow a.graph) ≡ panicked p
  AreReplayed i es a out_of_fuel = ⊥

  pub replay_journal-AreReplayed :
      (now i : ℕ) (es : List Event) (a : GraphActor J)
      → All ComposesNothing es
      → a.host.mixin.recovering ≡ true
      → a.host.mixin.event_index ≡ i
      → IsUncomposedFlow a.graph
      → AreReplayed i es a (replay_journal now (enumerate i es) a)
  unfolding for_each enumerate replay_all replay_event
  replay_journal-AreReplayed now i [] a plain rec at_i un =
      (refl, ap (λ n. behind n a.host.mixin) (omega (arith, at_i)))
  replay_journal-AreReplayed now i (e ∷ es) a plain rec at_i un =
      first (receive_event P range (suc fuel) now e a)
        (receive_event-IsReplayedFlow now e a plain.0 rec un)
        (λ b r u.
          replay_journal-AreReplayed now (suc i) es
            (set_actor_mixin P range (suc fuel) (behind (suc i) b.host.mixin) b) plain.1 r refl u)
    where
      second :
          (b : GraphActor J) (m : Outcome (GraphActor J))
          → replay e (forget_flow a.graph) ≡ done (forget_flow b.graph)
          → b.host.mixin ≡ a.host.mixin
          → AreReplayed
              (suc i)
              es
              (set_actor_mixin P range (suc fuel) (behind (suc i) b.host.mixin) b)
              m
          → AreReplayed i (e ∷ es) a m
      second b (done c) r x (q, y) = (
        rw r q,
        y ∙ ap (behind (suc i + length es)) x ∙ ap (λ n. behind n a.host.mixin) (omega arith),
      )
      second b (panicked p) r x q = rw r q
      second b out_of_fuel r x q = q

      first :
          (m : Outcome (GraphActor J))
          → IsReplayedFlow e a m
          → ((b : GraphActor J)
              → b.host.mixin.recovering ≡ true
              → IsUncomposedFlow b.graph
              → AreReplayed
                  (suc i)
                  es
                  (set_actor_mixin P range (suc fuel) (behind (suc i) b.host.mixin) b)
                  (replay_journal now
                    (enumerate (suc i) es)
                    (set_actor_mixin P range (suc fuel) (behind (suc i) b.host.mixin) b)))
          → AreReplayed i (e ∷ es) a (
              m
              >>= (λ b. done (set_actor_mixin P range (suc fuel) (behind (suc i) b.host.mixin) b))
              >>= replay_journal now (enumerate (suc i) es))
      first (done b) (r, x, u) rest =
          second b
            (replay_journal now (enumerate (suc i) es)
              (set_actor_mixin P range (suc fuel) (behind (suc i) b.host.mixin) b))
            r x (rest b (ap (λ y. y.recovering) x ∙ rec) u)
      first (panicked p) r rest = rw r refl
      first out_of_fuel r rest = r
