-- ===== src/Actor/Commands/Recovering.antt =====
-- The end of a replay (receiveMessage on ReplayComplete of actor/graph.go, Recover of
-- graph/graph.go) is reached, and leaves a sound graph.
use completer.Prelude.{
  ℕ, suc, ◌<◌, ◌≡◌, refl, sym, ap, subst, List, [], ◌∷◌, Option, none, some, arith, Ensures,
  Ensures-bind, Ensures-mono, length, All,
}
use completer.Model.Event.{Event}
use completer.Graph.Stage.{CompletionStage, CompletionGraph}
use completer.Graph.Engine.{World, recover}
use completer.Graph.Progress.Listener.{Moves}
use completer.Graph.Progress.Results.{recover-Moves}
use completer.Graph.Replay.{forget, forget_stage, forget_stages}
use completer.Graph.Replay.Forgetting.{forget_flow}
use completer.Persistence.Provider.{ProviderState}
use completer.Actor.State.{Host, GraphActor}
use completer.Actor.Updates.{update, graph_listener}
use completer.Actor.Updates.Growth.{Grows, Grows-refl, Grows-trans}
use completer.Actor.Updates.Progress.{listener-Calls}
use completer.Actor.Updates.Total.{work-le}
use completer.Actor.Updates.Keys.{StagesAdvance-length, StagesAdvance-IsNumbered}
use completer.Actor.Commands.{replay_complete}
use completer.Actor.Commands.Invariant.{IsSoundGraph}

length-forget_stages : (ss : List CompletionStage) → length (forget_stages ss) ≡ length ss
length-forget_stages [] = refl
length-forget_stages (s ∷ ss) = ap suc (length-forget_stages ss)

below-forget_stages :
    (n : ℕ) (ss : List CompletionStage)
    → (All (λ s. s.id < n) ss → All (λ s. s.id < n) (forget_stages ss))
      × (All (λ s. s.id < n) (forget_stages ss) → All (λ s. s.id < n) ss)
unfolding forget_stage
below-forget_stages n [] = (λ h. tt, λ h. tt)
below-forget_stages n (s ∷ ss) =
    let (there, back) = below-forget_stages n ss in (λ h. (h.0, there h.1), λ h. (h.0, back h.1))

-- What is forgotten has no part in being sound.
forget_flow-IsSoundGraph :
    (o : Option CompletionGraph)
    → (IsSoundGraph o → IsSoundGraph (forget_flow o))
      × (IsSoundGraph (forget_flow o) → IsSoundGraph o)
unfolding forget
forget_flow-IsSoundGraph none = (λ h. h, λ h. h)
forget_flow-IsSoundGraph (some g) =
    let same = length-forget_stages g.stages in
    (
      λ (n, m). rw same ((below-forget_stages (length g.stages) g.stages).0 n, m),
      λ h. let (n, m) = rw same at h in ((below-forget_stages (length g.stages) g.stages).1 n, m),
    )

pub same_flow-IsSoundGraph :
    (o p : Option CompletionGraph) → forget_flow o ≡ forget_flow p → IsSoundGraph p → IsSoundGraph o
same_flow-IsSoundGraph o p e h =
    (forget_flow-IsSoundGraph o).1 (subst IsSoundGraph (sym e) ((forget_flow-IsSoundGraph p).0 h))

module _ {J : Type 0} (P : ProviderState Event J) (range : ℕ → List ℕ → List ℕ) where
  recover-IsSoundGraph :
      (w : World (Host J))
      → IsSoundGraph (some w.graph)
      → Ensures
          (λ v. IsSoundGraph (some v.graph))
          (recover range (graph_listener P range (update P range 2005)) w)
  recover-IsSoundGraph w (numbered, most) =
      Ensures-mono (Moves (Grows P) w) _
        (recover range (graph_listener P range (update P range 2005)) w)
        (recover-Moves (Grows P) (Grows-refl P) (Grows-trans P) range
          (graph_listener P range (update P range 2005)) 2005 (listener-Calls P range 2005) w
          (omega (arith, work-le w.graph, most)))
        (λ v a. (
          StagesAdvance-IsNumbered w.graph.stages v.graph.stages a.graph.stages numbered,
          omega (arith, StagesAdvance-length w.graph.stages v.graph.stages a.graph.stages, most),
        ))

  pub replay_complete-IsSoundGraph :
      (a : GraphActor J)
      → IsSoundGraph a.graph
      → Ensures (λ b. IsSoundGraph b.graph) (replay_complete P range 2005 a)
  unfolding replay_complete
  replay_complete-IsSoundGraph a sound = by_graph a.graph sound
    where
      by_graph :
          (o : Option CompletionGraph)
          → IsSoundGraph o
          → Ensures
              (λ b. IsSoundGraph b.graph)
              (replay_complete P range 2005 (record a { graph = o }))
      by_graph none h = tt
      by_graph (some g) h =
          Ensures-bind (λ v. IsSoundGraph (some v.graph)) (λ b. IsSoundGraph b.graph)
            (recover range (graph_listener P range (update P range 2005))
              (record { graph = g; host = a.host }))
            _ (recover-IsSoundGraph (record { graph = g; host = a.host }) h) (λ v k. k)
