-- ===== src/Graph/Replay/Following.antt =====
-- The world after UpdateWithEvent follows from the graph with the event's effect, if the listener's
-- calls each follow from the world they are made in (graph/graph.go).
use completer.Prelude.{
  ℕ, suc, ◌≡◌, refl, ap, inl, inr, List, none, some, Bool, true, false, if◌then◌else◌, Bool-cases,
  Option-cases, Outcome, done, ◌>>=◌, map, Whenever, Whenever-bind, Whenever-any, Whenever-mono,
  for_each-Whenever,
}
use completer.Model.Datum.{CompletionResult}
use completer.Graph.Stage.{
  CompletionStage, CompletionGraph, get_stage, modify_stage, mark_triggered, stage_ids, is_resolved,
}
use completer.Graph.Strategy.{
  Trigger, Action, execute_stage, complete_stage, no_action, run_trigger, run_execution,
}
use completer.Graph.Engine.{
  World, Listener, with_graph, request_trigger, range_stages, trigger, trigger_ready_stage,
  trigger_ready_stages, trigger_if, dependency_result,
}
use completer.Graph.Replay.{forget}
use completer.Graph.Replay.Forgetting.{forget-mark_triggered}

-- A relation of worlds that does not see what is forgotten.
pub record IsBlind {H : Type 0} (F : World H → World H → Type 0) : Type 0 where
  pub stays :
      (w : World H) (g : CompletionGraph) → forget g ≡ forget w.graph → F w (record w { graph = g })
  pub trans : (w v u : World H) → F w v → F v u → F w u

-- Each call of the listener keeps to the relation if it returns.
pub record Obeys {H : Type 0} (F : World H → World H → Type 0) (L : Listener H) : Type 0 where
  pub execute :
      (s : CompletionStage) (rs : List CompletionResult) (w : World H)
      → Whenever (F w) (L.on_execute_stage s rs w)
  pub complete :
      (s : CompletionStage) (r : CompletionResult) (w : World H)
      → Whenever (F w) (L.on_complete_stage s r w)
  pub compose : (s t : CompletionStage) (w : World H) → Whenever (F w) (L.on_compose_stage s t w)
  pub finish : (w : World H) → Whenever (F w) (L.on_graph_execution_finished w)
  pub close : (w : World H) → Whenever (F w) (L.on_graph_complete w)

request_trigger-forget :
    (g : CompletionGraph) (s : CompletionStage)
    → Whenever (λ tg. forget tg.1 ≡ forget g) (request_trigger g s)
unfolding request_trigger
request_trigger-forget g s = elim (Bool-cases s.triggered) [
  | inl e ↦ rw (e, request_trigger) refl
  | inr e ↦
      rw (e, request_trigger)
        (Whenever-bind (λ t. Unit) _
          (run_trigger s.strategy.trigger_strategy (map (dependency_result g) s.dependencies)) _
          (Whenever-any (λ t. Unit)
            (run_trigger s.strategy.trigger_strategy (map (dependency_result g) s.dependencies))
            (λ t. tt))
          (λ t u. marks t))
]
  where
    marks :
        (t : Trigger)
        → forget (
            if t.should_trigger
            then record g { stages = modify_stage mark_triggered s.id g.stages }
            else g)
          ≡ forget g
    marks t = elim (Bool-cases t.should_trigger) [
      | inl e ↦ rw e (
          unfold forget in
          (ap (λ ss. record g { stages = ss; ranges = 0 }) (forget-mark_triggered s.id g.stages)))
      | inr e ↦ rw e refl
    ]

module _ {H : Type 0} (F : World H → World H → Type 0) (blind : IsBlind F) where
  pub Follows-refl : (w : World H) → F w w
  Follows-refl w = blind.stays w w.graph refl

  pub then_follows :
      (w v : World H) (m : Outcome (World H)) → F w v → Whenever (F v) m → Whenever (F w) m
  then_follows w v m a h = Whenever-mono (F v) (F w) m h (λ u b. blind.trans w v u a b)

  pub follow_on :
      (w : World H) (m : Outcome (World H)) (f : World H → Outcome (World H))
      → Whenever (F w) m
      → ((v : World H) → Whenever (F v) (f v))
      → Whenever (F w) (m >>= f)
  follow_on w m f h k = Whenever-bind (F w) (F w) m f h (λ v a. then_follows w v (f v) a (k v))

module _ {H : Type 0} (F : World H → World H → Type 0) (blind : IsBlind F)
    (range : ℕ → List ℕ → List ℕ) (L : Listener H) (obeys : Obeys F L) where
  trigger-Follows :
      (s : CompletionStage) (status : Bool) (input : List CompletionResult) (w : World H)
      → Whenever (F w) (trigger range L s status input w)
  unfolding trigger
  trigger-Follows s status input w =
      let m =
        run_execution (if status then s.strategy.success_strategy else s.strategy.failure_strategy)
          input in
      Whenever-bind (λ a. Unit) (F w) m _ (Whenever-any (λ a. Unit) m (λ a. tt)) (λ a u. act a)
    where
      act :
          (a : Action)
          → Whenever (F w) (elim a [
            | execute_stage args ↦ L.on_execute_stage s args w
            | complete_stage r ↦ L.on_complete_stage s r w
            | no_action ↦ done w
          ])
      act (execute_stage args) = obeys.execute s args w
      act (complete_stage r) = obeys.complete s r w
      act no_action = Follows-refl F blind w

  trigger_ready_stage-Follows :
      (s : CompletionStage) (w : World H) → Whenever (F w) (trigger_ready_stage range L s w)
  unfolding trigger_ready_stage
  trigger_ready_stage-Follows s w = elim (Bool-cases (is_resolved s.result)) [
    | inl e ↦ rw (e, trigger_ready_stage) (Follows-refl F blind w)
    | inr e ↦
        rw (e, trigger_ready_stage)
          (Whenever-bind (λ tg. forget tg.1 ≡ forget w.graph) (F w) (request_trigger w.graph s) _
            (request_trigger-forget w.graph s) next)
  ]
    where
      next :
          (tg : Trigger × CompletionGraph)
          → forget tg.1 ≡ forget w.graph
          → Whenever (F w) (
              let v = with_graph range L w tg.1 in
              if tg.0.should_trigger then trigger range L s tg.0.status tg.0.inputs v else done v)
      next (t, g) same = elim (Bool-cases t.should_trigger) [
        | inl e ↦ rw e (
            then_follows F blind w (with_graph range L w g) _ (blind.stays w g same)
              (trigger-Follows s t.status t.inputs _))
        | inr e ↦ rw e (blind.stays w g same)
      ]

  trigger_ready_stages-Follows : (w : World H) → Whenever (F w) (trigger_ready_stages range L w)
  unfolding trigger_ready_stages range_stages
  trigger_ready_stages-Follows w =
      let v = with_graph range L w (record w.graph { ranges = suc w.graph.ranges }) in
      for_each-Whenever (F w) _ (λ i u a. then_follows F blind w u _ a (visit i u))
        (range w.graph.ranges (stage_ids w.graph.stages)) v
        (blind.stays w v.graph (unfold forget in refl))
    where
      visit :
          (i : ℕ) (u : World H)
          → Whenever (F u) (elim (get_stage u.graph.stages i) [
            | none ↦ done u
            | some s ↦ trigger_ready_stage range L s u
          ])
      visit i u = elim (Option-cases (get_stage u.graph.stages i)) [
        | inl e ↦ rw e (Follows-refl F blind u)
        | inr (s, e) ↦ rw e (trigger_ready_stage-Follows s u)
      ]

  pub trigger_if-Follows : (b : Bool) (w : World H) → Whenever (F w) (trigger_if range L b w)
  trigger_if-Follows true w = trigger_ready_stages-Follows w
  trigger_if-Follows false w = Follows-refl F blind w
