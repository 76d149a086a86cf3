-- ===== src/Actor/Updates/Replaying.antt =====
-- An event that is replayed from the journal, in a flow without composed stages, does to the graph
-- what it stands for and nothing else (UpdateWithEvent of graph/graph.go with mayTrigger false, and
-- the listener of actor/graph.go while the mixin recovers).
use completer.Prelude.{
  ℕ, suc, ◌≡◌, refl, Ensures, inl, inr, List, none, some, Bool, true, false, Outcome, done,
  panicked, out_of_fuel, ◌>>=◌, All, nil_dereference, arith, Bool-cases, Option-cases,
}
use completer.Model.Datum.{CompletionResult, new_successful_result, new_state_datum}
use completer.Model.Event.{
  Event, StageAdded, graph_created, graph_committed, graph_terminating, graph_completed,
  delay_scheduled, stage_added, stage_completed, stage_composed, faas_invocation_started,
  faas_invocation_completed,
}
use completer.Graph.Stage.{
  CompletionStage, CompletionGraph, state_committed, state_terminating, get_stage, modify_stage,
  complete,
}
use completer.Graph.Engine.{
  World, with_graph, update_with_event, check_for_execution_finished, handle_committed,
  handle_terminating, handle_completed, handle_stage_added, handle_stage_completed,
  handle_add_termination_hook, add_stage, is_termination_hook,
}
use completer.Graph.Replay.{forget, effect, modify_existing, record_result}
use completer.Graph.Replay.Forgetting.{
  add_stage-forget, handle_add_termination_hook-forget, forget-modify_stage, forget-complete,
  is_some-get_stage-forget,
}
use completer.Persistence.Provider.{ProviderState}
use completer.Actor.State.{Host}
use completer.Actor.Updates.{update, graph_listener}
use completer.Actor.Updates.Composition.{
  IsUncomposedStage, IsUncomposed, ComposesNothing, All-modify_stage, All-get_stage,
  complete-IsUncomposed, add_stage-IsUncomposed, add_termination_hook-IsUncomposed,
}

-- What an event stands for is what became of the world, panics included.
abbrev pub IsReplayed : {H : Type 0} → Event → World H → Outcome (World H) → Type 0
IsReplayed e w (done v) =
    (effect e (forget w.graph) ≡ done (forget v.graph)) × (v.host ≡ w.host) × IsUncomposed v.graph
IsReplayed e w (panicked p) = effect e (forget w.graph) ≡ panicked p
IsReplayed e w out_of_fuel = ⊥

module _ {J : Type 0} (P : ProviderState Event J) (range : ℕ → List ℕ → List ℕ) where
  check-recovering :
      (u : Event → Bool → World (Host J) → Outcome (World (Host J))) (w : World (Host J))
      → w.host.mixin.recovering ≡ true
      → check_for_execution_finished range (graph_listener P range u) w ≡ done w
  unfolding check_for_execution_finished graph_listener
  check-recovering u w h = ground (arith, h)

  added-IsReplayed :
      (u : Event → Bool → World (Host J) → Outcome (World (Host J))) (e : StageAdded)
      (w : World (Host J))
      → is_termination_hook e.op ≡ false
      → IsUncomposed w.graph
      → IsReplayed (stage_added e) w (handle_stage_added range (graph_listener P range u) e false w)
  unfolding handle_stage_added effect
  added-IsReplayed u e w plain un =
      by_stages (add_stage e w.graph.stages) refl (add_stage-IsUncomposed e w.graph.stages un)
    where
      by_stages :
          (m : Outcome (List CompletionStage))
          → add_stage e w.graph.stages ≡ m
          → Ensures (All IsUncomposedStage) m
          → IsReplayed
              (stage_added e)
              w
              (m >>= λ ss. done (record w { graph = record w.graph { stages = ss } }))
      by_stages (done ss) q k =
          (unfold forget in rw (plain, add_stage-forget e w.graph.stages, q) refl, refl, k)
      by_stages (panicked p) q k =
          unfold forget in rw (plain, add_stage-forget e w.graph.stages, q) refl
      by_stages out_of_fuel q k = k

  hook-IsReplayed :
      (u : Event → Bool → World (Host J) → Outcome (World (Host J))) (e : StageAdded)
      (w : World (Host J))
      → is_termination_hook e.op ≡ true
      → IsUncomposed w.graph
      → IsReplayed (stage_added e) w (
          handle_add_termination_hook e w.graph >>= λ g.
          done (with_graph range (graph_listener P range u) w g))
  unfolding effect
  hook-IsReplayed u e w hook un =
      by_graph (handle_add_termination_hook e w.graph) refl
        (add_termination_hook-IsUncomposed e w.graph un)
    where
      by_graph :
          (m : Outcome CompletionGraph)
          → handle_add_termination_hook e w.graph ≡ m
          → Ensures IsUncomposed m
          → IsReplayed (stage_added e) w (m >>= λ g. done (record w { graph = g }))
      by_graph (done g) q k =
          (rw (hook, handle_add_termination_hook-forget e w.graph, q) refl, refl, k)
      by_graph (panicked p) q k = rw (hook, handle_add_termination_hook-forget e w.graph, q) refl
      by_graph out_of_fuel q k = k

  completed-IsReplayed :
      (u : Event → Bool → World (Host J) → Outcome (World (Host J))) (i : ℕ) (r : CompletionResult)
      (w : World (Host J))
      → w.host.mixin.recovering ≡ true
      → IsUncomposed w.graph
      → IsReplayed
          (stage_completed i r)
          w
          (handle_stage_completed range (graph_listener P range u) i r false w)
  unfolding handle_stage_completed effect modify_existing
  completed-IsReplayed u i r w rec un = elim (Option-cases (get_stage w.graph.stages i)) [
    | inl e ↦ rw (e, handle_stage_completed) (absent e)
    | inr (node, e) ↦
        let alone : node.compose_reference ≡ none =
          All-get_stage IsUncomposedStage w.graph.stages i node un e in
        let v : World (Host J) =
          with_graph range (graph_listener P range u) w
            (record w.graph { stages = modify_stage (complete r) i w.graph.stages }) in
        rw (e, handle_stage_completed, alone, check-recovering u v rec)
          (
            present node e,
            refl,
            All-modify_stage IsUncomposedStage (complete r) i w.graph.stages
                (complete-IsUncomposed r) un,
          )
  ]
    where
      absent :
          get_stage w.graph.stages i ≡ none
          → effect (stage_completed i r) (forget w.graph) ≡ panicked nil_dereference
      absent e = unfold forget in rw (is_some-get_stage-forget w.graph.stages i, e) refl

      present :
          (node : CompletionStage)
          → get_stage w.graph.stages i ≡ some node
          → effect (stage_completed i r) (forget w.graph)
            ≡ done (forget (record w.graph { stages = modify_stage (complete r) i w.graph.stages }))
      present node e =
          unfold forget in
          rw
            (
              is_some-get_stage-forget w.graph.stages i,
              e,
              forget-modify_stage (complete r) (record_result r) i w.graph.stages
                  (forget-complete r),
            )
            refl

  pub update-IsReplayed :
      (fuel : ℕ) (e : Event) (w : World (Host J))
      → ComposesNothing e
      → w.host.mixin.recovering ≡ true
      → IsUncomposed w.graph
      → IsReplayed e w (update P range (suc fuel) e false w)
  unfolding update update_with_event handle_committed handle_terminating handle_completed effect
  update-IsReplayed fuel graph_committed w plain rec un =
      let v : World (Host J) = record w { graph = record w.graph { state = state_committed } } in
      rw (check-recovering (update P range fuel) v rec) (unfold forget in refl, refl, un)
  update-IsReplayed fuel (graph_terminating status) w plain rec un =
      let v : World (Host J) = record w {
        graph = record w.graph {
          state = state_terminating;
          termination_root_result = some (new_successful_result (new_state_datum status));
        };
      } in
      rw (check-recovering (update P range fuel) v rec) (unfold forget in refl, refl, un)
  update-IsReplayed fuel graph_completed w plain rec un = (unfold forget in refl, refl, un)
  update-IsReplayed fuel (stage_added e) w plain rec un =
      elim (Bool-cases (is_termination_hook e.op)) [
        | inl h ↦ rw (h, update_with_event) (hook-IsReplayed (update P range fuel) e w h un)
        | inr h ↦ rw (h, update_with_event) (added-IsReplayed (update P range fuel) e w h un)
      ]
  update-IsReplayed fuel (stage_completed i r) w plain rec un =
      completed-IsReplayed (update P range fuel) i r w rec un
  update-IsReplayed fuel (stage_composed i j) w plain rec un = absurd plain
  update-IsReplayed fuel (faas_invocation_completed i r c) w plain rec un = (refl, refl, un)
  update-IsReplayed fuel (faas_invocation_started i f) w plain rec un = (refl, refl, un)
  update-IsReplayed fuel (graph_created f g) w plain rec un = (refl, refl, un)
  update-IsReplayed fuel (delay_scheduled i t) w plain rec un = (refl, refl, un)
