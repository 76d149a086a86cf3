-- ===== src/Actor/Updates/Total.antt =====
-- UpdateWithEvent of the actor's graph (graph/graph.go, actor/graph.go): every event, with enough
-- fuel, is applied in full.
use completer.Prelude.{
  ℕ, zero, suc, ◌+◌, ◌*◌, ◌≤◌, ◌<◌, ◌≡◌, refl, List, [], ◌∷◌, inr, Bool, true, false, arith, done,
  Ensures, length,
}
use completer.Model.Event.{
  Event, StageAdded, graph_created, graph_committed, graph_terminating, graph_completed,
  delay_scheduled, stage_added, stage_completed, stage_composed, faas_invocation_started,
  faas_invocation_completed,
}
use completer.Graph.Stage.{CompletionStage, CompletionGraph, State, state_initial, state_committed}
use completer.Graph.Engine.{
  World, update_with_event, handle_committed, with_graph, handle_stage_added, add_stage,
  is_termination_hook,
}
use completer.Graph.Progress.{work, rank, stages_work, StagesAdvance-refl}
use completer.Graph.Progress.Listener.{Moves, Moves-refl, then_call}
use completer.Graph.Progress.Loops.{check_for_execution_finished-Moves, trigger_if-Moves}
use completer.Graph.Progress.Handlers.{handle_stage_completed-Moves, handle_terminating-Moves}
use completer.Graph.Progress.Results.{handle_stage_composed-Moves, handle_invoke_complete-Moves}
use completer.Persistence.Provider.{ProviderState}
use completer.Actor.State.{Host}
use completer.Actor.Updates.{update, graph_listener}
use completer.Actor.Updates.Growth.{Grows, Grows-refl, Grows-trans}
use completer.Actor.Updates.Progress.{listener-Calls, completes-Moves}

-- What is left to happen in a graph is at most two steps a stage and three of the lifecycle.
stages_work-le : (ss : List CompletionStage) → stages_work ss ≤ 2 * length ss
stages_work-le [] = omega arith
stages_work-le (s ∷ ss) = ground (arith, stages_work-le ss)

pub work-le : (g : CompletionGraph) → work g ≤ 2 * length g.stages + 3
work-le g = ground (arith, stages_work-le g.stages)

-- The lifecycle events that the actor applies only in one state. (The event that adds a stage is
-- not among those that keep the stages the same.)
abbrev pub IsDue : Event → State → Type 0
IsDue graph_committed s = s ≡ state_initial
IsDue (graph_terminating status) s = s ≡ state_committed
IsDue (stage_added e) s = ⊥
IsDue _ s = Unit

module _ {J : Type 0} (P : ProviderState Event J) (range : ℕ → List ℕ → List ℕ) where
  handle_committed-Moves :
      (fuel : ℕ) (w : World (Host J))
      → work w.graph ≤ fuel
      → w.graph.state ≡ state_initial
      → Ensures
          (Moves (Grows P) w)
          (handle_committed range (graph_listener P range (update P range fuel)) w)
  unfolding handle_committed
  handle_committed-Moves fuel w h e =
      let L = graph_listener P range (update P range fuel) in
      let v = with_graph range L w (record w.graph { state = state_committed }) in
      let less : rank state_committed ≤ rank w.graph.state = ground (arith, e) in
      then_call (Grows P) (Grows-refl P) (Grows-trans P) w v _
        (record {
          graph = record {
            stages = StagesAdvance-refl w.graph.stages;
            state = less;
            same_function = refl;
          };
          host = Grows-refl P w.host;
        })
        (check_for_execution_finished-Moves (Grows P) (Grows-refl P) (Grows-trans P) range L fuel
          (listener-Calls P range fuel) v (omega (arith, less, h)))

  -- An event that is due, with two calls more than the work that is left, is applied in full, with
  -- every event and call that it brings about: the model does not run out of fuel; stages are not
  -- added, dropped or renamed, results are written once, triggered stages stay triggered, the
  -- lifecycle goes forward only, and the host grows by events journaled in order and messages sent,
  -- none of which answers a request.
  -- Only a panic can stop it.
  pub update-Moves :
      (fuel : ℕ) (e : Event) (may_trigger : Bool) (w : World (Host J))
      → 2 * length w.graph.stages + 5 ≤ fuel
      → IsDue e w.graph.state
      → Ensures (Moves (Grows P) w) (update P range fuel e may_trigger w)
  unfolding update update_with_event
  update-Moves zero e b w h due = absurd (omega arith)
  update-Moves (suc fuel) graph_committed b w h due =
      handle_committed-Moves fuel w (omega (arith, work-le w.graph, h)) due
  update-Moves (suc fuel) (graph_terminating status) b w h due =
      handle_terminating-Moves (Grows P) (Grows-refl P) (Grows-trans P) range
        (graph_listener P range (update P range fuel)) fuel (listener-Calls P range fuel) status b w
        (omega (arith, work-le w.graph, h)) due
  update-Moves (suc fuel) graph_completed b w h due = completes-Moves P range _ w
  update-Moves (suc fuel) (stage_added e) b w h due = elim due [ ]
  update-Moves (suc fuel) (stage_completed i r) b w h due =
      let less : work w.graph < suc fuel = omega (arith, work-le w.graph, h) in
      handle_stage_completed-Moves (Grows P) (Grows-refl P) (Grows-trans P) range
        (graph_listener P range (update P range fuel)) fuel (listener-Calls P range fuel) i r b w
        (record { enough = omega arith; room = inr less })
  update-Moves (suc fuel) (stage_composed i j) b w h due =
      handle_stage_composed-Moves (Grows P) (Grows-refl P) (Grows-trans P) range
        (graph_listener P range (update P range fuel)) fuel (listener-Calls P range fuel) i j w
        (omega (arith, work-le w.graph, h))
  update-Moves (suc fuel) (faas_invocation_completed i r c) true w h due =
      handle_invoke_complete-Moves (Grows P) (Grows-refl P) (Grows-trans P) range
        (graph_listener P range (update P range fuel)) fuel (listener-Calls P range fuel) i r w
        (omega (arith, work-le w.graph, h))
  update-Moves (suc fuel) (faas_invocation_completed i r c) false w h due =
      Moves-refl (Grows P) (Grows-refl P) (Grows-trans P) w
  update-Moves (suc fuel) (graph_created f g) b w h due =
      Moves-refl (Grows P) (Grows-refl P) (Grows-trans P) w
  update-Moves (suc fuel) (delay_scheduled i t) b w h due =
      Moves-refl (Grows P) (Grows-refl P) (Grows-trans P) w
  update-Moves (suc fuel) (faas_invocation_started i f) b w h due =
      Moves-refl (Grows P) (Grows-refl P) (Grows-trans P) w

  -- A stage that is not a termination hook and that the checks accept is added to the graph, and
  -- then everything that its addition triggers is done in full, with two calls more than the work
  -- that is left in the new graph.
  pub update-stage_added :
      (fuel : ℕ) (e : StageAdded) (may_trigger : Bool) (w : World (Host J))
      (ss : List CompletionStage)
      → is_termination_hook e.op ≡ false
      → add_stage e w.graph.stages ≡ done ss
      → 2 * length ss + 5 ≤ fuel
      → Ensures
          (Moves (Grows P) (record w { graph = record w.graph { stages = ss } }))
          (update P range fuel (stage_added e) may_trigger w)
  unfolding update update_with_event handle_stage_added
  update-stage_added zero e b w ss plain ok h = absurd (omega arith)
  update-stage_added (suc fuel) e b w ss plain ok h =
      let g : CompletionGraph = record w.graph { stages = ss } in
      simp (plain, ok)
        (trigger_if-Moves (Grows P) (Grows-refl P) (Grows-trans P) range
          (graph_listener P range (update P range fuel)) fuel (listener-Calls P range fuel) b
          (record w { graph = g }) (omega (arith, work-le g, h)))
