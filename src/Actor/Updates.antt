-- ===== src/Actor/Updates.antt =====
-- persistAndUpdateGraph and the listener's calls (actor/graph.go). A call of the listener journals
-- an event and applies it to the graph, which may call the listener again: the depth of these calls
-- is the fuel.
pub mod Growth
pub mod Progress
pub mod Total
pub mod Live
pub mod Settling
pub mod Keys
pub mod Sourcing
pub mod Composition
pub mod Replaying
use completer.Prelude.{
  ℕ, zero, suc, List, [], Bool, true, not, if◌then◌else◌, Outcome, done, out_of_fuel, ◌>>=◌,
}
use completer.Model.Datum.{CompletionResult, succeeded}
use completer.Model.Event.{
  Event, graph_terminating, graph_completed, stage_completed, stage_composed,
  faas_invocation_started,
}
use completer.Graph.Stage.{CompletionStage, CompletionGraph}
use completer.Graph.Engine.{World, Listener, update_with_event}
use completer.Persistence.Provider.{ProviderState}
use completer.Persistence.Mixin.{persist_receive}
use completer.Actor.State.{Host, send, invoke_stage, deactivate_self}

module _ {J : Type 0} (P : ProviderState Event J) (range : ℕ → List ℕ → List ℕ) where
  -- PersistReceive of the actor's mixin.
  unfoldable pub persist : Event → World (Host J) → Outcome (World (Host J))
  persist e w = persist_receive P e w.host.mixin >>= λ x.
      done (record w { host = record w.host { mixin = x } })

  -- persistAndUpdateGraph of an initialised graph: `update` is UpdateWithEvent.
  unfoldable pub persist_and_update :
      (Event → Bool → World (Host J) → Outcome (World (Host J)))
      → Event
      → World (Host J)
      → Outcome (World (Host J))
  unfolding persist
  persist_and_update update e w = persist e w >>= λ v. update e (not v.host.mixin.recovering) v

  -- OnExecuteStage: the invocation is journaled, and the executor is asked to run the closure.
  unfoldable pub on_execute_stage :
      CompletionStage → List CompletionResult → World (Host J) → Outcome (World (Host J))
  unfolding persist
  on_execute_stage s results w =
      persist (faas_invocation_started s.id w.graph.function_id) w >>= λ v.
      done
        (record v { host = send (invoke_stage v.graph.function_id s.id results s.closure) v.host })

  unfoldable pub graph_listener :
      (Event → Bool → World (Host J) → Outcome (World (Host J))) → Listener (Host J)
  unfolding persist_and_update on_execute_stage
  graph_listener update = record {
    on_execute_stage = on_execute_stage;
    on_complete_stage = λ s r w. persist_and_update update (stage_completed s.id r) w;
    on_compose_stage = λ s ref w. persist_and_update update (stage_composed s.id ref.id) w;
    on_graph_execution_finished = λ w.
        if w.host.mixin.recovering
        then done w
        else persist_and_update update (graph_terminating succeeded) w;
    on_graph_complete = λ w.
        if w.host.mixin.recovering
        then done w
        else (persist_and_update update graph_completed w >>= λ v.
            done (record v { host = send deactivate_self v.host }));
  }

  -- UpdateWithEvent of the actor's graph.
  unfoldable pub update : ℕ → Event → Bool → World (Host J) → Outcome (World (Host J))
  update zero e may_trigger w = out_of_fuel
  update (suc fuel) e may_trigger w =
      update_with_event range (graph_listener (update fuel)) e may_trigger w
