-- ===== src/Graph/Examples.antt =====
-- A small flow, and the theorems on graphs (graph/) applied to it.
use completer.Prelude.{ℕ, ◌≡◌, refl, List, [], ◌∷◌, none, some, true, false, done, if◌then◌else◌}
use completer.Model.Datum.{CompletionResult, empty}
use completer.Model.Event.{supply, then_apply}
use completer.Model.Command.{AddStage, Command}
use completer.Graph.Stage.{
  CompletionStage, CompletionGraph, Strategy, on_stage, main_exec_phase, wait_for_all, trigger_any,
  invoke_without_args, invoke_with_result, propagate_result, invocation_result, state_committed,
}
use completer.Graph.Strategy.{
  Action, run_trigger, run_execution, get_strategy_from_operation, trigger_any_trigger,
  wait_for_all_trigger, Trigger,
}
use completer.Graph.Strategy.Table.{run_execution-run_trigger}
use completer.Graph.Strategy.WaitForAll.{WaitForAll, wait_for_all_trigger_lem}
use completer.Graph.Strategy.TriggerAny.{TriggerAny, trigger_any_trigger_lem}
use completer.Graph.Engine.{World, Listener}

abbrev success : CompletionResult
success = record { successful = true; datum = empty }

abbrev failure : CompletionResult
failure = record { successful = false; datum = empty }

abbrev pub supply_strategy : Strategy
supply_strategy = record {
  can_add_children = true;
  takes_closure = true;
  max_dependencies = some 0;
  min_dependencies = 0;
  trigger_strategy = wait_for_all;
  success_strategy = invoke_without_args;
  failure_strategy = propagate_result;
  result_handling_strategy = invocation_result;
}

abbrev pub then_apply_strategy : Strategy
then_apply_strategy = record {
  can_add_children = true;
  takes_closure = true;
  max_dependencies = some 1;
  min_dependencies = 1;
  trigger_strategy = trigger_any;
  success_strategy = invoke_with_result;
  failure_strategy = propagate_result;
  result_handling_strategy = invocation_result;
}

-- A stage that supplies a value, already running, and one that is applied to it.
abbrev pub supplying : CompletionStage
supplying = record {
  id = 0;
  result = none;
  operation = supply;
  strategy = supply_strategy;
  closure = some (record { blob_id = "b0"; content_type = "text/plain"; length = 4 });
  dependencies = [];
  children = 1 ∷ [];
  when_complete = [];
  compose_reference = none;
  triggered = true;
  exec_phase = main_exec_phase;
}

abbrev pub applying : CompletionStage
applying = record {
  id = 1;
  result = none;
  operation = then_apply;
  strategy = then_apply_strategy;
  closure = some (record { blob_id = "b1"; content_type = "text/plain"; length = 4 });
  dependencies = on_stage 0 ∷ [];
  children = [];
  when_complete = [];
  compose_reference = none;
  triggered = false;
  exec_phase = main_exec_phase;
}

abbrev pub flow : CompletionGraph
flow = record {
  id = "flow";
  function_id = "app/function";
  stages = supplying ∷ applying ∷ [];
  state = state_committed;
  termination_root_result = none;
  termination_chain_head = none;
  ranges = 0;
}

-- A request to apply a closure to the second stage.
abbrev request : AddStage
request = record {
  operation = then_apply;
  closure = some (record { blob_id = "b2"; content_type = "text/plain"; length = 4 });
  deps = 1 ∷ [];
}

-- A listener that does nothing, and ranges in the order of insertion.
abbrev quiet : Listener Unit
quiet = record {
  on_execute_stage = λ s rs w. done w;
  on_complete_stage = λ s r w. done w;
  on_compose_stage = λ s r w. done w;
  on_graph_execution_finished = λ w. done w;
  on_graph_complete = λ w. done w;
}

abbrev in_order : ℕ → List ℕ → List ℕ
in_order n keys = keys

abbrev alone : World Unit
alone = record { graph = flow; host = tt }

abbrev applied : Trigger
applied = record { should_trigger = true; status = true; inputs = success ∷ [] }

applied_triggers : run_trigger trigger_any (some success ∷ []) ≡ done applied
unfolding run_trigger
applied_triggers = refl

then_apply_known : get_strategy_from_operation then_apply ≡ some then_apply_strategy
unfolding get_strategy_from_operation
then_apply_known = refl

run_execution-run_trigger_example :
    (a : Action) × (run_execution
        (if applied.status
          then then_apply_strategy.success_strategy
          else then_apply_strategy.failure_strategy)
        applied.inputs
      ≡ done a)
run_execution-run_trigger_example =
    run_execution-run_trigger then_apply then_apply_strategy (some success ∷ []) applied
      then_apply_known applied_triggers refl

wait_for_all_trigger_example :
    WaitForAll
      (some success ∷ some failure ∷ [])
      (wait_for_all_trigger (some success ∷ some failure ∷ []))
wait_for_all_trigger_example = wait_for_all_trigger_lem (some success ∷ some failure ∷ [])

trigger_any_trigger_example :
    (t : Trigger) × (trigger_any_trigger (none ∷ some failure ∷ some success ∷ []) ≡ done t)
    × TriggerAny (none ∷ some failure ∷ some success ∷ []) t
trigger_any_trigger_example = trigger_any_trigger_lem (none ∷ some failure ∷ some success ∷ [])
