-- ===== src/Graph/Strategy.antt =====
-- graph/stage_strategy.go: when a stage is triggered, with what, and the table of operations.
-- A strategy sees the results of the dependencies, `none` for one that is not resolved.
pub mod WaitForAll
pub mod TriggerAny
pub mod Table
use completer.Prelude.{
  ℕ, String, List, [], ◌∷◌, ◌++◌, map, Option, none, some, Bool, true, false, ◌==◌, ◌&&◌, ltb, not,
  if◌then◌else◌, length, Outcome, done, panicked, not_single_valued, nil_dereference, ◌>>=◌,
}
use completer.Model.Datum.{
  CompletionResult, new_successful_result, new_failed_result, new_empty_result,
}
use completer.Model.Event.{
  CompletionOperation, unknown_operation, accept_either, apply_to_either, then_accept_both,
  then_apply, then_run, then_accept, then_compose, then_combine, when_complete, handle, supply,
  invoke_function, completed_value, delay, all_of, any_of, external_completion, exceptionally,
  termination_hook, exceptionally_compose,
}
use completer.Graph.Stage.{
  TriggerStrategy, wait_for_all, trigger_any, trigger_never, ExecutionStrategy, succeed_with_empty,
  invoke_without_args, invoke_with_result, invoke_with_result_or_error, complete_externally,
  propagate_result, ResultHandlingStrategy, invocation_result, referenced_stage_result,
  parent_stage_result, no_result_strategy, Strategy, is_failed,
}

-- shouldTrigger, successfulTrigger and inputs
pub record Trigger : Type 0 where
  pub should_trigger : Bool
  pub status : Bool
  pub inputs : List CompletionResult

abbrev pub not_triggered : Trigger
not_triggered = record { should_trigger = false; status = false; inputs = [] }

-- The first loop of waitForAll.
unfoldable pub resolved_results : List (Option CompletionResult) → List CompletionResult
resolved_results [] = []
resolved_results (none ∷ ds) = resolved_results ds
resolved_results (some r ∷ ds) = r ∷ resolved_results ds

-- The second loop of waitForAll.
unfoldable pub first_failed : List (Option CompletionResult) → Option CompletionResult
first_failed [] = none
first_failed (none ∷ ds) = first_failed ds
first_failed (some r ∷ ds) = if r.successful then first_failed ds else some r

unfoldable pub wait_for_all_trigger : List (Option CompletionResult) → Trigger
unfolding resolved_results first_failed
wait_for_all_trigger ds =
    let results = resolved_results ds in
    if length results == length ds
    then (elim (first_failed ds) [
      | some r ↦ record { should_trigger = true; status = false; inputs = r ∷ [] }
      | none ↦ record { should_trigger = true; status = true; inputs = results }
    ])
    else not_triggered

-- The loop of triggerAny, with its variables haveUnresolved and firstFailure.
unfoldable pub trigger_any_loop :
    Bool → Option CompletionResult → List (Option CompletionResult) → Outcome Trigger
trigger_any_loop true first [] = done not_triggered
trigger_any_loop false none [] = panicked nil_dereference
trigger_any_loop false (some r) [] =
    done (record { should_trigger = true; status = false; inputs = r ∷ [] })
trigger_any_loop unresolved first (none ∷ ds) = trigger_any_loop true first ds
trigger_any_loop unresolved first (some r ∷ ds) =
    let rest = trigger_any_loop unresolved (some r) ds in
    if r.successful
    then done (record { should_trigger = true; status = true; inputs = r ∷ [] })
    else rest

unfoldable pub trigger_any_trigger : List (Option CompletionResult) → Outcome Trigger
unfolding trigger_any_loop
trigger_any_trigger [] = done not_triggered
trigger_any_trigger (d ∷ ds) = trigger_any_loop false none (d ∷ ds)

unfoldable pub run_trigger : TriggerStrategy → List (Option CompletionResult) → Outcome Trigger
unfolding wait_for_all_trigger trigger_any_trigger
run_trigger wait_for_all ds = done (wait_for_all_trigger ds)
run_trigger trigger_any ds = trigger_any_trigger ds
run_trigger trigger_never ds = done not_triggered

-- What an execution strategy makes of its inputs: it runs the closure with arguments, completes
-- the stage, or does nothing.
pub data Action : Type 0 where
  execute_stage : List CompletionResult → Action
  complete_stage : CompletionResult → Action
  no_action : Action

unfoldable pub run_execution : ExecutionStrategy → List CompletionResult → Outcome Action
run_execution succeed_with_empty rs = done (complete_stage new_empty_result)
run_execution invoke_without_args rs = done (execute_stage [])
run_execution invoke_with_result rs = done (execute_stage rs)
run_execution invoke_with_result_or_error (r ∷ []) = done (
    execute_stage (
      if r.successful
      then new_successful_result r.datum ∷ new_empty_result ∷ []
      else new_empty_result ∷ new_failed_result r.datum ∷ []))
run_execution invoke_with_result_or_error _ = panicked not_single_valued
run_execution complete_externally rs = done no_action
run_execution propagate_result (r ∷ []) = done (complete_stage r)
run_execution propagate_result _ = panicked not_single_valued

abbrev strategy :
    Bool
    → Bool
    → Option ℕ
    → ℕ
    → TriggerStrategy
    → ExecutionStrategy
    → ExecutionStrategy
    → ResultHandlingStrategy
    → Option Strategy
strategy children closure most least trigger success failure handling = some (record {
  can_add_children = children;
  takes_closure = closure;
  max_dependencies = most;
  min_dependencies = least;
  trigger_strategy = trigger;
  success_strategy = success;
  failure_strategy = failure;
  result_handling_strategy = handling;
})

-- `none` is the error "unrecognised operation".
unfoldable pub get_strategy_from_operation : CompletionOperation → Option Strategy
get_strategy_from_operation accept_either =
    strategy true true (some 2) 2 trigger_any invoke_with_result propagate_result invocation_result
get_strategy_from_operation apply_to_either =
    strategy true true (some 2) 2 trigger_any invoke_with_result propagate_result invocation_result
get_strategy_from_operation then_accept_both =
    strategy true true (some 2) 2 wait_for_all invoke_with_result propagate_result invocation_result
get_strategy_from_operation then_apply =
    strategy true true (some 1) 1 trigger_any invoke_with_result propagate_result invocation_result
get_strategy_from_operation then_run =
    strategy true true (some 1) 1 trigger_any invoke_without_args propagate_result invocation_result
get_strategy_from_operation then_accept =
    strategy true true (some 1) 1 trigger_any invoke_with_result propagate_result invocation_result
get_strategy_from_operation then_compose =
    strategy true true (some 1) 1 trigger_any invoke_with_result propagate_result
      referenced_stage_result
get_strategy_from_operation then_combine =
    strategy true true (some 2) 2 wait_for_all invoke_with_result propagate_result invocation_result
get_strategy_from_operation when_complete =
    strategy true true (some 1) 1 trigger_any invoke_with_result_or_error
      invoke_with_result_or_error parent_stage_result
get_strategy_from_operation handle =
    strategy true true (some 1) 1 trigger_any invoke_with_result_or_error
      invoke_with_result_or_error invocation_result
get_strategy_from_operation supply =
    strategy true true (some 0) 0 wait_for_all invoke_without_args propagate_result
      invocation_result
get_strategy_from_operation invoke_function =
    strategy true false (some 0) 0 wait_for_all complete_externally complete_externally
      invocation_result
get_strategy_from_operation completed_value =
    strategy true false (some 0) 0 trigger_never complete_externally propagate_result
      no_result_strategy
get_strategy_from_operation delay =
    strategy true false (some 0) 0 trigger_never complete_externally complete_externally
      no_result_strategy
get_strategy_from_operation all_of =
    strategy true false none 0 wait_for_all succeed_with_empty propagate_result no_result_strategy
get_strategy_from_operation any_of =
    strategy true false none 1 trigger_any propagate_result propagate_result no_result_strategy
get_strategy_from_operation external_completion =
    strategy true false (some 0) 0 trigger_never complete_externally complete_externally
      no_result_strategy
get_strategy_from_operation exceptionally =
    strategy true true (some 1) 1 trigger_any propagate_result invoke_with_result invocation_result
get_strategy_from_operation termination_hook =
    strategy false true (some 0) 0 wait_for_all invoke_with_result invoke_with_result
      parent_stage_result
get_strategy_from_operation exceptionally_compose =
    strategy true true (some 1) 1 trigger_any propagate_result invoke_with_result
      referenced_stage_result
get_strategy_from_operation unknown_operation = none

-- `n < MinDependencies || MaxDependencies >= 0 && n > MaxDependencies`
unfoldable pub invalid_dependency_count : Strategy → ℕ → Bool
invalid_dependency_count s n =
    if ltb n s.min_dependencies
    then true
    else elim s.max_dependencies [ none ↦ false | some most ↦ ltb most n ]
