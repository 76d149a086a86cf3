-- ===== src/Graph/Strategy/Table.antt =====
-- The table of operations (getStrategyFromOperation of graph/stage_strategy.go): an operation that
-- is triggered can always be run on the inputs that its trigger hands it.
use mathlib.Core.Bool.{false≢true}
use completer.Prelude.{
  ap, sym, ◌∙◌, done-injective, ◌≡◌, refl, ap, ◌∙◌, List, [], ◌∷◌, Option, some, Bool, true, false,
  arith, done, if◌then◌else◌,
}
use completer.Model.Datum.{CompletionResult}
use completer.Model.Event.{CompletionOperation, unknown_operation}
use completer.Graph.Stage.{
  Strategy, TriggerStrategy, wait_for_all, trigger_any, trigger_never, ExecutionStrategy,
  succeed_with_empty, invoke_without_args, invoke_with_result, invoke_with_result_or_error,
  complete_externally, propagate_result,
}
use completer.Graph.Strategy.{
  Trigger, run_trigger, run_execution, get_strategy_from_operation, Action,
}
use completer.Graph.Strategy.WaitForAll.{
  WaitForAll, waits, succeeds, fails, wait_for_all_trigger_lem,
}
use completer.Graph.Strategy.TriggerAny.{
  TriggerAny, waits_any, succeeds_any, fails_any, trigger_any_trigger_lem,
}

-- An execution strategy runs on a single input.
runs_on_one :
    (e : ExecutionStrategy) (r : CompletionResult)
    → (a : Action) × (run_execution e (r ∷ []) ≡ done a)
unfolding run_execution
runs_on_one succeed_with_empty r = (_, refl)
runs_on_one invoke_without_args r = (_, refl)
runs_on_one invoke_with_result r = (_, refl)
runs_on_one invoke_with_result_or_error r = (_, refl)
runs_on_one complete_externally r = (_, refl)
runs_on_one propagate_result r = (_, refl)

-- The execution strategies that take any number of inputs.
abbrev takes_many : ExecutionStrategy → Bool
takes_many invoke_with_result_or_error = false
takes_many propagate_result = false
takes_many _ = true

runs_on_many :
    (e : ExecutionStrategy) (rs : List CompletionResult)
    → takes_many e ≡ true
    → (a : Action) × (run_execution e rs ≡ done a)
unfolding run_execution
runs_on_many succeed_with_empty rs h = (_, refl)
runs_on_many invoke_without_args rs h = (_, refl)
runs_on_many invoke_with_result rs h = (_, refl)
runs_on_many invoke_with_result_or_error rs h = absurd (false≢true h)
runs_on_many complete_externally rs h = (_, refl)
runs_on_many propagate_result rs h = absurd (false≢true h)

wait_for_all_takes_many :
    (op : CompletionOperation) (s : Strategy)
    → get_strategy_from_operation op ≡ some s
    → s.trigger_strategy ≡ wait_for_all
    → takes_many s.success_strategy ≡ true
unfolding get_strategy_from_operation
wait_for_all_takes_many unknown_operation s e w = ground (arith, e, w)
wait_for_all_takes_many _ s e w = ground (arith, e, w)

abbrev execution : Strategy → Bool → ExecutionStrategy
execution s status = if status then s.success_strategy else s.failure_strategy

runs_after_any :
    (s : Strategy) (ds : List (Option CompletionResult)) (t : Trigger)
    → TriggerAny ds t
    → t.should_trigger ≡ true
    → (a : Action) × (run_execution (execution s t.status) t.inputs ≡ done a)
runs_after_any s ds t (waits_any a u) h = absurd (false≢true h)
runs_after_any s ds t (succeeds_any pre r post e a q) h = runs_on_one s.success_strategy r
runs_after_any s ds t (fails_any pre r e a) h = runs_on_one s.failure_strategy r

runs_after_all :
    (s : Strategy) (ds : List (Option CompletionResult)) (t : Trigger)
    → WaitForAll ds t
    → takes_many s.success_strategy ≡ true
    → t.should_trigger ≡ true
    → (a : Action) × (run_execution (execution s t.status) t.inputs ≡ done a)
runs_after_all s ds t (waits pre post e) m h = absurd (false≢true h)
runs_after_all s ds t (succeeds rs e a) m h = runs_on_many s.success_strategy rs m
runs_after_all s ds t (fails pre r post e a q) m h = runs_on_one s.failure_strategy r

-- Whatever the operation and the state of its dependencies, if its trigger says yes, the execution
-- strategy for the trigger's status accepts the inputs that it hands over: the panics on a number
-- of inputs other than one are never reached.
pub run_execution-run_trigger :
    (op : CompletionOperation) (s : Strategy) (ds : List (Option CompletionResult)) (t : Trigger)
    → get_strategy_from_operation op ≡ some s
    → run_trigger s.trigger_strategy ds ≡ done t
    → t.should_trigger ≡ true
    → (a : Action) × (run_execution
          (if t.status then s.success_strategy else s.failure_strategy)
          t.inputs
        ≡ done a)
unfolding run_trigger
run_execution-run_trigger op s ds t e =
    by_trigger s.trigger_strategy (wait_for_all_takes_many op s e)
  where
    by_trigger :
        (k : TriggerStrategy)
        → (k ≡ wait_for_all → takes_many s.success_strategy ≡ true)
        → run_trigger k ds ≡ done t
        → t.should_trigger ≡ true
        → (a : Action) × (run_execution (execution s t.status) t.inputs ≡ done a)
    by_trigger wait_for_all m q h =
        runs_after_all s ds t (rw (sym (done-injective q)) (wait_for_all_trigger_lem ds)) (m refl) h
    by_trigger trigger_any m q h =
        let (t', p, c) = trigger_any_trigger_lem ds in
        runs_after_any s ds t (rw (done-injective (sym q ∙ p)) c) h
    by_trigger trigger_never m q h =
        absurd (false≢true (ap (λ (u : Trigger). u.should_trigger) (done-injective q) ∙ h))
