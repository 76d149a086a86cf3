-- ===== src/Graph/Progress/Requests.antt =====
-- The strategies and requestTrigger end, and requestTrigger marks the stage that it triggers.
use completer.Prelude.{
  ◌≡◌, refl, ◌⊎◌, inl, inr, List, [], ◌∷◌, Option, none, some, Bool, true, false, if◌then◌else◌,
  arith, Ensures, Ensures-bind, Bool-cases, map,
}
use completer.Model.Datum.{CompletionResult}
use completer.Graph.Stage.{
  CompletionStage, CompletionGraph, modify_stage, mark_triggered, ExecutionStrategy,
  invoke_with_result_or_error, propagate_result, TriggerStrategy, wait_for_all, trigger_any,
  trigger_never,
}
use completer.Graph.Strategy.{
  Trigger, run_execution, run_trigger, trigger_any_trigger, trigger_any_loop,
}
use completer.Graph.Engine.{request_trigger, dependency_result}
use completer.Graph.Progress.{
  GraphAdvances, modify_stage-StagesAdvance, mark_triggered-StageAdvances,
}

pub run_execution-ends :
    (e : ExecutionStrategy) (rs : List CompletionResult)
    → Ensures (λ a. Unit {0}) (run_execution e rs)
unfolding run_execution
run_execution-ends invoke_with_result_or_error [] = tt
run_execution-ends invoke_with_result_or_error (r ∷ []) = tt
run_execution-ends invoke_with_result_or_error (r ∷ q ∷ rs) = tt
run_execution-ends propagate_result [] = tt
run_execution-ends propagate_result (r ∷ []) = tt
run_execution-ends propagate_result (r ∷ q ∷ rs) = tt
run_execution-ends _ rs = tt

trigger_any_loop-ends :
    (b : Bool) (first : Option CompletionResult) (ds : List (Option CompletionResult))
    → Ensures (λ t. Unit {0}) (trigger_any_loop b first ds)
unfolding trigger_any_loop
trigger_any_loop-ends true first [] = tt
trigger_any_loop-ends false none [] = tt
trigger_any_loop-ends false (some r) [] = tt
trigger_any_loop-ends true first (none ∷ ds) = trigger_any_loop-ends true first ds
trigger_any_loop-ends false none (none ∷ ds) = trigger_any_loop-ends true none ds
trigger_any_loop-ends false (some r) (none ∷ ds) = trigger_any_loop-ends true (some r) ds
trigger_any_loop-ends true first (some r ∷ ds) =
    ground (arith, trigger_any_loop-ends true (some r) ds)
trigger_any_loop-ends false none (some r ∷ ds) =
    ground (arith, trigger_any_loop-ends false (some r) ds)
trigger_any_loop-ends false (some q) (some r ∷ ds) =
    ground (arith, trigger_any_loop-ends false (some r) ds)

pub run_trigger-ends :
    (t : TriggerStrategy) (ds : List (Option CompletionResult))
    → Ensures (λ t. Unit {0}) (run_trigger t ds)
unfolding run_trigger trigger_any_trigger
run_trigger-ends wait_for_all ds = tt
run_trigger-ends trigger_any [] = tt
run_trigger-ends trigger_any (d ∷ ds) = trigger_any_loop-ends false none (d ∷ ds)
run_trigger-ends trigger_never ds = tt

abbrev pub mark_graph : CompletionStage → CompletionGraph → CompletionGraph
mark_graph s g = record g { stages = modify_stage mark_triggered s.id g.stages }

pub mark_graph-GraphAdvances :
    (s : CompletionStage) (g : CompletionGraph) → GraphAdvances g (mark_graph s g)
mark_graph-GraphAdvances s g = record {
  stages = modify_stage-StagesAdvance mark_triggered s.id g.stages mark_triggered-StageAdvances;
  state = omega arith;
  same_function = refl;
}

-- requestTrigger leaves the graph as it was, or it says yes and marks the stage.
abbrev pub Requested : CompletionGraph → CompletionStage → Trigger × CompletionGraph → Type 0
Requested g s tg =
    ((tg.0.should_trigger ≡ false) × (tg.1 ≡ g))
    ⊎ ((tg.0.should_trigger ≡ true) × (tg.1 ≡ mark_graph s g))

pub request_trigger-Requested :
    (g : CompletionGraph) (s : CompletionStage) → Ensures (Requested g s) (request_trigger g s)
unfolding request_trigger
request_trigger-Requested g s = elim (Bool-cases s.triggered) [
  | inl e ↦ rw e (inl (refl, refl))
  | inr e ↦ rw e (
      Ensures-bind (λ t. Unit) (Requested g s)
        (run_trigger s.strategy.trigger_strategy (map (dependency_result g) s.dependencies)) _
        (run_trigger-ends _ _) (λ t _. decide t))
]
  where
    decide : (t : Trigger) → Requested g s (t, if t.should_trigger then mark_graph s g else g)
    decide t = ground arith
