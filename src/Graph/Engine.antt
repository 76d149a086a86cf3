-- ===== src/Graph/Engine.antt =====
-- graph/graph.go: how an event changes the graph, and what the graph asks of its listener. The
-- listener is the interface CompletionEventListener, over a state of its own, the host; its calls
-- come back into the graph, so each takes and returns the world: the graph and the host.
use completer.Prelude.{
  ℕ, suc, List, [], ◌∷◌, map, Option, none, some, Bool, true, false, ◌==◌, if◌then◌else◌, is_some,
  length, Outcome, done, panicked, ◌>>=◌, for_each, unsupported_operation, invalid_dependencies,
  duplicate_stage, dependent_stage_not_found, invalid_parent_deps, nil_dereference,
}
use completer.Model.Datum.{
  CompletionResult, Datum, stage_ref, stage_lost, invalid_stage_response, new_internal_error_result,
  new_successful_result, new_state_datum, StatusDatumType,
}
use completer.Model.Event.{
  Event, StageAdded, graph_created, graph_committed, graph_terminating, graph_completed,
  delay_scheduled, stage_added, stage_completed, stage_composed, faas_invocation_started,
  faas_invocation_completed, CompletionOperation, termination_hook,
}
use completer.Graph.Stage.{
  CompletionStage, CompletionGraph, StageDependency, on_stage, termination_root, Strategy,
  state_initial, state_committed, state_terminating, state_completed, main_exec_phase,
  termination_exec_phase, invocation_result, referenced_stage_result, parent_stage_result,
  no_result_strategy, is_resolved, get_stage, modify_stage, put_stage, stage_ids, complete,
  mark_triggered, add_child, get_pending_count,
}
use completer.Graph.Strategy.{
  Trigger, not_triggered, execute_stage, complete_stage, no_action, run_trigger, run_execution,
  get_strategy_from_operation, invalid_dependency_count,
}

pub record World (H : Type 0) : Type 0 where
  pub graph : CompletionGraph
  pub host : H

-- CompletionEventListener
pub record Listener (H : Type 0) : Type 0 where
  pub on_execute_stage : CompletionStage → List CompletionResult → World H → Outcome (World H)
  pub on_complete_stage : CompletionStage → CompletionResult → World H → Outcome (World H)
  pub on_compose_stage : CompletionStage → CompletionStage → World H → Outcome (World H)
  pub on_graph_execution_finished : World H → Outcome (World H)
  pub on_graph_complete : World H → Outcome (World H)

-- GetResult of a dependency; a stage's dependencies point to stages of the map.
unfoldable pub dependency_result : CompletionGraph → StageDependency → Option CompletionResult
dependency_result g (on_stage i) = elim (get_stage g.stages i) [ none ↦ none | some s ↦ s.result ]
dependency_result g termination_root = g.termination_root_result

-- validateStages, and the loop of handleStageAdded that looks for the dependencies.
unfoldable pub validate_stages : List CompletionStage → List ℕ → Bool
validate_stages ss [] = true
validate_stages ss (i ∷ is) = if is_some (get_stage ss i) then validate_stages ss is else false

-- The loop that appends the new stage to the children of each dependency.
unfoldable pub add_children : ℕ → List ℕ → List CompletionStage → List CompletionStage
add_children c [] ss = ss
add_children c (d ∷ ds) ss = add_children c ds (modify_stage (add_child c) d ss)

abbrev pub stage_recovery_failed_result : CompletionResult
stage_recovery_failed_result =
    new_internal_error_result stage_lost "Stage invocation lost - stage may still be executing"

-- GetStageRef of a datum.
unfoldable pub get_stage_ref : Datum → Option ℕ
get_stage_ref (stage_ref i) = some i
get_stage_ref _ = none

-- The stage that handleStageAdded builds.
unfoldable pub new_stage : StageAdded → Strategy → CompletionStage
new_stage e strategy = record {
  id = e.stage_id;
  result = none;
  operation = e.op;
  strategy = strategy;
  closure = e.closure;
  dependencies = map on_stage e.dependencies;
  children = [];
  when_complete = [];
  compose_reference = none;
  triggered = false;
  exec_phase = main_exec_phase;
}

-- The checks of handleStageAdded and the new map of stages.
unfoldable pub add_stage : StageAdded → List CompletionStage → Outcome (List CompletionStage)
unfolding new_stage
add_stage e ss = elim (get_strategy_from_operation e.op) [
  | none ↦ panicked unsupported_operation
  | some strategy ↦
      if invalid_dependency_count strategy (length e.dependencies)
      then panicked invalid_dependencies
      else if is_some (get_stage ss e.stage_id)
      then panicked duplicate_stage
      else if validate_stages ss e.dependencies
      then done (put_stage (new_stage e strategy) (add_children e.stage_id e.dependencies ss))
      else panicked dependent_stage_not_found
]

-- The stage that handleAddTerminationHook builds, before it is chained to the older hooks.
unfoldable pub new_termination_hook : StageAdded → Strategy → CompletionStage
new_termination_hook e strategy = record {
  id = e.stage_id;
  result = none;
  operation = termination_hook;
  strategy = strategy;
  closure = e.closure;
  dependencies = termination_root ∷ [];
  children = [];
  when_complete = [];
  compose_reference = none;
  triggered = false;
  exec_phase = termination_exec_phase;
}

abbrev pub depend_on : ℕ → CompletionStage → CompletionStage
depend_on i s = record s { dependencies = on_stage i ∷ [] }

unfoldable pub handle_add_termination_hook : StageAdded → CompletionGraph → Outcome CompletionGraph
unfolding new_termination_hook
handle_add_termination_hook e g = elim (get_strategy_from_operation termination_hook) [
  | none ↦ panicked unsupported_operation
  | some strategy ↦
      let hook = new_termination_hook e strategy in
      elim g.termination_chain_head [
        | none ↦ done (record g {
          termination_chain_head = some e.stage_id;
          stages = put_stage hook g.stages;
        })
        | some old ↦ done (record g {
          termination_chain_head = some e.stage_id;
          stages =
              put_stage (record hook { children = old ∷ [] })
                (modify_stage (depend_on e.stage_id) old g.stages);
        })
      ]
]

-- CompletionStage.requestTrigger: the decision, and the graph with the stage marked.
unfoldable pub request_trigger :
    CompletionGraph → CompletionStage → Outcome (Trigger × CompletionGraph)
request_trigger g s =
    if s.triggered
    then done (not_triggered, g)
    else (run_trigger s.strategy.trigger_strategy (map (dependency_result g) s.dependencies)
        >>= λ t. done (
          t,
          if t.should_trigger
              then record g { stages = modify_stage mark_triggered s.id g.stages }
              else g,
        ))

abbrev pub compose_with : Option ℕ → CompletionStage → CompletionStage
compose_with outer s = record s { compose_reference = outer }

abbrev pub is_termination_hook : CompletionOperation → Bool
is_termination_hook termination_hook = true
is_termination_hook _ = false

module _ {H : Type 0} (range : ℕ → List ℕ → List ℕ) (L : Listener H) where
  abbrev pub with_graph : World H → CompletionGraph → World H
  with_graph w g = record w { graph = g }

  -- A `range` over the map: the `n`th loop visits the keys in the order `range n keys`. The keys
  -- do not change in a loop, since no listener call adds a stage.
  unfoldable pub range_stages :
      (CompletionStage → World H → Outcome (World H)) → World H → Outcome (World H)
  range_stages body w =
      for_each (λ i v. elim (get_stage v.graph.stages i) [ none ↦ done v | some s ↦ body s v ])
        (range w.graph.ranges (stage_ids w.graph.stages))
        (with_graph w (record w.graph { ranges = suc w.graph.ranges }))

  -- CompletionStage.trigger with its execution strategy.
  unfoldable pub trigger :
      CompletionStage → Bool → List CompletionResult → World H → Outcome (World H)
  trigger s status input w =
      run_execution (if status then s.strategy.success_strategy else s.strategy.failure_strategy)
        input
      >>= λ a. elim a [
        | execute_stage args ↦ L.on_execute_stage s args w
        | complete_stage r ↦ L.on_complete_stage s r w
        | no_action ↦ done w
      ]

  -- The body of the loop of triggerReadyStages.
  unfoldable pub trigger_ready_stage : CompletionStage → World H → Outcome (World H)
  trigger_ready_stage s w =
      if is_resolved s.result
      then done w
      else (request_trigger w.graph s >>= λ tg.
          let v = with_graph w tg.1 in
          if tg.0.should_trigger then trigger s tg.0.status tg.0.inputs v else done v)

  unfoldable pub trigger_ready_stages : World H → Outcome (World H)
  trigger_ready_stages = range_stages trigger_ready_stage

  unfoldable pub check_for_execution_finished : World H → Outcome (World H)
  check_for_execution_finished w = elim w.graph.state [
    | state_initial ↦ done w
    | state_committed ↦
        if get_pending_count main_exec_phase w.graph.stages == 0
        then L.on_graph_execution_finished w
        else done w
    | state_terminating ↦
        if get_pending_count termination_exec_phase w.graph.stages == 0
        then L.on_graph_complete w
        else done w
    | state_completed ↦ done w
  ]

  abbrev pub trigger_if : Bool → World H → Outcome (World H)
  trigger_if should_trigger w = if should_trigger then trigger_ready_stages w else done w

  unfoldable pub handle_committed : World H → Outcome (World H)
  handle_committed w =
      check_for_execution_finished (with_graph w (record w.graph { state = state_committed }))

  unfoldable pub handle_completed : World H → Outcome (World H)
  handle_completed w = done (with_graph w (record w.graph { state = state_completed }))

  unfoldable pub handle_terminating : StatusDatumType → Bool → World H → Outcome (World H)
  handle_terminating status should_trigger w =
      trigger_if should_trigger (
        with_graph w (record w.graph {
          state = state_terminating;
          termination_root_result = some (new_successful_result (new_state_datum status));
        }))
      >>= check_for_execution_finished

  unfoldable pub handle_stage_added : StageAdded → Bool → World H → Outcome (World H)
  handle_stage_added e should_trigger w = add_stage e w.graph.stages >>= λ ss.
      trigger_if should_trigger (with_graph w (record w.graph { stages = ss }))

  -- tryCompleteComposedStage, with the IDs of both stages. The outer stage is read only where the
  -- inner one is resolved.
  unfoldable pub try_complete_composed_stage : Option ℕ → ℕ → World H → Outcome (World H)
  try_complete_composed_stage outer inner w = elim (get_stage w.graph.stages inner) [
    | none ↦ panicked nil_dereference
    | some i ↦ elim i.result [
      | none ↦ done w
      | some r ↦ elim outer [
        | none ↦ panicked nil_dereference
        | some o ↦ elim (get_stage w.graph.stages o) [
          | none ↦ panicked nil_dereference
          | some s ↦ if is_resolved s.result then done w else L.on_complete_stage s r w
        ]
      ]
    ]
  ]

  unfoldable pub handle_stage_completed : ℕ → CompletionResult → Bool → World H → Outcome (World H)
  handle_stage_completed i r should_trigger w = elim (get_stage w.graph.stages i) [
    | none ↦ panicked nil_dereference
    | some node ↦
        let v =
          with_graph w (record w.graph { stages = modify_stage (complete r) i w.graph.stages }) in
        elim node.compose_reference [
          | none ↦ done v
          | some outer ↦ try_complete_composed_stage (some outer) i v
        ]
        >>= trigger_if should_trigger
        >>= check_for_execution_finished
  ]

  unfoldable pub referenced_result :
      CompletionStage → CompletionResult → World H → Outcome (World H)
  unfolding get_stage_ref
  referenced_result s r w =
      if r.successful
      then elim (get_stage_ref r.datum) [
        | none ↦
            L.on_complete_stage s
              (new_internal_error_result invalid_stage_response
                "stage returned a non-stageref response")
              w
        | some i ↦ elim (get_stage w.graph.stages i) [
          | none ↦
              L.on_complete_stage s
                (new_internal_error_result invalid_stage_response "referenced stage not found ") w
          | some ref ↦ L.on_compose_stage s ref w
        ]
      ]
      else L.on_complete_stage s r w

  -- parentStageResult, for the stage's dependencies: it wants exactly one, and that resolved.
  unfoldable pub parent_result :
      CompletionStage → List StageDependency → World H → Outcome (World H)
  parent_result s (d ∷ []) w = elim (dependency_result w.graph d) [
    | none ↦ panicked invalid_parent_deps
    | some parent ↦ L.on_complete_stage s parent w
  ]
  parent_result s _ w = panicked invalid_parent_deps

  -- CompletionStage.handleResult, by the stage's result handling strategy.
  unfoldable pub handle_result : CompletionStage → CompletionResult → World H → Outcome (World H)
  unfolding referenced_result parent_result
  handle_result s r w = elim s.strategy.result_handling_strategy [
    | invocation_result ↦ L.on_complete_stage s r w
    | referenced_stage_result ↦ referenced_result s r w
    | parent_stage_result ↦ parent_result s s.dependencies w
    | no_result_strategy ↦ done w
  ]

  unfoldable pub handle_invoke_complete : ℕ → CompletionResult → World H → Outcome (World H)
  handle_invoke_complete i r w = elim (get_stage w.graph.stages i) [
    | none ↦ panicked nil_dereference
    | some s ↦ handle_result s r w
  ]

  unfoldable pub handle_stage_composed : ℕ → ℕ → World H → Outcome (World H)
  handle_stage_composed outer_id inner_id w = elim (get_stage w.graph.stages inner_id) [
    | none ↦ panicked nil_dereference
    | some inner ↦
        let outer : Option ℕ = elim (get_stage w.graph.stages outer_id) [
          | none ↦ none
          | some s ↦ some outer_id
        ] in
        try_complete_composed_stage outer inner_id (
          with_graph w
            (record w.graph { stages = modify_stage (compose_with outer) inner_id w.graph.stages }))
  ]

  -- The body of the loop of Recover.
  unfoldable pub recover_stage : CompletionStage → World H → Outcome (World H)
  recover_stage s w =
      if is_resolved s.result
      then done w
      else (request_trigger w.graph s >>= λ tg.
          let v = with_graph w tg.1 in
          if tg.0.should_trigger
          then L.on_complete_stage s stage_recovery_failed_result v
          else done v)

  unfoldable pub recover : World H → Outcome (World H)
  recover w = range_stages recover_stage w >>= trigger_ready_stages >>= check_for_execution_finished

  -- UpdateWithEvent; its start time is read by the tracing of handleCompleted only.
  unfoldable pub update_with_event : Event → Bool → World H → Outcome (World H)
  update_with_event graph_committed may_trigger w = handle_committed w
  update_with_event (graph_terminating status) may_trigger w =
      handle_terminating status may_trigger w
  update_with_event graph_completed may_trigger w = handle_completed w
  update_with_event (stage_added e) may_trigger w =
      if is_termination_hook e.op
      then (handle_add_termination_hook e w.graph >>= λ g. done (with_graph w g))
      else handle_stage_added e may_trigger w
  update_with_event (stage_completed i r) may_trigger w = handle_stage_completed i r may_trigger w
  update_with_event (faas_invocation_completed i r call_id) may_trigger w =
      if may_trigger then handle_invoke_complete i r w else done w
  update_with_event (stage_composed outer inner) may_trigger w = handle_stage_composed outer inner w
  update_with_event (faas_invocation_started i f) may_trigger w = done w
  update_with_event (graph_created f g) may_trigger w = done w
  update_with_event (delay_scheduled i t) may_trigger w = done w
