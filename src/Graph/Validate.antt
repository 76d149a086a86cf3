-- ===== src/Graph/Validate.antt =====
-- ValidateCommand of graph/graph.go.
pub mod Acceptance
pub mod Hooks
pub mod Addition
use completer.Prelude.{
  ℕ, ◌*◌, List, [], ◌∷◌, Option, none, some, Bool, true, false, not, ltb, leb, ◌==◌, ◌&&◌,
  if◌then◌else◌, is_some, length, count_if,
}
use completer.Model.Datum.{CompletionResult, has_valid_value}
use completer.Model.Event.{CompletionOperation, termination_hook}
use completer.Model.Command.{
  Command, AddStageCommand, add_stage_command, add_stage, add_completed_value_stage,
  add_delay_stage, complete_stage_externally, await_stage_result, FlowError,
  graph_already_completed, invalid_delay, stage_not_found, invalid_stage_dependencies,
  invalid_datum, needs_closure, should_not_have_closure, invalid_operation, too_many_stages,
  too_many_termination_hooks,
}
use completer.Graph.Stage.{
  CompletionStage, CompletionGraph, State, state_initial, state_committed, get_stage,
}
use completer.Graph.Strategy.{get_strategy_from_operation, invalid_dependency_count}
use completer.Graph.Engine.{validate_stages, is_termination_hook}

abbrev pub max_delay_seconds : ℕ
max_delay_seconds = 86400

abbrev pub max_stages : ℕ
max_stages = 1000

abbrev pub max_termination_hooks : ℕ
max_termination_hooks = 100

unfoldable pub can_modify_graph : State → Bool
can_modify_graph state_initial = true
can_modify_graph state_committed = true
can_modify_graph _ = false

abbrev pub is_hook : CompletionStage → Bool
is_hook s = is_termination_hook s.operation

abbrev pub hook_count : List CompletionStage → ℕ
hook_count ss = count_if is_hook ss

-- The checks of a command that creates a stage, in the source's order.
unfoldable pub validate_add_stage : CompletionGraph → AddStageCommand → Option FlowError
unfolding can_modify_graph
validate_add_stage g c =
    if not (can_modify_graph g.state)
    then some graph_already_completed
    else elim (get_strategy_from_operation c.operation) [
      | none ↦ some invalid_operation
      | some strategy ↦
          if invalid_dependency_count strategy c.dependency_count
          then some invalid_stage_dependencies
          else if strategy.takes_closure && not c.has_closure
          then some needs_closure
          else if not strategy.takes_closure && c.has_closure
          then some should_not_have_closure
          else if leb max_stages (length g.stages)
          then some too_many_stages
          else if is_termination_hook c.operation && leb max_termination_hooks (hook_count g.stages)
          then some too_many_termination_hooks
          else none
    ]

-- The checks of each type of command.
unfoldable pub validate_by_type : CompletionGraph → Command → Option FlowError
validate_by_type g (add_delay_stage ms) =
    if leb ms 0
    then some (invalid_delay ms)
    else if ltb (max_delay_seconds * 1000) ms
    then some (invalid_delay ms)
    else none
validate_by_type g (add_stage m) =
    if validate_stages g.stages m.deps then none else some invalid_stage_dependencies
validate_by_type g (add_completed_value_stage v) =
    if has_valid_value v.datum then none else some invalid_datum
validate_by_type g (complete_stage_externally i v) =
    if has_valid_value v.datum
    then (if is_some (get_stage g.stages i) then none else some (stage_not_found i))
    else some invalid_datum
validate_by_type g (await_stage_result i) =
    if validate_stages g.stages (i ∷ []) then none else some (stage_not_found i)
validate_by_type g _ = none

-- `none` is the nil error: the command may be applied.
unfoldable pub validate_command : CompletionGraph → Command → Option FlowError
unfolding add_stage_command validate_add_stage validate_by_type
validate_command g c = elim (add_stage_command c) [
  | none ↦ validate_by_type g c
  | some add ↦ elim (validate_add_stage g add) [ none ↦ validate_by_type g c | some e ↦ some e ]
]
