-- ===== src/Model/Command.antt =====
-- The commands that a flow receives (model/model.pb.go), AddStageCommand of model/mixins.go, and
-- the errors of model/errors.go. Every command carries the ID of its flow.
use completer.Prelude.{ℕ, String, List, Option, none, some, Bool, false, length, is_some}
use completer.Model.Datum.{BlobDatum, HttpReqDatum, CompletionResult}
use completer.Model.Event.{CompletionOperation, completed_value, delay, invoke_function}

pub record AddStage : Type 0 where
  pub operation : CompletionOperation
  pub closure : Option BlobDatum
  pub deps : List ℕ

-- `delay_ms` is an int64 that request validation keeps above -1.
pub data Command : Type 0 where
  create_graph : (function_id : String) → Command
  get_graph_state commit_graph deactivate_graph : Command
  add_stage : AddStage → Command
  add_completed_value_stage : CompletionResult → Command
  add_delay_stage : (delay_ms : ℕ) → Command
  add_invoke_function_stage : (function_id : String) → HttpReqDatum → Command
  complete_stage_externally : (stage_id : ℕ) → CompletionResult → Command
  await_stage_result : (stage_id : ℕ) → Command
  complete_delay_stage : (stage_id : ℕ) → CompletionResult → Command
  faas_invocation_response : (stage_id : ℕ) → CompletionResult → (call_id : String) → Command

-- What a command that creates a stage offers: GetOperation, GetDependencyCount and HasClosure.
pub record AddStageCommand : Type 0 where
  pub operation : CompletionOperation
  pub dependency_count : ℕ
  pub has_closure : Bool

-- The type assertion `cmd.(model.AddStageCommand)`.
unfoldable pub add_stage_command : Command → Option AddStageCommand
add_stage_command (add_stage m) = some (record {
  operation = m.operation;
  dependency_count = length m.deps;
  has_closure = is_some m.closure;
})
add_stage_command (add_completed_value_stage v) =
    some (record { operation = completed_value; dependency_count = 0; has_closure = false })
add_stage_command (add_delay_stage ms) =
    some (record { operation = delay; dependency_count = 0; has_closure = false })
add_stage_command (add_invoke_function_stage f arg) =
    some (record { operation = invoke_function; dependency_count = 0; has_closure = false })
add_stage_command _ = none

-- The errors of model/errors.go; the flow ID that each message prints is that of the command.
pub data FlowError : Type 0 where
  graph_creation graph_already_exists graph_not_found graph_already_completed : FlowError
  invalid_delay : (delay_ms : ℕ) → FlowError
  stage_not_found : (stage_id : ℕ) → FlowError
  await_stage : (stage_id : ℕ) → FlowError
  invalid_stage_dependencies invalid_datum needs_closure should_not_have_closure : FlowError
  invalid_operation too_many_stages too_many_termination_hooks : FlowError

-- The gRPC codes that the errors carry.
pub data Code : Type 0 where
  internal already_exists not_found failed_precondition invalid_argument unknown : Code
  unimplemented resource_exhausted : Code

unfoldable pub code : FlowError → Code
code graph_creation = internal
code graph_already_exists = already_exists
code graph_not_found = not_found
code graph_already_completed = failed_precondition
code (invalid_delay d) = invalid_argument
code (stage_not_found i) = not_found
code (await_stage i) = unknown
code invalid_stage_dependencies = invalid_argument
code invalid_datum = invalid_argument
code needs_closure = invalid_argument
code should_not_have_closure = invalid_argument
code invalid_operation = unimplemented
code too_many_stages = resource_exhausted
code too_many_termination_hooks = resource_exhausted
