-- ===== src/Graph/Stage.antt =====
-- Stages and the graph's state (graph/stage.go, and the types of graph/graph.go). A pointer to a
-- stage is the stage's ID in the graph's map. The map is kept in the order of insertion; the order
-- in which Go ranges over it is a parameter of the engine.
use completer.Prelude.{
  ℕ, String, List, [], ◌∷◌, ◌++◌, map, Option, none, some, Bool, true, false, not, ◌==◌, ◌&&◌,
  if◌then◌else◌, is_some, length, count_if,
}
use completer.Model.Datum.{BlobDatum, CompletionResult}
use completer.Model.Event.{CompletionOperation}

pub data ExecutionPhase : Type 0 where
  main_exec_phase termination_exec_phase : ExecutionPhase

-- The function values that a strategy holds, by their names.
pub data TriggerStrategy : Type 0 where
  wait_for_all trigger_any trigger_never : TriggerStrategy

pub data ExecutionStrategy : Type 0 where
  succeed_with_empty invoke_without_args invoke_with_result : ExecutionStrategy
  invoke_with_result_or_error complete_externally propagate_result : ExecutionStrategy

pub data ResultHandlingStrategy : Type 0 where
  invocation_result referenced_stage_result parent_stage_result : ResultHandlingStrategy
  no_result_strategy : ResultHandlingStrategy

-- `max_dependencies` is `none` for the source's -1, which stands for no limit.
pub record Strategy : Type 0 where
  pub can_add_children : Bool
  pub takes_closure : Bool
  pub max_dependencies : Option ℕ
  pub min_dependencies : ℕ
  pub trigger_strategy : TriggerStrategy
  pub success_strategy : ExecutionStrategy
  pub failure_strategy : ExecutionStrategy
  pub result_handling_strategy : ResultHandlingStrategy

-- A dependency is another stage, or the graph's raw dependency `_termination`.
pub data StageDependency : Type 0 where
  on_stage : ℕ → StageDependency
  termination_root : StageDependency

-- `when_complete` holds the results told to the stage's future, in order.
pub record CompletionStage : Type 0 where
  pub id : ℕ
  pub result : Option CompletionResult
  pub operation : CompletionOperation
  pub strategy : Strategy
  pub closure : Option BlobDatum
  pub dependencies : List StageDependency
  pub children : List ℕ
  pub when_complete : List CompletionResult
  pub compose_reference : Option ℕ
  pub triggered : Bool
  pub exec_phase : ExecutionPhase

pub data State : Type 0 where
  state_initial state_committed state_terminating state_completed : State

-- `ranges` counts the `range` loops run over the map of stages: each has an order of its own.
pub record CompletionGraph : Type 0 where
  pub id : String
  pub function_id : String
  pub stages : List CompletionStage
  pub state : State
  pub termination_root_result : Option CompletionResult
  pub termination_chain_head : Option ℕ
  pub ranges : ℕ

abbrev pub new : String → String → CompletionGraph
new id function_id = record {
  id = id;
  function_id = function_id;
  stages = [];
  state = state_initial;
  termination_root_result = none;
  termination_chain_head = none;
  ranges = 0;
}

-- The observers of a dependency read its result only: both implementations are these.
abbrev pub is_resolved : Option CompletionResult → Bool
is_resolved r = is_some r

abbrev pub is_successful : Option CompletionResult → Bool
is_successful none = false
is_successful (some r) = r.successful

abbrev pub is_failed : Option CompletionResult → Bool
is_failed none = false
is_failed (some r) = not r.successful

-- CompletionStage.IsTriggered
abbrev pub is_triggered : CompletionStage → Bool
is_triggered s = if is_resolved s.result then true else s.triggered

-- `graph.stages[id]`; `none` is the nil pointer of a missing key.
unfoldable pub get_stage : List CompletionStage → ℕ → Option CompletionStage
get_stage [] i = none
get_stage (s ∷ ss) i = if s.id == i then some s else get_stage ss i

-- A write through the pointer to a stage.
unfoldable pub modify_stage :
    (CompletionStage → CompletionStage) → ℕ → List CompletionStage → List CompletionStage
modify_stage f i [] = []
modify_stage f i (s ∷ ss) = if s.id == i then f s ∷ ss else s ∷ modify_stage f i ss

-- `graph.stages[stage.ID] = stage`
unfoldable pub put_stage : CompletionStage → List CompletionStage → List CompletionStage
put_stage t [] = t ∷ []
put_stage t (s ∷ ss) = if s.id == t.id then t ∷ ss else s ∷ put_stage t ss

abbrev pub stage_ids : List CompletionStage → List ℕ
stage_ids = map (λ s. s.id)

-- NextStageID: the number that is printed.
abbrev pub next_stage_id : CompletionGraph → ℕ
next_stage_id g = length g.stages

-- CompletionStage.complete: the first result is kept and told to the future.
unfoldable pub complete : CompletionResult → CompletionStage → CompletionStage
complete r s = elim s.result [
  | none ↦ record s { triggered = true; result = some r; when_complete = s.when_complete ++ r ∷ [] }
  | some old ↦ record s { triggered = true }
]

abbrev pub mark_triggered : CompletionStage → CompletionStage
mark_triggered s = record s { triggered = true }

unfoldable pub add_child : ℕ → CompletionStage → CompletionStage
add_child c s = record s { children = s.children ++ c ∷ [] }

abbrev pub same_phase : ExecutionPhase → ExecutionPhase → Bool
same_phase main_exec_phase main_exec_phase = true
same_phase termination_exec_phase termination_exec_phase = true
same_phase _ _ = false

abbrev pub is_pending : ExecutionPhase → CompletionStage → Bool
is_pending phase s = same_phase s.exec_phase phase && not (is_resolved s.result)

-- getPendingCount; the uint32 does not wrap, since a graph has at most 1000 stages.
abbrev pub get_pending_count : ExecutionPhase → List CompletionStage → ℕ
get_pending_count phase ss = count_if (is_pending phase) ss
