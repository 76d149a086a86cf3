-- ===== src/Graph/Validate/Addition.antt =====
-- A request to add a stage that ValidateCommand accepts, as UpdateWithEvent applies its event
-- (graph/graph.go): handleStageAdded, or handleAddTerminationHook for a termination hook.
use completer.Prelude.{
  ℕ, suc, ◌≤◌, ◌≡◌, List, [], ◌∷◌, ◌++◌, Option, none, some, if◌then◌else◌, length,
}
use completer.Model.Command.{AddStage}
use completer.Graph.Stage.{CompletionStage, CompletionGraph, modify_stage, next_stage_id, Strategy}
use completer.Graph.Engine
use completer.Graph.Engine.{is_termination_hook, depend_on, add_children}
use completer.Graph.Validate.{max_stages}
use completer.Graph.Validate.Acceptance.{IsNumbered}

-- The older stages, when the head of the chain of hooks depends on a new one.
abbrev pub rechained : ℕ → Option ℕ → List CompletionStage → List CompletionStage
rechained i none ss = ss
rechained i (some old) ss = modify_stage (depend_on i) old ss

-- What adding a stage makes of a graph.
pub record Added (m : AddStage) (g k : CompletionGraph) : Type 0 where
  pub stage : CompletionStage
  pub old : List CompletionStage
  pub stages : k.stages ≡ old ++ stage ∷ []
  pub kept : old ≡ (
      if is_termination_hook m.operation
      then rechained (next_stage_id g) g.termination_chain_head g.stages
      else add_children (next_stage_id g) m.deps g.stages)
  pub head : k.termination_chain_head ≡ (
      if is_termination_hook m.operation then some (next_stage_id g) else g.termination_chain_head)
  pub key : stage.id ≡ next_stage_id g
  pub unresolved : stage.result ≡ none
  pub operation : stage.operation ≡ m.operation
  pub same_state : k.state ≡ g.state
  pub size : length k.stages ≡ suc (length g.stages)
  pub room : length k.stages ≤ max_stages
  pub numbered : IsNumbered k.stages
