-- ===== src/Graph/Replay.antt =====
-- What a journaled event means to a graph: the state of the flow as a fold of its events, with no
-- trigger, no listener and no order of visits (the structural part of UpdateWithEvent of
-- graph/graph.go, and of receiveEvent of actor/graph.go).
pub mod Forgetting
pub mod Following
pub mod Calls
pub mod Enacting
use completer.Prelude.{
  ℕ, List, [], ◌∷◌, ◌++◌, map, Option, none, some, Bool, true, false, if◌then◌else◌, is_some,
  Outcome, done, panicked, ◌>>=◌, for_each, nil_dereference, graph_not_initialized,
}
use completer.Model.Datum.{
  CompletionResult, StatusDatumType, new_successful_result, new_state_datum,
}
use completer.Model.Event.{
  Event, StageAdded, graph_created, graph_committed, graph_terminating, graph_completed,
  delay_scheduled, stage_added, stage_completed, stage_composed, faas_invocation_started,
  faas_invocation_completed,
}
use completer.Graph.Stage.{
  CompletionStage, CompletionGraph, new, state_committed, state_terminating, state_completed,
  get_stage, modify_stage,
}
use completer.Graph.Engine.{
  add_stage, handle_add_termination_hook, is_termination_hook, compose_with,
}

-- What a journal does not keep: which stages were triggered, and how many loops were run.
unfoldable pub forget_stage : CompletionStage → CompletionStage
forget_stage s = record s { triggered = false }

abbrev pub forget_stages : List CompletionStage → List CompletionStage
forget_stages = map forget_stage

unfoldable pub forget : CompletionGraph → CompletionGraph
unfolding forget_stage
forget g = record g { stages = forget_stages g.stages; ranges = 0 }

-- The first result is kept and told to the future.
unfoldable pub record_result : CompletionResult → CompletionStage → CompletionStage
record_result r s = elim s.result [
  | none ↦ record s { result = some r; when_complete = s.when_complete ++ r ∷ [] }
  | some old ↦ s
]

unfoldable pub modify_existing :
    (CompletionStage → CompletionStage) → ℕ → CompletionGraph → Outcome CompletionGraph
modify_existing f i g =
    if is_some (get_stage g.stages i)
    then done (record g { stages = modify_stage f i g.stages })
    else panicked nil_dereference

-- The outer stage of a composition, if there is one.
unfoldable pub existing : ℕ → List CompletionStage → Option ℕ
existing i ss = if is_some (get_stage ss i) then some i else none

-- The effect of an event on the graph of a flow.
unfoldable pub effect : Event → CompletionGraph → Outcome CompletionGraph
unfolding record_result modify_existing existing
effect graph_committed g = done (record g { state = state_committed })
effect (graph_terminating status) g = done (record g {
  state = state_terminating;
  termination_root_result = some (new_successful_result (new_state_datum status));
})
effect graph_completed g = done (record g { state = state_completed })
effect (stage_added e) g =
    if is_termination_hook e.op
    then handle_add_termination_hook e g
    else (add_stage e g.stages >>= λ ss. done (record g { stages = ss }))
effect (stage_completed i r) g = modify_existing (record_result r) i g
effect (stage_composed outer inner) g =
    modify_existing (compose_with (existing outer g.stages)) inner g
effect (faas_invocation_started i f) g = done g
effect (faas_invocation_completed i r call_id) g = done g
effect (graph_created f function_id) g = done g
effect (delay_scheduled i t) g = done g

-- The effect of an event on a flow that may not have a graph yet.
unfoldable pub replay : Event → Option CompletionGraph → Outcome (Option CompletionGraph)
unfolding effect
replay (graph_created flow_id function_id) o = done (some (new flow_id function_id))
replay (delay_scheduled i t) o = done o
replay e none = panicked graph_not_initialized
replay e (some g) = effect e g >>= λ h. done (some h)

-- Every event but the one that starts a flow.
abbrev pub Continues : Event → Type 0
Continues (graph_created f function_id) = ⊥
Continues _ = Unit

-- The flow that a journal stands for.
unfoldable pub replay_all : List Event → Option CompletionGraph → Outcome (Option CompletionGraph)
unfolding replay
replay_all es o = for_each replay es o
