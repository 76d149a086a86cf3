-- ===== src/Actor/Commands/Examples.antt =====
-- A flow with a value, journaled in memory, and its actor started again.
use completer.Prelude.{
  ℕ, ◌≡◌, refl, List, [], ◌∷◌, none, some, true, false, done, Ensures, All, for_each,
}
use completer.Model.Command.{Command, create_graph, add_completed_value_stage, commit_graph}
use completer.Persistence.Provider.{
  Store, in_memory_get_snapshot, load_or_init, store_entry, in_memory_persist_event,
  new_in_memory_provider,
}
use completer.Model.Datum.{has_valid_value, succeeded, new_successful_result, new_state_datum}
use completer.Model.Event.{
  Event, StageAdded, graph_created, stage_added, stage_completed, graph_committed,
  graph_terminating, graph_completed, completed_value,
}
use completer.Actor.State.{
  GraphActor, respond_created, respond_added, deactivate_self, set_receive_timeout,
  completion_timeout, respond_processed,
}
use completer.Actor.Examples.{provider, in_order, value}
use completer.Actor.Updates.Composition.{ComposesNothing}
use completer.Actor.Updates.{persist_and_update, persist, update, graph_listener}
use completer.Graph.Engine.{
  update_with_event, handle_committed, handle_stage_added, handle_stage_completed,
  handle_terminating, handle_completed, check_for_execution_finished, trigger_ready_stages,
  trigger_ready_stage, range_stages, add_stage, request_trigger, new_stage, validate_stages,
  add_children,
}
use completer.Graph.Stage.{
  CompletionStage, new, state_completed, main_exec_phase, trigger_never, complete_externally,
  propagate_result, no_result_strategy, get_stage, put_stage, modify_stage, complete,
}
use completer.Graph.Strategy.{run_trigger, get_strategy_from_operation, invalid_dependency_count}
use completer.Graph.Validate.{validate_command, can_modify_graph, validate_by_type}
use completer.Persistence.Mixin.{persist_receive}
use completer.Actor.Commands.{
  start, receive_command, validate_cmd, run_create, run_command, apply_event, is_committed,
}
use completer.Actor.Commands.Invariant.{IsSoundGraph}
use completer.Actor.Commands.Sourcing.{Sourced, receive_commands, receive_commands-Sourced}
use completer.Actor.Commands.Restart.{Restarted, stored_events, start-receive_commands}

abbrev pub new_actor : GraphActor (Store Event)
new_actor = record {
  graph = none;
  host = record {
    mixin = record {
      event_index = 0;
      name = "supervisor/flow";
      recovering = false;
      snapshot_requested = false;
      journal = [];
    };
    sent = [];
  };
}

abbrev commands : List (ℕ × ℕ × Command)
commands =
    (1, 1, create_graph "app/fn")
    ∷ (2, 2, add_completed_value_stage value)
    ∷ (3, 3, commit_graph)
    ∷ []

receive_commands-Sourced_example :
    Ensures
      (Sourced provider new_actor)
      (receive_commands provider in_order "flow" commands new_actor)
receive_commands-Sourced_example =
    receive_commands-Sourced provider in_order "flow" commands new_actor tt

-- The stage that the second command adds, and the actor that the commands leave.
abbrev supplied : StageAdded
supplied = record { stage_id = 0; op = completed_value; closure = none; dependencies = [] }

abbrev supplied_stage : CompletionStage
supplied_stage = record {
  id = 0;
  result = some value;
  operation = completed_value;
  strategy = record {
    can_add_children = true;
    takes_closure = false;
    max_dependencies = some 0;
    min_dependencies = 0;
    trigger_strategy = trigger_never;
    success_strategy = complete_externally;
    failure_strategy = propagate_result;
    result_handling_strategy = no_result_strategy;
  };
  closure = none;
  dependencies = [];
  children = [];
  when_complete = value ∷ [];
  compose_reference = none;
  triggered = true;
  exec_phase = main_exec_phase;
}

abbrev journaled : List Event
journaled =
    graph_created "flow" "app/fn"
    ∷ stage_added supplied
    ∷ stage_completed 0 value
    ∷ graph_committed
    ∷ graph_terminating succeeded
    ∷ graph_completed
    ∷ []

abbrev store : Store Event
store = ("supervisor/flow", record { event_index = 0; snapshot = none; events = journaled }) ∷ []

abbrev lost : GraphActor (Store Event)
lost = record {
  graph = some (record (new "flow" "app/fn") {
    stages = supplied_stage ∷ [];
    state = state_completed;
    termination_root_result = some (new_successful_result (new_state_datum succeeded));
    ranges = 3;
  });
  host = record {
    mixin = record new_actor.host.mixin { event_index = 6; journal = store };
    sent =
        respond_created "flow"
        ∷ respond_added 0
        ∷ deactivate_self
        ∷ set_receive_timeout completion_timeout
        ∷ respond_processed
        ∷ [];
  };
}

lost_returned : receive_commands provider in_order "flow" commands new_actor ≡ done lost
unfolding receive_commands receive_command validate_cmd run_create run_command apply_event
    is_committed persist_and_update persist update graph_listener update_with_event handle_committed
    handle_stage_added handle_stage_completed handle_terminating handle_completed
    check_for_execution_finished trigger_ready_stages trigger_ready_stage range_stages add_stage
    new_stage validate_stages add_children get_stage put_stage modify_stage complete
    get_strategy_from_operation invalid_dependency_count validate_command can_modify_graph
    validate_by_type persist_receive load_or_init store_entry in_memory_persist_event
    new_in_memory_provider for_each has_valid_value request_trigger run_trigger
lost_returned = refl

nothing_stored : stored_events "supervisor/flow" new_actor.host.mixin.journal ≡ []
unfolding load_or_init
nothing_stored = refl

no_snapshot : in_memory_get_snapshot "supervisor/flow" lost.host.mixin.journal ≡ none
unfolding in_memory_get_snapshot load_or_init
no_snapshot = refl

none_composed : All ComposesNothing (stored_events "supervisor/flow" lost.host.mixin.journal)
unfolding load_or_init
none_composed = (tt, (tt, (tt, (tt, (tt, (tt, tt))))))

abbrev new_again : GraphActor (Store Event)
new_again = record new_actor {
  host = record new_actor.host { mixin = record new_actor.host.mixin { journal = store } };
}

start-receive_commands_example :
    Restarted provider in_order 2004 "supervisor/flow"
      (stored_events "supervisor/flow" lost.host.mixin.journal)
      new_again
      lost.graph
      (start provider in_order 2005 9 "supervisor/flow" new_again)
    × Ensures
        (λ d. IsSoundGraph d.graph)
        (start provider in_order 2005 9 "supervisor/flow" new_again)
start-receive_commands_example =
    start-receive_commands 1000 9 in_order "flow" commands new_actor lost new_again refl
      nothing_stored lost_returned no_snapshot none_composed refl refl
