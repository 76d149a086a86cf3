-- ===== src/Actor/Commands.antt =====
-- The commands, replayed events and messages of a graph actor (actor/graph.go).
pub mod Soundness
pub mod Answers
pub mod Handling
pub mod Invariant
pub mod Following
pub mod Sourcing
pub mod Replaying
pub mod Recovering
pub mod Restart
pub mod DurableRestart
pub mod DurableExamples
pub mod Examples
use completer.Prelude.{
  ℕ, ◌+◌, ◌-◌, String, List, [], map, Option, none, some, Bool, true, false, if◌then◌else◌, Outcome,
  done, panicked, nil_dereference, graph_not_initialized, ◌>>=◌,
}
use completer.Model.Event.{
  Event, CompletionOperation, completed_value, delay, graph_created, graph_committed,
  delay_scheduled, stage_added, stage_completed, faas_invocation_started, faas_invocation_completed,
}
use completer.Model.Event
use completer.Model.Command.{
  Command, create_graph, get_graph_state, commit_graph, deactivate_graph, add_stage,
  add_completed_value_stage, add_delay_stage, add_invoke_function_stage, complete_stage_externally,
  await_stage_result, complete_delay_stage, faas_invocation_response, graph_already_exists,
  graph_not_found, FlowError,
}
use completer.Graph.Stage.{
  CompletionStage, CompletionGraph, StageDependency, on_stage, termination_root, State,
  state_initial, state_completed, new, next_stage_id, get_stage, is_resolved, is_failed,
  is_successful, is_triggered,
}
use completer.Graph.Engine.{World, recover}
use completer.Graph.Validate.{validate_command}
use completer.Persistence.Provider.{ProviderState}
use completer.Persistence.Mixin.{Mixin, persist_receive, init}
use completer.Actor.State.{
  Status, failed, successful, running, pending, StageRepresentation, completion_timeout,
  read_timeout, commit_timeout, Message, respond_error, respond_created, respond_state,
  respond_added, respond_completed_externally, respond_processed, await_future, invoke_function,
  complete_delay, deactivate_parent, set_receive_timeout, graceful_stop, Host, GraphActor, send,
}
use completer.Actor.Updates.{persist, persist_and_update, graph_listener, update}

-- The status that createExternalState gives a stage.
unfoldable pub stage_status : CompletionStage → Status
stage_status s =
    if is_failed s.result
    then failed
    else if is_successful s.result
    then successful
    else if is_triggered s
    then running
    else pending

-- GetID of a dependency; `none` is the ID "_termination" of the raw dependency.
unfoldable pub dependency_id : StageDependency → Option ℕ
dependency_id (on_stage i) = some i
dependency_id termination_root = none

unfoldable pub stage_representation : CompletionStage → StageRepresentation
unfolding stage_status dependency_id
stage_representation s = record {
  id = s.id;
  type = s.operation;
  status = stage_status s;
  dependencies = map dependency_id s.dependencies;
}

unfoldable pub create_external_state : CompletionGraph → List StageRepresentation
unfolding stage_representation
create_external_state g = map stage_representation g.stages

unfoldable pub is_committed : State → Bool
is_committed state_initial = false
is_committed _ = true

unfoldable pub is_completed : State → Bool
is_completed state_completed = true
is_completed _ = false

-- The delay that scheduleDelay waits for before it sends the completion to the actor itself; `now`
-- is its reading of the clock.
unfoldable pub schedule_delay : {J : Type 0} → (now stage_id time_ms : ℕ) → Host J → Host J
schedule_delay now stage_id time_ms h = send (complete_delay stage_id (time_ms - now)) h

-- validateCmd: the error to respond with, if any.
unfoldable pub validate_cmd : Option CompletionGraph → Command → Option FlowError
validate_cmd none (create_graph f) = none
validate_cmd (some g) (create_graph f) = some graph_already_exists
validate_cmd none c = some graph_not_found
validate_cmd (some g) c = validate_command g c

module _ {J : Type 0} (P : ProviderState Event J) (range : ℕ → List ℕ → List ℕ) (fuel : ℕ) where
  abbrev respond : Message → World (Host J) → Outcome (World (Host J))
  respond m w = done (record w { host = send m w.host })

  -- persistAndUpdateGraph with the actor as the graph's listener.
  unfoldable pub apply_event : Event → World (Host J) → Outcome (World (Host J))
  unfolding persist_and_update
  apply_event e w = persist_and_update P range (update P range fuel) e w

  abbrev add_plain_stage : CompletionOperation → World (Host J) → Outcome (World (Host J))
  add_plain_stage op w =
      apply_event
        (stage_added
          (record { stage_id = next_stage_id w.graph; op = op; closure = none; dependencies = [] }))
        w

  -- The cases of receiveCommand for a validated command on a graph. `now` is the clock when the
  -- command is handled, and `later` when a delay is scheduled.
  unfoldable pub run_command : (now later : ℕ) → Command → World (Host J) → Outcome (World (Host J))
  unfolding apply_event create_external_state is_committed schedule_delay
  run_command now later get_graph_state w =
      respond (respond_state (create_external_state w.graph)) w
  run_command now later (add_stage m) w =
      let id = next_stage_id w.graph in
      (apply_event
          (stage_added (record {
            stage_id = id;
            op = m.operation;
            closure = m.closure;
            dependencies = m.deps;
          }))
          w
        >>= respond (respond_added id))
  run_command now later (add_completed_value_stage value) w =
      let id = next_stage_id w.graph in
      (add_plain_stage completed_value w
        >>= apply_event (stage_completed id value)
        >>= respond (respond_added id))
  run_command now later (add_delay_stage delay_ms) w =
      let id = next_stage_id w.graph in
      (add_plain_stage delay w >>= persist P range (delay_scheduled id (now + delay_ms)) >>= λ v.
      done (record v { host = schedule_delay later id (now + delay_ms) v.host })
      >>= respond (respond_added id))
  run_command now later (add_invoke_function_stage function_id arg) w =
      let id = next_stage_id w.graph in
      (add_plain_stage Event.invoke_function w
        >>= persist P range (faas_invocation_started id function_id)
        >>= respond (invoke_function id function_id arg)
        >>= respond (respond_added id))
  run_command now later (complete_stage_externally i value) w = elim (get_stage w.graph.stages i) [
    | none ↦ panicked nil_dereference
    | some s ↦
        if is_resolved s.result
        then respond (respond_completed_externally i false) w
        else (apply_event (stage_completed i value) w
            >>= respond (respond_completed_externally i true))
  ]
  run_command now later commit_graph w =
      if is_committed w.graph.state
      then respond respond_processed w
      else (apply_event graph_committed w
          >>= respond (set_receive_timeout completion_timeout)
          >>= respond respond_processed)
  run_command now later (await_stage_result i) w = elim (get_stage w.graph.stages i) [
    | none ↦ panicked nil_dereference
    | some s ↦ respond (await_future i) w
  ]
  run_command now later (complete_delay_stage i result) w = elim (get_stage w.graph.stages i) [
    | none ↦ apply_event (stage_completed i result) w
    | some s ↦ if is_resolved s.result then done w else apply_event (stage_completed i result) w
  ]
  run_command now later (faas_invocation_response i result call_id) w =
      apply_event (faas_invocation_completed i result call_id) w
  run_command now later deactivate_graph w = respond deactivate_parent w
  run_command now later (create_graph f) w = done w

  abbrev actor_of : World (Host J) → Outcome (GraphActor J)
  actor_of w = done (record { graph = some w.graph; host = w.host })

  -- The case of CreateGraphRequest.
  unfoldable pub run_create : (flow_id function_id : String) → Host J → Outcome (GraphActor J)
  run_create flow_id function_id h =
      persist_receive P (graph_created flow_id function_id) h.mixin >>= λ x. done (record {
        graph = some (new flow_id function_id);
        host = send (respond_created flow_id) (record h { mixin = x });
      })

  abbrev on_graph :
      (World (Host J) → Outcome (World (Host J))) → GraphActor J → Outcome (GraphActor J)
  on_graph f a = elim a.graph [
    | none ↦ panicked graph_not_initialized
    | some g ↦ f (record { graph = g; host = a.host }) >>= actor_of
  ]

  abbrev dispatch_command :
      (now later : ℕ) (flow_id : String) → Command → GraphActor J → Outcome (GraphActor J)
  dispatch_command now later flow_id (create_graph function_id) a =
      run_create flow_id function_id a.host
  dispatch_command now later flow_id c a = on_graph (run_command now later c) a

  -- receiveCommand: a command that is not valid is answered with an error and changes nothing else.
  unfoldable pub receive_command :
      (now later : ℕ) (flow_id : String) → Command → GraphActor J → Outcome (GraphActor J)
  unfolding validate_cmd run_command run_create
  receive_command now later flow_id c a = elim (validate_cmd a.graph c) [
    | some e ↦ done (record a { host = send (respond_error e) a.host })
    | none ↦ dispatch_command now later flow_id c a
  ]

  -- receiveEvent, for the events that are replayed from the journal. `now` is the clock.
  unfoldable pub receive_event : (now : ℕ) → Event → GraphActor J → Outcome (GraphActor J)
  unfolding schedule_delay
  receive_event now (graph_created flow_id function_id) a =
      done (record a { graph = some (new flow_id function_id) })
  receive_event now (delay_scheduled i time_ms) a =
      done (record a { host = schedule_delay now i time_ms a.host })
  receive_event now e a = on_graph (update P range fuel e false) a

  -- receiveMessage on ReplayComplete.
  unfoldable pub replay_complete : GraphActor J → Outcome (GraphActor J)
  unfolding is_completed
  replay_complete a = elim a.graph [
    | none ↦ done a
    | some g ↦
        recover range (graph_listener P range (update P range fuel))
          (record { graph = g; host = a.host })
        >>= λ v.
            respond
              (set_receive_timeout
                (if is_completed v.graph.state then read_timeout else completion_timeout))
              v
            >>= actor_of
  ]

  -- receiveMessage on ReceiveTimeout: an actor with a graph asks its parent to be deactivated.
  unfoldable pub receive_timeout : GraphActor J → GraphActor J
  receive_timeout a = elim a.graph [
    | none ↦ record a { host = send graceful_stop a.host }
    | some g ↦ record a { host = send deactivate_parent a.host }
  ]

  -- receiveMessage on Started.
  unfoldable pub started : GraphActor J → GraphActor J
  started a = record a { host = send (set_receive_timeout commit_timeout) a.host }

  abbrev pub actor_mixin : GraphActor J → Mixin J
  actor_mixin a = a.host.mixin

  abbrev pub set_actor_mixin : Mixin J → GraphActor J → GraphActor J
  set_actor_mixin x a = record a { host = record a.host { mixin = x } }

  -- The start of an actor: Started, then the replay of its journal by the persistence mixin.
  unfoldable pub start : (now : ℕ) (name : String) → GraphActor J → Outcome (GraphActor J)
  unfolding init started receive_event replay_complete
  start now name a =
      init P actor_mixin set_actor_mixin name (receive_event now) replay_complete (started a)
