-- ===== src/Actor/Examples.antt =====
-- The theorems on the actors (actor/) applied to a small flow and to a run of a supervisor.
use completer.Prelude.{ℕ, ◌≡◌, refl, String, List, [], ◌∷◌, some, Bool, true, false, Ensures, arith}
use completer.Model.Datum
use completer.Model.Datum.{CompletionResult}
use completer.Model.Event.{Event, stage_completed, supply}
use completer.Graph.Engine.{World}
use completer.Graph.Progress.Listener.{Moves}
use completer.Graph.Examples.{flow}
use completer.Persistence.Provider.{ProviderState, Store, new_in_memory_provider}
use completer.Actor.State.{Host, GraphActor, Message, replies}
use completer.Actor.Commands.Answers.{accepts}
use completer.Actor.Commands.{receive_command}
use completer.Actor.Commands.Invariant.{
  IsSoundGraph, receive_command-IsSoundGraph, receive_command-Answered,
}
use completer.Actor.Updates.{update}
use completer.Actor.Updates.Growth.{Grows}
use completer.Actor.Updates.Settling.{IsSettled, update-IsSettled}
use completer.Model.Command.{AddStage, add_stage}
use completer.Graph.Validate.Acceptance.{IsNumbered}
use completer.Actor.Updates.Total.{update-Moves}
use completer.Actor.Supervisor.{
  LifecycleEvent, Request, create_graph, deactivate_graph, graph_message, terminated,
  replay_complete, run, replay,
}
use completer.Actor.Supervisor.Recovery.{empty, replay-run}

abbrev pub provider : ProviderState Event (Store Event)
provider = new_in_memory_provider 1000

-- A map is ranged over in the order of insertion.
abbrev pub in_order : ℕ → List ℕ → List ℕ
in_order n keys = keys

abbrev running : World (Host (Store Event))
running = record {
  graph = flow;
  host = record {
    mixin = record {
      event_index = 4;
      name = "supervisor/flow";
      recovering = false;
      snapshot_requested = false;
      journal = [];
    };
    sent = [];
  };
}

abbrev pub value : CompletionResult
value = record { successful = true; datum = Datum.empty }

update-Moves_example :
    Ensures
      (Moves (Grows provider) running)
      (update provider in_order 9 (stage_completed 0 value) true running)
update-Moves_example =
    update-Moves provider in_order 9 (stage_completed 0 value) true running (omega arith) tt

update-IsSettled_example :
    Ensures IsSettled (update provider in_order 9 (stage_completed 0 value) true running)
update-IsSettled_example =
    update-IsSettled provider in_order 9 (stage_completed 0 value) true running (omega arith) refl
      tt

running-IsNumbered : IsNumbered running.graph.stages
running-IsNumbered = (omega arith, (omega arith, tt))

-- A request to supply one more value.
abbrev request : AddStage
request = record {
  operation = supply;
  closure = some (record { blob_id = "b2"; content_type = "text/plain"; length = 4 });
  deps = [];
}

-- The actor of the flow, and a command to it.
abbrev owner : GraphActor (Store Event)
owner = record { graph = some flow; host = running.host }

receive_command-IsSoundGraph_example :
    Ensures
      (λ b. IsSoundGraph b.graph)
      (receive_command provider in_order 2005 100 101 "flow" (add_stage request) owner)
receive_command-IsSoundGraph_example =
    receive_command-IsSoundGraph provider in_order 100 101 "flow" (add_stage request) owner
      (running-IsNumbered, omega arith)

abbrev always : String → List String → Bool
always name children = true

abbrev requests : List Request
requests =
    create_graph "a"
    ∷ create_graph "b"
    ∷ graph_message "a"
    ∷ deactivate_graph "a"
    ∷ terminated (some "a")
    ∷ replay_complete
    ∷ []

-- The third event cannot be persisted.
abbrev two_persisted : LifecycleEvent → List LifecycleEvent → Bool
two_persisted e (first ∷ second ∷ rest) = false
two_persisted e _ = true

replay-run_example :
    replay (run always two_persisted requests empty).journal []
    ≡ (run always two_persisted requests empty).active_graphs
replay-run_example = replay-run always two_persisted requests

receive_command-Answered_example :
    Ensures
      (λ b.
        (ms : List Message) × (replies b.host.sent ≡ ms) × (accepts (add_stage request) ms ≡ true))
      (receive_command provider in_order 2005 100 101 "flow" (add_stage request) owner)
receive_command-Answered_example =
    receive_command-Answered provider in_order 100 101 "flow" (add_stage request) owner
      (running-IsNumbered, omega arith)
