-- ===== src/Actor/Commands/DurableExamples.antt =====
-- A flow that is created and committed, journaled in a database, and its actor started again.
use mathlib.Core.Logic.{inl, inr}
use text.Mathlib.Text.{◌==◌}
use text.Mathlib.TextEquality.{eq_iff}
use completer.Prelude.{
  ℕ, zero, suc, ◌≡◌, refl, ap, ◌∙◌, sym, List, [], ◌∷◌, Option, none, some, Bool, true, false, ◌&&◌,
  if◌then◌else◌, String, done, Ensures, for_each, Bool-cases,
}
use completer.Model.Command.{Command, create_graph, commit_graph}
use completer.Model.Datum.{succeeded, new_successful_result, new_state_datum}
use completer.Model.Event.{
  Event, graph_created, graph_committed, graph_terminating, graph_completed,
}
use completer.Graph.Stage.{new, state_completed}
use completer.Graph.Engine.{
  update_with_event, handle_committed, handle_terminating, handle_completed,
  check_for_execution_finished, trigger_ready_stages, range_stages,
}
use completer.Graph.Validate.{validate_command}
use completer.Persistence.Provider.{enumerate}
use completer.Persistence.Provider.Sql.{
  EventRow, Codec, new_sql_provider, get_events, get_snapshot, persist_event, read_rows,
}
use completer.Persistence.Provider.Sql.Examples.{list_db, list_db-JournalDbLaws}
use completer.Persistence.Mixin.{persist_receive}
use completer.Actor.State.{
  GraphActor, respond_created, deactivate_self, set_receive_timeout, completion_timeout,
  respond_processed,
}
use completer.Actor.Examples.{in_order}
use completer.Actor.Updates.{persist_and_update, persist, update, graph_listener}
use completer.Actor.Commands.{
  start, receive_command, validate_cmd, run_create, run_command, apply_event, is_committed,
}
use completer.Actor.Commands.Invariant.{IsSoundGraph}
use completer.Actor.Commands.Sourcing.{receive_commands}
use completer.Actor.Commands.Restart.{Restarted}
use completer.Actor.Commands.DurableRestart.{start-sql_receive_commands}

-- A codec of the events of one flow's life.
abbrev is_known : String → String → Bool
is_known flow_id function_id = (flow_id == "flow") && (function_id == "app/fn")

abbrev marshal_event : Event → Option (List ℕ)
marshal_event (graph_created f g) = if is_known f g then some (0 ∷ []) else none
marshal_event graph_committed = some (1 ∷ [])
marshal_event (graph_terminating succeeded) = some (2 ∷ [])
marshal_event graph_completed = some (3 ∷ [])
marshal_event _ = none

abbrev event_of : ℕ → Option Event
event_of zero = some (graph_created "flow" "app/fn")
event_of (suc zero) = some graph_committed
event_of (suc (suc zero)) = some (graph_terminating succeeded)
event_of (suc (suc (suc zero))) = some graph_completed
event_of _ = none

abbrev extract_event : List ℕ → Option Event
extract_event (n ∷ []) = event_of n
extract_event _ = none

abbrev life_codec : Codec Event
life_codec = record {
  message_name = λ m. "event";
  marshal = marshal_event;
  extract_data = λ name bytes. extract_event bytes;
}

some-injective : {a b : List ℕ} → some a ≡ some b → a ≡ b
some-injective e = cc

both_true : (a b : Bool) → (a && b) ≡ true → (a ≡ true) × (b ≡ true)
both_true true true h = (refl, refl)
both_true true false h = absurd (cc)
both_true false b h = absurd (cc)

life_codec_decodes :
    (m : Event) (bytes : List ℕ) → marshal_event m ≡ some bytes → extract_event bytes ≡ some m
life_codec_decodes (graph_created f g) bytes h = elim (Bool-cases (is_known f g)) [
  | inl e ↦
      let (p, q) = both_true (f == "flow") (g == "app/fn") e in
      ap extract_event (sym (some-injective (rw e at h)))
      ∙ ap some (
          ap (λ x. graph_created x "app/fn") (sym ((eq_iff f "flow").0 p))
          ∙ ap (graph_created f) (sym ((eq_iff g "app/fn").0 q)))
  | inr e ↦ absurd (nothing (rw e at h))
]
  where
    nothing : none ≡ some bytes → ⊥
    nothing n = cc
life_codec_decodes graph_committed bytes h = ap extract_event (sym (some-injective h))
life_codec_decodes (graph_terminating succeeded) bytes h = ap extract_event (sym (some-injective h))
life_codec_decodes graph_completed bytes h = ap extract_event (sym (some-injective h))
life_codec_decodes _ bytes h = absurd (cc)

abbrev first_actor : GraphActor (List EventRow)
first_actor = record {
  graph = none;
  host = record {
    mixin = record {
      event_index = 0;
      name = "a";
      recovering = false;
      snapshot_requested = false;
      journal = [];
    };
    sent = [];
  };
}

abbrev commands : List (ℕ × ℕ × Command)
commands = (1, 1, create_graph "app/fn") ∷ (2, 2, commit_graph) ∷ []

abbrev row : ℕ → EventRow
row i = record { actor_name = "a"; event_type = "event"; event_index = i; event = i ∷ [] }

abbrev rows : List EventRow
rows = row 0 ∷ row 1 ∷ row 2 ∷ row 3 ∷ []

abbrev life : List Event
life =
    graph_created "flow" "app/fn"
    ∷ graph_committed
    ∷ graph_terminating succeeded
    ∷ graph_completed
    ∷ []

abbrev lost : GraphActor (List EventRow)
lost = record {
  graph = some (record (new "flow" "app/fn") {
    state = state_completed;
    termination_root_result = some (new_successful_result (new_state_datum succeeded));
    ranges = 1;
  });
  host = record {
    mixin = record first_actor.host.mixin { event_index = 4; journal = rows };
    sent =
        respond_created "flow"
        ∷ deactivate_self
        ∷ set_receive_timeout completion_timeout
        ∷ respond_processed
        ∷ [];
  };
}

lost_returned :
    receive_commands (new_sql_provider life_codec list_db 1000) in_order "flow" commands first_actor
    ≡ done lost
unfolding receive_commands receive_command validate_cmd run_create run_command apply_event
    is_committed persist_and_update persist update graph_listener update_with_event handle_committed
    handle_terminating handle_completed check_for_execution_finished trigger_ready_stages
    range_stages validate_command persist_receive persist_event new_sql_provider for_each
lost_returned = refl

no_snapshot : get_snapshot life_codec list_db "a" rows ≡ none
unfolding get_snapshot
no_snapshot = refl

life_read : get_events life_codec list_db "a" 0 rows ≡ (enumerate 0 life, none)
unfolding get_events read_rows enumerate
life_read = refl

abbrev new_again : GraphActor (List EventRow)
new_again = record first_actor {
  host = record first_actor.host { mixin = record first_actor.host.mixin { journal = rows } };
}

start-sql_receive_commands_example :
    Restarted
      (new_sql_provider life_codec list_db 1000)
      in_order
      2004
      "a"
      life
      new_again
      lost.graph
      (start (new_sql_provider life_codec list_db 1000) in_order 2005 9 "a" new_again)
    × Ensures
        (λ d. IsSoundGraph d.graph)
        (start (new_sql_provider life_codec list_db 1000) in_order 2005 9 "a" new_again)
start-sql_receive_commands_example =
    start-sql_receive_commands life_codec list_db (λ d. d) list_db-JournalDbLaws life_codec_decodes
      1000 9 in_order "flow" commands life first_actor lost new_again refl refl refl lost_returned
      no_snapshot refl life_read (tt, (tt, (tt, (tt, tt)))) refl refl
