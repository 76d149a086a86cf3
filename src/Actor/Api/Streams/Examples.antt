-- ===== src/Actor/Api/Streams/Examples.antt =====
-- A stream of a flow's events that has received one, and a stream of the lifecycle events of two
-- flows.
use completer.Prelude.{
  ◌≤◌, ◌≡◌, ◌≢◌, refl, String, [], ◌∷◌, ◌++◌, length, Option, some, true, false, ◌⊎◌, itoa,
  contains,
}
use mathlib.Core.List.{Sublist}
use completer.Sharding.{Uuid, shard_id}
use completer.Model.Event.{Event, graph_created, graph_committed}
use completer.Model.Stream.{GraphStreamEvent, to_graph_stream_event, is_lifecycle_source}
use completer.Persistence.Streaming.{StreamEvent}
use completer.Actor.Api.{event_buffer_size, graph_actor_path, supervisor_name}
use completer.Actor.Api.Streams.{
  EventStream, EventReach, LifecycleStream, LifecycleReach, new_event_stream, new_lifecycle_stream,
  on_event, send_event, on_lifecycle_event, has_room, is_graph_lifecycle_event, running,
}
use completer.Actor.Api.Streams.Invariant.{stream_events, lifecycle_events, EventReach-IsKept}
use completer.Actor.Api.Streams.Closing.{is_closing, EventReach-is_closing}
use completer.Actor.Api.Streams.Returning.{Ends, EventReach-Ends}
use completer.Actor.Api.Streams.Lifecycle.{
  LifecycleReach-IsKept, is_graph_lifecycle_event-graph_actor_path,
}

abbrev committed : StreamEvent Event
committed = record { actor_name = "supervisor-3/flow"; event_index = 2; event = graph_committed }

abbrev received : EventStream
received = on_event "flow" committed new_event_stream

receiving : EventReach "flow" (committed ∷ []) received
receiving = EventReach.called_back committed EventReach.start refl

abbrev waiting : GraphStreamEvent
waiting = to_graph_stream_event "flow" graph_committed 2

-- The event cannot be sent.
abbrev unsent : EventStream
unsent = send_event false waiting [] received

losing : EventReach "flow" (committed ∷ []) unsent
unfolding on_event has_room
losing = EventReach.taken false waiting [] receiving refl refl refl

event_lost : unsent.sent ++ unsent.buffer ≢ stream_events "flow" (committed ∷ [])
unfolding send_event on_event has_room
event_lost = λ e. cc e

EventReach-Ends_example : Ends unsent
EventReach-Ends_example = EventReach-Ends losing event_lost

EventReach-IsKept_example :
    (length received.buffer ≤ event_buffer_size)
    × Sublist (received.sent ++ received.buffer) (stream_events "flow" (committed ∷ []))
EventReach-IsKept_example = EventReach-IsKept receiving

EventReach-is_closing_example :
    (is_closing received ≡ true)
    ⊎ ((received.event_loop ≡ running)
        × (received.sent ++ received.buffer ≡ stream_events "flow" (committed ∷ [])))
EventReach-is_closing_example = EventReach-is_closing receiving

abbrev created : StreamEvent Event
created = record {
  actor_name = "supervisor-3/flow";
  event_index = 0;
  event = graph_created "flow" "app/fn";
}

abbrev other_created : StreamEvent Event
other_created = record {
  actor_name = "supervisor-3/other";
  event_index = 0;
  event = graph_created "other" "app/fn";
}

-- Two flows are created.
abbrev created_both : LifecycleStream
created_both =
    on_lifecycle_event "other" other_created
      (on_lifecycle_event "flow" created new_lifecycle_stream)

creating_both : LifecycleReach (("flow", created) ∷ ("other", other_created) ∷ []) created_both
unfolding on_lifecycle_event has_room is_graph_lifecycle_event is_lifecycle_source contains
creating_both =
    LifecycleReach.called_back "other" other_created
      (LifecycleReach.called_back "flow" created LifecycleReach.start refl) refl

LifecycleReach-IsKept_example :
    (length created_both.buffer ≤ event_buffer_size)
    × Sublist
        (created_both.sent ++ created_both.buffer)
        (lifecycle_events (("flow", created) ∷ ("other", other_created) ∷ []))
LifecycleReach-IsKept_example = LifecycleReach-IsKept creating_both

abbrev parse_one : String → Option Uuid
parse_one s = some (record { first = 5 ∷ []; last = 6 ∷ [] })

shard_known : shard_id parse_one 4 "flow" ≡ some 3
unfolding shard_id
shard_known = refl

path_known : graph_actor_path parse_one 4 "flow" ≡ some "supervisor-3/flow"
unfolding graph_actor_path shard_id supervisor_name itoa
path_known = refl

is_graph_lifecycle_event-graph_actor_path_example :
    (is_graph_lifecycle_event created ≡ is_lifecycle_source (graph_created "flow" "app/fn"))
    × (is_graph_lifecycle_event (record created { actor_name = supervisor_name 3 }) ≡ false)
is_graph_lifecycle_event-graph_actor_path_example =
    is_graph_lifecycle_event-graph_actor_path parse_one 4 "flow" "supervisor-3/flow" 3 0
      (graph_created "flow" "app/fn") shard_known path_known
