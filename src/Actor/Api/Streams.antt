-- ===== src/Actor/Api/Streams.antt =====
-- The streams that a client opens on a node (StreamLifecycle and StreamEvents of actor/api.go), up
-- to the return of the call. Persisted events are put in a channel of bounded size by a callback
-- that does not wait, and are sent to the client from there.
pub mod Invariant
pub mod Buffering
pub mod Closing
pub mod Returning
pub mod Lifecycle
pub mod Examples
use completer.Prelude.{
  ℕ, String, List, [], ◌∷◌, ◌++◌, length, ltb, ◌==◌, Option, none, some, Bool, true, false, ◌&&◌,
  if◌then◌else◌, ◌≡◌, contains,
}
use completer.Model.Event.{Event}
use completer.Model.Stream.{
  is_lifecycle_source, GraphLifecycleEvent, graph_lifecycle_event, GraphStreamEvent,
  to_graph_stream_event,
}
use completer.Persistence.Streaming.{StreamEvent}
use completer.Actor.Api.{event_buffer_size}

-- isGraphLifecycleEvent; 47 is the code of "/".
unfoldable pub is_graph_lifecycle_event : StreamEvent Event → Bool
unfolding is_lifecycle_source
is_graph_lifecycle_event e = is_lifecycle_source e.event && contains 47 e.actor_name

-- How a stream ends: with a nil error, or with one of its errors.
pub data Ending : Type 0 where
  no_error buffer_exceeded send_failed : Ending

-- Whether a channel of `event_buffer_size` places has one left.
unfoldable pub has_room : {A : Type 0} → List A → Bool
has_room buffer = ltb (length buffer) event_buffer_size

-- StreamLifecycle: the channel, what was sent, and what the call has returned.
pub record LifecycleStream : Type 0 where
  pub buffer : List GraphLifecycleEvent
  pub sent : List GraphLifecycleEvent
  pub returned : Option Ending

abbrev pub new_lifecycle_stream : LifecycleStream
new_lifecycle_stream = record { buffer = []; sent = []; returned = none }

-- The callback of StreamLifecycle, behind its predicate, with the flow ID that the event carries.
unfoldable pub on_lifecycle_event :
    (flow_id : String) → StreamEvent Event → LifecycleStream → LifecycleStream
unfolding is_graph_lifecycle_event graph_lifecycle_event has_room
on_lifecycle_event flow_id e s =
    if is_graph_lifecycle_event e
    then (if has_room s.buffer
        then record s {
          buffer = s.buffer ++ graph_lifecycle_event flow_id e.event e.event_index ∷ [];
        }
        else s)
    else s

-- The state of the goroutine that sends: in its loop, after the loop with an error, and over.
pub data EventLoop : Type 0 where
  running : EventLoop
  stopping : Ending → EventLoop
  over : EventLoop

-- StreamEvents: `done` is the channel of one place; `subscribed`, whether SubscribeActorJournal has
-- returned, which replays the journal to the callback before.
pub record EventStream : Type 0 where
  pub buffer : List GraphStreamEvent
  pub sent : List GraphStreamEvent
  pub done : Option Ending
  pub subscribed : Bool
  pub event_loop : EventLoop
  pub returned : Option Ending

abbrev pub new_event_stream : EventStream
new_event_stream = record {
  buffer = [];
  sent = [];
  done = none;
  subscribed = false;
  event_loop = running;
  returned = none;
}

-- `select { case done <- err: default: }`
unfoldable pub offered : Ending → Option Ending → Option Ending
offered err none = some err
offered err (some e) = some e

abbrev pub offer_done : Ending → EventStream → EventStream
offer_done err s = record s { done = offered err s.done }

-- The callback of StreamEvents.
unfoldable pub on_event : (flow_id : String) → StreamEvent Event → EventStream → EventStream
unfolding has_room to_graph_stream_event
on_event flow_id e s =
    if has_room s.buffer
    then record s { buffer = s.buffer ++ to_graph_stream_event flow_id e.event e.event_index ∷ [] }
    else offer_done buffer_exceeded s

-- stream.Send of an event that was taken from the channel.
unfoldable pub send_event :
    (sent_ok : Bool) → GraphStreamEvent → List GraphStreamEvent → EventStream → EventStream
send_event sent_ok e rest s =
    if sent_ok
    then record s { buffer = rest; sent = s.sent ++ e ∷ [] }
    else record s { buffer = rest; event_loop = stopping send_failed }

unfoldable pub send_lifecycle :
    (sent_ok : Bool)
    → GraphLifecycleEvent
    → List GraphLifecycleEvent
    → LifecycleStream
    → LifecycleStream
send_lifecycle sent_ok e rest s =
    if sent_ok
    then record s { buffer = rest; sent = s.sent ++ e ∷ [] }
    else record s { buffer = rest; returned = some send_failed }

-- What may happen in a call of StreamLifecycle, which is for all flows of the node, with the events
-- that have been called back, each with the ID of its own flow.
pub data LifecycleReach : List (String × StreamEvent Event) → LifecycleStream → Type 0 where
  start : LifecycleReach [] new_lifecycle_stream
  called_back :
      {es : List (String × StreamEvent Event)} {s : LifecycleStream} (flow_id : String)
      (e : StreamEvent Event)
      → LifecycleReach es s
      → s.returned ≡ none
      → LifecycleReach (es ++ (flow_id, e) ∷ []) (on_lifecycle_event flow_id e s)
  taken :
      {es : List (String × StreamEvent Event)} {s : LifecycleStream} (sent_ok : Bool)
      (e : GraphLifecycleEvent) (rest : List GraphLifecycleEvent)
      → LifecycleReach es s
      → s.returned ≡ none
      → s.buffer ≡ e ∷ rest
      → LifecycleReach es (send_lifecycle sent_ok e rest s)
  client_closed :
      {es : List (String × StreamEvent Event)} {s : LifecycleStream}
      → LifecycleReach es s
      → s.returned ≡ none
      → LifecycleReach es (record s { returned = some no_error })

-- What may happen in a call of StreamEvents, with the events that have been called back.
pub data EventReach (flow_id : String) : List (StreamEvent Event) → EventStream → Type 0 where
  start : EventReach flow_id [] new_event_stream
  called_back :
      {es : List (StreamEvent Event)} {s : EventStream} (e : StreamEvent Event)
      → EventReach flow_id es s
      → s.returned ≡ none
      → EventReach flow_id (es ++ e ∷ []) (on_event flow_id e s)
  taken :
      {es : List (StreamEvent Event)} {s : EventStream} (sent_ok : Bool) (e : GraphStreamEvent)
      (rest : List GraphStreamEvent)
      → EventReach flow_id es s
      → s.returned ≡ none
      → s.event_loop ≡ running
      → s.buffer ≡ e ∷ rest
      → EventReach flow_id es (send_event sent_ok e rest s)
  client_closed :
      {es : List (StreamEvent Event)} {s : EventStream}
      → EventReach flow_id es s
      → s.returned ≡ none
      → s.event_loop ≡ running
      → EventReach flow_id es (record s { event_loop = stopping no_error })
  done_taken :
      {es : List (StreamEvent Event)} {s : EventStream} (err : Ending)
      → EventReach flow_id es s
      → s.returned ≡ none
      → s.event_loop ≡ running
      → s.done ≡ some err
      → EventReach flow_id es (record s { done = none; event_loop = stopping err })
  stopped :
      {es : List (StreamEvent Event)} {s : EventStream} (err : Ending)
      → EventReach flow_id es s
      → s.returned ≡ none
      → s.event_loop ≡ stopping err
      → EventReach flow_id es (offer_done err (record s { event_loop = over }))
  journal_subscribed :
      {es : List (StreamEvent Event)} {s : EventStream}
      → EventReach flow_id es s
      → s.returned ≡ none
      → s.subscribed ≡ false
      → EventReach flow_id es (record s { subscribed = true })
  call_returns :
      {es : List (StreamEvent Event)} {s : EventStream} (err : Ending)
      → EventReach flow_id es s
      → s.returned ≡ none
      → s.subscribed ≡ true
      → s.done ≡ some err
      → EventReach flow_id es (record s { done = none; returned = some err })

-- The steps of EventReach that the program makes by itself: neither callbacks nor acts of the client.
pub data OwnStep (s : EventStream) : EventStream → Type 0 where
  taken :
      (sent_ok : Bool) (e : GraphStreamEvent) (rest : List GraphStreamEvent)
      → s.returned ≡ none
      → s.event_loop ≡ running
      → s.buffer ≡ e ∷ rest
      → OwnStep s (send_event sent_ok e rest s)
  done_taken :
      (err : Ending)
      → s.returned ≡ none
      → s.event_loop ≡ running
      → s.done ≡ some err
      → OwnStep s (record s { done = none; event_loop = stopping err })
  stopped :
      (err : Ending)
      → s.returned ≡ none
      → s.event_loop ≡ stopping err
      → OwnStep s (offer_done err (record s { event_loop = over }))
  journal_subscribed :
      s.returned ≡ none → s.subscribed ≡ false → OwnStep s (record s { subscribed = true })
  call_returns :
      (err : Ending)
      → s.returned ≡ none
      → s.subscribed ≡ true
      → s.done ≡ some err
      → OwnStep s (record s { done = none; returned = some err })
