-- ===== src/Actor/Api/Streams/Invariant.antt =====
-- What holds in every state of a stream: what is sent, and how the call ends.
use mathlib.Core.List.{Sublist, map-append}
use mathlib.Core.List.Sublist
use completer.Prelude.{
  ◌≤◌, ◌≡◌, refl, String, List, [], ◌∷◌, ◌++◌, map, length, Bool, true, false, inl, inr, Bool-cases,
  arith, if◌then◌else◌,
}
use completer.Model.Event.{Event}
use completer.Model.Stream.{GraphStreamEvent, GraphLifecycleEvent, graph_lifecycle_event}
use completer.Persistence.Streaming.{StreamEvent}
use completer.Actor.Api.{event_buffer_size}
use completer.Actor.Api.Streams.{
  EventStream, EventReach, on_event, send_event, is_graph_lifecycle_event, has_room,
}
use completer.Actor.Api.Streams.Buffering.{
  stream_event, IsKept, IsKept-buffer, IsKept-skip, IsKept-send, IsKept-drop,
}

-- The stream events of a list, and the lifecycle events of one, each with its flow's ID.
abbrev pub stream_events : (flow_id : String) → List (StreamEvent Event) → List GraphStreamEvent
stream_events flow_id es = map (stream_event flow_id) es

abbrev pub lifecycle_events : List (String × StreamEvent Event) → List GraphLifecycleEvent
lifecycle_events [] = []
lifecycle_events ((flow_id, e) ∷ es) =
    let rest = lifecycle_events es in
    if is_graph_lifecycle_event e
    then graph_lifecycle_event flow_id e.event e.event_index ∷ rest
    else rest

pub lifecycle_events-append :
    (es fs : List (String × StreamEvent Event))
    → lifecycle_events (es ++ fs) ≡ lifecycle_events es ++ lifecycle_events fs
lifecycle_events-append [] fs = refl
lifecycle_events-append ((flow_id, e) ∷ es) fs = ground (arith, lifecycle_events-append es fs)

abbrev IsKeptEvents : String → List (StreamEvent Event) → EventStream → Type 0
IsKeptEvents flow_id es s = IsKept s.sent s.buffer (stream_events flow_id es)

IsKept-on_event :
    (flow_id : String) (es : List (StreamEvent Event)) (e : StreamEvent Event) (s : EventStream)
    → IsKeptEvents flow_id es s
    → IsKeptEvents flow_id (es ++ e ∷ []) (on_event flow_id e s)
unfolding on_event
IsKept-on_event flow_id es e s k = elim (Bool-cases (has_room s.buffer)) [
  | inl q ↦
      rw (q, map-append (stream_event flow_id))
        (IsKept-buffer s.sent s.buffer _ (stream_event flow_id e) q k)
  | inr q ↦
      rw (q, map-append (stream_event flow_id))
        (IsKept-skip s.sent s.buffer _ (stream_event flow_id e) k)
]

IsKept-send_event :
    (sent_ok : Bool) (e : GraphStreamEvent) (rest produced : List GraphStreamEvent)
    (s : EventStream)
    → s.buffer ≡ e ∷ rest
    → IsKept s.sent s.buffer produced
    → IsKept (send_event sent_ok e rest s).sent (send_event sent_ok e rest s).buffer produced
unfolding send_event
IsKept-send_event true e rest produced s b k = IsKept-send s.sent rest s.buffer produced e b k
IsKept-send_event false e rest produced s b k = IsKept-drop s.sent rest s.buffer produced e b k

-- In every state of a stream of a flow's events, at most a thousand events wait to be sent, and
-- those that were sent or wait are some of the events of the callbacks, in their order, each with
-- its index.
pub EventReach-IsKept :
    {flow_id : String} {es : List (StreamEvent Event)} {s : EventStream}
    → EventReach flow_id es s
    → (length s.buffer ≤ event_buffer_size)
      × Sublist (s.sent ++ s.buffer) (stream_events flow_id es)
EventReach-IsKept EventReach.start = (omega arith, Sublist.refl [])
EventReach-IsKept {flow_id} (EventReach.called_back {es} {s} e r q) =
    IsKept-on_event flow_id es e s (EventReach-IsKept r)
EventReach-IsKept (EventReach.taken {s} sent_ok e rest r q l b) =
    IsKept-send_event sent_ok e rest _ s b (EventReach-IsKept r)
EventReach-IsKept (EventReach.client_closed r q l) = EventReach-IsKept r
EventReach-IsKept (EventReach.done_taken err r q l d) = EventReach-IsKept r
EventReach-IsKept (EventReach.stopped err r q l) = EventReach-IsKept r
EventReach-IsKept (EventReach.journal_subscribed r q n) = EventReach-IsKept r
EventReach-IsKept (EventReach.call_returns err r q n d) = EventReach-IsKept r
