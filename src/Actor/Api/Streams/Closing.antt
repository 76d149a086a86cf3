-- ===== src/Actor/Api/Streams/Closing.antt =====
-- A stream of a flow's events that has lost an event ends its call.
use mathlib.Core.List.{append_assoc, map-append}
use completer.Prelude.{
  ◌≡◌, refl, sym, ap, ◌∙◌, String, List, [], ◌∷◌, ◌++◌, Bool, true, false, ◌||◌, is_some, inl, inr,
  ◌⊎◌, Bool-cases, arith,
}
use completer.Model.Event.{Event}
use completer.Persistence.Streaming.{StreamEvent}
use completer.Actor.Api.Streams.{
  offered, EventStream, EventLoop, running, stopping, EventReach, on_event, send_event, has_room,
}
use completer.Actor.Api.Streams.Buffering.{stream_event}
use completer.Actor.Api.Streams.Invariant.{stream_events}

abbrev pub is_stopping : EventLoop → Bool
is_stopping (stopping err) = true
is_stopping _ = false

-- The call has returned, or its ending waits to be read, or to be offered.
unfoldable pub is_closing : EventStream → Bool
is_closing s = is_some s.returned || is_some s.done || is_stopping s.event_loop

-- Nothing was lost.
abbrev pub IsOpen : (flow_id : String) → List (StreamEvent Event) → EventStream → Type 0
IsOpen flow_id es s = (s.event_loop ≡ running) × (s.sent ++ s.buffer ≡ stream_events flow_id es)

IsOpen-on_event :
    (flow_id : String) (es : List (StreamEvent Event)) (e : StreamEvent Event) (s : EventStream)
    → IsOpen flow_id es s
    → (is_closing (on_event flow_id e s) ≡ true)
      ⊎ IsOpen flow_id (es ++ e ∷ []) (on_event flow_id e s)
unfolding on_event is_closing offered
IsOpen-on_event flow_id es e s o = elim (Bool-cases (has_room s.buffer)) [
  | inl q ↦ rw q (
      inr (
        o.0,
        sym (append_assoc s.sent s.buffer _)
            ∙ ap (λ l. l ++ stream_event flow_id e ∷ []) o.1
            ∙ sym (map-append (stream_event flow_id) es (e ∷ [])),
      ))
  | inr q ↦ rw q (inl ground arith)
]

is_closing-on_event :
    (flow_id : String) (e : StreamEvent Event) (s : EventStream)
    → is_closing s ≡ true
    → is_closing (on_event flow_id e s) ≡ true
unfolding on_event is_closing offered
is_closing-on_event flow_id e s c = ground arith

-- In every state of a stream of a flow's events, either the call has returned, or an ending is at
-- hand in the channel `done` or with the sending goroutine, or that goroutine runs and what it has
-- sent with what waits to be sent is exactly the events of the callbacks, in their order.
pub EventReach-is_closing :
    {flow_id : String} {es : List (StreamEvent Event)} {s : EventStream}
    → EventReach flow_id es s
    → (is_closing s ≡ true)
      ⊎ ((s.event_loop ≡ running) × (s.sent ++ s.buffer ≡ stream_events flow_id es))
unfolding is_closing offered send_event
EventReach-is_closing EventReach.start = inr (refl, refl)
EventReach-is_closing {flow_id} (EventReach.called_back {es} {s} e r q) =
    elim (EventReach-is_closing r) [
      | inl c ↦ inl (is_closing-on_event flow_id e s c)
      | inr o ↦ IsOpen-on_event flow_id es e s o
    ]
EventReach-is_closing (EventReach.taken {s} true e rest r q l b) = elim (EventReach-is_closing r) [
  | inl c ↦ inl c
  | inr o ↦ inr (l, append_assoc s.sent (e ∷ []) rest ∙ ap (λ x. s.sent ++ x) (sym b) ∙ o.1)
]
EventReach-is_closing (EventReach.taken {s} false e rest r q l b) = inl ground arith
EventReach-is_closing (EventReach.client_closed r q l) = inl ground arith
EventReach-is_closing (EventReach.done_taken err r q l d) = inl ground arith
EventReach-is_closing (EventReach.stopped {s} err r q l) = inl ground arith
EventReach-is_closing (EventReach.journal_subscribed r q n) = EventReach-is_closing r
EventReach-is_closing (EventReach.call_returns err r q n d) = inl refl
