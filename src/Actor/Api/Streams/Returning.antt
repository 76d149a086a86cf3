-- ===== src/Actor/Api/Streams/Returning.antt =====
-- The call of a stream that has lost an event ends (StreamEvents of actor/api.go).
use completer.Prelude.{
  ℕ, zero, suc, ◌+◌, ◌<◌, ◌≡◌, ◌≢◌, refl, ap, String, List, ◌++◌, length, none, some, true, false,
  is_some, inl, inr, Bool-cases, Option-cases, arith, if◌then◌else◌,
}
use completer.Model.Event.{Event}
use completer.Persistence.Streaming.{StreamEvent}
use completer.Actor.Api.Streams.{
  Ending, EventStream, EventLoop, running, stopping, over, EventReach, send_event, offered, OwnStep,
}
use completer.Actor.Api.Streams.Invariant.{stream_events}
use completer.Actor.Api.Streams.Closing.{is_closing, is_stopping, EventReach-is_closing}

-- Whichever of its own steps the program makes, it can go on until the call has returned, and it
-- cannot make steps for ever.
pub data Ends : EventStream → Type 0 where
  has_returned : {s : EventStream} (err : Ending) → s.returned ≡ some err → Ends s
  goes_on :
      {s : EventStream} (t : EventStream)
      → OwnStep s t
      → ((u : EventStream) → OwnStep s u → Ends u)
      → Ends s

-- What is left to do.
abbrev loop_left : EventLoop → ℕ
loop_left running = 2
loop_left (stopping err) = 1
loop_left over = 0

abbrev steps_left : EventStream → ℕ
steps_left s =
    length s.buffer
    + loop_left s.event_loop
    + (if s.subscribed then 0 else 1)
    + (if is_some s.returned then 0 else 1)

OwnStep-steps_left :
    (s t : EventStream)
    → OwnStep s t
    → is_closing s ≡ true
    → (is_closing t ≡ true) × (steps_left t < steps_left s)
unfolding is_closing send_event offered
OwnStep-steps_left s _ (OwnStep.taken true e rest q l b) c =
    (ground (arith, q, l, c), omega (arith, ap length b))
OwnStep-steps_left s _ (OwnStep.taken false e rest q l b) c =
    (ground (arith, q, l, c), omega (arith, ap length b, ap loop_left l))
OwnStep-steps_left s _ (OwnStep.done_taken err q l d) c =
    (ground (arith, q, l, c), omega (arith, ap loop_left l))
OwnStep-steps_left s _ (OwnStep.stopped err q l) c =
    (ground (arith, q, l, c), omega (arith, ap loop_left l))
OwnStep-steps_left s _ (OwnStep.journal_subscribed q n) c = (c, ground (arith, n))
OwnStep-steps_left s _ (OwnStep.call_returns err q n d) c = (refl, ground (arith, q))

stopping_of : (l : EventLoop) → is_stopping l ≡ true → (err : Ending) × (l ≡ stopping err)
stopping_of running e = absurd (cc)
stopping_of (stopping err) e = (err, refl)
stopping_of over e = absurd (cc)

OwnStep-next :
    (s : EventStream) → s.returned ≡ none → is_closing s ≡ true → (t : EventStream) × OwnStep s t
unfolding is_closing
OwnStep-next s q c = elim (Bool-cases s.subscribed) [
  | inr n ↦ (_, OwnStep.journal_subscribed q n)
  | inl n ↦ elim (Option-cases s.done) [
    | inr (err, d) ↦ (_, OwnStep.call_returns err q n d)
    | inl d ↦
        let (err, l) = stopping_of s.event_loop (ground (arith, q, d, c)) in
        (_, OwnStep.stopped err q l)
  ]
]

is_closing-Ends : (n : ℕ) (s : EventStream) → steps_left s < n → is_closing s ≡ true → Ends s
is_closing-Ends zero s h c = absurd (omega (arith, h))
is_closing-Ends (suc n) s h c = elim (Option-cases s.returned) [
  | inr (err, q) ↦ Ends.has_returned err q
  | inl q ↦
      let (t, step) = OwnStep-next s q c in
      Ends.goes_on t step (λ u k.
        let (closing, less) = OwnStep-steps_left s u k c in
        is_closing-Ends n u (omega (arith, h, less)) closing)
]

-- From every state of a stream of a flow's events in which what was sent, with what waits to be
-- sent, is not exactly the events of the callbacks, the call comes to return by the program's own
-- steps, whichever of them it makes and in whatever order, if there is no further callback and the
-- client does not go away.
pub EventReach-Ends :
    {flow_id : String} {es : List (StreamEvent Event)} {s : EventStream}
    → EventReach flow_id es s
    → s.sent ++ s.buffer ≢ stream_events flow_id es
    → Ends s
EventReach-Ends {s} r lost = elim (EventReach-is_closing r) [
  | inl c ↦ is_closing-Ends (suc (steps_left s)) s (omega arith) c
  | inr o ↦ absurd (lost o.1)
]
