-- ===== src/Actor/Api/Streams/Buffering.antt =====
-- What a client is sent of the events that the callbacks of its stream were called with.
use mathlib.Core.List.{append_assoc, Sublist, sublist-append_left, sublist-cons_self}
use mathlib.Core.List.Sublist
use completer.Prelude.{
  ◌≤◌, ◌≡◌, refl, ap, subst, String, List, [], ◌∷◌, ◌++◌, length, length-append, true, arith,
}
use completer.Model.Event.{Event}
use completer.Model.Stream.{GraphStreamEvent, to_graph_stream_event}
use completer.Persistence.Streaming.{StreamEvent}
use completer.Actor.Api.{event_buffer_size}
use completer.Actor.Api.Streams.{has_room}

-- The event that the client is to be sent.
abbrev pub stream_event : (flow_id : String) → StreamEvent Event → GraphStreamEvent
stream_event flow_id e = to_graph_stream_event flow_id e.event e.event_index

module _ {A : Type 0} where
  -- What is sent and what is buffered, of what was produced.
  abbrev pub IsKept : (sent buffer produced : List A) → Type 0
  IsKept sent buffer produced =
      (length buffer ≤ event_buffer_size) × Sublist (sent ++ buffer) produced

  pub IsKept-buffer :
      (sent buffer produced : List A) (e : A)
      → has_room buffer ≡ true
      → IsKept sent buffer produced
      → IsKept sent (buffer ++ e ∷ []) (produced ++ e ∷ [])
  unfolding has_room
  IsKept-buffer sent buffer produced e r k = (
    ground (arith, length-append buffer (e ∷ []), r),
    subst (λ l. Sublist l (produced ++ e ∷ [])) (append_assoc sent buffer (e ∷ []))
        (Sublist.append k.1 (Sublist.refl (e ∷ []))),
  )

  pub IsKept-skip :
      (sent buffer produced : List A) (e : A)
      → IsKept sent buffer produced
      → IsKept sent buffer (produced ++ e ∷ [])
  IsKept-skip sent buffer produced e k =
      (k.0, Sublist.trans k.1 (sublist-append_left produced (e ∷ [])))

  pub IsKept-send :
      (sent rest buffer produced : List A) (e : A)
      → buffer ≡ e ∷ rest
      → IsKept sent buffer produced
      → IsKept (sent ++ e ∷ []) rest produced
  IsKept-send sent rest buffer produced e q k = (
    omega (arith, ap length q, k.0),
    subst (λ l. Sublist l produced) (rw (q, append_assoc sent (e ∷ []) rest) refl) k.1,
  )

  pub IsKept-drop :
      (sent rest buffer produced : List A) (e : A)
      → buffer ≡ e ∷ rest
      → IsKept sent buffer produced
      → IsKept sent rest produced
  IsKept-drop sent rest buffer produced e q k = (
    omega (arith, ap length q, k.0),
    Sublist.trans (Sublist.append (Sublist.refl sent) (sublist-cons_self e rest))
        (subst (λ b. Sublist (sent ++ b) produced) q k.1),
  )
