-- ===== src/Persistence/Examples.antt =====
-- The theorems on journals (persistence/) applied to short ones.
use text.Mathlib.Text.{◌==◌}
use completer.Persistence.Provider.{
  Store, load_or_init, enumerate, in_memory_get_events, new_in_memory_provider,
}
use completer.Persistence.Provider.Journal.{get_events-persist_receive}
use completer.Persistence.Mixin.{Mixin, persist_receive}
use completer.Persistence.Streaming.Provider.{
  new_streaming_provider, streaming_mixin, stream_events, persist_receive-streaming,
}
use completer.Prelude.{
  ◌>>=◌, length, for_each, done, false, String, ◌+◌, ℕ, ◌≡◌, List, [], ◌∷◌, ◌++◌, ◌&&◌, none,
}
use completer.Persistence.Streaming.{
  StreamEvent, Step, published, stored, above, is_wanted, subscribe,
}
use completer.Persistence.Streaming.Delivery.{
  keep, stored_events, wanted_events, highest_after, delivered-subscribe,
}

-- The event with an index, of the actor "a".
abbrev event_at : ℕ → StreamEvent ℕ
event_at i = record { actor_name = "a"; event_index = i; event = i }

-- The third event is published, and stored, while the journal is read.
abbrev reading : List (Step ℕ)
reading = stored (0, 0) ∷ stored (1, 1) ∷ published (event_at 2) ∷ stored (2, 2) ∷ []

delivered-subscribe_example :
    (subscribe "a" 0 reading (event_at 3 ∷ [])).delivered
    ≡ (stored_events "a" 0 reading ++ wanted_events "a" 0 reading)
      ++ keep
          (λ e. is_wanted "a" 0 e && above (highest_after "a" 0 none reading) e.event_index)
          (event_at 3 ∷ [])
delivered-subscribe_example = delivered-subscribe "a" 0 reading (event_at 3 ∷ [])

-- The mixin of the actor "a", which has one event in its journal, beside an actor "b".
abbrev mixin : Mixin (Store ℕ)
mixin = record {
  event_index = 1;
  name = "a";
  recovering = false;
  snapshot_requested = false;
  journal =
      ("b", record { event_index = 0; snapshot = none; events = 7 ∷ [] })
      ∷ ("a", record { event_index = 0; snapshot = none; events = 4 ∷ [] })
      ∷ [];
}

get_events-persist_receive_example :
    (y : Mixin (Store ℕ)) × (for_each
        (persist_receive (new_in_memory_provider 10))
        (5 ∷ 6 ∷ [])
        mixin
      ≡ done y)
    × (y.event_index ≡ 1 + 2)
    × (in_memory_get_events "a" 0 y.journal
        ≡ enumerate 0 ((load_or_init "a" mixin.journal).events ++ 5 ∷ 6 ∷ []))
    × (in_memory_get_events "a" (length (load_or_init "a" mixin.journal).events) y.journal
        ≡ enumerate 0 (5 ∷ 6 ∷ []))
    × ((other : String) (start : ℕ)
        → ("a" == other) ≡ false
        → in_memory_get_events other start y.journal
          ≡ in_memory_get_events other start mixin.journal)
get_events-persist_receive_example = get_events-persist_receive 10 (5 ∷ 6 ∷ []) mixin

persist_receive-streaming_example :
    for_each
      (persist_receive (new_streaming_provider (new_in_memory_provider 10)))
      (5 ∷ 6 ∷ [])
      (streaming_mixin (new_in_memory_provider 10) [] mixin)
    ≡ (for_each (persist_receive (new_in_memory_provider 10)) (5 ∷ 6 ∷ []) mixin >>= λ y. done (
        streaming_mixin
          (new_in_memory_provider 10)
          (stream_events (new_in_memory_provider 10) "a" 1 (5 ∷ 6 ∷ []))
          y))
persist_receive-streaming_example =
    persist_receive-streaming (new_in_memory_provider 10) (5 ∷ 6 ∷ []) mixin []
