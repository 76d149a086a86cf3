-- ===== src/Persistence/Streaming/Provider.antt =====
-- The provider that publishes what it persists (persistence/streaming.go). `published` holds what
-- was published on the event stream, in order; a subscription takes it from there.
use mathlib.Core.List.{append-nil, append_assoc}
use completer.Prelude.{
  ℕ, suc, ◌≡◌, refl, sym, ap, ◌∙◌, inl, inr, ◌⊎◌, String, true, ◌%◌, ◌==◌, List, [], ◌∷◌, ◌++◌,
  Option, Bool, Outcome, done, ◌>>=◌, Panic, for_each, if◌then◌else◌,
}
use completer.Persistence.Provider.{ProviderState}
use completer.Persistence.Mixin.{Mixin, persist_receive}
use completer.Persistence.Streaming.{StreamEvent}

pub record Streaming (M J : Type 0) : Type 0 where
  pub target : J
  pub published : List (StreamEvent M)

module _ {M J : Type 0} (P : ProviderState M J) where
  abbrev pub stream_event : String → ℕ → M → StreamEvent M
  stream_event name index m = record { actor_name = name; event_index = index; event = m }

  -- PersistEvent: the event is published once it is persisted.
  unfoldable pub persist_event : String → ℕ → M → Streaming M J → Panic ⊎ Streaming M J
  persist_event name index m s = elim (P.persist_event name index m s.target) [
    | inl p ↦ inl p
    | inr target ↦
        inr (record { target = target; published = s.published ++ stream_event name index m ∷ [] })
  ]

  unfoldable pub persist_snapshot : String → ℕ → M → Streaming M J → Panic ⊎ Streaming M J
  persist_snapshot name index m s = elim (P.persist_snapshot name index m s.target) [
    | inl p ↦ inl p
    | inr target ↦ inr (record s { target = target })
  ]

  -- newStreamingProviderState: the other methods are those of the embedded provider.
  unfoldable pub new_streaming_provider : ProviderState M (Streaming M J)
  unfolding persist_event persist_snapshot
  new_streaming_provider = record {
    get_snapshot_interval = P.get_snapshot_interval;
    get_snapshot = λ name s. P.get_snapshot name s.target;
    get_events = λ name start s. P.get_events name start s.target;
    persist_event = persist_event;
    persist_snapshot = persist_snapshot;
  }

  abbrev matching : (StreamEvent M → Bool) → String → List (ℕ × M) → List (StreamEvent M)
  matching predicate name [] = []
  matching predicate name ((i, m) ∷ es) =
      if predicate (stream_event name i m)
      then stream_event name i m ∷ matching predicate name es
      else matching predicate name es

  -- QueryActorJournal: the calls of its function, and the panic of GetEvents, if any.
  unfoldable pub query_actor_journal :
      (StreamEvent M → Bool)
      → (name : String) (from_index : ℕ) → Streaming M J
      → List (StreamEvent M) × Option Panic
  query_actor_journal predicate name from_index s = (
    matching predicate name (P.get_events name from_index s.target).0,
    (P.get_events name from_index s.target).1,
  )

  -- StreamNewEvents: the calls of its function for what is published.
  unfoldable pub stream_new_events :
      (StreamEvent M → Bool) → List (StreamEvent M) → List (StreamEvent M)
  stream_new_events predicate [] = []
  stream_new_events predicate (e ∷ es) =
      if predicate e then e ∷ stream_new_events predicate es else stream_new_events predicate es

  -- The stream events of messages that are persisted from an index on.
  abbrev pub stream_events : String → ℕ → List M → List (StreamEvent M)
  stream_events name index [] = []
  stream_events name index (m ∷ ms) = stream_event name index m ∷ stream_events name (suc index) ms

  -- A mixin over the target, as one over the streaming provider.
  abbrev pub streaming_mixin : List (StreamEvent M) → Mixin J → Mixin (Streaming M J)
  streaming_mixin ps x = record {
    event_index = x.event_index;
    name = x.name;
    recovering = x.recovering;
    snapshot_requested = x.snapshot_requested;
    journal = record { target = x.journal; published = ps };
  }

  -- Messages that an actor persists through the streaming provider are persisted as the target
  -- alone would persist them, its panics included; and if there is no panic, exactly these messages
  -- are published, in order, under the actor's name and with the indices at which they are stored.
  pub persist_receive-streaming :
      (ms : List M) (x : Mixin J) (ps : List (StreamEvent M))
      → for_each (persist_receive new_streaming_provider) ms (streaming_mixin ps x) ≡ (
          for_each (persist_receive P) ms x >>= λ y.
          done (streaming_mixin (ps ++ stream_events x.name x.event_index ms) y))
  unfolding for_each persist_receive new_streaming_provider persist_event
  persist_receive-streaming [] x ps =
      ap (λ qs. Outcome.done (streaming_mixin qs x)) (sym (append-nil ps))
  persist_receive-streaming (m ∷ ms) x ps =
      by_case (λ y qs. persist_receive-streaming ms y qs)
        (P.persist_event x.name x.event_index m x.journal) refl
    where
      after : J → Mixin J
      after journal = record x {
        event_index = suc x.event_index;
        journal = journal;
        snapshot_requested =
            if (suc x.event_index % P.get_snapshot_interval) == 0
            then true
            else x.snapshot_requested;
      }

      by_case :
          ((y : Mixin J) (qs : List (StreamEvent M))
            → for_each (persist_receive new_streaming_provider) ms (streaming_mixin qs y) ≡ (
                for_each (persist_receive P) ms y >>= λ z.
                done (streaming_mixin (qs ++ stream_events y.name y.event_index ms) z)))
          → (r : Panic ⊎ J) → P.persist_event x.name x.event_index m x.journal ≡ r
          → for_each (persist_receive new_streaming_provider) (m ∷ ms) (streaming_mixin ps x) ≡ (
              for_each (persist_receive P) (m ∷ ms) x >>= λ y.
              done (streaming_mixin (ps ++ stream_events x.name x.event_index (m ∷ ms)) y))
      by_case next (inl p) e = rw (e, persist_receive, persist_event) refl
      by_case next (inr journal) e =
          rw (e, persist_receive, persist_event)
            (next (after journal) (ps ++ stream_event x.name x.event_index m ∷ [])
              ∙ ap
                  (λ qs. for_each (persist_receive P) ms (after journal) >>= λ y.
                    done (streaming_mixin qs y))
                  (append_assoc ps (stream_event x.name x.event_index m ∷ [])
                    (stream_events x.name (suc x.event_index) ms)))
