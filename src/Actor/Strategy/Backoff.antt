-- ===== src/Actor/Strategy/Backoff.antt =====
-- The delays of restarts, and what becomes of an actor by the failure of its journal.
use completer.Prelude.{
  ℕ, suc, ◌+◌, ◌-◌, ◌*◌, ◌<◌, ◌≡◌, refl, inl, inr, ◌⊎◌, String, List, [], ◌∷◌, Option, none, some,
  Bool, true, false, ltb, arith, Panic, persistence_failed, reading_events_failed,
  marshalling_failed, library_error, Option-cases, is_some, not, if◌then◌else◌,
}
use completer.Actor.Strategy.{
  stop, restart, graph_decider, RestartStatistics, RestartStatisticsLaws, Action,
  restart_children_after, backoff_window, initial_backoff, set_failure_count, handle_restart,
  handle_directive, handle_failure,
}
use completer.Persistence.Provider.Sql.{
  JournalDb, Codec, persist_event, persist_snapshot, get_events, read_rows, EventRow,
}

-- A failure, its noise, and when the actor system restarted the child after it.
pub record Failure : Type 0 where
  pub now : ℕ
  pub noise : ℕ
  pub restarted_at : ℕ

-- Failures that each come within the window after the restart that the one above led to.
abbrev pub IsSuccession : (restarted_at : ℕ) → List Failure → Type 0
IsSuccession at [] = Unit
IsSuccession at (f ∷ fs) = (f.now - at < backoff_window) × IsSuccession f.restarted_at fs

-- Delays that rise by the initial back-off from one restart to the next.
abbrev pub rising_delays : (count : ℕ) → List Failure → List Action
rising_delays k [] = []
rising_delays k (f ∷ fs) =
    restart_children_after (k * initial_backoff + f.noise) ∷ rising_delays (suc k) fs

module _ {R : Type 0} (stats : RestartStatistics R) (laws : RestartStatisticsLaws stats) where
  -- The actions of failures to persist an event, one after the other.
  abbrev pub handle_failures : List Failure → R → List Action
  handle_failures [] r = []
  handle_failures (f ∷ fs) r =
      let (action, s) = handle_failure stats persistence_failed f.now f.noise r in
      action ∷ handle_failures fs (stats.restarted f.restarted_at s)

  count_within :
      (now at : ℕ) (r : R)
      → now - at < backoff_window
      → stats.failure_count (set_failure_count stats now (stats.restarted at r))
        ≡ suc (stats.failure_count r)
  unfolding set_failure_count
  count_within now at r h =
      let recent : ltb (now - at) backoff_window ≡ true = ground (arith, h) in
      rw
        (
          laws.timed now backoff_window at r,
          recent,
          laws.counted (stats.restarted at r),
          laws.kept at r,
        )
        refl

  count_past :
      (now : ℕ) (r : R)
      → stats.is_within_duration now backoff_window (stats.fail r) ≡ false
      → stats.failure_count (set_failure_count stats now r) ≡ 0
  unfolding set_failure_count
  count_past now r h = rw (h, laws.cleared (stats.fail r)) refl

  in_succession :
      (fs : List Failure) (at : ℕ) (r : R)
      → IsSuccession at fs
      → handle_failures fs (stats.restarted at r) ≡ rising_delays (suc (stats.failure_count r)) fs
  unfolding handle_failure handle_directive handle_restart graph_decider
  in_succession [] at r h = refl
  in_succession (f ∷ fs) at r h =
      rw
        (
          in_succession fs f.restarted_at (set_failure_count stats f.now (stats.restarted at r))
              h.1,
          count_within f.now at r h.0,
        )
        refl

  -- An actor fails to persist an event, later than the window after its last restart, if any, and
  -- then again and again, each time within the window after its restart: the first restart waits for
  -- the noise only, and each further one for the initial back-off longer than the one above, the
  -- noise apart.
  pub handle_failures-rising_delays :
      (f : Failure) (fs : List Failure) (r : R)
      → stats.is_within_duration f.now backoff_window (stats.fail r) ≡ false
      → IsSuccession f.restarted_at fs
      → handle_failures (f ∷ fs) r ≡ rising_delays 0 (f ∷ fs)
  unfolding handle_failure handle_directive handle_restart graph_decider
  handle_failures-rising_delays f fs r h s =
      rw (in_succession fs f.restarted_at (set_failure_count stats f.now r) s, count_past f.now r h)
        refl

-- The panic of an operation, if it has one.
abbrev pub left : {D : Type 0} → Panic ⊎ D → Option Panic
left (inl p) = some p
left (inr d) = none

decided : (q p : Panic) → some q ≡ some p → graph_decider p ≡ graph_decider q
decided q p e = cc

module _ {M D : Type 0} (c : Codec M) (db : JournalDb D) where
  read_rows-panics :
      (rows : List EventRow) (p : Panic) → (read_rows c db rows).1 ≡ some p → graph_decider p ≡ stop
  unfolding read_rows graph_decider
  read_rows-panics [] p e = absurd (cc)
  read_rows-panics (r ∷ rs) p e = elim (Option-cases (c.extract_data r.event_type r.event)) [
    | inl q ↦ decided marshalling_failed p (ground (arith, q, e))
    | inr (m, q) ↦ read_rows-panics rs p (ground (arith, q, e))
  ]

  -- The operations of the provider that may panic.
  pub data Operation : Type 0 where
    persisting_event persisting_snapshot : M → Operation
    reading_events : Operation

  abbrev pub panic_of : (name : String) (i : ℕ) (d : D) → Operation → Option Panic
  panic_of name i d (persisting_event m) = left (persist_event c db name i m d)
  panic_of name i d (persisting_snapshot m) = left (persist_snapshot c db name i m d)
  panic_of name i d reading_events = (get_events c db name i d).1

  -- Whether a panic of an operation comes of a failed statement on the events.
  abbrev pub is_event_statement : (name : String) (i : ℕ) (d : D) → Operation → Bool
  is_event_statement name i d (persisting_event m) = is_some (c.marshal m)
  is_event_statement name i d (persisting_snapshot m) = false
  is_event_statement name i d reading_events = not (is_some (db.select_events name i d))

  -- A panic of the database's provider restarts an actor if the statement that writes an event or
  -- queries events failed. An event that cannot be marshalled, or read back, stops the actor, and so
  -- does every panic of PersistSnapshot.
  pub graph_decider-panic_of :
      (name : String) (i : ℕ) (d : D) (op : Operation) (p : Panic)
      → panic_of name i d op ≡ some p
      → graph_decider p ≡ (if is_event_statement name i d op then restart else stop)
  unfolding persist_event get_events persist_snapshot graph_decider
  graph_decider-panic_of name i d (persisting_event m) p e = elim (Option-cases (c.marshal m)) [
    | inl q ↦ rw q (decided marshalling_failed p (ground (arith, q, e)))
    | inr (bytes, q) ↦ rw q (decided persistence_failed p (ground (arith, q, e)))
  ]
  graph_decider-panic_of name i d (persisting_snapshot m) p e =
      decided library_error p (ground (arith, e))
  graph_decider-panic_of name i d reading_events p e =
      elim (Option-cases (db.select_events name i d)) [
        | inl q ↦ rw q (decided reading_events_failed p (ground (arith, q, e)))
        | inr ((rows, ended), q) ↦ rw q (read_rows-panics rows p (ground (arith, q, e)))
      ]
