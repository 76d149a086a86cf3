-- ===== src/Actor/Strategy/Examples.antt =====
-- Statistics as a count and a time, three failures in succession, and a database that fails.
use completer.Prelude.{
  ℕ, suc, ◌+◌, ◌-◌, ◌≡◌, refl, [], ◌∷◌, Option, none, some, Bool, false, ltb, arith,
  persistence_failed,
}
use completer.Persistence.Provider.Sql.{JournalDb, Codec, persist_event}
use completer.Actor.Strategy.{RestartStatistics, RestartStatisticsLaws, restart, graph_decider}
use completer.Actor.Strategy.Backoff.{
  Failure, rising_delays, handle_failures, handle_failures-rising_delays, persisting_event,
  panic_of, graph_decider-panic_of,
}

abbrev Statistics : Type 0
Statistics = ℕ × Option ℕ

abbrev is_recent : (now within : ℕ) → Option ℕ → Bool
is_recent now within none = false
is_recent now within (some at) = ltb (now - at) within

abbrev statistics : RestartStatistics Statistics
statistics = record {
  failure_count = λ r. r.0;
  fail = λ r. (suc r.0, r.1);
  reset = λ r. (0, r.1);
  is_within_duration = λ now within r. is_recent now within r.1;
  restarted = λ now r. (r.0, some now);
}

statistics-RestartStatisticsLaws : RestartStatisticsLaws statistics
statistics-RestartStatisticsLaws = record {
  counted = λ r. refl;
  cleared = λ r. refl;
  kept = λ now r. refl;
  timed = λ now within at r. refl;
}

abbrev failure_at : ℕ → Failure
failure_at now = record { now = now; noise = 7; restarted_at = now + 200 }

handle_failures-rising_delays_example :
    handle_failures statistics statistics-RestartStatisticsLaws
      (failure_at 1000 ∷ failure_at 5000 ∷ failure_at 9000 ∷ [])
      (0, none)
    ≡ rising_delays 0 (failure_at 1000 ∷ failure_at 5000 ∷ failure_at 9000 ∷ [])
handle_failures-rising_delays_example =
    handle_failures-rising_delays statistics statistics-RestartStatisticsLaws (failure_at 1000)
      (failure_at 5000 ∷ failure_at 9000 ∷ []) (0, none) refl (omega arith, (omega arith, tt))

abbrev codec : Codec ℕ
codec = record {
  message_name = λ m. "number";
  marshal = λ m. some (m ∷ []);
  extract_data = λ name bytes. none;
}

-- A database that is down.
abbrev down : JournalDb ℕ
down = record {
  replace_event = λ r d. none;
  select_events = λ name start d. none;
  replace_snapshot = λ r d. none;
  select_snapshot = λ name d. none;
}

down_panics : panic_of codec down "a" 4 0 (persisting_event 5) ≡ some persistence_failed
unfolding persist_event
down_panics = refl

graph_decider-panic_of_example : graph_decider persistence_failed ≡ restart
graph_decider-panic_of_example =
    graph_decider-panic_of codec down "a" 4 0 (persisting_event 5) persistence_failed down_panics
