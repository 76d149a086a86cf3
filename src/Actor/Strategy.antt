-- ===== src/Actor/Strategy.antt =====
-- What becomes of an actor that panics (actor/strategy.go, and graphDecider of actor/supervisor.go).
-- The statistics that the actor system keeps of a child are a parameter. Times and durations are in
-- nanoseconds.
pub mod Backoff
pub mod Examples
use completer.Prelude.{
  ℕ, suc, ◌+◌, ◌-◌, ◌*◌, ◌^◌, ◌≡◌, Bool, ltb, if◌then◌else◌, List, [], ◌∷◌, Panic,
  persistence_failed, reading_events_failed, persisting_snapshot_failed,
}

pub data Directive : Type 0 where
  resume restart stop escalate : Directive

unfoldable pub graph_decider : Panic → Directive
graph_decider persistence_failed = restart
graph_decider reading_events_failed = restart
graph_decider persisting_snapshot_failed = resume
graph_decider _ = stop

-- RestartStatistics of the actor system, with the clock of IsWithinDuration and Restart.
pub record RestartStatistics (R : Type 0) : Type 0 where
  pub failure_count : R → ℕ
  pub fail : R → R
  pub reset : R → R
  pub is_within_duration : (now within : ℕ) → R → Bool
  pub restarted : (now : ℕ) → R → R

-- Fail counts, Reset sets the count to 0, and Restart, which the actor system calls when it has
-- restarted the child, sets the time that IsWithinDuration compares with.
pub record RestartStatisticsLaws {R : Type 0} (stats : RestartStatistics R) : Type 0 where
  pub counted : (r : R) → stats.failure_count (stats.fail r) ≡ suc (stats.failure_count r)
  pub cleared : (r : R) → stats.failure_count (stats.reset r) ≡ 0
  pub kept : (now : ℕ) (r : R) → stats.failure_count (stats.restarted now r) ≡ stats.failure_count r
  pub timed :
      (now within at : ℕ) (r : R)
      → stats.is_within_duration now within (stats.fail (stats.restarted at r))
        ≡ ltb (now - at) within

-- What HandleFailure asks of the supervisor.
pub data Action : Type 0 where
  resume_children stop_children escalate_failure : Action
  restart_children_after : (delay : ℕ) → Action

abbrev pub backoff_window : ℕ
backoff_window = 60 * 10 ^ 9

abbrev pub initial_backoff : ℕ
initial_backoff = 100 * 10 ^ 6

module _ {R : Type 0} (stats : RestartStatistics R) where
  unfoldable pub set_failure_count : (now : ℕ) → R → R
  set_failure_count now r =
      let failed = stats.fail r in
      if stats.is_within_duration now backoff_window failed then failed else stats.reset failed

  -- handleRestart; `noise` is rand.Intn(500).
  unfoldable pub handle_restart : (now noise : ℕ) → R → Action × R
  unfolding set_failure_count
  handle_restart now noise r =
      let counted = set_failure_count now r in
      (restart_children_after (stats.failure_count counted * initial_backoff + noise), counted)

  unfoldable pub handle_directive : Directive → (now noise : ℕ) → R → Action × R
  unfolding handle_restart
  handle_directive resume now noise r = (resume_children, r)
  handle_directive restart now noise r = handle_restart now noise r
  handle_directive stop now noise r = (stop_children, r)
  handle_directive escalate now noise r = (escalate_failure, r)

  -- HandleFailure, with graphDecider for the decider.
  unfoldable pub handle_failure : Panic → (now noise : ℕ) → R → Action × R
  unfolding handle_directive graph_decider
  handle_failure reason now noise r = handle_directive (graph_decider reason) now noise r
