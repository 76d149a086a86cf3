-- ===== src/Persistence/Mixin.antt =====
-- The persistence mixin of an actor (persistence/plugin.go). The mixin's state is kept with the
-- journal that it writes; `init` takes the actor's Receive as a function of the actor's state.
use completer.Prelude.{
  ℕ, suc, ◌%◌, String, none, some, Bool, true, false, ◌==◌, if◌then◌else◌, Outcome, done, panicked,
  Panic, Option, inl, inr, ◌>>=◌, for_each,
}
use completer.Persistence.Provider.{ProviderState}

pub record Mixin (J : Type 0) : Type 0 where
  pub event_index : ℕ
  pub name : String
  pub recovering : Bool
  pub snapshot_requested : Bool
  pub journal : J

module _ {M J : Type 0} (P : ProviderState M J) where
  -- PersistReceive. The interval is a setting of the deployment, and is not zero.
  unfoldable pub persist_receive : M → Mixin J → Outcome (Mixin J)
  persist_receive m x = elim (P.persist_event x.name x.event_index m x.journal) [
    | inl p ↦ panicked p
    | inr journal ↦ done (record x {
      event_index = suc x.event_index;
      journal = journal;
      snapshot_requested =
          if (suc x.event_index % P.get_snapshot_interval) == 0 then true else x.snapshot_requested;
    })
  ]

  unfoldable pub persist_snapshot : M → Mixin J → Outcome (Mixin J)
  persist_snapshot m x = elim (P.persist_snapshot x.name x.event_index m x.journal) [
    | inl p ↦ panicked p
    | inr journal ↦ done (record x { journal = journal })
  ]

  -- `init`: the snapshot and the journal are given to `receive` with the mixin recovering, and the
  -- event index is set behind each event after it was received. The actor `A` holds its mixin.
  module _ {A : Type 0} (mixin : A → Mixin J) (set_mixin : Mixin J → A → A) where
    unfoldable pub replay_event : (M → A → Outcome A) → ℕ × M → A → Outcome A
    replay_event receive (index, m) a = do
      b ← receive m a
      done (set_mixin (record (mixin b) { event_index = suc index }) b)

    unfoldable pub replay_snapshot : (M → A → Outcome A) → A → Outcome A
    replay_snapshot receive a = elim (P.get_snapshot (mixin a).name (mixin a).journal) [
      | none ↦ done a
      | some s ↦ receive s.0 (set_mixin (record (mixin a) { event_index = s.1 }) a)
    ]

    -- The panic that GetEvents ends with.
    unfoldable pub raise : Option Panic → A → Outcome A
    raise none a = done a
    raise (some p) a = panicked p

    unfoldable pub init : String → (M → A → Outcome A) → (A → Outcome A) → A → Outcome A
    unfolding replay_event replay_snapshot raise
    init name receive replay_complete a = do
      b ← replay_snapshot receive (
          set_mixin
            (record (mixin a) {
              name = name;
              event_index = 0;
              recovering = true;
              snapshot_requested = false;
            })
            a)
      c ←
          for_each (replay_event receive)
            (P.get_events (mixin b).name (mixin b).event_index (mixin b).journal).0 b
      d ← raise (P.get_events (mixin b).name (mixin b).event_index (mixin b).journal).1 c
      replay_complete (set_mixin (record (mixin d) { recovering = false }) d)
