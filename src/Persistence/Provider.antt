-- ===== src/Persistence/Provider.antt =====
-- The interface ProviderState (persistence/persistence_provider.go) and the provider that keeps the
-- journal in memory (persistence/in_memory_provider.go).
pub mod Journal
pub mod Sql
use completer.Prelude.{
  ℕ, suc, String, List, [], ◌∷◌, ◌++◌, Option, none, some, drop, leb, length, if◌then◌else◌, Panic,
  ◌⊎◌, inr,
}
use text.Mathlib.Text.{◌==◌}

-- `J` is what the provider stores, and `M` a stored message. GetEvents gives the calls of its
-- callback, in order, and the panic that it ends with, if any. To persist gives a panic or the new
-- state.
pub record ProviderState (M : Type 0) (J : Type 0) : Type 0 where
  pub get_snapshot_interval : ℕ
  pub get_snapshot : String → J → Option (M × ℕ)
  pub get_events : String → ℕ → J → List (ℕ × M) × Option Panic
  pub persist_event : String → ℕ → M → J → Panic ⊎ J
  pub persist_snapshot : String → ℕ → M → J → Panic ⊎ J

pub record Entry (M : Type 0) : Type 0 where
  pub event_index : ℕ
  pub snapshot : Option M
  pub events : List M

-- `map[string]*entry`
abbrev pub Store : Type 0 → Type 0
Store M = List (String × Entry M)

module _ {M : Type 0} where
  abbrev pub empty_entry : Entry M
  empty_entry = record { event_index = 0; snapshot = none; events = [] }

  -- The entry that loadOrInit gives: a missing one is stored empty, which no later read can tell
  -- from its absence.
  unfoldable pub load_or_init : String → Store M → Entry M
  load_or_init name [] = empty_entry
  load_or_init name ((k, e) ∷ rest) = if k == name then e else load_or_init name rest

  unfoldable pub store_entry : String → Entry M → Store M → Store M
  store_entry name e [] = (name, e) ∷ []
  store_entry name e ((k, old) ∷ rest) =
      if k == name then (k, e) ∷ rest else (k, old) ∷ store_entry name e rest

  unfoldable pub enumerate : ℕ → List M → List (ℕ × M)
  enumerate i [] = []
  enumerate i (m ∷ ms) = (i, m) ∷ enumerate (suc i) ms

  unfoldable pub in_memory_get_events : String → ℕ → Store M → List (ℕ × M)
  unfolding load_or_init enumerate
  in_memory_get_events name start store =
      let events = (load_or_init name store).events in
      if leb (length events) start then [] else enumerate 0 (drop start events)

  unfoldable pub in_memory_persist_event : String → ℕ → M → Store M → Store M
  unfolding load_or_init store_entry
  in_memory_persist_event name index m store =
      let e = load_or_init name store in
      store_entry name (record e { events = e.events ++ m ∷ [] }) store

  unfoldable pub in_memory_get_snapshot : String → Store M → Option (M × ℕ)
  unfolding load_or_init
  in_memory_get_snapshot name store =
      let e = load_or_init name store in
      elim e.snapshot [ none ↦ none | some s ↦ some (s, e.event_index) ]

  unfoldable pub in_memory_persist_snapshot : String → ℕ → M → Store M → Store M
  unfolding load_or_init store_entry
  in_memory_persist_snapshot name index m store =
      let e = load_or_init name store in
      store_entry name (record e { event_index = index; snapshot = some m }) store

  unfoldable pub new_in_memory_provider : ℕ → ProviderState M (Store M)
  unfolding in_memory_get_events in_memory_persist_event in_memory_get_snapshot
      in_memory_persist_snapshot
  new_in_memory_provider interval = record {
    get_snapshot_interval = interval;
    get_snapshot = in_memory_get_snapshot;
    get_events = λ name start store. (in_memory_get_events name start store, none);
    persist_event = λ name i m store. inr (in_memory_persist_event name i m store);
    persist_snapshot = λ name i m store. inr (in_memory_persist_snapshot name i m store);
  }
