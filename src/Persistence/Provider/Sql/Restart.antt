-- ===== src/Persistence/Provider/Sql/Restart.antt =====
-- An actor that is started again replays its journal (Using of persistence/receiver.go, `init` of
-- persistence/plugin.go, over persistence/sql_provider.go). The actor is its mixin beside a state
-- `B`, and receives a replayed event by `f`.
use completer.Prelude.{ℕ, String, List, true, false, Outcome, done, ◌>>=◌}
use completer.Persistence.Mixin.{Mixin}

module _ {J B : Type 0} where
  abbrev pub set_mixin : Mixin J → Mixin J × B → Mixin J × B
  set_mixin x a = (x, a.1)

  abbrev pub get_mixin : Mixin J × B → Mixin J
  get_mixin a = a.0

module _ {J : Type 0} where
  -- The mixin of an actor that starts, and when it has replayed some events.
  abbrev pub starting : String → Mixin J → Mixin J
  starting name x = record x {
    name = name;
    event_index = 0;
    recovering = true;
    snapshot_requested = false;
  }

  abbrev pub recovered : String → ℕ → Mixin J → Mixin J
  recovered name n x = record x {
    name = name;
    event_index = n;
    recovering = false;
    snapshot_requested = false;
  }

module _ {M J B : Type 0} (f : M → B → Outcome B) where
  abbrev pub receive : M → Mixin J × B → Outcome (Mixin J × B)
  receive m a = f m a.1 >>= λ b. done (a.0, b)
