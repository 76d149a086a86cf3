-- ===== src/Persistence/Provider/Sql.antt =====
-- The provider that keeps journals and snapshots in a database (persistence/sql_provider.go). The
-- database and the protocol buffers' codec are parameters.
pub mod Journal
pub mod Restart
pub mod Examples
use completer.Prelude.{
  ℕ, String, List, [], ◌∷◌, Option, none, some, Bool, inl, inr, ◌⊎◌, ◌≡◌, ◌≤◌, ◌<◌, Panic,
  marshalling_failed, persistence_failed, reading_events_failed, library_error, leb, ◌&&◌,
  if◌then◌else◌, ◌++◌,
}
use text.Mathlib.Text.{◌==◌}
use completer.Persistence.Provider.{ProviderState}

pub record EventRow : Type 0 where
  pub actor_name : String
  pub event_type : String
  pub event_index : ℕ
  pub event : List ℕ

pub record SnapshotRow : Type 0 where
  pub actor_name : String
  pub snapshot_type : String
  pub event_index : ℕ
  pub snapshot : List ℕ

-- How an iteration over the rows of a query ended: `rows.Next` gave false behind the last row, or
-- before it, for an error that `rows.Err` gives; or `rows.Scan` could not read a row.
pub data Iteration : Type 0 where
  complete cut_short scan_failed : Iteration

-- The statements that the provider runs. The outer `none` is an error, the inner one sql.ErrNoRows.
-- A query of events that has started gives the rows that its iteration comes to, each as Scan leaves
-- it in the variables, and how the iteration ended.
pub record JournalDb (D : Type 0) : Type 0 where
  pub replace_event : EventRow → D → Option D
  pub select_events :
      (actor_name : String) (from_index : ℕ) → D → Option (List EventRow × Iteration)
  pub replace_snapshot : SnapshotRow → D → Option D
  pub select_snapshot : (actor_name : String) → D → Option (Option SnapshotRow)

-- proto.MessageName and proto.Marshal; extractData with proto.MessageType and proto.Unmarshal.
pub record Codec (M : Type 0) : Type 0 where
  pub message_name : M → String
  pub marshal : M → Option (List ℕ)
  pub extract_data : (type_name : String) → List ℕ → Option M

module _ {M D : Type 0} (c : Codec M) (db : JournalDb D) where
  unfoldable pub persist_event : String → ℕ → M → D → Panic ⊎ D
  persist_event name index m d = elim (c.marshal m) [
    | none ↦ inl marshalling_failed
    | some bytes ↦
        elim (db.replace_event
          (record {
            actor_name = name;
            event_type = c.message_name m;
            event_index = index;
            event = bytes;
          })
          d) [ none ↦ inl persistence_failed | some e ↦ inr e ]
  ]

  -- The loop over the rows: a row that cannot be read ends it with a panic, behind the callbacks of
  -- the rows above it.
  unfoldable pub read_rows : List EventRow → List (ℕ × M) × Option Panic
  read_rows [] = ([], none)
  read_rows (r ∷ rs) =
      let rest = read_rows rs in
      elim (c.extract_data r.event_type r.event) [
        | none ↦ ([], some marshalling_failed)
        | some m ↦ ((r.event_index, m) ∷ rest.0, rest.1)
      ]

  -- The errors of `rows.Scan` and `rows.Err` are not looked at.
  unfoldable pub get_events : String → ℕ → D → List (ℕ × M) × Option Panic
  unfolding read_rows
  get_events name start d = elim (db.select_events name start d) [
    | none ↦ ([], some reading_events_failed)
    | some (rows, ended) ↦ read_rows rows
  ]

  -- `panic(err)`, with the error as it is, where the snapshot cannot be written.
  unfoldable pub persist_snapshot : String → ℕ → M → D → Panic ⊎ D
  persist_snapshot name index m d = elim (c.marshal m) [
    | none ↦ inl library_error
    | some bytes ↦
        elim (db.replace_snapshot
          (record {
            actor_name = name;
            snapshot_type = c.message_name m;
            event_index = index;
            snapshot = bytes;
          })
          d) [ none ↦ inl library_error | some e ↦ inr e ]
  ]

  -- Every error of reading a snapshot is taken for there being none.
  unfoldable pub get_snapshot : String → D → Option (M × ℕ)
  get_snapshot name d = elim (db.select_snapshot name d) [
    | none ↦ none
    | some found ↦ elim found [
      | none ↦ none
      | some r ↦ elim (c.extract_data r.snapshot_type r.snapshot) [
        | none ↦ none
        | some m ↦ some (m, r.event_index)
      ]
    ]
  ]

  unfoldable pub new_sql_provider : (snapshot_interval : ℕ) → ProviderState M D
  unfolding persist_event get_events persist_snapshot get_snapshot
  new_sql_provider interval = record {
    get_snapshot_interval = interval;
    get_snapshot = get_snapshot;
    get_events = get_events;
    persist_event = persist_event;
    persist_snapshot = persist_snapshot;
  }

-- The rows of an actor from an index on.
abbrev pub wanted : (actor_name : String) (from_index : ℕ) → List EventRow → List EventRow
wanted name start [] = []
wanted name start (r ∷ rs) =
    let rest = wanted name start rs in
    if (r.actor_name == name) && leb start r.event_index then r ∷ rest else rest

-- How the iteration of a query of events ended; `none` if the query failed.
abbrev pub query_ended :
    {D : Type 0} → JournalDb D → (actor_name : String) (from_index : ℕ) → D → Option Iteration
query_ended db name start d = elim (db.select_events name start d) [
  | none ↦ none
  | some (rows, ended) ↦ some ended
]

-- Rows with a rising index, all below a bound.
abbrev pub IsRising : (bound : ℕ) → List EventRow → Type 0
IsRising bound [] = Unit
IsRising bound (r ∷ []) = r.event_index < bound
IsRising bound (r ∷ s ∷ rs) = (r.event_index < s.event_index) × IsRising bound (s ∷ rs)

-- What the provider relies on. The table of events has no unique key, so that REPLACE inserts a row;
-- a query of rows whose indices are all different gives them by index, all of
-- them or, where the iteration ends with an error, the first ones. Nothing is said of a query of
-- which a row could not be scanned.
pub record JournalDbLaws {D : Type 0} (db : JournalDb D) (rows : D → List EventRow) : Type 0 where
  pub inserted :
      (r : EventRow) (d e : D) → db.replace_event r d ≡ some e → rows e ≡ rows d ++ r ∷ []
  pub selected :
      (name : String) (start bound : ℕ) (d : D) (rs : List EventRow)
      → IsRising bound (wanted name start (rows d))
      → db.select_events name start d ≡ some (rs, complete)
      → rs ≡ wanted name start (rows d)
  pub selected_first :
      (name : String) (start bound : ℕ) (d : D) (rs : List EventRow)
      → IsRising bound (wanted name start (rows d))
      → db.select_events name start d ≡ some (rs, cut_short)
      → (rest : List EventRow) × (wanted name start (rows d) ≡ rs ++ rest)
