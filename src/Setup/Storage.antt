-- ===== src/Setup/Storage.antt =====
-- What a started service can rely on in its database (persistence/sql_init.go, setup/setup.go).
use text.Mathlib.Text.{◌==◌}
use completer.Prelude.{
  ◌≡◌, subst, inl, inr, ◌⊎◌, String, List, [], ◌∷◌, none, some, Bool-cases, Option-cases, arith,
}
use completer.Setup.Config.{StartUp, ready, returned, panicked, exited, ◌>>=◌, WhenReady}
use completer.Setup.Database.{
  Url, Driver, Statement, create_events, create_events_with_index, create_snapshots, create_blobs,
  sqlite3_statements, mysql_statements, tables, exec_all, connect, set_limits, database_uri,
  create_db_connection,
}
use completer.Setup.Service.{
  System, Service, Storage, in_memory, sql, init_storage_from_env, init_from_env, snapshot_interval,
  string_config,
}
use completer.Setup.Shards.{init_from_env-Started}

-- The tables of the journals, the snapshots and the blobs.
pub data Table : Type 0 where
  events snapshots blobs : Table

abbrev pub CreatesTable : Statement → Table → Type 0
CreatesTable create_events events = Unit
CreatesTable create_events_with_index events = Unit
CreatesTable create_snapshots snapshots = Unit
CreatesTable create_blobs blobs = Unit
CreatesTable _ _ = ⊥

-- A statement that is executed CreatesTable its table, if it is not there, and drops none.
pub record DriverLaws {D : Type 0} (driver : Driver D) (Has : Table → D → Type 0) : Type 0 where
  pub created :
      (s : Statement) (t : Table) (d e : D) → CreatesTable s t → driver.exec s d ≡ some e → Has t e
  pub kept : (s : Statement) (t : Table) (d e : D) → Has t d → driver.exec s d ≡ some e → Has t e

-- Some statement of a list CreatesTable the table.
abbrev pub Creates : List Statement → Table → Type 0
Creates [] t = ⊥
Creates (s ∷ ss) t = CreatesTable s t ⊎ Creates ss t

module _ {D : Type 0} (driver : Driver D) (Has : Table → D → Type 0)
    (laws : DriverLaws driver Has) where
  exec_all-kept :
      (t : Table) (ss : List Statement) (d : D) → Has t d → WhenReady (Has t) (exec_all driver ss d)
  unfolding exec_all
  exec_all-kept t [] d h = h
  exec_all-kept t (s ∷ ss) d h = elim (Option-cases (driver.exec s d)) [
    | inl e ↦ rw (e, exec_all) tt
    | inr (x, e) ↦ rw (e, exec_all) (exec_all-kept t ss x (laws.kept s t d x h e))
  ]

  exec_all-Has :
      (t : Table) (ss : List Statement) (d : D)
      → Creates ss t
      → WhenReady (Has t) (exec_all driver ss d)
  unfolding exec_all
  exec_all-Has t [] d c = absurd c
  exec_all-Has t (s ∷ ss) d c = elim (Option-cases (driver.exec s d)) [
    | inl e ↦ rw (e, exec_all) tt
    | inr (x, e) ↦
        rw (e, exec_all)
          (elim c [
            | inl now ↦ exec_all-kept t ss x (laws.created s t d x now e)
            | inr later ↦ exec_all-Has t ss x later
          ])
  ]

  -- Both sequences create every table.
  tables-Creates :
      (scheme : String) (ss : List Statement) (t : Table) → tables scheme ≡ some ss → Creates ss t
  unfolding tables
  tables-Creates scheme ss t e = elim (Bool-cases (scheme == "sqlite3")) [
    | inl q ↦ subst (λ x. Creates x t) (some-injective (rw (q, tables) at e)) (in_sqlite3 t)
    | inr q ↦ elim (Bool-cases (scheme == "mysql")) [
      | inl r ↦ subst (λ x. Creates x t) (some-injective (rw (q, r, tables) at e)) (in_mysql t)
      | inr r ↦ absurd (nothing (rw (q, r, tables) at e))
    ]
  ]
    where
      some-injective : {a b : List Statement} → some a ≡ some b → a ≡ b
      some-injective h = cc

      nothing : {a : List Statement} → none ≡ some a → ⊥
      nothing h = cc

      in_sqlite3 : (t : Table) → Creates sqlite3_statements t
      in_sqlite3 events = inl tt
      in_sqlite3 snapshots = inr (inr (inl tt))
      in_sqlite3 blobs = inr (inr (inr (inl tt)))

      in_mysql : (t : Table) → Creates mysql_statements t
      in_mysql events = inl tt
      in_mysql snapshots = inr (inl tt)
      in_mysql blobs = inr (inr (inl tt))

  connect-Has : (t : Table) (url : Url) → WhenReady (Has t) (connect driver url)
  unfolding connect
  connect-Has t url = elim (Option-cases (driver.open_db url.scheme (database_uri url))) [
    | inl e ↦ rw (e, connect) tt
    | inr (d, e) ↦
        rw (e, connect)
          (elim (Bool-cases (driver.ping d)) [
            | inr q ↦ rw q tt
            | inl q ↦ rw q (elim (Option-cases (tables url.scheme)) [
              | inl n ↦ rw n tt
              | inr (ss, n) ↦ rw n (
                  exec_all-Has t ss (set_limits driver url.scheme d)
                    (tables-Creates url.scheme ss t n))
            ])
          ])
  ]

  create_db_connection-Has :
      (t : Table) (url : Url) → WhenReady (Has t) (create_db_connection driver url)
  unfolding create_db_connection
  create_db_connection-Has t url = ground (arith, connect-Has t url)

-- Where a storage is a database, it has a table.
abbrev pub StoresIn : {D : Type 0} → (Table → D → Type 0) → Table → Storage D → Type 0
StoresIn Has t (in_memory n) = Unit
StoresIn Has t (sql d n) = Has t d

init_storage_from_env-WhenReady :
    {D : Type 0} (sys : System D) (Has : Table → D → Type 0) (t : Table)
    → DriverLaws sys.driver Has
    → WhenReady (StoresIn Has t) (init_storage_from_env sys)
unfolding init_storage_from_env
init_storage_from_env-WhenReady {D = D} sys Has t laws =
    elim (Option-cases (sys.parse_url (string_config sys "DB_URL"))) [
      | inl e ↦ rw (e, init_storage_from_env) tt
      | inr (url, e) ↦
          rw (e, init_storage_from_env)
            (elim (Bool-cases (url.scheme == "inmem")) [
              | inl q ↦ rw q tt
              | inr q ↦ rw q (
                  by_connection (create_db_connection sys.driver url)
                    (create_db_connection-Has sys.driver Has laws t url))
            ])
    ]
  where
    by_connection :
        (m : StartUp D)
        → WhenReady (Has t) m
        → WhenReady (StoresIn Has t) (m >>= λ d. ready (sql d (snapshot_interval sys)))
    by_connection (ready d) h = h
    by_connection (returned x) h = tt
    by_connection (panicked x) h = tt
    by_connection exited h = tt

-- A service that was started, whatever its environment, either keeps all in memory or has in its
-- database every table that its providers use, those of journals, snapshots and blobs; if a
-- statement that the driver executes CreatesTable its table, unless it is there, and drops none.
pub init_from_env-StoresIn :
    {D : Type 0} (sys : System D) (Has : Table → D → Type 0) (v : Service D) (t : Table)
    → DriverLaws sys.driver Has
    → init_from_env sys ≡ ready v
    → StoresIn Has t v.storage
init_from_env-StoresIn sys Has v t laws e =
    subst (WhenReady (StoresIn Has t)) (init_from_env-Started sys v e).storage
      (init_storage_from_env-WhenReady sys Has t laws)
