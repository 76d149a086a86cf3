-- ===== src/Setup/Database.antt =====
-- CreateDBConnection (persistence/sql_init.go). The file system and the SQL driver are parameters.
use Prim.Native.String
use Prim.Native.String.{len, slice}
use text.Mathlib.Text.{◌==◌, starts_with}
use completer.Prelude.{ℕ, String, List, [], ◌∷◌, Option, none, some, Bool, ◌||◌, if◌then◌else◌}
use completer.Setup.Config.{
  StartUp, ready, returned, invalid_db_driver, make_dir_failed, open_failed, ping_failed,
  no_initialisation, create_table_failed,
}

-- The fields of a parsed URL that are read, and the text that URL.String gives.
pub record Url : Type 0 where
  pub scheme : String
  pub path : String
  pub text : String

-- The statements of `tables`, by what they create.
pub data Statement : Type 0 where
  create_events create_events_with_index create_actors_index : Statement
  create_snapshots create_blobs : Statement

abbrev pub sqlite3_statements : List Statement
sqlite3_statements = create_events ∷ create_actors_index ∷ create_snapshots ∷ create_blobs ∷ []

abbrev pub mysql_statements : List Statement
mysql_statements = create_events_with_index ∷ create_snapshots ∷ create_blobs ∷ []

unfoldable pub tables : (driver : String) → Option (List Statement)
tables driver =
    if driver == "sqlite3"
    then some sqlite3_statements
    else if driver == "mysql"
    then some mysql_statements
    else none

-- filepath.Dir and os.MkdirAll, sql.Open, the connection's Ping, its limits of idle and open
-- connections, and its Exec, which gives the new database or an error.
pub record Driver (D : Type 0) : Type 0 where
  pub make_dir : (path : String) → Bool
  pub open_db : (driver uri : String) → Option D
  pub ping : D → Bool
  pub set_max_conns : (idle most : ℕ) → D → D
  pub exec : Statement → D → Option D

-- strings.TrimPrefix
unfoldable pub trim_prefix : (text prefix : String) → String
trim_prefix s p = if starts_with s p then slice s (len p) (len s) else s

-- The driver's part of the URL.
unfoldable pub database_uri : Url → String
unfolding trim_prefix
database_uri url = trim_prefix url.text (String.◌++◌ url.scheme "://")

module _ {D : Type 0} (driver : Driver D) where
  -- The loop over the statements.
  unfoldable pub exec_all : List Statement → D → StartUp D
  exec_all [] d = ready d
  exec_all (s ∷ ss) d = elim (driver.exec s d) [
    | none ↦ returned create_table_failed
    | some e ↦ exec_all ss e
  ]

  unfoldable pub set_limits : (scheme : String) → D → D
  set_limits scheme d =
      if scheme == "sqlite3" then driver.set_max_conns 1 1 d else driver.set_max_conns 10 50 d

  -- From sql.Open on.
  unfoldable pub connect : Url → StartUp D
  unfolding database_uri tables exec_all set_limits
  connect url = elim (driver.open_db url.scheme (database_uri url)) [
    | none ↦ returned open_failed
    | some d ↦
        if driver.ping d
        then elim (tables url.scheme) [
          | none ↦ returned no_initialisation
          | some statements ↦ exec_all statements (set_limits url.scheme d)
        ]
        else returned ping_failed
  ]

  unfoldable pub create_db_connection : Url → StartUp D
  unfolding connect
  create_db_connection url =
      if url.scheme == "mysql" || url.scheme == "sqlite3"
      then (if url.scheme == "sqlite3"
          then (if driver.make_dir url.path then connect url else returned make_dir_failed)
          else connect url)
      else returned invalid_db_driver
