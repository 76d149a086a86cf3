-- ===== src/Setup/Config.antt =====
-- The settings of a deployment, read from the environment (setup/setup.go). `env` stands for
-- os.Getenv, which gives an empty text for a variable that is not set, and `atoi` for strconv.Atoi,
-- for numbers that are not negative.
use Prim.Native.String
use text.Mathlib.Text.{◌==◌}
use completer.Prelude.{ℕ, ◌≡◌, refl, String, List, [], ◌∷◌, Option, none, some, if◌then◌else◌}

pub data StartError : Type 0 where
  invalid_db_url invalid_db_driver make_dir_failed open_failed ping_failed : StartError
  no_initialisation create_table_failed : StartError
  invalid_functions_url listen_failed : StartError

pub data StartPanic : Type 0 where
  not_an_int : (key : String) → StartPanic
  divide_by_zero : StartPanic
  dial_failed : (address : String) → StartPanic
  spawn_failed : (name : String) → StartPanic

-- What the start comes to: a value, an error that is returned, a panic, or the exit that follows a
-- fatal log.
pub data StartUp (A : Type 0) : Type 0 where
  ready : A → StartUp A
  returned : StartError → StartUp A
  panicked : StartPanic → StartUp A
  exited : StartUp A

infixl 5 ◌>>=◌
abbrev pub ◌>>=◌ : {A B : Type 0} → StartUp A → (A → StartUp B) → StartUp B
ready a >>= f = f a
returned e >>= f = returned e
panicked p >>= f = panicked p
exited >>= f = exited

-- `configDefaults` as InitFromEnv fills it; `cwd` is the working directory with slashes.
abbrev pub config_defaults : (cwd : String) → List (String × String)
config_defaults cwd =
    ("API_URL", "http://localhost:8080/invoke")
    ∷ ("DB_URL", String.◌++◌ "sqlite3://" (String.◌++◌ cwd "/data/flow.db"))
    ∷ ("LOG_LEVEL", "info")
    ∷ ("LISTEN", ":8081")
    ∷ ("GRPC_LISTEN", "127.0.0.1:9999")
    ∷ ("SNAPSHOT_INTERVAL", "1000")
    ∷ ("REQUEST_TIMEOUT", "60000ms")
    ∷ ("CLUSTER_NODE_COUNT", "1")
    ∷ ("CLUSTER_SHARD_COUNT", "1")
    ∷ ("CLUSTER_NODE_PREFIX", "node-")
    ∷ ("CLUSTER_NODE_ID", "0")
    ∷ ("CLUSTER_NODE_PORT", "19081")
    ∷ []

-- `configDefaults[key]`; a missing key gives an empty text.
unfoldable pub default_of : List (String × String) → String → String
default_of [] key = ""
default_of ((k, v) ∷ rest) key = if k == key then v else default_of rest key

module _ (env : String → String) (atoi : String → Option ℕ) (cwd : String) where
  unfoldable pub get_string_config : String → String
  unfolding default_of
  get_string_config key = if env key == "" then default_of (config_defaults cwd) key else env key

  unfoldable pub get_int_config : String → StartUp ℕ
  unfolding get_string_config
  get_int_config key = elim (atoi (get_string_config key)) [
    | none ↦ panicked (not_an_int key)
    | some n ↦ ready n
  ]

-- What holds of the value of a start, if it is ready.
abbrev pub WhenReady : {A : Type 0} → (A → Type 0) → StartUp A → Type 0
WhenReady P (ready a) = P a
WhenReady P (returned e) = Unit
WhenReady P (panicked p) = Unit
WhenReady P exited = Unit

-- A step may use the equation of the one before it.
pub WhenReady-bind :
    {A B : Type 0} (P : B → Type 0) (m : StartUp A) (f : A → StartUp B)
    → ((a : A) → m ≡ ready a → WhenReady P (f a))
    → WhenReady P (m >>= f)
WhenReady-bind P (ready a) f k = k a refl
WhenReady-bind P (returned e) f k = tt
WhenReady-bind P (panicked p) f k = tt
WhenReady-bind P exited f k = tt

pub ready-injective : {A : Type 0} {a b : A} → StartUp.ready a ≡ ready b → a ≡ b
ready-injective e = cc
