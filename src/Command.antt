-- ===== src/Command.antt =====
-- cmd/computeid-server/main.go: the configuration, the start of the server, and how it ends.
--
-- The environment, `strings.ToLower` and pgx are parameters, and so are the directory of migrations
-- and what a script does to the tables (Server/Migrate). A table that no script has created yet
-- holds nothing.
pub mod Laws
use Prim.Native.String
use computeid_go.Common.{
  ℕ, String, true, false, Bool, Option, none, some, List, ◌⊎◌, inl, inr, ◌==◌, if◌then◌else◌,
}
use computeid_go.Server.Db.{Db, World}
use computeid_go.Server.Signer.{Crypto}
use computeid_go.Server.Migrate.{Store, Link, Files, migrate}
use computeid_go.Server.Start.{ServerConfig, Server, new_server, Pgx, connect_postgres}

infixr 65 ◌++◌
abbrev ◌++◌ : String → String → String
s ++ t = String.◌++◌ s t

pub data LogLevel : Type 0 where
  debug info warn error : LogLevel

pub record Config : Type 0 where
  pub database_url : String
  pub jwt_secret : String
  pub admin_token : String
  pub port : String
  pub log_level : LogLevel

-- The switch on `LOG_LEVEL`.
unfoldable pub level_of : String → LogLevel
level_of l =
    if l == "debug"
    then debug
    else if l == "warn"
    then warn
    else if l == "error"
    then error
    else info

abbrev pub or_default_port : String → String
or_default_port p = if p == "" then "8088" else p

abbrev pub config_of : (String → String) → (String → String) → Config
config_of to_lower env = record {
  database_url = env "DATABASE_URL";
  jwt_secret = env "JWT_SECRET";
  admin_token = env "ADMIN_TOKEN";
  port = or_default_port (env "PORT");
  log_level = level_of (to_lower (env "LOG_LEVEL"));
}

-- `loadConfig`: `env` is `os.Getenv`.
unfoldable pub load_config : (String → String) → (String → String) → String ⊎ Config
load_config to_lower env =
    if env "DATABASE_URL" == ""
    then inl "DATABASE_URL is required"
    else if env "JWT_SECRET" == ""
    then inl "JWT_SECRET is required"
    else inr (config_of to_lower env)

-- What the command takes from outside.
pub record Outside : Type 0 where
  pub to_lower : String → String
  pub pgx : Pgx
  pub crypto : Crypto
  pub script : String → Db → String ⊎ Db
  pub files : Files

-- The world of the server, and the rows of `schema_migrations`.
pub record Machine : Type 0 where
  pub world : World
  pub versions : Option (List String)

abbrev pub link_of : Machine → Link Db
link_of m = record {
  store = record { tables = m.world.db; versions = m.versions };
  fault = m.world.backend.fault;
  statements = m.world.statements;
}

abbrev pub with_link : Machine → Link Db → Machine
with_link m l = record {
  world = record (m.world) { db = l.store.tables; statements = l.statements };
  versions = l.store.versions;
}

-- `server.Migrate`, on the machine.
abbrev pub migrated : Outside → Machine → Machine
migrated o m = with_link m (migrate o.script o.files (link_of m)).1

abbrev pub server_config : Config → ServerConfig
server_config cfg = record {
  has_db = true;
  jwt_secret = cfg.jwt_secret;
  admin_token = cfg.admin_token;
}

unfoldable pub start_server : Outside → Config → Machine → (String ⊎ Server) × Machine
start_server o cfg m =
    let r = new_server o.crypto (server_config cfg) (m.world) in (r.0, record m { world = r.1 })

unfoldable pub start_migrated :
    Outside → Config → Option String → Machine → (String ⊎ Server) × Machine
start_migrated o cfg (some e) m = (inl ("migrate: " ++ e), m)
start_migrated o cfg none m = start_server o cfg m

unfoldable pub start_connected :
    Outside → Config → Option String → Machine → (String ⊎ Server) × Machine
start_connected o cfg (some e) m = (inl e, m)
start_connected o cfg none m =
    start_migrated o cfg (migrate o.script o.files (link_of m)).0 (migrated o m)

unfoldable pub start_configured : Outside → String ⊎ Config → Machine → (String ⊎ Server) × Machine
start_configured o (inl e) m = (inl e, m)
start_configured o (inr cfg) m = start_connected o cfg (connect_postgres o.pgx cfg.database_url) m

-- `run`, up to the server that listens.
unfoldable pub start : Outside → (String → String) → Machine → (String ⊎ Server) × Machine
start o env m = start_configured o (load_config o.to_lower env) m

-- What ends the wait: a signal, after which `Shutdown` may have an error, or the listener's error.
pub data Ending : Type 0 where
  signalled : Option String → Ending
  listen_failed : String → Ending

abbrev pub end_of : Ending → Option String
end_of (signalled r) = r
end_of (listen_failed e) = some e

-- `run`: its error, if there is one; `ending` is what the server that listens meets.
unfoldable pub run : Outside → (String → String) → (Server → Ending) → Machine → Option String
run o env ending m = elim (start o env m).0 [ inl e ↦ some e | inr s ↦ end_of (ending s) ]

-- `main`: the exit status, and what it prints.
abbrev pub exit_of : Option String → ℕ × String
exit_of none = (0, "")
exit_of (some e) = (1, "fatal: " ++ e)

unfoldable pub main : Outside → (String → String) → (Server → Ending) → Machine → ℕ × String
main o env ending m = exit_of (run o env ending m)
