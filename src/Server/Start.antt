-- ===== src/Server/Start.antt =====
-- `New` and `handleHealth` of server/server.go, and `ConnectPostgres` of server/postgres.go.
--
-- Of the logger, its request lines are modelled. A pool that does not answer is closed and dropped.
pub mod Laws
use Prim.Native.String
use computeid_go.Common.{
  ℕ, ◌-◌, ◌/◌, String, Bool, true, false, not, Option, none, some, ◌⊎◌, inl, inr, ◌==◌,
  if◌then◌else◌,
}
use computeid_go.Sys.{Time}
use computeid_go.Server.Db.{M, ◌>>=◌, pure, Sql, execute, read_clock}
use computeid_go.Server.Text.{Response, answer, error}
use computeid_go.Server.Signer.{Crypto, Signer, load_or_init_signer}

infixr 65 ◌++◌
abbrev ◌++◌ : String → String → String
s ++ t = String.◌++◌ s t

-- `Config`: whether its `DB` is there, and its texts.
pub record ServerConfig : Type 0 where
  pub has_db : Bool
  pub jwt_secret : String
  pub admin_token : String

pub record Server : Type 0 where
  pub signer : Signer
  pub jwt_secret : String
  pub admin_token : String

abbrev pub server_with : ServerConfig → String ⊎ Signer → String ⊎ Server
server_with cfg (inl e) = inl ("init signer: " ++ e)
server_with cfg (inr s) =
    inr (record { signer = s; jwt_secret = cfg.jwt_secret; admin_token = cfg.admin_token })

-- `New`
unfoldable pub new_server : Crypto → ServerConfig → M (String ⊎ Server)
new_server c cfg =
    if not cfg.has_db
    then pure (inl "server: DB is required")
    else if cfg.jwt_secret == ""
    then pure (inl "server: JWTSecret is required")
    else (do s ← load_or_init_signer c; pure (server_with cfg s))

pub record Health : Type 0 where
  pub status : String
  pub timestamp : Time
  pub algorithm : String

-- `SELECT 1`
abbrev pub select_one : Sql (Unit {0})
select_one st d = inr (tt, d)

unfoldable pub health_answer : Server → String ⊎ Unit {0} → M (Response Health)
health_answer s (inl e) = pure (error 503 ("db unreachable: " ++ e))
health_answer s (inr _) = do
  t ← read_clock
  pure (answer 200 (record { status = "ok"; timestamp = t; algorithm = s.signer.algorithm }))

-- `handleHealth`
unfoldable pub handle_health : Server → M (Response Health)
handle_health s = do r ← execute select_one; health_answer s r

-- pgx: the errors of `pgxpool.ParseConfig`, `pgxpool.NewWithConfig` and `Ping`.
pub record Pgx : Type 0 where
  pub parse_config : String → Option String
  pub new_pool : String → Option String
  pub ping : String → Option String

-- `ConnectPostgres`: its error, if there is one.
unfoldable pub connect_postgres : Pgx → String → Option String
connect_postgres p url = elim (p.parse_config url) [
  | some e ↦ some ("parse DATABASE_URL: " ++ e)
  | none ↦ elim (p.new_pool url) [
    | some e ↦ some ("connect postgres: " ++ e)
    | none ↦ elim (p.ping url) [ some e ↦ some ("ping postgres: " ++ e) | none ↦ none ]
  ]
]

-- What `statusRecorder` holds once the answer is written: a handler writes one header.
abbrev pub status_of : {A : Type 0} → Response A → ℕ
status_of (answer status a) = status
status_of (error status e) = status

pub record LogLine : Type 0 where
  pub method : String
  pub path : String
  pub status : ℕ
  pub duration_ms : ℕ

-- `logMiddleware`: the answer of the handler that it wraps, and the line that it logs. The clock of
-- `time.Since` does not run backwards.
unfoldable pub log_middleware :
    {A : Type 0} → (String → String → M (Response A)) → String → String → M (Response A × LogLine)
log_middleware next method path = do
  start ← read_clock
  r ← next method path
  stop ← read_clock
  pure (
    r,
    record {
      method = method;
      path = path;
      status = status_of r;
      duration_ms = (stop - start) / 1000000;
    },
  )
