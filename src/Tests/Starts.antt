-- ===== src/Tests/Starts.antt =====
-- Migrations and starts: server/migrate.go, server/server.go, cmd/computeid-server/main.go.
use computeid_go.Common.{
  ◌≡◌, refl, ◌⊎◌, inl, inr, ℕ, ◌+◌, length, String, false, none, some, List, [], ◌∷◌, ◌==◌,
  if◌then◌else◌, nat_eq,
}
use computeid_go.Server.Db.{Db}
use computeid_go.Server.Signer.{encode_key, signer_from_pem}
use computeid_go.Server.Migrate.{
  Link, Files, Entry, migrate, migrate_all, migrate_one, apply_version, apply_script,
  insert_version, commit_version, send, place, up_names, recorded, strip_suffix, sort_strings,
}
use computeid_go.Server.Migrate.Runs.{Changes}
use computeid_go.Server.Migrate.Again.{AllRecorded, later, migrate-Changes, migrate_idem}
use computeid_go.Server.Migrate.Live.{RunsFrom}
use computeid_go.Server.Start.{Server, connect_postgres}
use computeid_go.Server.Start.Laws.{HasKeys}
use computeid_go.Command.{Outside, Machine, start, migrated}
use computeid_go.Command.Laws.{Ready, start-Ready, start-live}
use computeid_go.Tests.Keys.{plain, empty_world}

abbrev files : Files
files = record {
  read_dir = inr (
      record { name = "001_init.up.sql"; is_dir = false }
      ∷ record { name = "001_init.down.sql"; is_dir = false }
      ∷ []);
  read_file = λ name.
      if name == "001_init.up.sql"
      then inr "CREATE"
      else if name == "001_init.down.sql"
      then inr "DROP"
      else inl "file does not exist";
}

-- The script makes the tables; where they are there already, it fails.
abbrev count : String → ℕ → String ⊎ ℕ
count body n =
    if body == "CREATE"
    then if nat_eq n 0 then inr 1 else inl "relation already exists"
    else if body == "DROP"
    then inr 0
    else inl "syntax error"

abbrev fresh_link : Link ℕ
fresh_link = record {
  store = record { tables = 0; versions = none };
  fault = λ n. none;
  statements = 0;
}

abbrev recorded_link : Link ℕ
recorded_link = record fresh_link {
  store = record { tables = 1; versions = some ("001_init" ∷ []) };
}

migrate-Changes_example :
    Changes count files fresh_link.store (migrate count files fresh_link).1.store
    × ((migrate count files fresh_link).0 ≡ none
        → AllRecorded files (migrate count files fresh_link).1.store)
migrate-Changes_example = migrate-Changes count files fresh_link

abbrev env : String → String
env name =
    if name == "DATABASE_URL" then "postgres://db" else if name == "JWT_SECRET" then "s" else ""

-- A script that runs in tables without counters only, and leaves one there.
abbrev first_counter : String → Db → String ⊎ Db
first_counter body d =
    if body == "CREATE"
    then elim d.counters [
      | [] ↦ inr (record d { counters = ("GPU", 0) ∷ [] })
      | c ∷ cs ↦ inl "relation already exists"
    ]
    else inl "syntax error"

abbrev outside : Outside
outside = record {
  to_lower = λ t. t;
  pgx = record { parse_config = λ u. none; new_pool = λ u. none; ping = λ u. none };
  crypto = plain;
  script = first_counter;
  files = files;
}

abbrev machine : Machine
machine = record { world = empty_world; versions = none }

all_recorded : AllRecorded files recorded_link.store
unfolding up_names strip_suffix recorded
all_recorded = (_, _, refl, refl, ((_, refl, refl), tt))

migrate_idem_example :
    ((migrate count files recorded_link).1.store ≡ recorded_link.store)
    × (((n : ℕ) → recorded_link.fault n ≡ none)
        → (entries : List Entry) × (files.read_dir ≡ inr entries)
          × (migrate count files recorded_link
              ≡ (none, later recorded_link (1 + length (sort_strings (up_names entries))))))
migrate_idem_example = migrate_idem count files recorded_link all_recorded

keys : HasKeys plain (migrated outside machine).world.db.signing_key
unfolding encode_key signer_from_pem
keys = record { generates = λ n. (_, refl); encodes = λ priv. (_, refl); reads = λ k h. (_, refl) }

start-live_example : (s : Server) × ((start outside env machine).0 ≡ inr s)
unfolding connect_postgres up_names strip_suffix sort_strings place recorded RunsFrom
start-live_example =
    start-live outside env machine (λ e. cc e) (λ e. cc e) refl (λ n. refl)
      (record { name = "001_init.up.sql"; is_dir = false }
        ∷ record { name = "001_init.down.sql"; is_dir = false }
        ∷ [])
      refl (inr (refl, ("CREATE", _, refl, refl, tt))) keys

-- The script that ran is the up migration's, and it cannot run a second time.
ran_once :
    (migrate count files fresh_link).1.store
    ≡ record { tables = 1; versions = some ("001_init" ∷ []) }
unfolding migrate migrate_all migrate_one apply_version apply_script insert_version commit_version
    send up_names strip_suffix sort_strings place recorded
ran_once = refl

start-Ready_example : Ready outside env machine start-live_example.0
start-Ready_example = start-Ready outside env machine start-live_example.0 start-live_example.1
