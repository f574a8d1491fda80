-- ===== src/Command/Laws.antt =====
-- What holds once the command listens, and when it does (cmd/computeid-server/main.go).
use computeid_go.Common.{
  arith, ◌≡◌, refl, ◌≢◌, ◌↔◌, ap, sym, ◌∙◌, ℕ, String, false, none, some, List, inl, inr, ◌==◌,
  eq_iff, text_cases, Option-cases,
}
use computeid_go.Server.Db.{Sum-cases, inr_injective}
use computeid_go.Server.Migrate.{Entry, up_names, sort_strings, migrate}
use computeid_go.Server.Migrate.Again.{AllRecorded, migrate-Changes}
use computeid_go.Server.Migrate.Live.{on_record, RunsFrom, migrate-Fine}
use computeid_go.Server.Start.{Server, connect_postgres, new_server}
use computeid_go.Server.Start.Laws.{HasKeys, NoFaultIn, new_server-live, new_server_sound}
use computeid_go.Command.{
  Config, config_of, load_config, Outside, Machine, link_of, migrated, server_config, start_server,
  start_migrated, start_connected, start_configured, start, Ending, signalled, listen_failed,
  end_of, exit_of, run, main,
}

-- The configuration is the environment's, where the address of the database and the secret are set.
load_config_iff :
    (to_lower env : String → String) (cfg : Config)
    → (load_config to_lower env ≡ inr cfg)
      ↔ ((env "DATABASE_URL" ≢ "") × (env "JWT_SECRET" ≢ "") × (config_of to_lower env ≡ cfg))
unfolding load_config
load_config_iff to_lower env cfg = elim (text_cases (env "DATABASE_URL") "") [
  | inl e ↦ (λ h. cc (rw (e, load_config) at h), λ h. absurd (h.0 e))
  | inr url ↦ elim (text_cases (env "JWT_SECRET") "") [
    | inl e ↦ (λ h. cc (rw (url, load_config, e) at h), λ h. absurd (h.1 e))
    | inr secret ↦ (
      λ h. (
        set "DATABASE_URL" url,
        set "JWT_SECRET" secret,
        inr_injective (rw (url, load_config, secret) at h),
      ),
      λ h. rw (url, secret) (ap inr h.2),
    )
  ]
]
  where
    set : (name : String) → (env name == "") ≡ false → env name ≢ ""
    set name h e = cc (h, (eq_iff (env name) "").1 e)

module _ (o : Outside) (env : String → String) (m : Machine) where
  -- What a server that listens rests on.
  pub record Ready (s : Server) : Type 0 where
    pub url_set : env "DATABASE_URL" ≢ ""
    pub connected : connect_postgres o.pgx (env "DATABASE_URL") ≡ none
    pub secret_set : s.jwt_secret ≢ ""
    pub secret : s.jwt_secret ≡ env "JWT_SECRET"
    pub admin_token : s.admin_token ≡ env "ADMIN_TOKEN"
    pub recorded : AllRecorded o.files (link_of (start o env m).1).store

  start-step :
      (cfg : Config)
      → load_config o.to_lower env ≡ inr cfg
      → connect_postgres o.pgx cfg.database_url ≡ none
      → (migrate o.script o.files (link_of m)).0 ≡ none
      → start o env m ≡ start_server o cfg (migrated o m)
  unfolding start start_configured start_connected start_migrated
  start-step cfg good answers done = rw (good, start, answers, done) refl

  Ready-of :
      (cfg : Config) (s : Server)
      → load_config o.to_lower env ≡ inr cfg
      → connect_postgres o.pgx cfg.database_url ≡ none
      → (migrate o.script o.files (link_of m)).0 ≡ none
      → (start o env m).0 ≡ inr s
      → Ready s
  unfolding start_server
  Ready-of cfg s good answers done h =
      let step = start-step cfg good answers done in
      let (url, secret, same) = (load_config_iff o.to_lower env cfg).0 good in
      let made : (new_server o.crypto (server_config cfg) (migrated o m).world).0 ≡ inr s =
        rw step at h in
      let (_, set, kept, admin, _) =
        new_server_sound o.crypto (server_config cfg) (migrated o m).world s made in
      record {
        url_set = url;
        connected = ap (λ (c : Config). connect_postgres o.pgx c.database_url) same ∙ answers;
        secret_set = λ e. set (sym kept ∙ e);
        secret = kept ∙ ap (λ (c : Config). c.jwt_secret) (sym same);
        admin_token = admin ∙ ap (λ (c : Config). c.admin_token) (sym same);
        recorded = rw step ((migrate-Changes o.script o.files (link_of m)).1 done);
      }

  -- When the command gets as far as listening, its database answered, its secret is the one of the
  -- environment and not empty, its admin token is the environment's, and every up migration of the
  -- directory has its record.
  pub start-Ready : (s : Server) → (start o env m).0 ≡ inr s → Ready s
  unfolding start start_configured start_connected start_migrated start_server
  start-Ready s h = elim (Sum-cases (load_config o.to_lower env)) [
    | inl (e, bad) ↦ cc (rw (bad, start) at h)
    | inr (cfg, good) ↦ elim (Option-cases (connect_postgres o.pgx cfg.database_url)) [
      | inr (e, down) ↦ cc (rw (good, start, down) at h)
      | inl answers ↦ elim (Option-cases (migrate o.script o.files (link_of m)).0) [
        | inr (e, stopped) ↦ cc (rw (good, start, answers, stopped) at h)
        | inl done ↦ Ready-of cfg s good answers done h
      ]
    ]
  ]

  -- The command gets as far as listening if the address and the secret are set, the database
  -- answers, no statement fails, the directory of migrations can be read, each up migration in it that
  -- is not on record can be read and its script runs, in its turn, on the tables as they then are, and
  -- a signing key can be had: a stored one is read, or one is generated and encoded.
  pub start-live :
      env "DATABASE_URL" ≢ ""
      → env "JWT_SECRET" ≢ ""
      → connect_postgres o.pgx (env "DATABASE_URL") ≡ none
      → NoFaultIn m.world
      → (entries : List Entry) → o.files.read_dir ≡ inr entries
      → RunsFrom o.script o.files
          (sort_strings (up_names entries))
          (on_record m.versions)
          m.world.db
      → HasKeys o.crypto (migrated o m).world.db.signing_key
      → (s : Server) × ((start o env m).0 ≡ inr s)
  unfolding start_server
  start-live url secret answers up entries listed runs keys =
      let cfg = config_of o.to_lower env in
      let good = (load_config_iff o.to_lower env cfg).1 (url, secret, refl) in
      let done = migrate-Fine o.script o.files entries listed (link_of m) up runs in
      let (s, made) =
        new_server-live o.crypto (server_config cfg) (migrated o m).world refl secret up keys in
      (s, rw (start-step cfg good answers done) made)

  -- The command ends with status zero exactly if it got as far as listening and a signal ended it
  -- with a clean shutdown; in every other case the status is one and the error is printed.
  pub main_iff :
      (ending : Server → Ending)
      → ((main o env ending m).0 ≡ 0)
        ↔ ((s : Server) × ((start o env m).0 ≡ inr s) × (ending s ≡ signalled none))
  unfolding main run
  main_iff ending = elim (Sum-cases (start o env m).0) [
    | inl (e, bad) ↦ (λ h. absurd (one_ne (rw (bad, main, run) at h)), λ h. cc (bad, h.1))
    | inr (s, good) ↦ (
      λ h. (s, good, clean (ending s) (rw (good, main, run) at h)),
      λ h.
          let same : s ≡ h.0 = inr_injective (sym good ∙ h.1) in
          rw (good, main, run, same, h.2) refl,
    )
  ]
    where
      one_ne : ◌≢◌ {A = ℕ} 1 0
      one_ne e = omega arith

      clean : (e : Ending) → (exit_of (end_of e)).0 ≡ 0 → e ≡ signalled none
      clean (signalled none) h = refl
      clean (signalled (some t)) h = absurd (one_ne h)
      clean (listen_failed t) h = absurd (one_ne h)
