-- ===== src/Server/Start/Laws.antt =====
-- When a server starts, and with what (server/server.go).
use computeid_go.Common.{
  ◌≡◌, refl, ◌≢◌, ap, ◌∙◌, ℕ, String, true, Option, none, some, ◌⊎◌, inl, inr, text_ne, text_cases,
  Option-cases, Bool-cases, eq_iff,
}
use computeid_go.Server.Db.{KeyRow, World, execute-done, counted, Sum-cases, inr_injective}
use computeid_go.Server.Signer.{
  Crypto, Signer, encode_key, insert_key, persist_key, signer_from_pem, generate_key,
  generate_and_persist_signer, init_from, load_or_init_signer,
}
use computeid_go.Server.Signer.Laws.{load-Up}
use computeid_go.Server.Start.{ServerConfig, Server, new_server}

-- A key can be had: one is generated and encoded, and the one that is stored, if any, is read.
pub record HasKeys (c : Crypto) (stored : Option KeyRow) : Type 0 where
  pub generates : (n : ℕ) → (priv : String) × (c.generate_key n ≡ inr priv)
  pub encodes : (priv : String) → (pems : String × String) × (encode_key c priv ≡ inr pems)
  pub reads :
      (k : KeyRow)
      → stored ≡ some k
      → (s : Signer) × (signer_from_pem c k.private_key_pem k.public_key_pem k.algorithm ≡ inr s)

abbrev pub NoFaultIn : World → Type 0
NoFaultIn w = (n : ℕ) → w.backend.fault n ≡ none

module _ (c : Crypto) where
  persist_key-live :
      (priv : String) (pems : String × String) (w : World)
      → NoFaultIn w
      → w.db.signing_key ≡ none
      → (s : Signer) × ((persist_key priv pems w).0 ≡ inr s)
  unfolding persist_key insert_key
  persist_key-live priv pems w up empty =
      let row : KeyRow = record {
        private_key_pem = pems.0;
        public_key_pem = pems.1;
        algorithm = "RSA-SHA256";
      } in
      let done =
        execute-done (insert_key pems.0 pems.1) w tt (record (w.db) { signing_key = some row })
          (up w.statements) (rw (empty, insert_key) refl) in
      let s : Signer = record {
        priv = priv;
        pub_pem = pems.1;
        priv_pem = pems.0;
        algorithm = "RSA-SHA256";
      } in
      (s, rw done refl)

  load_or_init_signer-live :
      (w : World)
      → NoFaultIn w
      → HasKeys c w.db.signing_key
      → (s : Signer) × ((load_or_init_signer c w).0 ≡ inr s)
  unfolding init_from generate_and_persist_signer generate_key
  load_or_init_signer-live w up keys = elim (Option-cases w.db.signing_key) [
    | inr (k, there) ↦
        let (s, read) = keys.reads k there in
        (s, rw (load-Up c w (up w.statements), there, init_from, read) refl)
    | inl empty ↦
        let (priv, made) = keys.generates w.sys.draws in
        let (pems, written) = keys.encodes priv in
        let w' = (generate_key c (counted w)).1 in
        let (s, stored) = persist_key-live priv pems w' up empty in
        let generated : (generate_and_persist_signer c (counted w)).0 ≡ inr s =
          rw (made, generate_and_persist_signer, written) stored in
        let loaded =
          load-Up c w (up w.statements) ∙ ap (λ k. init_from c (inr k) (counted w)) empty in
        (s, ap (λ (r : (String ⊎ Signer) × World). r.0) loaded ∙ generated)
  ]

  -- If no statement fails and a key can be had, a server with a database and a secret is made, with
  -- the secret and the admin token of its configuration.
  pub new_server-live :
      (cfg : ServerConfig) (w : World)
      → cfg.has_db ≡ true
      → cfg.jwt_secret ≢ ""
      → NoFaultIn w
      → HasKeys c w.db.signing_key
      → (s : Server) × ((new_server c cfg w).0 ≡ inr s)
  unfolding new_server
  new_server-live cfg w db secret up keys =
      let (sg, loaded) = load_or_init_signer-live w up keys in
      let s : Server = record {
        signer = sg;
        jwt_secret = cfg.jwt_secret;
        admin_token = cfg.admin_token;
      } in
      (s, rw (db, text_ne cfg.jwt_secret "" secret, loaded) refl)

  -- A server that is made has a database behind it and a secret that is not empty, and keeps the
  -- secret, the admin token and the signer that it was made with.
  pub new_server_sound :
      (cfg : ServerConfig) (w : World) (s : Server)
      → (new_server c cfg w).0 ≡ inr s
      → (cfg.has_db ≡ true)
        × (cfg.jwt_secret ≢ "")
        × (s.jwt_secret ≡ cfg.jwt_secret)
        × (s.admin_token ≡ cfg.admin_token)
        × ((load_or_init_signer c w).0 ≡ inr s.signer)
  unfolding new_server
  new_server_sound cfg w s h = elim (Bool-cases cfg.has_db) [
    | inr missing ↦ cc (rw (missing, new_server) at h)
    | inl db ↦ elim (text_cases cfg.jwt_secret "") [
      | inl e ↦ cc (rw (db, new_server, e) at h)
      | inr ne ↦ elim (Sum-cases (load_or_init_signer c w).0) [
        | inl (e, lost) ↦ cc (rw (db, new_server, ne, lost) at h)
        | inr (sg, loaded) ↦
            let made : record {
              signer = sg;
              jwt_secret = cfg.jwt_secret;
              admin_token = cfg.admin_token;
            }
                ≡ s =
              inr_injective (rw (db, new_server, ne, loaded) at h) in
            rw (← made) (db, (λ e. cc (ne, (eq_iff cfg.jwt_secret "").1 e)), refl, refl, loaded)
      ]
    ]
  ]
