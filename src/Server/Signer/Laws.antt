-- ===== src/Server/Signer/Laws.antt =====
-- Signatures verify, and the key outlives a restart (server/signer.go).
use Prim.Native.String
use computeid_go.Common.{
  ◌≡◌, refl, inl, inr, String, true, Option, none, some, ap, ◌∙◌, Option-cases,
}
use computeid_go.Server.Db.{
  KeyRow, World, counted, Up, execute-fault, execute-done, Sum-cases, inr_injective,
}
use computeid_go.Server.Signer.{
  CanonicalPayload, rsa_key, Crypto, Signer, sign, verify, signer_from_pem, insert_key, select_key,
  generate_key, encode_key, persist_key, generate_and_persist_signer, init_from,
  load_or_init_signer,
}

-- What is relied on of the standard library: base64 decodes what it encoded, PKCS #1 v1.5 verifies
-- what it signed, and a private key survives its PEM form.
pub record IsSound (c : Crypto) : Type 0 where
  pub base64 : (sig : String) → c.base64_decode (c.base64_encode sig) ≡ some sig
  pub pkcs1v15 :
      (priv digest sig : String)
      → c.sign_pkcs1v15 priv digest ≡ inr sig
      → c.verify_pkcs1v15 (c.public_of priv) digest sig ≡ true
  pub pem : (kind block : String) → c.pem_decode (c.pem_encode kind block) ≡ some block
  pub pkcs8 :
      (priv der : String) → c.marshal_private priv ≡ inr der → c.parse_private der ≡ rsa_key priv

-- With sound cryptography, what a signer signs, a signer on the same key verifies.
pub verify-sign :
    (c : Crypto)
    → IsSound c
    → (s t : Signer) (p : CanonicalPayload) (sig_b64 signed_json : String) → s.priv ≡ t.priv
    → sign c s p ≡ inr (sig_b64, signed_json)
    → verify c t signed_json sig_b64 ≡ true
unfolding sign verify
verify-sign c sound s t p sig_b64 signed_json same h = elim (Sum-cases (c.marshal_payload p)) [
  | inl (e, m) ↦ cc (rw (m, sign) at h)
  | inr (j, m) ↦ elim (Sum-cases (c.sign_pkcs1v15 s.priv (c.sha256 j))) [
    | inl (e, r) ↦ cc (rw (m, sign, r) at h)
    | inr (sig, r) ↦
        let both : ◌≡◌ {A = String × String} (c.base64_encode sig, j) (sig_b64, signed_json) =
          inr_injective (rw (m, sign, r) at h) in
        let text : c.base64_encode sig ≡ sig_b64 = ap (λ (u : String × String). u.0) both in
        let bytes : j ≡ signed_json = ap (λ (u : String × String). u.1) both in
        rw (← text, verify, sound.base64 sig)
          (rw (← bytes, ← same) (sound.pkcs1v15 s.priv (c.sha256 j) sig r))
  ]
]

-- The row that holds a signer's key.
abbrev pub key_row : Signer → KeyRow
key_row s = record {
  private_key_pem = s.priv_pem;
  public_key_pem = s.pub_pem;
  algorithm = "RSA-SHA256";
}

abbrev new_signer : String → String × String → Signer
new_signer priv pems = record {
  priv = priv;
  pub_pem = pems.1;
  priv_pem = pems.0;
  algorithm = "RSA-SHA256";
}

-- A key that is encoded is read back.
encode_key-signer :
    (c : Crypto) (priv : String) (pems : String × String)
    → IsSound c
    → encode_key c priv ≡ inr pems
    → signer_from_pem c pems.0 pems.1 "RSA-SHA256" ≡ inr (new_signer priv pems)
unfolding encode_key signer_from_pem
encode_key-signer c priv pems sound h = elim (Sum-cases (c.marshal_private priv)) [
  | inl (e, m) ↦ cc (rw (m, encode_key) at h)
  | inr (der, m) ↦ elim (Sum-cases (c.marshal_public (c.public_of priv))) [
    | inl (e, n) ↦ cc (rw (m, encode_key, n) at h)
    | inr (pub_der, n) ↦
        let both : ◌≡◌ {A = String × String}
            (c.pem_encode "PRIVATE KEY" der, c.pem_encode "PUBLIC KEY" pub_der) pems =
          inr_injective (rw (m, encode_key, n) at h) in
        rw (← both) (rw (sound.pem "PRIVATE KEY" der, signer_from_pem, sound.pkcs8 priv der m) refl)
  ]
]

-- A key that is put into the empty table is there afterwards.
persist_key-stored :
    (priv : String) (pems : String × String) (w : World) (s : Signer)
    → w.db.signing_key ≡ none
    → (persist_key priv pems w).0 ≡ inr s
    → (new_signer priv pems ≡ s)
      × ((persist_key priv pems w).1.db.signing_key ≡ some (key_row (new_signer priv pems)))
unfolding persist_key insert_key
persist_key-stored priv pems w s empty h = elim (Option-cases (w.backend.fault w.statements)) [
  | inr (e, f) ↦ cc (rw (execute-fault (insert_key pems.0 pems.1) w e f) at h)
  | inl up ↦
      let done =
        execute-done (insert_key pems.0 pems.1) w tt
          (record (w.db) { signing_key = some (key_row (new_signer priv pems)) }) up
          (rw (empty, insert_key) refl) in
      (inr_injective (rw done at h), rw done refl)
]

module _ (c : Crypto) (sound : IsSound c) (w : World) (s : Signer) where
  -- A signer that was generated over an empty table left its own key there.
  generated-stored :
      w.db.signing_key ≡ none
      → (generate_and_persist_signer c w).0 ≡ inr s
      → ((generate_and_persist_signer c w).1.db.signing_key ≡ some (key_row s))
        × (signer_from_pem c s.priv_pem s.pub_pem "RSA-SHA256" ≡ inr s)
  unfolding generate_and_persist_signer generate_key
  generated-stored empty h = elim (Sum-cases (c.generate_key w.sys.draws)) [
    | inl (e, g) ↦ cc (rw (g, generate_and_persist_signer) at h)
    | inr (priv, g) ↦ elim (Sum-cases (encode_key c priv)) [
      | inl (e, k) ↦ cc (rw (g, generate_and_persist_signer, k) at h)
      | inr (pems, k) ↦
          let w' = (generate_key c w).1 in
          let (same, stored) =
            persist_key-stored priv pems w' s empty (rw (g, generate_and_persist_signer, k) at h) in
          (rw (g, k) (rw (← same) stored), rw (← same) (encode_key-signer c priv pems sound k))
    ]
  ]

-- The switch after the query: the row that is there, or a fault of the query.
module _ (c : Crypto) (w : World) where
  load-fault :
      (e : String)
      → w.backend.fault w.statements ≡ some e
      → (load_or_init_signer c w).0 ≡ inl (String.◌++◌ "load signing key: " e)
  unfolding load_or_init_signer init_from
  load-fault e f = rw (execute-fault select_key w e f)

  pub load-Up : Up w → load_or_init_signer c w ≡ init_from c (inr w.db.signing_key) (counted w)
  unfolding load_or_init_signer select_key
  load-Up up = rw (execute-done select_key w w.db.signing_key w.db up refl)

-- After a first start over an empty table the signer's own key is stored, and it can be read.
pub load_or_init_signer-stored :
    (c : Crypto)
    → IsSound c
    → (w : World) (s : Signer) → w.db.signing_key ≡ none
    → (load_or_init_signer c w).0 ≡ inr s
    → ((load_or_init_signer c w).1.db.signing_key ≡ some (key_row s))
      × (signer_from_pem c s.priv_pem s.pub_pem "RSA-SHA256" ≡ inr s)
unfolding init_from
load_or_init_signer-stored c sound w s empty h =
    elim (Option-cases (w.backend.fault w.statements)) [
      | inr (e, f) ↦ cc (load-fault c w e f)
      | inl up ↦
          let e : load_or_init_signer c w ≡ generate_and_persist_signer c (counted w) =
            load-Up c w up ∙ ap (λ (k : Option KeyRow). init_from c (inr k) (counted w)) empty in
          rw e (generated-stored c sound (counted w) s empty (rw e at h))
    ]

-- With sound cryptography, a server that started over an empty table and one that starts later
-- over the table as it was left, whose query does not fail, have the same signer: key, public key
-- and algorithm survive a restart.
pub load_or_init_signer-restart :
    (c : Crypto)
    → IsSound c
    → (w w' : World) (s : Signer) → w.db.signing_key ≡ none
    → (load_or_init_signer c w).0 ≡ inr s
    → Up w'
    → w'.db.signing_key ≡ (load_or_init_signer c w).1.db.signing_key
    → (load_or_init_signer c w').0 ≡ inr s
unfolding init_from
load_or_init_signer-restart c sound w w' s empty h up kept =
    let (stored, read) = load_or_init_signer-stored c sound w s empty h in
    rw (load-Up c w' up, kept ∙ stored) read

persist_key-kept :
    (priv : String) (pems : String × String) (w : World) (s : Signer) (k : KeyRow)
    → w.db.signing_key ≡ some k
    → (persist_key priv pems w).0 ≡ inr s
    → (new_signer priv pems ≡ s) × ((persist_key priv pems w).1.db.signing_key ≡ some k)
unfolding persist_key insert_key
persist_key-kept priv pems w s k other h = elim (Option-cases (w.backend.fault w.statements)) [
  | inr (e, f) ↦ cc (rw (execute-fault (insert_key pems.0 pems.1) w e f) at h)
  | inl up ↦
      let done = execute-done (insert_key pems.0 pems.1) w tt w.db up (simp (other, insert_key)) in
      (inr_injective (rw done at h), rw done other)
]

-- If another process has stored a key by the time that a server inserts its own, and the server
-- gets a signer, it is one on the key that it generated, while the table keeps the other.
pub generate_and_persist_signer-race :
    (c : Crypto) (w : World) (s : Signer) (k : KeyRow)
    → w.db.signing_key ≡ some k
    → (generate_and_persist_signer c w).0 ≡ inr s
    → (c.generate_key w.sys.draws ≡ inr s.priv)
      × ((generate_and_persist_signer c w).1.db.signing_key ≡ some k)
unfolding generate_and_persist_signer generate_key
generate_and_persist_signer-race c w s k other h = elim (Sum-cases (c.generate_key w.sys.draws)) [
  | inl (e, g) ↦ cc (rw (g, generate_and_persist_signer) at h)
  | inr (priv, g) ↦ elim (Sum-cases (encode_key c priv)) [
    | inl (e, n) ↦ cc (rw (g, generate_and_persist_signer, n) at h)
    | inr (pems, n) ↦
        let w' = (generate_key c w).1 in
        let (same, kept) =
          persist_key-kept priv pems w' s k other (rw (g, generate_and_persist_signer, n) at h) in
        (rw (← same) g, rw (g, n) kept)
  ]
]
