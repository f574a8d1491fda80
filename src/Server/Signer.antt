-- ===== src/Server/Signer.antt =====
-- server/signer.go: the signing key of the server, and signatures over canonical passport JSON.
--
-- RSA, SHA-256, PEM, X.509, base64 and JSON are the standard library's: a `Crypto` gives the
-- functions that the file calls. A private key, a digest and a block of bytes are opaque texts.
pub mod Laws
use Prim.Native.String
use computeid_go.Common.{
  ℕ, ◌+◌, String, Bool, true, false, Option, none, some, List, ◌⊎◌, inl, inr, ◌==◌, if◌then◌else◌,
}
use computeid_go.Sys.{Sys}
use computeid_go.Server.Db.{Db, KeyRow, World, M, ◌>>=◌, pure, Sql, execute}

infixr 65 ◌++◌
abbrev ◌++◌ : String → String → String
s ++ t = String.◌++◌ s t

pub record CanonicalPayload : Type 0 where
  pub passport_id : String
  pub name : String
  pub organization : String
  pub capabilities : List String
  pub issued_at : String

-- `x509.ParsePKCS8PrivateKey`, with the type assertion to RSA.
pub data ParsedKey : Type 0 where
  rsa_key : String → ParsedKey
  other_key : ParsedKey
  no_key : String → ParsedKey

-- `inl` is the text of an error.
pub record Crypto : Type 0 where
  pub generate_key : ℕ → String ⊎ String
  pub public_of : String → String
  pub marshal_private : String → String ⊎ String
  pub marshal_public : String → String ⊎ String
  pub parse_private : String → ParsedKey
  pub pem_encode : String → String → String
  pub pem_decode : String → Option String
  pub sha256 : String → String
  pub sign_pkcs1v15 : String → String → String ⊎ String
  pub verify_pkcs1v15 : String → String → String → Bool
  pub base64_encode : String → String
  pub base64_decode : String → Option String
  pub marshal_payload : CanonicalPayload → String ⊎ String

pub record Signer : Type 0 where
  pub priv : String
  pub pub_pem : String
  pub priv_pem : String
  pub algorithm : String

-- `(*Signer).Sign`: the signature in base64 and the bytes that were signed.
unfoldable pub sign : Crypto → Signer → CanonicalPayload → String ⊎ (String × String)
sign c s p = elim (c.marshal_payload p) [
  | inl e ↦ inl e
  | inr signed_json ↦ elim (c.sign_pkcs1v15 s.priv (c.sha256 signed_json)) [
    | inl e ↦ inl e
    | inr sig ↦ inr (c.base64_encode sig, signed_json)
  ]
]

-- `(*Signer).Verify`
unfoldable pub verify : Crypto → Signer → String → String → Bool
verify c s signed_json sig_b64 = elim (c.base64_decode sig_b64) [
  | none ↦ false
  | some sig ↦ c.verify_pkcs1v15 (c.public_of s.priv) (c.sha256 signed_json) sig
]

-- `signerFromPEM`
unfoldable pub signer_from_pem : Crypto → String → String → String → String ⊎ Signer
signer_from_pem c priv_pem pub_pem algo = elim (c.pem_decode priv_pem) [
  | none ↦ inl "invalid private key PEM"
  | some block ↦ elim (c.parse_private block) [
    | no_key e ↦ inl ("parse private key: " ++ e)
    | other_key ↦ inl "private key is not RSA"
    | rsa_key priv ↦ inr (record {
      priv = priv;
      pub_pem = pub_pem;
      priv_pem = priv_pem;
      algorithm = if algo == "" then "RSA-SHA256" else algo;
    })
  ]
]

-- `INSERT INTO signing_keys ... ON CONFLICT (id) DO NOTHING`
unfoldable pub insert_key : String → String → Sql (Unit {0})
insert_key priv_pem pub_pem _ d = elim d.signing_key [
  | some row ↦ inr (tt, d)
  | none ↦ inr (
    tt,
    record d {
      signing_key = some (record {
        private_key_pem = priv_pem;
        public_key_pem = pub_pem;
        algorithm = "RSA-SHA256";
      });
    },
  )
]

-- `SELECT private_key_pem, public_key_pem, algorithm FROM signing_keys WHERE id = 1`
unfoldable pub select_key : Sql (Option KeyRow)
select_key _ d = inr (d.signing_key, d)

-- `rsa.GenerateKey(rand.Reader, 2048)`
unfoldable pub generate_key : Crypto → M (String ⊎ String)
generate_key c w =
    (c.generate_key w.sys.draws, record w { sys = record (w.sys) { draws = w.sys.draws + 1 } })

-- The texts of a fresh key: its PEM forms, private and public.
unfoldable pub encode_key : Crypto → String → String ⊎ (String × String)
encode_key c priv = elim (c.marshal_private priv) [
  | inl e ↦ inl ("marshal private: " ++ e)
  | inr priv_der ↦ elim (c.marshal_public (c.public_of priv)) [
    | inl e ↦ inl ("marshal public: " ++ e)
    | inr pub_der ↦ inr (c.pem_encode "PRIVATE KEY" priv_der, c.pem_encode "PUBLIC KEY" pub_der)
  ]
]

-- The insertion of the encoded key, and the signer on the key that was generated.
unfoldable pub persist_key : String → String × String → M (String ⊎ Signer)
persist_key priv (priv_pem, pub_pem) = do
  stored ← execute (insert_key priv_pem pub_pem)
  pure (elim stored [
    | inl e ↦ inl ("persist signing key: " ++ e)
    | inr _ ↦
        inr
          (record { priv = priv; pub_pem = pub_pem; priv_pem = priv_pem; algorithm = "RSA-SHA256" })
  ])

-- `generateAndPersistSigner`
unfoldable pub generate_and_persist_signer : Crypto → M (String ⊎ Signer)
generate_and_persist_signer c = do
  generated ← generate_key c
  elim generated [
    | inl e ↦ pure (inl ("generate rsa key: " ++ e))
    | inr priv ↦ elim (encode_key c priv) [
      | inl e ↦ pure (inl e)
      | inr pems ↦ persist_key priv pems
    ]
  ]

-- The switch on the error of the scan: a row, no row, or any other error.
unfoldable pub init_from : Crypto → String ⊎ Option KeyRow → M (String ⊎ Signer)
init_from c (inl e) = pure (inl ("load signing key: " ++ e))
init_from c (inr none) = generate_and_persist_signer c
init_from c (inr (some k)) = pure (signer_from_pem c k.private_key_pem k.public_key_pem k.algorithm)

-- `LoadOrInitSigner`
unfoldable pub load_or_init_signer : Crypto → M (String ⊎ Signer)
load_or_init_signer c = do row ← execute select_key; init_from c row
