-- ===== src/Tests/Keys.antt =====
-- A server's first start, its restart and a race of two: server/signer.go.
use computeid_go.Common.{
  ◌≡◌, refl, ◌⊎◌, inr, true, String, [], some, none, arith, eq_iff, ◌==◌, nat_eq, if◌then◌else◌,
}
use computeid_go.Server.Db.{KeyRow, Backend, World, execute, inr_injective}
use computeid_go.Server.Signer.{
  CanonicalPayload, rsa_key, Crypto, Signer, generate_and_persist_signer, load_or_init_signer,
  generate_key, encode_key, persist_key, insert_key, select_key, init_from,
}
use computeid_go.Server.Signer.Laws.{
  IsSound, load_or_init_signer-restart, generate_and_persist_signer-race,
}
use computeid_go.Tests.Sdk.{ticking}

-- A crypto in which a key is its own public half and signs by itself.
abbrev pub plain : Crypto
plain = record {
  generate_key = λ n. inr (if nat_eq n 0 then "k0" else "k1");
  public_of = λ k. k;
  marshal_private = λ k. inr k;
  marshal_public = λ k. inr k;
  parse_private = λ b. rsa_key b;
  pem_encode = λ kind b. b;
  pem_decode = λ t. some t;
  sha256 = λ t. t;
  sign_pkcs1v15 = λ k d. inr k;
  verify_pkcs1v15 = λ k d sig. k == sig;
  base64_encode = λ t. t;
  base64_decode = λ t. some t;
  marshal_payload = λ p. inr p.name;
}

pub plain-IsSound : IsSound plain
plain-IsSound = record {
  base64 = λ sig. refl;
  pkcs1v15 = λ k d sig h. signs k sig h;
  pem = λ kind b. refl;
  pkcs8 = λ k der h. reads k der h;
}
  where
    signs : (k sig : String) → ◌≡◌ {A = String ⊎ String} (inr k) (inr sig) → (k == sig) ≡ true
    signs k sig h = ground (arith, inr_injective h, eq_iff k sig)

    reads : (k der : String) → ◌≡◌ {A = String ⊎ String} (inr k) (inr der) → rsa_key der ≡ rsa_key k
    reads k der h = cc (inr_injective h)

abbrev pub sound_backend : Backend
sound_backend = record { fault = λ n. none; clock = λ n. n; fresh = λ n. "id" }

abbrev pub empty_world : World
empty_world = record {
  db = record { signing_key = none; agents = []; actions = []; devices = []; counters = [] };
  sys = ticking;
  backend = sound_backend;
  statements = 0;
}

abbrev pub signer : Signer
signer = record { priv = "k0"; pub_pem = "k0"; priv_pem = "k0"; algorithm = "RSA-SHA256" }

abbrev payload : CanonicalPayload
payload = record {
  passport_id = "i";
  name = "n";
  organization = "o";
  capabilities = [];
  issued_at = "t";
}

started : (load_or_init_signer plain empty_world).0 ≡ inr signer
unfolding load_or_init_signer init_from generate_and_persist_signer generate_key encode_key
    persist_key insert_key select_key execute
started = refl

abbrev restarted : World
restarted = record empty_world { db = (load_or_init_signer plain empty_world).1.db; statements = 7 }

load_or_init_signer-restart_example : (load_or_init_signer plain restarted).0 ≡ inr signer
load_or_init_signer-restart_example =
    load_or_init_signer-restart plain plain-IsSound empty_world restarted signer refl started refl
      refl

abbrev other_key : KeyRow
other_key = record { private_key_pem = "x"; public_key_pem = "x"; algorithm = "RSA-SHA256" }

abbrev raced : World
raced = record empty_world { db = record (empty_world.db) { signing_key = some other_key } }

lost_race : (generate_and_persist_signer plain raced).0 ≡ inr signer
unfolding generate_and_persist_signer generate_key encode_key persist_key insert_key execute
lost_race = refl

generate_and_persist_signer-race_example :
    (plain.generate_key raced.sys.draws ≡ inr signer.priv)
    × ((generate_and_persist_signer plain raced).1.db.signing_key ≡ some other_key)
generate_and_persist_signer-race_example =
    generate_and_persist_signer-race plain raced signer other_key refl lost_race
