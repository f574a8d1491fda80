-- ===== src/Server/Db.antt =====
-- The tables of server/migrations/001_init.up.sql that the handlers use, and how a statement runs
-- (the interface of server/store.go). PostgreSQL and its driver are not modelled beyond what the
-- SQL texts and the schema say.
use computeid_go.Common.{ℕ, ◌+◌, ◌≡◌, refl, String, Option, none, some, List, ◌⊎◌, inl, inr}
use computeid_go.Common.Dict.{Dict}
use computeid_go.Common.Json.{Json}
use computeid_go.Sys.{Time, Sys, now}
use computeid_go.Uuid.{new_uuid_unchecked}

-- A row of `agents`.
pub record AgentRow : Type 0 where
  pub passport_id : String
  pub name : String
  pub description : Option String
  pub organization : String
  pub capabilities : List String
  pub status : String
  pub public_key_pem : String
  pub signature_b64 : String
  pub signature_algorithm : String
  pub signed_payload : String
  pub issued_at : Time
  pub revoked_at : Option Time
  pub revoke_reason : Option String
  pub updated_at : Time

-- A row of `agent_actions`.
pub record ActionRow : Type 0 where
  pub action_id : String
  pub passport_id : String
  pub action : String
  pub details : Json
  pub outcome : String
  pub occurred_at : Time

-- A row of `devices`.
pub record DeviceRow : Type 0 where
  pub device_id : String
  pub device_code : String
  pub name : String
  pub device_type : String
  pub ip_address : String
  pub status : String
  pub issued_at : Time
  pub approved_at : Option Time

-- The row of `signing_keys`: the check on its `id` allows one.
pub record KeyRow : Type 0 where
  pub private_key_pem : String
  pub public_key_pem : String
  pub algorithm : String

pub record Db : Type 0 where
  pub signing_key : Option KeyRow
  pub agents : List AgentRow
  pub actions : List ActionRow
  pub devices : List DeviceRow
  pub counters : Dict ℕ

-- The database server, by the number of the statement.
pub record Backend : Type 0 where
  pub fault : ℕ → Option String
  pub clock : ℕ → Time
  pub fresh : ℕ → String

pub record World : Type 0 where
  pub db : Db
  pub sys : Sys
  pub backend : Backend
  pub statements : ℕ

abbrev pub M : Type 0 → Type 0
M A = World → A × World

infixl 5 ◌>>=◌ ◌>>◌
abbrev pub ◌>>=◌ : {A B : Type 0} → M A → (A → M B) → M B
◌>>=◌ m f w = let (a, w') = m w in f a w'

abbrev pub ◌>>◌ : {A B : Type 0} → M A → M B → M B
m >> k = m >>= λ _. k

abbrev pub pure : {A : Type 0} → A → M A
pure a w = (a, w)

-- What a statement may read besides the tables.
pub record Statement : Type 0 where
  pub time : Time
  pub identifier : String

-- A statement gives a result and the new tables, or is refused with an error and changes nothing.
abbrev pub Sql : Type 0 → Type 0
Sql A = Statement → Db → String ⊎ (A × Db)

unfoldable pub execute : {A : Type 0} → Sql A → M (String ⊎ A)
execute q w =
    let w' = record w { statements = w.statements + 1 } in
    elim (w.backend.fault w.statements) [
      | some e ↦ (inl e, w')
      | none ↦
          elim (q
            (record {
              time = w.backend.clock w.statements;
              identifier = w.backend.fresh w.statements;
            })
            w.db) [ inl e ↦ (inl e, w') | inr (a, d) ↦ (inr a, record w' { db = d }) ]
    ]

-- `time.Now().UTC()` and `newUUID()` in a handler.
unfoldable pub read_clock : M Time
read_clock w = let (t, s) = now w.sys in (t, record w { sys = s })

unfoldable pub draw_uuid : M String
draw_uuid w = let (u, s) = new_uuid_unchecked w.sys in (u, record w { sys = s })

-- The world once a statement has been counted, and what the statement may read.
abbrev pub counted : World → World
counted w = record w { statements = w.statements + 1 }

abbrev pub statement_of : World → Statement
statement_of w = record {
  time = w.backend.clock w.statements;
  identifier = w.backend.fresh w.statements;
}

-- The next statement does not fail of itself.
abbrev pub Up : World → Type 0
Up w = w.backend.fault w.statements ≡ none

module _ {A : Type 0} (q : Sql A) (w : World) where
  pub execute-fault :
      (e : String) → w.backend.fault w.statements ≡ some e → execute q w ≡ (inl e, counted w)
  unfolding execute
  execute-fault e h = rw (h, execute)

  pub execute-refused :
      (e : String) → Up w → q (statement_of w) w.db ≡ inl e → execute q w ≡ (inl e, counted w)
  unfolding execute
  execute-refused e up h = rw (up, execute, h)

  pub execute-done :
      (a : A) (d : Db)
      → Up w
      → q (statement_of w) w.db ≡ inr (a, d)
      → execute q w ≡ (inr a, record (counted w) { db = d })
  unfolding execute
  execute-done a d up h = rw (up, execute, h)

pub Sum-cases :
    {A : Type 0} (r : String ⊎ A) → ((e : String) × (r ≡ inl e)) ⊎ ((a : A) × (r ≡ inr a))
Sum-cases (inl e) = inl (e, refl)
Sum-cases (inr a) = inr (a, refl)

pub inr_injective : {A : Type 0} {a b : A} → ◌≡◌ {A = String ⊎ A} (inr a) (inr b) → a ≡ b
inr_injective h = cc
