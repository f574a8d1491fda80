-- ===== src/Server/Writes.antt =====
-- What the agent handlers may write (server/handlers_agents.go): three kinds of writes, as a step
-- relation on the tables.
pub mod Handlers
pub mod Tables
pub mod Rows
pub mod Consistent
pub mod Final
pub mod Registration
pub mod Revocation
use computeid_go.Common.{
  ℕ, ◌≡◌, refl, ◌⊎◌, inl, inr, String, Bool, true, false, Option, none, some, List, [], ◌∷◌, sym,
  ap, ◌∙◌, Option-cases, subst,
}
use computeid_go.Sys.{Time}
use computeid_go.Server.Db.{
  AgentRow, ActionRow, Db, World, M, ◌>>=◌, pure, Statement, Sql, execute, counted, statement_of,
  execute-fault, execute-refused, execute-done, Sum-cases, inr_injective,
}
use computeid_go.Server.Tables.{find_agent, valid_outcome, revoke_rows}

-- A new passport, an entry about a passport that is there, or the revocation of a passport.
pub data DbStep (d : Db) : Db → Type 0 where
  issued :
      (row : AgentRow)
      → find_agent row.passport_id d.agents ≡ none
      → row.status ≡ "active"
      → row.revoked_at ≡ none
      → DbStep d (record d { agents = row ∷ d.agents })
  entered :
      (row : ActionRow) (r : AgentRow)
      → find_agent row.passport_id d.agents ≡ some r
      → valid_outcome row.outcome ≡ true
      → DbStep d (record d { actions = row ∷ d.actions })
  withdrawn :
      (id reason : String) (st : Statement)
      → DbStep d (record d { agents = revoke_rows id reason st d.agents })

pub data DbSteps (d : Db) : Db → Type 0 where
  done : DbSteps d d
  more : {e f : Db} → DbSteps d e → DbStep e f → DbSteps d f

pub DbSteps-trans : {d e f : Db} → DbSteps d e → DbSteps e f → DbSteps d f
DbSteps-trans s done = s
DbSteps-trans s (more t u) = more (DbSteps-trans s t) u

-- A statement, and a handler, that writes in these steps only.
abbrev pub IsWrite : {A : Type 0} → Sql A → Type 0
IsWrite {A} q = (st : Statement) (d : Db) (a : A) (d' : Db) → q st d ≡ inr (a, d') → DbSteps d d'

abbrev pub Writes : {A : Type 0} → M A → Type 0
Writes m = (w : World) → DbSteps w.db (m w).1.db

pub execute-Writes : {A : Type 0} (q : Sql A) → IsWrite q → Writes (execute q)
execute-Writes q h w = elim (Option-cases (w.backend.fault w.statements)) [
  | inr (e, f) ↦ rw (execute-fault q w e f) done
  | inl up ↦ elim (Sum-cases (q (statement_of w) w.db)) [
    | inl (e, r) ↦ rw (execute-refused q w e up r) done
    | inr ((a, d), r) ↦ rw (execute-done q w a d up r) (h (statement_of w) w.db a d r)
  ]
]
