-- ===== src/Server/Writes/Consistent.antt =====
-- The tables stay consistent under the requests (server/handlers_agents.go).
use computeid_go.Common.{
  ◌≡◌, refl, ◌⊎◌, inl, inr, String, true, none, some, List, [], ◌∷◌, eq_refl, Bool-cases, All,
  All-map,
}
use computeid_go.Sys.{Time}
use computeid_go.Server.Db.{AgentRow, ActionRow, Db, World, Statement}
use computeid_go.Server.Signer.{Signer}
use computeid_go.Server.Platform.{Platform}
use computeid_go.Server.Tables.{find_agent, valid_outcome, revoke_rows, is_active}
use computeid_go.Server.Writes.{DbStep, issued, entered, withdrawn, DbSteps, done, more}
use computeid_go.Server.Writes.Rows.{
  withdraw, find_agent-revoke_rows, find_agent-issued, DbSteps-row,
}
use computeid_go.Server.Writes.Handlers.{Request, serve_all, serve_all-DbSteps}

-- Active and never revoked, or revoked at some time.
abbrev pub IsLifecycle : AgentRow → Type 0
IsLifecycle r =
    ((r.status ≡ "active") × (r.revoked_at ≡ none))
    ⊎ ((r.status ≡ "revoked") × ((t : Time) × (r.revoked_at ≡ some t)))

-- The identifier leads to this row.
abbrev pub IsUnique : Db → AgentRow → Type 0
IsUnique d r = find_agent r.passport_id d.agents ≡ some r

-- A valid outcome, and a passport that is there.
abbrev pub IsAbout : Db → ActionRow → Type 0
IsAbout d a =
    (valid_outcome a.outcome ≡ true)
    × ((r : AgentRow) × (find_agent a.passport_id d.agents ≡ some r))

pub record IsConsistent (d : Db) : Type 0 where
  pub lifecycle : All IsLifecycle d.agents
  pub unique : All (IsUnique d) d.agents
  pub trail : All (IsAbout d) d.actions

revoke_rows-All :
    (P Q : AgentRow → Type 0) (id reason : String) (st : Statement)
    → ((r : AgentRow) → P r → Q (withdraw id reason st r))
    → (rs : List AgentRow) → All P rs
    → All Q (revoke_rows id reason st rs)
unfolding revoke_rows
revoke_rows-All P Q id reason st f [] h = tt
revoke_rows-All P Q id reason st f (r ∷ rs) (p, h) =
    (f r p, revoke_rows-All P Q id reason st f rs h)

withdraw-IsLifecycle :
    (id reason : String) (st : Statement) (r : AgentRow)
    → IsLifecycle r
    → IsLifecycle (withdraw id reason st r)
withdraw-IsLifecycle id reason st r h = elim (Bool-cases (is_active id r)) [
  | inl a ↦ rw a (inr (refl, (st.time, refl)))
  | inr n ↦ rw n h
]

withdraw-passport_id :
    (id reason : String) (st : Statement) (r : AgentRow)
    → (withdraw id reason st r).passport_id ≡ r.passport_id
withdraw-passport_id id reason st r = elim (Bool-cases (is_active id r)) [
  | inl a ↦ rw a refl
  | inr n ↦ rw n refl
]

DbStep-IsAbout : (d e : Db) → DbStep d e → (a : ActionRow) → IsAbout d a → IsAbout e a
DbStep-IsAbout d e s a (valid, (r, found)) =
    let (r', there, _) = DbSteps-row (more done s) a.passport_id r found in (valid, (r', there))

DbStep-IsConsistent : {d e : Db} → DbStep d e → IsConsistent d → IsConsistent e
unfolding find_agent
DbStep-IsConsistent {d} {e} (issued row free active standing) c = record {
  lifecycle = (inl (active, standing), c.lifecycle);
  unique = (
    rw (eq_refl row.passport_id),
    All-map (IsUnique d) (IsUnique e) (λ r h. find_agent-issued row d.agents r.passport_id r free h)
        d.agents c.unique,
  );
  trail =
      All-map (IsAbout d) (IsAbout e) (DbStep-IsAbout d e (issued row free active standing))
        d.actions c.trail;
}
DbStep-IsConsistent (entered row r found valid) c = record {
  lifecycle = c.lifecycle;
  unique = c.unique;
  trail = ((valid, (r, found)), c.trail);
}
DbStep-IsConsistent {d} {e} (withdrawn id reason st) c = record {
  lifecycle =
      revoke_rows-All IsLifecycle IsLifecycle id reason st (withdraw-IsLifecycle id reason st)
        d.agents c.lifecycle;
  unique =
      revoke_rows-All (IsUnique d) (IsUnique e) id reason st
        (λ r h.
          rw (withdraw-passport_id id reason st r)
            (find_agent-revoke_rows id reason st r.passport_id d.agents r h))
        d.agents c.unique;
  trail =
      All-map (IsAbout d) (IsAbout e) (DbStep-IsAbout d e (withdrawn id reason st)) d.actions
        c.trail;
}

DbSteps-IsConsistent : {d e : Db} → DbSteps d e → IsConsistent d → IsConsistent e
DbSteps-IsConsistent done c = c
DbSteps-IsConsistent (more s t) c = DbStep-IsConsistent t (DbSteps-IsConsistent s c)

-- Consistent tables stay consistent, whatever the requests to the five agent handlers (register,
-- verify, capability, log, revoke) and whichever statements fail: an identifier leads to one passport, a passport is active and was never revoked or is revoked with
-- its time, and every entry of the log has a valid outcome and is about a passport that is there.
pub serve_all-IsConsistent :
    (pl : Platform) (sg : Signer) (rs : List Request) (w : World)
    → IsConsistent w.db
    → IsConsistent (serve_all pl sg rs w).db
serve_all-IsConsistent pl sg rs w c = DbSteps-IsConsistent (serve_all-DbSteps pl sg rs w) c
