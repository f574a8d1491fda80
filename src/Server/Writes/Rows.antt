-- ===== src/Server/Writes/Rows.antt =====
-- A row of `agents` under the writes of the agent handlers (server/handlers_agents.go).
use computeid_go.Common.{
  ◌≡◌, refl, inl, inr, String, false, none, some, List, [], ◌∷◌, ap, ◌∙◌, arith, eq_iff, ◌==◌,
  Bool-cases, text_cases, some_injective, if◌then◌else◌,
}
use computeid_go.Server.Db.{AgentRow, Db, Statement}
use computeid_go.Server.Tables.{find_agent, revoke_rows, revoked_row, is_active}
use computeid_go.Server.Writes.{DbStep, issued, entered, withdrawn, DbSteps, done, more}

-- What the `UPDATE` of a revocation makes of a row.
abbrev pub withdraw : String → String → Statement → AgentRow → AgentRow
withdraw id reason st r = if is_active id r then revoked_row reason st r else r

pub find_agent-revoke_rows :
    (id reason : String) (st : Statement) (key : String) (rs : List AgentRow) (r : AgentRow)
    → find_agent key rs ≡ some r
    → find_agent key (revoke_rows id reason st rs) ≡ some (withdraw id reason st r)
unfolding find_agent revoke_rows
find_agent-revoke_rows id reason st key [] r h = cc
find_agent-revoke_rows id reason st key (x ∷ rs) r h = elim (Bool-cases (x.passport_id == key)) [
  | inl same ↦
      let e : x ≡ r = some_injective (rw (same, find_agent) at h) in
      elim (Bool-cases (is_active id x)) [ inl a ↦ rw (← e, a, same) | inr n ↦ rw (← e, n, same) ]
  | inr other ↦
      let ih = find_agent-revoke_rows id reason st key rs r (rw (other, find_agent) at h) in
      elim (Bool-cases (is_active id x)) [ inl a ↦ rw (a, other) ih | inr n ↦ rw (n, other) ih ]
]

pub find_agent-issued :
    (row : AgentRow) (rs : List AgentRow) (key : String) (r : AgentRow)
    → find_agent row.passport_id rs ≡ none
    → find_agent key rs ≡ some r
    → find_agent key (row ∷ rs) ≡ some r
unfolding find_agent
find_agent-issued row rs key r free h = elim (text_cases row.passport_id key) [
  | inl same ↦ cc (ap (λ k. find_agent k rs) same)
  | inr other ↦ rw other h
]

-- A row later on: only a revocation may have changed it, and once revoked it is as it was.
pub record RowFollows (r r' : AgentRow) : Type 0 where
  pub keeps : r' ≡ record r {
    status = r'.status;
    revoked_at = r'.revoked_at;
    revoke_reason = r'.revoke_reason;
    updated_at = r'.updated_at;
  }
  pub stays : r.status ≡ "revoked" → r' ≡ r

pub RowFollows-refl : (r : AgentRow) → RowFollows r r
RowFollows-refl r = record { keeps = refl; stays = λ _. refl }

revoked-is_active : (id : String) (r : AgentRow) → r.status ≡ "revoked" → is_active id r ≡ false
revoked-is_active id r h = ground (arith, eq_iff r.status "active", eq_iff "revoked" "active")

withdraw-RowFollows :
    (id reason : String) (st : Statement) (r : AgentRow) → RowFollows r (withdraw id reason st r)
withdraw-RowFollows id reason st r = elim (Bool-cases (is_active id r)) [
  | inl a ↦ rw a (record { keeps = refl; stays = λ h. cc (revoked-is_active id r h) })
  | inr n ↦ rw n (RowFollows-refl r)
]

RowFollows-trans : (r s t : AgentRow) → RowFollows r s → RowFollows s t → RowFollows r t
RowFollows-trans r s t f g = record {
  keeps =
      g.keeps
      ∙ ap
          (λ (u : AgentRow). record u {
            status = t.status;
            revoked_at = t.revoked_at;
            revoke_reason = t.revoke_reason;
            updated_at = t.updated_at;
          })
          f.keeps;
  stays = λ h. let e = f.stays h in g.stays (ap (λ (u : AgentRow). u.status) e ∙ h) ∙ e;
}

DbStep-row :
    {d e : Db} (s : DbStep d e) (key : String) (r : AgentRow)
    → find_agent key d.agents ≡ some r
    → (r' : AgentRow) × (find_agent key e.agents ≡ some r') × RowFollows r r'
DbStep-row {d} (issued row free _ _) key r h =
    (r, find_agent-issued row d.agents key r free h, RowFollows-refl r)
DbStep-row (entered row x _ _) key r h = (r, h, RowFollows-refl r)
DbStep-row {d} (withdrawn id reason st) key r h = (
  withdraw id reason st r,
  find_agent-revoke_rows id reason st key d.agents r h,
  withdraw-RowFollows id reason st r,
)

-- A passport stays where it is found.
pub DbSteps-row :
    {d e : Db} (s : DbSteps d e) (key : String) (r : AgentRow)
    → find_agent key d.agents ≡ some r
    → (r' : AgentRow) × (find_agent key e.agents ≡ some r') × RowFollows r r'
DbSteps-row done key r h = (r, h, RowFollows-refl r)
DbSteps-row (more s t) key r h =
    let (r', h', f) = DbSteps-row s key r h in
    let (r'', h'', g) = DbStep-row t key r' h' in (r'', h'', RowFollows-trans r r' r'' f g)
