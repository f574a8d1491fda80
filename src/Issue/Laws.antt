-- ===== src/Issue/Laws.antt =====
-- When a passport is issued, and what is issued (agent.go).
use computeid_go.Common.{
  ℕ, ◌+◌, ◌<◌, ◌≡◌, refl, ◌≢◌, ◌⊎◌, ◌↔◌, inl, inr, true, false, String, List, [], ◌∷◌, arith,
  eq_iff, Option, some, none, sym, ap, ◌∙◌, Bool-cases,
}
use computeid_go.Common.Json.{str}
use computeid_go.Sys.{Time, Sys, filled, failed, RandomRead-cases}
use computeid_go.Uuid.{new_uuid, format_uuid, stamp}
use computeid_go.Errors.{Sentinel, GoError, wrapped, Result, ok, err, Result-cases}
use computeid_go.Agent.{AgentPassport, AuditEntry, status_active, outcome_success, log_action}
use computeid_go.Agent.Trust.{IsLive, next_time, is_trusted_iff}
use computeid_go.Agent.Clock.{is_trusted_reads}
use computeid_go.Agent.Validity.{IsValid}
use computeid_go.Issue.{
  Digest, IssueOptions, check_parent, parent_id, lifetime, new_passport, mint, missing_required,
  issue_agent_passport,
}

-- A parent must be able to spawn agents and be live; no parent is no obstacle.
abbrev pub Permits : Option AgentPassport → Sys → Type 0
Permits none s = Unit
Permits (some parent) s =
    (parent.capabilities.can_spawn_agents ≡ true) × IsLive parent (next_time s)

abbrev pub HasRequired : IssueOptions → Type 0
HasRequired opts = (opts.agent_name ≢ "") × (opts.owner_org ≢ "") × (opts.owner_email ≢ "")

HasRequired-iff : (opts : IssueOptions) → (missing_required opts ≡ false) ↔ HasRequired opts
HasRequired-iff opts =
    ground (arith, eq_iff opts.agent_name "", eq_iff opts.owner_org "", eq_iff opts.owner_email "")

check_parent_iff :
    (o : Option AgentPassport) (s : Sys) → ((check_parent o s).0 ≡ ok tt) ↔ Permits o s
unfolding check_parent
check_parent_iff none s = (λ _. tt, λ _. refl)
check_parent_iff (some parent) s = ground (arith, is_trusted_iff parent s)

-- Whatever the parent, the check draws no random bytes.
check_parent-draws :
    (o : Option AgentPassport) (s : Sys)
    → ((check_parent o s).2.draws ≡ s.draws) × ((check_parent o s).2.random ≡ s.random)
unfolding check_parent
check_parent-draws none s = (refl, refl)
check_parent-draws (some parent) s = ground (arith, is_trusted_reads parent s)

-- A text is the one that was asked for, or, where none was, the one that stands in for it.
abbrev pub FillsIn : String → String → String → Type 0
FillsIn asked stand_in given =
    ((asked ≢ "") × (given ≡ asked)) ⊎ ((asked ≡ "") × (given ≡ stand_in))

-- What holds of a passport issued on these options for this parent at time `t`.
pub record Issued (opts : IssueOptions) (parent : Option AgentPassport) (t : Time)
    (p : AgentPassport) : Type 0 where
  pub valid : IsValid p
  pub active : p.status ≡ status_active
  pub named :
      (p.agent_name ≡ opts.agent_name)
      × (p.owner_org ≡ opts.owner_org)
      × (p.owner_email ≡ opts.owner_email)
  pub filled_in :
      FillsIn opts.agent_type "general" p.agent_type
      × FillsIn opts.model "unknown" p.model
      × FillsIn opts.version "1.0.0" p.version
  pub granted :
      (p.capabilities ≡ opts.capabilities) × (p.trust_level ≡ opts.capabilities.trust_level)
  pub linked : p.parent_agent_id ≡ parent_id parent
  pub lasts : (p.issued_at ≡ t) × (p.expires_at ≡ t + lifetime opts.expires_in) × (t < p.expires_at)
  pub logged :
      (e : AuditEntry) × (p.audit_log ≡ e ∷ [])
      × (e.action ≡ "passport_issued")
      × (e.details ≡ ("agent_name", str opts.agent_name) ∷ [])
      × (e.outcome ≡ outcome_success)

module _ (g : Digest) (opts : IssueOptions) (parent : Option AgentPassport) (id : String) (t : Time)
    (s : Sys) where
  abbrev fresh : AgentPassport
  fresh =
      (log_action "passport_issued" (("agent_name", str opts.agent_name) ∷ []) outcome_success
        (new_passport g opts parent id t) s).1

-- `mint` fails only with the random source, and what it returns is issued as asked.
mint-filled :
    (g : Digest) (opts : IssueOptions) (parent : Option AgentPassport) (s : Sys) (b : List ℕ)
    → s.random s.draws ≡ filled b
    → (mint g opts parent s).0
      ≡ ok (
          fresh g opts parent
            (format_uuid (stamp b))
            (next_time s)
            (record s { reads = s.reads + 1; draws = s.draws + 1 }))
unfolding mint new_uuid
mint-filled g opts parent s b h = rw h refl

mint-failed :
    (g : Digest) (opts : IssueOptions) (parent : Option AgentPassport) (s : Sys) (e : String)
    (b : List ℕ)
    → s.random s.draws ≡ failed e b
    → (mint g opts parent s).0 ≡ err (wrapped Sentinel.registration e)
unfolding mint new_uuid
mint-failed g opts parent s e b h = rw h refl

module _ (g : Digest) (opts : IssueOptions) (s : Sys) where
  -- The system once the parent has been checked.
  abbrev checked : Result (Unit {0}) × Option AgentPassport × Sys
  checked = check_parent opts.parent_passport s

  issue_unnamed :
      missing_required opts ≡ true
      → (issue_agent_passport g opts s).0
        ≡ err (wrapped Sentinel.registration "agent_name, owner_org and owner_email are required")
  unfolding issue_agent_passport
  issue_unnamed h = rw h

  issue_unfit :
      (e : GoError)
      → missing_required opts ≡ false
      → checked.0 ≡ err e
      → (issue_agent_passport g opts s).0 ≡ err e
  unfolding issue_agent_passport
  issue_unfit e h k = rw h (ground arith)

  issue_minted :
      missing_required opts ≡ false
      → checked.0 ≡ ok tt
      → issue_agent_passport g opts s ≡ mint g opts checked.1 checked.2
  unfolding issue_agent_passport
  issue_minted h k = rw (h, k, issue_agent_passport)

  drawn : s.random s.draws ≡ checked.2.random checked.2.draws
  drawn = let (d, r) = check_parent-draws opts.parent_passport s in rw (d, r)

  -- A passport is issued exactly when the name, the organisation and the address are given, the
  -- parent, if there is one, can spawn agents and is live, and the random source answers. Nothing
  -- else is required: a type of agent and capabilities, which the comment on the options calls
  -- required too, may be left out.
  pub issue_agent_passport_iff :
      ((p : AgentPassport) × ((issue_agent_passport g opts s).0 ≡ ok p)) ↔ (
        HasRequired opts
        × Permits opts.parent_passport s
        × ((b : List ℕ) × (s.random s.draws ≡ filled b)))
  issue_agent_passport_iff = (issued_needs, issued_when)
    where
      issued_needs :
          ((p : AgentPassport) × ((issue_agent_passport g opts s).0 ≡ ok p))
          → HasRequired opts
            × Permits opts.parent_passport s
            × ((b : List ℕ) × (s.random s.draws ≡ filled b))
      issued_needs (p, h) = elim (Bool-cases (missing_required opts)) [
        | inl m ↦ cc (issue_unnamed m)
        | inr n ↦ elim (Result-cases checked.0) [
          | inr (e, k) ↦ cc (issue_unfit e n k)
          | inl (_, k) ↦ elim (RandomRead-cases (s.random s.draws)) [
            | inr (e, b, r) ↦ cc (
              ap (λ (u : Result AgentPassport × Option AgentPassport × Sys). u.0)
                  (issue_minted n k),
              mint-failed g opts checked.1 checked.2 e b (sym drawn ∙ r),
            )
            | inl (b, r) ↦
                ((HasRequired-iff opts).0 n, (check_parent_iff opts.parent_passport s).0 k, (b, r))
          ]
        ]
      ]

      issued_when :
          HasRequired opts
            × Permits opts.parent_passport s
            × ((b : List ℕ) × (s.random s.draws ≡ filled b))
          → (p : AgentPassport) × ((issue_agent_passport g opts s).0 ≡ ok p)
      issued_when (named, permitted, (b, r)) =
          let n = (HasRequired-iff opts).1 named in
          let k = (check_parent_iff opts.parent_passport s).1 permitted in
          (
            _,
            ap (λ (u : Result AgentPassport × Option AgentPassport × Sys). u.0) (issue_minted n k)
                ∙ mint-filled g opts checked.1 checked.2 b (sym drawn ∙ r),
          )
