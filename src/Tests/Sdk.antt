-- ===== src/Tests/Sdk.antt =====
-- Concrete passports: agent.go and capabilities.go.
use computeid_go.Common.{
  ℕ, ◌≡◌, refl, ◌↔◌, inl, inr, true, false, List, [], ◌∷◌, some, none, arith, eq_iff, ◌+◌,
}
use computeid_go.Common.{◌≢◌, get_elem?, ◌%◌}
use computeid_go.Uuid.{stamp}
use computeid_go.Uuid.Laws.{stamp_lem}
use computeid_go.Common.Int.{pos}
use computeid_go.Sys.{Sys, filled, Monotone}
use computeid_go.Errors.{ok}
use computeid_go.Capabilities.{no_capabilities, allows, action_send_email, action_browse_web}
use computeid_go.Capabilities.Laws.{Grants}
use computeid_go.Agent.{AgentPassport, AuditEntry, is_trusted, verify_action, revoke}
use computeid_go.Agent.Trust.{IsLive, next_time, Verdict, verify_action_iff, verify_action-Verdict}
use computeid_go.Agent.History.{Call, log, verify, check, withdraw, run, Follows, run-Follows}
use computeid_go.Agent.Finality.{revoke-final, expired-final}
use computeid_go.Agent.Validity.{IsValid, run-IsValid}
use computeid_go.Issue.{Digest, IssueOptions, issue_agent_passport}
use computeid_go.Issue.Laws.{Permits, HasRequired, issue_agent_passport_iff}

abbrev pub some_bytes : List ℕ
some_bytes = 0 ∷ 1 ∷ 2 ∷ 3 ∷ 4 ∷ 5 ∷ 255 ∷ 7 ∷ 255 ∷ 9 ∷ 10 ∷ 11 ∷ 12 ∷ 13 ∷ 14 ∷ 15 ∷ []

-- A clock that shows 100, 101, 102 and so on.
abbrev pub ticking : Sys
ticking = record { clock = λ n. n + 100; reads = 0; random = λ _. filled some_bytes; draws = 0 }

abbrev pub first_entry : AuditEntry
first_entry = record {
  log_id = "l";
  agent_id = "a";
  action = "passport_issued";
  details = [];
  outcome = "success";
  timestamp = 90;
}

abbrev pub researcher : AgentPassport
researcher = record {
  agent_id = "a";
  agent_name = "ResearchAgent";
  agent_type = "researcher";
  owner_org = "Acme Corp";
  owner_email = "admin@acme.com";
  model = "unknown";
  version = "1.0.0";
  status = "active";
  trust_level = "elevated";
  parent_agent_id = "";
  issued_at = 90;
  expires_at = 1000;
  revoked_at = none;
  revoke_reason = "";
  capabilities = record no_capabilities { can_browse_web = true; can_spawn_agents = true };
  fingerprint = "f";
  audit_log = first_entry ∷ [];
}

abbrev pub lapsed : AgentPassport
lapsed = record researcher { expires_at = 99 }

ticking-Monotone : Monotone ticking
ticking-Monotone i = omega arith

pub researcher-IsValid : IsValid researcher
researcher-IsValid = record {
  known = inl refl;
  dated = λ h. absurd (ground (arith, eq_iff "active" "revoked"));
  undated = λ _. (refl, refl);
  own = ((refl, ground (arith, eq_iff "success" "")), tt);
  opened = refl;
}

pub researcher-IsLive : IsLive researcher (next_time ticking)
researcher-IsLive = (refl, inr (omega arith))

browsing : (verify_action action_browse_web researcher ticking).0 ≡ true
unfolding verify_action is_trusted allows
browsing = refl

mailing : (verify_action action_send_email researcher ticking).0 ≡ false
unfolding verify_action is_trusted allows
mailing = refl

verify_action_iff_example :
    ((verify_action action_browse_web researcher ticking).0 ≡ true)
    ↔ (IsLive researcher (next_time ticking) × Grants researcher.capabilities action_browse_web)
verify_action_iff_example = verify_action_iff action_browse_web researcher ticking

verify_action-Verdict_example :
    Verdict action_send_email researcher ticking
      (verify_action action_send_email researcher ticking)
verify_action-Verdict_example = verify_action-Verdict action_send_email researcher ticking

abbrev calls : List Call
calls =
    verify action_browse_web ∷ check ∷ log "x" [] "" ∷ withdraw "" ∷ verify action_browse_web ∷ []

revoke-final_example :
    (verify_action action_browse_web
      (run calls (revoke "drift" researcher ticking)).0
      (run calls (revoke "drift" researcher ticking)).1).0
    ≡ false
revoke-final_example = revoke-final "drift" researcher ticking calls action_browse_web

expired-final_example :
    (verify_action action_browse_web
      (run calls (lapsed, ticking)).0
      (run calls (lapsed, ticking)).1).0
    ≡ false
expired-final_example =
    expired-final lapsed ticking calls action_browse_web ticking-Monotone (λ e. omega arith)
      (omega arith)

run-Follows_example : Follows researcher (run calls (researcher, ticking)).0
run-Follows_example = run-Follows calls (researcher, ticking)

run-IsValid_example : IsValid (run calls (researcher, ticking)).0
run-IsValid_example = run-IsValid calls (researcher, ticking) researcher-IsValid

abbrev pub plain_digest : Digest
plain_digest = record { sha256 = λ _. some_bytes; print_time = λ _. "now" }

abbrev pub child_options : IssueOptions
child_options = record {
  agent_name = "Child";
  agent_type = "";
  owner_org = "Acme Corp";
  owner_email = "admin@acme.com";
  capabilities = no_capabilities;
  model = "";
  version = "";
  expires_in = pos 0;
  parent_passport = some researcher;
}

issue_agent_passport_iff_example :
    ((p : AgentPassport) × ((issue_agent_passport plain_digest child_options ticking).0 ≡ ok p)) ↔ (
      HasRequired child_options
      × Permits (some researcher) ticking
      × ((b : List ℕ) × (ticking.random ticking.draws ≡ filled b)))
issue_agent_passport_iff_example = issue_agent_passport_iff plain_digest child_options ticking

stamp_lem_example :
    (get_elem? (stamp some_bytes) 6 ≡ some (64 + 255 % 16))
    × (get_elem? (stamp some_bytes) 8 ≡ some (128 + 255 % 64))
    × ((i : ℕ) → i ≢ 6 → i ≢ 8 → get_elem? (stamp some_bytes) i ≡ get_elem? some_bytes i)
stamp_lem_example = stamp_lem some_bytes 255 255 refl refl (omega arith) (omega arith)
