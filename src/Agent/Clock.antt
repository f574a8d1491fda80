-- ===== src/Agent/Clock.antt =====
-- How far a call on a passport (agent.go) reads the clock and the random source.
use computeid_go.Common.{
  ℕ, zero, suc, ◌-◌, ◌+◌, ◌≤◌, ◌≡◌, refl, ◌⊎◌, inl, inr, String, List, [], ◌∷◌, arith, ◌∙◌,
  Bool-cases,
}
use computeid_go.Common.Json.{Details}
use computeid_go.Sys.{Sys, Monotone, Later}
use computeid_go.Capabilities.{Action, allows}
use computeid_go.Agent.{
  AgentPassport, ActionOutcome, log_action, outcome_blocked, outcome_success, reason_details,
  is_trusted, verify_action, revoke, deny,
}
use computeid_go.Agent.Log.{log_action_lem}
use computeid_go.Agent.Trust.{next_time, verify_untrusted, verify_trusted}
use computeid_go.Agent.History.{Call, log, verify, check, withdraw, step, run}

-- The system after a call: the same streams, read no less far.
Later-by : (s : Sys) (i j : ℕ) → Later s (record s { reads = s.reads + i; draws = s.draws + j })
Later-by s i j = record {
  same_clock = refl;
  same_random = refl;
  reads_le = omega arith;
  draws_le = omega arith;
}

Later-refl : (s : Sys) → Later s s
Later-refl s = record {
  same_clock = refl;
  same_random = refl;
  reads_le = omega arith;
  draws_le = omega arith;
}

Later-trans : (s t u : Sys) → Later s t → Later t u → Later s u
Later-trans s t u f g = record {
  same_clock = g.same_clock ∙ f.same_clock;
  same_random = g.same_random ∙ f.same_random;
  reads_le = omega arith;
  draws_le = omega arith;
}

log_action-Later :
    (a : String) (d : Details) (o : ActionOutcome) (p : AgentPassport) (s : Sys)
    → Later s (log_action a d o p s).2
log_action-Later a d o p s = let (_, _, e) = log_action_lem a d o p s in rw e (Later-by s 1 1)

pub is_trusted_reads :
    (p : AgentPassport) (s : Sys)
    → ((is_trusted p s).2 ≡ s) ⊎ ((is_trusted p s).2 ≡ record s { reads = s.reads + 1 })
unfolding is_trusted
is_trusted_reads p s = ground arith

is_trusted-Later : (p : AgentPassport) (s : Sys) → Later s (is_trusted p s).2
is_trusted-Later p s = elim (is_trusted_reads p s) [
  | inl e ↦ rw e (Later-refl s)
  | inr e ↦ rw e (record {
    same_clock = refl;
    same_random = refl;
    reads_le = omega arith;
    draws_le = omega arith;
  })
]

deny-Later : (a : Action) (why : String) (p : AgentPassport) (s : Sys) → Later s (deny a why p s).2
unfolding deny
deny-Later a why p s = log_action-Later a (reason_details why) outcome_blocked p s

verify_action-Later : (a : Action) (p : AgentPassport) (s : Sys) → Later s (verify_action a p s).2
verify_action-Later a p s = elim (Bool-cases (is_trusted p s).0) [
  | inr f ↦ rw (verify_untrusted a p s f) (
      Later-trans s (is_trusted p s).2 _ (is_trusted-Later p s)
        (deny-Later a "passport_invalid" _ _))
  | inl t ↦ elim (Bool-cases (allows (is_trusted p s).1.capabilities a)) [
    | inl y ↦ rw (verify_trusted a p s t, y) (is_trusted-Later p s)
    | inr n ↦
        rw (verify_trusted a p s t, n)
          (Later-trans s (is_trusted p s).2 _ (is_trusted-Later p s)
            (deny-Later a "capability_not_granted" _ _))
  ]
]

revoke-Later : (r : String) (p : AgentPassport) (s : Sys) → Later s (revoke r p s).1
unfolding revoke
revoke-Later r p s =
    Later-trans s (record s { reads = s.reads + 1 }) _
      (record {
        same_clock = refl;
        same_random = refl;
        reads_le = omega arith;
        draws_le = omega arith;
      })
      (log_action-Later "passport_revoked" _ outcome_success _ _)

step-Later : (c : Call) (w : AgentPassport × Sys) → Later w.1 (step c w).1
unfolding step
step-Later (log a d o) (p, s) = log_action-Later a d o p s
step-Later (verify a) (p, s) = verify_action-Later a p s
step-Later check (p, s) = is_trusted-Later p s
step-Later (withdraw r) (p, s) = revoke-Later r p s

pub run-Later : (cs : List Call) (w : AgentPassport × Sys) → Later w.1 (run cs w).1
unfolding run
run-Later [] w = Later-refl w.1
run-Later (c ∷ cs) w = Later-trans w.1 _ _ (step-Later c w) (run-Later cs (step c w))

-- On a clock that does not run backwards a later reading is no smaller.
clock_mono : (s : Sys) (i k : ℕ) → Monotone s → s.clock i ≤ s.clock (i + k)
clock_mono s i zero m = let e : i + zero ≡ i = omega arith in rw e (omega arith)
clock_mono s i (suc k) m =
    let e : i + suc k ≡ i + k + 1 = omega arith in
    rw e (omega (arith, clock_mono s i k m, m (i + k)))

pub Later-next_time : (s t : Sys) → Monotone s → Later s t → next_time s ≤ next_time t
Later-next_time s t m l =
    let e : t.reads ≡ s.reads + (t.reads - s.reads) = omega arith in
    rw (l.same_clock, e) (clock_mono s s.reads (t.reads - s.reads) m)
