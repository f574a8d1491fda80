-- ===== src/RequirePassport/Laws.antt =====
-- When the wrapped function runs, and what a refusal leaves (helpers.go).
use Prim.Native.String
use computeid_go.Common.{
  ◌≡◌, refl, ◌≢◌, ◌⊎◌, inl, inr, false, String, [], ◌∷◌, ◌++◌, arith, ◌==◌, eq_iff, Option, some,
  none, sym, ap, ◌∙◌, Bool-cases, text_cases, text_ne, if◌then◌else◌,
}
use computeid_go.Sys.{Sys}
use computeid_go.Errors.{Sentinel, wrapped}
use computeid_go.Capabilities.{Action}
use computeid_go.Capabilities.Laws.{Grants}
use computeid_go.Agent.{
  AgentPassport, AuditEntry, outcome_success, log_action, is_trusted, verify_action,
}
use computeid_go.Agent.Log.{IsEntry, log_action_lem}
use computeid_go.Agent.Trust.{
  IsLive, next_time, is_trusted_iff, is_trusted-true, verify_action_iff, verify_action-Verdict,
}
use computeid_go.RequirePassport.{
  Returned, Wrapped, outcome_of, as_error, call_logged, call_verified, require_passport, refuse,
}

-- The passport is live at the first check and, where a capability is asked for, it is live at the
-- second check too and grants the capability.
abbrev pub Admits : Action → AgentPassport → Sys → Type 0
Admits capability p s =
    IsLive p (next_time s)
    × ((capability ≡ "")
        ⊎ (IsLive p (next_time (is_trusted p s).2) × Grants p.capabilities capability))

-- The system that the wrapped function is started in.
abbrev pub start : Action → AgentPassport → Sys → Sys
start capability p s =
    if capability == ""
    then (is_trusted p s).2
    else (verify_action capability p (is_trusted p s).2).2

-- An entry is never written with an empty outcome here, so none is replaced.
outcome_of-kept :
    {E : Type 0} (e : Option E)
    → (if outcome_of e == "" then outcome_success else outcome_of e) ≡ outcome_of e
outcome_of-kept none = refl
outcome_of-kept (some e) = refl

module _ {A R E : Type 0} (zero : R) (capability : Action) (fn : Wrapped A R E) (p : AgentPassport)
    (arg : A) (s : Sys) where
  -- What `fn` does when it is started.
  abbrev ran : (R × Option E) × AgentPassport × Sys
  ran = fn p arg (start capability p s)

  call-admitted :
      Admits capability p s
      → require_passport zero capability fn (some p) arg s
        ≡ call_logged fn capability p arg (start capability p s)
  unfolding require_passport call_verified
  call-admitted (live, more) =
      let t = (is_trusted_iff p s).1 live in
      let same = is_trusted-true p s t in
      elim (text_cases capability "") [
        | inl none_asked ↦ rw (t, same, none_asked)
        | inr asked ↦
            let granted : IsLive p (next_time (is_trusted p s).2)
                × Grants p.capabilities capability =
              elim more [ inl e ↦ absurd (asked-absurd asked e) | inr g ↦ g ] in
            let v = (verify_action_iff capability p (is_trusted p s).2).1 granted in
            rw (t, same, asked, v, (verify_action-Verdict capability p (is_trusted p s).2).passes v)
      ]
    where
      asked-absurd : (capability == "") ≡ false → capability ≡ "" → ⊥
      asked-absurd n e = ground (arith, eq_iff capability "")

  -- An admitted call runs the function once, on the passport as it was, hands on its result and its
  -- error, and then appends one entry, for the capability and "_call": a failure if the function
  -- returned an error, else a success.
  pub require_passport_runs :
      Admits capability p s
      → (entry : AuditEntry) × IsEntry ran.1
          (String.◌++◌ capability "_call")
          []
          (outcome_of ran.0.1)
          ran.2
          entry
        × ((require_passport zero capability fn (some p) arg s).0 ≡ (ran.0.0, as_error ran.0.1))
        × ((require_passport zero capability fn (some p) arg s).1
            ≡ some (record ran.1 { audit_log = ran.1.audit_log ++ entry ∷ [] }))
  unfolding call_logged
  require_passport_runs admitted =
      let name = String.◌++◌ capability "_call" in
      let (said, logged, _) = log_action_lem name [] (outcome_of ran.0.1) ran.1 ran.2 in
      let entry = (log_action name [] (outcome_of ran.0.1) ran.1 ran.2).0 in
      let same = call-admitted admitted in
      (
        entry,
        record {
          by = said.by;
          names = said.names;
          holds = said.holds;
          ends = said.ends ∙ outcome_of-kept ran.0.1;
          at = said.at;
        },
        rw same,
        rw (same, logged),
      )

module _ {A R E : Type 0} (zero : R) (capability : Action) (p : AgentPassport) (arg : A)
    (s : Sys) where
  call-untrusted :
      (fn : Wrapped A R E)
      → ¬ IsLive p (next_time s)
      → require_passport zero capability fn (some p) arg s
        ≡ refuse zero Sentinel.authentication
            (String.◌++◌ "passport for "
              (String.◌++◌ (is_trusted p s).1.agent_name " is not trusted"))
            (is_trusted p s).1
            (is_trusted p s).2
  unfolding require_passport
  call-untrusted fn dead = elim (Bool-cases (is_trusted p s).0) [
    | inl t ↦ absurd (dead ((is_trusted_iff p s).0 t))
    | inr f ↦ rw f
  ]

  call-unverified :
      (fn : Wrapped A R E)
      → IsLive p (next_time s)
      → capability ≢ ""
      → (verify_action capability p (is_trusted p s).2).0 ≡ false
      → require_passport zero capability fn (some p) arg s
        ≡ refuse zero Sentinel.trust
            (String.◌++◌ "agent lacks " (String.◌++◌ capability " capability"))
            (verify_action capability p (is_trusted p s).2).1
            (verify_action capability p (is_trusted p s).2).2
  unfolding require_passport call_verified
  call-unverified fn live asked v =
      let t = (is_trusted_iff p s).1 live in
      rw (t, is_trusted-true p s t, text_ne capability "" asked, v)

-- A call that goes past the first check and is not admitted has a capability that is not verified.
call-stopped :
    (capability : Action) (p : AgentPassport) (s : Sys)
    → ¬ Admits capability p s
    → IsLive p (next_time s)
    → (capability ≢ "") × ((verify_action capability p (is_trusted p s).2).0 ≡ false)
call-stopped capability p s refused live = (
  λ e. refused (live, inl e),
  elim (Bool-cases (verify_action capability p (is_trusted p s).2).0) [
    | inl v ↦ absurd (refused (live, inr ((verify_action_iff capability p _).0 v)))
    | inr v ↦ v
  ],
)

-- A call without a passport is not admitted.
abbrev pub Admitted : Action → Option AgentPassport → Sys → Type 0
Admitted capability none s = ⊥
Admitted capability (some p) s = Admits capability p s

-- Why a call is refused: there is no passport, or it is not live at the first check, or it is live
-- then, and at the second check it is not live any more or does not grant the capability.
pub data Blame (capability : Action) (s : Sys) : Sentinel → Option AgentPassport → Type 0 where
  missing : Blame capability s Sentinel.authentication none
  untrusted :
      (p : AgentPassport)
      → ¬ IsLive p (next_time s)
      → Blame capability s Sentinel.authentication (some p)
  denied :
      (p : AgentPassport)
      → IsLive p (next_time s)
      → capability ≢ ""
      → ¬ (IsLive p (next_time (is_trusted p s).2) × Grants p.capabilities capability)
      → Blame capability s Sentinel.trust (some p)

module _ {A R E : Type 0} (zero : R) (capability : Action) (o : Option AgentPassport) (arg : A)
    (s : Sys) where
  -- What a refused call answers, whatever the function is.
  pub record IsRefusal (fn : Wrapped A R E) : Type 0 where
    pub kind : Sentinel
    pub text : String
    pub answers :
        (require_passport zero capability fn o arg s).0 ≡ (zero, some (inl (wrapped kind text)))
    pub blames : Blame capability s kind o
    pub ignores :
        (fn' : Wrapped A R E)
        → require_passport zero capability fn o arg s ≡ require_passport zero capability fn' o arg s

module _ {A R E : Type 0} (zero : R) (capability : Action) where
  -- A call that is not admitted does not run the function (any other in its place gives the same
  -- result, passport and system): it returns the zero value, with an authentication error if there is
  -- no passport or the passport is not live at the first check. Else the error is a trust error: a
  -- capability was asked for, and at the second check the passport does not grant it or is not live
  -- any more.
  pub require_passport_refuses :
      (o : Option AgentPassport) (arg : A) (s : Sys) (fn : Wrapped A R E)
      → ¬ Admitted capability o s
      → IsRefusal zero capability o arg s fn
  unfolding require_passport
  require_passport_refuses none arg s fn refused = record {
    kind = Sentinel.authentication;
    text = "function requires an AgentPassport";
    answers = refl;
    blames = missing;
    ignores = λ fn'. refl;
  }
  require_passport_refuses (some p) arg s fn refused = elim (Bool-cases (is_trusted p s).0) [
    | inr f ↦
        let dead : ¬ IsLive p (next_time s) = λ l. cc ((is_trusted_iff p s).1 l) in
        let call = call-untrusted zero capability p arg s in
        record {
          kind = Sentinel.authentication;
          text = _;
          answers = ap (λ (u : Returned R E). u.0) (call fn dead);
          blames = untrusted p dead;
          ignores = λ fn'. call fn dead ∙ sym (call fn' dead);
        }
    | inl t ↦
        let live = (is_trusted_iff p s).0 t in
        let (asked, failed) = call-stopped capability p s refused live in
        let call = call-unverified zero capability p arg s in
        record {
          kind = Sentinel.trust;
          text = _;
          answers = ap (λ (u : Returned R E). u.0) (call fn live asked failed);
          blames = denied p live asked (λ g. refused (live, inr g));
          ignores = λ fn'. call fn live asked failed ∙ sym (call fn' live asked failed);
        }
  ]
