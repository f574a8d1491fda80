-- ===== src/RequirePassport.antt =====
-- `RequirePassport` of helpers.go: a function behind the checks of a passport.
--
-- The wrapped function may do anything to the passport and to the system, so it is a parameter, as
-- are the types of its argument, its result (with its zero value) and its errors.
pub mod Laws
use Prim.Native.String
use computeid_go.Common.{
  String, Bool, true, false, not, ◌&&◌, ◌⊎◌, inl, inr, Option, none, some, [], ◌==◌, if◌then◌else◌,
}
use computeid_go.Sys.{Sys}
use computeid_go.Errors.{Sentinel, GoError, wrapped}
use computeid_go.Capabilities.{Action}
use computeid_go.Agent.{
  AgentPassport, outcome_success, outcome_failure, log_action, is_trusted, verify_action,
}

infixr 65 ◌++◌
abbrev ◌++◌ : String → String → String
s ++ t = String.◌++◌ s t

-- What a call returns, the passport after it and the system after it.
abbrev pub Returned : Type 0 → Type 0 → Type 0
Returned R E = (R × Option (GoError ⊎ E)) × Option AgentPassport × Sys

abbrev pub Wrapped : Type 0 → Type 0 → Type 0 → Type 0
Wrapped A R E = AgentPassport → A → Sys → (R × Option E) × AgentPassport × Sys

abbrev pub outcome_of : {E : Type 0} → Option E → String
outcome_of none = outcome_success
outcome_of (some e) = outcome_failure

abbrev pub as_error : {E : Type 0} → Option E → Option (GoError ⊎ E)
as_error none = none
as_error (some e) = some (inr e)

abbrev pub refuse : {R E : Type 0} → R → Sentinel → String → AgentPassport → Sys → Returned R E
refuse zero kind text p s = ((zero, some (inl (wrapped kind text))), some p, s)

module _ {A R E : Type 0} where
  -- The call of `fn`, and the entry about it.
  unfoldable pub call_logged : Wrapped A R E → Action → AgentPassport → A → Sys → Returned R E
  call_logged fn capability p arg s =
      let ((r, e), p₁, s₁) = fn p arg s in
      let (_, p₂, s₂) = log_action (capability ++ "_call") [] (outcome_of e) p₁ s₁ in
      ((r, as_error e), some p₂, s₂)

  -- The second test: no capability is asked for, or `VerifyAction` passes.
  unfoldable pub call_verified : R → Wrapped A R E → Action → AgentPassport → A → Sys → Returned R E
  call_verified zero fn capability p arg s =
      if capability == ""
      then call_logged fn capability p arg s
      else (let (passed, p', s') = verify_action capability p s in
          if not passed
          then refuse zero Sentinel.trust ("agent lacks " ++ capability ++ " capability") p' s'
          else call_logged fn capability p' arg s')

  -- The function that `RequirePassport` returns.
  unfoldable pub require_passport :
      R → Action → Wrapped A R E → Option AgentPassport → A → Sys → Returned R E
  require_passport zero capability fn none arg s = (
    (zero, some (inl (wrapped Sentinel.authentication "function requires an AgentPassport"))),
    none,
    s,
  )
  require_passport zero capability fn (some p) arg s =
      let (trusted, p', s') = is_trusted p s in
      if not trusted
      then refuse zero Sentinel.authentication
          ("passport for " ++ p'.agent_name ++ " is not trusted") p' s'
      else call_verified zero fn capability p' arg s'
