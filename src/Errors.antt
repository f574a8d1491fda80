-- ===== src/Errors.antt =====
-- errors.go: the sentinel errors, `*APIError`, and what `errors.Is` finds in an error that the
-- package returns.
use Prim.Native.String
use computeid_go.Common.{
  ◌≡◌, refl, ◌⊎◌, inl, inr, ℕ, String, Bool, true, false, ◌==◌, if◌then◌else◌,
}

-- `ErrComputeID` and the errors that `errors.Join` builds on it.
pub data Sentinel : Type 0 where
  computeid authentication registration revocation trust capability api : Sentinel

pub record ApiError : Type 0 where
  pub status_code : ℕ
  pub message : String
  pub endpoint : String

-- An error is a sentinel wrapped by `fmt.Errorf("%w: ...")` with the text behind it, or a bare
-- `*APIError`.
pub data GoError : Type 0 where
  wrapped : Sentinel → String → GoError
  api_error : ApiError → GoError

infixr 65 ◌++◌
abbrev ◌++◌ : String → String → String
s ++ t = String.◌++◌ s t

-- `(*APIError).Error`
unfoldable pub api_error_text : ApiError → String
api_error_text e =
    if e.message == ""
    then "computeid: API call to " ++ e.endpoint ++ " failed"
    else "computeid: " ++ e.endpoint ++ ": " ++ e.message

abbrev pub same_sentinel : Sentinel → Sentinel → Bool
same_sentinel Sentinel.computeid Sentinel.computeid = true
same_sentinel Sentinel.authentication Sentinel.authentication = true
same_sentinel Sentinel.registration Sentinel.registration = true
same_sentinel Sentinel.revocation Sentinel.revocation = true
same_sentinel Sentinel.trust Sentinel.trust = true
same_sentinel Sentinel.capability Sentinel.capability = true
same_sentinel Sentinel.api Sentinel.api = true
same_sentinel _ _ = false

-- `errors.Is` on a sentinel: it is itself, and every other one is joined to `ErrComputeID`.
abbrev pub sentinel_is : Sentinel → Sentinel → Bool
sentinel_is s Sentinel.computeid = true
sentinel_is s target = same_sentinel s target

-- `errors.Is` on an error: `%w` unwraps to the sentinel, and `(*APIError).Unwrap` gives `ErrAPI`.
unfoldable pub error_is : GoError → Sentinel → Bool
error_is (wrapped s _) target = sentinel_is s target
error_is (api_error _) target = sentinel_is Sentinel.api target

pub data Result {ℓ} (A : Type ℓ) : Type ℓ where
  ok : A → Result A
  err : GoError → Result A

pub Result-cases {ℓ} :
    {A : Type ℓ} (r : Result A) → ((a : A) × (r ≡ ok a)) ⊎ ((e : GoError) × (r ≡ err e))
Result-cases (ok a) = inl (a, refl)
Result-cases (err e) = inr (e, refl)

pub ok_injective {ℓ} : {A : Type ℓ} {a b : A} → ok a ≡ ok b → a ≡ b
ok_injective h = cc
