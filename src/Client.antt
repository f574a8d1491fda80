-- ===== src/Client.antt =====
-- client.go: the HTTP client of the REST API, its options, and the exchange that every call makes.
--
-- The transport, `http.NewRequestWithContext`, JSON and `http.StatusText` are the standard
-- library's. `W` is the world that a transport changes: what is on the other side, and the context.
pub mod Requests
pub mod Endpoints
pub mod Options
pub mod Failures
pub mod Laws
pub mod Paths
use Prim.Native.String
use computeid_go.Common.{
  ℕ, String, Bool, true, false, ◌||◌, Option, none, some, List, [], ◌∷◌, ◌⊎◌, inl, inr, ◌==◌,
  nat_eq, leb, if◌then◌else◌,
}
use computeid_go.Common.Dict.{Dict, insert}
use computeid_go.Errors.{
  GoError, wrapped, api_error, Sentinel, ApiError, api_error_text, Result, ok, err,
}
use computeid_go.Server.Text.{RequestBody, sent, broken, Decoder}
use computeid_go.Server.Route.{strip}

infixr 65 ◌++◌
abbrev pub ◌++◌ : String → String → String
s ++ t = String.◌++◌ s t

pub record HttpRequest : Type 0 where
  pub method : String
  pub url : String
  pub headers : Dict String
  pub body : Option (List ℕ)

pub record HttpResponse : Type 0 where
  pub status_code : ℕ
  pub body : RequestBody

-- `(*http.Client).Do`: a response, or the text of an error.
abbrev pub Transport : Type 0 → Type 0
Transport W = HttpRequest → W → (String ⊎ HttpResponse) × W

pub record Client (W : Type 0) : Type 0 where
  pub base_url : String
  pub http_client : Transport W
  pub api_key : String
  pub user_agent : String

abbrev pub default_api : String
default_api = "https://api.aicomputeid.com"

abbrev pub sdk_version : String
sdk_version = "1.0.0"

-- `strings.TrimRight(u, "/")`
unfoldable pub trim_slashes : String → String
trim_slashes String.[] = String.[]
trim_slashes (String.◌∷◌ c s) =
    let rest = trim_slashes s in
    if rest == "" then if String.◌∷◌ c "" == "/" then "" else String.◌∷◌ c "" else String.◌∷◌ c rest

-- `Option`: `WithHTTPClient` may be given nil.
pub data ClientOption (W : Type 0) : Type 0 where
  with_base_url : String → ClientOption W
  with_api_key : String → ClientOption W
  with_http_client : Option (Transport W) → ClientOption W
  with_user_agent : String → ClientOption W

module _ {W : Type 0} where
  unfoldable pub apply_option : Client W → ClientOption W → Client W
  apply_option c (with_base_url u) = record c { base_url = trim_slashes u }
  apply_option c (with_api_key key) = record c { api_key = key }
  apply_option c (with_http_client none) = c
  apply_option c (with_http_client (some h)) = record c { http_client = h }
  apply_option c (with_user_agent ua) = record c { user_agent = ua }

  unfoldable pub apply_options : Client W → List (ClientOption W) → Client W
  apply_options c [] = c
  apply_options c (o ∷ os) = apply_options (apply_option c o) os

  -- `&http.Client{Timeout: 30 * time.Second}` is the transport given first.
  unfoldable pub default_client : Transport W → Client W
  default_client standard = record {
    base_url = default_api;
    http_client = standard;
    api_key = "";
    user_agent = "computeid-go/" ++ sdk_version;
  }

  -- `NewClient`
  unfoldable pub new_client : Transport W → List (ClientOption W) → Client W
  new_client standard os = apply_options (default_client standard) os

-- The three fields in which an API reports an error.
pub record ErrorBody : Type 0 where
  pub error : String
  pub message : String
  pub detail : String

-- What `do` uses of the standard library: `build` gives the error of `http.NewRequestWithContext`.
pub record Net : Type 0 where
  pub build : String → String → Option String
  pub status_text : ℕ → String
  pub error_body : Decoder ErrorBody

-- `strings.Contains(s, sub)`
unfoldable pub contains_text : String → String → Bool
contains_text sub String.[] = sub == ""
contains_text sub (String.◌∷◌ c s) =
    let later = contains_text sub s in
    elim (strip sub (String.◌∷◌ c s)) [ some rest ↦ true | none ↦ later ]

-- The first switch of `parseAPIError`.
unfoldable pub error_message : Net → ℕ → List ℕ → String
error_message net status raw =
    let body = (net.error_body raw).0 in
    if body.error == ""
    then if body.message == ""
      then if body.detail == "" then net.status_text status else body.detail
      else body.message
    else body.error

abbrev pub is_unauthorized : ℕ → Bool
is_unauthorized status = nat_eq status 401 || nat_eq status 403

abbrev pub error_at : Net → ℕ → String → List ℕ → ApiError
error_at net status path raw = record {
  status_code = status;
  message = error_message net status raw;
  endpoint = path;
}

-- `parseAPIError`
unfoldable pub parse_api_error : Net → ℕ → String → List ℕ → GoError
parse_api_error net status path raw =
    let e = error_at net status path raw in
    if is_unauthorized status
    then wrapped Sentinel.authentication (api_error_text e)
    else if contains_text "/revoke" path
    then wrapped Sentinel.revocation (api_error_text e)
    else if contains_text "/register" path
    then wrapped Sentinel.registration (api_error_text e)
    else api_error e

abbrev pub transport_error : String → String → String → GoError
transport_error step path e = wrapped Sentinel.api (step ++ path ++ ": " ++ e)
