-- ===== src/Client/Options.antt =====
-- What a client is after its options, and what its requests carry (client.go).
use Prim.Native.Char.{Char}
use text.Mathlib.TextLemmas.{nil-append, cons-append}
use computeid_go.Common.{
  ◌≡◌, ◌≢◌, ℕ, String, Option, none, some, List, [], ◌∷◌, inl, inr, ◌==◌, if◌then◌else◌, arith,
  eq_iff, Bool-cases, text_cases, ap, ◌∙◌,
}
use computeid_go.Common.Dict.{Dict, insert, lookup}
use computeid_go.Client.{
  ◌++◌, Transport, Client, Net, ClientOption, with_base_url, with_api_key, with_http_client,
  with_user_agent, trim_slashes, apply_option, apply_options, default_api, default_client,
  new_client,
}
use computeid_go.Client.Requests.{headers_of}

empty-ne : (t : String) → "" ≢ t ++ "/"
empty-ne String.[] h = cc (h, nil-append "/")
empty-ne (String.◌∷◌ d t) h = cc (h, cons-append d t "/")

tail_of : String → String
tail_of String.[] = String.[]
tail_of (String.◌∷◌ c s) = s

behind : (c d : Char) (s t : String) → String.◌∷◌ c s ≡ String.◌∷◌ d t ++ "/" → s ≡ t ++ "/"
unfolding tail_of
behind c d s t h = ap tail_of (h ∙ cons-append d t "/")

-- Trimmed text does not end with a slash.
pub trim_slashes-ne : (s t : String) → trim_slashes s ≢ t ++ "/"
unfolding trim_slashes tail_of
trim_slashes-ne String.[] t h = empty-ne t h
trim_slashes-ne (String.◌∷◌ c s) String.[] h = elim (text_cases (trim_slashes s) "") [
  | inr more ↦
      let e : trim_slashes s ≡ "" = ap tail_of (rw (more, trim_slashes) at h ∙ nil-append "/") in
      cc (more, (eq_iff (trim_slashes s) "").1 e)
  | inl done ↦ elim (Bool-cases (String.◌∷◌ c "" == "/")) [
    | inl slash ↦ empty-ne "" (rw (done, slash, trim_slashes) at h)
    | inr other ↦
        cc (other, (eq_iff _ "/").1 (rw (done, other, trim_slashes) at h ∙ nil-append "/"))
  ]
]
trim_slashes-ne (String.◌∷◌ c s) (String.◌∷◌ d t) h = elim (text_cases (trim_slashes s) "") [
  | inr more ↦ trim_slashes-ne s t (behind c d (trim_slashes s) t (rw (more, trim_slashes) at h))
  | inl done ↦ elim (Bool-cases (String.◌∷◌ c "" == "/")) [
    | inl slash ↦ empty-ne (String.◌∷◌ d t) (rw (done, slash, trim_slashes) at h)
    | inr other ↦ empty-ne t (behind c d "" t (rw (done, other, trim_slashes) at h))
  ]
]

module _ {W : Type 0} where
  ends_free :
      (c : Client W)
      → ((t : String) → c.base_url ≢ t ++ "/")
      → (os : List (ClientOption W)) → (t : String) → (apply_options c os).base_url ≢ t ++ "/"
  unfolding apply_options apply_option
  ends_free c h [] = h
  ends_free c h (with_base_url u ∷ os) =
      ends_free (apply_option c (with_base_url u)) (trim_slashes-ne u) os
  ends_free c h (with_api_key key ∷ os) = ends_free (apply_option c (with_api_key key)) h os
  ends_free c h (with_http_client none ∷ os) = ends_free c h os
  ends_free c h (with_http_client (some x) ∷ os) =
      ends_free (apply_option c (with_http_client (some x))) h os
  ends_free c h (with_user_agent ua ∷ os) = ends_free (apply_option c (with_user_agent ua)) h os

  -- Whatever the options are, the base URL of a client does not end with a slash, so that a path
  -- which begins with one follows it.
  pub new_client-base_url :
      (standard : Transport W) (os : List (ClientOption W)) (t : String)
      → (new_client standard os).base_url ≢ t ++ "/"
  unfolding new_client default_client trim_slashes
  new_client-base_url standard os = ends_free (default_client standard) plain os
    where
      plain : (t : String) → (default_client standard).base_url ≢ t ++ "/"
      plain t h = trim_slashes-ne default_api t (unfold trim_slashes default_client in h)

module _ {W : Type 0} (net : Net) (c : Client W) where
  -- The key and the user agent, if they are set, and what the answer may be.
  abbrev pub AreSet : Dict String → Type 0
  AreSet h =
      (lookup "X-Api-Key" h ≡ (if c.api_key == "" then none else some c.api_key))
      × (lookup "User-Agent" h ≡ (if c.user_agent == "" then none else some c.user_agent))
      × (lookup "Accept" h ≡ some "application/json")

  -- Every request carries the key and the user agent of its client, each unless it is empty, and
  -- asks for JSON.
  pub headers_of-AreSet : (body : Option (List ℕ)) → AreSet (headers_of net c body)
  unfolding headers_of insert lookup
  headers_of-AreSet none = (ground arith, ground arith, ground arith)
  headers_of-AreSet (some b) = (ground arith, ground arith, ground arith)
