-- ===== src/Client/Paths.antt =====
-- The requests of client.go on one passport, and the handlers of server/server.go that they reach.
use text.Mathlib.TextLemmas.{cons-append, append-nil, append_assoc}
use computeid_go.Common.{
  ◌≡◌, refl, sym, ◌≢◌, ℕ, String, Bool, true, false, not, ◌&&◌, some, [], ◌∷◌, ◌==◌, arith, ap, ◌∙◌,
  Bool-cases, inl, inr,
}
use computeid_go.Common.Int.{ℤ, is_nonpositive, magnitude}
use computeid_go.Common.Chars.{AllChars-append, AllChars-map, Lacks, split_on, split_on-Lacks}
use computeid_go.Url.{path_escape, path_unescape, read_escaped, before_query}
use computeid_go.Url.Laws.{read_literal, after_text}
use computeid_go.Url.Inner.{
  IsInner, path_escape-IsInner, path_unescape-path_escape, before_query-append,
}
use computeid_go.Server.Route.{AgentRoute, agents_prefix}
use computeid_go.Server.Route.Paths.{Serves, route_agent_sub_complete}
use computeid_go.Server.Mux.{by_agent, serve, clean_parts}
use computeid_go.Server.Mux.Laws.{
  split_on-slash, IsName, escaped-Lacks, escaped-CleanPart, serve-agents,
}
use computeid_go.Client.{◌++◌}
use computeid_go.Client.Endpoints.{
  verify_path, capability_path, actions_path, limit_query, revoke_path,
}

one_part : (e t : String) → Lacks b'/' e → Lacks b'/' t → split_on b'/' (e ++ "/" ++ t) ≡ e ∷ t ∷ []
one_part e t h k = split_on-slash e t h ∙ ap (λ ps. e ∷ ps) (split_on-Lacks "/" t k)

module _ (id : String) (n : IsName id) where
  -- A request with one word behind the identifier.
  one_word :
      (method t : String) (r : AgentRoute)
      → Lacks b'/' t
      → clean_parts (t ∷ []) ≡ true
      → path_unescape ("/" ++ t) ≡ some ("/" ++ t)
      → Serves method (agents_prefix ++ id ++ "/" ++ t) r
      → serve method (agents_prefix ++ path_escape id ++ "/" ++ t) ≡ by_agent r
  one_word method t r h c u s =
      serve-agents method id t ("/" ++ t) ("/" ++ t) [] n
        (one_part (path_escape id) t (escaped-Lacks id n) h) c u
      ∙ ap by_agent (route_agent_sub_complete method _ r s)

  served_verify : serve "GET" (verify_path id) ≡ by_agent (AgentRoute.verify id)
  unfolding verify_path path_unescape read_escaped clean_parts
  served_verify =
      one_word "GET" "verify" (AgentRoute.verify id) (ground arith) refl refl
        (Serves.verify id (n.segment) refl refl)

  served_log : serve "POST" (actions_path id) ≡ by_agent (AgentRoute.log_action id)
  unfolding actions_path path_unescape read_escaped clean_parts
  served_log =
      one_word "POST" "actions" (AgentRoute.log_action id) (ground arith) refl refl
        (Serves.log_action id (n.segment) refl refl)

  served_list : serve "GET" (actions_path id) ≡ by_agent (AgentRoute.list_actions id)
  unfolding actions_path path_unescape read_escaped clean_parts
  served_list =
      one_word "GET" "actions" (AgentRoute.list_actions id) (ground arith) refl refl
        (Serves.list_actions id (n.segment) refl refl)

  served_revoke : serve "DELETE" (revoke_path id) ≡ by_agent (AgentRoute.revoke id)
  unfolding revoke_path path_unescape read_escaped clean_parts
  served_revoke =
      one_word "DELETE" "revoke" (AgentRoute.revoke id) (ground arith) refl refl
        (Serves.revoke id (n.segment) refl refl)

  Lacks-around :
      (m : ℕ) (tail : String)
      → ((c : ℕ) → IsInner c → c ≢ m)
      → Lacks m agents_prefix
      → Lacks m tail
      → Lacks m (agents_prefix ++ path_escape id ++ tail)
  Lacks-around m tail f p q =
      AllChars-append (λ c. c ≢ m) agents_prefix (path_escape id ++ tail) p
        (AllChars-append (λ c. c ≢ m) (path_escape id) tail
          (AllChars-map IsInner (λ c. c ≢ m) f (path_escape id) (path_escape-IsInner id n.bytes)) q)

  -- A path ends where its query begins.
  before_query-around :
      (tail q : String)
      → Lacks b'?' tail
      → Lacks b'#' tail
      → before_query ((agents_prefix ++ path_escape id ++ tail) ++ q)
        ≡ (agents_prefix ++ path_escape id ++ tail) ++ before_query q
  before_query-around tail q h k =
      before_query-append (agents_prefix ++ path_escape id ++ tail) q
        (Lacks-around b'?' tail (λ c i. i.no_query) (ground arith) h)
        (Lacks-around b'#' tail (λ c i. i.no_fragment) (ground arith) k)

  before_query-whole :
      (tail : String)
      → Lacks b'?' tail
      → Lacks b'#' tail
      → before_query (agents_prefix ++ path_escape id ++ tail)
        ≡ agents_prefix ++ path_escape id ++ tail
  unfolding before_query
  before_query-whole tail h k =
      let whole = agents_prefix ++ path_escape id ++ tail in
      ap before_query (sym (append-nil whole)) ∙ before_query-around tail "" h k ∙ append-nil whole

  pub served_revoke_target :
      serve "DELETE" (before_query (revoke_path id)) ≡ by_agent (AgentRoute.revoke id)
  unfolding revoke_path
  served_revoke_target =
      ap (serve "DELETE") (before_query-whole "/revoke" (ground arith) (ground arith))
      ∙ served_revoke

  -- A limit stands in the query.
  before_limit :
      (itoa : ℕ → String) (limit : ℤ)
      → before_query (actions_path id ++ limit_query itoa limit) ≡ actions_path id
  unfolding actions_path
  before_limit itoa limit =
      before_query-around "/actions" (limit_query itoa limit) (ground arith) (ground arith)
      ∙ ap (λ q. actions_path id ++ q) cut
      ∙ append-nil (actions_path id)
    where
      cut : before_query (limit_query itoa limit) ≡ ""
      cut = elim (Bool-cases (is_nonpositive limit)) [
        | inl off ↦ unfold limit_query before_query in rw off refl
        | inr on ↦
            unfold limit_query before_query in
            rw (on, cons-append "?" "limit=" (itoa (magnitude limit))) refl
      ]

  module _ (name : String) (m : IsName name) where
    parts_of :
        split_on b'/' (path_escape id ++ "/capabilities/" ++ path_escape name)
        ≡ path_escape id ∷ "capabilities" ∷ path_escape name ∷ []
    parts_of =
        ap (λ s. split_on b'/' (path_escape id ++ s)) spelled
        ∙ split_on-slash (path_escape id) ("capabilities" ++ "/" ++ path_escape name)
            (escaped-Lacks id n)
        ∙ ap (λ ps. path_escape id ∷ ps)
            (one_part "capabilities" (path_escape name) (ground arith) (escaped-Lacks name m))
      where
        spelled :
            "/capabilities/" ++ path_escape name ≡ "/" ++ "capabilities" ++ "/" ++ path_escape name
        spelled =
            append_assoc "/" "capabilities/" (path_escape name)
            ∙ ap (λ s. "/" ++ s) (append_assoc "capabilities" "/" (path_escape name))

    read_name :
        path_unescape ("/capabilities/" ++ path_escape name) ≡ some ("/capabilities/" ++ name)
    unfolding path_unescape
    read_name =
        read_literal "/capabilities/" (path_escape name) (ground arith)
        ∙ ap (after_text "/capabilities/") (path_unescape-path_escape name m.bytes)

    served_capability :
        serve "GET" (capability_path id name) ≡ by_agent (AgentRoute.capability id name)
    unfolding capability_path clean_parts
    served_capability =
        serve-agents "GET" id "capabilities" ("/capabilities/" ++ path_escape name)
          ("/capabilities/" ++ name) (path_escape name ∷ []) n parts_of clean read_name
        ∙ ap by_agent (
            route_agent_sub_complete "GET" _ _
              (Serves.capability id name (n.segment) (m.segment) refl refl))
      where
        last : (a b : Bool) → (a && b) ≡ true → b ≡ true
        last true b h = h
        last false b h = cc

        clean : clean_parts ("capabilities" ∷ path_escape name ∷ []) ≡ true
        clean =
            unfold clean_parts in
            let e = path_escape name in
            last (not (e == "")) (not (e == ".") && not (e == "..")) (escaped-CleanPart name m)

    pub served_capability_target :
        serve "GET" (before_query (capability_path id name))
        ≡ by_agent (AgentRoute.capability id name)
    unfolding capability_path
    served_capability_target =
        ap (serve "GET") (
          before_query-whole ("/capabilities/" ++ path_escape name)
            (free b'?' (λ c i. i.no_query) (ground arith))
            (free b'#' (λ c i. i.no_fragment) (ground arith)))
        ∙ served_capability
      where
        free :
            (l : ℕ)
            → ((c : ℕ) → IsInner c → c ≢ l)
            → Lacks l "/capabilities/"
            → Lacks l ("/capabilities/" ++ path_escape name)
        free l f p =
            AllChars-append (λ c. c ≢ l) "/capabilities/" (path_escape name) p
              (AllChars-map IsInner (λ c. c ≢ l) f (path_escape name)
                (path_escape-IsInner name m.bytes))

    -- Every request of a client on one passport reaches the handler that it is meant for, with the
    -- identifier and the name that the client was given, whatever bytes they are escaped to; a limit
    -- does not change the path. An identifier or a name is not empty, holds no slash and is neither
    -- `.` nor `..`.
    pub serve-requests :
        (itoa : ℕ → String) (limit : ℤ)
        → (serve "GET" (verify_path id) ≡ by_agent (AgentRoute.verify id))
          × (serve "GET" (capability_path id name) ≡ by_agent (AgentRoute.capability id name))
          × (serve "POST" (actions_path id) ≡ by_agent (AgentRoute.log_action id))
          × (serve "GET" (before_query (actions_path id ++ limit_query itoa limit))
              ≡ by_agent (AgentRoute.list_actions id))
          × (serve "DELETE" (revoke_path id) ≡ by_agent (AgentRoute.revoke id))
    serve-requests itoa limit = (
      served_verify,
      served_capability,
      served_log,
      ap (serve "GET") (before_limit itoa limit) ∙ served_list,
      served_revoke,
    )
