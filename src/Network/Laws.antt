-- ===== src/Network/Laws.antt =====
-- A passport that a client has revoked is not granted anything to a client (client.go with
-- server/handlers_agents.go).
use Prim.Native.String
use computeid_go.Common.{
  if◌then◌else◌, ◌==◌, subst, ◌≡◌, refl, ◌<◌, ◌≤◌, ap, sym, ◌∙◌, ℕ, zero, suc, String, Bool, true,
  false, none, some, List, [], ◌∷◌, ◌⊎◌, inl, inr, arith, Option-cases,
}
use computeid_go.Errors.{ok}
use computeid_go.Server.Db.{World, Up, inr_injective, execute-fault}
use computeid_go.Server.Text.{RequestBody, sent, Response, answer, error}
use computeid_go.Server.Route.{AgentRoute, strip}
use computeid_go.Server.Route.Segments.{strip-append}
use computeid_go.Server.Mux.{by_agent, serve}
use computeid_go.Server.Platform.{Platform}
use computeid_go.Server.Agents.{
  CapabilityResponse, Loaded, found, not_found, load_failed, refused, contains, capability_loaded,
  load_agent, handle_agent_capability,
}
use computeid_go.Server.Actions.{
  Revoked, handle_agent_revoke, after_revoke, revoke_answer, revoke_if_known,
}
use computeid_go.Server.Tables.{with_uuid, select_agent}
use computeid_go.Server.Writes.Handlers.{Request, serve_all}
use computeid_go.Server.Writes.Consistent.{IsConsistent}
use computeid_go.Server.Writes.Revocation.{handle_agent_revoke-final}
use computeid_go.Client.{HttpRequest, HttpResponse, Client}
use computeid_go.Client.Requests.{request_of}
use computeid_go.Client.Endpoints.{
  Codec, CapabilityCheck, no_check, revoke_agent, check_capability, revoke_path, capability_path,
}
use computeid_go.Client.Laws.{Reads, Answered-world, do_request_iff}
use computeid_go.Client.Paths.{served_revoke_target, served_capability_target}
use computeid_go.Server.Mux.Laws.{IsName}
use computeid_go.Url.{before_query}
use computeid_go.Network.{
  Service, body_of, respond, reply, answer_agent, answer_served, answer_at, returned, network,
  client_of,
}

-- An answer of a handler has status 200, and an error 400 or more.
abbrev pub HasStatus : {A : Type 0} → Response A → Type 0
HasStatus (answer status a) = status ≡ 200
HasStatus (error status e) = 400 ≤ status

revoke_if_known-HasStatus :
    (pl : Platform) (id reason : String) (b : Bool) (w : World)
    → HasStatus (revoke_if_known pl id reason b w).0
unfolding revoke_if_known revoke_answer
revoke_if_known-HasStatus pl id reason false w = omega arith
revoke_if_known-HasStatus pl id reason true w = refl

after_revoke-HasStatus :
    (pl : Platform) (id reason : String) (r : String ⊎ ℕ) (w : World)
    → HasStatus (after_revoke pl id reason r w).0
unfolding after_revoke revoke_answer
after_revoke-HasStatus pl id reason (inl e) w = omega arith
after_revoke-HasStatus pl id reason (inr zero) w = revoke_if_known-HasStatus pl id reason _ _
after_revoke-HasStatus pl id reason (inr (suc n)) w = refl

module _ (s : Service) (req : HttpRequest) (path : String) (r : AgentRoute) (w : World) where
  -- What a request for the agents comes to, unless it is lost.
  abbrev handled : HttpResponse × World
  handled = answer_agent s req r w

  answer_at-agent :
      req.url ≡ String.◌++◌ s.base path
      → serve req.method (before_query path) ≡ by_agent r
      → answer_at s req (strip s.base req.url) w ≡ handled
  unfolding answer_at answer_served
  answer_at-agent url h =
      ap (λ o. answer_at s req o w) (ap (strip s.base) url ∙ strip-append s.base path)
      ∙ ap (λ v. answer_served s req v w) h

  network-agent :
      req.url ≡ String.◌++◌ s.base path
      → serve req.method (before_query path) ≡ by_agent r
      → (out : HttpResponse) → (network s req w).0 ≡ inr out
      → network s req w ≡ (inr handled.0, handled.1)
  unfolding network returned
  network-agent url h out got = elim (Option-cases (s.request_lost req)) [
    | inr (e, lost) ↦ cc (rw (lost, network) at got)
    | inl kept ↦ elim (Option-cases (s.answer_lost req)) [
      | inr (e, lost) ↦ cc (rw (kept, network, lost, returned) at got)
      | inl back ↦
          rw (kept, network, back, returned)
            (ap (λ (p : HttpResponse × World). (inr p.0, p.1)) (answer_at-agent url h))
    ]
  ]

respond-success :
    {A : Type 0} (write : A → List ℕ) (write_error : String → List ℕ) (x : Response A)
    → HasStatus x
    → (respond write write_error x).status_code < 400
    → (a : A) × (x ≡ answer 200 a)
unfolding respond
respond-success write write_error (answer status a) h low = (a, ap (λ n. answer n a) h)
respond-success write write_error (error status e) h low = absurd (omega (arith, h, low))

handle_agent_revoke-HasStatus :
    (pl : Platform) (body : RequestBody) (id : String) (w : World)
    → HasStatus (handle_agent_revoke pl body id w).0
unfolding handle_agent_revoke
handle_agent_revoke-HasStatus pl body id w = after_revoke-HasStatus pl id _ _ _

sent_injective : {a b : List ℕ} → sent a ≡ sent b → a ≡ b
sent_injective h = cc

answer_injective :
    {A : Type 0} {a b : A} → ◌≡◌ {A = Response A} (answer 200 a) (answer 200 b) → a ≡ b
answer_injective h = cc

capability_loaded-HasStatus : (name : String) (l : Loaded) → HasStatus (capability_loaded name l)
unfolding capability_loaded
capability_loaded-HasStatus name not_found = omega arith
capability_loaded-HasStatus name (load_failed e) = omega arith
capability_loaded-HasStatus name (found row) =
    picked (row.status == "revoked") _ _ (picked (contains name row.capabilities) _ _ refl refl)
      refl
  where
    picked :
        (b : Bool) (x y : Response CapabilityResponse)
        → HasStatus y
        → HasStatus x
        → HasStatus (if b then x else y)
    picked true x y hy hx = hx
    picked false x y hy hx = hy

handle_agent_capability-HasStatus :
    (pl : Platform) (id name : String) (w : World)
    → HasStatus (handle_agent_capability pl id name w).0
unfolding handle_agent_capability
handle_agent_capability-HasStatus pl id name w = capability_loaded-HasStatus name _

module _ (s : Service) (k : Codec) (key agent id : String) (n : IsName id) where
  abbrev sdk : Client World
  sdk = client_of s key agent

  -- A revocation that the client sees succeed is one that the handler made.
  revoke_agent-handled :
      (reason : String) (w : World)
      → (revoke_agent k sdk id reason w).0 ≡ ok tt
      → (body : RequestBody) × (a : Revoked) × ((handle_agent_revoke s.platform body id w).0
          ≡ answer 200 a)
        × ((revoke_agent k sdk id reason w).1 ≡ (handle_agent_revoke s.platform body id w).1)
  unfolding revoke_agent answer_agent reply
  revoke_agent-handled reason w h =
      let sent_body = some (k.texts (("reason", reason) ∷ [])) in
      let r = (do_request_iff k.net sdk "DELETE" (revoke_path id) tt none sent_body w tt).0 h in
      let req = request_of k.net sdk "DELETE" (revoke_path id) r.bytes in
      let passed =
        network-agent s req (revoke_path id) (AgentRoute.revoke id) w refl
          (served_revoke_target id n) r.response r.exchanged in
      let handled = handle_agent_revoke s.platform (body_of r.bytes) id w in
      let same : respond s.write_revoked s.write_error handled.0 ≡ r.response =
        inr_injective
          (sym (ap (λ (p : (String ⊎ HttpResponse) × World). p.0) passed) ∙ r.exchanged) in
      let (a, done) =
        respond-success s.write_revoked s.write_error handled.0
          (handle_agent_revoke-HasStatus s.platform (body_of r.bytes) id w) (rw same r.success) in
      let moved = Answered-world k.net sdk "DELETE" (revoke_path id) tt none sent_body w tt r in
      (body_of r.bytes, a, done, moved ∙ ap (λ (p : (String ⊎ HttpResponse) × World). p.1) passed)

  module _ (name : String) (m : IsName name) where
    -- A check that the client sees succeed is one that the handler answered.
    check_capability-handled :
        (w : World) (x : CapabilityCheck)
        → (check_capability k sdk id name w).0 ≡ ok x
        → (a : CapabilityResponse) × ((handle_agent_capability s.platform id name w).0
            ≡ answer 200 a)
          × Reads no_check (some k.check) (s.write_capability a) x
    unfolding check_capability answer_agent reply respond
    check_capability-handled w x h =
        let r =
          (do_request_iff k.net sdk "GET" (capability_path id name) no_check (some k.check) none w
              x).0
            h in
        let req = request_of k.net sdk "GET" (capability_path id name) r.bytes in
        let passed =
          network-agent s req (capability_path id name) (AgentRoute.capability id name) w refl
            (served_capability_target id n name m) r.response r.exchanged in
        let handled = handle_agent_capability s.platform id name w in
        let same : respond s.write_capability s.write_error handled.0 ≡ r.response =
          inr_injective
            (sym (ap (λ (p : (String ⊎ HttpResponse) × World). p.0) passed) ∙ r.exchanged) in
        let (a, done) =
          respond-success s.write_capability s.write_error handled.0
            (handle_agent_capability-HasStatus s.platform id name w) (rw same r.success) in
        let written : sent (s.write_capability a) ≡ sent r.raw =
          ap (λ (p : HttpResponse). p.body)
            (ap (respond s.write_capability s.write_error) (sym done) ∙ same)
          ∙ r.whole in
        (
          a,
          done,
          subst (λ bytes. Reads no_check (some k.check) bytes x) (sym (sent_injective written))
              r.reads,
        )

module _ (s : Service) (k : Codec) (key agent key' agent' id : String) (n : IsName id)
    (name : String) (m : IsName name) (reason : String) (w : World) (rs : List Request) where
  -- The world after the revocation and the requests that followed it.
  abbrev pub afterwards : World
  afterwards =
      serve_all s.platform s.signer rs (revoke_agent k (client_of s key agent) id reason w).1

  fault-refuses :
      (w' : World) (e : String)
      → w'.backend.fault w'.statements ≡ some e
      → (handle_agent_capability s.platform id name w').0 ≡ error 500 e
  unfolding handle_agent_capability load_agent capability_loaded
  fault-refuses w' e h = rw (execute-fault (with_uuid s.platform id select_agent) w' e h) refl

  -- Once a client has been told, over consistent tables, that a passport is revoked, no client of
  -- the server is told that a capability of the passport is granted, whatever requests come between,
  -- whichever statements fail and whatever the network loses. The identifier and the name are not
  -- empty, hold no slash and are neither `.` nor `..`, and the JSON of the refusal is read as one
  -- that grants nothing.
  pub check_capability-revoked :
      IsConsistent w.db
      → ((x : CapabilityCheck)
          → Reads no_check (some k.check) (s.write_capability (refused "passport_revoked")) x
          → x.granted ≡ false)
      → (revoke_agent k (client_of s key agent) id reason w).0 ≡ ok tt
      → (x : CapabilityCheck)
      → (check_capability k (client_of s key' agent') id name afterwards).0 ≡ ok x
      → x.granted ≡ false
  check_capability-revoked fine refusal done x h =
      let (body, a, revoked, moved) = revoke_agent-handled s k key agent id n reason w done in
      let (b, answered, read) =
        check_capability-handled s k key' agent' id n name m afterwards x h in
      elim (Option-cases (afterwards.backend.fault afterwards.statements)) [
        | inr (e, down) ↦ cc (answered, fault-refuses afterwards e down)
        | inl up ↦
            let w' = (handle_agent_revoke s.platform body id w).1 in
            let same : afterwards ≡ serve_all s.platform s.signer rs w' =
              ap (serve_all s.platform s.signer rs) moved in
            let told =
              handle_agent_revoke-final s.platform s.signer body id name a rs w fine revoked
                (subst Up same up) in
            let both : answer 200 b ≡ answer 200 (refused "passport_revoked") =
              sym answered
              ∙ ap (λ v. (handle_agent_capability s.platform id name v).0) same
              ∙ told in
            refusal x (
              subst (λ c. Reads no_check (some k.check) (s.write_capability c) x)
                (answer_injective both) read)
      ]
