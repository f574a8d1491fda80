-- ===== src/Server/Route/Paths.antt =====
-- The paths and methods that lead to each handler (server/server.go).
use Prim.Native.Char.{Char, code}
use text.Mathlib.TextLemmas.{cons-append, append-nil}
use computeid_go.Common.{
  ◌≡◌, refl, ◌≢◌, inl, inr, String, Bool, true, false, Option, none, some, ◌==◌, if◌then◌else◌,
  eq_iff, Option-cases, sym, ap, ◌∙◌, text_cases, text_ne, some_injective,
}
use computeid_go.Server.Route.{
  ◌++◌, strip, segment, then_tail, agents_prefix, match_path, match_capability, AgentRoute, case_of,
  route_agent_sub,
}
use computeid_go.Server.Route.Segments.{
  strip-append, strip_sound, Stops, segment-append, segment_sound, IsSegment, then_tail-append,
  then_tail_sound, match_path-append, match_path_sound,
}

Stops-append : (c : Char) (s t : String) → code c ≡ b'/' → Stops (String.◌∷◌ c s ++ t)
Stops-append c s t h = rw (cons-append c s t) h

capabilities_stop : (name : String) → Stops ("/capabilities/" ++ name)
capabilities_stop name = Stops-append "/" "capabilities/" name refl

then_tail_all : (name : String) → IsSegment name → then_tail "" name ≡ some name
then_tail_all name s = ap (then_tail "") (sym (append-nil name)) ∙ then_tail-append name "" "" s tt

match_capability-append :
    (id name : String)
    → IsSegment id
    → IsSegment name
    → match_capability (agents_prefix ++ id ++ "/capabilities/" ++ name) ≡ some (id, name)
unfolding match_capability
match_capability-append id name (ne, clear) s =
    rw
      (
        strip-append agents_prefix (id ++ "/capabilities/" ++ name),
        match_capability,
        segment-append id ("/capabilities/" ++ name) clear (capabilities_stop name),
        text_ne id "" ne,
        strip-append "/capabilities/" name,
        then_tail_all name s,
      )
      (rw (segment-append id ("/capabilities/" ++ name) clear (capabilities_stop name)))

match_capability_sound :
    (p id name : String)
    → match_capability p ≡ some (id, name)
    → (p ≡ agents_prefix ++ id ++ "/capabilities/" ++ name) × IsSegment id × IsSegment name
unfolding match_capability
match_capability_sound p id name h = elim (Option-cases (strip agents_prefix p)) [
  | inl lost ↦ cc (rw (lost, match_capability) at h)
  | inr (t, found) ↦ elim (text_cases (segment t).0 "") [
    | inl e ↦ cc (rw (found, match_capability, e) at h)
    | inr ne ↦ elim (Option-cases (strip "/capabilities/" (segment t).1)) [
      | inl lost ↦ cc (rw (found, match_capability, ne, lost) at h)
      | inr (u, there) ↦ elim (Option-cases (then_tail "" u)) [
        | inl lost ↦ cc (rw (found, match_capability, ne, there, lost) at h)
        | inr (n, named) ↦
            let pair : (((segment t).0, n) ≡ (id, name)) =
              some_injective (rw (found, match_capability, ne, there, named) at h) in
            let same_id : (segment t).0 ≡ id = ap (λ (m : String × String). m.0) pair in
            let same_name : n ≡ name = ap (λ (m : String × String). m.1) pair in
            let (whole, clear, _) = segment_sound t in
            let (end, last) = then_tail_sound "" u n named in
            let tail : (segment t).1 ≡ "/capabilities/" ++ name =
              strip_sound "/capabilities/" (segment t).1 u there
              ∙ ap (λ v. "/capabilities/" ++ v) (end ∙ append-nil n ∙ same_name) in
            let first : t ≡ id ++ "/capabilities/" ++ name = whole ∙ rw (same_id, tail) refl in
            (
              strip_sound agents_prefix p t found ∙ ap (λ v. agents_prefix ++ v) first,
              (rw (← same_id) (λ z. cc (ne, (eq_iff _ _).1 z)), rw (← same_id) clear),
              rw (← same_name) last,
            )
      ]
    ]
  ]
]

-- The paths that the server documents, with their methods. An identifier or a name is a segment:
-- not empty, and free of slashes.
pub data Serves (method p : String) : AgentRoute → Type 0 where
  verify :
      (id : String)
      → IsSegment id
      → method ≡ "GET"
      → p ≡ agents_prefix ++ id ++ "/verify"
      → Serves method p (AgentRoute.verify id)
  capability :
      (id name : String)
      → IsSegment id
      → IsSegment name
      → method ≡ "GET"
      → p ≡ agents_prefix ++ id ++ "/capabilities/" ++ name
      → Serves method p (AgentRoute.capability id name)
  log_action :
      (id : String)
      → IsSegment id
      → method ≡ "POST"
      → p ≡ agents_prefix ++ id ++ "/actions"
      → Serves method p (AgentRoute.log_action id)
  list_actions :
      (id : String)
      → IsSegment id
      → method ≡ "GET"
      → p ≡ agents_prefix ++ id ++ "/actions"
      → Serves method p (AgentRoute.list_actions id)
  revoke :
      (id : String)
      → IsSegment id
      → method ≡ "DELETE"
      → p ≡ agents_prefix ++ id ++ "/revoke"
      → Serves method p (AgentRoute.revoke id)

-- One case of the switch, whichever way it goes.
case_of-sound :
    {A : Type 0} (P : AgentRoute → Type 0) (b : Bool) (m : Option A) (f : A → AgentRoute)
    (rest : AgentRoute)
    → ((a : A) → b ≡ true → m ≡ some a → P (f a))
    → P rest
    → P (case_of b m f rest)
case_of-sound P false m f rest hit miss = miss
case_of-sound P true none f rest hit miss = miss
case_of-sound P true (some a) f rest hit miss = hit a refl refl

abbrev SoundAt : String → String → AgentRoute → Type 0
SoundAt method p r = r ≢ AgentRoute.no_route → Serves method p r

-- A request that reaches a handler has the handler's method and path, and what the handler is given
-- is what stands there.
pub route_agent_sub_sound :
    (method p : String)
    → route_agent_sub method p ≢ AgentRoute.no_route
    → Serves method p (route_agent_sub method p)
unfolding route_agent_sub
route_agent_sub_sound method p =
    case_of-sound (SoundAt method p) _ _ AgentRoute.verify _
      (λ id b m _.
        let (e, s) = match_path_sound agents_prefix "/verify" p id m in
        verify id s ((eq_iff _ _).0 b) e)
      (case_of-sound (SoundAt method p) _ _ (λ m. AgentRoute.capability m.0 m.1) _
        (λ pair b m _.
          let (e, s, t) = match_capability_sound p pair.0 pair.1 m in
          capability pair.0 pair.1 s t ((eq_iff _ _).0 b) e)
        (case_of-sound (SoundAt method p) _ _ AgentRoute.log_action _
          (λ id b m _.
            let (e, s) = match_path_sound agents_prefix "/actions" p id m in
            log_action id s ((eq_iff _ _).0 b) e)
          (case_of-sound (SoundAt method p) _ _ AgentRoute.list_actions _
            (λ id b m _.
              let (e, s) = match_path_sound agents_prefix "/actions" p id m in
              list_actions id s ((eq_iff _ _).0 b) e)
            (case_of-sound (SoundAt method p) _ _ AgentRoute.revoke _
              (λ id b m _.
                let (e, s) = match_path_sound agents_prefix "/revoke" p id m in
                revoke id s ((eq_iff _ _).0 b) e)
              (λ none_fits. absurd (none_fits refl))))))

module _ (id rest : String) (s : IsSegment id) (stop : Stops rest) where
  path_is :
      (tail : String)
      → match_path agents_prefix tail (agents_prefix ++ id ++ rest)
        ≡ (if rest == tail then some id else none)
  path_is tail = match_path-append agents_prefix id rest tail s stop

  not_capability :
      strip "/capabilities/" rest ≡ none → match_capability (agents_prefix ++ id ++ rest) ≡ none
  unfolding match_capability
  not_capability lost = rw (
    strip-append agents_prefix (id ++ rest),
    match_capability,
    segment-append id rest s.1 stop,
    text_ne id "" s.0,
    lost,
  )

-- A tail under "/capabilities/" is none of the others.
capabilities-ne :
    (name tail : String)
    → strip "/capabilities/" tail ≡ none
    → (("/capabilities/" ++ name) == tail) ≡ false
capabilities-ne name tail lost =
    text_ne _ tail
      (λ e. cc (ap (strip "/capabilities/") e, strip-append "/capabilities/" name, lost))

-- Every documented path, with its method, reaches its handler, with what stands in it.
pub route_agent_sub_complete :
    (method p : String) (r : AgentRoute) → Serves method p r → route_agent_sub method p ≡ r
unfolding route_agent_sub strip
route_agent_sub_complete method p r (verify id s m e) =
    rw (m, e, path_is id "/verify" s refl "/verify")
route_agent_sub_complete method p r (capability id name s t m e) = rw (
  m,
  e,
  path_is id ("/capabilities/" ++ name) s (capabilities_stop name) "/verify",
  capabilities-ne name "/verify" refl,
  match_capability-append id name s t,
)
route_agent_sub_complete method p r (log_action id s m e) =
    rw (m, e, path_is id "/actions" s refl "/actions")
route_agent_sub_complete method p r (list_actions id s m e) = rw (
  m,
  e,
  path_is id "/actions" s refl "/verify",
  path_is id "/actions" s refl "/actions",
  not_capability id "/actions" s refl refl,
)
route_agent_sub_complete method p r (revoke id s m e) =
    rw (m, e, path_is id "/revoke" s refl "/revoke")
