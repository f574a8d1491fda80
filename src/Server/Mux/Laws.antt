-- ===== src/Server/Mux/Laws.antt =====
-- Where the paths of a client lead (server/server.go).
use Prim.Native.String
use text.Mathlib.TextLemmas.{nil-append, cons-append, append_assoc}
use computeid_go.Common.{
  arith, some_injective, text_ne, ◌≡◌, refl, ◌≢◌, String, true, not, ◌&&◌, some, List, ◌∷◌, ◌==◌,
  ap, sym, ◌∙◌, map,
}
use computeid_go.Common.Chars.{AllChars-map, Lacks, split_on, split_on-append}
use computeid_go.Url.{path_escape, path_unescape, read_escaped}
use computeid_go.Url.Laws.{IsBytes, read-path_escape, read_literal, after_text}
use computeid_go.Url.Inner.{IsInner, path_escape-IsInner, path_unescape-path_escape}
use computeid_go.Server.Route.{agents_prefix, route_agent_sub}
use computeid_go.Server.Route.Segments.{IsSegment}
use computeid_go.Server.Mux.{
  Endpoint, agents_sub, takes_method, covers, find_pattern, patterns, clean_parts, to_endpoint,
  decode_part, choose, choose_clean, mux, by_agent, served_at, serve,
}

infixr 65 ◌++◌
abbrev ◌++◌ : String → String → String
s ++ t = String.◌++◌ s t

pub slash : (y : String) → "/" ++ y ≡ String.◌∷◌ "/" y
slash y = cons-append "/" "" y ∙ ap (String.◌∷◌ "/") (nil-append y)

v1-Lacks : Lacks b'/' "v1"
v1-Lacks = (λ e. omega arith, (λ e. omega arith, tt))

agents-Lacks : Lacks b'/' "agents"
agents-Lacks = ground arith

-- One segment behind a slash.
pub split_on-slash :
    (p s : String) → Lacks b'/' p → split_on b'/' (p ++ "/" ++ s) ≡ p ∷ split_on b'/' s
split_on-slash p s h = rw (slash s) (split_on-append "/" p s h)

agents_parts :
    (x : String) → split_on b'/' (agents_prefix ++ x) ≡ "" ∷ "v1" ∷ "agents" ∷ split_on b'/' x
agents_parts x =
    ap (split_on b'/') (
      append_assoc "/" "v1/agents/" x
      ∙ ap (λ y. "/" ++ y)
          (append_assoc "v1/" "agents/" x
            ∙ append_assoc "v1" "/" ("agents/" ++ x)
            ∙ ap (λ y. "v1" ++ "/" ++ y) (append_assoc "agents" "/" x)))
    ∙ rw (sym (nil-append ("/" ++ "v1" ++ "/" ++ "agents" ++ "/" ++ x))) (split_on-slash "" _ tt)
    ∙ ap (λ ps. "" ∷ ps)
        (split_on-slash "v1" _ v1-Lacks
          ∙ ap (λ ps. "v1" ∷ ps) (split_on-slash "agents" x agents-Lacks))

-- What may stand for an identifier or a name: a segment of bytes that is no dot segment.
pub record IsName (id : String) : Type 0 where
  pub segment : IsSegment id
  pub bytes : IsBytes id
  pub no_dot : id ≢ "."
  pub no_dots : id ≢ ".."

-- An escaped name is none of the texts that escaping would leave as they are.
path_escape-ne :
    (id t : String) → IsBytes id → id ≢ t → path_unescape t ≡ some t → path_escape id ≢ t
path_escape-ne id t h ne same e =
    ne (some_injective (sym (path_unescape-path_escape id h) ∙ ap path_unescape e ∙ same))

-- The test of `cleanPath` on a part.
abbrev pub CleanPart : String → Type 0
CleanPart p = (not (p == "") && (not (p == ".") && not (p == ".."))) ≡ true

module _ (id : String) (n : IsName id) where
  pub escaped-Lacks : Lacks b'/' (path_escape id)
  escaped-Lacks =
      AllChars-map IsInner (λ c. c ≢ b'/') (λ c i. i.no_slash) (path_escape id)
        (path_escape-IsInner id n.bytes)

  pub escaped-CleanPart : CleanPart (path_escape id)
  unfolding path_unescape read_escaped
  escaped-CleanPart =
      rw
        (
          text_ne _ "" (path_escape-ne id "" n.bytes n.segment.0 refl),
          text_ne _ "." (path_escape-ne id "." n.bytes n.no_dot refl),
          text_ne _ ".." (path_escape-ne id ".." n.bytes n.no_dots refl),
        )
        refl

  pub unescaped :
      (rest r : String)
      → path_unescape rest ≡ some r
      → path_unescape (agents_prefix ++ path_escape id ++ rest) ≡ some (agents_prefix ++ id ++ r)
  unfolding path_unescape
  unescaped rest r h =
      read_literal agents_prefix (path_escape id ++ rest) (ground arith)
      ∙ ap (after_text agents_prefix) (read-path_escape id rest n.bytes ∙ ap (after_text id) h)

find_agents :
    (method d e : String) (ds : List String)
    → find_pattern method ("v1" ∷ "agents" ∷ d ∷ e ∷ ds) patterns ≡ some agents_sub
unfolding find_pattern takes_method covers
find_agents method d e ds = ground arith

choose_found :
    (method : String) (ps : List String) (e : Endpoint)
    → find_pattern method ps patterns ≡ some e
    → choose method ps ≡ to_endpoint e
unfolding choose
choose_found method ps e h = rw (h, choose) refl

decoded_agents :
    (ps : List String)
    → map decode_part ("v1" ∷ "agents" ∷ ps) ≡ "v1" ∷ "agents" ∷ map decode_part ps
unfolding decode_part path_unescape read_escaped
decoded_agents ps = refl

choose_agents :
    (method e q : String) (qs : List String)
    → choose method (map decode_part ("v1" ∷ "agents" ∷ e ∷ q ∷ qs)) ≡ to_endpoint agents_sub
choose_agents method e q qs =
    ap (choose method) (decoded_agents (e ∷ q ∷ qs))
    ∙ choose_found method _ agents_sub
        (find_agents method (decode_part e) (decode_part q) (map decode_part qs))

choose_clean-choose :
    (method : String) (ps : List String)
    → clean_parts ps ≡ true
    → choose_clean method ("" ∷ ps) ≡ choose method (map decode_part ps)
unfolding choose_clean
choose_clean-choose method ps h = rw h refl

clean_agents :
    (e q : String) (qs : List String)
    → CleanPart e
    → clean_parts (q ∷ qs) ≡ true
    → clean_parts ("v1" ∷ "agents" ∷ e ∷ q ∷ qs) ≡ true
unfolding clean_parts
clean_agents e q qs h k = rw (h, k) refl

-- A path with a part behind the identifier goes to the sub-router.
pub mux-agents :
    (method id q rest : String) (qs : List String)
    → IsName id
    → split_on b'/' (path_escape id ++ rest) ≡ path_escape id ∷ q ∷ qs
    → clean_parts (q ∷ qs) ≡ true
    → mux method (agents_prefix ++ path_escape id ++ rest) ≡ to_endpoint agents_sub
unfolding mux
mux-agents method id q rest qs n parts clean =
    let e = path_escape id in
    let all : split_on b'/' (agents_prefix ++ e ++ rest) ≡ "" ∷ "v1" ∷ "agents" ∷ e ∷ q ∷ qs =
      agents_parts (e ++ rest) ∙ ap (λ ps. "" ∷ "v1" ∷ "agents" ∷ ps) parts in
    ap (choose_clean method) all
    ∙ choose_clean-choose method _ (clean_agents e q qs (escaped-CleanPart id n) clean)
    ∙ choose_agents method e q qs

-- The whole way of such a request: what the sub-router is given is the decoded path.
pub serve-agents :
    (method id q rest r : String) (qs : List String)
    → IsName id
    → split_on b'/' (path_escape id ++ rest) ≡ path_escape id ∷ q ∷ qs
    → clean_parts (q ∷ qs) ≡ true
    → path_unescape rest ≡ some r
    → serve method (agents_prefix ++ path_escape id ++ rest)
      ≡ by_agent (route_agent_sub method (agents_prefix ++ id ++ r))
unfolding serve served_at
serve-agents method id q rest r qs n parts clean h =
    rw (unescaped id n rest r h, serve, mux-agents method id q rest qs n parts clean) refl
