-- ===== src/Server/Listing/Laws.antt =====
-- What the listing handlers answer (server/handlers_agents.go, server/handlers_devices.go).
use computeid_go.Common.{
  ap, sym, subst, ◌∙◌, length, [], ◌∷◌, ℕ, zero, suc, ◌≤◌, ◌≡◌, refl, ◌⊎◌, inl, inr, String, Option,
  none, some, List, ◌==◌, map, arith, Option-cases, Bool-cases,
}
use computeid_go.Common.Int.{ℤ, pos, negsuc}
use computeid_go.Sys.{Time}
use computeid_go.Server.Db.{
  ActionRow, World, Sql, counted, statement_of, Up, execute-fault, execute-refused, execute-done,
}
use computeid_go.Server.Text.{Response, answer, error}
use computeid_go.Server.Platform.{Platform}
use computeid_go.Server.Tables.{with_uuid}
use computeid_go.Server.Listing.{
  Lister, limit_rows, keep, select_page, list_answer, list_rows, has_status, listed_agent,
  handle_agent_list, listed_device, handle_device_list, ActionItem, listed_action, limit_read,
  limit_of, select_actions, handle_agent_list_actions,
}
use computeid_go.Server.Listing.Pages.{IsOrdering, Page, limit_rows-Page}

module _ {A B : Type 0} (respond : A → B) (key : A → Time) (limit : Option ℕ) (rows : List A)
    (w : World) where
  -- What a listing of these rows comes to.
  pub data Listed (r : Response (List B) × World) : Type 0 where
    failed :
        (e : String)
        → w.backend.fault w.statements ≡ some e
        → r ≡ (error 500 e, counted w)
        → Listed r
    listed :
        (out : List A)
        → Up w
        → Page key limit rows out
        → r ≡ (answer 200 (map respond out), counted w)
        → Listed r

module _ (ls : Lister) (o : IsOrdering ls) (w : World) where
  list_rows-Listed :
      {A B : Type 0} (q : Sql (List A)) (respond : A → B) (key : A → Time) (limit : Option ℕ)
      (kept : List A)
      → q (statement_of w) w.db ≡ inr (limit_rows limit (ls.newest_first key kept), w.db)
      → Listed respond key limit kept w (list_rows q respond w)
  unfolding list_rows list_answer
  list_rows-Listed q respond key limit kept h = elim (Option-cases (w.backend.fault w.statements)) [
    | inr (e, down) ↦ failed e down (rw (execute-fault q w e down) refl)
    | inl up ↦
        let out = limit_rows limit (ls.newest_first key kept) in
        listed out up (limit_rows-Page ls o key kept limit)
          (rw (execute-done q w out w.db up h) refl)
  ]

  -- `GET /v1/agents` answers with at most 200 agents of the status asked for, any if none is asked
  -- for, the newest first, and leaves out only ones that are no newer than those that it gives; if
  -- its statement fails, it answers 500. It changes no table.
  pub handle_agent_list-Listed :
      (filter : String)
      → Listed listed_agent
          (λ r. r.issued_at)
          (some 200)
          (keep (λ r. has_status filter (r.status)) w.db.agents)
          w
          (handle_agent_list ls filter w)
  unfolding handle_agent_list select_page
  handle_agent_list-Listed filter = list_rows-Listed _ listed_agent _ _ _ refl

  -- `GET /api/devices` answers with all devices of the status asked for, the newest first.
  pub handle_device_list-Listed :
      (filter : String)
      → Listed listed_device
          (λ r. r.issued_at)
          none
          (keep (λ r. has_status filter (r.status)) w.db.devices)
          w
          (handle_device_list ls filter w)
  unfolding handle_device_list select_page
  handle_device_list-Listed filter = list_rows-Listed _ listed_device _ _ _ refl

  -- What a listing of the audit log comes to.
  pub data ActionsListed (pl : Platform) (v id : String) (r : Response (List (ActionItem)) × World)
      : Type 0 where
    no_uuid :
        (e : String) → pl.uuid_of id ≡ none → r ≡ (error 500 e, counted w) → ActionsListed pl v id r
    of_passport :
        (u : String)
        → pl.uuid_of id ≡ some u
        → Listed listed_action
            (λ a. a.occurred_at)
            (some (limit_of ls v))
            (keep (λ a. a.passport_id == u) w.db.actions)
            w
            r
        → ActionsListed pl v id r

  -- `GET /v1/agents/{id}/actions` answers with rows of that passport only, the newest first, at most
  -- as many as the limit that the query sets, and leaves rows out only if it has that many; it
  -- answers 500 if the identifier is no uuid or the statement fails. It changes no table.
  pub handle_agent_list_actions-ActionsListed :
      (pl : Platform) (v id : String)
      → ActionsListed pl v id (handle_agent_list_actions pl ls v id w)
  unfolding handle_agent_list_actions select_actions select_page with_uuid list_rows list_answer
  handle_agent_list_actions-ActionsListed pl v id = elim (Option-cases (pl.uuid_of id)) [
    | inl bad ↦ elim (Option-cases (w.backend.fault w.statements)) [
      | inr (e, down) ↦ no_uuid e bad (rw (execute-fault (q pl v id) w e down) refl)
      | inl up ↦
          no_uuid bad_uuid bad
            (rw (execute-refused (q pl v id) w bad_uuid up (rw (bad, with_uuid) refl)) refl)
    ]
    | inr (u, good) ↦
        of_passport u good (list_rows-Listed _ listed_action _ _ _ (rw (good, with_uuid) refl))
  ]
    where
      bad_uuid : String
      bad_uuid = "invalid input syntax for type uuid"

      q : Platform → String → String → Sql (List ActionRow)
      q pl v id = with_uuid pl id (select_actions ls (limit_of ls v))

limit_read-range : (r : String ⊎ ℤ) → (1 ≤ limit_read r) × (limit_read r ≤ 500)
unfolding limit_read
limit_read-range (inl e) = (omega arith, omega arith)
limit_read-range (inr (pos zero)) = (omega arith, omega arith)
limit_read-range (inr (pos (suc n))) = (ground arith, ground arith)
limit_read-range (inr (negsuc n)) = (omega arith, omega arith)

-- The limit of a request is never less than one or more than 500, whatever the query says.
pub limit_of-range : (ls : Lister) (v : String) → (1 ≤ limit_of ls v) × (limit_of ls v ≤ 500)
unfolding limit_of
limit_of-range ls v = elim (Bool-cases (v == "")) [
  | inl empty ↦ rw empty (omega arith, omega arith)
  | inr given ↦ rw given (limit_read-range (ls.atoi v))
]

length-map : {A B : Type 0} (f : A → B) (xs : List A) → length (map f xs) ≡ length xs
length-map f [] = refl
length-map f (x ∷ xs) = ap suc (length-map f xs)

answered : {A : Type 0} {a b : A} → ◌≡◌ {A = Response A} (answer 200 a) (answer 200 b) → a ≡ b
answered h = cc

-- A listing of the audit log that succeeds has at most as many entries as the limit that its query
-- sets, and that is from 1 to 500, whatever the query says.
pub handle_agent_list_actions-length :
    (ls : Lister) (o : IsOrdering ls) (w : World) (pl : Platform) (v id : String)
    (items : List ActionItem)
    → (handle_agent_list_actions pl ls v id w).0 ≡ answer 200 items
    → (length items ≤ limit_of ls v) × (1 ≤ limit_of ls v) × (limit_of ls v ≤ 500)
handle_agent_list_actions-length ls o w pl v id items h =
    let (least, most) = limit_of-range ls v in
    (short (handle_agent_list_actions-ActionsListed ls o w pl v id), least, most)
  where
    short :
        ActionsListed ls o w pl v id (handle_agent_list_actions pl ls v id w)
        → length items ≤ limit_of ls v
    short (no_uuid e bad r) = cc (ap (λ (p : Response (List ActionItem) × World). p.0) r, h)
    short (of_passport u good (failed e down r)) =
        cc (ap (λ (p : Response (List ActionItem) × World). p.0) r, h)
    short (of_passport u good (listed out up page r)) =
        let same : map listed_action out ≡ items =
          answered (sym (ap (λ (p : Response (List ActionItem) × World). p.0) r) ∙ h) in
        let count : length items ≡ length out =
          ap length (sym same) ∙ length-map listed_action out in
        subst (λ n. n ≤ limit_of ls v) (sym count) (page.within (limit_of ls v) refl)
