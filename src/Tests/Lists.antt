-- ===== src/Tests/Lists.antt =====
-- Listings with an insertion sort for `ORDER BY`: server/handlers_agents.go.
use mathlib.Core.List.{Perm}
use mathlib.Core.List.Perm
use computeid_go.Common.{
  ◌≡◌, refl, inl, inr, arith, ℕ, ◌≤◌, List, [], ◌∷◌, leb, if◌then◌else◌, All, All-map, Bool-cases,
}
use computeid_go.Common.Int.{pos}
use computeid_go.Common.Json.{null}
use computeid_go.Sys.{Time}
use computeid_go.Server.Db.{ActionRow, World}
use computeid_go.Server.Db.{execute}
use computeid_go.Server.Text.{answer}
use computeid_go.Server.Tables.{with_uuid}
use computeid_go.Server.Listing.{
  listed_action, list_rows, list_answer, select_actions, select_page, limit_rows, keep, limit_read,
  Lister, limit_of, handle_agent_list_actions,
}
use computeid_go.Server.Listing.Pages.{IsOrdering, Descending}
use computeid_go.Server.Listing.Laws.{
  ActionsListed, handle_agent_list_actions-length, handle_agent_list_actions-ActionsListed,
}
use computeid_go.Tests.Keys.{empty_world}
use computeid_go.Tests.Requests.{platform}

module _ {A : Type 0} (key : A → Time) where
  put : A → List A → List A
  put x [] = x ∷ []
  put x (y ∷ ys) = if leb (key y) (key x) then x ∷ y ∷ ys else y ∷ put x ys

  by_time : List A → List A
  by_time [] = []
  by_time (x ∷ xs) = put x (by_time xs)

  put-perm : (x : A) (ys : List A) → Perm (put x ys) (x ∷ ys)
  unfolding put
  put-perm x [] = Perm.rfl
  put-perm x (y ∷ ys) = elim (Bool-cases (leb (key y) (key x))) [
    | inl newer ↦ rw newer Perm.rfl
    | inr older ↦ rw older (Perm.trans (Perm.cons' refl (put-perm x ys)) (Perm.swap x y ys))
  ]

  by_time-perm : (xs : List A) → Perm (by_time xs) xs
  unfolding by_time
  by_time-perm [] = Perm.rfl
  by_time-perm (x ∷ xs) = Perm.trans (put-perm x (by_time xs)) (Perm.cons' refl (by_time-perm xs))

  put-All : (P : A → Type 0) (x : A) (ys : List A) → P x → All P ys → All P (put x ys)
  unfolding put
  put-All P x [] p h = (p, tt)
  put-All P x (y ∷ ys) p h = elim (Bool-cases (leb (key y) (key x))) [
    | inl newer ↦ rw newer (p, h)
    | inr older ↦ rw older (h.0, put-All P x ys p h.1)
  ]

  put-Descending : (x : A) (ys : List A) → Descending key ys → Descending key (put x ys)
  unfolding put
  put-Descending x [] h = (tt, tt)
  put-Descending x (y ∷ ys) h = elim (Bool-cases (leb (key y) (key x))) [
    | inl newer ↦
        let first : key y ≤ key x = ground arith in
        let under : (z : A) → key z ≤ key y → key z ≤ key x = λ z le. omega (arith, first, le) in
        rw newer ((first, All-map (λ z. key z ≤ key y) (λ z. key z ≤ key x) under ys h.0), h)
    | inr older ↦
        let last : key x ≤ key y = ground arith in
        rw older (put-All (λ z. key z ≤ key y) x ys last h.0, put-Descending x ys h.1)
  ]

  by_time-Descending : (xs : List A) → Descending key (by_time xs)
  unfolding by_time
  by_time-Descending [] = tt
  by_time-Descending (x ∷ xs) = put-Descending x (by_time xs) (by_time-Descending xs)

abbrev lister : Lister
lister = record { newest_first = by_time; atoi = λ t. inr (pos 2) }

lister-IsOrdering : IsOrdering lister
lister-IsOrdering = record { same_rows = by_time-perm; ordered = by_time-Descending }

abbrev entry : ℕ → ActionRow
entry t = record {
  action_id = "e";
  passport_id = "a1";
  action = "act";
  details = null;
  outcome = "success";
  occurred_at = t;
}

abbrev three_entries : World
three_entries = record empty_world {
  db = record (empty_world.db) { actions = entry 1 ∷ entry 3 ∷ entry 2 ∷ [] };
}

handle_agent_list_actions-ActionsListed_example :
    ActionsListed lister lister-IsOrdering three_entries platform "2" "a1"
      (handle_agent_list_actions platform lister "2" "a1" three_entries)
handle_agent_list_actions-ActionsListed_example =
    handle_agent_list_actions-ActionsListed lister lister-IsOrdering three_entries platform "2" "a1"

two_newest :
    (handle_agent_list_actions platform lister "2" "a1" three_entries).0
    ≡ answer 200 (listed_action (entry 3) ∷ listed_action (entry 2) ∷ [])
unfolding handle_agent_list_actions list_rows list_answer select_actions select_page limit_rows keep
    limit_of limit_read execute with_uuid put by_time
two_newest = refl

handle_agent_list_actions-length_example :
    (2 ≤ limit_of lister "2") × (1 ≤ limit_of lister "2") × (limit_of lister "2" ≤ 500)
handle_agent_list_actions-length_example =
    handle_agent_list_actions-length lister lister-IsOrdering three_entries platform "2" "a1"
      (listed_action (entry 3) ∷ listed_action (entry 2) ∷ []) two_newest
