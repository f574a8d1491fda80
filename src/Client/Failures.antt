-- ===== src/Client/Failures.antt =====
-- Which error a failing answer becomes (client.go).
use Prim.Native.String
use text.Mathlib.TextLemmas.{nil-append, cons-append}
use computeid_go.Common.{
  ◌≡◌, refl, ◌⊎◌, ◌↔◌, inl, inr, ℕ, String, ◌≢◌, ◌==◌, text_cases, Bool, true, false, List, some,
  sym, ap, ◌∙◌, arith, eq_iff, nat_eq_iff, Bool-cases, Option-cases,
}
use computeid_go.Errors.{GoError, wrapped, api_error, api_error_text, Sentinel, error_is}
use computeid_go.Server.Route.{strip}
use computeid_go.Server.Route.Segments.{strip-append, strip_sound}
use computeid_go.Client.{Net, contains_text, error_message, is_unauthorized, parse_api_error}

-- The text is something, then the part, then something.
abbrev pub Contains : String → String → Type 0
Contains sub s = (a : String) × (b : String) × (s ≡ String.◌++◌ a (String.◌++◌ sub b))

-- The statuses that deny access.
abbrev pub Denied : ℕ → Type 0
Denied status = (status ≡ 401) ⊎ (status ≡ 403)

nothing_within : (a sub b : String) → "" ≡ String.◌++◌ a (String.◌++◌ sub b) → sub ≡ ""
nothing_within (String.◌∷◌ c a) sub b e = cc (e, cons-append c a (String.◌++◌ sub b))
nothing_within String.[] String.[] b e = refl
nothing_within String.[] (String.◌∷◌ c sub) b e =
    cc (e, nil-append (String.◌++◌ (String.◌∷◌ c sub) b), cons-append c sub b)

contains_text_sound : (sub s : String) → contains_text sub s ≡ true → Contains sub s
unfolding contains_text
contains_text_sound sub String.[] h = let e = (eq_iff sub "").0 h in ("", "", rw e refl)
contains_text_sound sub (String.◌∷◌ c s) h = elim (Option-cases (strip sub (String.◌∷◌ c s))) [
  | inr (b, here) ↦ ("", b, strip_sound sub (String.◌∷◌ c s) b here ∙ sym (nil-append _))
  | inl not_here ↦
      let (a, b, e) = contains_text_sound sub s (rw (not_here, contains_text) at h) in
      (String.◌∷◌ c a, b, ap (String.◌∷◌ c) e ∙ sym (cons-append c a (String.◌++◌ sub b)))
]

contains_text_complete :
    (sub s a b : String) → s ≡ String.◌++◌ a (String.◌++◌ sub b) → contains_text sub s ≡ true
unfolding contains_text
contains_text_complete sub String.[] a b e = (eq_iff sub "").1 (nothing_within a sub b e)
contains_text_complete sub (String.◌∷◌ c s) String.[] b e =
    let here : strip sub (String.◌∷◌ c s) ≡ some b =
      ap (strip sub) (e ∙ nil-append (String.◌++◌ sub b)) ∙ strip-append sub b in
    rw (contains_text, here) refl
contains_text_complete sub (String.◌∷◌ c s) (String.◌∷◌ d a) b e =
    let rest : s ≡ String.◌++◌ a (String.◌++◌ sub b) =
      cc (e, cons-append d a (String.◌++◌ sub b)) in
    elim (Option-cases (strip sub (String.◌∷◌ c s))) [
      | inr (r, here) ↦ rw (contains_text, here) refl
      | inl not_here ↦ rw (not_here, contains_text) (contains_text_complete sub s a b rest)
    ]

-- The test of the code finds exactly the parts of the text.
contains_text_iff : (sub s : String) → (contains_text sub s ≡ true) ↔ Contains sub s
contains_text_iff sub s =
    (contains_text_sound sub s, λ (a, b, e). contains_text_complete sub s a b e)

-- The message is the first of the three fields of the body that is not empty, or the text of the
-- status.
abbrev pub IsMessage : Net → ℕ → List ℕ → String → Type 0
IsMessage net status raw m =
    let body = (net.error_body raw).0 in
    ((body.error ≢ "") × (m ≡ body.error))
    ⊎ ((body.error ≡ "") × (body.message ≢ "") × (m ≡ body.message))
    ⊎ ((body.error ≡ "") × (body.message ≡ "") × (body.detail ≢ "") × (m ≡ body.detail))
    ⊎ ((body.error ≡ "") × (body.message ≡ "") × (body.detail ≡ "") × (m ≡ net.status_text status))

text_differs : (s d : String) → (s == d) ≡ false → s ≢ d
text_differs s d h e = ground (arith, eq_iff s d)

error_message-IsMessage :
    (net : Net) (status : ℕ) (raw : List ℕ)
    → IsMessage net status raw (error_message net status raw)
unfolding error_message
error_message-IsMessage net status raw =
    let body = (net.error_body raw).0 in
    elim (text_cases body.error "") [
      | inr e ↦ rw e (inl (text_differs _ _ e, refl))
      | inl e ↦ elim (text_cases body.message "") [
        | inr m ↦ rw ((eq_iff _ _).1 e, m) (inr (inl (e, text_differs _ _ m, refl)))
        | inl m ↦ elim (text_cases body.detail "") [
          | inr d ↦
              rw ((eq_iff _ _).1 e, (eq_iff _ _).1 m, d)
                (inr (inr (inl (e, m, text_differs _ _ d, refl))))
          | inl d ↦
              rw ((eq_iff _ _).1 e, (eq_iff _ _).1 m, (eq_iff _ _).1 d)
                (inr (inr (inr (e, m, d, refl))))
        ]
      ]
    ]

-- What an error says behind its sentinel.
abbrev pub text_of : GoError → String
text_of (wrapped s text) = text
text_of (api_error e) = api_error_text e

-- The sentinels that an error of the API carries, by its status and its path: authentication for 401
-- and 403; else revocation if "/revoke" stands somewhere in the path; else registration if
-- "/register" does; else the bare error of the API. And what it says: the path and the message.
pub record Classes (net : Net) (raw : List ℕ) (e : GoError) (status : ℕ) (path : String)
    : Type 0 where
  pub says :
      (m : String) × IsMessage net status raw m
      × (text_of e ≡ api_error_text (record { status_code = status; message = m; endpoint = path }))
  pub authentication : (error_is e Sentinel.authentication ≡ true) ↔ Denied status
  pub revocation :
      (error_is e Sentinel.revocation ≡ true) ↔ (¬ Denied status × Contains "/revoke" path)
  pub registration :
      (error_is e Sentinel.registration ≡ true)
      ↔ (¬ Denied status × ¬ Contains "/revoke" path × Contains "/register" path)
  pub api :
      (error_is e Sentinel.api ≡ true)
      ↔ (¬ Denied status × ¬ Contains "/revoke" path × ¬ Contains "/register" path)

is_unauthorized_iff : (status : ℕ) → (is_unauthorized status ≡ true) ↔ Denied status
is_unauthorized_iff status = ground (arith, nat_eq_iff status 401, nat_eq_iff status 403)

no : {P : Type 0} {b : Bool} → b ≡ true ↔ P → b ≡ false → ¬ P
no iff f p = cc (f, iff.1 p)

-- For every status and path, an error of the API matches the authentication sentinel exactly if the
-- status is 401 or 403; the revocation sentinel exactly if it is another and the path has "/revoke"
-- in it; the registration sentinel exactly if the path has "/register" in it instead; and the API
-- sentinel exactly in all other cases. Behind the sentinel it says what the error of the API says
-- for this path with the first of the fields "error", "message" and "detail" of the body that is not
-- empty, or else the text of the status.
pub parse_api_error-Classes :
    (net : Net) (status : ℕ) (path : String) (raw : List ℕ)
    → Classes net raw (parse_api_error net status path raw) status path
unfolding parse_api_error error_is
parse_api_error-Classes net status path raw =
    let m = error_message net status raw in
    let said = error_message-IsMessage net status raw in
    let denied = is_unauthorized_iff status in
    let revokes = contains_text_iff "/revoke" path in
    let registers = contains_text_iff "/register" path in
    elim (Bool-cases (is_unauthorized status)) [
      | inl d ↦
          let yes = denied.0 d in
          rw d (record {
            says = (m, said, refl);
            authentication = (λ _. yes, λ _. refl);
            revocation = (λ h. cc h, λ h. absurd (h.0 yes));
            registration = (λ h. cc h, λ h. absurd (h.0 yes));
            api = (λ h. cc h, λ h. absurd (h.0 yes));
          })
      | inr d ↦ elim (Bool-cases (contains_text "/revoke" path)) [
        | inl v ↦
            let yes = revokes.0 v in
            rw (d, v)
              (record {
                says = (m, said, refl);
                authentication = (λ h. cc h, λ h. absurd (no denied d h));
                revocation = (λ _. (no denied d, yes), λ _. refl);
                registration = (λ h. cc h, λ h. absurd (h.1 yes));
                api = (λ h. cc h, λ h. absurd (h.1 yes));
              })
        | inr v ↦ elim (Bool-cases (contains_text "/register" path)) [
          | inl g ↦
              let yes = registers.0 g in
              rw (d, v, g)
                (record {
                  says = (m, said, refl);
                  authentication = (λ h. cc h, λ h. absurd (no denied d h));
                  revocation = (λ h. cc h, λ h. absurd (no revokes v h.1));
                  registration = (λ _. (no denied d, no revokes v, yes), λ _. refl);
                  api = (λ h. cc h, λ h. absurd (h.2 yes));
                })
          | inr g ↦
              rw (d, v, g)
                (record {
                  says = (m, said, refl);
                  authentication = (λ h. cc h, λ h. absurd (no denied d h));
                  revocation = (λ h. cc h, λ h. absurd (no revokes v h.1));
                  registration = (λ h. cc h, λ h. absurd (no registers g h.2));
                  api = (λ _. (no denied d, no revokes v, no registers g), λ _. refl);
                })
        ]
      ]
    ]
