-- ===== src/Server/Devices/Laws.antt =====
-- Which devices get a token (server/handlers_devices.go).
use computeid_go.Common.{
  ℕ, ◌+◌, ◌≡◌, refl, ◌≢◌, ◌↔◌, inl, inr, String, none, some, sym, ap, ◌∙◌, eq_iff, ◌==◌, Bool-cases,
  Option-cases, text_cases, text_ne,
}
use computeid_go.Server.Db.{
  DeviceRow, World, Up, read_clock, execute-fault, execute-done, Sum-cases,
}
use computeid_go.Server.Text.{RequestBody, Response, answer, read_json}
use computeid_go.Server.Platform.{Platform, DeviceAuthRequest}
use computeid_go.Server.Devices.{
  JwtKit, sign_jwt, find_device, select_device, DeviceAuthResponse, hour, claims_of, token_answer,
  issue_token, after_select, authenticate_decoded, no_code, handle_device_authenticate,
}

-- The moment at which a token that is issued now lapses.
abbrev pub expiry : World → ℕ
expiry w = w.sys.clock w.sys.reads + hour

-- The device that authenticates: its code is registered, it is active, and its claims have a JSON form.
pub record Authenticates (k : JwtKit) (secret code : String) (w : World) (resp : DeviceAuthResponse)
    : Type 0 where
  pub device : DeviceRow
  pub asked : code ≢ ""
  pub up : Up w
  pub known : find_device code w.db.devices ≡ some device
  pub active : device.status ≡ "active"
  pub token : sign_jwt k secret (claims_of k code device (expiry w)) ≡ inr resp.access_token
  pub bearer : resp.token_type ≡ "Bearer"
  pub lasts : resp.expires_at ≡ expiry w

module _ (k : JwtKit) (secret : String) (req : DeviceAuthRequest) (w : World) where
  -- What an active device is answered.
  given : DeviceRow → Response DeviceAuthResponse
  given d = token_answer (expiry w) (sign_jwt k secret (claims_of k req.device_code d (expiry w)))

  answered :
      (d : DeviceRow)
      → req.device_code ≢ ""
      → Up w
      → find_device req.device_code w.db.devices ≡ some d
      → d.status ≡ "active"
      → (authenticate_decoded k secret (req, none) w).0 ≡ given d
  unfolding authenticate_decoded select_device after_select issue_token given read_clock
  answered d asked up known active =
      rw
        (
          text_ne req.device_code "" asked,
          authenticate_decoded,
          execute-done (select_device req.device_code) w (some d) w.db up (rw known refl),
          active,
        )
        refl

  answers_to :
      (resp : DeviceAuthResponse)
      → (authenticate_decoded k secret (req, none) w).0 ≡ answer 200 resp
      → Authenticates k secret req.device_code w resp
  unfolding authenticate_decoded select_device after_select given
  answers_to resp h = elim (Bool-cases (req.device_code == "")) [
    | inl blank ↦ cc (rw (blank, authenticate_decoded) at h)
    | inr asked ↦ elim (Option-cases (w.backend.fault w.statements)) [
      | inr (e, f) ↦ cc (
          rw (asked, authenticate_decoded, execute-fault (select_device req.device_code) w e f) at
            h)
      | inl up ↦ elim (Option-cases (find_device req.device_code w.db.devices)) [
        | inl lost ↦ cc (
            rw
              (
                asked,
                authenticate_decoded,
                execute-done (select_device req.device_code) w none w.db up (rw lost refl),
              )
              at h)
        | inr (d, known) ↦
            let run =
              execute-done (select_device req.device_code) w (some d) w.db up (rw known refl) in
            let named : req.device_code ≢ "" = λ e. cc (asked, (eq_iff req.device_code "").1 e) in
            elim (text_cases d.status "active") [
              | inr other ↦ cc (rw (asked, authenticate_decoded, run, other) at h)
              | inl active ↦
                  elim (Sum-cases (sign_jwt k secret (claims_of k req.device_code d (expiry w)))) [
                    | inl (e, s) ↦
                        cc (rw (s, token_answer) at (sym (answered d named up known active) ∙ h))
                    | inr (t, s) ↦
                        let same : answer 200 (record {
                          access_token = t;
                          token_type = "Bearer";
                          expires_at = expiry w;
                        })
                            ≡ answer 200 resp =
                          ap (token_answer (expiry w)) (sym s)
                          ∙ sym (answered d named up known active)
                          ∙ h in
                        let e : ◌≡◌ {A = DeviceAuthResponse}
                            (record {
                              access_token = t;
                              token_type = "Bearer";
                              expires_at = expiry w;
                            })
                            resp =
                          cc same in
                        record {
                          device = d;
                          asked = named;
                          up = up;
                          known = known;
                          active = active;
                          token = s ∙ ap (λ (u : DeviceAuthResponse). inr u.access_token) e;
                          bearer = sym (ap (λ (u : DeviceAuthResponse). u.token_type) e);
                          lasts = sym (ap (λ (u : DeviceAuthResponse). u.expires_at) e);
                        }
                  ]
            ]
      ]
    ]
  ]

-- A request that is read gets a token exactly for a code that a device has which is active, where
-- the query does not fail and the claims have a JSON form: the token is the one signed for this
-- device, and it lapses an hour after the clock was read.
pub handle_device_authenticate_iff :
    (pl : Platform) (k : JwtKit) (secret : String) (body : RequestBody) (req : DeviceAuthRequest)
    (w : World) (resp : DeviceAuthResponse)
    → read_json no_code pl.device_auth body ≡ (req, none)
    → ((handle_device_authenticate pl k secret body w).0 ≡ answer 200 resp)
      ↔ Authenticates k secret req.device_code w resp
unfolding handle_device_authenticate given
handle_device_authenticate_iff pl k secret body req w resp read = (
  λ h. answers_to k secret req w resp (rw (read, handle_device_authenticate) at h),
  λ a.
      rw
        (
          read,
          handle_device_authenticate,
          answered k secret req w a.device a.asked a.up a.known a.active,
          a.token,
        )
        (ap (answer 200) (λ i. record {
          access_token = resp.access_token;
          token_type = sym a.bearer i;
          expires_at = sym a.lasts i;
        })),
)
