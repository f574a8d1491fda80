-- ===== src/Capabilities/Laws.antt =====
-- What the presets grant, and when an action is allowed (capabilities.go).
use computeid_go.Common.Int.{magnitude}
use computeid_go.Common.{◌≡◌, ◌<◌, ◌↔◌, ◌⊎◌, inl, inr, true, arith, eq_iff, text_cases, not}
use computeid_go.Capabilities.{
  TrustLevel, trust_restricted, trust_elevated, trust_autonomous, AgentCapabilities,
  restricted_capabilities, standard_capabilities, elevated_capabilities, autonomous_capabilities,
  capabilities_for, Action, action_browse_web, action_execute_code, action_access_files,
  action_call_api, action_spawn_agent, action_access_database, action_send_email, allows,
}

-- The permission that stands behind each name of an action.
pub data Grants (c : AgentCapabilities) (a : Action) : Type 0 where
  browse_web : a ≡ action_browse_web → c.can_browse_web ≡ true → Grants c a
  execute_code : a ≡ action_execute_code → c.can_execute_code ≡ true → Grants c a
  access_files : a ≡ action_access_files → c.can_access_files ≡ true → Grants c a
  call_api : a ≡ action_call_api → c.can_call_apis ≡ true → Grants c a
  spawn_agent : a ≡ action_spawn_agent → c.can_spawn_agents ≡ true → Grants c a
  access_database : a ≡ action_access_database → c.can_access_database ≡ true → Grants c a
  send_email : a ≡ action_send_email → c.can_send_email ≡ true → Grants c a

allows_complete : (c : AgentCapabilities) (a : Action) → Grants c a → allows c a ≡ true
unfolding allows
allows_complete c a (browse_web p h) = rw p h
allows_complete c a (execute_code p h) = rw p h
allows_complete c a (access_files p h) = rw p h
allows_complete c a (call_api p h) = rw p h
allows_complete c a (spawn_agent p h) = rw p h
allows_complete c a (access_database p h) = rw p h
allows_complete c a (send_email p h) = rw p h

allows_sound : (c : AgentCapabilities) (a : Action) → allows c a ≡ true → Grants c a
unfolding allows
allows_sound c a h = elim (text_cases a action_browse_web) [
  | inl e ↦ browse_web e (rw e at h)
  | inr n₁ ↦ elim (text_cases a action_execute_code) [
    | inl e ↦ execute_code e (rw e at h)
    | inr n₂ ↦ elim (text_cases a action_access_files) [
      | inl e ↦ access_files e (rw e at h)
      | inr n₃ ↦ elim (text_cases a action_call_api) [
        | inl e ↦ call_api e (rw e at h)
        | inr n₄ ↦ elim (text_cases a action_spawn_agent) [
          | inl e ↦ spawn_agent e (rw e at h)
          | inr n₅ ↦ elim (text_cases a action_access_database) [
            | inl e ↦ access_database e (rw e at h)
            | inr n₆ ↦ elim (text_cases a action_send_email) [
              | inl e ↦ send_email e (rw e at h)
              | inr n₇ ↦ cc (rw (n₁, n₂, n₃, n₄, n₅, n₆, n₇) at h)
            ]
          ]
        ]
      ]
    ]
  ]
]

-- An action is allowed exactly when it is one of the seven names and its own permission is set;
-- any other text is refused.
pub allows_iff : (c : AgentCapabilities) (a : Action) → (allows c a ≡ true) ↔ Grants c a
allows_iff c a = (allows_sound c a, allows_complete c a)

-- `d` permits all that `c` permits, and at a higher rate.
pub record IsWider (c d : AgentCapabilities) : Type 0 where
  pub keeps : (a : Action) → allows c a ≡ true → allows d a ≡ true
  pub faster : magnitude c.max_actions_per_hour < magnitude d.max_actions_per_hour

-- The four presets form a chain: each level permits every action that the level below it permits,
-- and has a strictly higher hourly limit.
pub presets_widen :
    IsWider restricted_capabilities standard_capabilities
    × IsWider standard_capabilities elevated_capabilities
    × IsWider elevated_capabilities autonomous_capabilities
unfolding restricted_capabilities standard_capabilities elevated_capabilities
    autonomous_capabilities allows
presets_widen = (
  record { keeps = λ a h. ground arith; faster = omega arith },
  record { keeps = λ a h. ground arith; faster = omega arith },
  record { keeps = λ a h. ground arith; faster = omega arith },
)

-- For every text given as a level: the preset may spawn child agents exactly at the levels
-- "elevated" and "autonomous", and works without a human in the loop at exactly those too.
pub capabilities_for-can_spawn :
    (level : TrustLevel)
    → (((capabilities_for level).can_spawn_agents ≡ true)
        ↔ ((level ≡ trust_elevated) ⊎ (level ≡ trust_autonomous)))
      × ((capabilities_for level).human_in_loop ≡ not (capabilities_for level).can_spawn_agents)
unfolding capabilities_for
capabilities_for-can_spawn level = elim (text_cases level trust_restricted) [
  | inl e ↦ rw e (
      ground
        (arith, eq_iff trust_restricted trust_elevated, eq_iff trust_restricted trust_autonomous))
  | inr n₁ ↦ elim (text_cases level trust_elevated) [
    | inl e ↦ rw e (ground arith)
    | inr n₂ ↦ elim (text_cases level trust_autonomous) [
      | inl e ↦ rw e (ground arith)
      | inr n₃ ↦
          rw (n₁, n₂, n₃)
            (ground (arith, eq_iff level trust_elevated, eq_iff level trust_autonomous))
    ]
  ]
]
