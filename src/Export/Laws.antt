-- ===== src/Export/Laws.antt =====
-- What survives `Export` and `LoadAgentPassport` (agent.go), and what does not.
use computeid_go.Common.{◌≡◌, ◌↔◌, String, inr, ap, sym, ◌∙◌}
use computeid_go.Errors.{ok, ok_injective}
use computeid_go.Agent.{AgentPassport, summary}
use computeid_go.Export.{Codec, exported, export, load_agent_passport}

-- The codec reads back what it wrote for this passport.
abbrev pub ReadsBack : Codec → AgentPassport → String → Type 0
ReadsBack c p text = (c.marshal (exported p) ≡ inr text) × (c.unmarshal text ≡ inr (exported p))

-- If the codec reads back what it wrote, what was exported is loaded again with its type, its
-- owner's address and its version replaced: by "general", by the empty text and by "1.0.0".
pub load_agent_passport-export :
    (c : Codec) (p : AgentPassport) (text : String)
    → ReadsBack c p text
    → (export c p ≡ inr text)
      × (load_agent_passport c text
          ≡ ok (record p { agent_type = "general"; owner_email = ""; version = "1.0.0" }))
unfolding export load_agent_passport exported summary
load_agent_passport-export c p text (wrote, read) = (wrote, rw (read, load_agent_passport))

-- If the codec reads back what it wrote, a passport comes back from its export whole exactly when
-- its type is "general", its owner's address is empty and its version is "1.0.0".
pub load_agent_passport-export_iff :
    (c : Codec) (p : AgentPassport) (text : String)
    → ReadsBack c p text
    → (load_agent_passport c text ≡ ok p)
      ↔ ((p.agent_type ≡ "general") × (p.owner_email ≡ "") × (p.version ≡ "1.0.0"))
load_agent_passport-export_iff c p text h = (lost, whole)
  where
    back :
        load_agent_passport c text
        ≡ ok (record p { agent_type = "general"; owner_email = ""; version = "1.0.0" })
    back = (load_agent_passport-export c p text h).1

    lost :
        load_agent_passport c text ≡ ok p
        → (p.agent_type ≡ "general") × (p.owner_email ≡ "") × (p.version ≡ "1.0.0")
    lost e =
        let same = ok_injective (sym e ∙ back) in
        (
          ap (λ (u : AgentPassport). u.agent_type) same,
          ap (λ (u : AgentPassport). u.owner_email) same,
          ap (λ (u : AgentPassport). u.version) same,
        )

    whole :
        (p.agent_type ≡ "general") × (p.owner_email ≡ "") × (p.version ≡ "1.0.0")
        → load_agent_passport c text ≡ ok p
    whole (a, o, v) =
        back
        ∙ ap ok (λ i. record p { agent_type = sym a i; owner_email = sym o i; version = sym v i })
