-- ===== src/Team.antt =====
-- The team: roles and agents. The catalog of models is the provider's: an error's text, or its
-- entries.
pub mod Roles
pub mod Agents
pub mod Staff
pub mod Kept
pub mod Next
pub mod Runs
use frank.Prelude.{
  ℕ, String, Bool, true, false, not, ◌&&◌, ◌||◌, ◌==◌, ◌⊎◌, inl, inr, Option, none, some, List, any,
  is_none_or, unwrap_or, leb, ltb, byte_len, has_control, is_blank, text_eq, concat, [], ◌∷◌,
  Result, ok, err, refuse, ◌>>=◌, ◌>>◌, OrchestratorError, validation, provider_unavailable,
}
use frank.Protocol.Records.{AgentView, RoleView}

pub record ModelDescriptor : Type 0 where
  pub id : String
  pub canonical_slug : Option String

abbrev pub Catalog : Type 0
Catalog = String ⊎ List ModelDescriptor

abbrev slug : ModelDescriptor → String
slug descriptor = unwrap_or descriptor.canonical_slug descriptor.id

unfoldable pub check_model : Catalog → String → Result (Unit {0})
check_model (inl text) model =
    refuse (is_blank model) (validation "provider model cannot be empty")
    >> err (provider_unavailable text)
check_model (inr entries) model =
    refuse (is_blank model) (validation "provider model cannot be empty")
    >> refuse (not (any (λ descriptor. text_eq (slug descriptor) model) entries)) (
        validation
          (concat ("provider model '" ∷ model ∷ "' is not available in the current catalog" ∷ [])))

-- `validate_openrouter_model` of lib.rs.
unfoldable pub validate_openrouter_model : Catalog → Option String → Result (Unit {0})
validate_openrouter_model catalog none = ok tt
validate_openrouter_model catalog (some model) = check_model catalog model

-- `valid_optional_agent_text` of validate.rs.
unfoldable pub valid_optional_agent_text : Option String → ℕ → Bool
valid_optional_agent_text value max_bytes =
    is_none_or value (λ text. leb (byte_len text) max_bytes && not (has_control text))

abbrev pub is_live_role : ℕ → RoleView → Bool
is_live_role id role = role.id == id && not role.archived

abbrev pub has_agent_id : ℕ → AgentView → Bool
has_agent_id id agent = agent.id == id
