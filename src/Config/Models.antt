-- ===== src/Config/Models.antt =====
-- config/models.py: the records of the configuration.
use mcp_zero_trust_layer.Base.{
  Eq, nat_eq, string_eq, option_eq, ℤ, int_eq, String, ◌≡◌, ◌↔◌, Bool, true, false, Option, List,
  arith,
}
use mcp_zero_trust_layer.Base.Dict.{Dict}
use mcp_zero_trust_layer.Value.{Items, Fields}

-- `Effect`, and `Decision` of policy/models.py
pub data Effect : Type 0 where
  allow deny hide require_approval redact limit transform log : Effect

pub data CapabilityType : Type 0 where
  tool resource prompt method : CapabilityType

abbrev pub capability_type_name : CapabilityType → String
capability_type_name tool = "tool"
capability_type_name resource = "resource"
capability_type_name prompt = "prompt"
capability_type_name method = "method"

abbrev pub capability_type_beq : CapabilityType → CapabilityType → Bool
capability_type_beq tool tool = true
capability_type_beq resource resource = true
capability_type_beq prompt prompt = true
capability_type_beq method method = true
capability_type_beq _ _ = false

pub capability_type_beq_iff : (a b : CapabilityType) → (capability_type_beq a b ≡ true) ↔ (a ≡ b)
capability_type_beq_iff a b = ground arith

instance abbrev pub capability_type_eq : Eq CapabilityType
capability_type_eq = record {
  beq = capability_type_beq;
  beq_iff = capability_type_beq_iff;
  truthy = λ _. true;
}

pub record CapabilityMetadata : Type 0 where
  pub action : Option String
  pub risk : Option String
  pub access : Option String
  pub resource_type : Option String
  pub tags : List String
  pub data_classification : Option String
  pub owner : Option String

pub record ServerCapabilityMappings : Type 0 where
  pub tools : Dict String CapabilityMetadata
  pub resources : Dict String CapabilityMetadata
  pub prompts : Dict String CapabilityMetadata

pub record PolicyMatch : Type 0 where
  pub server : Option String
  pub method : Option String
  pub capability_type : Option CapabilityType
  pub capability : Option String
  pub capabilities : List String
  pub action : Option String
  pub risk : Option String
  pub access : Option String
  pub resource_type : Option String
  pub tag : Option String
  pub tags : List String
  pub data_classification : Option String
  pub environment : Option String
  pub user : Option String
  pub group : Option String
  pub role : Option String
  pub client_id : Option String
  pub agent_id : Option String

pub record OutputPolicy : Type 0 where
  pub redact_fields : List String
  pub redact_patterns : List String
  pub deny_if_matches : List String
  pub max_bytes : Option ℤ
  pub include_fields : List String

pub record InputPolicy : Type 0 where
  pub allowed_fields : List String
  pub required_fields : List String
  pub forbidden_fields : List String
  pub allowed_values : Dict String Items
  pub max_field_bytes : Dict String ℤ
  pub max_list_items : Dict String ℤ

pub record ValidatorConfig : Type 0 where
  pub name : String
  pub options : Fields

pub record PolicyConfig : Type 0 where
  pub id : String
  pub effect : Effect
  pub match : PolicyMatch
  pub when : Fields
  pub input : Option InputPolicy
  pub validators : List ValidatorConfig
  pub output : Option OutputPolicy
  pub reason : Option String

pub record ProjectConfig : Type 0 where
  pub name : String
  pub environment : String

-- `default_decision` is "allow" or "deny" in the source; the model allows every effect.
pub record RuntimeConfig : Type 0 where
  pub mode : String
  pub default_decision : Effect
  pub dry_run : Bool
  pub allow_dry_run_in_production : Bool
  pub allow_auth_none_in_production : Bool
  pub allowed_origins : List String
  pub trusted_hosts : List String
  pub public_base_url : Option String
  pub max_request_bytes : ℤ

pub record AuthConfig : Type 0 where
  pub mode : String
  pub token : Option String
  pub token_env : Option String
  pub header : String
  pub trust_identity_headers : Bool
  pub issuer : Option String
  pub audience : Option String
  pub jwks_url : Option String
  pub algorithms : List String
  pub authorization_servers : List String
  pub required_scopes : List String
  pub subject_claim : String
  pub email_claim : String
  pub scopes_claim : String
  pub groups_claim : String
  pub roles_claim : String
  pub client_id_claim : String
  pub agent_id_claim : String

pub record EvidenceConfig : Type 0 where
  pub mode : String
  pub issuer : String
  pub destination : String
  pub tenant : String
  pub scope : String
  pub key_id : String
  pub private_key_file : String
  pub trust_store : String
  pub store : String
  pub ttl_seconds : ℤ

pub record ServerConfig : Type 0 where
  pub name : String
  pub transport : String
  pub upstream : Option String
  pub upstream_headers : Dict String String
  pub command : List String
  pub env : Dict String String
  pub max_response_bytes : ℤ
  pub evidence : EvidenceConfig

pub record AuditConfig : Type 0 where
  pub destination : String
  pub path : String
  pub strict : Bool
  pub hash_chain : Bool
  pub hmac_key : Option String
  pub hmac_key_env : Option String

pub record ApprovalsConfig : Type 0 where
  pub backend : String
  pub path : String
  pub default_ttl_seconds : ℤ
  pub webhook_url : Option String
  pub webhook_strict : Bool
  pub require_separation_of_duties : Bool

pub record PolicyEngineConfig : Type 0 where
  pub adapter : String
  pub endpoint : Option String
  pub fail_closed : Bool

pub record McpztConfig : Type 0 where
  pub config_base_dir : Option String
  pub project : ProjectConfig
  pub runtime : RuntimeConfig
  pub auth : AuthConfig
  pub servers : List ServerConfig
  pub capability_mappings : Dict String ServerCapabilityMappings
  pub policies : List PolicyConfig
  pub audit : AuditConfig
  pub approvals : ApprovalsConfig
  pub policy_engine : PolicyEngineConfig
