-- ===== src/Credentials/Types.antt =====
-- credentials.py: requests, handles, and the tests on texts.
use eldridge.Prelude.{
  ℕ, String, Bool, ◌&&◌, List, Eq, discrete_eq, ◌==◌, nat_eq, len, all_chars, has_char, string_eq,
}

pub data CredentialOperation : Type 0 where
  apply_plan observe verify rollback : CredentialOperation

unfoldable pub CredentialOperation-discrete : Discrete CredentialOperation
CredentialOperation-discrete = hlevel

instance abbrev pub credential_operation_eq : Eq CredentialOperation
credential_operation_eq = discrete_eq CredentialOperation-discrete

-- `operation.value`
unfoldable pub credential_operation_value : CredentialOperation → String
credential_operation_value CredentialOperation.apply_plan = "APPLY_PLAN"
credential_operation_value CredentialOperation.observe = "OBSERVE"
credential_operation_value CredentialOperation.verify = "VERIFY"
credential_operation_value CredentialOperation.rollback = "ROLLBACK"

pub record WorkloadCredentialRequest : Type 0 where
  pub environment_id : String
  pub adapter_id : String
  pub plan_digest : String
  pub operation : CredentialOperation
  pub audience : String
  pub subject : String
  pub resource_scope : List String
  pub lifetime_seconds : ℕ

pub record WorkloadCredentialHandle : Type 0 where
  pub reference : String
  pub broker_id : String
  pub environment_id : String
  pub plan_digest : String
  pub operation : CredentialOperation
  pub audience : String
  pub subject : String
  pub resource_scope : List String
  pub issued_at : ℕ
  pub expires_at : ℕ
  pub simulated : Bool

-- `_is_sha256`
unfoldable pub is_sha256 : String → Bool
is_sha256 value = len value == 64 && all_chars (has_char "0123456789abcdef") value
