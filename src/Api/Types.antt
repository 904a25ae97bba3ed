-- ===== src/Api/Types.antt =====
-- The records of web/src/lib/api.ts that the pages show. A field that the source marks as optional
-- is `none` where it is missing.
use lab_keeper.Common.{Bool, List, Option, Text, ℕ}
use lab_keeper.Api.Inputs.{ProbeMethod, CredentialType, BecomeMethod}

pub record Site : Type 0 where
  pub id : Text
  pub name : Text
  pub discovery_enabled : Bool
  pub created_at : Text
  pub updated_at : Text

pub record HostCredentialSummary : Type 0 where
  pub id : Text
  pub name : Text
  pub credential_type : CredentialType
  pub username : Text

pub record Host : Type 0 where
  pub id : Text
  pub site_id : Text
  pub name : Text
  pub hostname : Text
  pub address : Option Text
  pub subject : Option Text
  pub agent_fingerprint : Option Text
  pub os : Option Text
  pub ips : Option (List Text)
  pub remote_addr : Option Text
  pub online : Bool
  pub agent_online : Bool
  pub connected_at : Option Text
  pub last_seen : Option Text
  pub last_probe_at : Option Text
  pub probe_method : ProbeMethod
  pub probe_port : ℕ
  pub cpu_cores : Option ℕ
  pub memory_bytes : Option ℕ
  pub credential_id : Option Text
  pub credential : Option HostCredentialSummary
  pub created_at : Text
  pub updated_at : Text

pub record Credential : Type 0 where
  pub id : Text
  pub name : Text
  pub credential_type : CredentialType
  pub username : Text
  pub public_key : Option Text
  pub has_passphrase : Bool
  pub become_method : BecomeMethod
  pub become_user : Option Text
  pub has_become_secret : Bool
  pub created_at : Text
  pub updated_at : Text
