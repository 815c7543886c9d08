-- ===== src/Domain/Machine.antt =====
-- internal/domain/machine/machine.go and the provider types of internal/domain/infraprovider.
use talos_app.Prelude.{ℕ, String, Option, List}
use talos_app.Shared.{Uuid, Timestamps}

pub data Role : Type 0 where
  control_plane worker : Role

pub data Phase : Type 0 where
  discovered provisioning installing ready upgrading draining cordoned unhealthy : Phase
  deleting deleted : Phase

pub data BmcProtocol : Type 0 where
  no_bmc ipmi redfish : BmcProtocol

pub record Bmc : Type 0 where
  pub protocol : BmcProtocol
  pub address : String
  pub credential_ref : String

pub record Machine : Type 0 where
  pub id : Uuid
  pub cluster_id : Option Uuid
  pub site_id : Uuid
  pub provider_id : Uuid
  pub provider_machine_id : String
  pub hostname : String
  pub management_ip : String
  pub role : Role
  pub phase : Phase
  pub talos_version : String
  pub kubernetes_version : String
  pub cpu : ℕ
  pub memory_bytes : ℕ
  pub bmc : Option Bmc
  pub labels : List (String × String)
  pub timestamps : Timestamps

-- `infraprovider.Type`
pub data ProviderType : Type 0 where
  bare_metal proxmox vmware open_stack aws azure gcp equinix_metal : ProviderType

pub record InfrastructureProvider : Type 0 where
  pub id : Uuid
  pub organization_id : Uuid
  pub name : String
  pub type : ProviderType
  pub endpoint : String
  pub credential_ref : Uuid
  pub timestamps : Timestamps
