-- ===== src/Api/Workspace.antt =====
-- api/v1/workspace_types.go: the Workspace resource.
use forkspacer.Base.{ℕ, String, Bool, Option, List}
use forkspacer.Api.Meta.{ObjectMeta}

-- `unset` is the empty string that a new resource has; `unknown` is any other text.
pub data WorkspacePhase : Type 0 where
  unset ready installing hibernated failed terminating : WorkspacePhase
  unknown : String → WorkspacePhase

pub data WorkspaceType : Type 0 where
  kubernetes managed : WorkspaceType
  other_type : String → WorkspaceType

pub data WorkspaceConnectionType : Type 0 where
  local in_cluster kubeconfig : WorkspaceConnectionType
  other_connection : String → WorkspaceConnectionType

pub record WorkspaceConnectionSecretReference : Type 0 where
  pub name : String
  pub namespace : String
  pub key : String

pub record WorkspaceConnection : Type 0 where
  pub type : WorkspaceConnectionType
  pub secret_reference : Option WorkspaceConnectionSecretReference

pub record WorkspaceAutoHibernation : Type 0 where
  pub enabled : Bool
  pub schedule : String
  pub wake_schedule : Option String

pub data ManagedClusterBackend : Type 0 where
  vcluster k3d kind : ManagedClusterBackend
  other_backend : String → ManagedClusterBackend

pub record ManagedClusterSpec : Type 0 where
  pub backend : ManagedClusterBackend
  pub distro : String

pub record WorkspaceFromReference : Type 0 where
  pub name : String
  pub namespace : String
  pub migrate_data : Bool

pub record WorkspaceSpec : Type 0 where
  pub type : WorkspaceType
  pub from : Option WorkspaceFromReference
  pub hibernated : Bool
  pub connection : WorkspaceConnection
  pub managed_cluster : Option ManagedClusterSpec
  pub auto_hibernation : Option WorkspaceAutoHibernation

-- Times are nanoseconds; the conditions are kept as texts, since the program never reads one.
pub record WorkspaceStatus : Type 0 where
  pub conditions : List String
  pub phase : WorkspacePhase
  pub ready : Bool
  pub last_activity : Option ℕ
  pub hibernated_at : Option ℕ
  pub message : Option String

pub record Workspace : Type 0 where
  pub metadata : ObjectMeta
  pub spec : WorkspaceSpec
  pub status : WorkspaceStatus
