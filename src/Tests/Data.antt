-- ===== src/Tests/Data.antt =====
-- A small cluster: a workspace, a module with a chart and a config, and what is asked of them.
use forkspacer.Base.{ℕ, String, true, false, Option, none, some, List, [], ◌∷◌, ◌==◌, if◌then◌else◌}
use forkspacer.Go.Int.{ℤ, pos}
use forkspacer.Api.Meta.{ObjectMeta}
use forkspacer.Api.Any.{float64, text}
use forkspacer.Api.Workspace
use forkspacer.Api.Workspace.{
  Workspace, WorkspaceType, WorkspaceConnection, WorkspaceConnectionType,
  WorkspaceConnectionSecretReference, WorkspacePhase,
}
use forkspacer.Api.Module.{
  Module, ModulePhase, ModuleSpecHelm, ModuleSpecHelmChart, ConfigItem,
  ConfigItemSpecMultipleOptions,
}
use forkspacer.Api.Config.{Codec}

abbrev pub meta_of : String → ObjectMeta
meta_of name = record {
  name = name;
  namespace = "default";
  generate_name = "";
  uid = "";
  finalizers = [];
  annotations = [];
  deletion_timestamp = none;
}

abbrev pub in_cluster_connection : WorkspaceConnection
in_cluster_connection = record { type = Workspace.in_cluster; secret_reference = none }

abbrev pub config_secret : WorkspaceConnectionSecretReference
config_secret = record { name = "cluster"; namespace = "default"; key = "kubeconfig" }

abbrev pub kubeconfig_connection : WorkspaceConnection
kubeconfig_connection = record {
  type = Workspace.kubeconfig;
  secret_reference = some config_secret;
}

abbrev pub dev_with : WorkspaceType → WorkspaceConnection → Workspace
dev_with type conn = record {
  metadata = meta_of "dev";
  spec = record {
    type = type;
    from = none;
    hibernated = false;
    connection = conn;
    managed_cluster = none;
    auto_hibernation =
        some (record { enabled = true; schedule = "0 18 * * *"; wake_schedule = some "0 8 * * *" });
  };
  status = record {
    conditions = [];
    phase = Workspace.ready;
    ready = true;
    last_activity = none;
    hibernated_at = none;
    message = none;
  };
}

abbrev pub dev : Workspace
dev = dev_with Workspace.kubernetes in_cluster_connection

abbrev pub dev_kubeconfig : Workspace
dev_kubeconfig = dev_with Workspace.kubernetes kubeconfig_connection

abbrev pub dev_managed : Workspace
dev_managed = dev_with Workspace.managed in_cluster_connection

-- a number of replicas between 1 and 5
abbrev pub replicas : ConfigItem
replicas = record {
  name = "Replicas";
  alias = "replicas";
  integer = some (record {
    required = true;
    default = pos 1;
    min = some (pos 1);
    max = some (pos 5);
    editable = true;
  });
  boolean = none;
  string = none;
  option = none;
  multiple_options = none;
}

abbrev pub zones_spec : ConfigItemSpecMultipleOptions
zones_spec = record {
  required = false;
  default = [];
  values = "a" ∷ "b" ∷ [];
  min = none;
  max = none;
  editable = true;
}

abbrev pub zones : ConfigItem
zones = record {
  name = "Zones";
  alias = "zones";
  integer = none;
  boolean = none;
  string = none;
  option = none;
  multiple_options = some zones_spec;
}

-- Floats that hold integers; every pattern accepts everything; two documents are known.
abbrev pub codec : Codec ℤ
codec = record {
  to_int = λ f. f;
  compile = λ pattern. some (λ s. true);
  unmarshal = λ document.
      if document == "{replicas: 3}"
      then some (("replicas", float64 (pos 3)) ∷ [])
      else if document == "{zones: a}"
      then some (("zones", text "a") ∷ [])
      else none;
}

abbrev pub redis_chart : ModuleSpecHelmChart
redis_chart = record {
  repo = some (record { url = "https://charts"; chart = "redis"; version = none; auth = none });
  config_map = none;
  git = none;
}

abbrev pub redis_helm : ModuleSpecHelm
redis_helm = record {
  existing_release = none;
  release_name = none;
  chart = redis_chart;
  namespace = "apps";
  values = [];
  outputs = [];
  cleanup = record { remove_namespace = false; remove_pvcs = false };
  migration = record { pvcs = []; config_maps = []; secrets = [] };
}

abbrev pub redis_with : List ConfigItem → String → ModulePhase → Option ℕ → Module
redis_with items document phase since = record {
  metadata = meta_of "redis";
  config = items;
  spec = record {
    helm = some redis_helm;
    custom = none;
    workspace = record { name = "dev"; namespace = "default" };
    config = some (record { raw = some document });
    hibernated = false;
  };
  status = record {
    conditions = [];
    phase = phase;
    source = "";
    last_activity = since;
    message = none;
  };
}
