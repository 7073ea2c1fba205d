-- ===== src/Controller/Managed.antt =====
-- Virtual clusters, of internal/controller/workspace_managed.go: getVClusterConfig,
-- getVClusterNamespace, installVCluster and uninstallVCluster. The environment, the controller's
-- client and the encoding of the chart's values are parameters.
pub mod Names
pub mod Steps
use forkspacer.Base.{String, Bool, true, false, ◌==◌, none, some, [], ◌∷◌, if◌then◌else◌}
use forkspacer.Go.{Error, Result, ok, err, concat, wrap_w, is_not_found, is_already_exists}
use forkspacer.Exec.{Exec, ◌>>=◌, ◌>>◌, pure, raise, lift, attempt, map_err}
use forkspacer.Api.Workspace
use forkspacer.Api.Workspace.{WorkspaceConnection}
use forkspacer.Helm.Service.{
  HelmEffect, namespace_created, namespace_deleted, HelmRun, Sdk, uninstall_release,
}
use forkspacer.Controller.Connection.{Loader, new_helm_service}
use forkspacer.Helm.Charts.{install_from_repository}

-- os.Getenv: the empty text for a variable that is not set
abbrev pub Environment : Type 0
Environment = String → String

pub record VclusterConfig : Type 0 where
  pub chart_repo : String
  pub chart_version : String
  pub chart_name : String
  pub secret_name : String

abbrev or_default : String → String → String
or_default value fallback = if value == "" then fallback else value

pub vcluster_config : Environment → VclusterConfig
vcluster_config env = record {
  chart_repo = or_default (env "VCLUSTER_CHART_REPO") "https://charts.loft.sh";
  chart_version = or_default (env "VCLUSTER_CHART_VERSION") "0.21.0-alpha.4";
  chart_name = or_default (env "VCLUSTER_CHART_NAME") "vcluster";
  secret_name = or_default (env "VCLUSTER_KUBECONFIG_SECRET_NAME") "vc-kubeconfig";
}

pub vcluster_namespace : String → String
vcluster_namespace name = concat ("forkspacer-" ∷ name ∷ [])

-- What is installed for the workspace of a name; `secret` and `server` are the values of the chart.
pub record Installation : Type 0 where
  pub repo : String
  pub chart : String
  pub version : String
  pub release : String
  pub namespace : String
  pub secret : String
  pub server : String

pub installation : Environment → String → Installation
unfolding vcluster_config vcluster_namespace
installation env name =
    let config = vcluster_config env in
    let release = concat ("forkspacer-" ∷ name ∷ []) in
    record {
      repo = config.chart_repo;
      chart = config.chart_name;
      version = config.chart_version;
      release = release;
      namespace = vcluster_namespace name;
      secret = concat (config.secret_name ∷ "-" ∷ name ∷ []);
      server = concat ("https://" ∷ release ∷ "." ∷ vcluster_namespace name ∷ ":443" ∷ []);
    }

-- the controller's client, and the JSON text of the values of an installation
pub record Admin (W : Type 0) : Type 0 where
  pub create_namespace : String → W → Result (Unit {0}) × W
  pub remove_namespace : String → W → Result (Unit {0}) × W
  pub marshal : Installation → Result String

-- the connection of the controller itself
abbrev own_connection : WorkspaceConnection
own_connection = record { type = Workspace.in_cluster; secret_reference = none }

module _ {W K C V : Type 0} (admin : Admin W) (loader : Loader W K) (sdk : K → Sdk W C V)
    (env : Environment) where
  abbrev on_world : {A : Type 0} → Exec W A → Exec (HelmRun W) A
  on_world f s = let (r, w) = f s.world in (r, record s { world = w })

  abbrev noted : HelmEffect → Exec W (Unit {0}) → Exec (HelmRun W) (Unit {0})
  noted e f s = let (r, w) = f s.world in (r, record { world = w; trace = e ∷ s.trace })

  abbrev connected : Exec (HelmRun W) K
  connected =
      map_err (wrap_w "failed to create Helm service")
        (on_world (new_helm_service loader own_connection))

  abbrev unless_exists : Result (Unit {0}) → Exec (HelmRun W) (Unit {0})
  unless_exists (ok _) = pure tt
  unless_exists (err e) =
      if is_already_exists e then pure tt else raise (wrap_w "failed to create namespace" e)

  abbrev chart_installed : Installation → K → String → Exec (HelmRun W) (Unit {0})
  chart_installed i k bytes =
      install_from_repository (sdk k) i.chart i.release i.namespace i.repo (some i.version) true
        (record { file = none; config_map = none; raw = some (record { raw = some bytes }) } ∷ [])
        "" ""

  abbrev install_on : Installation → K → Exec (HelmRun W) (Unit {0})
  install_on i k =
      map_err (wrap_w "failed to marshal vcluster values") (lift (admin.marshal i)) >>= λ bytes.
      map_err (wrap_w "failed to install vcluster") (chart_installed i k bytes)

  pub install_vcluster : String → Exec (HelmRun W) (Unit {0})
  unfolding installation
  install_vcluster name =
      let i = installation env name in
      attempt (noted (namespace_created i.namespace) (admin.create_namespace i.namespace))
      >>= unless_exists
      >> connected
      >>= install_on i

  abbrev unless_gone : Result (Unit {0}) → Exec (HelmRun W) (Unit {0})
  unless_gone (ok _) = pure tt
  unless_gone (err e) =
      if is_not_found e then pure tt else raise (wrap_w "failed to delete namespace" e)

  abbrev uninstall_on : String → String → K → Exec (HelmRun W) (Unit {0})
  uninstall_on release namespace k =
      map_err (wrap_w "failed to uninstall vcluster")
        (uninstall_release (sdk k) release namespace false false)

  abbrev delete_namespace : String → Exec (HelmRun W) (Unit {0})
  delete_namespace namespace =
      attempt (noted (namespace_deleted namespace) (admin.remove_namespace namespace))
      >>= unless_gone

  pub uninstall_vcluster : String → Exec (HelmRun W) (Unit {0})
  unfolding vcluster_namespace
  uninstall_vcluster name =
      let namespace = vcluster_namespace name in
      let release = concat ("forkspacer-" ∷ name ∷ []) in
      connected >>= uninstall_on release namespace >> delete_namespace namespace
