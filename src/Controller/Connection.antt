-- ===== src/Controller/Connection.antt =====
-- internal/controller/helper.go: NewAPIConfig, NewRESTConfig and NewHelmService, which connect to
-- the cluster of a workspace.
-- The files and the environment of the controller's pod, the API server, client-go's loaders and
-- the Helm SDK are a parameter. A nil pointer that is followed is an error with the text of the
-- panic.
use forkspacer.Base.{
  String, Bool, not, Option, none, some, [], ◌∷◌, Assoc, lookup, ◌==◌, if◌then◌else◌,
}
use forkspacer.Go.{Result, errorf, wrap_w, wrap_v}
use forkspacer.Api.Meta.{ObjectKey}
use forkspacer.Exec.{Exec, ◌>>=◌, pure, raise, lift, map_err}
use forkspacer.Api.Workspace
use forkspacer.Api.Workspace.{
  WorkspaceConnection, WorkspaceConnectionType, WorkspaceConnectionSecretReference,
}

-- what is read of a `rest.Config`
pub record RestConfig : Type 0 where
  pub host : String
  pub ca_data : String
  pub ca_file : String
  pub insecure : Bool
  pub bearer_token : String
  pub bearer_token_file : String
  pub cert_data : String
  pub cert_file : String
  pub key_data : String
  pub key_file : String

-- clientcmdapi.Config, with what is written of its parts
pub record Cluster : Type 0 where
  pub server : String
  pub certificate_authority_data : String
  pub certificate_authority : String
  pub insecure_skip_tls_verify : Bool

pub record AuthInfo : Type 0 where
  pub token : String
  pub client_certificate_data : String
  pub client_certificate : String
  pub client_key_data : String
  pub client_key : String

pub record Context : Type 0 where
  pub cluster : String
  pub auth_info : String

pub record ApiConfig : Type 0 where
  pub clusters : Assoc Cluster
  pub auth_infos : Assoc AuthInfo
  pub contexts : Assoc Context
  pub current_context : String

-- K is the type of the REST configs that are made of a config.
pub record Loader (W K : Type 0) : Type 0 where
  pub in_cluster_config : W → Result RestConfig × W
  pub read_file : String → W → Result String × W
  pub load_home : W → Result ApiConfig × W
  pub load : String → Result ApiConfig
  pub get_secret : ObjectKey → W → Result (Assoc String) × W
  pub client_config : ApiConfig → W → Result K × W
  pub init_helm : K → W → Result (Unit {0}) × W
  pub clientset : K → W → Result (Unit {0}) × W

-- the file counts only if there is no data
abbrev file_of : String → String → String
file_of bytes file = if bytes == "" then file else ""

module _ {W K : Type 0} (c : Loader W K) where
  abbrev token_of : RestConfig → Exec W String
  token_of r =
      if not (r.bearer_token == "")
      then pure r.bearer_token
      else if not (r.bearer_token_file == "")
      then map_err (wrap_w "failed to read bearer token file") (c.read_file r.bearer_token_file)
      else pure ""

  abbrev cluster_of : RestConfig → Cluster
  cluster_of r = record {
    server = r.host;
    certificate_authority_data = r.ca_data;
    certificate_authority = file_of r.ca_data r.ca_file;
    insecure_skip_tls_verify = r.insecure;
  }

  abbrev auth_of : RestConfig → String → AuthInfo
  auth_of r token = record {
    token = token;
    client_certificate_data = r.cert_data;
    client_certificate = file_of r.cert_data r.cert_file;
    client_key_data = r.key_data;
    client_key = file_of r.key_data r.key_file;
  }

  abbrev config_of : RestConfig → String → ApiConfig
  config_of r token = record {
    clusters = ("default-cluster", cluster_of r) ∷ [];
    auth_infos = ("default-user", auth_of r token) ∷ [];
    contexts =
        ("default-context", record { cluster = "default-cluster"; auth_info = "default-user" })
        ∷ [];
    current_context = "default-context";
  }

  pub in_cluster_api_config : Exec W ApiConfig
  in_cluster_api_config =
      map_err (wrap_w "failed to get in-cluster REST config") c.in_cluster_config >>= λ r.
      token_of r >>= λ token. pure (config_of r token)

  abbrev loaded : Option String → Exec W ApiConfig
  loaded none = raise (errorf "secret does not contain key")
  loaded (some text) =
      map_err (wrap_w "failed to load kubeconfig from secret data") (lift (c.load text))

  abbrev kubeconfig_of : Option WorkspaceConnectionSecretReference → Exec W ApiConfig
  kubeconfig_of none = raise (errorf "nil pointer dereference")
  kubeconfig_of (some r) =
      map_err (wrap_w "failed to get secret")
        (c.get_secret (record { key_namespace = r.namespace; key_name = r.name }))
      >>= λ pairs. loaded (lookup r.key pairs)

  abbrev by_type :
      WorkspaceConnectionType → Option WorkspaceConnectionSecretReference → Exec W ApiConfig
  by_type Workspace.in_cluster reference = in_cluster_api_config
  by_type Workspace.local reference = map_err (wrap_w "failed to load local kubeconfig") c.load_home
  by_type Workspace.kubeconfig reference = kubeconfig_of reference
  by_type (Workspace.other_connection _) reference =
      raise (errorf "unknown workspace connection type")

  pub new_api_config : WorkspaceConnection → Exec W ApiConfig
  unfolding in_cluster_api_config
  new_api_config connection = by_type connection.type connection.secret_reference

  pub new_rest_config : WorkspaceConnection → Exec W K
  unfolding new_api_config
  new_rest_config connection = new_api_config connection >>= c.client_config

  -- services.NewHelmService: what is made is known by its REST config
  abbrev helm_service : K → Exec W K
  helm_service k = c.init_helm k >>= λ _.
      map_err (wrap_v "failed to create clientset") (c.clientset k) >>= λ _. pure k

  pub new_helm_service : WorkspaceConnection → Exec W K
  unfolding new_rest_config
  new_helm_service connection =
      map_err (wrap_w "failed to create Kubernetes REST client") (new_rest_config connection)
      >>= λ k. map_err (wrap_w "failed to create Helm service") (helm_service k)
