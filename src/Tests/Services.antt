-- ===== src/Tests/Services.antt =====
-- A cluster in memory whose answers can be told, the Helm service on it, and what it is asked.
use forkspacer.Base.{
  String, ◌≡◌, refl, Bool, true, false, none, some, List, [], ◌∷◌, ◌++◌, Assoc, All, lookup, ◌==◌,
  if◌then◌else◌, Bool-cases, inl, inr,
}
use forkspacer.Go.{Error, ok, err, not_found}
use forkspacer.Api.Module.{ModuleSpecHelmValues, get_namespace}
use forkspacer.Helm.Service.{
  HelmRun, Sdk, uninstall_release, collect, merge_onto, merge_helm_values,
}
use forkspacer.Helm.Service.Values.{ValuesLaws, or_else, last_of, merge_helm_values-last}
use forkspacer.Helm.Charts.Install.{Installed, install_from_repository-Undone}
use forkspacer.Helm.Service.Removal.{Removed}
use forkspacer.Helm.Service.Sources.{FromEntries}
use forkspacer.Helm.Manager.{Host, install_chart}
use forkspacer.Helm.Manager.Files.{Cleaned, install_chart-Cleaned}
use forkspacer.Controller.Connection.{RestConfig, ApiConfig, Loader}
use forkspacer.Controller.Managed.{Environment, Admin, installation, uninstall_vcluster}
use forkspacer.Controller.Managed.Steps.{TornDown, uninstall_vcluster-TornDown}
use forkspacer.Migration.{Secret, Store, Place}
use forkspacer.Tests.Data.{redis_helm}
use forkspacer.Helm.Charts.{install_from_repository}

abbrev missing : Error
missing = record { class = not_found; text = "not found" }

-- Everything succeeds, but a chart called `broken` is not installed. Values are association lists.
abbrev pub sdk : {W : Type 0} → Sdk W String (Assoc String)
sdk = record {
  init = λ namespace w. (ok tt, w);
  locate_chart = λ action chart w. (ok chart, w);
  load = λ path w. (ok path, w);
  run_install = λ action chart values w. (if chart == "broken" then err missing else ok tt, w);
  run_uninstall = λ release namespace w. (ok tt, w);
  delete_namespace = λ namespace w. (ok tt, w);
  delete_claims = λ namespace selector w. (ok tt, w);
  list_claims = λ namespace selector w. (ok [], w);
  get_config_map = λ namespace name w. (ok (("values", "b: 2") ∷ []), w);
  get_secret = λ namespace name w. (err missing, w);
  read_file = λ path w. (ok (("a", "1") ∷ []), w);
  read_values = λ text. ok (("b", text) ∷ []);
  unmarshal = λ text. ok (("a", text) ∷ []);
  coalesce_tables = λ dst src. dst ++ src;
  no_values = [];
  stat = λ path w. (ok false, w);
  load_dir = λ path w. (ok 0, w);
  mkdir_all = λ path w. (ok tt, w);
  build = λ path w. (ok tt, w);
}

lookup-append :
    (key : String) (dst src : Assoc String)
    → lookup key (dst ++ src) ≡ or_else (lookup key dst) (lookup key src)
unfolding lookup
lookup-append key [] src = refl
lookup-append key ((name, value) ∷ rest) src = elim (Bool-cases (name == key)) [
  | inl hit ↦ rw hit refl
  | inr other ↦ rw other (lookup-append key rest src)
]

nothing_in : (key : String) → lookup {V = String} key [] ≡ none
unfolding lookup
nothing_in key = refl

abbrev values_laws : ValuesLaws (sdk {W = Unit {0}}) String
values_laws = record {
  get = λ key values. lookup key values;
  is_plain = λ key values. true;
  coalesced = λ key dst src p q. (lookup-append key dst src, refl);
  without_values = nothing_in;
}

abbrev idle : HelmRun (Unit {0})
idle = record { world = tt; trace = [] }

-- a file and raw bytes that set the same key
abbrev two_values : List ModuleSpecHelmValues
two_values =
    record { file = some "values.yaml"; config_map = none; raw = none }
    ∷ record { file = none; config_map = none; raw = some (record { raw = some "2" }) }
    ∷ []

merge_helm_values-last_example :
    (tables : List (Assoc String)) × FromEntries {W = Unit {0}} sdk two_values tables
    × (All (λ (t : Assoc String). ◌≡◌ {A = Bool} true true) tables
        → lookup "a" (("a", "2") ∷ ("a", "1") ∷ []) ≡ last_of sdk values_laws "a" none tables)
unfolding merge_helm_values collect merge_onto
merge_helm_values-last_example =
    merge_helm_values-last sdk values_laws "a" two_values idle idle (("a", "2") ∷ ("a", "1") ∷ [])
      refl

install_from_repository-Undone_example :
    Installed "redis" "apps" [] (
      install_from_repository sdk "broken" "redis" "apps" "https://charts" none true two_values ""
        "" idle)
    × Removed sdk "redis" "apps" true true idle
        (uninstall_release sdk "redis" "apps" true true idle)
install_from_repository-Undone_example =
    install_from_repository-Undone sdk "redis" "apps" two_values "broken" "https://charts" none true
      "" "" idle idle

-- Files are written and removed without trouble.
abbrev host : Host (Unit {0}) String String String
host = record {
  get_secret = λ key w. (err missing, w);
  get_binary_data = λ key w. (ok (("chart", "bytes") ∷ []), w);
  create_temp = λ w. (ok "/tmp/chart.tgz", w);
  write = λ path bytes w. (ok tt, w);
  close = λ path w. (ok tt, w);
  remove = λ path w. (ok tt, w);
  mkdir_temp = λ w. (ok "/tmp/clone", w);
  remove_all = λ path w. (ok tt, w);
  join = λ dir path. path;
  parse_url = ok;
  with_user = λ user url. url;
  with_user_password = λ user password url. url;
  git_clone = λ revision url dir w. (err missing, w);
  unmarshal = ok;
  text_value = λ text. text;
  outputs_value = λ outputs. "outputs";
}

-- the chart is in a repository that cannot be cloned
install_chart-Cleaned_example : Cleaned "redis" "apps" [] (
    install_chart sdk host redis_helm "redis" none none
      (some (record { repo = "https://git"; path = "chart"; revision = "main"; auth = none }))
      idle)
unfolding get_namespace
install_chart-Cleaned_example =
    install_chart-Cleaned sdk host redis_helm "redis" none none
      (some (record { repo = "https://git"; path = "chart"; revision = "main"; auth = none })) idle

abbrev rest_config : RestConfig
rest_config = record {
  host = "https://10.0.0.1";
  ca_data = "";
  ca_file = "/ca.crt";
  insecure = false;
  bearer_token = "";
  bearer_token_file = "/token";
  cert_data = "";
  cert_file = "";
  key_data = "";
  key_file = "";
}

abbrev home : ApiConfig
home = record { clusters = []; auth_infos = []; contexts = []; current_context = "home" }

-- A REST config is known by the name of the context.
abbrev pub loader : {W : Type 0} → Loader W String
loader = record {
  in_cluster_config = λ w. (ok rest_config, w);
  read_file = λ path w. (ok "token", w);
  load_home = λ w. (ok home, w);
  load = λ text. ok home;
  get_secret = λ key w. (err missing, w);
  client_config = λ config w. (ok config.current_context, w);
  init_helm = λ k w. (ok tt, w);
  clientset = λ k w. (ok tt, w);
}

abbrev pub admin : {W : Type 0} → Admin W
admin = record {
  create_namespace = λ name w. (ok tt, w);
  remove_namespace = λ name w. (ok tt, w);
  marshal = λ i. ok "{}";
}

abbrev pub no_environment : Environment
no_environment name = ""

uninstall_vcluster-TornDown_example :
    TornDown admin loader
      (λ k. sdk)
      no_environment
      (installation no_environment "dev")
      idle
      (uninstall_vcluster admin loader (λ k. sdk) no_environment "dev" idle)
uninstall_vcluster-TornDown_example =
    uninstall_vcluster-TornDown admin loader (λ k. sdk) no_environment "dev" idle

abbrev password : Secret
password = record {
  name = "password";
  namespace = "apps";
  labels = [];
  annotations = ("meta.helm.sh/release-name", "redis") ∷ [];
  type = "Opaque";
  contents = ("password", "1234") ∷ [];
  string_data = [];
  immutable = some true;
}

-- Every secret is the same immutable one, under the name by which it is read.
abbrev pub secrets : {W : Type 0} → Store W String Secret
secrets = record {
  get = λ k namespace name w. (ok (record password { name = name; namespace = namespace }), w);
  create = λ k secret w. (ok tt, w);
  update = λ k secret w. (ok tt, w);
  delete = λ k namespace name w. (ok tt, w);
}

abbrev here : Place
here = record { config = home; namespace = "apps"; name = "password" }

abbrev there : Place
there = record { config = home; namespace = "copies"; name = "password_copy" }
