-- ===== src/Helm/Manager.antt =====
-- pkg/manager/helm.go: Install with fetchRepoAuthCredentials and extractOutputs, and Uninstall,
-- over the Helm service. The controller's client, the file system, git and the JSON decoder are a
-- parameter. A map of metadata that Install changes comes back from it.
pub mod Files
use forkspacer.Base.{
  String, ◌≡◌, Bool, true, false, not, ◌&&◌, Option, none, some, List, [], ◌∷◌, Assoc, lookup,
  insert, ◌==◌, if◌then◌else◌,
}
use forkspacer.Go.{Error, Result, ok, err, errorf, wrap_w}
use forkspacer.Exec.{Exec, ◌>>=◌, ◌>>◌, pure, raise, lift, attempt, map_err, finally}
use forkspacer.Api.Meta.{ObjectKey}
use forkspacer.Api.Module.{
  ModuleSpecHelm, ModuleSpecHelmChart, ModuleSpecHelmChartRepo, ModuleSpecHelmChartRepoAuth,
  ModuleSpecHelmChartConfigMap, ModuleSpecHelmChartGit, ModuleSpecHelmChartGitAuth,
  ModuleSpecHelmChartGitAuthSecret, ModuleSpecHelmOutput, ModuleSpecHelmOutputValueFrom,
  ModuleSpecHelmOutputValueFromSecret, get_namespace,
}
use forkspacer.Helm.Service.{
  HelmRun, Sdk, calling, step, note, temp_made, temp_removed, uninstall_release, get_secret_value,
}
use forkspacer.Helm.Charts.{install_from_repository, install_from_local}

-- U is the type of parsed URLs, O that of the values of outputs, M that of the values in the
-- metadata.
pub record Host (W U O M : Type 0) : Type 0 where
  pub get_secret : ObjectKey → W → Result (Assoc String) × W
  pub get_binary_data : ObjectKey → W → Result (Assoc String) × W
  pub create_temp : W → Result String × W
  pub write : String → String → W → Result (Unit {0}) × W
  pub close : String → W → Result (Unit {0}) × W
  pub remove : String → W → Result (Unit {0}) × W
  pub mkdir_temp : W → Result String × W
  pub remove_all : String → W → Result (Unit {0}) × W
  pub join : String → String → String
  pub parse_url : String → Result U
  pub with_user : String → U → U
  pub with_user_password : String → String → U → U
  pub git_clone : String → U → String → W → Result (Unit {0}) × W
  pub unmarshal : String → Result O
  pub text_value : String → O
  pub outputs_value : Assoc O → M

abbrev install_outputs : String
install_outputs = "installOutputs"

abbrev or_empty : Option String → String
or_empty none = ""
or_empty (some text) = text

-- the value of a key that must be there
abbrev required : {S : Type 0} → Option String → Exec S String
required (some value) = pure value
required none = raise (errorf "secret or ConfigMap does not contain the key")

module _ {W C V U O M : Type 0} (sdk : Sdk W C V) (host : Host W U O M) where
  abbrev credentials_in : Assoc String → Exec (HelmRun W) (String × String)
  credentials_in pairs = required (lookup "password" pairs) >>= λ password.
      pure (or_empty (lookup "username" pairs), password)

  pub fetch_repo_auth_credentials : ModuleSpecHelmChartRepoAuth → Exec (HelmRun W) (String × String)
  fetch_repo_auth_credentials auth =
      step sdk "failed to fetch repository auth secret"
        (host.get_secret (record { key_namespace = auth.namespace; key_name = auth.name }))
      >>= credentials_in

  abbrev credentials : Option ModuleSpecHelmChartRepoAuth → Exec (HelmRun W) (String × String)
  credentials none = pure ("", "")
  credentials (some auth) = fetch_repo_auth_credentials auth

  abbrev install_repo :
      ModuleSpecHelm → String → ModuleSpecHelmChartRepo → Exec (HelmRun W) (Unit {0})
  install_repo h release repo = credentials repo.auth >>= λ user.
      install_from_repository sdk repo.chart release (get_namespace h) repo.url repo.version true
        h.values user.0 user.1

  -- after writing, the file is closed
  abbrev written : String → Result (Unit {0}) → Exec (HelmRun W) (Unit {0})
  written path (ok _) = step sdk "failed to close temporary file" (host.close path)
  written path (err e) = attempt (calling sdk (host.close path)) >>= λ _.
      raise (wrap_w "failed to write chart data to temporary file" e)

  -- what is done with the temporary file
  abbrev install_file : ModuleSpecHelm → String → String → String → Exec (HelmRun W) (Unit {0})
  install_file h release bytes path =
      attempt (calling sdk (host.write path bytes)) >>= written path >>= λ _.
      install_from_local sdk path release (get_namespace h) true h.values

  abbrev removing : String → Exec (HelmRun W) (Unit {0})
  removing path = note sdk (temp_removed path) >> calling sdk (host.remove path)

  -- use a temporary path that was made, and remove it
  abbrev in_temp :
      (String → Exec (HelmRun W) (Unit {0}))
      → (String → Exec (HelmRun W) (Unit {0}))
      → String
      → Exec (HelmRun W) (Unit {0})
  in_temp use_path remove_path path =
      note sdk (temp_made path) >> finally (use_path path) (remove_path path)

  abbrev install_archive : ModuleSpecHelm → String → String → Exec (HelmRun W) (Unit {0})
  install_archive h release bytes =
      step sdk "failed to create temporary file for Helm chart" host.create_temp
      >>= in_temp (install_file h release bytes) removing

  abbrev install_data :
      ModuleSpecHelm → String → String → Assoc String → Exec (HelmRun W) (Unit {0})
  install_data h release key pairs = required (lookup key pairs) >>= install_archive h release

  abbrev install_config_map :
      ModuleSpecHelm → String → ModuleSpecHelmChartConfigMap → Exec (HelmRun W) (Unit {0})
  install_config_map h release r =
      step sdk "failed to fetch ConfigMap"
        (host.get_binary_data (record { key_namespace = r.namespace; key_name = r.name }))
      >>= install_data h release r.key

  abbrev with_token : U → Assoc String → Exec (HelmRun W) U
  with_token url pairs = required (lookup "token" pairs) >>= λ token.
      let username = or_empty (lookup "username" pairs) in
      pure (
        if username == ""
        then host.with_user token url
        else host.with_user_password username token url)

  abbrev authenticated_by : U → Option ModuleSpecHelmChartGitAuthSecret → Exec (HelmRun W) U
  authenticated_by url none = raise (errorf "unsupported Git chart authentication type provided")
  authenticated_by url (some r) =
      step sdk "failed to fetch secret"
        (host.get_secret (record { key_namespace = r.namespace; key_name = r.name }))
      >>= with_token url

  abbrev authenticated : U → Option ModuleSpecHelmChartGitAuth → Exec (HelmRun W) U
  authenticated url none = pure url
  authenticated url (some auth) = authenticated_by url auth.https_secret_ref

  -- what is done with the temporary directory
  abbrev install_clone :
      ModuleSpecHelm → String → ModuleSpecHelmChartGit → U → String → Exec (HelmRun W) (Unit {0})
  install_clone h release git url dir =
      step sdk "git clone failed" (host.git_clone git.revision url dir) >>= λ _.
      install_from_local sdk (host.join dir git.path) release (get_namespace h) true h.values

  abbrev removing_all : String → Exec (HelmRun W) (Unit {0})
  removing_all dir = note sdk (temp_removed dir) >> calling sdk (host.remove_all dir)

  abbrev install_at :
      ModuleSpecHelm → String → ModuleSpecHelmChartGit → U → Exec (HelmRun W) (Unit {0})
  install_at h release git url =
      calling sdk host.mkdir_temp >>= in_temp (install_clone h release git url) removing_all

  abbrev install_from :
      ModuleSpecHelm → String → ModuleSpecHelmChartGit → U → Exec (HelmRun W) (Unit {0})
  install_from h release git url = authenticated url git.auth >>= install_at h release git

  abbrev install_git :
      ModuleSpecHelm → String → ModuleSpecHelmChartGit → Exec (HelmRun W) (Unit {0})
  install_git h release git = lift (host.parse_url git.repo) >>= install_from h release git

  -- the `if` on the source of the chart
  pub install_chart :
      ModuleSpecHelm
      → String
      → Option ModuleSpecHelmChartRepo
      → Option ModuleSpecHelmChartConfigMap
      → Option ModuleSpecHelmChartGit
      → Exec (HelmRun W) (Unit {0})
  install_chart h release (some repo) config_map git = install_repo h release repo
  install_chart h release none (some r) git = install_config_map h release r
  install_chart h release none none (some git) = install_git h release git
  install_chart h release none none none = raise (errorf "no Helm chart source specified")

  abbrev set_output : String → Result O → Assoc O → Assoc O
  set_output name (ok value) outputs = insert name value outputs
  set_output name (err _) outputs = outputs

  abbrev secret_output :
      String → Option ModuleSpecHelmOutputValueFromSecret → Assoc O → Exec (HelmRun W) (Assoc O)
  secret_output name none outputs = pure outputs
  secret_output name (some r) outputs =
      if not (r.name == "") && not (r.key == "")
      then (attempt (get_secret_value sdk r.namespace r.name r.key) >>= λ read.
          pure (elim read [
            | ok value ↦ insert name (host.text_value value) outputs
            | err e ↦ outputs
          ]))
      else pure outputs

  abbrev output :
      String
      → Option String
      → Option ModuleSpecHelmOutputValueFrom
      → Assoc O
      → Exec (HelmRun W) (Assoc O)
  output name (some text) from outputs = pure (set_output name (host.unmarshal text) outputs)
  output name none none outputs = pure outputs
  output name none (some from) outputs = secret_output name from.secret outputs

  -- the loop of extractOutputs
  pub extract_outputs : List ModuleSpecHelmOutput → Assoc O → Exec (HelmRun W) (Assoc O)
  extract_outputs [] outputs = pure outputs
  extract_outputs (x ∷ xs) outputs =
      output x.name x.value x.value_from outputs >>= extract_outputs xs

  abbrev save_outputs : Assoc M → Assoc O → Assoc M
  save_outputs meta_data [] = meta_data
  save_outputs meta_data (o ∷ os) = insert install_outputs (host.outputs_value (o ∷ os)) meta_data

  pub install : ModuleSpecHelm → String → Assoc M → Exec (HelmRun W) (Assoc M)
  unfolding install_chart extract_outputs
  install h release meta_data =
      install_chart h release h.chart.repo h.chart.config_map h.chart.git >>= λ _.
      extract_outputs h.outputs [] >>= λ outputs. pure (save_outputs meta_data outputs)

  pub uninstall : ModuleSpecHelm → String → Exec (HelmRun W) (Unit {0})
  uninstall h release =
      uninstall_release sdk release (get_namespace h) h.cleanup.remove_namespace
        h.cleanup.remove_pvcs
