-- ===== src/Custom/Runner.antt =====
-- pkg/manager/custom.go: NewModuleCustomManager with what creates the pod and the service of
-- a runner, and waits for them.
-- The waits run on fuel, one unit for each poll, and answer whether they ended; with `ok false`, or
-- `ok none`, they are still waiting, and nothing that follows them has run.
pub mod Cleaned
pub mod Polls
pub mod Frugal
pub mod Named
pub mod Again
use forkspacer.Base.{
  ℕ, zero, suc, ◌+◌, String, Bool, true, false, ◌||◌, Option, none, some, List, [], ◌∷◌, Assoc,
  insert, leb, ◌==◌, if◌then◌else◌,
}
use forkspacer.Go.{Error, Result, ok, err, errorf, wrap_w, concat}
use forkspacer.Exec.{Exec, ◌>>=◌, ◌>>◌, pure, raise, lift, attempt, map_err}
use forkspacer.Api.Module.{
  ModuleSpecCustom, CustomModulePermissionType, workspace, controller, other_permission,
}
use forkspacer.Custom
use forkspacer.Custom.{
  PodStatus, PodPhase, RunnerPod, Resource, runner_secret, runner_pod, runner_service, CustomRun,
  Host, runner_pod_name, runner_pod_unique_label, runner_service_name, calling, watching, create,
  delete, decode_to_string, meta, store,
}

abbrev is_controller : CustomModulePermissionType → Bool
is_controller controller = true
is_controller workspace = false
is_controller (other_permission _) = false

abbrev has_controller : List CustomModulePermissionType → Bool
has_controller [] = false
has_controller (p ∷ ps) = is_controller p || has_controller ps

unfoldable pub build_runner_pod : ModuleSpecCustom → String → String → RunnerPod
build_runner_pod custom secret_name pod_label = record {
  label = pod_label;
  image_pull_secrets = custom.image_pull_secrets;
  image = custom.image;
  secret_name = secret_name;
  service_account_name =
      if has_controller custom.permissions then some "forkspacer-controller-manager" else none;
}

abbrev is_pull_error : Option String → Bool
is_pull_error none = false
is_pull_error (some reason) = reason == "ImagePullBackOff" || reason == "ErrImagePull"

-- whether the first container waits for an image that cannot be pulled
abbrev pull_errors : List (Option String) → ℕ
pull_errors [] = 0
pull_errors (status ∷ _) = if is_pull_error status then 1 else 0

abbrev any_ready : List (Option Bool) → Bool
any_ready [] = false
any_ready (none ∷ endpoints) = any_ready endpoints
any_ready (some ready ∷ endpoints) = ready || any_ready endpoints

abbrev any_slice_ready : List (List (Option Bool)) → Bool
any_slice_ready [] = false
any_slice_ready (slice ∷ slices) = any_ready slice || any_slice_ready slices

module _ {W M C G : Type 0} (host : Host W M C G) where
  -- the loop over the permissions
  secret_files : C → List CustomModulePermissionType → Assoc String → Result (Assoc String)
  secret_files api_config [] files = ok files
  secret_files api_config (workspace ∷ ps) files = elim (host.write_kubeconfig api_config) [
    | ok text ↦ secret_files api_config ps (insert "workspace_kubeconfig" text files)
    | err e ↦ err (wrap_w "failed to write workspace kubeconfig" e)
  ]
  secret_files api_config (controller ∷ ps) files = secret_files api_config ps files
  secret_files api_config (other_permission p ∷ ps) files =
      err (errorf (concat ("unsupported custom module permission: " ∷ p ∷ [])))

  pub create_runner_secret : C → ModuleSpecCustom → G → Exec (CustomRun W M) String
  unfolding secret_files
  create_runner_secret api_config custom config =
      map_err (wrap_w "failed to marshal custom module configuration") (lift (host.marshal config))
      >>= λ json.
          lift (secret_files api_config custom.permissions (("config.json", json) ∷ []))
          >>= λ files.
              map_err (wrap_w "failed to create custom module secret")
                (create host runner_secret (host.create_secret files))

  abbrev pod_pending : ℕ → (ℕ → Exec (CustomRun W M) Bool) → Exec (CustomRun W M) Bool
  pod_pending errors more =
      if leb 3 errors
      then raise (errorf "failed to pull image for custom module runner pod")
      else (watching host (host.sleep 2) >> more errors)

  abbrev pod_seen :
      ℕ
      → List (Option String)
      → (ℕ → Exec (CustomRun W M) Bool)
      → PodPhase
      → Exec (CustomRun W M) Bool
  pod_seen errors statuses more Custom.running = pure true
  pod_seen errors statuses more Custom.unset = pod_pending (errors + pull_errors statuses) more
  pod_seen errors statuses more Custom.pending = pod_pending (errors + pull_errors statuses) more
  pod_seen errors statuses more Custom.succeeded =
      raise (errorf "custom module runner pod succeeded unexpectedly: pod phase Succeeded")
  pod_seen errors statuses more Custom.failed =
      raise (errorf "custom module runner pod failed: pod phase Failed")
  pod_seen errors statuses more (Custom.unexpected p) =
      raise (errorf (concat ("custom module runner pod entered an unexpected phase: " ∷ p ∷ [])))

  -- with the number of times that the image could not be pulled
  pub wait_for_pod_running : ℕ → ℕ → String → Exec (CustomRun W M) Bool
  wait_for_pod_running zero errors name = pure false
  wait_for_pod_running (suc fuel) errors name =
      let more = λ (n : ℕ). wait_for_pod_running fuel n name in
      calling host (host.get_pod name) >>= λ pod.
      pod_seen errors pod.container_statuses more pod.phase

  abbrev pod_waited :
      String → String → Result Bool → Exec (CustomRun W M) (Option (String × String))
  pod_waited name label (ok true) = pure (some (name, label))
  pod_waited name label (ok false) = pure none
  pod_waited name label (err e) = attempt (delete host runner_pod name) >>= λ _. raise e

  pub start_runner_pod :
      ℕ → ModuleSpecCustom → String → Exec (CustomRun W M) (Option (String × String))
  unfolding wait_for_pod_running
  start_runner_pod fuel custom secret = watching host host.now >>= λ time.
      let label = concat ("custom-manager-runner-" ∷ time ∷ []) in
      create host runner_pod (host.create_pod (build_runner_pod custom secret label)) >>= λ name.
      attempt (wait_for_pod_running fuel 0 name) >>= pod_waited name label

  -- the deferred deletion, unless the wait has not ended
  abbrev deferred : {A : Type 0} → String → Result (Option A) → Exec (CustomRun W M) (Option A)
  deferred secret (ok none) s = (ok none, s)
  deferred secret (ok (some a)) s = (ok (some a), (delete host runner_secret secret s).1)
  deferred secret (err e) s = (err e, (delete host runner_secret secret s).1)

  pub create_runner_pod :
      ℕ → C → ModuleSpecCustom → G → Exec (CustomRun W M) (Option (String × String))
  unfolding create_runner_secret start_runner_pod
  create_runner_pod fuel api_config custom config =
      create_runner_secret api_config custom config >>= λ secret.
      (λ s. let (r, t) = start_runner_pod fuel custom secret s in deferred secret r t)

  pub create_runner_service : String → Exec (CustomRun W M) String
  create_runner_service label = create host runner_service (host.create_service label)

  pub is_service_ready : String → Exec (CustomRun W M) Bool
  is_service_ready service =
      map_err (wrap_w "failed to list endpointslices") (calling host (host.list_endpoints service))
      >>= λ slices. pure (any_slice_ready slices)

  abbrev delete_if : Resource → String → Result (Unit {0}) → Exec (CustomRun W M) (Unit {0})
  delete_if kind name (ok _) = attempt (delete host kind name) >>= λ _. pure tt
  delete_if kind name (err e) = pure tt

  abbrev delete_if_read : Resource → String → Exec (CustomRun W M) (Unit {0})
  delete_if_read kind name = attempt (calling host (host.get kind name)) >>= delete_if kind name

  pub cleanup_resources_on_timeout : String → String → Exec (CustomRun W M) Bool
  cleanup_resources_on_timeout service pod =
      delete_if_read runner_service service
      >> (if pod == "" then pure tt else delete_if_read runner_pod pod)
      >> raise
          (errorf (concat ("service " ∷ service ∷ " did not become ready within 30 seconds" ∷ [])))

  pub wait_for_service_ready : ℕ → String → String → Exec (CustomRun W M) Bool
  unfolding is_service_ready cleanup_resources_on_timeout
  wait_for_service_ready zero service pod = pure false
  wait_for_service_ready (suc fuel) service pod =
      let more = wait_for_service_ready fuel service pod in
      watching host host.select >>= λ timed_out.
      if timed_out
      then cleanup_resources_on_timeout service pod
      else (map_err (wrap_w "failed to check service readiness") (is_service_ready service)
          >>= λ ready. if ready then pure true else more)

  abbrev store_pod : Option (String × String) → Exec (CustomRun W M) (Option (String × String))
  store_pod none = pure none
  store_pod (some names) =
      store host runner_pod_name (host.text_value names.0)
      >> store host runner_pod_unique_label (host.text_value names.1)
      >> pure (some names)

  pub ensure_pod : ℕ → C → ModuleSpecCustom → G → Exec (CustomRun W M) (Option (String × String))
  unfolding create_runner_pod
  ensure_pod fuel api_config custom config = meta host >>= λ meta_data.
      let name = decode_to_string host runner_pod_name meta_data in
      let label = decode_to_string host runner_pod_unique_label meta_data in
      if name == ""
      then (create_runner_pod fuel api_config custom config >>= store_pod)
      else pure (some (name, label))

  pub ensure_service : String → Exec (CustomRun W M) String
  unfolding create_runner_service
  ensure_service label = meta host >>= λ meta_data.
      let name = decode_to_string host runner_service_name meta_data in
      if name == ""
      then (create_runner_service label >>= λ service.
          store host runner_service_name (host.text_value service) >> pure service)
      else pure name

  abbrev with_pod : ℕ → Option (String × String) → Exec (CustomRun W M) Bool
  unfolding ensure_service wait_for_service_ready
  with_pod fuel none = pure false
  with_pod fuel (some names) =
      ensure_service names.1 >>= λ service. wait_for_service_ready fuel service names.0

  unfoldable pub new_module_custom_manager :
      ℕ → C → ModuleSpecCustom → G → Exec (CustomRun W M) Bool
  unfolding ensure_pod ensure_service wait_for_service_ready
  new_module_custom_manager fuel api_config custom config =
      ensure_pod fuel api_config custom config >>= with_pod fuel
