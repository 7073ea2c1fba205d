-- ===== src/Tests/Custom.antt =====
-- A runner in a cluster that lives in memory, which is ready after some polls.
use forkspacer.Base.{
  ℕ, suc, ◌+◌, String, true, false, ◌≡◌, refl, none, some, [], ◌∷◌, lookup, insert,
}
use forkspacer.Go.{ok}
use forkspacer.Api.Module.{ModuleSpecCustom, workspace, controller}
use forkspacer.Custom
use forkspacer.Custom.{PodStatus, RunnerPod, CustomRun, Host}
use forkspacer.Custom.Calls.{ask}
use forkspacer.Custom.Calls.Asked.{Asked, ask-Asked}
use forkspacer.Custom.Runner.{create_runner_pod, new_module_custom_manager}
use forkspacer.Custom.Runner.Cleaned.{Cleaned, create_runner_pod-Cleaned}
use forkspacer.Custom.Runner.Frugal.{kept}
use forkspacer.Custom.Runner.Named.{HostLaws}
use forkspacer.Custom.Runner.Again.{new_module_custom_manager-again}

abbrev running : PodStatus
running = record { phase = Custom.running; container_statuses = none ∷ [] }

-- The world counts the seconds.
abbrev host : Host ℕ String String String
host = record {
  create_secret = λ files w. (ok "secret-1", w);
  create_pod = λ pod w. (ok "pod-1", w);
  create_service = λ label w. (ok "service-1", w);
  get_pod = λ name w. (ok running, w);
  get = λ kind name w. (ok tt, w);
  delete = λ kind name w. (ok tt, w);
  list_endpoints = λ service w. (ok ((some true ∷ []) ∷ []), w);
  select = λ w. (false, suc w);
  sleep = λ seconds w. (tt, w + seconds);
  now = λ w. ("20260101000000", w);
  post = λ service endpoint json w.
      (ok (record { status_code = 201; body = ok "{release: demo}" }), suc w);
  marshal = λ config. ok config;
  write_kubeconfig = λ kubeconfig. ok kubeconfig;
  decode = λ value. some value;
  text_value = λ text. text;
  encode_inner = λ value. ok "{}";
  unmarshal = λ body. ok (("release", "demo") ∷ []);
  map_value = λ response. "{release: demo}";
}

host_laws : HostLaws host
host_laws = record {
  decoded_text = λ text. refl;
  pod_named = λ pod w v name p empty. cc;
  service_named = λ label w v name p empty. cc;
}

abbrev demo : ModuleSpecCustom
demo = record {
  image = "demo:1";
  image_pull_secrets = [];
  permissions = workspace ∷ controller ∷ [];
}

abbrev start : CustomRun ℕ String
start = record { world = 0; meta_data = []; trace = [] }

abbrev installed : CustomRun ℕ String
installed = record start { meta_data = ("runnerServiceName", "service-1") ∷ [] }

create_runner_pod-Cleaned_example :
    Cleaned host []
      (create_runner_pod host 1 "kubeconfig" demo "{}" start).0
      (create_runner_pod host 1 "kubeconfig" demo "{}" start).1.trace
create_runner_pod-Cleaned_example = create_runner_pod-Cleaned host 1 "kubeconfig" demo "{}" start

ask-Asked_example : Asked host "install" installed (ask host "install" 201 installed)
ask-Asked_example = ask-Asked host "install" 201 installed

abbrev made : CustomRun ℕ String
made = (new_module_custom_manager host 1 "kubeconfig" demo "{}" start).1

made_well : new_module_custom_manager host 1 "kubeconfig" demo "{}" start ≡ (ok true, made)
unfolding new_module_custom_manager lookup insert
made_well = refl

new_module_custom_manager-again_example :
    kept host (new_module_custom_manager host 1 "kubeconfig" demo "{}" made).1 ≡ kept host made
new_module_custom_manager-again_example =
    new_module_custom_manager-again host host_laws 1 1 "kubeconfig" "kubeconfig" demo demo "{}" "{}"
      start made made_well
