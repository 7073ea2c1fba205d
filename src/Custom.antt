-- ===== src/Custom.antt =====
-- pkg/manager/custom.go: the manager of custom modules, which runs the image of a module in a pod
-- of its own and asks it over HTTP to install, uninstall, sleep and resume. The controller's
-- client, the clock, HTTP and the encodings are a parameter. The state is the world that they act
-- on, the map of metadata that the manager changes, and a trace of what was asked.
pub mod Runner
pub mod Calls
use forkspacer.Base.{ℕ, String, Bool, Option, none, some, List, [], ◌∷◌, Assoc, lookup, insert}
use forkspacer.Go.{Result, ok, err}
use forkspacer.Exec.{Exec, ◌>>=◌, ◌>>◌, pure}
use forkspacer.Api.Module.{CustomModulePermissionType}

-- corev1.PodPhase: `unset` is the empty string, `unexpected` any other text.
pub data PodPhase : Type 0 where
  unset pending running succeeded failed : PodPhase
  unexpected : String → PodPhase

-- Of the status of a pod: its phase, and for each container why it waits, if it does.
pub record PodStatus : Type 0 where
  pub phase : PodPhase
  pub container_statuses : List (Option String)

-- what of a pod depends on the module
pub record RunnerPod : Type 0 where
  pub label : String
  pub image_pull_secrets : List String
  pub image : String
  pub secret_name : String
  pub service_account_name : Option String

pub data Resource : Type 0 where
  runner_secret runner_pod runner_service : Resource

-- A resource created, with the name that it was given; its deletion sent; a request to the service
-- of a runner at an endpoint.
pub data CustomEffect : Type 0 where
  created deletion_sent : Resource → String → CustomEffect
  posted : String → String → CustomEffect

-- `trace` holds the newest effect first; M is the type of the values in the metadata.
pub record CustomRun (W M : Type 0) : Type 0 where
  pub world : W
  pub meta_data : Assoc M
  pub trace : List CustomEffect

pub record Response : Type 0 where
  pub status_code : ℕ
  pub body : Result String

-- C is the type of kubeconfigs, G that of the configuration of a module. The deletion of an object
-- without a name has the empty name. `select` waits for the tick of a second or for the timeout,
-- and says whether it is the timeout. `encode_inner` is the JSON of a value decoded into a map.
pub record Host (W M C G : Type 0) : Type 0 where
  pub create_secret : Assoc String → W → Result String × W
  pub create_pod : RunnerPod → W → Result String × W
  pub create_service : String → W → Result String × W
  pub get_pod : String → W → Result PodStatus × W
  pub get : Resource → String → W → Result (Unit {0}) × W
  pub delete : Resource → String → W → Result (Unit {0}) × W
  pub list_endpoints : String → W → Result (List (List (Option Bool))) × W
  pub select : W → Bool × W
  pub sleep : ℕ → W → Unit {0} × W
  pub now : W → String × W
  pub post : String → String → String → W → Result Response × W
  pub marshal : G → Result String
  pub write_kubeconfig : C → Result String
  pub decode : M → Option String
  pub text_value : String → M
  pub encode_inner : Option M → Result String
  pub unmarshal : String → Result (Assoc M)
  pub map_value : Assoc M → M

-- the keys of the metadata
abbrev pub runner_pod_name : String
runner_pod_name = "runnerPodName"

abbrev pub runner_pod_unique_label : String
runner_pod_unique_label = "runnerPodUniqueLabel"

abbrev pub runner_service_name : String
runner_service_name = "runnerServiceName"

abbrev pub inner_meta_data : String
inner_meta_data = "innerMetaData"

abbrev pub or_empty : Option String → String
or_empty none = ""
or_empty (some text) = text

module _ {W M C G : Type 0} (host : Host W M C G) where
  abbrev pub calling : {A : Type 0} → (W → Result A × W) → Exec (CustomRun W M) A
  calling f s = let (r, w) = f s.world in (r, record s { world = w })

  abbrev pub watching : {A : Type 0} → (W → A × W) → Exec (CustomRun W M) A
  watching f s = let (a, w) = f s.world in (ok a, record s { world = w })

  abbrev pub note : CustomEffect → Exec (CustomRun W M) (Unit {0})
  note e s = (ok tt, record s { trace = e ∷ s.trace })

  abbrev pub create : Resource → (W → Result String × W) → Exec (CustomRun W M) String
  create kind f = calling f >>= λ name. note (created kind name) >> pure name

  abbrev pub delete : Resource → String → Exec (CustomRun W M) (Unit {0})
  delete kind name = note (deletion_sent kind name) >> calling (host.delete kind name)

  abbrev pub decoded : Option M → String
  decoded none = ""
  decoded (some value) = or_empty (host.decode value)

  -- DecodeToString of the metadata
  abbrev pub decode_to_string : String → Assoc M → String
  decode_to_string key meta_data = decoded (lookup key meta_data)

  abbrev pub meta : Exec (CustomRun W M) (Assoc M)
  meta s = (ok s.meta_data, s)

  abbrev pub store : String → M → Exec (CustomRun W M) (Unit {0})
  store key value s = (ok tt, record s { meta_data = insert key value s.meta_data })
