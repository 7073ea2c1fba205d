-- ===== src/Tests/Webhook.antt =====
-- The webhooks on concrete workspaces and modules.
use Prim.Native.String.{count}
use forkspacer.Base.{◌+◌, ◌≤◌, String, ◌≡◌, ◌↔◌, true, none, [], ◌∷◌, ◌==◌, if◌then◌else◌, arith}
use forkspacer.Go.{Error, ok, err, not_found}
use forkspacer.Api.Workspace.{Workspace}
use forkspacer.Api.Module
use forkspacer.Api.Module.{Module, ModuleSpecHelm, get_release_name}
use forkspacer.Api.Config.{get_validated_config}
use forkspacer.Webhook.Field.{none_found}
use forkspacer.Webhook.Workspace as WorkspaceHook
use forkspacer.Webhook.Module as ModuleHook
use forkspacer.Webhook.Workspace.{Reader, default_workspace}
use forkspacer.Webhook.Workspace.Laws.{
  ScheduleSpec, ConnectionSpec, FromSpec, workspace_create_iff, workspace_update_iff,
}
use forkspacer.Webhook.Module.{default_module, generated_name}
use forkspacer.Webhook.Module.Laws.{
  OneSource, Succeeds, KeepsHelm, KeepsCustom, module_create_iff, module_update_iff,
}
use forkspacer.Webhook.Module.Names.{count-generated_name, plain_count}
use forkspacer.Tests.Data.{codec, replicas, redis_with, dev, dev_kubeconfig}

abbrev gone : Error
gone = record { class = not_found; text = "not found" }

-- no secret is left; every schedule parses
abbrev reader : Reader
reader = record {
  get_workspace = λ key. if key.key_name == "dev" then ok dev else err gone;
  get_secret = λ key. err gone;
  parse_cron = λ s. none;
  load_kubeconfig = λ s. none;
}

abbrev redis : Module
redis = redis_with (replicas ∷ []) "{replicas: 3}" Module.unset none

workspace_create_iff_example : (none_found (WorkspaceHook.validate_create reader dev) ≡ true) ↔ (
    ScheduleSpec reader dev.spec.auto_hibernation
    × ConnectionSpec reader dev.spec
    × FromSpec reader dev.spec.from)
workspace_create_iff_example = workspace_create_iff reader dev

workspace_update_iff_example :
    (none_found (WorkspaceHook.validate_update reader dev dev_kubeconfig) ≡ true) ↔ (
      ((dev.spec.type ≡ dev_kubeconfig.spec.type)
        × (dev.spec.from ≡ dev_kubeconfig.spec.from)
        × (dev.spec.connection ≡ dev_kubeconfig.spec.connection))
      × ScheduleSpec reader dev_kubeconfig.spec.auto_hibernation
      × ConnectionSpec reader dev_kubeconfig.spec)
workspace_update_iff_example = workspace_update_iff reader dev dev_kubeconfig

module_create_iff_example :
    (none_found (ModuleHook.validate_create codec (λ key. ok dev) redis) ≡ true) ↔ (
      Succeeds {A = Workspace} (ok dev)
      × OneSource redis.spec.helm
      × Succeeds (get_validated_config codec redis))
module_create_iff_example = module_create_iff codec (λ key. ok dev) redis

module_update_iff_example :
    (none_found (ModuleHook.validate_update redis (default_module "1-2" redis)) ≡ true) ↔ (
      (redis.spec.workspace ≡ (default_module "1-2" redis).spec.workspace)
      × (redis.spec.config ≡ (default_module "1-2" redis).spec.config)
      × KeepsHelm redis.spec.helm (default_module "1-2" redis).spec.helm
      × KeepsCustom redis.spec.custom (default_module "1-2" redis).spec.custom)
module_update_iff_example = module_update_iff redis (default_module "1-2" redis)

abbrev uuid : String
uuid = "123e4567-e89b-12d3-a456-426614174000"

enough : 11 ≤ plain_count uuid
unfolding plain_count
enough = omega arith

count-generated_name_example : count (generated_name "default" uuid) ≡ count "default" + 12
count-generated_name_example = count-generated_name "default" uuid enough
