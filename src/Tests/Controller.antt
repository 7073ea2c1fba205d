-- ===== src/Tests/Controller.antt =====
-- Reconciliations in a small cluster that lives in memory.
use forkspacer.Base.{◌⊎◌, false, ℕ, String, ◌≡◌, refl, true, none, some, [], ◌∷◌, arith}
use forkspacer.Go.{Result, ok}
use forkspacer.Api.Meta.{ObjectKey}
use forkspacer.Api.Workspace.{Workspace}
use forkspacer.Api.Module
use forkspacer.Api.Module.{Module, ModulePhase}
use forkspacer.Controller.Retry.{retry_times, retry_times-Attempts}
use forkspacer.Controller.Module.{
  set_phase, install, status_written, object_written, annotated, called, Sys, Client, ClientLaws,
}
use forkspacer.Controller.Module.Operations.{install_module}
use forkspacer.Controller.Module.Operations.Stalled.{Stalled}
use forkspacer.Controller.Module.Reconcile.NotReady.{Postponed, reconcile_module-stalled}
use forkspacer.Controller.Module.LifeCycle.{IsLifeCycle}
use forkspacer.Controller.Module.Reconcile.{reconcile_module}
use forkspacer.Controller.Module.Reconcile.{is_settled}
use forkspacer.Controller.Module.Reconcile.Deletion.{Deleted, reconcile_module-deletion}
use forkspacer.Controller.Module.Reconcile.Cycle.{reconcile_module-IsLifeCycle}
use forkspacer.Controller.Module.Reconcile.Waiting.{Waits, reconcile_module-transitional}
use forkspacer.Tests.Data.{dev, redis_with, replicas}

-- The one module, the one workspace and the time.
pub record Cluster : Type 0 where
  pub module_object : Module
  pub workspace_object : Workspace
  pub time : ℕ

abbrev stored : Module → Cluster → Result Module × Cluster
stored m w = (ok m, record w { module_object = m })

-- The managers do nothing and succeed.
abbrev client : Client Cluster String (Unit {0})
client = record {
  get_module = λ key w. (ok w.module_object, w);
  get_workspace = λ key w. (ok w.workspace_object, w);
  update_module = stored;
  update_status = stored;
  patch_module = λ old new. stored new;
  now = λ w. (w.time, w);
  retry = retry_times 4;
  parse_meta = λ s. s;
  print_meta = λ s. s;
  empty_meta = "{}";
  is_config = λ s. true;
  helm_manager = λ m conn w. (ok tt, w);
  custom_manager = λ m conn config d w. (ok (tt, d), w);
  manager_call = λ k manager d w. ((ok tt, d), w);
  get_release = λ ref conn w. (ok (record { chart_values = none; config = none }), w);
}

stored-status :
    (m : Module) (w : Cluster) (m' : Module) (w' : Cluster)
    → stored m w ≡ (ok m', w')
    → m'.status ≡ m.status
stored-status m w m' w' h = ground arith

client_laws : ClientLaws client
client_laws = record { retries = retry_times-Attempts 4; status_kept = stored-status }

abbrev key : ObjectKey
key = record { key_namespace = "default"; key_name = "redis" }

abbrev cluster : Module → Sys Cluster
cluster m = record {
  world = record { module_object = m; workspace_object = dev; time = 900000000000 };
  trace = [];
}

abbrev new_redis : Module
new_redis = redis_with (replicas ∷ []) "{replicas: 3}" Module.unset none

-- a new module is installed in one reconciliation
installs_redis :
    ((reconcile_module client key new_redis (cluster new_redis)).1).trace
    ≡ status_written Module.ready
      ∷ annotated
      ∷ called install
      ∷ annotated
      ∷ status_written Module.installing
      ∷ object_written ("delete" ∷ [])
      ∷ []
unfolding reconcile_module retry_times set_phase install_module
installs_redis = refl

reconcile_module-IsLifeCycle_example :
    IsLifeCycle Module.unset ((reconcile_module client key new_redis (cluster new_redis)).1).trace
reconcile_module-IsLifeCycle_example =
    reconcile_module-IsLifeCycle client client_laws key new_redis (cluster new_redis) refl

abbrev resuming_redis : Module
resuming_redis = redis_with (replicas ∷ []) "{replicas: 3}" Module.resuming (some 500000000000)

reconcile_module-transitional_example :
    Waits client client_laws key 500000000000
      (cluster resuming_redis)
      (reconcile_module client key resuming_redis (cluster resuming_redis))
reconcile_module-transitional_example =
    reconcile_module-transitional client client_laws key resuming_redis (cluster resuming_redis)
      500000000000 refl refl refl

abbrev dying_redis : Module
dying_redis = record (redis_with (replicas ∷ []) "{replicas: 3}" Module.sleeped none) {
  metadata = record new_redis.metadata {
    finalizers = "delete" ∷ [];
    deletion_timestamp = some 800000000000;
  };
}

reconcile_module-deletion_example :
    ((is_settled dying_redis.status.phase ≡ true)
      × Deleted client client_laws key
          (cluster dying_redis)
          (reconcile_module client key dying_redis (cluster dying_redis)))
    ⊎ ((is_settled dying_redis.status.phase ≡ false)
        × (reconcile_module client key dying_redis (cluster dying_redis)
            ≡ (ok 2, cluster dying_redis)))
reconcile_module-deletion_example =
    reconcile_module-deletion client client_laws key dying_redis (cluster dying_redis) 800000000000
      refl

abbrev starting : Workspace
starting = record dev { status = record dev.status { ready = false } }

abbrev early_client : Client Cluster String (Unit {0})
early_client = record client { get_workspace = λ key w. (ok starting, w) }

early_client_laws : ClientLaws early_client
early_client_laws = record { retries = retry_times-Attempts 4; status_kept = stored-status }

early_client-Stalled : Stalled early_client
early_client-Stalled _ w = (starting, w, refl, refl)

reconcile_module-stalled_example :
    Postponed [] (reconcile_module early_client key new_redis (cluster new_redis))
reconcile_module-stalled_example =
    reconcile_module-stalled early_client early_client_laws key early_client-Stalled new_redis
      (cluster new_redis) refl refl
