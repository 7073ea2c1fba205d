-- ===== src/Tests/Workspace.antt =====
-- Hibernation and cron schedules of a workspace in a small cluster that lives in memory.
use forkspacer.Base.{ℕ, ◌+◌, ◌≡◌, ◌⊎◌, ◌↔◌, refl, true, false, not, none, some, [], ◌∷◌, lookup}
use forkspacer.Go.{ok}
use forkspacer.Api.Meta.{ObjectKey}
use forkspacer.Api.Workspace.{Workspace, WorkspaceAutoHibernation}
use forkspacer.Api.Module
use forkspacer.Api.Module.{Module}
use forkspacer.Controller.Retry.{retry_times, retry_times-Attempts}
use forkspacer.Controller.Workspace.{
  Run, Client, ClientLaws, is_some, with_hibernated, handle_hibernation, resume_modules,
  hibernate_module_and_wait,
}
use forkspacer.Controller.Workspace.Hibernation.{
  Settled, handle_hibernation-Settled, resume_modules-asleep,
}
use forkspacer.Controller.Workspace.Wait.{Slept, hibernate_module_and_wait-Slept}
use forkspacer.Controller.Cron.{
  Scheduler, CronManager, blocked, done, add_cron, handle_auto_hibernation,
}
use forkspacer.Controller.Cron.Laws.{
  Changes, add_cron-blocked_iff, handle_auto_hibernation-disabled,
}
use forkspacer.Webhook.Workspace.{managed_connection}
use forkspacer.Controller.Managed.{Environment, installation}
use forkspacer.Controller.Managed.Names.{exported, managed_connection-installation_iff}
use forkspacer.Tests.Data.{dev, redis_with, replicas}

pub record Cluster : Type 0 where
  pub workspace_object : Workspace
  pub module_object : Module
  pub time : ℕ

-- The module sleeps as soon as it is asked to.
abbrev client : Client Cluster
client = record {
  get_workspace = λ key w. (ok w.workspace_object, w);
  update_workspace = λ x w. (ok x, record w { workspace_object = x });
  patch_workspace = λ old x w. (ok x, record w { workspace_object = x });
  update_status = λ x w. (ok x, record w { workspace_object = x });
  list_modules = λ key w. (ok (w.module_object ∷ []), w);
  get_module = λ key w. (ok w.module_object, w);
  patch_module = λ old new w.
      let m : Module = record new { status = record new.status { phase = Module.sleeped } } in
      (ok m, record w { module_object = m });
  create_module = λ new w. (ok new, w);
  delete_module = λ key w. (ok tt, w);
  now = λ w. (w.time, w);
  sleep = λ seconds w. record w { time = w.time + seconds };
  retry = retry_times 4;
}

client_laws : ClientLaws client
client_laws = record { retries = retry_times-Attempts 4 }

abbrev key : ObjectKey
key = record { key_namespace = "default"; key_name = "dev" }

abbrev redis : Module
redis = redis_with (replicas ∷ []) "{replicas: 3}" Module.ready none

abbrev tired : Workspace
tired = record dev { spec = record dev.spec { hibernated = true } }

abbrev woken : Workspace
woken = record dev { status = record dev.status { hibernated_at = some 5 } }

abbrev run : Module → Run Cluster
run m = record {
  world = record { workspace_object = tired; module_object = m; time = 7 };
  trace = [];
}

handle_hibernation-Settled_example :
    ((is_some tired.status.hibernated_at ≡ tired.spec.hibernated)
      × (handle_hibernation client key tired (run redis) ≡ (ok tired, run redis)))
    ⊎ ((is_some tired.status.hibernated_at ≡ not tired.spec.hibernated)
        × Settled client client_laws key true
            (run redis)
            (handle_hibernation client key tired (run redis)))
handle_hibernation-Settled_example =
    handle_hibernation-Settled client client_laws key tired (run redis)

resume_modules-asleep_example :
    resume_modules client key woken (run (with_hibernated true redis))
    ≡ (ok tt, run (with_hibernated true redis))
resume_modules-asleep_example =
    resume_modules-asleep client client_laws key woken (with_hibernated true redis ∷ [])
      (run (with_hibernated true redis)).world (run (with_hibernated true redis)) refl refl
      (refl, tt)

hibernate_module_and_wait-Slept_example :
    Slept 540000 [] (hibernate_module_and_wait client redis (run redis))
hibernate_module_and_wait-Slept_example = hibernate_module_and_wait-Slept client redis (run redis)

-- A schedule is a number of hours, of which the scheduler keeps that of its last entry.
abbrev scheduler : Scheduler ℕ ℕ
scheduler = record {
  parse = λ s. ok 8;
  next = λ hours now. now + hours;
  entry = λ id hours. hours;
  add_func = λ s hours. (ok 1, 8);
  remove = λ id hours. hours;
}

-- the entry fires after five hours, and the new schedule after eight
abbrev used : CronManager ℕ
used = record { locked = false; id_mapper = ("uid", 1) ∷ []; cron = 5 }

add_cron-blocked_iff_example :
    (add_cron scheduler "0 8 * * *" "uid" true 0 used ≡ blocked)
    ↔ Changes scheduler "0 8 * * *" "uid" 0 used
add_cron-blocked_iff_example = add_cron-blocked_iff scheduler "0 8 * * *" "uid" 0 used refl

abbrev off : WorkspaceAutoHibernation
off = record { enabled = false; schedule = "0 18 * * *"; wake_schedule = none }

handle_auto_hibernation-disabled_example :
    (sleep' resume' : CronManager ℕ) × (handle_auto_hibernation scheduler "uid" 0
        (some off)
        (used, used)
      ≡ done (sleep', resume'))
    × (lookup "uid" sleep'.id_mapper ≡ none)
    × (lookup "uid" resume'.id_mapper ≡ none)
handle_auto_hibernation-disabled_example =
    handle_auto_hibernation-disabled scheduler "uid" 0 off used used refl refl refl

abbrev plain_env : Environment
plain_env variable = ""

managed_connection-installation_iff_example :
    ((managed_connection "dev").secret_reference ≡ some (exported (installation plain_env "dev")))
    ↔ ((plain_env "VCLUSTER_KUBECONFIG_SECRET_NAME" ≡ "")
        ⊎ (plain_env "VCLUSTER_KUBECONFIG_SECRET_NAME" ≡ "vc-kubeconfig"))
managed_connection-installation_iff_example = managed_connection-installation_iff plain_env "dev"
