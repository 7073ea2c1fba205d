-- ===== src/Tests/Reconcile.antt =====
-- Reconciling a workspace in a small cluster that lives in memory, and forking it.
use forkspacer.Base.{
  ℕ, ◌+◌, ◌*◌, String, ◌≡◌, ◌≢◌, refl, Bool, true, false, none, some, [], ◌∷◌, Assoc, if◌then◌else◌,
  arith,
}
use forkspacer.Go.{Error, ok, err, not_found}
use forkspacer.Go.Int.{ℤ}
use forkspacer.Exec.{pure}
use forkspacer.Api.Meta.{ObjectKey}
use forkspacer.Api.Workspace
use forkspacer.Api.Workspace.{Workspace, WorkspacePhase}
use forkspacer.Api.Module
use forkspacer.Api.Module.{Module}
use forkspacer.Controller.Retry.{retry_times, retry_times-Attempts}
use forkspacer.Controller.Cron.{Scheduler, CronManager, done}
use forkspacer.Controller.Workspace.{Run, Client, ClientLaws, set_phase_ready}
use forkspacer.Controller.Workspace.Fork.{fork_workspace}
use forkspacer.Controller.Workspace.Migrate.{Services, while_asleep}
use forkspacer.Controller.Workspace.Fork.Started.{Forked, fork_workspace-Forked}
use forkspacer.Controller.Workspace.Migrate.Restore.{Restored, while_asleep-Restored}
use forkspacer.Controller.Workspace.Setup.{Setup}
use forkspacer.Controller.Workspace.EmptyPhase.{handle_empty_phase}
use forkspacer.Controller.Workspace.Reconcile.{await_gone, rounds, deletion_timeout, reconcile}
use forkspacer.Controller.Workspace.Reconcile.Fuel.{ClockLaws, await_gone-rounds}
use forkspacer.Controller.Workspace.EmptyPhase.Start
use forkspacer.Controller.Workspace.EmptyPhase.Start.{last_status, handle_empty_phase-Settled}
use forkspacer.Controller.Workspace.Reconcile.Requeue.{
  ForksNothing, reconcile-ForksNothing, Unforked, reconcile-Unforked,
}
use forkspacer.Tests.Data.{codec, dev, dev_managed, redis_with, replicas}
use forkspacer.Tests.Render.{engine}
use forkspacer.Tests.Services.{sdk, loader, admin, no_environment, secrets}

-- A workspace, whether its module is there, and the time in nanoseconds.
pub record Cluster : Type 0 where
  pub workspace_object : Workspace
  pub there : Bool
  pub time : ℕ

abbrev missing : Error
missing = record { class = not_found; text = "not found" }

abbrev redis : Module
redis = redis_with (replicas ∷ []) "{replicas: 3}" Module.ready none

abbrev client : Client Cluster
client = record {
  get_workspace = λ key w. (ok w.workspace_object, w);
  update_workspace = λ x w. (ok x, record w { workspace_object = x });
  patch_workspace = λ old x w. (ok x, record w { workspace_object = x });
  update_status = λ x w. (ok x, record w { workspace_object = x });
  list_modules = λ key w. (ok (redis ∷ []), w);
  get_module = λ key w. (if w.there then ok redis else err missing, w);
  patch_module = λ old new w. (ok new, w);
  create_module = λ new w. (ok new, w);
  delete_module = λ key w. (ok tt, record w { there = false });
  now = λ w. (w.time, w);
  sleep = λ n w. record w { time = w.time + n * 1000000 };
  retry = retry_times 4;
}

client_laws : ClientLaws client
client_laws = record { retries = retry_times-Attempts 4 }

abbrev clock_laws : ClockLaws client
clock_laws = record {
  time = λ w. w.time;
  now_reads = λ w. refl;
  now_forward = λ w. omega arith;
  get_forward = λ key w. omega arith;
  sleeps = λ n w. omega arith;
}

abbrev services : Services Cluster String ℤ
services = record {
  codec = codec;
  engine = engine;
  loader = loader;
  secrets = secrets;
  config_maps = record {
    get = λ k namespace name w. (err missing, w);
    create = λ k object w. (ok tt, w);
    update = λ k object w. (ok tt, w);
    delete = λ k namespace name w. (ok tt, w);
  };
  migrate_pvc = λ source dest w. (ok tt, w);
}

abbrev scheduler : Scheduler ℕ ℕ
scheduler = record {
  parse = λ s. ok 8;
  next = λ hours now. now + hours;
  entry = λ id hours. hours;
  add_func = λ s hours. (ok 1, 8);
  remove = λ id hours. hours;
}

abbrev setup : Setup Cluster String String (Assoc String) ℤ ℕ ℕ
setup = record {
  client = client;
  services = services;
  admin = admin;
  sdk = λ k. sdk;
  env = no_environment;
  scheduler = scheduler;
}

abbrev key : ObjectKey
key = record { key_namespace = "default"; key_name = "dev" }

abbrev world : Workspace → Cluster
world w = record { workspace_object = w; there = true; time = 7 }

abbrev run : Workspace → Run Cluster
run w = record { world = world w; trace = [] }

abbrev manager : CronManager ℕ
manager = record { locked = false; id_mapper = ("uid", 1) ∷ []; cron = 5 }

await_gone-rounds_example :
    await_gone setup 40 (7 + deletion_timeout) key (run dev)
    ≡ await_gone setup rounds (7 + deletion_timeout) key (run dev)
await_gone-rounds_example =
    await_gone-rounds setup clock_laws 40 7 key (run dev) (omega arith) (omega arith)

handle_empty_phase-Settled_example :
    Start.Settled setup key (run dev_managed) (handle_empty_phase setup key (run dev_managed))
handle_empty_phase-Settled_example =
    handle_empty_phase-Settled setup key client_laws (run dev_managed)

abbrev dev_in : WorkspacePhase → Workspace
dev_in phase = record dev { status = record dev.status { phase = phase } }

set_differs : ◌≢◌ {A = WorkspacePhase} Workspace.ready Workspace.unset
set_differs e = cc

reconcile-ForksNothing_example :
    ForksNothing setup client_laws key
      (run (dev_in Workspace.ready))
      (reconcile setup key 7 (run (dev_in Workspace.ready), (manager, manager)))
reconcile-ForksNothing_example =
    reconcile-ForksNothing setup client_laws key 7 (dev_in Workspace.ready)
      (world (dev_in Workspace.ready)) (run (dev_in Workspace.ready)) (manager, manager) refl refl
      set_differs

-- A new workspace that is forked from one whose only module is being installed.
abbrev fresh : Workspace
fresh = record (dev_in Workspace.unset) {
  spec = record dev.spec {
    from = some (record { name = "origin"; namespace = "default"; migrate_data = false });
    auto_hibernation = none;
  };
}

abbrev busy : Client Cluster
busy = record client {
  list_modules = λ key w.
      (ok (record redis { status = record redis.status { phase = Module.installing } } ∷ []), w);
}

busy_laws : ClientLaws busy
busy_laws = record { retries = retry_times-Attempts 4 }

abbrev busy_setup : Setup Cluster String String (Assoc String) ℤ ℕ ℕ
busy_setup = record setup { client = busy }

abbrev now_ready : Workspace
now_ready = record fresh {
  metadata = record fresh.metadata { finalizers = "delete" ∷ [] };
  status = record {
    conditions = [];
    phase = Workspace.ready;
    ready = true;
    last_activity = some 7;
    hibernated_at = none;
    message = none;
  };
}

abbrev after : Run Cluster
after = (handle_empty_phase busy_setup key (run fresh)).1

handled : handle_empty_phase busy_setup key (run fresh) ≡ (ok (5, now_ready), after)
unfolding handle_empty_phase set_phase_ready fork_workspace retry_times
handled = refl

reconcile-Unforked_example :
    Unforked busy_setup busy_laws key now_ready after
    × (last_status after.trace ≡ some Workspace.ready)
    × (reconcile busy_setup key 7 (run fresh, (manager, manager))
        ≡ done (ok 0, (after, (manager, manager))))
reconcile-Unforked_example =
    reconcile-Unforked busy_setup busy_laws key 7 fresh now_ready (world fresh) (run fresh) after 5
      (manager, manager) refl refl refl handled (λ e. cc) refl

fork_workspace-Forked_example :
    Forked client services dev (run dev) (fork_workspace client services dev dev_managed (run dev))
fork_workspace-Forked_example = fork_workspace-Forked client services dev dev_managed (run dev)

while_asleep-Restored_example :
    Restored client services redis redis
      (λ m. pure tt)
      (run dev)
      (while_asleep client services redis redis (λ m. pure tt) (run dev))
while_asleep-Restored_example =
    while_asleep-Restored client services redis redis (λ m. pure tt) (run dev)
