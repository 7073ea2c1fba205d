-- ===== src/Controller/Workspace/Setup.antt =====
-- What the handlers of internal/controller/workspace_controller.go share: the parameters of the
-- reconciler, the calls of the Helm service, and the finalizer of a workspace.
use forkspacer.Base.{String, Bool, true, false, List, [], ◌∷◌, ◌++◌, map, if◌then◌else◌}
use forkspacer.Go.{Result, ok, err}
use forkspacer.Exec.{Exec, ◌>>=◌, pure}
use forkspacer.Api.Meta.{ObjectMeta, ObjectKey, contains_finalizer, add_finalizer, remove_finalizer}
use forkspacer.Api.Workspace
use forkspacer.Api.Workspace.{
  Workspace, WorkspacePhase, WorkspaceType, WorkspaceFromReference, WorkspaceAutoHibernation,
}
use forkspacer.Helm.Service.{HelmRun, Sdk}
use forkspacer.Controller.Cron.{Scheduler}
use forkspacer.Controller.Managed.{Environment, Admin}
use forkspacer.Controller.Workspace.{Effect, finalizers_written, helm, Run, Client, acting}
use forkspacer.Controller.Workspace.Migrate.{Services}

-- The parameters of the reconciler. K is the type of clientsets, C that of charts, V that of value
-- tables, F that of floats, S that of schedules and T that of the scheduler's state.
pub record Setup (W K C V F S T : Type 0) : Type 0 where
  pub client : Client W
  pub services : Services W K F
  pub admin : Admin W
  pub sdk : K → Sdk W C V
  pub env : Environment
  pub scheduler : Scheduler S T

abbrev pub delete_finalizer : String
delete_finalizer = "delete"

abbrev pub is_managed : WorkspaceType → Bool
is_managed Workspace.managed = true
is_managed _ = false

module _ {W K C V F S T : Type 0} (x : Setup W K C V F S T) where
  -- the Helm service, whose effects go into the trace
  abbrev pub with_helm : Exec (HelmRun W) (Unit {0}) → Exec (Run W) (Unit {0})
  with_helm m s =
      let (r, t) = m (record { world = s.world; trace = [] }) in
      (r, record { world = t.world; trace = map helm t.trace ++ s.trace })

  -- an update of the object that leaves an effect if it succeeds
  abbrev pub logged : List String → Result Workspace → W → List Effect → Result Workspace × Run W
  logged fs (ok w) world es = (ok w, record { world = world; trace = finalizers_written fs ∷ es })
  logged fs (err e) world es = (err e, record { world = world; trace = es })

  abbrev pub write_finalizers : ObjectMeta → Workspace → Exec (Run W) Workspace
  write_finalizers meta w s =
      let (r, world) = x.client.update_workspace (record w { metadata = meta }) s.world in
      logged meta.finalizers r world s.trace

  abbrev pub ensure_finalizer : ObjectKey → Exec (Run W) Workspace
  ensure_finalizer key = acting x.client (x.client.get_workspace key) >>= λ w.
      if contains_finalizer w.metadata delete_finalizer
      then pure w
      else write_finalizers (add_finalizer w.metadata delete_finalizer) w

  abbrev pub drop_finalizer_of : Workspace → Exec (Run W) Workspace
  drop_finalizer_of w =
      if contains_finalizer w.metadata delete_finalizer
      then write_finalizers (remove_finalizer w.metadata delete_finalizer) w
      else pure w

  abbrev pub drop_finalizer : ObjectKey → Exec (Run W) Workspace
  drop_finalizer key = acting x.client (x.client.get_workspace key) >>= drop_finalizer_of
