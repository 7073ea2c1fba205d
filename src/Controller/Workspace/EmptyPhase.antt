-- ===== src/Controller/Workspace/EmptyPhase.antt =====
-- internal/controller/workspace_controller.go: handleEmptyPhase, with the workspace as it was last
-- read besides its result.
pub mod Start
use forkspacer.Base.{ℕ, String, Option, none, some, if◌then◌else◌}
use forkspacer.Go.{Result, ok, err, wrap_w}
use forkspacer.Exec.{Exec, ◌>>=◌, ◌>>◌, pure, raise, attempt}
use forkspacer.Api.Meta.{ObjectKey}
use forkspacer.Api.Workspace.{Workspace, WorkspaceFromReference}
use forkspacer.Controller.Managed.{install_vcluster}
use forkspacer.Controller.Workspace.{
  event, Run, acting, emit, set_phase_ready, set_phase_failed, set_phase_installing,
  set_phase_hibernated,
}
use forkspacer.Controller.Workspace.Fork.{fork_workspace}
use forkspacer.Controller.Workspace.Setup.{Setup, is_managed, with_helm, ensure_finalizer}

module _ {W K C V F S T : Type 0} (x : Setup W K C V F S T) where
  -- a fork that fails asks for the request to come back
  abbrev pub forked : Workspace → Result (Unit {0}) → Exec (Run W) (ℕ × Workspace)
  forked w (ok _) = pure (0, w)
  forked w (err e) = pure (5, w)

  abbrev pub source_read :
      String → String → ObjectKey → Workspace → Result Workspace → Exec (Run W) (ℕ × Workspace)
  source_read reason message key w (ok source) =
      attempt (fork_workspace x.client x.services source w) >>= forked w
  source_read reason message key w (err e) =
      emit x.client (event "Warning" reason)
      >> set_phase_failed x.client key (some message)
      >>= λ _. raise (wrap_w "failed to get source workspace" e)

  abbrev pub fork_from :
      String
      → String
      → ObjectKey
      → Option WorkspaceFromReference
      → Workspace
      → Exec (Run W) (ℕ × Workspace)
  fork_from reason message key none w = pure (0, w)
  fork_from reason message key (some from) w =
      attempt (
        acting x.client (
          x.client.get_workspace (record { key_namespace = from.namespace; key_name = from.name })))
      >>= source_read reason message key w

  abbrev pub ready_and_fork : String → String → ObjectKey → Exec (Run W) (ℕ × Workspace)
  ready_and_fork reason message key =
      set_phase_ready x.client key none >>= λ w. fork_from reason message key w.spec.from w

  abbrev pub vcluster_installed : ObjectKey → Result (Unit {0}) → Exec (Run W) (ℕ × Workspace)
  vcluster_installed key (ok _) =
      emit x.client (event "Normal" "VirtualClusterInstalled")
      >> ready_and_fork "ForkError" "Failed to fork workspace. Check events for more information."
          key
  vcluster_installed key (err e) =
      emit x.client (event "Warning" "VirtualClusterInstallError")
      >> set_phase_failed x.client key
          (some "Failed to install virtual cluster. Check events for more information.")
      >>= λ _. raise e

  abbrev pub set_up_vcluster : ObjectKey → Workspace → Exec (Run W) (ℕ × Workspace)
  set_up_vcluster key w =
      attempt (with_helm x (install_vcluster x.admin x.services.loader x.sdk x.env w.metadata.name))
      >>= vcluster_installed key

  abbrev pub set_up_managed : ObjectKey → Exec (Run W) (ℕ × Workspace)
  set_up_managed key =
      set_phase_installing x.client key (some "Installing virtual cluster") >>= set_up_vcluster key

  abbrev pub hibernated_at_once : ObjectKey → Exec (Run W) (ℕ × Workspace)
  hibernated_at_once key = set_phase_hibernated x.client key none >>= λ w. pure (0, w)

  abbrev pub set_up : ObjectKey → Workspace → Exec (Run W) (ℕ × Workspace)
  set_up key w =
      if is_managed w.spec.type
      then set_up_managed key
      else if w.spec.hibernated
      then hibernated_at_once key
      else ready_and_fork "Start" "Failed to start workspace. Check events for more information."
          key

  -- with the workspace as it was last read
  unfoldable pub handle_empty_phase : ObjectKey → Exec (Run W) (ℕ × Workspace)
  handle_empty_phase key = x.client.retry (ensure_finalizer x key) >>= set_up key
