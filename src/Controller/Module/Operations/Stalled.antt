-- ===== src/Controller/Module/Operations/Stalled.antt =====
-- Installing a module in a workspace that is not ready.
use forkspacer.Base.{arith, ◌≡◌, refl, true, false, not, if◌then◌else◌}
use forkspacer.Go.{Error, Result, ok, err, is_workspace_not_ready, wrap_v}
use forkspacer.Exec.{Exec, and_then, raise}
use forkspacer.Api.Meta.{ObjectKey}
use forkspacer.Api.Workspace.{Workspace}
use forkspacer.Api.Module.{Module}
use forkspacer.Controller.Module.{Sys, Client}
use forkspacer.Controller.Module.Operations.{install_module, install_in, not_ready, is_ready_phase}

module _ {W D M : Type 0} (c : Client W D M) where
  -- Every workspace that is read is not ready.
  abbrev pub Stalled : Type 0
  Stalled =
      (key : ObjectKey) (w : W)
      → (ws : Workspace) × (w' : W) × (c.get_workspace key w ≡ (ok ws, w'))
        × (ws.status.ready ≡ false)

  check : Workspace → Exec (Sys W) Module → Exec (Sys W) Module
  check w more =
      if not w.status.ready
      then raise (not_ready "workspace exists but status.ready is false")
      else if not (is_ready_phase w.status.phase)
      then raise (not_ready "workspace phase is not ready")
      else more

  install_in-check :
      (m : Module) (r : Result Workspace × W) (s : Sys W) (ws : Workspace) (w' : W)
      → r ≡ (ok ws, w')
      → ws.status.ready ≡ false
      → and_then {A = Workspace} {B = Module}
          (λ w. check w (install_in c m w))
          (elim r.0 [ ok w ↦ ok w | err e ↦ err (wrap_v "failed to get workspace" e) ])
          (record s { world = r.1 })
        ≡ (err (not_ready "workspace exists but status.ready is false"), record s { world = w' })
  unfolding check
  install_in-check m (ok w, v) s ws w' p q = ground arith
  install_in-check m (err e, v) s ws w' p q = cc

  -- Installing fails with the error of a workspace that is not ready, and does nothing else.
  pub install_module-stalled :
      (stalled : Stalled) (m : Module) (s : Sys W)
      → (e : Error) × (w : W) × (install_module c m s ≡ (err e, record s { world = w }))
        × (is_workspace_not_ready e ≡ true)
  unfolding install_module check
  install_module-stalled stalled m s =
      let h =
        stalled
          (record { key_namespace = m.spec.workspace.namespace; key_name = m.spec.workspace.name })
          s.world in
      (
        not_ready "workspace exists but status.ready is false",
        h.1,
        install_in-check m
            (c.get_workspace
              (record {
                key_namespace = m.spec.workspace.namespace;
                key_name = m.spec.workspace.name;
              })
              s.world)
            s h.0 h.1 h.2 h.3,
        refl,
      )
