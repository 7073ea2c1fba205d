-- ===== src/Controller/Module/Operations/Runs.antt =====
-- The operations on a module write no status, and call the manager only for their own operation.
use forkspacer.Base.{String, arith}
use forkspacer.Go.{Result, ok, err}
use forkspacer.Exec.{Exec, ◌>>=◌, and_then, attempt}
use forkspacer.Api.Module.{
  Module, ModulePhase, ModuleSpecHelmExistingRelease, installing, uninstalling, sleeping, resuming,
}
use forkspacer.Api.Workspace.{Workspace, WorkspaceConnection}
use forkspacer.Controller.Module.{Call, sleep, resume, Sys, Client}
use forkspacer.Controller.Module.LifeCycle.{At, during}
use forkspacer.Controller.Module.Operations.{
  new_manager, run_manager, adopt_existing_release, install_module, change_module, sleep_module,
  resume_module, uninstall_module,
}

-- What runs in phase `q` stays in it, and keeps to the life cycle.
module _ {W : Type 0} where
  pub record RunsIn {A : Type 0} (q : ModulePhase) (m : Exec (Sys W) A) : Type 0 where
    pub at : (p : ModulePhase) (s : Sys W) → At p q s.trace → At p q (m s).1.trace

  RunsIn-and_then :
      {A B : Type 0} (q p : ModulePhase) (f : A → Exec (Sys W) B) (r : Result A) (s : Sys W)
      → ((a : A) → RunsIn q (f a))
      → At p q s.trace
      → At p q (and_then f r s).1.trace
  RunsIn-and_then q p f (ok a) s h x = (h a).at p s x
  RunsIn-and_then q p f (err e) s h x = x

  pub RunsIn-bind :
      {A B : Type 0} (q : ModulePhase) (m : Exec (Sys W) A) (f : A → Exec (Sys W) B)
      → RunsIn q m
      → ((a : A) → RunsIn q (f a))
      → RunsIn q (m >>= f)
  RunsIn-bind q m f hm hf = record {
    at = λ p s x. RunsIn-and_then q p f (m s).0 (m s).1 hf (hm.at p s x);
  }

  pub RunsIn-attempt :
      {A : Type 0} (q : ModulePhase) (m : Exec (Sys W) A) → RunsIn q m → RunsIn q (attempt m)
  RunsIn-attempt q m h = record { at = h.at }

module _ {W D M : Type 0} (c : Client W D M) where
  new_manager-RunsIn :
      (q : ModulePhase) (m : Module) (conn : WorkspaceConnection) (d : D)
      → RunsIn q (new_manager c m conn d)
  unfolding new_manager
  new_manager-RunsIn q m conn d = record { at = λ p s x. ground arith }

  run_manager-RunsIn :
      (k : Call) (failure : String) (m : Module) (w : Workspace)
      → RunsIn (during k) (run_manager c k failure m w)
  unfolding run_manager
  run_manager-RunsIn k failure m w = record { at = λ p s x. ground arith }

  adopt_existing_release-RunsIn :
      (ref : ModuleSpecHelmExistingRelease) (m : Module) (w : Workspace)
      → RunsIn installing (adopt_existing_release c ref m w)
  unfolding adopt_existing_release
  adopt_existing_release-RunsIn ref m w = record { at = λ p s x. ground arith }

  pub install_module-RunsIn : (m : Module) → RunsIn installing (install_module c m)
  unfolding install_module
  install_module-RunsIn m = record { at = λ p s x. ground arith }

  change_module-RunsIn :
      (k : Call) (failure : String) (m : Module) → RunsIn (during k) (change_module c k failure m)
  unfolding change_module
  change_module-RunsIn k failure m = record { at = λ p s x. ground arith }

  pub sleep_module-RunsIn : (m : Module) → RunsIn sleeping (sleep_module c m)
  unfolding sleep_module
  sleep_module-RunsIn m = change_module-RunsIn sleep "failed to sleep module" m

  pub resume_module-RunsIn : (m : Module) → RunsIn resuming (resume_module c m)
  unfolding resume_module
  resume_module-RunsIn m = change_module-RunsIn resume "failed to resume module" m

  pub uninstall_module-RunsIn : (m : Module) → RunsIn uninstalling (uninstall_module c m)
  unfolding uninstall_module
  uninstall_module-RunsIn m = record { at = λ p s x. ground arith }
