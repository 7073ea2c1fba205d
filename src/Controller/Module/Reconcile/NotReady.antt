-- ===== src/Controller/Module/Reconcile/NotReady.antt =====
-- A new module whose workspace is not ready yet.
use forkspacer.Base.{ℕ, ◌≡◌, refl, sym, ap, ◌∙◌, subst, true, Option, none, List, [], ◌∷◌, arith}
use forkspacer.Go.{Error, Result, ok, err, is_workspace_not_ready}
use forkspacer.Exec.{◌>>=◌, and_then, attempt}
use forkspacer.Api.Meta.{ObjectKey}
use forkspacer.Api.Module.{Module, ModulePhase, unset, installing}
use forkspacer.Controller.Retry.{retried}
use forkspacer.Controller.Module.{
  Call, Effect, status_written, object_written, annotated, adopted, called, event, Sys, Client,
  ClientLaws, set_phase, ensure_finalizer,
}
use forkspacer.Controller.Module.LifeCycle.{last_phase}
use forkspacer.Controller.Module.Operations.{install_module}
use forkspacer.Controller.Module.Operations.Stalled.{Stalled, install_module-stalled}
use forkspacer.Controller.Module.Reconcile.{
  installed, handle_empty_phase, dispatch, unless_deleted, reconcile_module,
}
use forkspacer.Controller.Module.Reconcile.Moves.{Wrote, set_phase-Wrote}

-- what the reconciler asked of the managers, the newest call first
abbrev pub calls : List Effect → List Call
calls [] = []
calls (called k ∷ es) = k ∷ calls es
calls (status_written _ ∷ es) = calls es
calls (object_written _ ∷ es) = calls es
calls (annotated ∷ es) = calls es
calls (adopted ∷ es) = calls es
calls (event _ _ ∷ es) = calls es

-- The request comes back in five seconds, with the module in the phase installing; no manager was
-- called, whether there was an error or not.
abbrev pub Postponed : {W : Type 0} → List Effect → Result ℕ × Sys W → Type 0
Postponed es (ok n, t) =
    (n ≡ 5) × (last_phase unset t.trace ≡ installing) × (calls t.trace ≡ calls es)
Postponed es (err _, t) = calls t.trace ≡ calls es

module _ {W D M : Type 0} (c : Client W D M) (laws : ClientLaws c) (key : ObjectKey) where
  ensure-calls : (s : Sys W) → calls (ensure_finalizer c key s).1.trace ≡ calls s.trace
  ensure-calls s = ground arith

  retry-calls : (s : Sys W) → calls (c.retry (ensure_finalizer c key) s).1.trace ≡ calls s.trace
  retry-calls s =
      retried (ensure_finalizer c key) (λ a r. calls r.1.trace ≡ calls a.trace) ensure-calls
        (λ a b e r p h. h ∙ p) s _ (laws.retries (ensure_finalizer c key) s)

  module _ (stalled : Stalled c) where
    install-Postponed :
        (es : List Effect) (r : Result Module) (t : Sys W) (fs : List Effect)
        → calls fs ≡ calls es
        → Wrote installing fs (r, t)
        → Postponed es (and_then (λ m. attempt (install_module c m) >>= installed c key) r t)
    unfolding installed
    install-Postponed es (err e) t fs same h = ap calls h ∙ same
    install-Postponed es (ok m) t fs same h =
        let i = install_module-stalled c stalled m t in
        subst (Postponed es) (sym (run i.0 (record t { world = i.1 }) i.2 i.3))
          (refl, ap (last_phase unset) h.0, ap calls h.0 ∙ same)
      where
        run :
            (e : Error) (u : Sys W)
            → install_module c m t ≡ (err e, u)
            → is_workspace_not_ready e ≡ true
            → (attempt (install_module c m) >>= installed c key) t ≡ (ok 5, u)
        run e u p waits =
            ap (λ (x : Result Module × Sys W). installed c key x.0 x.1) p ∙ rw waits refl

    ensured-Postponed :
        (es : List Effect) (r : Result Module) (t : Sys W)
        → calls t.trace ≡ calls es
        → Postponed es (
            and_then {A = Module} {B = ℕ}
              (λ _. set_phase c key installing none >>= λ m.
                attempt (install_module c m) >>= installed c key)
              r
              t)
    ensured-Postponed es (err e) t same = same
    ensured-Postponed es (ok m) t same =
        install-Postponed es (set_phase c key installing none t).0
          (set_phase c key installing none t).1 t.trace same
          (set_phase-Wrote c laws key installing none t)

    handle_empty_phase-Postponed : (s : Sys W) → Postponed s.trace (handle_empty_phase c key s)
    unfolding handle_empty_phase
    handle_empty_phase-Postponed s =
        ensured-Postponed s.trace (c.retry (ensure_finalizer c key) s).0
          (c.retry (ensure_finalizer c key) s).1 (retry-calls s)

    -- Under ClientLaws, and if every workspace that is read is not ready, a new module that is not
    -- being deleted comes back in five seconds without a call of a manager, unless there is an
    -- error; but it is then in the phase installing, in which nothing is installed.
    pub reconcile_module-stalled :
        (m : Module) (s : Sys W)
        → m.metadata.deletion_timestamp ≡ none
        → m.status.phase ≡ unset
        → Postponed s.trace (reconcile_module c key m s)
    unfolding reconcile_module unless_deleted dispatch
    reconcile_module-stalled m s alive new =
        subst (Postponed s.trace)
          (sym (
            ap (λ (d : Option ℕ). unless_deleted c key d m s) alive
            ∙ ap (λ (q : ModulePhase). dispatch c key q m s) new))
          (handle_empty_phase-Postponed s)
