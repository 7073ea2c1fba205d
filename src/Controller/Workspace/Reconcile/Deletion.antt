-- ===== src/Controller/Workspace/Reconcile/Deletion.antt =====
-- The deletion of a workspace: its modules, then its virtual cluster, then its finalizer.
use forkspacer.Base.{
  ℕ, String, Bool, true, false, ◌≡◌, ◌⊎◌, inl, inr, refl, ap, none, List, [], ◌∷◌, ◌++◌, map,
  lookup, Bool-cases,
}
use forkspacer.Go.{Error, Result, ok, err}
use forkspacer.Exec.{and_then}
use forkspacer.Api.Meta.{ObjectKey, object_key}
use forkspacer.Api.Workspace.{Workspace}
use forkspacer.Api.Module.{Module}
use forkspacer.Helm.Service.{HelmRun, namespace_deleted, uninstall_run}
use forkspacer.Controller.Cron.{CronManager, done}
use forkspacer.Controller.Cron.Laws.{remove_cron-unlocked}
use forkspacer.Controller.Managed.{installation, uninstall_vcluster}
use forkspacer.Controller.Managed.Steps.{TornDown, uninstall_vcluster-TornDown}
use forkspacer.Controller.Workspace.{Effect, event, helm, Run, related_modules}
use forkspacer.Controller.Workspace.Setup.{Setup, is_managed}
use forkspacer.Controller.Workspace.Reconcile.{
  is_deletable, delete_modules, remove_vcluster, vcluster_removed, clean_up, release,
  handle_deletion, listed,
}
use forkspacer.Controller.Workspace.Reconcile.Handled.{AllHandled, delete_modules-AllHandled}

module _ {W K C V F S T : Type 0} (x : Setup W K C V F S T) where
  -- What the removal of the virtual cluster of a workspace adds, by its name: nothing if it has
  -- none; otherwise what an uninstallation that succeeds has asked for, or one that fails.
  abbrev pub ClusterRemoved : String → Bool → List Effect → Type 0
  ClusterRemoved name false cs = cs ≡ []
  ClusterRemoved name true cs =
      let i = installation x.env name in
      (cs
        ≡ event "Normal" "VClusterUninstalled"
          ∷ helm (namespace_deleted i.namespace)
          ∷ helm (uninstall_run i.release i.namespace)
          ∷ [])
      ⊎ ((world : W) × (e : Error) × (v : HelmRun W) × (uninstall_vcluster x.admin x.services.loader
              x.sdk x.env name (record { world = world; trace = [] })
            ≡ (err e, v))
          × (cs ≡ event "Warning" "VClusterUninstallError" ∷ map helm v.trace))

  removed-Cluster :
      (name : String) (world : W) (r : Result (Unit {0})) (t : HelmRun W) (es : List Effect)
      → uninstall_vcluster x.admin x.services.loader x.sdk x.env name
          (record { world = world; trace = [] })
        ≡ (r, t)
      → TornDown x.admin x.services.loader x.sdk x.env
          (installation x.env name)
          (record { world = world; trace = [] })
          (r, t)
      → ((vcluster_removed x r (record { world = t.world; trace = map helm t.trace ++ es })).0
          ≡ ok tt)
        × (cs : List Effect) × ClusterRemoved name true cs
        × ((vcluster_removed x r
              (record { world = t.world; trace = map helm t.trace ++ es })).1.trace
            ≡ cs ++ es)
  removed-Cluster name world (ok _) t es p (inl h) = cc
  removed-Cluster name world (ok _) t es p (inr (k, w, made, q, v, ran, inl h)) = cc
  removed-Cluster name world (ok _) t es p (inr (k, w, made, q, v, ran, inr h)) = (
    refl,
    event "Normal" "VClusterUninstalled" ∷ map helm t.trace,
    inl (ap (λ hs. event "Normal" "VClusterUninstalled" ∷ map helm hs) h.2),
    refl,
  )
  removed-Cluster name world (err e) t es p h = (
    refl,
    event "Warning" "VClusterUninstallError" ∷ map helm t.trace,
    inr (world, e, t, p, refl),
    refl,
  )

  remove_vcluster-Cluster :
      (w : Workspace) (s : Run W)
      → ((remove_vcluster x w s).0 ≡ ok tt)
        × (cs : List Effect) × ClusterRemoved w.metadata.name (is_managed w.spec.type) cs
        × ((remove_vcluster x w s).1.trace ≡ cs ++ s.trace)
  unfolding remove_vcluster
  remove_vcluster-Cluster w s = elim (Bool-cases (is_managed w.spec.type)) [
    | inl managed ↦
        let fresh : HelmRun W = record { world = s.world; trace = [] } in
        let un = uninstall_vcluster x.admin x.services.loader x.sdk x.env w.metadata.name fresh in
        rw managed (
          removed-Cluster w.metadata.name s.world un.0 un.1 s.trace refl (
            uninstall_vcluster-TornDown x.admin x.services.loader x.sdk x.env w.metadata.name
              fresh))
    | inr plain ↦ rw plain (refl, [], refl, refl)
  ]

  -- The modules come first, then the virtual cluster; the result is that of removing the finalizer
  -- after this.
  abbrev pub CleanedUp : ObjectKey → Workspace → List Module → Run W → Result ℕ × Run W → Type 0
  CleanedUp key w ms s out =
      (fs cs : List Effect) × (v : Run W) × AllHandled ms s.trace fs
      × ClusterRemoved w.metadata.name (is_managed w.spec.type) cs
      × (v.trace ≡ cs ++ fs)
      × (release x key v ≡ out)

  clean_up-CleanedUp :
      (key : ObjectKey) (w : Workspace) (ms : List Module) (s : Run W)
      → CleanedUp key w ms s (clean_up x key w ms s)
  unfolding clean_up
  clean_up-CleanedUp key w ms s =
      modules (delete_modules x ms s).0 (delete_modules x ms s).1 (delete_modules-AllHandled x ms s)
    where
      cluster :
          (fs : List Effect) (r : Result (Unit {0})) (t : Run W)
          → AllHandled ms s.trace fs
          → (r ≡ ok tt)
            × (cs : List Effect) × ClusterRemoved w.metadata.name (is_managed w.spec.type) cs
            × (t.trace ≡ cs ++ fs)
          → CleanedUp key w ms s (and_then (λ _. release x key) r t)
      cluster fs (ok _) t handled h = (fs, h.1, t, handled, h.2, h.3, refl)
      cluster fs (err _) t handled h = cc

      modules :
          (r : Result (Unit {0})) (t : Run W)
          → (r ≡ ok tt) × AllHandled ms s.trace t.trace
          → CleanedUp key w ms s (
              and_then
                (λ _. release x key)
                (and_then (λ _. remove_vcluster x w) r t).0
                (and_then (λ _. remove_vcluster x w) r t).1)
      modules (ok _) t h = cluster t.trace _ _ h.1 (remove_vcluster-Cluster w t)
      modules (err _) t h = cc

  -- An error of the listing ends the deletion, and is the result; the cron managers stay as they
  -- are. Otherwise the workspace has no cron entries left, and everything that follows was done.
  abbrev pub Deleted :
      ObjectKey
      → Workspace
      → Run W
      → CronManager T × CronManager T
      → Result ℕ × Run W
      → CronManager T × CronManager T
      → Type 0
  Deleted key w s before out after =
      ((e : Error) × (u : Run W) × (related_modules x.client (object_key w.metadata) s ≡ (err e, u))
        × (out ≡ (err e, u))
        × (after ≡ before))
      ⊎ ((ms : List Module) × (u : Run W) × (related_modules x.client (object_key w.metadata) s
            ≡ (ok ms, u))
          × CleanedUp key w ms u out
          × (lookup w.metadata.uid after.0.id_mapper ≡ none)
          × (lookup w.metadata.uid after.1.id_mapper ≡ none))

  pub handle_deletion-Deleted :
      (key : ObjectKey) (w : Workspace) (s : Run W) (sleep resume : CronManager T)
      → is_deletable w.status.phase ≡ true
      → sleep.locked ≡ false
      → resume.locked ≡ false
      → (r : Result ℕ) × (t : Run W) × (managers : CronManager T × CronManager T) × (handle_deletion
            x key w
            (s, (sleep, resume))
          ≡ done (r, (t, managers)))
        × Deleted key w s (sleep, resume) (r, t) managers
  unfolding handle_deletion
  handle_deletion-Deleted key w s sleep resume deletable free free' = rw deletable (
      go (related_modules x.client (object_key w.metadata) s).0
        (related_modules x.client (object_key w.metadata) s).1 refl)
    where
      uid : String
      uid = w.metadata.uid

      go :
          (q : Result (List Module)) (u : Run W)
          → related_modules x.client (object_key w.metadata) s ≡ (q, u)
          → (r : Result ℕ) × (t : Run W) × (managers : CronManager T × CronManager T) × (listed x
                key w q u
                (sleep, resume)
              ≡ done (r, (t, managers)))
            × Deleted key w s (sleep, resume) (r, t) managers
      go (err e) u p = (err e, u, (sleep, resume), refl, inl (e, u, p, refl, refl))
      go (ok ms) u p =
          let a = remove_cron-unlocked x.scheduler uid sleep free in
          let b = remove_cron-unlocked x.scheduler uid resume free' in
          let out = clean_up x key w ms u in
          (
            out.0,
            out.1,
            (a.0, b.0),
            rw a.1 (rw b.1 refl),
            inr (ms, u, p, clean_up-CleanedUp key w ms u, a.2, b.2),
          )
