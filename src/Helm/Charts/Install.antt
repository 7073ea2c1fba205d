-- ===== src/Helm/Charts/Install.antt =====
-- What an installation asks of the cluster, and what it starts if it fails.
use forkspacer.Base.{
  ℕ, String, ◌≡◌, ◌⊎◌, inl, inr, refl, Bool, true, not, Option, List, [], ◌∷◌, nat_eq,
}
use forkspacer.Go.{Result, ok, err, wrap_w, is_not_found, concat}
use forkspacer.Exec.{Exec, ◌>>=◌, ◌>>◌, and_then, attempt, map_err, pure, raise}
use forkspacer.Api.Module.{ModuleSpecHelmValues}
use forkspacer.Helm.Charts.{
  run_chart, repository_action, local_action, install_from_repository, install_from_local,
  build_dependencies, build_if, with_manifest, in_directory, ensure_dir, is_missing,
}
use forkspacer.Helm.Service.{
  HelmEffect, install_run, uninstall_spawned, HelmRun, InstallAction, Sdk, calling, step, note,
  initialized, merge_helm_values, uninstall_release,
}
use forkspacer.Helm.Service.Removal.{Removed, uninstall_release-Removed}
use forkspacer.Helm.Service.Quiet.{Quiet, bind-Quiet, if-Quiet, merge_helm_values-Quiet}

-- After success the chart was run. An error came before that, or the chart was run, failed, and a
-- goroutine was started that uninstalls the release with its namespace.
abbrev pub Installed :
    {W : Type 0} {A : Type 0} → String → String → List HelmEffect → Result A × HelmRun W → Type 0
Installed release namespace es (ok _, t) = t.trace ≡ install_run release namespace ∷ es
Installed release namespace es (err _, t) =
    (t.trace ≡ es)
    ⊎ (t.trace ≡ uninstall_spawned release namespace true true ∷ install_run release namespace ∷ es)

module _ {W : Type 0} where
  pub bind-Installed :
      {A : Type 0} (release namespace : String) (m : Exec (HelmRun W) A)
      (f : A → Exec (HelmRun W) (Unit {0})) (s : HelmRun W)
      → Quiet m
      → ((a : A) (t : HelmRun W) → Installed release namespace t.trace (f a t))
      → Installed release namespace s.trace ((m >>= f) s)
  bind-Installed release namespace m f s q k = go (m s).0 (m s).1 (q s)
    where
      go :
          (r : Result _) (t : HelmRun W)
          → t.trace ≡ s.trace
          → Installed release namespace s.trace (and_then f r t)
      go (ok a) t h = rw (← h) (k a t)
      go (err e) t h = inl h

module _ {W C V : Type 0} (sdk : Sdk W C V) where
  ensure_dir-Quiet : (path : String) (r : Result Bool) → Quiet (ensure_dir sdk path r)
  ensure_dir-Quiet path (ok _) = λ s. refl
  ensure_dir-Quiet path (err e) = if-Quiet (is_not_found e) _ _ (λ s. refl) (λ s. refl)

  build_if-Quiet : (path : String) (n : ℕ) → Quiet (build_if sdk path n)
  build_if-Quiet path n =
      let charts = concat (path ∷ "/charts" ∷ []) in
      let looked = attempt (calling sdk (sdk.stat charts)) in
      if-Quiet (nat_eq n 0) _ _ (λ s. refl)
        (bind-Quiet {A = Unit {0}} {B = Unit {0}} (looked >>= ensure_dir sdk charts) _
          (bind-Quiet {A = Result Bool} {B = Unit {0}} looked (ensure_dir sdk charts) (λ s. refl)
            (ensure_dir-Quiet charts))
          (λ _ s. refl))

  with_manifest-Quiet : (path : String) (r : Result Bool) → Quiet (with_manifest sdk path r)
  with_manifest-Quiet path r =
      if-Quiet (is_missing sdk r) _ _ (λ s. refl)
        (bind-Quiet {A = ℕ} {B = Unit {0}}
          (step sdk "failed to load chart metadata" (sdk.load_dir path)) (build_if sdk path)
          (λ s. refl) (build_if-Quiet path))

  in_directory-Quiet : (path : String) (b : Bool) → Quiet (in_directory sdk path b)
  in_directory-Quiet path b =
      if-Quiet (not b) _ _ (λ s. refl)
        (bind-Quiet {A = Result Bool} {B = Unit {0}}
          (attempt (calling sdk (sdk.stat (concat (path ∷ "/Chart.yaml" ∷ [])))))
          (with_manifest sdk path) (λ s. refl) (with_manifest-Quiet path))

  build_dependencies-Quiet : (path : String) → Quiet (build_dependencies sdk path)
  unfolding build_dependencies
  build_dependencies-Quiet path =
      bind-Quiet {A = Bool} {B = Unit {0}} (step sdk "failed to stat chart path" (sdk.stat path))
        (in_directory sdk path) (λ s. refl) (in_directory-Quiet path)

  run_chart-Installed :
      (message : String) (a : InstallAction) (chart : C) (v : V) (s : HelmRun W)
      → Installed a.release_name a.namespace s.trace (run_chart sdk message a chart v s)
  run_chart-Installed message a chart v s =
      go (sdk.run_install a chart v s.world).0 (sdk.run_install a chart v s.world).1
    where
      go :
          (r : Result (Unit {0})) (w : W)
          → Installed a.release_name a.namespace s.trace (
              and_then
                (λ r. elim r [
                  | ok _ ↦ pure tt
                  | err e ↦
                      note sdk (uninstall_spawned a.release_name a.namespace true true)
                      >> raise (wrap_w message e)
                ])
                (ok r)
                (record { world = w; trace = install_run a.release_name a.namespace ∷ s.trace }))
      go (ok _) w = refl
      go (err _) w = inr refl

  module _ (release namespace : String) (values : List ModuleSpecHelmValues) where
    prepared :
        (s : HelmRun W) (k : V → Exec (HelmRun W) (Unit {0}))
        → ((merged : V) (t : HelmRun W) → Installed release namespace t.trace (k merged t))
        → Installed release namespace s.trace
            ((initialized sdk namespace >>= λ _. merge_helm_values sdk values >>= k) s)
    prepared s k next =
        bind-Installed {A = Unit {0}} release namespace (initialized sdk namespace) _ s (λ t. refl)
          (λ _ t.
            bind-Installed {A = V} release namespace (merge_helm_values sdk values) k t
              (merge_helm_values-Quiet sdk values) next)

    loaded_and_run :
        (message path failure : String) (a : InstallAction) (v : V) (s : HelmRun W)
        → Installed a.release_name a.namespace s.trace
            ((step sdk message (sdk.load path) >>= λ loaded. run_chart sdk failure a loaded v) s)
    loaded_and_run message path failure a v s =
        bind-Installed {A = C} a.release_name a.namespace (step sdk message (sdk.load path)) _ s
          (λ t. refl) (λ loaded. run_chart-Installed failure a loaded v)

    pub install_from_repository-Installed :
        (chart repo : String) (version : Option String) (wait : Bool) (username password : String)
        (s : HelmRun W)
        → Installed release namespace s.trace (
            install_from_repository sdk chart release namespace repo version wait values username
              password s)
    unfolding install_from_repository
    install_from_repository-Installed chart repo version wait username password s =
        let action = repository_action sdk release namespace repo version wait username password in
        prepared s _ (λ merged u.
          bind-Installed {A = String} release namespace
            (step sdk "failed to locate chart" (sdk.locate_chart action chart)) _ u (λ v. refl)
            (λ path.
              loaded_and_run "failed to load chart from repository" path
                "failed to install chart from repository" action merged))

    -- An installation from a repository asks the SDK to install the release in its namespace, and
    -- does nothing else if it succeeds. If this fails, whatever the cause, a goroutine is started
    -- that calls UninstallRelease for the namespace and the volume claims. This asks, from whatever
    -- state `u` it runs in, for the release, and if that succeeds for the deletion of the
    -- namespace, or of the volume claims where the namespace is `default` or empty. An error before
    -- the installation leaves the cluster alone.
    pub install_from_repository-Undone :
        (chart repo : String) (version : Option String) (wait : Bool) (username password : String)
        (s u : HelmRun W)
        → Installed release namespace s.trace (
            install_from_repository sdk chart release namespace repo version wait values username
              password s)
          × Removed sdk release namespace true true u
              (uninstall_release sdk release namespace true true u)
    install_from_repository-Undone chart repo version wait username password s u = (
      install_from_repository-Installed chart repo version wait username password s,
      uninstall_release-Removed sdk release namespace true true u,
    )

    -- What is asked for by an installation from a directory or an archive.
    pub install_from_local-Installed :
        (path : String) (wait : Bool) (s : HelmRun W)
        → Installed release namespace s.trace
            (install_from_local sdk path release namespace wait values s)
    unfolding install_from_local
    install_from_local-Installed path wait s = prepared s _ (λ merged u.
        bind-Installed {A = Unit {0}} release namespace
          (map_err (wrap_w "failed to build chart dependencies") (build_dependencies sdk path)) _ u
          (build_dependencies-Quiet path)
          (λ _.
            loaded_and_run "failed to load chart from archive" path
              "failed to install chart from archive" (local_action sdk release namespace wait)
              merged))
