-- ===== src/Helm/Manager/Files.antt =====
-- What installing a Helm module asks of the cluster, and what becomes of its temporary files.
use forkspacer.Base.{
  String, true, ◌≡◌, ◌⊎◌, inl, inr, refl, Option, none, some, List, ◌∷◌, Assoc, lookup,
}
use forkspacer.Go.{Result, ok, err}
use forkspacer.Exec.{Exec, ◌>>=◌, and_then, attempt, lift}
use forkspacer.Api.Module.{
  ModuleSpecHelm, ModuleSpecHelmChartRepo, ModuleSpecHelmChartRepoAuth,
  ModuleSpecHelmChartConfigMap, ModuleSpecHelmChartGit, ModuleSpecHelmChartGitAuth,
  ModuleSpecHelmChartGitAuthSecret, get_namespace,
}
use forkspacer.Helm.Service.{HelmEffect, HelmRun, Sdk, temp_made, temp_removed, step, calling}
use forkspacer.Helm.Service.Quiet.{Quiet, bind-Quiet}
use forkspacer.Helm.Charts.Install.{
  Installed, bind-Installed, install_from_repository-Installed, install_from_local-Installed,
}
use forkspacer.Helm.Manager.{
  Host, credentials, credentials_in, fetch_repo_auth_credentials, install_repo, install_file,
  written, in_temp, install_data, removing, install_archive, authenticated, authenticated_by,
  with_token, install_clone, removing_all, install_at, install_from, install_chart, required,
}

-- Either no temporary path was made; or one was, and the last thing that was done was to remove it.
-- In between is what an installation asks of the cluster.
abbrev pub Cleaned :
    {W A : Type 0} → String → String → List HelmEffect → Result A × HelmRun W → Type 0
Cleaned release namespace es (r, t) =
    Installed release namespace es (r, t)
    ⊎ ((path : String) × (fs : List HelmEffect) × (t.trace ≡ temp_removed path ∷ fs)
        × Installed release namespace (temp_made path ∷ es)
            (r, record { world = t.world; trace = fs }))

module _ {W : Type 0} (release namespace : String) where
  bind-Cleaned :
      {A : Type 0} (m : Exec (HelmRun W) A) (f : A → Exec (HelmRun W) (Unit {0})) (s : HelmRun W)
      → Quiet m
      → ((a : A) (t : HelmRun W) → Cleaned release namespace t.trace (f a t))
      → Cleaned release namespace s.trace ((m >>= f) s)
  bind-Cleaned m f s q k = go (m s).0 (m s).1 (q s)
    where
      go :
          (r : Result _) (t : HelmRun W)
          → t.trace ≡ s.trace
          → Cleaned release namespace s.trace (and_then f r t)
      go (ok a) t h = rw (← h) (k a t)
      go (err e) t h = inl (inl h)

required-Quiet : {W : Type 0} (o : Option String) → Quiet {W = W} (required o)
required-Quiet none = λ s. refl
required-Quiet (some v) = λ s. refl

module _ {W C V U O M : Type 0} (sdk : Sdk W C V) (host : Host W U O M) where
  credentials_in-Quiet : (pairs : Assoc String) → Quiet (credentials_in sdk host pairs)
  credentials_in-Quiet pairs =
      bind-Quiet {A = String} {B = String × String} (required (lookup "password" pairs)) _
        (required-Quiet (lookup "password" pairs)) (λ password s. refl)

  credentials-Quiet : (o : Option ModuleSpecHelmChartRepoAuth) → Quiet (credentials sdk host o)
  unfolding fetch_repo_auth_credentials
  credentials-Quiet none = λ s. refl
  credentials-Quiet (some auth) =
      bind-Quiet {A = Assoc String} {B = String × String}
        (step sdk "failed to fetch repository auth secret"
          (host.get_secret (record { key_namespace = auth.namespace; key_name = auth.name })))
        (credentials_in sdk host) (λ s. refl) credentials_in-Quiet

  with_token-Quiet : (url : U) (pairs : Assoc String) → Quiet (with_token sdk host url pairs)
  with_token-Quiet url pairs =
      bind-Quiet {A = String} {B = U} (required (lookup "token" pairs)) _
        (required-Quiet (lookup "token" pairs)) (λ token s. refl)

  authenticated_by-Quiet :
      (url : U) (o : Option ModuleSpecHelmChartGitAuthSecret)
      → Quiet (authenticated_by sdk host url o)
  authenticated_by-Quiet url none = λ s. refl
  authenticated_by-Quiet url (some r) =
      bind-Quiet {A = Assoc String} {B = U}
        (step sdk "failed to fetch secret"
          (host.get_secret (record { key_namespace = r.namespace; key_name = r.name })))
        (with_token sdk host url) (λ s. refl) (with_token-Quiet url)

  authenticated-Quiet :
      (url : U) (o : Option ModuleSpecHelmChartGitAuth) → Quiet (authenticated sdk host url o)
  authenticated-Quiet url none = λ s. refl
  authenticated-Quiet url (some auth) = authenticated_by-Quiet url auth.https_secret_ref

  written-Quiet : (path : String) (r : Result (Unit {0})) → Quiet (written sdk host path r)
  written-Quiet path (ok _) = λ s. refl
  written-Quiet path (err e) = λ s. refl

  module _ (h : ModuleSpecHelm) (release : String) where
    install_repo-Installed :
        (repo : ModuleSpecHelmChartRepo) (s : HelmRun W)
        → Installed release (get_namespace h) s.trace (install_repo sdk host h release repo s)
    install_repo-Installed repo s =
        bind-Installed {A = String × String} release (get_namespace h)
          (credentials sdk host repo.auth) _ s (credentials-Quiet repo.auth)
          (λ user.
            install_from_repository-Installed sdk release (get_namespace h) h.values repo.chart
              repo.url repo.version true user.0 user.1)

    install_file-Installed :
        (bytes path : String) (s : HelmRun W)
        → Installed release (get_namespace h) s.trace (install_file sdk host h release bytes path s)
    install_file-Installed bytes path s =
        let saved = attempt (calling sdk (host.write path bytes)) >>= written sdk host path in
        bind-Installed {A = Unit {0}} release (get_namespace h) saved _ s
          (bind-Quiet {A = Result (Unit {0})} {B = Unit {0}}
            (attempt (calling sdk (host.write path bytes))) (written sdk host path) (λ t. refl)
            (written-Quiet path))
          (λ _. install_from_local-Installed sdk release (get_namespace h) h.values path true)

    install_clone-Installed :
        (git : ModuleSpecHelmChartGit) (url : U) (dir : String) (s : HelmRun W)
        → Installed release
            (get_namespace h)
            s.trace
            (install_clone sdk host h release git url dir s)
    install_clone-Installed git url dir s =
        bind-Installed {A = Unit {0}} release (get_namespace h)
          (step sdk "git clone failed" (host.git_clone git.revision url dir)) _ s (λ t. refl)
          (λ _.
            install_from_local-Installed sdk release (get_namespace h) h.values
              (host.join dir git.path) true)

    in_temp-Cleaned :
        (use_path remove_path : String → Exec (HelmRun W) (Unit {0}))
        → ((path : String) (s : HelmRun W)
            → Installed release (get_namespace h) s.trace (use_path path s))
        → ((path : String) (s : HelmRun W)
            → (remove_path path s).1.trace ≡ temp_removed path ∷ s.trace)
        → (path : String) (s : HelmRun W)
        → Cleaned release (get_namespace h) s.trace (in_temp sdk host use_path remove_path path s)
    in_temp-Cleaned use_path remove_path used removed path s =
        let made : HelmRun W = record { world = s.world; trace = temp_made path ∷ s.trace } in
        inr (
          path,
          (use_path path made).1.trace,
          removed path (use_path path made).1,
          moved _ _ _ (used path made),
        )
      where
        -- The world does not matter.
        moved :
            (es : List HelmEffect) (r : Result (Unit {0}) × HelmRun W) (w : W)
            → Installed release (get_namespace h) es r
            → Installed release (get_namespace h) es (r.0, record { world = w; trace = r.1.trace })
        moved es (ok _, t) w i = i
        moved es (err _, t) w i = i

    install_from-Cleaned :
        (git : ModuleSpecHelmChartGit) (url : U) (s : HelmRun W)
        → Cleaned release (get_namespace h) s.trace (install_from sdk host h release git url s)
    install_from-Cleaned git url s =
        bind-Cleaned release (get_namespace h) {A = U} (authenticated sdk host url git.auth)
          (install_at sdk host h release git) s (authenticated-Quiet url git.auth)
          (λ signed u.
            bind-Cleaned release (get_namespace h) {A = String} (calling sdk host.mkdir_temp)
              (in_temp sdk host (install_clone sdk host h release git signed)
                (removing_all sdk host))
              u (λ v. refl)
              (in_temp-Cleaned _ (removing_all sdk host) (install_clone-Installed git signed)
                (λ path v. refl)))

    -- Installing a chart of a Helm module, whatever its source: at most one temporary file or
    -- directory is made, and it is removed after everything else, after success and after every
    -- error alike; in between the cluster is asked what an installation asks. No source is an
    -- error.
    pub install_chart-Cleaned :
        (repo : Option ModuleSpecHelmChartRepo) (r : Option ModuleSpecHelmChartConfigMap)
        (git : Option ModuleSpecHelmChartGit) (s : HelmRun W)
        → Cleaned release (get_namespace h) s.trace (install_chart sdk host h release repo r git s)
    unfolding install_chart
    install_chart-Cleaned (some repo) r git s = inl (install_repo-Installed repo s)
    install_chart-Cleaned none none none s = inl (inl refl)
    install_chart-Cleaned none (some r) git s =
        bind-Cleaned release (get_namespace h) {A = Assoc String}
          (step sdk "failed to fetch ConfigMap"
            (host.get_binary_data (record { key_namespace = r.namespace; key_name = r.name })))
          (install_data sdk host h release r.key) s (λ t. refl)
          (λ pairs t.
            bind-Cleaned release (get_namespace h) {A = String} (required (lookup r.key pairs))
              (install_archive sdk host h release) t (required-Quiet (lookup r.key pairs))
              (λ bytes u.
                bind-Cleaned release (get_namespace h) {A = String}
                  (step sdk "failed to create temporary file for Helm chart" host.create_temp)
                  (in_temp sdk host (install_file sdk host h release bytes) (removing sdk host)) u
                  (λ v. refl)
                  (in_temp-Cleaned _ (removing sdk host) (install_file-Installed bytes)
                    (λ path v. refl))))
    install_chart-Cleaned none none (some git) s =
        bind-Cleaned release (get_namespace h) {A = U} parsed (install_from sdk host h release git)
          s (λ t. refl) (install_from-Cleaned git)
      where
        parsed : Exec (HelmRun W) U
        parsed = lift (host.parse_url git.repo)
