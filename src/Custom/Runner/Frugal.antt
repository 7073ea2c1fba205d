-- ===== src/Custom/Runner/Frugal.antt =====
-- Waiting for the service of a runner creates nothing, and leaves the metadata alone.
use forkspacer.Base.{
  ℕ, zero, suc, String, Bool, true, refl, Option, List, [], ◌∷◌, Assoc, ◌==◌, if◌then◌else◌,
}
use forkspacer.Go.{Result, ok, err, wrap_w}
use forkspacer.Exec.{Exec, ◌>>=◌, ◌>>◌, map_err, pure}
use forkspacer.Exec.Keeps.{Keeps, bind-Keeps, if-Keeps}
use forkspacer.Custom.{
  Resource, runner_pod, runner_service, CustomEffect, created, deletion_sent, posted, CustomRun,
  Host, calling, watching,
}
use forkspacer.Custom.Runner.{
  any_slice_ready, is_service_ready, delete_if, delete_if_read, cleanup_resources_on_timeout,
  wait_for_service_ready,
}

-- the resources that were created
abbrev pub creations : List CustomEffect → List CustomEffect
creations [] = []
creations (created kind name ∷ effects) = created kind name ∷ creations effects
creations (deletion_sent kind name ∷ effects) = creations effects
creations (posted service endpoint ∷ effects) = creations effects

module _ {W M C G : Type 0} (host : Host W M C G) where
  -- the metadata, and the resources that were created
  abbrev pub kept : CustomRun W M → Assoc M × List CustomEffect
  kept s = (s.meta_data, creations s.trace)

  abbrev pub Frugal : {A : Type 0} → Exec (CustomRun W M) A → Type 0
  Frugal m = Keeps kept m

  bind-Frugal :
      {A B : Type 0} (m : Exec (CustomRun W M) A) (f : A → Exec (CustomRun W M) B)
      → Frugal m
      → ((a : A) → Frugal (f a))
      → Frugal (m >>= f)
  bind-Frugal m f = bind-Keeps kept m f

  deletion-Frugal :
      (kind : Resource) (name : String) (r : Result (Unit {0}))
      → Frugal (delete_if host kind name r)
  deletion-Frugal kind name (ok _) s = refl
  deletion-Frugal kind name (err e) s = refl

  delete-Frugal : (kind : Resource) (name : String) → Frugal (delete_if_read host kind name)
  delete-Frugal kind name s =
      deletion-Frugal kind name (host.get kind name s.world).0
        (record s { world = (host.get kind name s.world).1 })

  cleanup-Frugal : (service pod : String) → Frugal (cleanup_resources_on_timeout host service pod)
  unfolding cleanup_resources_on_timeout
  cleanup-Frugal service pod =
      bind-Frugal {A = Unit {0}} {B = Bool}
        (delete_if_read host runner_service service
          >> (if pod == "" then pure tt else delete_if_read host runner_pod pod))
        _
        (bind-Frugal {A = Unit {0}} {B = Unit {0}} (delete_if_read host runner_service service) _
          (delete-Frugal runner_service service)
          (λ _.
            if-Keeps kept (pod == "") (pure tt) (delete_if_read host runner_pod pod) (λ s. refl)
              (delete-Frugal runner_pod pod)))
        (λ _ s. refl)

  ready-Frugal : (service : String) → Frugal (is_service_ready host service)
  unfolding is_service_ready
  ready-Frugal service =
      bind-Frugal {A = List (List (Option Bool))} {B = Bool}
        (map_err (wrap_w "failed to list endpointslices")
          (calling host (host.list_endpoints service)))
        (λ slices. pure (any_slice_ready slices)) (λ s. refl) (λ slices s. refl)

  pub wait_for_service_ready-Frugal :
      (fuel : ℕ) (service pod : String) → Frugal (wait_for_service_ready host fuel service pod)
  unfolding wait_for_service_ready
  wait_for_service_ready-Frugal zero service pod = λ s. refl
  wait_for_service_ready-Frugal (suc fuel) service pod =
      let again : Bool → Exec (CustomRun W M) Bool =
        λ ready. if ready then pure true else wait_for_service_ready host fuel service pod in
      let checked : Exec (CustomRun W M) Bool =
        map_err (wrap_w "failed to check service readiness") (is_service_ready host service)
        >>= again in
      bind-Frugal {A = Bool} {B = Bool} (watching host host.select)
        (λ timed_out. if timed_out then cleanup_resources_on_timeout host service pod else checked)
        (λ s. refl)
        (λ timed_out.
          if-Keeps kept timed_out (cleanup_resources_on_timeout host service pod) checked
            (cleanup-Frugal service pod)
            (bind-Frugal {A = Bool} {B = Bool}
              (map_err (wrap_w "failed to check service readiness") (is_service_ready host service))
              again (ready-Frugal service)
              (λ ready.
                if-Keeps kept ready (pure true) (wait_for_service_ready host fuel service pod)
                  (λ s. refl) (wait_for_service_ready-Frugal fuel service pod))))
