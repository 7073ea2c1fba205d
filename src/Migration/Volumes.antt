-- ===== src/Migration/Volumes.antt =====
-- pkg/services/pvc_migration.go: MigratePVC, which copies the contents of a volume claim to another
-- cluster through a pod in each of them.
-- client-go, the clock and the two commands that run in the pods, with the pipe between them, are
-- a parameter. The wait for a pod runs on fuel, one unit for each round, and answers whether it
-- ended: with `ok false` it still waits, and nothing that follows it has run.
pub mod Cleaned
use forkspacer.Base.{
  ℕ, zero, suc, ◌≡◌, String, Bool, true, false, not, ◌&&◌, Option, none, some, List, [], ◌∷◌, ◌==◌,
  if◌then◌else◌,
}
use forkspacer.Go.{Error, Result, ok, err, errorf, wrap_w, concat, is_not_found}
use forkspacer.Exec.{Exec, ◌>>=◌, ◌>>◌, pure, raise, lift, attempt, map_err}

-- the pod of a migration, with what its container mounts at /data
pub record MigrationPod : Type 0 where
  pub name : String
  pub namespace : String
  pub pvc_name : String
  pub image : String
  pub command : List String
  pub mount_path : String

pub data Phase : Type 0 where
  running failed succeeded other_phase : Phase

-- A condition is its type and its status.
pub record PodState : Type 0 where
  pub phase : Phase
  pub conditions : List (String × String)

-- what a `select` of the wait receives: the end of the context, the timeout, or a tick
pub data Event : Type 0 where
  cancelled : Error → Event
  timed_out ticked : Event

-- a pod created, its deletion sent, the copy begun
pub data VolumeEffect : Type 0 where
  pod_created pod_deleted : MigrationPod → VolumeEffect
  copy_run : VolumeEffect

-- `trace` holds the newest effect first.
pub record VolumeRun (W : Type 0) : Type 0 where
  pub world : W
  pub trace : List VolumeEffect

-- C is the type of kubeconfigs, R that of REST configs, K that of clients. `pipe` runs tar in the
-- pod of the source and untar in that of the destination.
pub record VolumeHost (W C R K : Type 0) : Type 0 where
  pub rest_config : C → Result R
  pub clientset : R → Result K
  pub unix : W → String × W
  pub create_pod : K → MigrationPod → W → Result (Unit {0}) × W
  pub get_pod : K → String → String → W → Result PodState × W
  pub delete_pod : K → String → String → W → Result (Unit {0}) × W
  pub select : W → Event × W
  pub pipe : K → MigrationPod → K → MigrationPod → W → (Result (Unit {0}) × Result (Unit {0})) × W

abbrev pub migration_pod : String → String → String → MigrationPod
migration_pod name namespace pvc_name = record {
  name = name;
  namespace = namespace;
  pvc_name = pvc_name;
  image = "alpine:latest";
  command = "tail" ∷ "-f" ∷ "/dev/null" ∷ [];
  mount_path = "/data";
}

-- A condition Ready with the status True decides; without one, whether no condition Ready has
-- another status.
abbrev conditions_ready : List (String × String) → Bool → Bool
conditions_ready [] all_ready = all_ready
conditions_ready (c ∷ cs) all_ready =
    let ready = conditions_ready cs all_ready in
    let unready = conditions_ready cs false in
    if c.0 == "Ready" then (if c.1 == "True" then true else unready) else ready

abbrev has_conditions : List (String × String) → Bool
has_conditions [] = false
has_conditions (_ ∷ _) = true

abbrev is_ready : PodState → Bool
is_ready p = elim p.phase [
  | running ↦ has_conditions p.conditions && conditions_ready p.conditions true
  | _ ↦ false
]

abbrev is_terminal : PodState → Bool
is_terminal p = elim p.phase [ failed ↦ true | succeeded ↦ true | _ ↦ false ]

module _ {W C R K : Type 0} (host : VolumeHost W C R K) where
  abbrev calling : {A : Type 0} → (W → Result A × W) → Exec (VolumeRun W) A
  calling f s = let (r, w) = f s.world in (r, record s { world = w })

  abbrev watching : {A : Type 0} → (W → A × W) → Exec (VolumeRun W) A
  watching f s = let (a, w) = f s.world in (ok a, record s { world = w })

  abbrev note : VolumeEffect → Exec (VolumeRun W) (Unit {0})
  note e s = (ok tt, record s { trace = e ∷ s.trace })

  pub create_migration_pod : K → MigrationPod → Exec (VolumeRun W) (Unit {0})
  create_migration_pod client pod =
      map_err (wrap_w "failed to create pod") (calling (host.create_pod client pod)) >>= λ _.
      note (pod_created pod)

  pub cleanup_pod : K → MigrationPod → Exec (VolumeRun W) (Result (Unit {0}))
  cleanup_pod client pod = note (pod_deleted pod) >>= λ _.
      attempt (calling (host.delete_pod client pod.namespace pod.name))

  abbrev pod_read : Exec (VolumeRun W) Bool → Result PodState → Exec (VolumeRun W) Bool
  pod_read more (err e) = if is_not_found e then more else raise (wrap_w "failed to get pod" e)
  pod_read more (ok p) =
      if is_ready p
      then pure true
      else if is_terminal p
      then raise (errorf "pod entered terminal phase")
      else more

  abbrev received : K → MigrationPod → Exec (VolumeRun W) Bool → Event → Exec (VolumeRun W) Bool
  received client pod more (cancelled e) = raise e
  received client pod more timed_out = raise (errorf "timeout waiting for pod to become ready")
  received client pod more ticked =
      attempt (calling (host.get_pod client pod.namespace pod.name)) >>= pod_read more

  pub wait_for_pod_ready : ℕ → K → MigrationPod → Exec (VolumeRun W) Bool
  wait_for_pod_ready zero client pod = pure false
  wait_for_pod_ready (suc fuel) client pod =
      let more = wait_for_pod_ready fuel client pod in
      watching host.select >>= received client pod more

  -- the error of the source comes first
  abbrev both : Result (Unit {0}) × Result (Unit {0}) → Result (Unit {0})
  both (err e, dest) = err (wrap_w "failed to tar source data" e)
  both (ok _, err e) = err (wrap_w "failed to untar to destination" e)
  both (ok _, ok _) = ok tt

  pub migrate_data_via_tar : K → MigrationPod → K → MigrationPod → Exec (VolumeRun W) (Unit {0})
  migrate_data_via_tar source source_pod dest dest_pod = note copy_run >>= λ _.
      watching (host.pipe source source_pod dest dest_pod) >>= λ results. lift (both results)

  -- the deferred clean-up, unless the wait has not ended
  abbrev deferred : K → MigrationPod → Result Bool → Exec (VolumeRun W) Bool
  deferred client pod (ok false) s = (ok false, s)
  deferred client pod (ok true) s = (ok true, (cleanup_pod client pod s).1)
  deferred client pod (err e) s = (err e, (cleanup_pod client pod s).1)

  abbrev with_pod : String → K → MigrationPod → Exec (VolumeRun W) Bool → Exec (VolumeRun W) Bool
  with_pod message client pod use_pod =
      map_err (wrap_w message) (create_migration_pod client pod) >>= λ _.
      (λ s. let (r, t) = use_pod s in deferred client pod r t)

  -- go on if the wait has ended
  abbrev once_ready :
      ℕ → String → K → MigrationPod → Exec (VolumeRun W) Bool → Exec (VolumeRun W) Bool
  once_ready fuel message client pod next =
      map_err (wrap_w message) (wait_for_pod_ready fuel client pod) >>= λ ready.
      if ready then next else pure false

  pub copy_between : ℕ → K → MigrationPod → K → MigrationPod → Exec (VolumeRun W) Bool
  unfolding wait_for_pod_ready migrate_data_via_tar
  copy_between fuel source source_pod dest dest_pod =
      once_ready fuel "source pod did not become ready" source source_pod (
        once_ready fuel "destination pod did not become ready" dest dest_pod (
          map_err (wrap_w "failed to migrate data")
            (migrate_data_via_tar source source_pod dest dest_pod)
          >>= λ _. pure true))

  pub between : ℕ → K → MigrationPod → K → MigrationPod → Exec (VolumeRun W) Bool
  unfolding create_migration_pod cleanup_pod copy_between
  between fuel source source_pod dest dest_pod =
      with_pod "failed to create source migration pod" source source_pod (
        with_pod "failed to create destination migration pod" dest dest_pod
          (copy_between fuel source source_pod dest dest_pod))

  abbrev pub source_pod_at : String → String → String → MigrationPod
  source_pod_at time namespace pvc_name =
      migration_pod (concat ("pvc-migration-source-" ∷ time ∷ [])) namespace pvc_name

  abbrev pub dest_pod_at : String → String → String → MigrationPod
  dest_pod_at time namespace pvc_name =
      migration_pod (concat ("pvc-migration-dest-" ∷ time ∷ [])) namespace pvc_name

  pub migrate_pvc : ℕ → C → String → String → C → String → String → Exec (VolumeRun W) Bool
  unfolding between
  migrate_pvc fuel source_config source_name source_namespace dest_config dest_name dest_namespace =
      map_err (wrap_w "failed to create source REST config") (lift (host.rest_config source_config))
      >>= λ source_rest.
          map_err (wrap_w "failed to create destination REST config")
            (lift (host.rest_config dest_config))
          >>= λ dest_rest.
              map_err (wrap_w "failed to create source clientset")
                (lift (host.clientset source_rest))
              >>= λ source.
                  map_err (wrap_w "failed to create destination clientset")
                    (lift (host.clientset dest_rest))
                  >>= λ dest. watching host.unix >>= λ time.
                      between fuel source (source_pod_at time source_namespace source_name) dest
                        (dest_pod_at time dest_namespace dest_name)
