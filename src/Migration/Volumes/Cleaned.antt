-- ===== src/Migration/Volumes/Cleaned.antt =====
-- What becomes of the two pods of a migration.
use forkspacer.Base.{
  ℕ, zero, suc, ◌≡◌, ◌⊎◌, inl, inr, refl, ap, ◌∙◌, String, Bool, true, false, List, ◌∷◌, subst,
  if◌then◌else◌,
}
use forkspacer.Go.{Error, Result, ok, err, wrap_w, is_not_found}
use forkspacer.Exec.{Exec, ◌>>=◌, pure, lift, map_err}
use forkspacer.Exec.Keeps.{Keeps, bind-Keeps, if-Keeps}
use forkspacer.Migration.Volumes.{
  MigrationPod, PodState, Event, cancelled, timed_out, ticked, VolumeEffect, pod_created,
  pod_deleted, copy_run, VolumeRun, VolumeHost, is_ready, is_terminal, watching, note,
  create_migration_pod, cleanup_pod, pod_read, received, wait_for_pod_ready, both,
  migrate_data_via_tar, deferred, with_pod, once_ready, copy_between, between, source_pod_at,
  dest_pod_at, migrate_pvc,
}

module _ {W C R K : Type 0} (host : VolumeHost W C R K) where
  abbrev Quiet : {A : Type 0} → Exec (VolumeRun W) A → Type 0
  Quiet m = Keeps (λ (s : VolumeRun W). s.trace) m

  read-Quiet :
      (more : Exec (VolumeRun W) Bool) (r : Result PodState)
      → Quiet more
      → Quiet (pod_read host more r)
  read-Quiet more (err e) q =
      if-Keeps (λ (s : VolumeRun W). s.trace) (is_not_found e) more _ q (λ s. refl)
  read-Quiet more (ok p) q =
      if-Keeps (λ (s : VolumeRun W). s.trace) (is_ready p) (pure true) _ (λ s. refl)
        (if-Keeps (λ (s : VolumeRun W). s.trace) (is_terminal p) _ more (λ s. refl) q)

  received-Quiet :
      (client : K) (pod : MigrationPod) (more : Exec (VolumeRun W) Bool) (e : Event)
      → Quiet more
      → Quiet (received host client pod more e)
  received-Quiet client pod more (cancelled e) q s = refl
  received-Quiet client pod more timed_out q s = refl
  received-Quiet client pod more ticked q s =
      let (r, w) = host.get_pod client pod.namespace pod.name s.world in
      read-Quiet more r q (record s { world = w })

  wait_for_pod_ready-Quiet :
      (fuel : ℕ) (client : K) (pod : MigrationPod) → Quiet (wait_for_pod_ready host fuel client pod)
  unfolding wait_for_pod_ready
  wait_for_pod_ready-Quiet zero client pod = λ s. refl
  wait_for_pod_ready-Quiet (suc fuel) client pod =
      let more = wait_for_pod_ready host fuel client pod in
      bind-Keeps (λ (s : VolumeRun W). s.trace) {A = Event} {B = Bool} (watching host host.select)
        (received host client pod more) (λ s. refl)
        (λ e. received-Quiet client pod more e (wait_for_pod_ready-Quiet fuel client pod))

  -- a copy that succeeds was begun; one that fails perhaps; while it waits, not
  abbrev Copied : List VolumeEffect → Result Bool → List VolumeEffect → Type 0
  Copied old (ok true) new = new ≡ copy_run ∷ old
  Copied old (ok false) new = new ≡ old
  Copied old (err e) new = (new ≡ old) ⊎ (new ≡ copy_run ∷ old)

  AllCopied : Exec (VolumeRun W) Bool → Type 0
  AllCopied m = (s : VolumeRun W) → Copied s.trace (m s).0 (m s).1.trace

  once_ready-Copied :
      (fuel : ℕ) (message : String) (client : K) (pod : MigrationPod)
      (next : Exec (VolumeRun W) Bool)
      → AllCopied next
      → AllCopied (once_ready host fuel message client pod next)
  unfolding AllCopied
  once_ready-Copied fuel message client pod next all s =
      split (wait_for_pod_ready host fuel client pod s).0
        (wait_for_pod_ready host fuel client pod s).1 (wait_for_pod_ready-Quiet fuel client pod s)
    where
      goes : Bool → Exec (VolumeRun W) Bool
      goes ready = if ready then next else pure false

      split :
          (r : Result Bool) (t : VolumeRun W)
          → t.trace ≡ s.trace
          → Copied s.trace
              ((map_err (wrap_w message) (λ (v : VolumeRun W). (r, t)) >>= goes) s).0
              ((map_err (wrap_w message) (λ (v : VolumeRun W). (r, t)) >>= goes) s).1.trace
      split (err e) t q = inl q
      split (ok false) t q = q
      split (ok true) t q = subst (λ old. Copied old (next t).0 (next t).1.trace) q (all t)

  tar-Copied :
      (source : K) (source_pod : MigrationPod) (dest : K) (dest_pod : MigrationPod)
      → AllCopied (
          map_err
            (wrap_w "failed to migrate data")
            (migrate_data_via_tar host source source_pod dest dest_pod)
          >>= λ _. pure true)
  unfolding AllCopied migrate_data_via_tar
  tar-Copied source source_pod dest dest_pod s =
      split (both host (host.pipe source source_pod dest dest_pod s.world).0)
    where
      t : VolumeRun W
      t = record s {
        world = (host.pipe source source_pod dest dest_pod s.world).1;
        trace = copy_run ∷ s.trace;
      }

      done_so : Exec (VolumeRun W) Bool
      done_so = pure true

      split :
          (r : Result (Unit {0}))
          → Copied s.trace
              ((map_err (wrap_w "failed to migrate data") (lift r) >>= λ _. done_so) t).0
              ((map_err (wrap_w "failed to migrate data") (lift r) >>= λ _. done_so) t).1.trace
      split (ok _) = refl
      split (err e) = inr refl

  copy_between-Copied :
      (fuel : ℕ) (source : K) (source_pod : MigrationPod) (dest : K) (dest_pod : MigrationPod)
      → AllCopied (copy_between host fuel source source_pod dest dest_pod)
  unfolding copy_between
  copy_between-Copied fuel source source_pod dest dest_pod =
      once_ready-Copied fuel "source pod did not become ready" source source_pod _ (
        once_ready-Copied fuel "destination pod did not become ready" dest dest_pod _
          (tar-Copied source source_pod dest dest_pod))

  -- with one pod around the copy
  abbrev Around : MigrationPod → List VolumeEffect → Result Bool → List VolumeEffect → Type 0
  Around pod old (ok true) new = new ≡ pod_deleted pod ∷ copy_run ∷ pod_created pod ∷ old
  Around pod old (ok false) new = new ≡ pod_created pod ∷ old
  Around pod old (err e) new =
      (new ≡ old)
      ⊎ (new ≡ pod_deleted pod ∷ pod_created pod ∷ old)
      ⊎ (new ≡ pod_deleted pod ∷ copy_run ∷ pod_created pod ∷ old)

  with_pod-cases :
      (message : String) (client : K) (pod : MigrationPod) (use_pod : Exec (VolumeRun W) Bool)
      (P : Result Bool × VolumeRun W → Type 0) (s : VolumeRun W)
      → ((e : Error) (w : W) → P (err e, record s { world = w }))
      → ((u : VolumeRun W)
          → u.trace ≡ pod_created pod ∷ s.trace
          → P (deferred host client pod (use_pod u).0 (use_pod u).1))
      → P (with_pod host message client pod use_pod s)
  unfolding create_migration_pod
  with_pod-cases message client pod use_pod P s failed created =
      split (host.create_pod client pod s.world).0 (host.create_pod client pod s.world).1
    where
      held : Unit {0} → Exec (VolumeRun W) Bool
      held _ t = deferred host client pod (use_pod t).0 (use_pod t).1

      noted : Unit {0} → Exec (VolumeRun W) (Unit {0})
      noted _ = note host (pod_created pod)

      split :
          (r : Result (Unit {0})) (w : W)
          → P (
              (map_err (wrap_w message) (
                    map_err
                      (wrap_w "failed to create pod")
                      (λ (v : VolumeRun W). (r, record s { world = w }))
                    >>= noted)
                  >>= held)
                s)
      split (ok _) w = created (record s { world = w; trace = pod_created pod ∷ s.trace }) refl
      split (err e) w = failed (wrap_w message (wrap_w "failed to create pod" e)) w

  deferred-Around :
      (client : K) (pod : MigrationPod) (old base : List VolumeEffect) (r : Result Bool)
      (t : VolumeRun W)
      → base ≡ pod_created pod ∷ old
      → Copied base r t.trace
      → Around pod old (deferred host client pod r t).0 (deferred host client pod r t).1.trace
  unfolding cleanup_pod
  deferred-Around client pod old base (ok true) t p c =
      ap (pod_deleted pod ∷◌) (c ∙ ap (copy_run ∷◌) p)
  deferred-Around client pod old base (ok false) t p c = c ∙ p
  deferred-Around client pod old base (err e) t p (inl c) =
      inr (inl (ap (pod_deleted pod ∷◌) (c ∙ p)))
  deferred-Around client pod old base (err e) t p (inr c) =
      inr (inr (ap (pod_deleted pod ∷◌) (c ∙ ap (copy_run ∷◌) p)))

  inner-Around :
      (message : String) (client : K) (pod : MigrationPod) (use_pod : Exec (VolumeRun W) Bool)
      → AllCopied use_pod
      → (s : VolumeRun W)
      → Around pod s.trace
          (with_pod host message client pod use_pod s).0
          (with_pod host message client pod use_pod s).1.trace
  unfolding AllCopied
  inner-Around message client pod use_pod all s =
      with_pod-cases message client pod use_pod (λ x. Around pod s.trace x.0 x.1.trace) s
        (λ e w. inl refl)
        (λ u p. deferred-Around client pod s.trace u.trace (use_pod u).0 (use_pod u).1 p (all u))

  -- What a migration adds to the trace, with the pod of the source around that of the destination.
  -- If it fails, nothing, or the pod of the source around what the rest added.
  pub Cleaned :
      MigrationPod → MigrationPod → List VolumeEffect → Result Bool → List VolumeEffect → Type 0
  Cleaned source dest old (ok true) new =
      new
      ≡ pod_deleted source
        ∷ pod_deleted dest
        ∷ copy_run
        ∷ pod_created dest
        ∷ pod_created source
        ∷ old
  Cleaned source dest old (ok false) new = new ≡ pod_created dest ∷ pod_created source ∷ old
  Cleaned source dest old (err e) new =
      (new ≡ old)
      ⊎ ((rest : List VolumeEffect) × (new ≡ pod_deleted source ∷ rest)
          × Around dest (pod_created source ∷ old) (err e) rest)

  deferred-Cleaned :
      (client : K) (source dest : MigrationPod) (old base : List VolumeEffect) (r : Result Bool)
      (t : VolumeRun W)
      → base ≡ pod_created source ∷ old
      → Around dest base r t.trace
      → Cleaned source dest old
          (deferred host client source r t).0
          (deferred host client source r t).1.trace
  unfolding Cleaned cleanup_pod
  deferred-Cleaned client source dest old base (ok true) t p c =
      ap (pod_deleted source ∷◌)
        (c ∙ ap (λ x. pod_deleted dest ∷ copy_run ∷ pod_created dest ∷ x) p)
  deferred-Cleaned client source dest old base (ok false) t p c = c ∙ ap (pod_created dest ∷◌) p
  deferred-Cleaned client source dest old base (err e) t p c =
      inr (t.trace, refl, subst (λ x. Around dest x (err e) t.trace) p c)

  between-Cleaned :
      (fuel : ℕ) (source : K) (source_pod : MigrationPod) (dest : K) (dest_pod : MigrationPod)
      (s : VolumeRun W)
      → Cleaned source_pod dest_pod s.trace
          (between host fuel source source_pod dest dest_pod s).0
          (between host fuel source source_pod dest dest_pod s).1.trace
  unfolding between Cleaned
  between-Cleaned fuel source source_pod dest dest_pod s =
      let copy = copy_between host fuel source source_pod dest dest_pod in
      let inner = with_pod host "failed to create destination migration pod" dest dest_pod copy in
      with_pod-cases "failed to create source migration pod" source source_pod inner
        (λ x. Cleaned source_pod dest_pod s.trace x.0 x.1.trace) s (λ e w. inl refl)
        (λ u p.
          deferred-Cleaned source source_pod dest_pod s.trace u.trace (inner u).0 (inner u).1 p (
            inner-Around "failed to create destination migration pod" dest dest_pod copy
              (copy_between-Copied fuel source source_pod dest dest_pod) u))

  lifted :
      {A : Type 0} (message : String) (r : Result A) (k : A → Exec (VolumeRun W) Bool)
      (P : Result Bool × VolumeRun W → Type 0) (s : VolumeRun W)
      → ((e : Error) → P (err e, s))
      → ((a : A) → P (k a s))
      → P ((map_err (wrap_w message) (lift r) >>= k) s)
  lifted message (ok a) k P s failed rest = rest a
  lifted message (err e) k P s failed rest = failed (wrap_w message e)

  -- Copying a volume claim leaves none of its pods behind. A copy that succeeds has created a pod
  -- in the source and then one in the destination, run the commands, and sent the deletion of the
  -- pod in the destination and then of that in the source. If it fails, at any step, each pod that
  -- was created was deleted so too, and nothing else was done but the commands, at most. As long as
  -- it waits for a pod, both were created, and no command has run.
  pub migrate_pvc-Cleaned :
      (fuel : ℕ) (source_config : C) (source_name source_namespace : String) (dest_config : C)
      (dest_name dest_namespace : String) (s : VolumeRun W)
      → Cleaned
          (source_pod_at host (host.unix s.world).0 source_namespace source_name)
          (dest_pod_at host (host.unix s.world).0 dest_namespace dest_name)
          s.trace
          (migrate_pvc host fuel source_config source_name source_namespace dest_config dest_name
            dest_namespace s).0
          (migrate_pvc host fuel source_config source_name source_namespace dest_config dest_name
            dest_namespace s).1.trace
  unfolding migrate_pvc Cleaned
  migrate_pvc-Cleaned fuel source_config source_name source_namespace dest_config dest_name
        dest_namespace s =
      let time = (host.unix s.world).0 in
      let u : VolumeRun W = record s { world = (host.unix s.world).1 } in
      let source_pod = source_pod_at host time source_namespace source_name in
      let dest_pod = dest_pod_at host time dest_namespace dest_name in
      let P : Result Bool × VolumeRun W → Type 0 =
        λ x. Cleaned source_pod dest_pod s.trace x.0 x.1.trace in
      lifted "failed to create source REST config" (host.rest_config source_config) _ P s
        (λ e. inl refl)
        (λ source_rest.
          lifted "failed to create destination REST config" (host.rest_config dest_config) _ P s
            (λ e. inl refl)
            (λ dest_rest.
              lifted "failed to create source clientset" (host.clientset source_rest) _ P s
                (λ e. inl refl)
                (λ source.
                  lifted "failed to create destination clientset" (host.clientset dest_rest) _ P s
                    (λ e. inl refl)
                    (λ dest. between-Cleaned fuel source source_pod dest dest_pod u))))
