-- ===== src/Custom/Runner/Cleaned.antt =====
-- What becomes of the secret and the pod of a runner.
use forkspacer.Base.{
  ℕ, zero, suc, ◌+◌, String, Bool, true, false, ◌≡◌, ◌⊎◌, inl, inr, refl, ap, ◌∙◌, Option, none,
  some, List, [], ◌∷◌, Assoc, leb,
}
use forkspacer.Go.{Error, Result, ok, err, wrap_w, concat}
use forkspacer.Exec.{Exec, ◌>>=◌, attempt, and_then, lift, map_err}
use forkspacer.Exec.Keeps.{Keeps, bind-Keeps, if-Keeps}
use forkspacer.Api.Module.{ModuleSpecCustom}
use forkspacer.Custom
use forkspacer.Custom.{
  PodPhase, PodStatus, Resource, runner_secret, runner_pod, CustomEffect, created, deletion_sent,
  CustomRun, Host, calling, create, delete,
}
use forkspacer.Custom.Runner.{
  build_runner_pod, pull_errors, pod_pending, pod_seen, wait_for_pod_running, pod_waited,
  start_runner_pod, deferred, secret_files, create_runner_secret, create_runner_pod,
}

module _ {W M C G : Type 0} (host : Host W M C G) where
  abbrev Quiet : {A : Type 0} → Exec (CustomRun W M) A → Type 0
  Quiet m = Keeps (λ (s : CustomRun W M). s.trace) m

  pending-Quiet :
      (n : ℕ) (more : ℕ → Exec (CustomRun W M) Bool)
      → ((m : ℕ) → Quiet (more m))
      → Quiet (pod_pending host n more)
  pending-Quiet n more q =
      if-Keeps (λ (s : CustomRun W M). s.trace) (leb 3 n) _ _ (λ s. refl)
        (λ s. q n (record s { world = (host.sleep 2 s.world).1 }))

  seen-Quiet :
      (errors : ℕ) (statuses : List (Option String)) (more : ℕ → Exec (CustomRun W M) Bool)
      (phase : PodPhase)
      → ((m : ℕ) → Quiet (more m))
      → Quiet (pod_seen host errors statuses more phase)
  seen-Quiet errors statuses more Custom.running q s = refl
  seen-Quiet errors statuses more Custom.unset q s =
      pending-Quiet (errors + pull_errors statuses) more q s
  seen-Quiet errors statuses more Custom.pending q s =
      pending-Quiet (errors + pull_errors statuses) more q s
  seen-Quiet errors statuses more Custom.succeeded q s = refl
  seen-Quiet errors statuses more Custom.failed q s = refl
  seen-Quiet errors statuses more (Custom.unexpected p) q s = refl

  wait_for_pod_running-Quiet :
      (fuel errors : ℕ) (name : String) → Quiet (wait_for_pod_running host fuel errors name)
  unfolding wait_for_pod_running
  wait_for_pod_running-Quiet zero errors name = λ s. refl
  wait_for_pod_running-Quiet (suc fuel) errors name =
      let more : ℕ → Exec (CustomRun W M) Bool = λ n. wait_for_pod_running host fuel n name in
      bind-Keeps (λ (s : CustomRun W M). s.trace) {A = PodStatus} {B = Bool}
        (calling host (host.get_pod name))
        (λ pod. pod_seen host errors pod.container_statuses more pod.phase) (λ s. refl)
        (λ pod.
          seen-Quiet errors pod.container_statuses more pod.phase
            (λ n. wait_for_pod_running-Quiet fuel n name))

  -- A property of the run of a creation and what follows it holds if it does when the creation
  -- fails, and when it gives a name.
  pub create-cases :
      {B : Type 0} (kind : Resource) (f : W → Result String × W)
      (k : String → Exec (CustomRun W M) B) (P : Result B × CustomRun W M → Type 0)
      (s : CustomRun W M)
      → ((e : Error) (w : W) → P (err e, record s { world = w }))
      → ((name : String) (w : W)
          → f s.world ≡ (ok name, w)
          → P (k name (record s { world = w; trace = created kind name ∷ s.trace })))
      → P ((create host kind f >>= k) s)
  create-cases {B} kind f k P s failed named = split (f s.world).0 (f s.world).1 refl
    where
      split :
          (r : Result String) (w : W)
          → f s.world ≡ (r, w)
          → P ((create host kind (λ v. (r, w)) >>= k) s)
      split (ok name) w p = named name w p
      split (err e) w p = failed e w

  -- What the start of a pod adds to the trace: nothing, or a pod that is deleted again, if it
  -- fails; the pod, otherwise.
  abbrev Started :
      List CustomEffect → Result (Option (String × String)) → List CustomEffect → Type 0
  Started old (err e) new =
      (new ≡ old)
      ⊎ ((pod : String) × (new ≡ deletion_sent runner_pod pod ∷ created runner_pod pod ∷ old))
  Started old (ok none) new = (pod : String) × (new ≡ created runner_pod pod ∷ old)
  Started old (ok (some names)) new = new ≡ created runner_pod names.0 ∷ old

  waited-Started :
      (old : List CustomEffect) (name label : String) (r : Result Bool) (s : CustomRun W M)
      → s.trace ≡ created runner_pod name ∷ old
      → Started old (pod_waited host name label r s).0 (pod_waited host name label r s).1.trace
  waited-Started old name label (ok true) s h = h
  waited-Started old name label (ok false) s h = (name, h)
  waited-Started old name label (err e) s h = inr (name, ap (deletion_sent runner_pod name ∷◌) h)

  start_runner_pod-Started :
      (fuel : ℕ) (custom : ModuleSpecCustom) (secret : String) (s : CustomRun W M)
      → Started s.trace
          (start_runner_pod host fuel custom secret s).0
          (start_runner_pod host fuel custom secret s).1.trace
  unfolding start_runner_pod
  start_runner_pod-Started fuel custom secret s =
      let time = (host.now s.world).0 in
      let label = concat ("custom-manager-runner-" ∷ time ∷ []) in
      let u : CustomRun W M = record s { world = (host.now s.world).1 } in
      let made : String → W → CustomRun W M =
        λ name w. record s { world = w; trace = created runner_pod name ∷ s.trace } in
      create-cases {B = Option (String × String)} runner_pod
        (host.create_pod (build_runner_pod custom secret label))
        (λ name. attempt (wait_for_pod_running host fuel 0 name) >>= pod_waited host name label)
        (λ x. Started s.trace x.0 x.1.trace) u (λ e w. inl refl)
        (λ name w found.
          waited-Started s.trace name label (wait_for_pod_running host fuel 0 name (made name w)).0
            (wait_for_pod_running host fuel 0 name (made name w)).1
            (wait_for_pod_running-Quiet fuel 0 name (made name w)))

  -- What the creation of a runner's pod adds to the trace. If it fails, nothing, or a secret that
  -- is deleted again, or a secret and a pod that are. If it succeeds, the pod whose name it
  -- returns, and a secret that is deleted again. While it waits for the pod, a secret and the pod.
  pub Cleaned : List CustomEffect → Result (Option (String × String)) → List CustomEffect → Type 0
  Cleaned old (err e) new =
      (new ≡ old)
      ⊎ ((secret : String) × (rest : List CustomEffect) × (new
            ≡ deletion_sent runner_secret secret ∷ rest)
          × Started (created runner_secret secret ∷ old) (err e) rest)
  Cleaned old (ok none) new =
      (secret : String) × Started (created runner_secret secret ∷ old) (ok none) new
  Cleaned old (ok (some names)) new =
      (secret : String) × (new
        ≡ deletion_sent runner_secret secret
          ∷ created runner_pod names.0
          ∷ created runner_secret secret
          ∷ old)

  deferred-Cleaned :
      (old made : List CustomEffect) (secret : String) (r : Result (Option (String × String)))
      (s : CustomRun W M)
      → made ≡ created runner_secret secret ∷ old
      → Started made r s.trace
      → Cleaned old (deferred host secret r s).0 (deferred host secret r s).1.trace
  unfolding Cleaned
  deferred-Cleaned old made secret (ok none) s p (pod, h) =
      (secret, (pod, h ∙ ap (created runner_pod pod ∷◌) p))
  deferred-Cleaned old made secret (ok (some names)) s p h = (
    secret,
    ap (deletion_sent runner_secret secret ∷◌) (h ∙ ap (created runner_pod names.0 ∷◌) p),
  )
  deferred-Cleaned old made secret (err e) s p (inl h) = inr (secret, s.trace, refl, inl (h ∙ p))
  deferred-Cleaned old made secret (err e) s p (inr (pod, h)) = inr (
    secret,
    s.trace,
    refl,
    inr (pod, h ∙ ap (λ t. deletion_sent runner_pod pod ∷ created runner_pod pod ∷ t) p),
  )

  -- the creation of the secret alone
  abbrev SecretMade : List CustomEffect → Result String → List CustomEffect → Type 0
  SecretMade old (err e) new = new ≡ old
  SecretMade old (ok secret) new = new ≡ created runner_secret secret ∷ old

  create_runner_secret-SecretMade :
      (api_config : C) (custom : ModuleSpecCustom) (config : G) (s : CustomRun W M)
      → SecretMade s.trace
          (create_runner_secret host api_config custom config s).0
          (create_runner_secret host api_config custom config s).1.trace
  unfolding create_runner_secret
  create_runner_secret-SecretMade api_config custom config s = marshalled (host.marshal config)
    where
      requested :
          (r : Result String) (w : W)
          → SecretMade s.trace
              (map_err
                (wrap_w "failed to create custom module secret")
                (create host runner_secret (λ v. (r, w)))
                s).0
              (map_err
                (wrap_w "failed to create custom module secret")
                (create host runner_secret (λ v. (r, w)))
                s).1.trace
      requested (ok name) w = refl
      requested (err e) w = refl

      request : Assoc String → Exec (CustomRun W M) String
      request files =
          map_err (wrap_w "failed to create custom module secret")
            (create host runner_secret (host.create_secret files))

      filled :
          (r : Result (Assoc String))
          → SecretMade s.trace ((lift r >>= request) s).0 ((lift r >>= request) s).1.trace
      filled (ok files) =
          requested (host.create_secret files s.world).0 (host.create_secret files s.world).1
      filled (err e) = refl

      fill : String → Exec (CustomRun W M) String
      fill json =
          lift (secret_files host api_config custom.permissions (("config.json", json) ∷ []))
          >>= request

      marshalled :
          (r : Result String)
          → SecretMade s.trace
              ((map_err (wrap_w "failed to marshal custom module configuration") (lift r) >>= fill)
                s).0
              ((map_err (wrap_w "failed to marshal custom module configuration") (lift r) >>= fill)
                s).1.trace
      marshalled (ok json) =
          filled (secret_files host api_config custom.permissions (("config.json", json) ∷ []))
      marshalled (err e) = refl

  -- Creating the pod of a runner leaves nothing behind but the pod that it returns. If it fails,
  -- at any step, nothing was created, or only a secret whose deletion was sent last, and at most
  -- a pod whose deletion was sent too. If it succeeds, a secret and the pod that it returns were
  -- created, and the deletion of the secret was sent last, that of the pod not. As long as it
  -- waits, a secret and a pod were created.
  pub create_runner_pod-Cleaned :
      (fuel : ℕ) (api_config : C) (custom : ModuleSpecCustom) (config : G) (s : CustomRun W M)
      → Cleaned s.trace
          (create_runner_pod host fuel api_config custom config s).0
          (create_runner_pod host fuel api_config custom config s).1.trace
  unfolding create_runner_pod Cleaned
  create_runner_pod-Cleaned fuel api_config custom config s =
      split (create_runner_secret host api_config custom config s).0
        (create_runner_secret host api_config custom config s).1
        (create_runner_secret-SecretMade api_config custom config s)
    where
      start : String → Exec (CustomRun W M) (Option (String × String))
      start secret t =
          deferred host secret (start_runner_pod host fuel custom secret t).0
            (start_runner_pod host fuel custom secret t).1

      split :
          (r : Result String) (t : CustomRun W M)
          → SecretMade s.trace r t.trace
          → Cleaned s.trace (and_then start r t).0 (and_then start r t).1.trace
      split (err e) t h = inl h
      split (ok secret) t h =
          deferred-Cleaned s.trace t.trace secret (start_runner_pod host fuel custom secret t).0
            (start_runner_pod host fuel custom secret t).1 h
            (start_runner_pod-Started fuel custom secret t)
