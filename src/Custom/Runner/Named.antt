-- ===== src/Custom/Runner/Named.antt =====
-- The names of the pod and the service of a runner in the metadata.
use forkspacer.Base.{
  ℕ, String, Bool, true, false, ◌≡◌, ◌≢◌, refl, ap, sym, subst, ◌∙◌, Option, none, some, [], ◌∷◌,
  insert, lookup-insert, eq_iff, false≢true, ◌==◌, if◌then◌else◌,
}
use forkspacer.Go.{Result, ok, err, concat}
use forkspacer.Exec.{Exec, ◌>>=◌, bind-ok, ◌>>◌, attempt, and_then, pure}
use forkspacer.Api.Module.{ModuleSpecCustom}
use forkspacer.Custom.{
  runner_pod, runner_service, RunnerPod, created, CustomRun, Host, runner_pod_name,
  runner_service_name, create, store, decode_to_string, decoded, or_empty, runner_pod_unique_label,
}
use forkspacer.Custom.Runner.{
  build_runner_pod, wait_for_pod_running, pod_waited, start_runner_pod, create_runner_pod,
  create_runner_service, store_pod, ensure_pod, ensure_service, deferred, create_runner_secret,
}
use forkspacer.Custom.Runner.Cleaned.{create-cases}

-- What is relied on: a text that is stored is read again, and what is created has a name.
pub record HostLaws {W M C G : Type 0} (host : Host W M C G) : Type 0 where
  pub decoded_text : (text : String) → host.decode (host.text_value text) ≡ some text
  pub pod_named :
      (pod : RunnerPod) (w v : W) (name : String) → host.create_pod pod w ≡ (ok name, v) → name ≢ ""
  pub service_named :
      (label : String) (w v : W) (name : String)
      → host.create_service label w ≡ (ok name, v)
      → name ≢ ""

module _ {W M C G : Type 0} (host : Host W M C G) where
  abbrev pub pod_of : CustomRun W M → String
  pod_of s = decode_to_string host runner_pod_name s.meta_data

  abbrev pub service_of : CustomRun W M → String
  service_of s = decode_to_string host runner_service_name s.meta_data

  module _ (laws : HostLaws host) where
    abbrev Named : Result (Option (String × String)) × CustomRun W M → Type 0
    Named (ok (some names), t) = names.0 ≢ ""
    Named (ok none, t) = Unit {0}
    Named (err e, t) = Unit {0}

    waited-Named :
        (name label : String) (r : Result Bool) (s : CustomRun W M)
        → name ≢ ""
        → Named (pod_waited host name label r s)
    waited-Named name label (ok true) s h = h
    waited-Named name label (ok false) s h = tt
    waited-Named name label (err e) s h = tt

    start_runner_pod-Named :
        (fuel : ℕ) (custom : ModuleSpecCustom) (secret : String) (s : CustomRun W M)
        → Named (start_runner_pod host fuel custom secret s)
    unfolding start_runner_pod
    start_runner_pod-Named fuel custom secret s =
        let time = (host.now s.world).0 in
        let label = concat ("custom-manager-runner-" ∷ time ∷ []) in
        let u : CustomRun W M = record s { world = (host.now s.world).1 } in
        let made : String → W → CustomRun W M =
          λ name w. record s { world = w; trace = created runner_pod name ∷ s.trace } in
        create-cases host {B = Option (String × String)} runner_pod
          (host.create_pod (build_runner_pod custom secret label))
          (λ name. attempt (wait_for_pod_running host fuel 0 name) >>= pod_waited host name label)
          Named u (λ e w. tt)
          (λ name w found.
            waited-Named name label (wait_for_pod_running host fuel 0 name (made name w)).0
              (wait_for_pod_running host fuel 0 name (made name w)).1
              (laws.pod_named (build_runner_pod custom secret label) u.world w name found))

    deferred-Named :
        (secret : String) (r : Result (Option (String × String))) (t : CustomRun W M)
        → Named (r, t)
        → Named (deferred host secret r t)
    deferred-Named secret (ok none) t h = tt
    deferred-Named secret (ok (some names)) t h = h
    deferred-Named secret (err e) t h = tt

    create_runner_pod-Named :
        (fuel : ℕ) (api_config : C) (custom : ModuleSpecCustom) (config : G) (s : CustomRun W M)
        → Named (create_runner_pod host fuel api_config custom config s)
    unfolding create_runner_pod
    create_runner_pod-Named fuel api_config custom config s =
        split (create_runner_secret host api_config custom config s).0
          (create_runner_secret host api_config custom config s).1
      where
        start : String → Exec (CustomRun W M) (Option (String × String))
        start secret t =
            deferred host secret (start_runner_pod host fuel custom secret t).0
              (start_runner_pod host fuel custom secret t).1

        split : (r : Result String) (t : CustomRun W M) → Named (and_then start r t)
        split (err e) t = tt
        split (ok secret) t =
            deferred-Named secret (start_runner_pod host fuel custom secret t).0
              (start_runner_pod host fuel custom secret t).1
              (start_runner_pod-Named fuel custom secret t)

    -- what the stored names read as
    stored-pod_of :
        (names : String × String) (s : CustomRun W M)
        → pod_of (store_pod host (some names) s).1 ≡ names.0
    stored-pod_of names s =
        let inner = insert runner_pod_name (host.text_value names.0) s.meta_data in
        let label =
          lookup-insert runner_pod_unique_label runner_pod_name (host.text_value names.1) inner in
        let pod =
          lookup-insert runner_pod_name runner_pod_name (host.text_value names.0) s.meta_data in
        ap (decoded host) (label ∙ pod) ∙ ap or_empty (laws.decoded_text names.0)

    -- what the metadata says of the pod, and then of the service, is not empty
    pub found_pod :
        (fuel : ℕ) (api_config : C) (custom : ModuleSpecCustom) (config : G) (s u : CustomRun W M)
        (names : String × String)
        → ensure_pod host fuel api_config custom config s ≡ (ok (some names), u)
        → pod_of u ≢ ""
    unfolding ensure_pod
    found_pod fuel api_config custom config s u names h = split (pod_of s == "") refl h
      where
        new : Exec (CustomRun W M) (Option (String × String))
        new = create_runner_pod host fuel api_config custom config

        stored :
            (o : Option (String × String)) (t : CustomRun W M)
            → Named (ok o, t)
            → store_pod host o t ≡ (ok (some names), u)
            → pod_of u ≢ ""
        stored none t n e = cc
        stored (some found) t n e =
            let q : (store_pod host (some found) t).1 ≡ u = ap (λ x. x.1) e in
            λ empty. n (sym (stored-pod_of found t) ∙ ap pod_of q ∙ empty)

        split :
            (b : Bool)
            → (pod_of s == "") ≡ b
            → (if b
                  then new >>= store_pod host
                  else pure
                      (some (pod_of s, decode_to_string host runner_pod_unique_label s.meta_data)))
                s
              ≡ (ok (some names), u)
            → pod_of u ≢ ""
        split true p e =
            let (o, t, made, kept_names) = bind-ok new (store_pod host) s (some names) u e in
            stored o t (subst Named made (create_runner_pod-Named fuel api_config custom config s))
              kept_names
        split false p e = λ empty. false≢true (
            sym p
            ∙ (eq_iff (pod_of s) "").1 (
                ap (λ (x : Result (Option (String × String)) × CustomRun W M). pod_of x.1) e
                ∙ empty))

    abbrev ServiceNamed : CustomRun W M → Result String × CustomRun W M → Type 0
    ServiceNamed s (ok name, t) = (name ≢ "") × (t.meta_data ≡ s.meta_data)
    ServiceNamed s (err e, t) = Unit {0}

    create_runner_service-ServiceNamed :
        (label : String) (s : CustomRun W M) → ServiceNamed s (create_runner_service host label s)
    unfolding create_runner_service
    create_runner_service-ServiceNamed label s =
        split (host.create_service label s.world).0 (host.create_service label s.world).1 refl
      where
        split :
            (r : Result String) (w : W)
            → host.create_service label s.world ≡ (r, w)
            → ServiceNamed s (create host runner_service (λ v. (r, w)) s)
        split (ok name) w p = (laws.service_named label s.world w name p, refl)
        split (err e) w p = tt

    -- the metadata after the name of a service is stored
    stored-service_of :
        (service : String) (t : CustomRun W M)
        → (service_of (store host runner_service_name (host.text_value service) t).1 ≡ service)
          × (pod_of (store host runner_service_name (host.text_value service) t).1 ≡ pod_of t)
    stored-service_of service t =
        let new = host.text_value service in
        (
          ap (decoded host) (lookup-insert runner_service_name runner_service_name new t.meta_data)
              ∙ ap or_empty (laws.decoded_text service),
          ap (decoded host) (lookup-insert runner_service_name runner_pod_name new t.meta_data),
        )

    pub found_service :
        (label service : String) (s u : CustomRun W M)
        → ensure_service host label s ≡ (ok service, u)
        → (service_of u ≢ "") × (pod_of u ≡ pod_of s)
    unfolding ensure_service
    found_service label service s u h = split (service_of s == "") refl h
      where
        keep : String → Exec (CustomRun W M) String
        keep name = store host runner_service_name (host.text_value name) >> pure name

        stored :
            (name : String) (t : CustomRun W M)
            → ServiceNamed s (ok name, t)
            → keep name t ≡ (ok service, u)
            → (service_of u ≢ "") × (pod_of u ≡ pod_of s)
        stored name t (named, same) e =
            let q : (store host runner_service_name (host.text_value name) t).1 ≡ u =
              ap (λ (x : Result String × CustomRun W M). x.1) e in
            let (service_is, pod_is) = stored-service_of name t in
            (
              (λ empty. named (sym service_is ∙ ap service_of q ∙ empty)),
              sym (ap pod_of q) ∙ pod_is ∙ ap (decode_to_string host runner_pod_name) same,
            )

        split :
            (b : Bool)
            → (service_of s == "") ≡ b
            → (if b then create_runner_service host label >>= keep else pure (service_of s)) s
              ≡ (ok service, u)
            → (service_of u ≢ "") × (pod_of u ≡ pod_of s)
        split true p e =
            let (name, t, made, kept_name) =
              bind-ok (create_runner_service host label) keep s service u e in
            stored name t (subst (ServiceNamed s) made (create_runner_service-ServiceNamed label s))
              kept_name
        split false p e =
            let q : s ≡ u = ap (λ (x : Result String × CustomRun W M). x.1) e in
            (
              (λ empty.
                  false≢true (sym p ∙ (eq_iff (service_of s) "").1 (ap service_of q ∙ empty))),
              sym (ap pod_of q),
            )
