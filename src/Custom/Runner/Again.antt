-- ===== src/Custom/Runner/Again.antt =====
-- The manager of a custom module is made again from the metadata that it left.
use forkspacer.Base.{
  ℕ, String, Bool, true, false, ◌≡◌, ◌≢◌, refl, ap, sym, ◌∙◌, Option, none, some, List, Assoc,
  eq_iff, ◌==◌, if◌then◌else◌,
}
use forkspacer.Go.{Result, ok}
use forkspacer.Exec.{Exec, ◌>>=◌, bind-ok, ◌>>◌, and_then, pure}
use forkspacer.Api.Module.{ModuleSpecCustom}
use forkspacer.Custom.{
  CustomEffect, CustomRun, Host, runner_pod_name, runner_service_name, store, decode_to_string,
  runner_pod_unique_label,
}
use forkspacer.Custom.Runner.{
  create_runner_pod, create_runner_service, wait_for_service_ready, store_pod, ensure_pod,
  ensure_service, with_pod, new_module_custom_manager,
}
use forkspacer.Custom.Runner.Frugal.{kept, wait_for_service_ready-Frugal}
use forkspacer.Custom.Runner.Named.{HostLaws, pod_of, service_of, found_pod, found_service}

unnamed : (name : String) → name ≢ "" → (name == "") ≡ false
unnamed name named = split (name == "") refl
  where
    split : (b : Bool) → (name == "") ≡ b → b ≡ false
    split true p = absurd (named ((eq_iff name "").0 p))
    split false p = refl

module _ {W M C G : Type 0} (host : Host W M C G) where
  -- with both names in the metadata there is only the wait for the service
  resumed :
      (fuel : ℕ) (api_config : C) (custom : ModuleSpecCustom) (config : G) (t : CustomRun W M)
      → pod_of host t ≢ ""
      → service_of host t ≢ ""
      → new_module_custom_manager host fuel api_config custom config t
        ≡ wait_for_service_ready host fuel (service_of host t) (pod_of host t) t
  unfolding new_module_custom_manager ensure_pod ensure_service
  resumed fuel api_config custom config t pod service =
      let label = decode_to_string host runner_pod_unique_label t.meta_data in
      let new : Exec (CustomRun W M) (Option (String × String)) =
        create_runner_pod host fuel api_config custom config >>= store_pod host in
      let pod_found : ensure_pod host fuel api_config custom config t
          ≡ (ok (some (pod_of host t, label)), t) =
        ap (λ b. (if b then new else pure (some (pod_of host t, label))) t)
          (unnamed (pod_of host t) pod) in
      let service_found : ensure_service host label t ≡ (ok (service_of host t), t) =
        ap
          (λ b.
            (if b
                then (create_runner_service host label >>= λ name.
                    store host runner_service_name (host.text_value name) >> pure name)
                else pure (service_of host t))
              t)
          (unnamed (service_of host t) service) in
      ap
        (λ (x : Result (Option (String × String)) × CustomRun W M).
          and_then (with_pod host fuel) x.0 x.1)
        pod_found
      ∙ ap
          (λ (x : Result String × CustomRun W M).
            and_then (λ name. wait_for_service_ready host fuel name (pod_of host t)) x.0 x.1)
          service_found

  made :
      (laws : HostLaws host) (fuel : ℕ) (api_config : C) (custom : ModuleSpecCustom) (config : G)
      (s t : CustomRun W M)
      → new_module_custom_manager host fuel api_config custom config s ≡ (ok true, t)
      → (pod_of host t ≢ "") × (service_of host t ≢ "")
  unfolding new_module_custom_manager
  made laws fuel api_config custom config s t h =
      let (o, u, first, rest) =
        bind-ok (ensure_pod host fuel api_config custom config) (with_pod host fuel) s true t h in
      go o u first rest
    where
      go :
          (o : Option (String × String)) (u : CustomRun W M)
          → ensure_pod host fuel api_config custom config s ≡ (ok o, u)
          → with_pod host fuel o u ≡ (ok true, t)
          → (pod_of host t ≢ "") × (service_of host t ≢ "")
      go none u first rest = cc
      go (some names) u first rest =
          let (service, v, served, waited) =
            bind-ok (ensure_service host names.1)
              (λ service. wait_for_service_ready host fuel service names.0) u true t rest in
          let pod_named = found_pod host laws fuel api_config custom config s u names first in
          let (service_named, pod_kept) = found_service host laws names.1 service u v served in
          let same : t.meta_data ≡ v.meta_data =
            sym (ap (λ (x : Result Bool × CustomRun W M). x.1.meta_data) waited)
            ∙ ap (λ (x : Assoc M × List CustomEffect). x.0)
                (wait_for_service_ready-Frugal host fuel service names.0 v) in
          (
            (λ empty.
                pod_named
                  (sym pod_kept ∙ sym (ap (decode_to_string host runner_pod_name) same) ∙ empty)),
            (λ empty.
                service_named (sym (ap (decode_to_string host runner_service_name) same) ∙ empty)),
          )

  -- Under HostLaws: once the manager of a custom module was made, making it again, whatever the
  -- kubeconfig, the spec and the config are by then and whatever becomes of it, creates nothing and
  -- leaves the metadata as it is.
  pub new_module_custom_manager-again :
      (laws : HostLaws host) (fuel more : ℕ) (api_config api_config' : C)
      (custom custom' : ModuleSpecCustom) (config config' : G) (s t : CustomRun W M)
      → new_module_custom_manager host fuel api_config custom config s ≡ (ok true, t)
      → kept host (new_module_custom_manager host more api_config' custom' config' t).1
        ≡ kept host t
  new_module_custom_manager-again laws fuel more api_config api_config' custom custom' config
        config' s t h =
      let (pod, service) = made laws fuel api_config custom config s t h in
      ap (λ (x : Result Bool × CustomRun W M). kept host x.1)
        (resumed more api_config' custom' config' t pod service)
      ∙ wait_for_service_ready-Frugal host more (service_of host t) (pod_of host t) t
