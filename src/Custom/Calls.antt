-- ===== src/Custom/Calls.antt =====
-- pkg/manager/custom.go: callRunnerEndpoint, and Install, Uninstall, Sleep and Resume.
pub mod Asked
use forkspacer.Base.{
  ℕ, String, Bool, Option, none, some, List, [], ◌∷◌, Assoc, lookup, nat_eq, ◌==◌, if◌then◌else◌,
}
use forkspacer.Go.{Result, ok, err, errorf, wrap_w, concat}
use forkspacer.Exec.{Exec, ◌>>=◌, ◌>>◌, pure, raise, lift, attempt, map_err}
use forkspacer.Custom.{
  Resource, runner_pod, runner_service, posted, CustomRun, Response, Host, runner_pod_name,
  runner_service_name, inner_meta_data, calling, note, delete, decode_to_string, meta, store,
}

module _ {W M C G : Type 0} (host : Host W M C G) where
  unfoldable pub encode_meta_data : Assoc M → String
  encode_meta_data meta_data = elim (host.encode_inner (lookup inner_meta_data meta_data)) [
    | ok json ↦ json
    | err e ↦ "{}"
  ]

  abbrev failure : String → String → Result (Assoc M)
  failure endpoint body =
      if body == ""
      then err (
          errorf (
            concat ("custom module " ∷ endpoint ∷ " endpoint returned error with empty body" ∷ [])))
      else err
          (errorf (concat ("custom module " ∷ endpoint ∷ " endpoint returned error: " ∷ body ∷ [])))

  abbrev response_of : String → String → Result (Assoc M)
  response_of endpoint body = if body == "" then ok [] else elim (host.unmarshal body) [
    | ok response ↦ ok response
    | err e ↦ err (wrap_w "failed to unmarshal response body after successful request" e)
  ]

  -- the `switch` on the status code
  abbrev answered : String → ℕ → ℕ → String → Result (Assoc M)
  answered endpoint success status body =
      if nat_eq status 400
      then failure endpoint body
      else if nat_eq status success
      then response_of endpoint body
      else err (errorf "received unexpected status code")

  abbrev read_response : String → ℕ → Response → Result (Assoc M)
  read_response endpoint success x = elim x.body [
    | ok body ↦ answered endpoint success x.status_code body
    | err e ↦ err (wrap_w "failed to read response body" e)
  ]

  pub call_runner_endpoint : String → String → ℕ → Exec (CustomRun W M) (Assoc M)
  call_runner_endpoint service endpoint success = meta host >>= λ meta_data.
      note host (posted service endpoint) >>= λ _.
      calling host (host.post service endpoint (encode_meta_data meta_data)) >>= λ x.
      lift (read_response endpoint success x)

  -- a response that is not empty becomes the inner metadata
  abbrev save_response : Assoc M → Exec (CustomRun W M) (Unit {0})
  save_response [] = pure tt
  save_response (x ∷ xs) = store host inner_meta_data (host.map_value (x ∷ xs))

  abbrev missing : {A : Type 0} → String → Exec (CustomRun W M) A
  missing what = raise (errorf (concat ("runner " ∷ what ∷ " name is missing in metadata" ∷ [])))

  abbrev service_name : Exec (CustomRun W M) String
  service_name = meta host >>= λ meta_data.
      let name = decode_to_string host runner_service_name meta_data in
      if name == "" then missing "service" else pure name

  -- what Install, Sleep and Resume have in common
  pub ask : String → ℕ → Exec (CustomRun W M) (Unit {0})
  unfolding call_runner_endpoint
  ask endpoint success =
      service_name >>= λ service. call_runner_endpoint service endpoint success >>= save_response

  pub install : Exec (CustomRun W M) (Unit {0})
  unfolding ask
  install = ask "install" 201

  pub sleep : Exec (CustomRun W M) (Unit {0})
  unfolding ask
  sleep = ask "sleep" 200

  pub resume : Exec (CustomRun W M) (Unit {0})
  unfolding ask
  resume = ask "resume" 200

  -- An object that could not be read has no name when it is deleted.
  abbrev name_read : String → Result (Unit {0}) → String
  name_read name (ok _) = name
  name_read name (err _) = ""

  abbrev delete_read : Resource → String → Exec (CustomRun W M) (Unit {0})
  delete_read kind name =
      attempt (calling host (host.get kind name)) >>= λ read. delete host kind (name_read name read)

  abbrev pod_name : Exec (CustomRun W M) String
  pod_name = meta host >>= λ meta_data.
      let name = decode_to_string host runner_pod_name meta_data in
      if name == "" then missing "pod" else pure name

  pub uninstall : Exec (CustomRun W M) (Unit {0})
  unfolding call_runner_endpoint
  uninstall = service_name >>= λ service. call_runner_endpoint service "uninstall" 204 >>= λ _.
      map_err (wrap_w "failed to delete custom module service during uninstallation")
        (delete_read runner_service service)
      >>= λ _. pod_name >>= delete_read runner_pod
