-- ===== src/Webhook/Workspace/Laws.antt =====
-- Which workspaces the webhook admits, and what its defaults guarantee.
use forkspacer.Base.{
  String, ◌≡◌, ◌≢◌, ◌⊎◌, inl, inr, ◌↔◌, refl, sym, ◌∙◌, true, false, Option, none, some, List, [],
  ◌∷◌, Assoc, lookup, equal_iff, if◌then◌else◌, eq_iff, arith, Bool-cases, false≢true,
}
use forkspacer.Go.{Result, ok, err}
use forkspacer.Api.Workspace.{
  Workspace, WorkspaceSpec, WorkspaceConnectionSecretReference, WorkspaceFromReference,
  WorkspaceAutoHibernation,
}
use forkspacer.Webhook.Field.{ErrorList, none_found, none_found-append}
use forkspacer.Webhook.Workspace.{
  Reader, is_managed, is_kubeconfig, auto_hibernation_errors, kubeconfig_errors,
  secret_reference_errors, spec_errors, from_errors, immutable_errors, validate_create,
  validate_update, from_key, secret_key, WorkspaceType-discrete, WorkspaceConnection-discrete,
  FromReference-discrete, wake_errors, schedule_format, if_none, read_errors, reference_errors,
  lookup_errors,
}

module _ (r : Reader) where
  abbrev WakeSpec : String → Option String → Type 0
  WakeSpec schedule none = Unit
  WakeSpec schedule (some wake) = (r.parse_cron wake ≡ none) × (schedule ≢ wake)

  -- Both schedules parse, and they differ as texts.
  abbrev pub ScheduleSpec : Option WorkspaceAutoHibernation → Type 0
  ScheduleSpec none = Unit
  ScheduleSpec (some a) = (r.parse_cron a.schedule ≡ none) × WakeSpec a.schedule a.wake_schedule

  -- The reference names a secret whose key holds a text, not empty, that loads as a kubeconfig.
  abbrev pub LoadSpec : Option String → Type 0
  LoadSpec none = ⊥
  LoadSpec (some config) = (config ≢ "") × (r.load_kubeconfig config ≡ none)

  abbrev pub ReadSpec : String → Result (Assoc String) → Type 0
  ReadSpec key (ok content) = LoadSpec (lookup key content)
  ReadSpec key (err e) = ⊥

  abbrev pub SecretSpec : Option WorkspaceConnectionSecretReference → Type 0
  SecretSpec none = ⊥
  SecretSpec (some s) = ReadSpec s.key (r.get_secret (secret_key s))

  abbrev pub ConnectionSpec : WorkspaceSpec → Type 0
  ConnectionSpec spec =
      (is_managed spec.type ≡ true)
      ⊎ ((is_kubeconfig spec.connection.type ≡ false) ⊎ SecretSpec spec.connection.secret_reference)

  abbrev pub FromSpec : Option WorkspaceFromReference → Type 0
  FromSpec none = Unit
  FromSpec (some from) = (w : Workspace) × (r.get_workspace (from_key from) ≡ ok w)

  schedule_iff :
      (s : String) (path : List String)
      → (none_found (schedule_format r s path) ≡ true) ↔ (r.parse_cron s ≡ none)
  schedule_iff s path = ((λ h. ground arith), (λ h. ground arith))

  wake_iff :
      (s : String) (o : Option String) → (none_found (wake_errors r s o) ≡ true) ↔ WakeSpec s o
  wake_iff s none = ((λ _. tt), (λ _. refl))
  wake_iff s (some wake) = (
    (λ h. (ground arith, λ e. ground (arith, eq_iff s wake))),
    (λ h. ground (arith, eq_iff s wake)),
  )

  auto_iff :
      (a : Option WorkspaceAutoHibernation)
      → (none_found (auto_hibernation_errors r a) ≡ true) ↔ ScheduleSpec a
  unfolding auto_hibernation_errors
  auto_iff none = ((λ _. tt), (λ _. refl))
  auto_iff (some a) =
      let both =
        none_found-append (schedule_format r a.schedule ("spec" ∷ "schedule" ∷ []))
          (wake_errors r a.schedule a.wake_schedule) in
      let first = schedule_iff a.schedule ("spec" ∷ "schedule" ∷ []) in
      let second = wake_iff a.schedule a.wake_schedule in
      (
        (λ h. (first.0 (both.0 h).0, second.0 (both.0 h).1)),
        (λ h. both.1 (first.1 h.0, second.1 h.1)),
      )

  lookup_iff :
      (f : WorkspaceFromReference) (found : Result Workspace)
      → (none_found (lookup_errors f found) ≡ true) ↔ ((w : Workspace) × (found ≡ ok w))
  lookup_iff f (ok w) = ((λ _. (w, refl)), (λ _. refl))
  lookup_iff f (err e) = ((λ h. ground arith), (λ h. cc (h.1)))

  from_iff :
      (f : Option WorkspaceFromReference) → (none_found (from_errors r f) ≡ true) ↔ FromSpec f
  unfolding from_errors
  from_iff none = ((λ _. tt), (λ _. refl))
  from_iff (some f) = lookup_iff f (r.get_workspace (from_key f))

  load_iff :
      (s : WorkspaceConnectionSecretReference) (value : Option String)
      → (none_found (kubeconfig_errors r s value) ≡ true) ↔ LoadSpec value
  unfolding kubeconfig_errors
  load_iff s none = ((λ h. cc), (λ h. absurd h))
  load_iff s (some config) = (
    (λ h. ((λ e. ground (arith, eq_iff config "")), ground arith)),
    (λ h. ground (arith, eq_iff config "", h.0)),
  )

  read_iff :
      (s : WorkspaceConnectionSecretReference) (found : Result (Assoc String))
      → (none_found (read_errors r s found) ≡ true) ↔ ReadSpec s.key found
  unfolding kubeconfig_errors
  read_iff s (ok content) = load_iff s (lookup s.key content)
  read_iff s (err e) = ((λ h. ground arith), (λ h. absurd h))

  reference_iff :
      (o : Option WorkspaceConnectionSecretReference)
      → (none_found (reference_errors r o) ≡ true) ↔ SecretSpec o
  reference_iff none = ((λ h. cc), (λ h. absurd h))
  reference_iff (some s) = read_iff s (r.get_secret (secret_key s))

  only_secret :
      (spec : WorkspaceSpec)
      → is_managed spec.type ≡ false
      → is_kubeconfig spec.connection.type ≡ true
      → ConnectionSpec spec
      → SecretSpec spec.connection.secret_reference
  only_secret spec n k (inl m) = absurd (false≢true (sym n ∙ m))
  only_secret spec n k (inr (inl o)) = absurd (false≢true (sym o ∙ k))
  only_secret spec n k (inr (inr s)) = s

  connection_iff :
      (spec : WorkspaceSpec)
      → (none_found (if is_managed spec.type then [] else secret_reference_errors r spec.connection)
          ≡ true)
        ↔ ConnectionSpec spec
  unfolding secret_reference_errors
  connection_iff spec = elim (Bool-cases (is_managed spec.type)) [
    | inl m ↦ ((λ h. inl m), (λ h. rw m))
    | inr n ↦ elim (Bool-cases (is_kubeconfig spec.connection.type)) [
      | inr o ↦ ((λ h. inr (inl o)), (λ h. rw n (rw o)))
      | inl k ↦
          let reference = reference_iff spec.connection.secret_reference in
          (
            (λ h. inr (inr (reference.0 (rw k at (rw n at h))))),
            (λ h. rw n (rw k (reference.1 (only_secret spec n k h)))),
          )
    ]
  ]

  -- A workspace may be created exactly when its two schedules parse and differ, its connection can
  -- be used (it is managed, or connects without a kubeconfig, or its reference names a secret that
  -- holds one that loads), and the workspace that it is forked from can be read.
  pub workspace_create_iff :
      (w : Workspace)
      → (none_found (validate_create r w) ≡ true)
        ↔ (ScheduleSpec w.spec.auto_hibernation × ConnectionSpec w.spec × FromSpec w.spec.from)
  unfolding validate_create
  workspace_create_iff w =
      let all = none_found-append (spec_errors r w.spec) (from_errors r w.spec.from) in
      let spec =
        none_found-append (auto_hibernation_errors r w.spec.auto_hibernation)
          (if is_managed w.spec.type then [] else secret_reference_errors r w.spec.connection) in
      let s = auto_iff w.spec.auto_hibernation in
      let c = connection_iff w.spec in
      let f = from_iff w.spec.from in
      (
        (λ h. let parts = spec.0 (all.0 h).0 in (s.0 parts.0, c.0 parts.1, f.0 (all.0 h).1)),
        (λ h. all.1 (spec.1 (s.1 h.0, c.1 h.1), f.1 h.2)),
      )

  immutable_iff :
      (old new : WorkspaceSpec)
      → (none_found (immutable_errors old new) ≡ true)
        ↔ ((old.type ≡ new.type) × (old.from ≡ new.from) × (old.connection ≡ new.connection))
  unfolding immutable_errors
  immutable_iff old new =
      let t = equal_iff WorkspaceType-discrete old.type new.type in
      let f = equal_iff FromReference-discrete old.from new.from in
      let c = equal_iff WorkspaceConnection-discrete old.connection new.connection in
      (
        (λ h. (t.0 (ground arith), f.0 (ground arith), c.0 (ground arith))),
        (λ h. rw (t.1 h.0) (rw (f.1 h.1) (rw (c.1 h.2)))),
      )

  if_none_iff :
      (xs ys : ErrorList)
      → (none_found (if_none xs ys) ≡ true) ↔ ((none_found xs ≡ true) × (none_found ys ≡ true))
  if_none_iff [] ys = ((λ h. (refl, h)), (λ h. h.1))
  if_none_iff (x ∷ xs) ys = ((λ h. cc), (λ h. cc))

  -- An update is admitted exactly when it keeps the type, the source and the connection of the
  -- workspace, its schedules parse and differ, and its connection can be used.
  pub workspace_update_iff :
      (old new : Workspace)
      → (none_found (validate_update r old new) ≡ true) ↔ (
          ((old.spec.type ≡ new.spec.type)
            × (old.spec.from ≡ new.spec.from)
            × (old.spec.connection ≡ new.spec.connection))
          × ScheduleSpec new.spec.auto_hibernation
          × ConnectionSpec new.spec)
  unfolding validate_update
  workspace_update_iff old new =
      let all = if_none_iff (immutable_errors old.spec new.spec) (spec_errors r new.spec) in
      let spec =
        none_found-append (auto_hibernation_errors r new.spec.auto_hibernation) (
          if is_managed new.spec.type then [] else secret_reference_errors r new.spec.connection) in
      let i = immutable_iff old.spec new.spec in
      let s = auto_iff new.spec.auto_hibernation in
      let c = connection_iff new.spec in
      (
        (λ h. let parts = spec.0 (all.0 h).1 in (i.0 (all.0 h).0, s.0 parts.0, c.0 parts.1)),
        (λ h. all.1 (i.1 h.0, spec.1 (s.1 h.1, c.1 h.2))),
      )
