-- ===== src/Controller/Workspace/EmptyPhase/Start.antt =====
-- The first reconciliation of a workspace.
use forkspacer.Base.{
  ℕ, String, true, false, ◌≡◌, ◌⊎◌, inl, inr, refl, ap, ◌∙◌, Option, none, some, List, [], ◌∷◌,
  Bool-cases,
}
use forkspacer.Go.{Error, Result, ok, err, wrap_w}
use forkspacer.Exec.{Exec, ◌>>=◌, and_then, pure, raise, attempt}
use forkspacer.Api.Meta.{ObjectKey}
use forkspacer.Api.Workspace
use forkspacer.Api.Workspace.{Workspace, WorkspacePhase, WorkspaceFromReference}
use forkspacer.Api.Module.{Module}
use forkspacer.Controller.Workspace.{
  Effect, status_written, event, copy_started, Run, ClientLaws, set_phase_ready, set_phase_failed,
  set_phase_installing, set_phase_hibernated,
}
use forkspacer.Controller.Managed.{install_vcluster}
use forkspacer.Controller.Workspace.Status.{Wrote, plain-Wrote, hibernated-Wrote, retry-Wrote}
use forkspacer.Controller.Workspace.Fork.{fork_workspace}
use forkspacer.Controller.Workspace.Fork.Started.{Forked, copies, fork_workspace-Forked}
use forkspacer.Controller.Workspace.Setup.{Setup, is_managed, with_helm, ensure_finalizer}
use forkspacer.Controller.Workspace.EmptyPhase.{
  forked, source_read, fork_from, ready_and_fork, vcluster_installed, set_up_managed,
  set_up_vcluster, hibernated_at_once, set_up, handle_empty_phase,
}

-- the status that was written last
abbrev pub last_status : List Effect → Option WorkspacePhase
last_status [] = none
last_status (status_written phase ∷ es) = some phase
last_status (_ ∷ es) = last_status es

last_status-copies :
    (ms : List Module) (es : List Effect) → last_status (copies ms es) ≡ last_status es
last_status-copies [] es = refl
last_status-copies (m ∷ ms) es = last_status-copies ms (copy_started m ∷ es)

module _ {W K C V F S T : Type 0} (x : Setup W K C V F S T) (key : ObjectKey) where
  -- The phase failed is written for one of two reasons: the source of the workspace could not be
  -- read, or its virtual cluster could not be installed.
  abbrev pub Cause : Error → Type 0
  Cause e =
      ((source : ObjectKey) × (w w' : W) × (y : Error) × (x.client.get_workspace source w
          ≡ (err y, w'))
        × (e ≡ wrap_w "failed to get source workspace" y))
      ⊎ ((name : String) × (u v : Run W) × (with_helm x
              (install_vcluster x.admin x.services.loader x.sdk x.env name) u
            ≡ (err e, v)))

  -- a status could not be written
  abbrev pub Unwritten : Error → Run W → Type 0
  Unwritten e t =
      (v : Run W) × ((set_phase_ready x.client key none v ≡ (err e, t))
        ⊎ ((set_phase_hibernated x.client key none v ≡ (err e, t))
            ⊎ ((message : Option String) × ((set_phase_failed x.client key message v ≡ (err e, t))
                  ⊎ (set_phase_installing x.client key message v ≡ (err e, t))))))

  -- What became of the source of a workspace that is ready, and the delay: there is none, or it was
  -- read, and forked, or it could not be forked.
  abbrev pub Forks : ℕ → Workspace → Run W → Type 0
  Forks n w t =
      ((w.spec.from ≡ none) × (n ≡ 0))
      ⊎ ((from : WorkspaceFromReference) × (w.spec.from ≡ some from)
          × (source : Workspace) × (world : W) × (u : Run W) × (x.client.get_workspace
                (record { key_namespace = from.namespace; key_name = from.name }) world
              ≡ (ok source, u.world))
          × (((fork_workspace x.client x.services source w u ≡ (ok tt, t)) × (n ≡ 0))
              ⊎ ((e : Error) × (fork_workspace x.client x.services source w u ≡ (err e, t))
                  × (n ≡ 5))))

  -- A success with the workspace ready, or hibernated; or an error with its cause.
  abbrev pub Reached : Result (ℕ × Workspace) × Run W → Type 0
  Reached (ok p, t) =
      ((last_status t.trace ≡ some Workspace.ready) × Forks p.0 p.1 t)
      ⊎ ((last_status t.trace ≡ some Workspace.hibernated) × (p.0 ≡ 0))
  Reached (err e, t) = Unwritten e t ⊎ ((last_status t.trace ≡ some Workspace.failed) × Cause e)

  -- The same, or the finalizer could not be set.
  abbrev pub Settled : Run W → Result (ℕ × Workspace) × Run W → Type 0
  Settled s out =
      ((e : Error) × (out.0 ≡ err e) × (x.client.retry (ensure_finalizer x key) s ≡ (err e, out.1)))
      ⊎ Reached out

  module _ (laws : ClientLaws x.client) where
    failed-Reached :
        (message : String) (e : Error) (s : Run W)
        → Cause e
        → Reached
            ((set_phase_failed x.client key (some message) >>= λ _. raise {A = ℕ × Workspace} e) s)
    unfolding set_phase_failed
    failed-Reached message e s cause =
        go (set_phase_failed x.client key (some message) s).0
          (set_phase_failed x.client key (some message) s).1 refl
          (retry-Wrote x.client laws Workspace.failed _
            (plain-Wrote x.client key Workspace.failed false (some message)) s)
      where
        go :
            (r : Result Workspace) (t : Run W)
            → set_phase_failed x.client key (some message) s ≡ (r, t)
            → Wrote Workspace.failed s.trace (r, t)
            → Reached (and_then {A = Workspace} {B = ℕ × Workspace} (λ _. raise e) r t)
        go (ok _) t p h = inr (ap last_status h, cause)
        go (err y) t p h = inl (s, inr (inr (some message, inl p)))

    forked-Reached :
        (from : WorkspaceFromReference) (w source : Workspace) (world : W) (s : Run W)
        → w.spec.from ≡ some from
        → x.client.get_workspace
            (record { key_namespace = from.namespace; key_name = from.name })
            world
          ≡ (ok source, s.world)
        → last_status s.trace ≡ some Workspace.ready
        → Reached ((attempt (fork_workspace x.client x.services source w) >>= forked x w) s)
    unfolding Forked
    forked-Reached from w source world s given read ready =
        go (fork_workspace x.client x.services source w s).0
          (fork_workspace x.client x.services source w s).1 refl
          (fork_workspace-Forked x.client x.services source w s)
      where
        go :
            (r : Result (Unit {0})) (t : Run W)
            → fork_workspace x.client x.services source w s ≡ (r, t)
            → Forked x.client x.services source s (r, t)
            → Reached (forked x w r t)
        go (ok _) t p (inl h) = cc
        go (ok _) t p (inr (ms, v, listed, inl h)) = inl (
          ap last_status h.2 ∙ last_status-copies ms s.trace ∙ ready,
          inr (from, given, source, world, s, read, inl (p, refl)),
        )
        go (ok _) t p (inr (ms, v, listed, inr h)) = cc
        go (err e) t p (inl h) = inl (
          ap last_status h.4 ∙ ready,
          inr (from, given, source, world, s, read, inr (e, p, refl)),
        )
        go (err e) t p (inr (ms, v, listed, inl h)) = cc
        go (err e) t p (inr (ms, v, listed, inr h)) = inl (
          ap last_status h.2 ∙ ready,
          inr (from, given, source, world, s, read, inr (e, p, refl)),
        )

    fork_from-Reached :
        (reason message : String) (o : Option WorkspaceFromReference) (w : Workspace) (s : Run W)
        → w.spec.from ≡ o
        → last_status s.trace ≡ some Workspace.ready
        → Reached (fork_from x reason message key o w s)
    fork_from-Reached reason message none w s given ready = inl (ready, inl (given, refl))
    fork_from-Reached reason message (some from) w s given ready =
        go (x.client.get_workspace source s.world).0 (x.client.get_workspace source s.world).1 refl
      where
        source : ObjectKey
        source = record { key_namespace = from.namespace; key_name = from.name }

        go :
            (r : Result Workspace) (v : W)
            → x.client.get_workspace source s.world ≡ (r, v)
            → Reached (source_read x reason message key w r (record s { world = v }))
        go (ok found) v p =
            forked-Reached from w found s.world (record s { world = v }) given p ready
        go (err e) v p =
            failed-Reached message (wrap_w "failed to get source workspace" e)
              (record { world = v; trace = event "Warning" reason ∷ s.trace })
              (inl (source, s.world, v, e, p, refl))

    ready_and_fork-Reached :
        (reason message : String) (s : Run W) → Reached (ready_and_fork x reason message key s)
    unfolding set_phase_ready
    ready_and_fork-Reached reason message s =
        go (set_phase_ready x.client key none s).0 (set_phase_ready x.client key none s).1 refl (
          retry-Wrote x.client laws Workspace.ready _
            (plain-Wrote x.client key Workspace.ready true none) s)
      where
        go :
            (r : Result Workspace) (t : Run W)
            → set_phase_ready x.client key none s ≡ (r, t)
            → Wrote Workspace.ready s.trace (r, t)
            → Reached (and_then (λ w. fork_from x reason message key w.spec.from w) r t)
        go (ok w) t p h = fork_from-Reached reason message w.spec.from w t refl (ap last_status h)
        go (err _) t p h = inl (s, inl p)

    set_up_vcluster-Reached : (w : Workspace) (s : Run W) → Reached (set_up_vcluster x key w s)
    set_up_vcluster-Reached w s = go (installing s).0 (installing s).1 refl
      where
        installing : Exec (Run W) (Unit {0})
        installing =
            with_helm x (install_vcluster x.admin x.services.loader x.sdk x.env w.metadata.name)

        go :
            (r : Result (Unit {0})) (t : Run W)
            → installing s ≡ (r, t)
            → Reached (vcluster_installed x key r t)
        go (ok _) t p = ready_and_fork-Reached _ _ _
        go (err e) t p =
            failed-Reached "Failed to install virtual cluster. Check events for more information." e
              (record t { trace = event "Warning" "VirtualClusterInstallError" ∷ t.trace })
              (inr (w.metadata.name, s, t, p))

    set_up_managed-Reached : (s : Run W) → Reached (set_up_managed x key s)
    set_up_managed-Reached s =
        go (set_phase_installing x.client key message s).0
          (set_phase_installing x.client key message s).1 refl
      where
        message : Option String
        message = some "Installing virtual cluster"

        go :
            (r : Result Workspace) (t : Run W)
            → set_phase_installing x.client key message s ≡ (r, t)
            → Reached (and_then (set_up_vcluster x key) r t)
        go (ok w) t p = set_up_vcluster-Reached w t
        go (err _) t p = inl (s, inr (inr (message, inr p)))

    hibernated_at_once-Reached : (s : Run W) → Reached (hibernated_at_once x key s)
    unfolding set_phase_hibernated
    hibernated_at_once-Reached s =
        go (set_phase_hibernated x.client key none s).0 (set_phase_hibernated x.client key none s).1
          refl
          (retry-Wrote x.client laws Workspace.hibernated _ (hibernated-Wrote x.client key none) s)
      where
        go :
            (r : Result Workspace) (t : Run W)
            → set_phase_hibernated x.client key none s ≡ (r, t)
            → Wrote Workspace.hibernated s.trace (r, t)
            → Reached (and_then {A = Workspace} {B = ℕ × Workspace} (λ w. pure (0, w)) r t)
        go (ok _) t p h = inr (ap last_status h, refl)
        go (err _) t p h = inl (s, inr (inl p))

    set_up-Reached : (w : Workspace) (s : Run W) → Reached (set_up x key w s)
    set_up-Reached w s = elim (Bool-cases (is_managed w.spec.type)) [
      | inl managed ↦ rw managed (set_up_managed-Reached s)
      | inr plain ↦ rw plain (elim (Bool-cases w.spec.hibernated) [
        | inl asleep ↦ rw asleep (hibernated_at_once-Reached s)
        | inr awake ↦ rw awake (ready_and_fork-Reached _ _ s)
      ])
    ]

    -- Under ClientLaws: when handleEmptyPhase succeeds, on a managed workspace or not, the status
    -- that was written last is ready, or hibernated. If it is ready the source of the workspace was
    -- forked, or there is none, and no delay is asked for; or the source could not be forked, which
    -- is a success too, and a delay of five seconds is asked for. An error is never that of a fork:
    -- the finalizer or a status could not be written, or the status failed was written, since the
    -- source could not be read or the virtual cluster could not be installed.
    pub handle_empty_phase-Settled : (s : Run W) → Settled s (handle_empty_phase x key s)
    unfolding handle_empty_phase
    handle_empty_phase-Settled s =
        go (x.client.retry (ensure_finalizer x key) s).0
          (x.client.retry (ensure_finalizer x key) s).1 refl
      where
        go :
            (r : Result Workspace) (t : Run W)
            → x.client.retry (ensure_finalizer x key) s ≡ (r, t)
            → Settled s (and_then (set_up x key) r t)
        go (ok w) t p = inr (set_up-Reached w t)
        go (err e) t p = inl (e, refl, p)
