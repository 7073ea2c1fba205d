-- ===== src/Controller/Workspace/Reconcile/Requeue.antt =====
-- What becomes of a workspace whose source could not be forked: the request does not come back, and
-- no later reconciliation forks it.
use forkspacer.Base.{
  ℕ, Bool, ◌≡◌, ◌≢◌, inl, inr, refl, ap, subst, ◌∙◌, Option, none, some, List, [], ◌∷◌, Bool-cases,
}
use forkspacer.Go.{Error, Result, ok, err}
use forkspacer.Api.Meta.{ObjectKey, object_key}
use forkspacer.Api.Workspace
use forkspacer.Api.Workspace.{Workspace, WorkspacePhase, WorkspaceAutoHibernation}
use forkspacer.Api.Module.{Module}
use forkspacer.Controller.Cron
use forkspacer.Controller.Cron.{CronManager, Outcome, blocked, done, handle_auto_hibernation}
use forkspacer.Controller.Workspace.{
  Effect, copy_started, hibernation_requested, Run, ClientLaws, handle_hibernation,
}
use forkspacer.Controller.Workspace.Fork.{fork_workspace}
use forkspacer.Controller.Workspace.Hibernation.{requested, Settled, handle_hibernation-Settled}
use forkspacer.Controller.Workspace.Setup.{Setup}
use forkspacer.Controller.Workspace.EmptyPhase.{handle_empty_phase}
use forkspacer.Controller.Workspace.EmptyPhase.Start
use forkspacer.Controller.Workspace.EmptyPhase.Start.{last_status, handle_empty_phase-Settled}
use forkspacer.Controller.Workspace.Reconcile.{
  State, second, then_schedule, dispatch, unless_deleted, reconcile,
}

-- the modules for which a copy was started
abbrev pub copied : List Effect → List Module
copied [] = []
copied (copy_started m ∷ es) = m ∷ copied es
copied (_ ∷ es) = copied es

copied-requested :
    (value : Bool) (ms : List Module) (es : List Effect)
    → copied (requested value ms es) ≡ copied es
copied-requested value [] es = refl
copied-requested value (m ∷ ms) es = elim (Bool-cases m.spec.hibernated) [
  | inl asleep ↦ rw asleep (copied-requested value ms es)
  | inr awake ↦
      rw awake
        (copied-requested value ms (hibernation_requested (object_key m.metadata) value ∷ es))
]

module _ {W K C V F S T : Type 0} (x : Setup W K C V F S T) (laws : ClientLaws x.client)
    (key : ObjectKey) where
  Settled-copied :
      (value : Bool) (s : Run W) (r : Result Workspace) (t : Run W)
      → Settled x.client laws key value s (r, t)
      → copied t.trace ≡ copied s.trace
  Settled-copied value s (ok _) t (inl (ms, w, listed, h)) =
      ap copied h ∙ copied-requested value ms s.trace
  Settled-copied value s (err _) t (inl (ms, w, listed, h, v, from, written)) =
      ap copied h ∙ copied-requested value ms s.trace
  Settled-copied value s r t (inr (e, w, unlisted, inl h)) = ap copied h.1
  Settled-copied value s r t (inr (e, w, unlisted, inr h)) = ap copied h.0

  hibernation-copied :
      (w : Workspace) (s : Run W)
      → copied (handle_hibernation x.client key w s).1.trace ≡ copied s.trace
  hibernation-copied w s = elim (handle_hibernation-Settled x.client laws key w s) [
    | inl same ↦ ap (λ (y : Result Workspace × Run W). copied y.1.trace) same.1
    | inr changed ↦
        Settled-copied w.spec.hibernated s (handle_hibernation x.client key w s).0
          (handle_hibernation x.client key w s).1 changed.1
  ]

  -- No copy of a module was started since `s`.
  abbrev pub ForksNothing : Run W → Outcome (Result ℕ × State x) → Type 0
  ForksNothing s (done (_, (t, _))) = copied t.trace ≡ copied s.trace
  ForksNothing s blocked = Unit

  schedule-ForksNothing :
      (now : ℕ) (r : Result Workspace) (s t : Run W) (managers : CronManager T × CronManager T)
      → copied t.trace ≡ copied s.trace
      → ForksNothing s (then_schedule x now r (t, managers))
  schedule-ForksNothing now (err e) s t managers h = h
  schedule-ForksNothing now (ok w) s t managers h =
      go (handle_auto_hibernation x.scheduler w.metadata.uid now w.spec.auto_hibernation managers)
    where
      go :
          (o : Outcome (CronManager T × CronManager T))
          → ForksNothing s (Cron.◌>>=◌ o (λ managers'. done (ok 0, (t, managers'))))
      go blocked = tt
      go (done _) = h

  dispatch-ForksNothing :
      (now : ℕ) (phase : WorkspacePhase) (w : Workspace) (s : Run W)
      (managers : CronManager T × CronManager T)
      → phase ≢ Workspace.unset
      → ForksNothing s (dispatch x key now phase w (s, managers))
  unfolding dispatch
  dispatch-ForksNothing now Workspace.unset w s managers other = elim (other refl) [ ]
  dispatch-ForksNothing now Workspace.ready w s managers other =
      schedule-ForksNothing now (handle_hibernation x.client key w s).0 s
        (handle_hibernation x.client key w s).1 managers (hibernation-copied w s)
  dispatch-ForksNothing now Workspace.hibernated w s managers other =
      schedule-ForksNothing now (handle_hibernation x.client key w s).0 s
        (handle_hibernation x.client key w s).1 managers (hibernation-copied w s)
  dispatch-ForksNothing now Workspace.installing w s managers other = refl
  dispatch-ForksNothing now Workspace.failed w s managers other = refl
  dispatch-ForksNothing now Workspace.terminating w s managers other = refl
  dispatch-ForksNothing now (Workspace.unknown _) w s managers other = refl

  -- Under ClientLaws, reconciling a workspace that is not being deleted and whose phase is set, be
  -- it ready, starts no copy of a module, whatever the outcome; of a reconciliation that is blocked
  -- by a lock of the cron managers nothing is said.
  pub reconcile-ForksNothing :
      (now : ℕ) (w : Workspace) (world : W) (s : Run W) (managers : CronManager T × CronManager T)
      → x.client.get_workspace key s.world ≡ (ok w, world)
      → w.metadata.deletion_timestamp ≡ none
      → w.status.phase ≢ Workspace.unset
      → ForksNothing s (reconcile x key now (s, managers))
  unfolding reconcile unless_deleted
  reconcile-ForksNothing now w world s managers read alive other =
      rw read (go w.metadata.deletion_timestamp alive)
    where
      go :
          (d : Option ℕ)
          → d ≡ none
          → ForksNothing s (unless_deleted x key now d w (record s { world = world }, managers))
      go (some _) h = cc
      go none h =
          dispatch-ForksNothing now w.status.phase w (record s { world = world }) managers other

  -- the source of a workspace could not be forked, at the end of a run
  abbrev pub Unforked : Workspace → Run W → Type 0
  Unforked w t =
      (source : Workspace) × (u : Run W) × (e : Error) × (fork_workspace x.client x.services source
          w u
        ≡ (err e, t))

  -- Under ClientLaws, a new workspace that is not being deleted, without a schedule, for which
  -- handleEmptyPhase asks for a delay. Its source could not be forked, the status that was written
  -- last is ready, and Reconcile does all that handleEmptyPhase did, but drops the delay: the
  -- request does not come back.
  pub reconcile-Unforked :
      (now : ℕ) (w w' : Workspace) (world : W) (s t : Run W) (delay : ℕ)
      (managers : CronManager T × CronManager T)
      → x.client.get_workspace key s.world ≡ (ok w, world)
      → w.metadata.deletion_timestamp ≡ none
      → w.status.phase ≡ Workspace.unset
      → handle_empty_phase x key (record s { world = world }) ≡ (ok (delay, w'), t)
      → delay ≢ 0
      → w'.spec.auto_hibernation ≡ none
      → Unforked w' t
        × (last_status t.trace ≡ some Workspace.ready)
        × (reconcile x key now (s, managers) ≡ done (ok 0, (t, managers)))
  unfolding reconcile unless_deleted dispatch handle_auto_hibernation
  reconcile-Unforked now w w' world s t delay managers read alive new handled asked unscheduled =
      let (found, ready) =
        reason (subst (Start.Settled x key u) handled (handle_empty_phase-Settled x key laws u)) in
      (
        found,
        ready,
        rw read (
            ap (λ (d : Option ℕ). unless_deleted x key now d w (u, managers)) alive
            ∙ ap (λ (p : WorkspacePhase). dispatch x key now p w (u, managers)) new
            ∙ ap
                (λ (y : Result (ℕ × Workspace) × Run W).
                  then_schedule x now (second x y.0) (y.1, managers))
                handled
            ∙ ap
                (λ (a : Option WorkspaceAutoHibernation).
                  Cron.◌>>=◌ (handle_auto_hibernation x.scheduler w'.metadata.uid now a managers)
                    (λ managers'. done (ok 0, (t, managers'))))
                unscheduled),
      )
    where
      u : Run W
      u = record s { world = world }

      reason :
          Start.Settled x key u (ok (delay, w'), t)
          → Unforked w' t × (last_status t.trace ≡ some Workspace.ready)
      reason (inl (e, p, q)) = cc
      reason (inr (inr (resting, zero))) = elim (asked zero) [ ]
      reason (inr (inl (ready, inl (sourceless, zero)))) = elim (asked zero) [ ]
      reason (inr (inl (ready, inr (from, given, source, v, z, found, inl (p, zero))))) =
          elim (asked zero) [ ]
      reason (inr (inl (ready, inr (from, given, source, v, z, found, inr (e, p, five))))) =
          ((source, z, e, p), ready)
