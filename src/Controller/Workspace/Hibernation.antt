-- ===== src/Controller/Workspace/Hibernation.antt =====
-- What putting a workspace to sleep, or resuming it, does to its modules and its status.
use forkspacer.Base.{
  String, Bool, true, false, not, ◌≡◌, ◌⊎◌, inl, inr, refl, sym, subst, ap, ◌∙◌, Option, none, some,
  List, [], ◌∷◌, All, if◌then◌else◌, Bool-cases, arith,
}
use forkspacer.Go.{Error, Result, ok, err, wrap_w}
use forkspacer.Exec.{Exec, ◌>>=◌, ◌>>◌, and_then, attempt, raise}
use forkspacer.Api.Meta.{ObjectKey, object_key}
use forkspacer.Api.Workspace
use forkspacer.Api.Workspace.{Workspace, WorkspacePhase, WorkspaceStatus}
use forkspacer.Api.Module.{Module}
use forkspacer.Controller.Workspace.{
  Effect, status_written, hibernation_requested, event, Run, Client, ClientLaws, is_some, gave_up,
  emit, set_phase_ready, set_phase_failed, set_phase_hibernated, request_all, related_modules,
  sleep_modules, resume_modules, handle_hibernation, slept, resumed,
}
use forkspacer.Controller.Workspace.Status.{Wrote, plain-Wrote, hibernated-Wrote, retry-Wrote}

-- The patches of `hibernated` that are sent for the modules that are awake, in the order of the
-- modules and the newest first, before the effects `es`.
abbrev pub requested : Bool → List Module → List Effect → List Effect
requested value [] es = es
requested value (m ∷ ms) es =
    let awake = requested value ms (hibernation_requested (object_key m.metadata) value ∷ es) in
    let asleep = requested value ms es in if m.spec.hibernated then asleep else awake

-- the phase in which the workspace comes to rest
abbrev pub target : Bool → WorkspacePhase
target true = Workspace.hibernated
target false = Workspace.ready

module _ {W : Type 0} (c : Client W) where
  module _ (laws : ClientLaws c) where
    -- All awake modules are sent the patch, whether the ones before succeeded or not.
    request_all-requested :
        (value : Bool) (ms : List Module) (s : Run W)
        → ((request_all c value ms s).0 ≡ ok tt)
          × ((request_all c value ms s).1.trace ≡ requested value ms s.trace)
    unfolding request_all
    request_all-requested value [] s = (refl, refl)
    request_all-requested value (m ∷ ms) s = elim (Bool-cases m.spec.hibernated) [
      | inl asleep ↦ rw asleep (request_all-requested value ms s)
      | inr awake ↦ rw awake (request_all-requested value ms _)
    ]

    module _ (key : ObjectKey) where
      abbrev finish : Bool → Result (Unit {0}) → Exec (Run W) Workspace
      finish true = slept c key
      finish false = resumed c key

      -- the writing of the status at the end
      abbrev pub last_write : Bool → Exec (Run W) Workspace
      last_write true = set_phase_hibernated c key none
      last_write false = set_phase_ready c key none

      -- After success the status comes last, on top of the patches for the modules that were
      -- listed. After an error: the modules were listed and patched, and writing this status
      -- failed.
      abbrev pub Patched : Bool → Run W → Result Workspace × Run W → Type 0
      Patched value s (ok _, t) =
          (ms : List Module) × (w : W) × (c.list_modules key s.world ≡ (ok ms, w))
          × (t.trace ≡ status_written (target value) ∷ requested value ms s.trace)
      Patched value s (err e, t) =
          (ms : List Module) × (w : W) × (c.list_modules key s.world ≡ (ok ms, w))
          × (t.trace ≡ requested value ms s.trace)
          × (v : Run W) × (v.trace ≡ requested value ms s.trace)
          × (last_write value v ≡ (err e, t))

      -- The modules could not be listed: no patch was sent, and the status failed was written and
      -- this error returned, or writing it failed too.
      abbrev pub Unlisted : Run W → Result Workspace × Run W → Type 0
      Unlisted s out =
          (e : Error) × (w : W) × (c.list_modules key s.world ≡ (err e, w))
          × (((out.0 ≡ err (wrap_w "failed to get modules for workspace" e))
                × (out.1.trace
                    ≡ event "Warning" "HibernateError" ∷ status_written Workspace.failed ∷ s.trace))
              ⊎ ((out.1.trace ≡ s.trace)
                  × (message : Option String) × (x : Error) × (out.0 ≡ err x)
                  × (set_phase_failed c key message (record s { world = w }) ≡ (err x, out.1))))

      abbrev pub Settled : Bool → Run W → Result Workspace × Run W → Type 0
      Settled value s out = Patched value s out ⊎ Unlisted s out

      finish-Wrote :
          (value : Bool) (u : Unit {0}) (s : Run W)
          → Wrote (target value) s.trace (finish value (ok u) s)
      unfolding set_phase_hibernated set_phase_ready
      finish-Wrote true u s =
          retry-Wrote c laws Workspace.hibernated _ (hibernated-Wrote c key none) s
      finish-Wrote false u s =
          retry-Wrote c laws Workspace.ready _ (plain-Wrote c key Workspace.ready true none) s

      settle-written :
          (value : Bool) (s : Run W) (ms : List Module) (w : W) (r : Result Workspace) (t v : Run W)
          → c.list_modules key s.world ≡ (ok ms, w)
          → v.trace ≡ requested value ms s.trace
          → last_write value v ≡ (r, t)
          → Wrote (target value) (requested value ms s.trace) (r, t)
          → Settled value s (r, t)
      settle-written value s ms w (ok _) t v listed from written h = inl (ms, w, listed, h)
      settle-written value s ms w (err _) t v listed from written h =
          inl (ms, w, listed, h, v, from, written)

      gave_up-Unlisted :
          (message : String) (x : Error) (s : Run W) (w : W)
          → c.list_modules key s.world ≡ (err x, w)
          → Unlisted s (
              gave_up c key message
                (wrap_w "failed to get modules for workspace" x)
                (record s { world = w }))
      unfolding set_phase_failed
      gave_up-Unlisted message x s w unlisted =
          go (set_phase_failed c key (some message) t).0 (set_phase_failed c key (some message) t).1
            refl
            (retry-Wrote c laws Workspace.failed _
              (plain-Wrote c key Workspace.failed false (some message)) t)
        where
          t : Run W
          t = record s { world = w }

          go :
              (r : Result Workspace) (u : Run W)
              → set_phase_failed c key (some message) t ≡ (r, u)
              → Wrote Workspace.failed s.trace (r, u)
              → Unlisted s (
                  and_then {A = Workspace} {B = Workspace}
                    (λ _.
                      emit c (event "Warning" "HibernateError")
                      >> raise (wrap_w "failed to get modules for workspace" x))
                    r
                    u)
          go (ok _) u p h = (x, w, unlisted, inl (refl, ap (event "Warning" "HibernateError" ∷◌) h))
          go (err e) u p h = (x, w, unlisted, inr (h, some message, e, refl, p))

      finish-Settled :
          (value : Bool) (s : Run W) (ms : List Module) (w : W) (q : Result (Unit {0})) (t : Run W)
          → c.list_modules key s.world ≡ (ok ms, w)
          → q ≡ ok tt
          → t.trace ≡ requested value ms s.trace
          → Settled value s (finish value q t)
      finish-Settled true s ms w (ok u) t listed e h =
          settle-written true s ms w (last_write true t).0 (last_write true t).1 t listed h refl
            (rw (← h) (finish-Wrote true u t))
      finish-Settled false s ms w (ok u) t listed e h =
          settle-written false s ms w (last_write false t).0 (last_write false t).1 t listed h refl
            (rw (← h) (finish-Wrote false u t))
      finish-Settled value s ms w (err x) t listed e h = cc

      failed-Settled :
          (value : Bool) (e : Error) (s : Run W) (w : W)
          → c.list_modules key s.world ≡ (err e, w)
          → Settled value s (
              finish value
                (err (wrap_w "failed to get modules for workspace" e))
                (record s { world = w }))
      failed-Settled true e s w unlisted = inr (gave_up-Unlisted _ e s w unlisted)
      failed-Settled false e s w unlisted = inr (gave_up-Unlisted _ e s w unlisted)

      change-Settled :
          (value : Bool) (s : Run W)
          → Settled value s
              ((attempt (related_modules c key >>= request_all c value) >>= finish value) s)
      change-Settled value s =
          listed (c.list_modules key s.world).0 (c.list_modules key s.world).1 refl
        where
          listed :
              (found : Result (List Module)) (w : W)
              → c.list_modules key s.world ≡ (found, w)
              → Settled value s (
                  (attempt (λ t.
                        and_then
                          (request_all c value)
                          (elim found [
                            | ok ms ↦ ok ms
                            | err e ↦ err (wrap_w "failed to get modules for workspace" e)
                          ])
                          t)
                      >>= finish value)
                    (record { world = w; trace = s.trace }))
          listed (ok ms) w e =
              let done = request_all-requested value ms (record { world = w; trace = s.trace }) in
              finish-Settled value s ms w _ _ e done.0 done.1
          listed (err x) w e = failed-Settled value x s w e

      sleeps :
          (w : Workspace) (s : Run W)
          → is_some w.status.hibernated_at ≡ false
          → w.spec.hibernated ≡ true
          → Settled w.spec.hibernated s (handle_hibernation c key w s)
      unfolding handle_hibernation sleep_modules
      sleeps w s never wanted =
          let same : handle_hibernation c key w s
              ≡ (attempt (related_modules c key >>= request_all c true) >>= finish true) s =
            rw never (rw wanted refl) in
          subst (λ v. Settled v s (handle_hibernation c key w s)) (sym wanted)
            (subst (Settled true s) (sym same) (change-Settled true s))

      resumes :
          (w : Workspace) (s : Run W)
          → is_some w.status.hibernated_at ≡ true
          → w.spec.hibernated ≡ false
          → Settled w.spec.hibernated s (handle_hibernation c key w s)
      unfolding handle_hibernation resume_modules
      resumes w s since unwanted =
          let same : handle_hibernation c key w s
              ≡ (attempt (related_modules c key >>= request_all c false) >>= finish false) s =
            rw since (rw unwanted refl) in
          subst (λ v. Settled v s (handle_hibernation c key w s)) (sym unwanted)
            (subst (Settled false s) (sym same) (change-Settled false s))

      -- Under ClientLaws, hibernation follows the specification: a workspace whose status agrees
      -- with `spec.hibernated` is left alone. Otherwise, if the modules are listed, every one that
      -- is awake is sent the patch (those that sleep are not), and then the status is written,
      -- hibernated or ready as asked for; the only error there is that this status could not be
      -- written. If they cannot be listed, no patch is sent, and either the status failed is
      -- written and the error of the listing returned, or that status could not be written.
      pub handle_hibernation-Settled :
          (w : Workspace) (s : Run W)
          → ((is_some w.status.hibernated_at ≡ w.spec.hibernated)
              × (handle_hibernation c key w s ≡ (ok w, s)))
            ⊎ ((is_some w.status.hibernated_at ≡ not w.spec.hibernated)
                × Settled w.spec.hibernated s (handle_hibernation c key w s))
      unfolding handle_hibernation
      handle_hibernation-Settled w s = elim (Bool-cases (is_some w.status.hibernated_at)) [
        | inl since ↦ elim (Bool-cases w.spec.hibernated) [
          | inl wanted ↦ inl (since ∙ sym wanted, ground arith)
          | inr unwanted ↦ inr (since ∙ ap not (sym unwanted), resumes w s since unwanted)
        ]
        | inr never ↦ elim (Bool-cases w.spec.hibernated) [
          | inl wanted ↦ inr (never ∙ ap not (sym wanted), sleeps w s never wanted)
          | inr unwanted ↦ inl (never ∙ sym unwanted, ground arith)
        ]
      ]

      request_all-asleep :
          (value : Bool) (ms : List Module) (s : Run W)
          → All (λ m. m.spec.hibernated ≡ true) ms
          → request_all c value ms s ≡ (ok tt, s)
      unfolding request_all
      request_all-asleep value [] s h = refl
      request_all-asleep value (m ∷ ms) s h = rw h.0 (request_all-asleep value ms s h.1)

      -- Resuming a workspace that is hibernated resumes no module that sleeps: if all listed
      -- modules are asleep, none is sent a patch, and resuming succeeds nevertheless.
      pub resume_modules-asleep :
          (w : Workspace) (ms : List Module) (world : W) (s : Run W)
          → is_some w.status.hibernated_at ≡ true
          → c.list_modules key s.world ≡ (ok ms, world)
          → All (λ m. m.spec.hibernated ≡ true) ms
          → resume_modules c key w s ≡ (ok tt, record s { world = world })
      unfolding resume_modules
      resume_modules-asleep w ms world s since listed asleep =
          rw since
            (ap continue listed ∙ request_all-asleep false ms (record s { world = world }) asleep)
        where
          continue : Result (List Module) × W → Result (Unit {0}) × Run W
          continue r =
              and_then (request_all c false)
                (elim r.0 [
                  | ok ms ↦ ok ms
                  | err e ↦ err (wrap_w "failed to get modules for workspace" e)
                ])
                (record s { world = r.1 })
