-- ===== src/Controller/Workspace/Fork/Started.antt =====
-- What forking starts.
use forkspacer.Base.{true, false, ◌⊎◌, ◌≡◌, inl, inr, refl, List, [], ◌∷◌, Bool-cases}
use forkspacer.Go.{Error, Result, ok, err, wrap_w, is_ok}
use forkspacer.Exec.{and_then, map_err}
use forkspacer.Api.Meta.{object_key}
use forkspacer.Api.Workspace.{Workspace}
use forkspacer.Api.Module.{Module}
use forkspacer.Controller.Workspace.{Effect, copy_started, Run, Client}
use forkspacer.Controller.Workspace.Fork.{all_rested, start_copies, start_if, fork_workspace}
use forkspacer.Controller.Workspace.Migrate.{Services}

-- one goroutine for each module, in the order of the modules and the newest first
abbrev pub copies : List Module → List Effect → List Effect
copies [] es = es
copies (m ∷ ms) es = copies ms (copy_started m ∷ es)

module _ {W K F : Type 0} (c : Client W) (x : Services W K F) where
  -- The modules could not be listed; or they were, and all are rested and each is copied; or one
  -- is not rested.
  unfoldable pub Forked : Workspace → Run W → Result (Unit {0}) × Run W → Type 0
  Forked source s (r, t) =
      ((e : Error) × (w : W) × (c.list_modules (object_key source.metadata) s.world ≡ (err e, w))
        × (is_ok r ≡ false)
        × (t.trace ≡ s.trace))
      ⊎ ((ms : List Module) × (w : W) × (c.list_modules (object_key source.metadata) s.world
            ≡ (ok ms, w))
          × (((all_rested ms ≡ true) × (r ≡ ok tt) × (t.trace ≡ copies ms s.trace))
              ⊎ ((all_rested ms ≡ false) × (is_ok r ≡ false) × (t.trace ≡ s.trace))))

  start_copies-copies :
      (dest : Workspace) (ms : List Module) (s : Run W)
      → ((start_copies c x dest ms s).0 ≡ ok tt)
        × ((start_copies c x dest ms s).1.trace ≡ copies ms s.trace)
  start_copies-copies dest [] s = (refl, refl)
  start_copies-copies dest (m ∷ ms) s = start_copies-copies dest ms _

  -- Forking a workspace succeeds exactly when the modules of the source can be listed and all of
  -- them are in the phase ready or sleeped; then one goroutine is started for each of them, in
  -- their order. Otherwise it is an error, and none is started.
  pub fork_workspace-Forked :
      (source dest : Workspace) (s : Run W) → Forked source s (fork_workspace c x source dest s)
  unfolding fork_workspace Forked
  fork_workspace-Forked source dest s =
      listed (c.list_modules (object_key source.metadata) s.world).0
        (c.list_modules (object_key source.metadata) s.world).1 refl
    where
      started :
          (ms : List Module) (w : W) (r : Result (Unit {0})) (t : Run W)
          → c.list_modules (object_key source.metadata) s.world ≡ (ok ms, w)
          → all_rested ms ≡ true
          → (r ≡ ok tt) × (t.trace ≡ copies ms s.trace)
          → Forked source s (r, t)
      started ms w r t p rested h = inr (ms, w, p, inl (rested, h.0, h.1))

      listed :
          (r : Result (List Module)) (w : W)
          → c.list_modules (object_key source.metadata) s.world ≡ (r, w)
          → Forked source s (
              and_then
                (start_if c x dest)
                (map_err
                  (wrap_w "failed to get related modules for source workspace")
                  (map_err (wrap_w "failed to get modules for workspace") (λ (u : Run W). (r, u)))
                  (record { world = w; trace = s.trace })).0
                (record { world = w; trace = s.trace }))
      listed (err e) w p = inl (e, w, p, refl, refl)
      listed (ok ms) w p = elim (Bool-cases (all_rested ms)) [
        | inl rested ↦ rw rested (
            let u : Run W = record { world = w; trace = s.trace } in
            started ms w (start_copies c x dest ms u).0 (start_copies c x dest ms u).1 p rested
              (start_copies-copies dest ms u))
        | inr busy ↦ rw busy (inr (ms, w, p, inr (busy, refl, refl)))
      ]
