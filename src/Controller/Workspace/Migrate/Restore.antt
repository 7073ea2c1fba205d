-- ===== src/Controller/Workspace/Migrate/Restore.antt =====
-- What a migration of data leaves of the hibernation of its two modules.
use forkspacer.Base.{
  Bool, true, false, ◌≡◌, ◌⊎◌, inl, inr, refl, ap, List, [], ◌∷◌, ◌++◌, Bool-cases, if◌then◌else◌,
}
use forkspacer.Go.{Error, Result, ok, err}
use forkspacer.Exec.{Exec, and_then, finally}
use forkspacer.Api.Meta.{object_key}
use forkspacer.Api.Module.{Module}
use forkspacer.Controller.Workspace.{
  Effect, hibernation_requested, Run, Client, hibernate_module_and_wait,
}
use forkspacer.Controller.Workspace.Migrate.{
  Services, restore_source, wake_dest, with_source, with_both, while_asleep,
}

-- the request that gives the source back what it had, if that has changed
abbrev pub restoring : Bool → Module → List Effect
restoring true m =
    if m.spec.hibernated then [] else hibernation_requested (object_key m.metadata) true ∷ []
restoring false m =
    if m.spec.hibernated then hibernation_requested (object_key m.metadata) false ∷ [] else []

module _ {W K F : Type 0} (c : Client W) (x : Services W K F) where
  -- How a run of `work` with both modules asleep ends. The destination could not be put to sleep,
  -- and nothing else was done. Or the source could not, the destination is woken, and the source is
  -- left as it is. Or the result is that of the work, the source is given back what it had, and the
  -- destination is woken last.
  pub Restored :
      Module
      → Module
      → (Module → Exec (Run W) (Unit {0}))
      → Run W
      → Result (Unit {0}) × Run W
      → Type 0
  Restored source dest work s (r, t) =
      ((e : Error) × (hibernate_module_and_wait c dest s ≡ (err e, t)) × (r ≡ err e))
      ⊎ ((dest' : Module) × (u : Run W) × (hibernate_module_and_wait c dest s ≡ (ok dest', u))
          × (((e : Error) × (v : Run W) × (hibernate_module_and_wait c source u ≡ (err e, v))
                × (r ≡ err e)
                × (t.trace ≡ hibernation_requested (object_key dest'.metadata) false ∷ v.trace))
              ⊎ ((source' : Module) × (v : Run W) × (hibernate_module_and_wait c source u
                    ≡ (ok source', v))
                  × (r ≡ (work dest' v).0)
                  × (t.trace
                      ≡ hibernation_requested (object_key dest'.metadata) false
                          ∷ restoring source.spec.hibernated source'
                        ++ (work dest' v).1.trace))))

  restore_source-trace :
      (old : Bool) (m : Module) (s : Run W)
      → (restore_source c x old m s).1.trace ≡ restoring old m ++ s.trace
  restore_source-trace true m s = elim (Bool-cases m.spec.hibernated) [
    | inl asleep ↦ rw asleep refl
    | inr awake ↦ rw awake refl
  ]
  restore_source-trace false m s = elim (Bool-cases m.spec.hibernated) [
    | inl asleep ↦ rw asleep refl
    | inr awake ↦ rw awake refl
  ]

  -- Whatever becomes of a migration of data that has put the destination to sleep, it wakes the
  -- destination last. If the source slept too it is given back what it had before that; if putting
  -- it to sleep failed it is not, although the request to sleep may have been sent.
  pub while_asleep-Restored :
      (source dest : Module) (work : Module → Exec (Run W) (Unit {0})) (s : Run W)
      → Restored source dest work s (while_asleep c x source dest work s)
  unfolding while_asleep Restored
  while_asleep-Restored source dest work s =
      first (hibernate_module_and_wait c dest s).0 (hibernate_module_and_wait c dest s).1 refl
    where
      second :
          (dest' : Module) (u : Run W) (r : Result Module) (v : Run W)
          → hibernate_module_and_wait c dest s ≡ (ok dest', u)
          → hibernate_module_and_wait c source u ≡ (r, v)
          → Restored source dest work s (
              finally
                (λ (_ : Run W).
                  and_then (with_source c x source.spec.hibernated (λ _. work dest')) r v)
                (wake_dest c x dest')
                u)
      second dest' u (err e) v p q = inr (dest', u, p, inl (e, v, q, refl, refl))
      second dest' u (ok source') v p q = inr (
        dest',
        u,
        p,
        inr (
          source',
          v,
          q,
          refl,
          ap (hibernation_requested (object_key dest'.metadata) false ∷◌)
              (restore_source-trace source.spec.hibernated source' (work dest' v).1),
        ),
      )

      first :
          (r : Result Module) (u : Run W)
          → hibernate_module_and_wait c dest s ≡ (r, u)
          → Restored source dest work s (and_then (with_both c x source work) r u)
      first (err e) u p = inl (e, p, refl)
      first (ok dest') u p =
          second dest' u (hibernate_module_and_wait c source u).0
            (hibernate_module_and_wait c source u).1 p refl
