-- ===== src/Controller/Module/Reconcile/Deletion.antt =====
-- The deletion of a module: the finalizer goes, whatever becomes of the uninstallation.
use forkspacer.Base.{
  ℕ, String, ◌≡◌, ◌⊎◌, inl, inr, refl, ap, ◌∙◌, true, false, Option, none, some, List, [], ◌∷◌,
  contains, ◌==◌, if◌then◌else◌, Bool-cases,
}
use forkspacer.Go.{Result, ok, err, is_ok}
use forkspacer.Exec.{◌>>=◌, ◌>>◌, and_then, attempt, pure}
use forkspacer.Api.Meta.{ObjectKey, contains_finalizer, remove_finalizer, without}
use forkspacer.Api.Module.{Module, uninstalling}
use forkspacer.Controller.Retry.{retried}
use forkspacer.Controller.Module.{
  Effect, object_written, event, Sys, Client, ClientLaws, set_phase, drop_finalizer,
  delete_finalizer, write_finalizers, logged,
}
use forkspacer.Controller.Module.Operations.{uninstall_module}
use forkspacer.Controller.Module.Reconcile.{
  is_settled, note_failure, handle_deletion, unless_deleted, reconcile_module,
}

contains-without : (f : String) (fs : List String) → contains (without f fs) f ≡ false
contains-without f [] = refl
contains-without f (g ∷ gs) =
    let rest = contains-without f gs in
    elim (Bool-cases (g == f)) [ inl hit ↦ rw hit rest | inr other ↦ rw other (rw other rest) ]

module _ {W D M : Type 0} (c : Client W D M) (laws : ClientLaws c) (key : ObjectKey) where
  -- The last thing that was done is to write finalizers without `delete`, or to read a module that
  -- does not have it.
  abbrev pub Released : Sys W → Type 0
  Released t =
      ((fs : List String) × (es : List Effect) × (contains fs delete_finalizer ≡ false)
        × (t.trace ≡ object_written fs ∷ es))
      ⊎ ((m : Module) × (w : W) × (c.get_module key w ≡ (ok m, t.world))
          × (contains_finalizer m.metadata delete_finalizer ≡ false))

  abbrev Dropped : Result Module × Sys W → Type 0
  Dropped (ok _, t) = Released t
  Dropped (err _, t) = Unit

  logged-Dropped :
      (fs : List String) (r : Result Module) (w : W) (es : List Effect)
      → contains fs delete_finalizer ≡ false
      → Dropped (logged c (object_written fs) r w es)
  logged-Dropped fs (ok m) w es h = inl (fs, es, h, refl)
  logged-Dropped fs (err e) w es h = tt

  drop_finalizer-Dropped : (s : Sys W) → Dropped (drop_finalizer c key s)
  drop_finalizer-Dropped s = read (c.get_module key s.world).0 (c.get_module key s.world).1 refl
    where
      read :
          (r : Result Module) (w : W)
          → c.get_module key s.world ≡ (r, w)
          → Dropped (
              and_then
                (λ m.
                  if contains_finalizer m.metadata delete_finalizer
                  then write_finalizers c (remove_finalizer m.metadata delete_finalizer) m
                  else pure m)
                r
                (record { world = w; trace = s.trace }))
      read (err e) w p = tt
      read (ok m) w p = elim (Bool-cases (contains_finalizer m.metadata delete_finalizer)) [
        | inl there ↦ rw there (
            logged-Dropped (without delete_finalizer m.metadata.finalizers) _ _ s.trace
              (contains-without delete_finalizer m.metadata.finalizers))
        | inr gone ↦ rw gone (inr (m, s.world, p, gone))
      ]

  retry-Dropped : (s : Sys W) → Dropped (c.retry (drop_finalizer c key) s)
  retry-Dropped s =
      retried (drop_finalizer c key) (λ a r. Dropped r) drop_finalizer-Dropped (λ a b e r p h. h) s
        _ (laws.retries (drop_finalizer c key) s)

  -- The phase uninstalling was written, and the uninstallation has ended in `v`, with or without
  -- success; a failure has left an event, and nothing else.
  abbrev pub Uninstalled : Sys W → Sys W → Type 0
  Uninstalled s v =
      (m : Module) × (t : Sys W) × (set_phase c key uninstalling none s ≡ (ok m, t))
      × (q : Result (Unit {0})) × (u : Sys W) × (uninstall_module c m t ≡ (q, u))
      × (((q ≡ ok tt) × (v ≡ u))
          ⊎ ((is_ok q ≡ false)
              × (v ≡ record u { trace = event "Warning" "UninstallError" ∷ u.trace })))

  -- Success means that the module was uninstalled, or that this failed, and that it is released.
  -- An error is that of writing the phase uninstalling, with nothing done after it, or that of
  -- removing the finalizer, after the uninstallation.
  abbrev pub Deleted : Sys W → Result ℕ × Sys W → Type 0
  Deleted s (ok n, t) =
      (n ≡ 0)
      × Released t
      × (v : Sys W) × Uninstalled s v
      × (m : Module) × (c.retry (drop_finalizer c key) v ≡ (ok m, t))
  Deleted s (err e, t) =
      (set_phase c key uninstalling none s ≡ (err e, t))
      ⊎ ((v : Sys W) × Uninstalled s v × (c.retry (drop_finalizer c key) v ≡ (err e, t)))

  finish-Deleted :
      (s v : Sys W)
      → Uninstalled s v
      → Deleted s ((c.retry (drop_finalizer c key) >>= λ _. pure 0) v)
  finish-Deleted s v before =
      go (c.retry (drop_finalizer c key) v).0 (c.retry (drop_finalizer c key) v).1 refl
        (retry-Dropped v)
    where
      go :
          (r : Result Module) (t : Sys W)
          → c.retry (drop_finalizer c key) v ≡ (r, t)
          → Dropped (r, t)
          → Deleted s (and_then {A = Module} {B = ℕ} (λ _. pure 0) r t)
      go (ok m) t p h = (refl, h, v, before, m, p)
      go (err e) t p h = inr (v, before, p)

  uninstalled-Deleted :
      (s : Sys W) (m : Module) (t : Sys W) (q : Result (Unit {0})) (v : Sys W)
      → set_phase c key uninstalling none s ≡ (ok m, t)
      → uninstall_module c m t ≡ (q, v)
      → Deleted s ((note_failure c q >> c.retry (drop_finalizer c key) >>= λ _. pure 0) v)
  uninstalled-Deleted s m t (ok u) v p ran =
      finish-Deleted s v (m, t, p, ok u, v, ran, inl (refl, refl))
  uninstalled-Deleted s m t (err e) v p ran =
      finish-Deleted s (record v { trace = event "Warning" "UninstallError" ∷ v.trace })
        (m, t, p, err e, v, ran, inr (refl, refl))

  handle_deletion-Deleted :
      (m : Module) (s : Sys W)
      → is_settled m.status.phase ≡ true
      → Deleted s (handle_deletion c key m s)
  unfolding handle_deletion
  handle_deletion-Deleted m s settled =
      rw settled
        (go (set_phase c key uninstalling none s).0 (set_phase c key uninstalling none s).1 refl)
    where
      go :
          (r : Result Module) (t : Sys W)
          → set_phase c key uninstalling none s ≡ (r, t)
          → Deleted s (
              and_then {A = Module} {B = ℕ}
                (λ m₁.
                  attempt (uninstall_module c m₁)
                  >>= note_failure c
                  >> c.retry (drop_finalizer c key)
                  >>= λ _. pure 0)
                r
                t)
      go (err e) t p = inl p
      go (ok m₁) t p =
          uninstalled-Deleted s m₁ t (uninstall_module c m₁ t).0 (uninstall_module c m₁ t).1 p refl

  waits_lem :
      (m : Module) (s : Sys W)
      → is_settled m.status.phase ≡ false
      → handle_deletion c key m s ≡ (ok 2, s)
  unfolding handle_deletion
  waits_lem m s h = rw h refl

  -- Under ClientLaws, for a module that is being deleted in the phase ready, sleeped or failed: the
  -- phase uninstalling is written, the module is uninstalled, and then, whatever became of this,
  -- its finalizer is removed. Success means that it was removed, or was gone when the module was
  -- read. The only errors are that the phase could not be written, and that the finalizer could not
  -- be removed; a failed uninstallation leaves an event and no error. In any other phase nothing is
  -- done and the request comes back after two seconds, without a limit of time.
  pub reconcile_module-deletion :
      (m : Module) (s : Sys W) (when : ℕ)
      → m.metadata.deletion_timestamp ≡ some when
      → ((is_settled m.status.phase ≡ true) × Deleted s (reconcile_module c key m s))
        ⊎ ((is_settled m.status.phase ≡ false) × (reconcile_module c key m s ≡ (ok 2, s)))
  unfolding reconcile_module unless_deleted
  reconcile_module-deletion m s when dying = elim (Bool-cases (is_settled m.status.phase)) [
    | inl settled ↦
        inl (settled, at m.metadata.deletion_timestamp dying (handle_deletion-Deleted m s settled))
    | inr moving ↦
        inr (moving, ap (λ (d : Option ℕ). unless_deleted c key d m s) dying ∙ waits_lem m s moving)
  ]
    where
      at :
          (d : Option ℕ)
          → d ≡ some when
          → Deleted s (handle_deletion c key m s)
          → Deleted s (unless_deleted c key d m s)
      at none e h = cc
      at (some _) e h = h
