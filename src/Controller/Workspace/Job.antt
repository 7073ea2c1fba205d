-- ===== src/Controller/Workspace/Job.antt =====
-- internal/controller/workspace_controller.go: the jobs that addSleepCron and addResumeCron hand to
-- the cron library, which runs them when the schedule fires.
-- The two jobs have the same code, with the value that they write. An error is only logged.
use forkspacer.Base.{Bool, true, false, ◌≡◌, refl, ap, ◌∙◌, if◌then◌else◌}
use forkspacer.Go.{Result, ok, err}
use forkspacer.Exec.{Exec, ◌>>=◌, pure, attempt}
use forkspacer.Api.Meta.{ObjectKey}
use forkspacer.Api.Workspace.{Workspace}
use forkspacer.Controller.Workspace.{Run, Client, acting}

abbrev same : Bool → Bool → Bool
same true b = b
same false true = false
same false false = true

same_sound : (a b : Bool) → same a b ≡ true → a ≡ b
same_sound true true p = refl
same_sound true false p = cc
same_sound false true p = cc
same_sound false false p = refl

abbrev set_hibernated : Bool → Workspace → Workspace
set_hibernated value w = record w { spec = record w.spec { hibernated = value } }

module _ {W : Type 0} (c : Client W) where
  abbrev patch : Bool → Workspace → Exec (Run W) (Unit {0})
  patch value w = attempt (acting c (c.patch_workspace w (set_hibernated value w))) >>= λ _. pure tt

  abbrev read : Bool → Result Workspace → Exec (Run W) (Unit {0})
  read value (err e) = pure tt
  read value (ok w) = if same w.spec.hibernated value then pure tt else patch value w

  pub fire : Bool → ObjectKey → Exec (Run W) (Unit {0})
  fire value key = attempt (acting c (c.get_workspace key)) >>= read value

  -- The workspace can be read and patched, and what is patched is what is read next.
  pub record StoreLaws (key : ObjectKey) (stored : W → Workspace) : Type 0 where
    pub got : (w : W) → c.get_workspace key w ≡ (ok (stored w), w)
    pub patched :
        (x : Workspace) (w : W)
        → (v : W) × (c.patch_workspace (stored w) x w ≡ (ok x, v)) × (stored v ≡ x)

  -- Under StoreLaws, after a job has fired the stored workspace has the value that the job writes.
  pub fire-hibernated :
      (key : ObjectKey) (stored : W → Workspace)
      → StoreLaws key stored
      → (value : Bool) (s : Run W) → (stored (fire value key s).1.world).spec.hibernated ≡ value
  unfolding fire
  fire-hibernated key stored laws value s =
      let w = stored s.world in
      ap
        (λ (x : Result Workspace × W).
          (stored (read value x.0 (record s { world = x.1 })).1.world).spec.hibernated)
        (laws.got s.world)
      ∙ chosen (same w.spec.hibernated value) refl
    where
      chosen :
          (b : Bool)
          → same (stored s.world).spec.hibernated value ≡ b
          → (stored
              ((if b then pure tt else patch value (stored s.world)) s).1.world).spec.hibernated
            ≡ value
      chosen true p = same_sound (stored s.world).spec.hibernated value p
      chosen false p =
          let (v, sent, kept) = laws.patched (set_hibernated value (stored s.world)) s.world in
          ap (λ (x : Result Workspace × W). (stored x.1).spec.hibernated) sent
          ∙ ap (λ (x : Workspace). x.spec.hibernated) kept
