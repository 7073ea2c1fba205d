-- ===== src/Controller/Module/LifeCycle.antt =====
-- The life cycle of a module, as a property of the trace that a reconciliation leaves.
use forkspacer.Base.{◌≡◌, ◌⊎◌, Bool, true, false, List, [], ◌∷◌}
use forkspacer.Api.Module.{
  ModulePhase, unset, ready, installing, uninstalling, sleeping, sleeped, resuming, failed,
}
use forkspacer.Controller.Module.{
  Call, install, uninstall, sleep, resume, Effect, status_written, object_written, annotated,
  adopted, called, event,
}

-- The moves: install, sleep, resume, uninstall, and failing from a transition.
abbrev pub can_move : ModulePhase → ModulePhase → Bool
can_move unset installing = true
can_move installing ready = true
can_move installing failed = true
can_move ready sleeping = true
can_move ready uninstalling = true
can_move sleeping sleeped = true
can_move sleeping failed = true
can_move sleeped resuming = true
can_move sleeped uninstalling = true
can_move resuming ready = true
can_move resuming failed = true
can_move uninstalling failed = true
can_move failed uninstalling = true
can_move _ _ = false

-- the phase in which an operation of the manager runs
abbrev pub during : Call → ModulePhase
during install = installing
during uninstall = uninstalling
during sleep = sleeping
during resume = resuming

-- the phase after a trace that started in phase `p`
abbrev pub last_phase : ModulePhase → List Effect → ModulePhase
last_phase p [] = p
last_phase p (status_written q ∷ _) = q
last_phase p (object_written _ ∷ es) = last_phase p es
last_phase p (annotated ∷ es) = last_phase p es
last_phase p (adopted ∷ es) = last_phase p es
last_phase p (called _ ∷ es) = last_phase p es
last_phase p (event _ _ ∷ es) = last_phase p es

-- A trace from phase `p`, the newest effect first, in which each status is a move from the one
-- before, each call of the manager is made in the phase of its operation, a release is adopted
-- while installing, and the finalizers are written before the first phase or while uninstalling.
abbrev pub IsLifeCycle : ModulePhase → List Effect → Type 0
IsLifeCycle p [] = Unit
IsLifeCycle p (status_written q ∷ es) = (can_move (last_phase p es) q ≡ true) × IsLifeCycle p es
IsLifeCycle p (object_written _ ∷ es) =
    ((last_phase p es ≡ unset) ⊎ (last_phase p es ≡ uninstalling)) × IsLifeCycle p es
IsLifeCycle p (annotated ∷ es) = IsLifeCycle p es
IsLifeCycle p (adopted ∷ es) = (last_phase p es ≡ installing) × IsLifeCycle p es
IsLifeCycle p (called k ∷ es) = (last_phase p es ≡ during k) × IsLifeCycle p es
IsLifeCycle p (event _ _ ∷ es) = IsLifeCycle p es

-- The trace has come to phase `q`.
abbrev pub At : ModulePhase → ModulePhase → List Effect → Type 0
At p q es = IsLifeCycle p es × (last_phase p es ≡ q)
