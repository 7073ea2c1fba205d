-- ===== src/Controller/Workspace/Status.antt =====
-- What the setPhase functions of workspaces leave in the trace.
use forkspacer.Base.{String, Bool, ◌≡◌, refl, Option, List, ◌∷◌}
use forkspacer.Go.{Result, ok, err}
use forkspacer.Exec.{Exec, ◌>>=◌, and_then}
use forkspacer.Api.Meta.{ObjectKey}
use forkspacer.Api.Workspace
use forkspacer.Api.Workspace.{Workspace, WorkspacePhase, WorkspaceStatus}
use forkspacer.Controller.Retry.{retried}
use forkspacer.Controller.Workspace.{
  Effect, status_written, Run, Client, ClientLaws, noted, write_status, plain_status,
  hibernated_status, send_status,
}

-- A status of phase `q` was written, or nothing, if it failed.
abbrev pub Wrote : {W : Type 0} → WorkspacePhase → List Effect → Result Workspace × Run W → Type 0
Wrote q es (ok _, t) = t.trace ≡ status_written q ∷ es
Wrote q es (err _, t) = t.trace ≡ es

module _ {W : Type 0} (c : Client W) where
  noted-Wrote :
      (q : WorkspacePhase) (r : Result Workspace) (w : W) (es : List Effect)
      → Wrote q es (noted c q r w es)
  noted-Wrote q (ok _) w es = refl
  noted-Wrote q (err _) w es = refl

  pub plain-Wrote :
      (key : ObjectKey) (q : WorkspacePhase) (ready : Bool) (message : Option String) (s : Run W)
      → Wrote q s.trace (write_status c key (plain_status c q ready message) s)
  plain-Wrote key q ready message s =
      read (c.get_workspace key s.world).0 (c.get_workspace key s.world).1
    where
      read :
          (r : Result Workspace) (w : W)
          → Wrote q s.trace (
              and_then
                (λ x. plain_status c q ready message >>= λ status.
                  send_status c (record x { status = status }))
                r
                (record { world = w; trace = s.trace }))
      read (err e) w = refl
      read (ok x) w = noted-Wrote q _ _ s.trace

  pub hibernated-Wrote :
      (key : ObjectKey) (message : Option String) (s : Run W)
      → Wrote Workspace.hibernated s.trace (write_status c key (hibernated_status c message) s)
  hibernated-Wrote key message s =
      read (c.get_workspace key s.world).0 (c.get_workspace key s.world).1
    where
      read :
          (r : Result Workspace) (w : W)
          → Wrote Workspace.hibernated s.trace (
              and_then
                (λ x. hibernated_status c message >>= λ status.
                  send_status c (record x { status = status }))
                r
                (record { world = w; trace = s.trace }))
      read (err e) w = refl
      read (ok x) w = noted-Wrote Workspace.hibernated _ _ s.trace

  module _ (laws : ClientLaws c) where
    pub retry-Wrote :
        (q : WorkspacePhase) (m : Exec (Run W) Workspace)
        → ((s : Run W) → Wrote q s.trace (m s))
        → (s : Run W) → Wrote q s.trace (c.retry m s)
    retry-Wrote q m once s =
        retried m (λ a r. Wrote q a.trace r) once (λ a b e r p h. rw (← p) h) s _ (laws.retries m s)
