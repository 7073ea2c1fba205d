-- ===== src/Webhook/Workspace/Defaults.antt =====
-- What the defaults of a workspace guarantee.
use forkspacer.Base.{ℕ, ◌≡◌, inl, refl, sym, ap, ◌∙◌, true, Option, none, some, arith}
use forkspacer.Go.{Result, ok, err}
use forkspacer.Api.Workspace.{Workspace, managed, WorkspaceFromReference, WorkspaceAutoHibernation}
use forkspacer.Webhook.Field.{none_found}
use forkspacer.Webhook.Workspace.{
  Reader, is_managed, default_workspace, validate_update, from_key, or_now, inherit, inherited,
}
use forkspacer.Webhook.Workspace.Laws.{ScheduleSpec, workspace_update_iff}

module _ (r : Reader) where
  or_now_twice : (t' t : ℕ) (o : Option ℕ) → or_now t' (or_now t o) ≡ or_now t o
  or_now_twice t' t none = refl
  or_now_twice t' t (some _) = refl

  inherit_twice :
      (found : Result Workspace) (a : Option WorkspaceAutoHibernation)
      → inherit found (inherit found a) ≡ inherit found a
  inherit_twice found (some a) = refl
  inherit_twice (ok from) none = ground arith
  inherit_twice (err e) none = refl

  inherited_twice :
      (f : Option WorkspaceFromReference) (a : Option WorkspaceAutoHibernation)
      → inherited r f (inherited r f a) ≡ inherited r f a
  inherited_twice none a = refl
  inherited_twice (some f) a = inherit_twice (r.get_workspace (from_key f)) a

  -- Defaulting twice, at whatever times, is defaulting once, if the API server answers the same.
  pub default_workspace-default_workspace :
      (t t' : ℕ) (w : Workspace)
      → default_workspace r t' (default_workspace r t w) ≡ default_workspace r t w
  unfolding default_workspace
  default_workspace-default_workspace t t' w = ground (
    arith,
    or_now_twice t' t w.status.last_activity,
    inherited_twice w.spec.from w.spec.auto_hibernation,
  )

default_workspace-connection :
    (r r' : Reader) (t t' : ℕ) (w w' : Workspace)
    → w.spec.type ≡ managed
    → w'.spec.type ≡ managed
    → w.metadata.name ≡ w'.metadata.name
    → (default_workspace r t w).spec.connection ≡ (default_workspace r' t' w').spec.connection
unfolding default_workspace
default_workspace-connection r r' t t' w w' m m' n = ground arith

still_managed : (w : Workspace) → w.spec.type ≡ managed → is_managed w.spec.type ≡ true
still_managed w m = ap is_managed m

-- The connection of a managed workspace is derived by the defaults, so it stands in the way of no
-- update: once both versions have been through the defaults, at whatever times and answers of the
-- API server, an update that keeps name and source of a managed workspace is admitted if the new
-- schedules parse and differ.
pub default_workspace-update :
    (r r' : Reader) (t t' : ℕ) (w w' : Workspace)
    → w.spec.type ≡ managed
    → w'.spec.type ≡ managed
    → w.metadata.name ≡ w'.metadata.name
    → w.spec.from ≡ w'.spec.from
    → ScheduleSpec r' (default_workspace r' t' w').spec.auto_hibernation
    → none_found (validate_update r' (default_workspace r t w) (default_workspace r' t' w')) ≡ true
unfolding default_workspace
default_workspace-update r r' t t' w w' m m' n f h =
    (workspace_update_iff r' (default_workspace r t w) (default_workspace r' t' w')).1 (
      (m ∙ sym m', f, default_workspace-connection r r' t t' w w' m m' n),
      h,
      inl (still_managed w' m'),
    )
