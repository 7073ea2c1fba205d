-- ===== src/Helm/Service/Removal.antt =====
-- What UninstallRelease removes, and what a failed installation starts.
use forkspacer.Base.{
  String, ◌≡◌, ◌⊎◌, inl, inr, refl, Bool, true, false, not, ◌&&◌, List, [], ◌∷◌, ◌++◌, ◌==◌,
  if◌then◌else◌, Bool-cases,
}
use forkspacer.Go.{Error, Result, ok, err, wrap_w, is_ok}
use forkspacer.Exec.{◌>>◌, pure, and_then, map_err}
use forkspacer.Helm.Service.{
  HelmEffect, uninstall_run, namespace_deleted, claims_deleted, HelmRun, Sdk, calling, note, step,
  remove_more, uninstall_release, instance_of,
}

-- What is removed besides the release: the namespace if that is asked and it is not `default` or
-- empty, otherwise the volume claims if that is asked.
abbrev pub extra : String → String → Bool → Bool → List HelmEffect
extra release namespace remove_namespace remove_claims =
    if remove_namespace && (not (namespace == "default") && not (namespace == ""))
    then namespace_deleted namespace ∷ []
    else if remove_claims
    then claims_deleted namespace release ∷ []
    else []

module _ {W C V : Type 0} (sdk : Sdk W C V) (release namespace : String) where
  -- the result of what is removed besides the release, in a world
  abbrev pub extra_result : Bool → Bool → W → Result (Unit {0})
  extra_result n p w =
      if n && (not (namespace == "default") && not (namespace == ""))
      then (sdk.delete_namespace namespace w).0
      else if p
      then (sdk.delete_claims namespace (instance_of release) w).0
      else ok tt

  -- The connection failed and nothing was asked for; the release could not be uninstalled, and
  -- nothing else was asked for; or the release was uninstalled and the rest asked for, and the
  -- result is a success if this was one.
  abbrev pub Removed : Bool → Bool → HelmRun W → Result (Unit {0}) × HelmRun W → Type 0
  Removed n p s (r, t) =
      ((e : Error) × (w : W) × (sdk.init namespace s.world ≡ (err e, w))
        × (is_ok r ≡ false)
        × (t.trace ≡ s.trace))
      ⊎ ((w : W) × (sdk.init namespace s.world ≡ (ok tt, w))
          × (((e : Error) × (v : W) × (sdk.run_uninstall release namespace w ≡ (err e, v))
                × (is_ok r ≡ false)
                × (t.trace ≡ uninstall_run release namespace ∷ s.trace))
              ⊎ ((v : W) × (sdk.run_uninstall release namespace w ≡ (ok tt, v))
                  × (is_ok r ≡ is_ok (extra_result n p v))
                  × (t.trace
                      ≡ extra release namespace n p ++ uninstall_run release namespace ∷ s.trace))))

  -- what follows the uninstallation of the release
  abbrev More : Bool → Bool → W → List HelmEffect → Result (Unit {0}) × HelmRun W → Type 0
  More n p w es (r, t) =
      (is_ok r ≡ is_ok (extra_result n p w)) × (t.trace ≡ extra release namespace n p ++ es)

  wrapped :
      (message : String) (r : Result (Unit {0})) (s : HelmRun W)
      → is_ok (map_err (wrap_w message) (λ (t : HelmRun W). (r, t)) s).0 ≡ is_ok r
  wrapped message (ok _) s = refl
  wrapped message (err _) s = refl

  remove_more-More :
      (n p : Bool) (s : HelmRun W)
      → More n p s.world s.trace (remove_more sdk release namespace n p s)
  remove_more-More n p s =
      elim (Bool-cases (n && (not (namespace == "default") && not (namespace == "")))) [
        | inl whole ↦ rw whole (
          wrapped "failed to delete namespace" (sdk.delete_namespace namespace s.world).0 s,
          refl,
        )
        | inr part ↦ rw part (claims p)
      ]
    where
      claims :
          (b : Bool)
          → (is_ok
                ((if b
                    then (note sdk (claims_deleted namespace release)
                        >> step sdk "failed to delete PersistentVolumeClaims"
                            (sdk.delete_claims namespace (instance_of release)))
                    else pure tt)
                  s).0
              ≡ is_ok (
                  if b
                  then (sdk.delete_claims namespace (instance_of release) s.world).0
                  else ok tt))
            × (((if b
                    then (note sdk (claims_deleted namespace release)
                        >> step sdk "failed to delete PersistentVolumeClaims"
                            (sdk.delete_claims namespace (instance_of release)))
                    else pure tt)
                  s).1.trace
                ≡ (if b then claims_deleted namespace release ∷ [] else []) ++ s.trace)
      claims true = (
        wrapped "failed to delete PersistentVolumeClaims"
            (sdk.delete_claims namespace (instance_of release) s.world).0 s,
        refl,
      )
      claims false = (refl, refl)

  -- UninstallRelease asks for the release first. If this succeeds it asks for its namespace if that
  -- is wanted and the namespace is neither `default` nor empty, and otherwise for its volume claims
  -- if that is wanted, and nothing else; its result is then a success if this is one. If the
  -- release could not be uninstalled, it asks for nothing else and fails.
  pub uninstall_release-Removed :
      (remove_namespace remove_claims : Bool) (s : HelmRun W)
      → Removed remove_namespace remove_claims s
          (uninstall_release sdk release namespace remove_namespace remove_claims s)
  unfolding uninstall_release
  uninstall_release-Removed n p s =
      started (sdk.init namespace s.world).0 (sdk.init namespace s.world).1 refl
    where
      ran :
          (w : W)
          → sdk.init namespace s.world ≡ (ok tt, w)
          → (r : Result (Unit {0})) (v : W) → sdk.run_uninstall release namespace w ≡ (r, v)
          → Removed n p s (
              and_then
                (λ _. remove_more sdk release namespace n p)
                (map_err (wrap_w "failed to uninstall release") (λ (t : HelmRun W). (r, t)) s).0
                (record { world = v; trace = uninstall_run release namespace ∷ s.trace }))
      ran w q (ok _) v h =
          let u : HelmRun W = record {
            world = v;
            trace = uninstall_run release namespace ∷ s.trace;
          } in
          let more = remove_more-More n p u in inr (w, q, inr (v, h, more.0, more.1))
      ran w q (err e) v h = inr (w, q, inl (e, v, h, refl, refl))

      started :
          (r : Result (Unit {0})) (w : W)
          → sdk.init namespace s.world ≡ (r, w)
          → Removed n p s (
              (map_err (wrap_w "failed to initialize action config") (λ (t : HelmRun W). (r, t))
                  >> note sdk (uninstall_run release namespace)
                  >> map_err
                      (wrap_w "failed to uninstall release")
                      (calling sdk (sdk.run_uninstall release namespace))
                  >> remove_more sdk release namespace n p)
                (record { world = w; trace = s.trace }))
      started (ok _) w q =
          ran w q (sdk.run_uninstall release namespace w).0
            (sdk.run_uninstall release namespace w).1 refl
      started (err e) w q = inl (e, w, q, refl, refl)
