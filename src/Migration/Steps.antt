-- ===== src/Migration/Steps.antt =====
-- The steps that the copies of a secret and of a config map share.
use forkspacer.Base.{false, ◌≡◌, ◌⊎◌, inl, inr, refl, List, ◌∷◌, Bool-cases, subst}
use forkspacer.Go.{Error, Result, ok, err, is_not_found}
use forkspacer.Exec.{and_then}
use forkspacer.Controller.Connection.{Loader}
use forkspacer.Migration.Connect.{
  Connected, Unconnected, connected-Quiet, connected-Connected, connected-Unconnected,
}
use forkspacer.Migration.{
  Store, Kind, Change, created, updated, deleted, Transfer, Place, step, logged, changing,
  connected, write_to, found, copied, transfer,
}

module _ {W K O : Type 0} (store : Store W K O) (Carries : O → O → Type 0) where
  -- The last call of the store through the client `k` has failed: the object there could not be
  -- read, and is not one that is missing; or an object could not be created, deleted or updated.
  abbrev pub Refused : K → Place → W → Type 0
  Refused k dest last =
      (w : W) × (e : Error) × (((store.get k dest.namespace dest.name w ≡ (err e, last))
          × (is_not_found e ≡ false))
        ⊎ ((store.delete k dest.namespace dest.name w ≡ (err e, last))
            ⊎ ((new : O) × ((store.create k new w ≡ (err e, last))
                  ⊎ (store.update k new w ≡ (err e, last))))))

  -- An immutable object was deleted, and its replacement could not be created.
  abbrev pub Lost : K → Place → W → Type 0
  Lost k dest last =
      (new : O) × (v w : W) × (e : Error) × (store.delete k dest.namespace dest.name v ≡ (ok tt, w))
      × (store.create k new w ≡ (err e, last))

  -- What one run of the copy of `source` does to the destination, through the client `k`: after
  -- success one object was written there with what is to be carried over, new, in the place of an
  -- immutable one that was deleted, or as a change of the one there. After an error of the last
  -- call nothing was changed, or the immutable object is lost.
  abbrev pub Copied : K → Place → O → List (Change O) → Result (Unit {0}) × Transfer W O → Type 0
  Copied k dest source es (ok _, t) =
      (new : O) × Carries source new
      × (w : W) × (((store.create k new w ≡ (ok tt, t.world)) × (t.trace ≡ created new ∷ es))
          ⊎ (((v : W) × (store.delete k dest.namespace dest.name v ≡ (ok tt, w))
                × (store.create k new w ≡ (ok tt, t.world))
                × (t.trace ≡ created new ∷ deleted ∷ es))
              ⊎ ((store.update k new w ≡ (ok tt, t.world)) × (t.trace ≡ updated new ∷ es))))
  Copied k dest source es (err _, t) =
      ((t.trace ≡ es) × Refused k dest t.world) ⊎ ((t.trace ≡ deleted ∷ es) × Lost k dest t.world)

  -- The same for a run that connects to both clusters and reads the source first, or fails to.
  abbrev pub Migrated :
      Loader W K → Place → Place → List (Change O) → Result (Unit {0}) × Transfer W O → Type 0
  Migrated loader from dest es (ok u, t) =
      (ks kd : K) × Connected loader from dest ks kd
      × (w w' : W) × (source : O) × (store.get ks from.namespace from.name w ≡ (ok source, w'))
      × Copied kd dest source es (ok u, t)
  Migrated loader from dest es (err x, t) =
      ((t.trace ≡ es) × Unconnected loader from dest t.world)
      ⊎ ((ks kd : K) × Connected loader from dest ks kd
          × (w : W) × (((e : Error) × (store.get ks from.namespace from.name w ≡ (err e, t.world))
                × (t.trace ≡ es))
              ⊎ ((source : O) × (w' : W) × (store.get ks from.namespace from.name w
                    ≡ (ok source, w'))
                  × Copied kd dest source es (err x, t))))

module _ {W K O : Type 0} (loader : Loader W K) (store : Store W K O) (kind : Kind O)
    (Carries : O → O → Type 0) (fresh-carries : (source : O) → Carries source (kind.fresh source))
    (recreated-carries : (source old : O) → Carries source (kind.recreated source old))
    (source dest : Place)
    (changed-carries : (source old : O) (k : K) (w w' : W)
      → store.get k dest.namespace dest.name w ≡ (ok old, w')
      → Carries source (kind.changed source old)) where
  write_to-Copied :
      (k : K) (o : O) (r : Result O) (v : W) (s : Transfer W O)
      → store.get k dest.namespace dest.name v ≡ (r, s.world)
      → Copied store Carries k dest o s.trace (write_to loader store kind k dest o r s)
  write_to-Copied k o (ok old) v s got = elim (Bool-cases (kind.is_immutable old)) [
    | inl fixed ↦ rw fixed (
        dropped (store.delete k dest.namespace dest.name s.world).0
          (store.delete k dest.namespace dest.name s.world).1 refl)
    | inr free ↦ rw free (
        changed_lem (store.update k (kind.changed o old) s.world).0
          (store.update k (kind.changed o old) s.world).1 refl)
  ]
    where
      changed_lem :
          (r : Result (Unit {0})) (w : W)
          → store.update k (kind.changed o old) s.world ≡ (r, w)
          → Copied store Carries k dest o s.trace (
              logged loader store kind "failed to update destination object"
                (updated (kind.changed o old))
                r
                w
                s.trace)
      changed_lem (ok _) w p =
          (kind.changed o old, changed-carries o old k v s.world got, s.world, inr (inr (p, refl)))
      changed_lem (err e) w p = inl (refl, (s.world, e, inr (inr (kind.changed o old, inr p))))

      remade :
          (u : W)
          → store.delete k dest.namespace dest.name s.world ≡ (ok tt, u)
          → (r : Result (Unit {0})) (w : W) → store.create k (kind.recreated o old) u ≡ (r, w)
          → Copied store Carries k dest o s.trace (
              logged loader store kind "failed to recreate immutable destination object"
                (created (kind.recreated o old))
                r
                w
                (deleted ∷ s.trace))
      remade u q (ok _) w p =
          (kind.recreated o old, recreated-carries o old, u, inr (inl (s.world, q, p, refl)))
      remade u q (err e) w p = inr (refl, (kind.recreated o old, s.world, u, e, q, p))

      dropped :
          (r : Result (Unit {0})) (w : W)
          → store.delete k dest.namespace dest.name s.world ≡ (r, w)
          → Copied store Carries k dest o s.trace (
              and_then {A = Unit {0}} {B = Unit {0}}
                (λ _.
                  changing loader store kind "failed to recreate immutable destination object"
                    (created (kind.recreated o old))
                    (store.create k (kind.recreated o old)))
                (logged loader store kind "failed to delete immutable destination object" deleted r
                  w s.trace).0
                (logged loader store kind "failed to delete immutable destination object" deleted r
                  w s.trace).1)
      dropped (ok _) w q =
          remade w q (store.create k (kind.recreated o old) w).0
            (store.create k (kind.recreated o old) w).1 refl
      dropped (err e) w q = inl (refl, (s.world, e, inr (inl q)))
  write_to-Copied k o (err e) v s got = elim (Bool-cases (is_not_found e)) [
    | inl gone ↦ rw gone (
        made (store.create k (kind.fresh o) s.world).0 (store.create k (kind.fresh o) s.world).1
          refl)
    | inr other ↦ rw other (inl (refl, (v, e, inl (got, other))))
  ]
    where
      made :
          (r : Result (Unit {0})) (w : W)
          → store.create k (kind.fresh o) s.world ≡ (r, w)
          → Copied store Carries k dest o s.trace (
              logged loader store kind "failed to create destination object"
                (created (kind.fresh o))
                r
                w
                s.trace)
      made (ok _) w p = (kind.fresh o, fresh-carries o, s.world, inl (p, refl))
      made (err x) w p = inl (refl, (s.world, x, inr (inr (kind.fresh o, inl p))))

  copied-Migrated :
      (ks kd : K) (s : Transfer W O)
      → Connected loader source dest ks kd
      → Migrated store Carries loader source dest s.trace
          (copied loader store kind source dest (ks, kd) s)
  copied-Migrated ks kd s reached =
      read (store.get ks source.namespace source.name s.world).0
        (store.get ks source.namespace source.name s.world).1 refl
    where
      carried :
          (o : O) (w : W) (r : Result (Unit {0})) (t : Transfer W O)
          → store.get ks source.namespace source.name s.world ≡ (ok o, w)
          → Copied store Carries kd dest o s.trace (r, t)
          → Migrated store Carries loader source dest s.trace (r, t)
      carried o w (ok _) t p h = (ks, kd, reached, s.world, w, o, p, h)
      carried o w (err _) t p h = inr (ks, kd, reached, s.world, inr (o, w, p, h))

      read :
          (r : Result O) (w : W)
          → store.get ks source.namespace source.name s.world ≡ (r, w)
          → Migrated store Carries loader source dest s.trace (
              and_then
                (found loader store kind dest kd)
                (step loader store kind "failed to get source object"
                  (λ x. (r, x))
                  (record { world = w; trace = s.trace })).0
                (record { world = w; trace = s.trace }))
      read (err e) w p = inr (ks, kd, reached, s.world, inl (e, p, refl))
      read (ok o) w p =
          let q = store.get kd dest.namespace dest.name w in
          let u : Transfer W O = record { world = q.1; trace = s.trace } in
          carried o w (write_to loader store kind kd dest o q.0 u).0
            (write_to loader store kind kd dest o q.0 u).1 p (write_to-Copied kd o q.0 w u refl)

  pub transfer-Migrated :
      (s : Transfer W O)
      → Migrated store Carries loader source dest s.trace (transfer loader store kind source dest s)
  unfolding transfer
  transfer-Migrated s =
      go (connected loader store kind source dest s).0 (connected loader store kind source dest s).1
        refl (connected-Quiet loader store kind source dest s)
    where
      go :
          (r : Result (K × K)) (t : Transfer W O)
          → connected loader store kind source dest s ≡ (r, t)
          → t.trace ≡ s.trace
          → Migrated store Carries loader source dest s.trace
              (and_then (copied loader store kind source dest) r t)
      go (ok ks) t p h =
          subst
            (λ es.
              Migrated store Carries loader source dest es
                (copied loader store kind source dest ks t))
            h
            (copied-Migrated ks.0 ks.1 t
              (connected-Connected loader store kind source dest ks s t p))
      go (err e) t p h = inl (h, connected-Unconnected loader store kind source dest s t e p)
