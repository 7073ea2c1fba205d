-- ===== src/Helm/Scaling.antt =====
-- Scaling workloads of a kind down and back restores their replica counts.
use forkspacer.Base.{
  ℕ, String, ◌≡◌, ◌≢◌, ◌⊎◌, inl, inr, refl, sym, ap, ◌∙◌, Option, some, List, [], ◌∷◌, All, nat_eq,
  Bool-cases,
}
use forkspacer.Go.{Result, ok, err}
use forkspacer.Exec.{and_then}
use forkspacer.Helm.{
  Kind, Workload, ResourceReplicaCount, Kube, or_zero, count_of, Scaled, patched, scale_all,
  scale_listed, scale, scale_back,
}

-- What is relied on of the Kubernetes API, where `replicas_of` says how many replicas a workload of
-- a kind, a namespace and a name asks for. Listing changes nothing, and answers with workloads of
-- the namespace that ask for what was listed. A patch that succeeds changes that workload alone.
pub record KubeLaws {W : Type 0} (c : Kube W) : Type 0 where
  pub replicas_of : Kind → String → String → W → Option ℕ
  pub listing_keeps :
      (k : Kind) (release namespace : String) (w : W) (k' : Kind) (ns name : String)
      → replicas_of k' ns name (c.list k release namespace w).1 ≡ replicas_of k' ns name w
  pub listed :
      (k : Kind) (release namespace : String) (w : W) (xs : List Workload) (w' : W)
      → c.list k release namespace w ≡ (ok xs, w')
      → All
          (λ x.
            (x.namespace ≡ namespace)
            × (replicas_of k x.namespace x.name w ≡ some (or_zero x.replicas)))
          xs
  pub patch_sets :
      (k : Kind) (ns name : String) (n : ℕ) (w w' : W)
      → c.patch k ns name n w ≡ (ok tt, w')
      → replicas_of k ns name w' ≡ some n
  pub patch_keeps :
      (k : Kind) (ns name : String) (n : ℕ) (w w' : W) (k' : Kind) (ns' name' : String)
      → c.patch k ns name n w ≡ (ok tt, w')
      → ((k' ≡ k) × (ns' ≡ ns) × (name' ≡ name))
        ⊎ (replicas_of k' ns' name' w' ≡ replicas_of k' ns' name' w)

-- A workload is among the counts.
abbrev pub Saved : String → String → List ResourceReplicaCount → Type 0
Saved ns name [] = ⊥
Saved ns name (x ∷ xs) = ((ns ≡ x.namespace) × (name ≡ x.name)) ⊎ Saved ns name xs

unit_lem : (u : Unit {0}) → u ≡ tt
unit_lem u = refl

module _ {W : Type 0} (c : Kube W) (laws : KubeLaws c) where
  -- The workloads of a kind ask for the same in two worlds.
  abbrev pub Same : Kind → W → W → Type 0
  Same k w w' = (ns name : String) → laws.replicas_of k ns name w ≡ laws.replicas_of k ns name w'

  -- The counts are those of a world.
  abbrev pub Counts : Kind → W → List ResourceReplicaCount → Type 0
  Counts k w xs = All (λ x. laws.replicas_of k x.namespace x.name w ≡ some x.replicas) xs

  -- what a patch that succeeded leaves, of its own kind and of another
  patch-Same :
      (k k' : Kind) (ns name : String) (n : ℕ) (w w' : W)
      → k' ≢ k
      → c.patch k ns name n w ≡ (ok tt, w')
      → Same k' w' w
  patch-Same k k' ns name n w w' differ e ns' name' =
      elim (laws.patch_keeps k ns name n w w' k' ns' name' e) [
        | inl same ↦ absurd (differ same.0)
        | inr kept ↦ kept
      ]

  -- Scaling back puts every workload that was counted in world `o` back to what it asked for there.
  pub scale_back-Same :
      (k : Kind) (o : W) (xs : List ResourceReplicaCount) (w w' : W)
      → Counts k o xs
      → ((ns name : String)
          → (laws.replicas_of k ns name w ≡ laws.replicas_of k ns name o) ⊎ Saved ns name xs)
      → scale_back c k xs w ≡ (ok tt, w')
      → Same k w' o
  unfolding scale_back
  scale_back-Same k o [] w w' counts off e ns name = elim (off ns name) [
    | inl same ↦
        ap (laws.replicas_of k ns name) (sym (ap (λ (r : Result (Unit {0}) × W). r.1) e)) ∙ same
    | inr never ↦ absurd never
  ]
  scale_back-Same k o (x ∷ xs) w w' counts off e ns name =
      step (c.patch k x.namespace x.name x.replicas w).0
        (c.patch k x.namespace x.name x.replicas w).1 refl e
        (λ v rest more. scale_back-Same k o xs v w' counts.1 rest more) ns name
    where
      hit :
          (v : W)
          → c.patch k x.namespace x.name x.replicas w ≡ (ok tt, v)
          → (n m : String) → (n ≡ x.namespace) × (m ≡ x.name)
          → laws.replicas_of k n m v ≡ laws.replicas_of k n m o
      hit v p n m here =
          let sets = laws.patch_sets k x.namespace x.name x.replicas w v p in
          rw here.0 (rw here.1 (sets ∙ sym counts.0))

      moved :
          (v : W)
          → c.patch k x.namespace x.name x.replicas w ≡ (ok tt, v)
          → (n m : String) → (laws.replicas_of k n m v ≡ laws.replicas_of k n m o) ⊎ Saved n m xs
      moved v p n m = elim (laws.patch_keeps k x.namespace x.name x.replicas w v k n m p) [
        | inl here ↦ inl (hit v p n m (here.1, here.2))
        | inr kept ↦ elim (off n m) [
          | inl same ↦ inl (kept ∙ same)
          | inr (inl here) ↦ inl (hit v p n m here)
          | inr (inr later) ↦ inr later
        ]
      ]

      step :
          (r : Result (Unit {0})) (v : W)
          → c.patch k x.namespace x.name x.replicas w ≡ (r, v)
          → and_then {A = Unit {0}} {B = Unit {0}} (λ _. scale_back c k xs) r v ≡ (ok tt, w')
          → ((u : W)
              → ((ns name : String)
                  → (laws.replicas_of k ns name u ≡ laws.replicas_of k ns name o)
                    ⊎ Saved ns name xs)
              → scale_back c k xs u ≡ (ok tt, w')
              → Same k w' o)
          → Same k w' o
      step (ok u) v p q rest = rest v (moved v p) q
      step (err x) v p q rest = cc

  -- Scaling back leaves the other kinds alone.
  pub scale_back-other :
      (k k' : Kind) (xs : List ResourceReplicaCount) (w w' : W)
      → k' ≢ k
      → scale_back c k xs w ≡ (ok tt, w')
      → Same k' w' w
  unfolding scale_back
  scale_back-other k k' [] w w' differ e ns name =
      ap (laws.replicas_of k' ns name) (sym (ap (λ (r : Result (Unit {0}) × W). r.1) e))
  scale_back-other k k' (x ∷ xs) w w' differ e ns name =
      step (c.patch k x.namespace x.name x.replicas w).0
        (c.patch k x.namespace x.name x.replicas w).1 refl e
        (λ v more. scale_back-other k k' xs v w' differ more) ns name
    where
      step :
          (r : Result (Unit {0})) (v : W)
          → c.patch k x.namespace x.name x.replicas w ≡ (r, v)
          → and_then {A = Unit {0}} {B = Unit {0}} (λ _. scale_back c k xs) r v ≡ (ok tt, w')
          → ((u : W) → scale_back c k xs u ≡ (ok tt, w') → Same k' w' u)
          → Same k' w' w
      step (ok u) v p q rest ns name =
          rest v q ns name ∙ patch-Same k k' x.namespace x.name x.replicas w v differ p ns name
      step (err x) v p q rest ns name = cc

  -- What a patch, or none, does to the world: nothing but to the workload of the count.
  abbrev Touches : Kind → ResourceReplicaCount → W → W → Type 0
  Touches k x v w =
      (k' : Kind) (ns name : String)
      → ((k' ≡ k) × (ns ≡ x.namespace) × (name ≡ x.name))
        ⊎ (laws.replicas_of k' ns name w ≡ laws.replicas_of k' ns name v)

  -- Of a scaling that succeeds: what differs from world `v` is among the counts, the counts are
  -- those of world `o`, and other kinds are left alone.
  abbrev pub Good : Kind → W → W → Scaled W → Type 0
  Good k o v ((old, ok _), w) =
      ((ns name : String)
        → (laws.replicas_of k ns name w ≡ laws.replicas_of k ns name v) ⊎ Saved ns name old)
      × Counts k o old
      × ((k' : Kind) → k' ≢ k → Same k' w v)
  Good k o v ((old, err _), w) = Unit

  prepend-Good :
      (k : Kind) (o v u : W) (x : ResourceReplicaCount) (old : List ResourceReplicaCount)
      (r : Result (Unit {0})) (w : W)
      → laws.replicas_of k x.namespace x.name o ≡ some x.replicas
      → Touches k x v u
      → Good k o u ((old, r), w)
      → Good k o v ((x ∷ old, r), w)
  prepend-Good k o v u x old (err e) w head touch good = tt
  prepend-Good k o v u x old (ok _) w head touch good = (
    (λ ns name. elim (good.0 ns name) [
      | inr later ↦ inr (inr later)
      | inl same ↦ elim (touch k ns name) [
        | inl here ↦ inr (inl (here.1, here.2))
        | inr kept ↦ inl (same ∙ kept)
      ]
    ]),
    (head, good.1),
    (λ k' differ ns name. elim (touch k' ns name) [
      | inl here ↦ absurd (differ here.0)
      | inr kept ↦ good.2 k' differ ns name ∙ kept
    ]),
  )

  abbrev Listed : Kind → String → W → List Workload → Type 0
  Listed k namespace w xs =
      All
        (λ x.
          (x.namespace ≡ namespace)
          × (laws.replicas_of k x.namespace x.name w ≡ some (or_zero x.replicas)))
        xs

  patched-Good :
      (k : Kind) (namespace : String) (target : ℕ) (o v : W) (x : Workload)
      (p : Result (Unit {0}) × W) (rest : Scaled W)
      → c.patch k namespace x.name target v ≡ p
      → x.namespace ≡ namespace
      → laws.replicas_of k x.namespace x.name o ≡ some (or_zero x.replicas)
      → Good k o p.1 rest
      → Good k o v (patched c (count_of x) p rest)
  patched-Good k namespace target o v x (err e, u) rest q at head good = tt
  patched-Good k namespace target o v x (ok t, u) rest q at head good =
      prepend-Good k o v u (count_of x) rest.0.0 rest.0.1 rest.1 head
        (λ k' ns name. elim (laws.patch_keeps k namespace x.name target v u k' ns name q) [
          | inl here ↦ inl (here.0, here.1 ∙ sym at, here.2)
          | inr kept ↦ inr kept
        ])
        good

  scale_all-Good :
      (k : Kind) (namespace : String) (target : ℕ) (o : W) (xs : List Workload) (v : W)
      → Listed k namespace o xs
      → Good k o v (scale_all c k namespace target xs v)
  unfolding scale_all
  scale_all-Good k namespace target o [] v all =
      ((λ ns name. inl refl), tt, (λ k' differ ns name. refl))
  scale_all-Good k namespace target o (x ∷ xs) v all =
      let r = scale_all c k namespace target xs v in
      elim (Bool-cases (nat_eq (or_zero x.replicas) target)) [
        | inl there ↦ rw there (
            prepend-Good k o v v (count_of x) r.0.0 r.0.1 r.1 all.0.1 (λ k' ns name. inr refl)
              (scale_all-Good k namespace target o xs v all.1))
        | inr away ↦ rw away (
            patched-Good k namespace target o v x (c.patch k namespace x.name target v) _ refl
              all.0.0 all.0.1
              (scale_all-Good k namespace target o xs (c.patch k namespace x.name target v).1
                all.1))
      ]

  pub scale-Good :
      (k : Kind) (release namespace : String) (target : ℕ) (w : W)
      → Good k w w (scale c k release namespace target w)
  unfolding scale
  scale-Good k release namespace target w =
      found (c.list k release namespace w).0 (c.list k release namespace w).1 refl
    where
      found :
          (r : Result (List Workload)) (v : W)
          → c.list k release namespace w ≡ (r, v)
          → Good k w w (scale_listed c k namespace target (r, v))
      found (err e) v p = tt
      found (ok xs) v p =
          relist (scale_all c k namespace target xs v).0.0 (scale_all c k namespace target xs v).0.1
            (scale_all c k namespace target xs v).1
            (scale_all-Good k namespace target w xs v (laws.listed k release namespace w xs v p))
        where
          kept : (k' : Kind) → Same k' v w
          kept k' ns name =
              ap (λ (r : Result (List Workload) × W). laws.replicas_of k' ns name r.1) (sym p)
              ∙ laws.listing_keeps k release namespace w k' ns name

          relist :
              (old : List ResourceReplicaCount) (r : Result (Unit {0})) (u : W)
              → Good k w v ((old, r), u)
              → Good k w w ((old, r), u)
          relist old (err e) u good = tt
          relist old (ok _) u good = (
            (λ ns name. elim (good.0 ns name) [
              | inl same ↦ inl (same ∙ kept k ns name)
              | inr later ↦ inr later
            ]),
            good.1,
            (λ k' differ ns name. good.2 k' differ ns name ∙ kept k' ns name),
          )
