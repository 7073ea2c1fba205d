-- ===== src/Helm.antt =====
-- Putting a Helm release to sleep and resuming it: the scaling functions of pkg/services/helm.go,
-- and Sleep and Resume of pkg/manager/helm.go.
-- The three kinds of workloads have the same code, so one model serves them; their replica counts,
-- which Kubernetes keeps from being negative, are natural numbers. The Kubernetes API is
-- a parameter, and so are the encoding of the replica history in the metadata of a module and its
-- decoding (JSON and mapstructure).
pub mod Scaling
pub mod History
pub mod RoundTrip
pub mod Service
pub mod Charts
pub mod Manager
use forkspacer.Base.{
  ℕ, String, ◌≡◌, ◌⊎◌, Bool, Option, none, some, List, [], ◌∷◌, ◌++◌, Assoc, All, lookup, insert,
  nat_eq, if◌then◌else◌,
}
use forkspacer.Go.{Error, Result, ok, err, errorf, wrap_w}
use forkspacer.Exec.{Exec, ◌>>=◌, ◌>>◌, pure, raise, lift}

pub data Kind : Type 0 where
  deployment replica_set stateful_set : Kind

-- what is read of a workload
pub record Workload : Type 0 where
  pub namespace : String
  pub name : String
  pub replicas : Option ℕ

pub record ResourceReplicaCount : Type 0 where
  pub namespace : String
  pub name : String
  pub replicas : ℕ

pub record Kube (W : Type 0) : Type 0 where
  pub list : Kind → String → String → W → Result (List Workload) × W
  pub patch : Kind → String → String → ℕ → W → Result (Unit {0}) × W

abbrev pub or_zero : Option ℕ → ℕ
or_zero none = 0
or_zero (some n) = n

abbrev pub count_of : Workload → ResourceReplicaCount
count_of x = record { namespace = x.namespace; name = x.name; replicas = or_zero x.replicas }

-- the old replica counts, with the error if there is one, and the world
abbrev pub Scaled : Type 0 → Type 0
Scaled W = (List ResourceReplicaCount × Result (Unit {0})) × W

module _ {W : Type 0} (c : Kube W) where
  abbrev prepend : ResourceReplicaCount → Scaled W → Scaled W
  prepend count r = ((count ∷ r.0.0, r.0.1), r.1)

  abbrev patched : ResourceReplicaCount → Result (Unit {0}) × W → Scaled W → Scaled W
  patched count (ok _, w) rest = prepend count rest
  patched count (err e, w) rest = ((count ∷ [], err (wrap_w "failed to patch workload" e)), w)

  -- the loop of ScaleDeployments, ScaleReplicaSets and ScaleStatefulSets
  scale_all : Kind → String → ℕ → List Workload → W → Scaled W
  scale_all kind namespace target [] w = (([], ok tt), w)
  scale_all kind namespace target (x ∷ xs) w =
      let p = c.patch kind namespace x.name target w in
      let skipped = scale_all kind namespace target xs w in
      let rest = scale_all kind namespace target xs p.1 in
      if nat_eq (or_zero x.replicas) target
      then prepend (count_of x) skipped
      else patched (count_of x) p rest

  abbrev scale_listed : Kind → String → ℕ → Result (List Workload) × W → Scaled W
  scale_listed kind namespace target (ok xs, w) = scale_all kind namespace target xs w
  scale_listed kind namespace target (err e, w) =
      (([], err (wrap_w "failed to list workloads" e)), w)

  pub scale : Kind → String → String → ℕ → W → Scaled W
  unfolding scale_all
  scale kind release namespace target w =
      scale_listed kind namespace target (c.list kind release namespace w)

  -- ScaleDeploymentsBack, ScaleReplicaSetsBack and ScaleStatefulSetsBack
  pub scale_back : Kind → List ResourceReplicaCount → Exec W (Unit {0})
  scale_back kind [] = pure tt
  scale_back kind (x ∷ xs) =
      λ w. let rest = scale_back kind xs in (c.patch kind x.namespace x.name x.replicas >> rest) w

pub record ReplicaHistory : Type 0 where
  pub deployments : List ResourceReplicaCount
  pub replica_sets : List ResourceReplicaCount
  pub stateful_sets : List ResourceReplicaCount

abbrev pub no_history : ReplicaHistory
no_history = record { deployments = []; replica_sets = []; stateful_sets = [] }

abbrev pub saved : Kind → ReplicaHistory → List ResourceReplicaCount
saved deployment h = h.deployments
saved replica_set h = h.replica_sets
saved stateful_set h = h.stateful_sets

abbrev append : Kind → ReplicaHistory → ResourceReplicaCount → ReplicaHistory
append deployment h x = record h { deployments = h.deployments ++ x ∷ [] }
append replica_set h x = record h { replica_sets = h.replica_sets ++ x ∷ [] }
append stateful_set h x = record h { stateful_sets = h.stateful_sets ++ x ∷ [] }

-- V is the type of the values in a module's metadata.
pub record HistoryCodec (V : Type 0) : Type 0 where
  pub encode : ReplicaHistory → V
  pub decode : V → Result ReplicaHistory

abbrev pub history_key : String
history_key = "replicaHistory"

-- The state of Sleep: the world, the history so far and the metadata.
pub record Sleep (W V : Type 0) : Type 0 where
  pub world : W
  pub history : ReplicaHistory
  pub meta_data : Assoc V

module _ {W V : Type 0} (c : Kube W) (d : HistoryCodec V) where
  -- the loop that extends the history and stores it at every step
  remember : Kind → List ResourceReplicaCount → ReplicaHistory × Assoc V → ReplicaHistory × Assoc V
  unfolding insert
  remember kind [] hm = hm
  remember kind (x ∷ xs) hm =
      let longer = append kind hm.0 x in
      remember kind xs (longer, insert history_key (d.encode longer) hm.1)

  pub sleep_kind : String → String → Kind → Exec (Sleep W V) (Unit {0})
  unfolding scale remember
  sleep_kind release namespace kind s =
      let r = scale c kind release namespace 0 s.world in
      let hm = remember kind r.0.0 (s.history, s.meta_data) in
      (r.0.1, record { world = r.1; history = hm.0; meta_data = hm.1 })

  -- ModuleHelmManager.Sleep
  unfoldable pub sleep : String → String → Exec (Sleep W V) (Unit {0})
  unfolding sleep_kind
  sleep release namespace =
      sleep_kind release namespace deployment
      >> sleep_kind release namespace replica_set
      >> sleep_kind release namespace stateful_set

  restore : ReplicaHistory → Exec W (Unit {0})
  unfolding scale_back
  restore h =
      scale_back c deployment h.deployments
      >> scale_back c replica_set h.replica_sets
      >> scale_back c stateful_set h.stateful_sets

  abbrev resume_with : Option V → Exec W (Unit {0})
  resume_with none = raise (errorf "replica history not found in metadata")
  resume_with (some v) = lift (d.decode v) >>= restore

  -- ModuleHelmManager.Resume
  unfoldable pub resume : Assoc V → Exec W (Unit {0})
  unfolding restore lookup
  resume meta_data = resume_with (lookup history_key meta_data)
