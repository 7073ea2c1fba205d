-- ===== src/Tests/Helm.antt =====
-- A release is put to sleep and resumed in a cluster that lives in memory.
use forkspacer.Base.{
  ℕ, String, ◌≡◌, ◌⊎◌, inl, inr, refl, ap, Bool, true, false, ◌&&◌, some, List, [], ◌∷◌, lookup,
  All, sym, subst, ◌==◌, eq_iff, eq_refl, equal, equal_iff, if◌then◌else◌, Bool-cases, arith,
}
use forkspacer.Go.{Result, ok, is_ok}
use forkspacer.Helm.{
  or_zero, Kind, deployment, Workload, Kube, HistoryCodec, ReplicaHistory, Sleep, no_history, sleep,
  resume,
}
use forkspacer.Helm.Scaling.{KubeLaws}
use forkspacer.Helm.RoundTrip.{resume-sleep, resume-sleep_empty}

Kind-discrete : Discrete Kind
Kind-discrete = hlevel

-- how many replicas each workload asks for
abbrev Cluster : Type 0
Cluster = Kind → String → String → ℕ

abbrev same : Kind → Kind → String → String → String → String → Bool
same k k' ns ns' name name' = equal Kind-discrete k k' && (ns == ns') && (name == name')

abbrev set_replicas : Kind → String → String → ℕ → Cluster → Cluster
set_replicas k ns name n w k' ns' name' = if same k k' ns ns' name name' then n else w k' ns' name'

-- Every namespace has one workload of each kind, called redis.
abbrev kube : Kube Cluster
kube = record {
  list = λ k release ns w.
      (ok (record { namespace = ns; name = "redis"; replicas = some (w k ns "redis") } ∷ []), w);
  patch = λ k ns name n w. (ok tt, set_replicas k ns name n w);
}

abbrev empty_kube : Kube Cluster
empty_kube = record kube { list = λ k release ns w. (ok [], w) }

abbrev codec : HistoryCodec ReplicaHistory
codec = record { encode = λ h. h; decode = ok }

same_refl : (k : Kind) (ns name : String) → same k k ns ns name name ≡ true
same_refl k ns name =
    rw ((equal_iff Kind-discrete k k).1 refl) (ground (arith, eq_refl ns, eq_refl name))

set_lem :
    (k : Kind) (ns name : String) (n : ℕ) (w w' : Cluster)
    → ◌≡◌ {A = Result (Unit {0}) × Cluster} (ok tt, set_replicas k ns name n w) (ok tt, w')
    → some (w' k ns name) ≡ some n
set_lem k ns name n w w' e =
    rw (← ap (λ (r : Result (Unit {0}) × Cluster). r.1) e) (rw (same_refl k ns name) refl)

keep_lem :
    (k : Kind) (ns name : String) (n : ℕ) (w w' : Cluster) (k' : Kind) (ns' name' : String)
    → ◌≡◌ {A = Result (Unit {0}) × Cluster} (ok tt, set_replicas k ns name n w) (ok tt, w')
    → ((k' ≡ k) × (ns' ≡ ns) × (name' ≡ name)) ⊎ (some (w' k' ns' name') ≡ some (w k' ns' name'))
keep_lem k ns name n w w' k' ns' name' e = elim (Bool-cases (same k k' ns ns' name name')) [
  | inl hit ↦ inl (
    sym ((equal_iff Kind-discrete k k').0 (ground arith)),
    sym ((eq_iff ns ns').0 (ground arith)),
    sym ((eq_iff name name').0 (ground arith)),
  )
  | inr other ↦ inr (rw (← ap (λ (r : Result (Unit {0}) × Cluster). r.1) e) (rw other refl))
]

list_lem :
    (k : Kind) (release ns : String) (w : Cluster) (xs : List Workload) (w' : Cluster)
    → kube.list k release ns w ≡ (ok xs, w')
    → All (λ x. (x.namespace ≡ ns) × (some (w k x.namespace x.name) ≡ some (or_zero x.replicas))) xs
list_lem k release ns w xs w' e =
    subst (All _) (listed_injective (ap (λ (r : Result (List Workload) × Cluster). r.0) e))
      ((refl, refl), tt)
  where
    listed_injective : {a b : List Workload} → ok a ≡ ok b → a ≡ b
    listed_injective h = ground arith

laws : KubeLaws kube
laws = record {
  replicas_of = λ k ns name w. some (w k ns name);
  listing_keeps = λ k release ns w k' ns' name'. refl;
  listed = list_lem;
  patch_sets = set_lem;
  patch_keeps = keep_lem;
}

abbrev cluster : Cluster
cluster k ns name = 3

abbrev awake : Sleep Cluster ReplicaHistory
awake = record { world = cluster; history = no_history; meta_data = [] }

abbrev asleep : Sleep Cluster ReplicaHistory
asleep = (sleep kube codec "redis" "apps" awake).1

abbrev resumed : Cluster
resumed = (resume kube codec asleep.meta_data asleep.world).1

sleep-succeeds : sleep kube codec "redis" "apps" awake ≡ (ok tt, asleep)
unfolding sleep equal Kind-discrete
sleep-succeeds = refl

resume-succeeds : resume kube codec asleep.meta_data asleep.world ≡ (ok tt, resumed)
unfolding resume sleep equal Kind-discrete
resume-succeeds = refl

resume-sleep_example : some (resumed deployment "apps" "redis") ≡ some 3
unfolding lookup laws
resume-sleep_example =
    resume-sleep kube codec laws (λ h. refl) "redis" "apps" [] cluster resumed asleep deployment
      "apps" "redis" refl sleep-succeeds resume-succeeds

resume-sleep_empty_example :
    (sleep empty_kube codec "redis" "apps" awake ≡ (ok tt, awake))
    × (is_ok (resume empty_kube codec [] cluster).0 ≡ false)
unfolding lookup
resume-sleep_empty_example =
    resume-sleep_empty empty_kube codec "redis" "apps" [] cluster (λ k. refl) refl
