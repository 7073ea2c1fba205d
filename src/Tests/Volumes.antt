-- ===== src/Tests/Volumes.antt =====
-- A copy of a volume claim between two clusters that live in memory.
use forkspacer.Base.{ℕ, suc, String, [], ◌∷◌}
use forkspacer.Go.{ok}
use forkspacer.Migration.Volumes
use forkspacer.Migration.Volumes.{
  VolumeRun, VolumeHost, ticked, source_pod_at, dest_pod_at, migrate_pvc,
}
use forkspacer.Migration.Volumes.Cleaned.{Cleaned, migrate_pvc-Cleaned}

-- The world counts the ticks.
abbrev host : VolumeHost ℕ String String String
host = record {
  rest_config = λ config. ok config;
  clientset = λ rest. ok rest;
  unix = λ w. ("1767225600", w);
  create_pod = λ client pod w. (ok tt, w);
  get_pod = λ client namespace name w.
      (ok (record { phase = Volumes.running; conditions = ("Ready", "True") ∷ [] }), w);
  delete_pod = λ client namespace name w. (ok tt, w);
  select = λ w. (ticked, suc w);
  pipe = λ source source_pod dest dest_pod w. ((ok tt, ok tt), w);
}

abbrev start : VolumeRun ℕ
start = record { world = 0; trace = [] }

migrate_pvc-Cleaned_example :
    Cleaned host
      (source_pod_at host "1767225600" "default" "data")
      (dest_pod_at host "1767225600" "default" "data")
      []
      (migrate_pvc host 1 "source" "data" "default" "dest" "data" "default" start).0
      (migrate_pvc host 1 "source" "data" "default" "dest" "data" "default" start).1.trace
migrate_pvc-Cleaned_example =
    migrate_pvc-Cleaned host 1 "source" "data" "default" "dest" "data" "default" start
