-- ===== src/Custom/Runner/Polls.antt =====
-- How long the wait for the pod of a runner goes on.
use forkspacer.Base.{ℕ, zero, suc, String, Bool, false, ◌≡◌, refl, ap, ◌∙◌, some, [], ◌∷◌}
use forkspacer.Go.{Result, ok, err, errorf}
use forkspacer.Exec.{Exec, and_then}
use forkspacer.Custom
use forkspacer.Custom.{PodStatus, CustomRun, Host, calling}
use forkspacer.Custom.Runner.{pod_seen, wait_for_pod_running}

-- a pod that has not been scheduled yet, and one whose image cannot be pulled
abbrev pub unscheduled : PodStatus
unscheduled = record { phase = Custom.pending; container_statuses = [] }

abbrev pub without_image : PodStatus
without_image = record { phase = Custom.pending; container_statuses = some "ErrImagePull" ∷ [] }

module _ {W M C G : Type 0} (host : Host W M C G) where
  -- the pod stays as it is
  abbrev pub Stays : String → PodStatus → Type 0
  Stays name status = (w : W) → (v : W) × (host.get_pod name w ≡ (ok status, v))

  abbrev more : ℕ → String → ℕ → Exec (CustomRun W M) Bool
  more fuel name n = wait_for_pod_running host fuel n name

  abbrev answered :
      ℕ → ℕ → String → CustomRun W M → Result PodStatus × W → Result Bool × CustomRun W M
  answered fuel errors name s (r, w) =
      and_then {A = PodStatus} {B = Bool}
        (λ pod. pod_seen host errors pod.container_statuses (more fuel name) pod.phase) r
        (record s { world = w })

  -- The wait for a pod that stays unscheduled goes on for any number of polls.
  pub wait_for_pod_running-unscheduled :
      (fuel : ℕ) (name : String) (s : CustomRun W M)
      → Stays name unscheduled
      → (wait_for_pod_running host fuel 0 name s).0 ≡ ok false
  unfolding wait_for_pod_running
  wait_for_pod_running-unscheduled zero name s stays = refl
  wait_for_pod_running-unscheduled (suc fuel) name s stays =
      let (v, p) = stays s.world in
      ap (λ (x : Result PodStatus × W). (answered fuel 0 name s x).0) p
      ∙ wait_for_pod_running-unscheduled fuel name (record s { world = (host.sleep 2 v).1 }) stays

  pulled :
      (fuel errors : ℕ) (name : String) (s : CustomRun W M) (v : W)
      → host.get_pod name s.world ≡ (ok without_image, v)
      → (wait_for_pod_running host (suc fuel) errors name s)
        ≡ answered fuel errors name s (ok without_image, v)
  unfolding wait_for_pod_running
  pulled fuel errors name s v p = ap (answered fuel errors name s) p

  -- The wait for a pod whose image cannot be pulled fails at the third poll, however many polls it
  -- could take.
  pub wait_for_pod_running-without_image :
      (fuel : ℕ) (name : String) (s : CustomRun W M)
      → Stays name without_image
      → (wait_for_pod_running host (suc (suc (suc fuel))) 0 name s).0
        ≡ err (errorf "failed to pull image for custom module runner pod")
  wait_for_pod_running-without_image fuel name s stays =
      let (v₁, p₁) = stays s.world in
      let s₁ : CustomRun W M = record s { world = (host.sleep 2 v₁).1 } in
      let (v₂, p₂) = stays s₁.world in
      let s₂ : CustomRun W M = record s { world = (host.sleep 2 v₂).1 } in
      let (v₃, p₃) = stays s₂.world in
      ap (λ (x : Result Bool × CustomRun W M). x.0)
        (pulled (suc (suc fuel)) 0 name s v₁ p₁
          ∙ pulled (suc fuel) 1 name s₁ v₂ p₂
          ∙ pulled fuel 2 name s₂ v₃ p₃)
