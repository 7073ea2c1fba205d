-- ===== src/Helm/RoundTrip.antt =====
-- A Helm release that is put to sleep and resumed asks for the replicas that it asked for before.
use forkspacer.Base.{
  String, ◌≡◌, ◌≢◌, inl, inr, refl, sym, ap, ◌∙◌, false, none, List, [], ◌++◌, Assoc, lookup,
}
use forkspacer.Go.{Error, Result, ok, err, is_ok}
use forkspacer.Exec.{Exec, three-ok, three-run}
use forkspacer.Helm.{
  Kind, deployment, replica_set, stateful_set, ResourceReplicaCount, Kube, scale_back,
  ReplicaHistory, no_history, saved, HistoryCodec, history_key, Sleep, sleep_kind, sleep, restore,
  resume,
}
use forkspacer.Helm.Scaling.{KubeLaws, Same, scale_back-Same, scale_back-other}
use forkspacer.Helm.History.{Stored, Slept, sleep_kind-Slept, sleep_kind-empty}

d≢r : deployment ≢ replica_set
d≢r e = cc

d≢s : deployment ≢ stateful_set
d≢s e = cc

r≢s : replica_set ≢ stateful_set
r≢s e = cc

module _ {W V : Type 0} (c : Kube W) (d : HistoryCodec V) where
  module _ (laws : KubeLaws c) where
    module _ (s₀ s₁ s₂ s₃ : Sleep W V) (fresh : s₀.history ≡ no_history)
        (sd : Slept c d laws deployment s₀ s₁) (sr : Slept c d laws replica_set s₁ s₂)
        (ss : Slept c d laws stateful_set s₂ s₃) where
      saved_first : saved deployment s₃.history ≡ sd.counts
      saved_first =
          ss.kept_others deployment d≢s
          ∙ sr.kept_others deployment d≢r
          ∙ sd.kept
          ∙ ap (λ (h : ReplicaHistory). saved deployment h ++ sd.counts) fresh

      saved_second : saved replica_set s₃.history ≡ sr.counts
      saved_second =
          ss.kept_others replica_set r≢s
          ∙ sr.kept
          ∙ ap (λ (l : List ResourceReplicaCount). l ++ sr.counts)
              (sd.kept_others replica_set (λ e. d≢r (sym e)) ∙ ap (saved replica_set) fresh)

      saved_third : saved stateful_set s₃.history ≡ ss.counts
      saved_third =
          ss.kept
          ∙ ap (λ (l : List ResourceReplicaCount). l ++ ss.counts)
              (sr.kept_others stateful_set (λ e. r≢s (sym e))
                ∙ sd.kept_others stateful_set (λ e. d≢s (sym e))
                ∙ ap (saved stateful_set) fresh)

      restored :
          (w₄ w₅ w₆ : W)
          → scale_back c deployment s₃.history.deployments s₃.world ≡ (ok tt, w₄)
          → scale_back c replica_set s₃.history.replica_sets w₄ ≡ (ok tt, w₅)
          → scale_back c stateful_set s₃.history.stateful_sets w₅ ≡ (ok tt, w₆)
          → (k : Kind) → Same c laws k w₆ s₀.world
      restored w₄ w₅ w₆ p q r deployment ns name =
          scale_back-other c laws stateful_set deployment s₃.history.stateful_sets w₅ w₆ d≢s r ns
            name
          ∙ scale_back-other c laws replica_set deployment s₃.history.replica_sets w₄ w₅ d≢r q ns
              name
          ∙ scale_back-Same c laws deployment s₀.world sd.counts s₃.world w₄ sd.counted
              (λ n m. elim (sd.off n m) [
                | inr later ↦ inr later
                | inl same ↦
                    inl (ss.others deployment d≢s n m ∙ sr.others deployment d≢r n m ∙ same)
              ])
              (rw saved_first at p) ns name
      restored w₄ w₅ w₆ p q r replica_set ns name =
          scale_back-other c laws stateful_set replica_set s₃.history.stateful_sets w₅ w₆ r≢s r ns
            name
          ∙ scale_back-Same c laws replica_set s₁.world sr.counts w₄ w₅ sr.counted
              (λ n m. elim (sr.off n m) [
                | inr later ↦ inr later
                | inl same ↦ inl (
                    scale_back-other c laws deployment replica_set s₃.history.deployments s₃.world
                      w₄ (λ e. d≢r (sym e)) p n m
                    ∙ ss.others replica_set r≢s n m
                    ∙ same)
              ])
              (rw saved_second at q) ns name
          ∙ sd.others replica_set (λ e. d≢r (sym e)) ns name
      restored w₄ w₅ w₆ p q r stateful_set ns name =
          scale_back-Same c laws stateful_set s₂.world ss.counts w₅ w₆ ss.counted
            (λ n m. elim (ss.off n m) [
              | inr later ↦ inr later
              | inl same ↦ inl (
                  scale_back-other c laws replica_set stateful_set s₃.history.replica_sets w₄ w₅
                    (λ e. r≢s (sym e)) q n m
                  ∙ scale_back-other c laws deployment stateful_set s₃.history.deployments s₃.world
                      w₄ (λ e. d≢s (sym e)) p n m
                  ∙ same)
            ])
            (rw saved_third at r) ns name
          ∙ sr.others stateful_set (λ e. r≢s (sym e)) ns name
          ∙ sd.others stateful_set (λ e. d≢s (sym e)) ns name

      resumed :
          (coded : (h : ReplicaHistory) → d.decode (d.encode h) ≡ ok h) (w₆ : W)
          → Stored c d (s₀.history, s₀.meta_data)
          → resume c d s₃.meta_data s₃.world ≡ (ok tt, w₆)
          → (k : Kind) → Same c laws k w₆ s₀.world
      unfolding resume restore
      resumed coded w₆ start e k = elim (ss.stored (sr.stored (sd.stored start))) [
        | inr none_kept ↦ absurd (no_resume (rw (none_kept.0) at e))
        | inl kept ↦
            let run : restore c d s₃.history s₃.world ≡ (ok tt, w₆) =
              rw (coded s₃.history) at (rw kept at e) in
            let steps =
              three-ok (scale_back c deployment s₃.history.deployments)
                (scale_back c replica_set s₃.history.replica_sets)
                (scale_back c stateful_set s₃.history.stateful_sets) s₃.world w₆ run in
            restored steps.0 steps.1 w₆ steps.2 steps.3 steps.4 k
      ]
        where
          no_resume :
              {w v : W} {x : Error} → ◌≡◌ {A = Result (Unit {0}) × W} (err x, w) (ok tt, v) → ⊥
          no_resume h = cc

    -- Under KubeLaws, and if decoding inverts encoding, a release that goes to sleep successfully,
    -- with metadata that holds no replica history yet, and that is resumed successfully from the
    -- metadata and the cluster that this left, asks for the same replicas as before, of every
    -- deployment, replica set and stateful set of the cluster.
    pub resume-sleep :
        (coded : (h : ReplicaHistory) → d.decode (d.encode h) ≡ ok h) (release namespace : String)
        (meta_data : Assoc V) (w w' : W) (slept : Sleep W V) (k : Kind) (ns name : String)
        → lookup history_key meta_data ≡ none
        → sleep c d release namespace
            (record { world = w; history = no_history; meta_data = meta_data })
          ≡ (ok tt, slept)
        → resume c d slept.meta_data slept.world ≡ (ok tt, w')
        → laws.replicas_of k ns name w' ≡ laws.replicas_of k ns name w
    unfolding sleep
    resume-sleep coded release namespace meta_data w w' slept k ns name fresh down up =
        let s₀ : Sleep W V = record { world = w; history = no_history; meta_data = meta_data } in
        let one : Kind → Exec (Sleep W V) (Unit {0}) = sleep_kind c d release namespace in
        let steps = three-ok (one deployment) (one replica_set) (one stateful_set) s₀ slept down in
        resumed s₀ steps.0 steps.1 slept refl
          (sleep_kind-Slept c d laws release namespace deployment tt s₀ steps.0 steps.2)
          (sleep_kind-Slept c d laws release namespace replica_set tt steps.0 steps.1 steps.3)
          (sleep_kind-Slept c d laws release namespace stateful_set tt steps.1 slept steps.4) coded
          w' (inr (fresh, refl)) up k ns name

  -- A release of which no workload is listed, with metadata that holds no replica history yet, goes
  -- to sleep successfully, and no history is stored, so that resuming it fails.
  pub resume-sleep_empty :
      (release namespace : String) (meta_data : Assoc V) (w : W)
      → ((k : Kind) → c.list k release namespace w ≡ (ok [], w))
      → lookup history_key meta_data ≡ none
      → (sleep c d release namespace
            (record { world = w; history = no_history; meta_data = meta_data })
          ≡ (ok tt, record { world = w; history = no_history; meta_data = meta_data }))
        × (is_ok (resume c d meta_data w).0 ≡ false)
  unfolding sleep resume
  resume-sleep_empty release namespace meta_data w empty fresh =
      let s : Sleep W V = record { world = w; history = no_history; meta_data = meta_data } in
      (
        three-run (sleep_kind c d release namespace deployment)
            (sleep_kind c d release namespace replica_set)
            (sleep_kind c d release namespace stateful_set) s s s (ok tt, s)
            (sleep_kind-empty c d release namespace deployment s (empty deployment))
            (sleep_kind-empty c d release namespace replica_set s (empty replica_set))
            (sleep_kind-empty c d release namespace stateful_set s (empty stateful_set)),
        rw fresh refl,
      )
