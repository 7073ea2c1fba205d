-- ===== src/Helm/History.antt =====
-- The replica history that Sleep collects and stores in the metadata.
use mathlib.Core.List.{append_assoc, append-nil}
use forkspacer.Base.{
  String, ◌≡◌, ◌≢◌, ◌⊎◌, inl, refl, sym, ap, subst, ◌∙◌, none, some, List, [], ◌∷◌, ◌++◌, Assoc,
  lookup, lookup-insert, eq_refl, arith,
}
use forkspacer.Go.{Result, ok, err}
use forkspacer.Helm.{
  Kind, deployment, replica_set, stateful_set, ResourceReplicaCount, Kube, scale, scale_all,
  ReplicaHistory, no_history, saved, append, HistoryCodec, history_key, Sleep, remember, sleep_kind,
}
use forkspacer.Helm.Scaling.{KubeLaws, Saved, Same, Counts, Good, scale-Good}

saved-append :
    (k : Kind) (h : ReplicaHistory) (x : ResourceReplicaCount)
    → saved k (append k h x) ≡ saved k h ++ x ∷ []
saved-append deployment h x = refl
saved-append replica_set h x = refl
saved-append stateful_set h x = refl

saved-append_other :
    (k k' : Kind) (h : ReplicaHistory) (x : ResourceReplicaCount)
    → k' ≢ k
    → saved k' (append k h x) ≡ saved k' h
saved-append_other deployment deployment h x n = absurd (n refl)
saved-append_other deployment replica_set h x n = refl
saved-append_other deployment stateful_set h x n = refl
saved-append_other replica_set deployment h x n = refl
saved-append_other replica_set replica_set h x n = absurd (n refl)
saved-append_other replica_set stateful_set h x n = refl
saved-append_other stateful_set deployment h x n = refl
saved-append_other stateful_set replica_set h x n = refl
saved-append_other stateful_set stateful_set h x n = absurd (n refl)

module _ {W V : Type 0} (c : Kube W) (d : HistoryCodec V) where
  -- The metadata holds the history, or the history is empty and the metadata holds none.
  abbrev pub Stored : ReplicaHistory × Assoc V → Type 0
  Stored (h, m) =
      (lookup history_key m ≡ some (d.encode h))
      ⊎ ((lookup history_key m ≡ none) × (h ≡ no_history))

  remember-saved :
      (k : Kind) (xs : List ResourceReplicaCount) (hm : ReplicaHistory × Assoc V)
      → saved k (remember c d k xs hm).0 ≡ saved k hm.0 ++ xs
  unfolding remember
  remember-saved k [] hm = sym (append-nil (saved k hm.0))
  remember-saved k (x ∷ xs) hm =
      remember-saved k xs _
      ∙ ap (λ (l : List ResourceReplicaCount). l ++ xs) (saved-append k hm.0 x)
      ∙ append_assoc (saved k hm.0) (x ∷ []) xs

  remember-other :
      (k k' : Kind) (xs : List ResourceReplicaCount) (hm : ReplicaHistory × Assoc V)
      → k' ≢ k
      → saved k' (remember c d k xs hm).0 ≡ saved k' hm.0
  unfolding remember
  remember-other k k' [] hm n = refl
  remember-other k k' (x ∷ xs) hm n = remember-other k k' xs _ n ∙ saved-append_other k k' hm.0 x n

  remember-Stored :
      (k : Kind) (xs : List ResourceReplicaCount) (hm : ReplicaHistory × Assoc V)
      → Stored hm
      → Stored (remember c d k xs hm)
  unfolding remember
  remember-Stored k [] hm h = h
  remember-Stored k (x ∷ xs) hm h = remember-Stored k xs _ (
      inl (
        lookup-insert history_key history_key (d.encode (append k hm.0 x)) hm.1
        ∙ ground (arith, eq_refl history_key)))

  pub sleep_kind-empty :
      (release namespace : String) (k : Kind) (s : Sleep W V)
      → c.list k release namespace s.world ≡ (ok [], s.world)
      → sleep_kind c d release namespace k s ≡ (ok tt, s)
  unfolding sleep_kind scale scale_all remember
  sleep_kind-empty release namespace k s e = rw e refl

  module _ (laws : KubeLaws c) where
    -- what one kind contributes to a sleep that succeeds
    pub record Slept (k : Kind) (s t : Sleep W V) : Type 0 where
      pub counts : List ResourceReplicaCount
      pub off :
          (ns name : String)
          → (laws.replicas_of k ns name t.world ≡ laws.replicas_of k ns name s.world)
            ⊎ Saved ns name counts
      pub counted : Counts c laws k s.world counts
      pub others : (k' : Kind) → k' ≢ k → Same c laws k' t.world s.world
      pub kept : saved k t.history ≡ saved k s.history ++ counts
      pub kept_others : (k' : Kind) → k' ≢ k → saved k' t.history ≡ saved k' s.history
      pub stored : Stored (s.history, s.meta_data) → Stored (t.history, t.meta_data)

    pub sleep_kind-Slept :
        (release namespace : String) (k : Kind) (u : Unit {0}) (s t : Sleep W V)
        → sleep_kind c d release namespace k s ≡ (ok u, t)
        → Slept k s t
    unfolding sleep_kind
    sleep_kind-Slept release namespace k u s t e =
        let r = scale c k release namespace 0 s.world in
        subst (Slept k s) (ap (λ (x : Result (Unit {0}) × Sleep W V). x.1) e) (
          done r.0.0 r.0.1 r.1 (scale-Good c laws k release namespace 0 s.world)
            (ap (λ (x : Result (Unit {0}) × Sleep W V). x.0) e))
      where
        done :
            (xs : List ResourceReplicaCount) (q : Result (Unit {0})) (w : W)
            → Good c laws k s.world s.world ((xs, q), w)
            → q ≡ ok u
            → Slept k s (record {
              world = w;
              history = (remember c d k xs (s.history, s.meta_data)).0;
              meta_data = (remember c d k xs (s.history, s.meta_data)).1;
            })
        done xs (err e) w good p = cc
        done xs (ok _) w good p = record {
          counts = xs;
          off = good.0;
          counted = good.1;
          others = good.2;
          kept = remember-saved k xs (s.history, s.meta_data);
          kept_others = λ k' n. remember-other k k' xs (s.history, s.meta_data) n;
          stored = remember-Stored k xs (s.history, s.meta_data);
        }
