-- ===== src/Migration/Connect.antt =====
-- The connection to the two clusters: which calls have succeeded, or which has failed.
use forkspacer.Base.{String, ◌≡◌, ◌⊎◌, inl, inr, refl, ap, ◌∙◌}
use forkspacer.Go.{Error, Result, ok, err, wrap_w}
use forkspacer.Exec.{Exec, ◌>>=◌, bind-ok, bind-err, ok_value}
use forkspacer.Exec.Keeps.{Keeps, bind-Keeps}
use forkspacer.Controller.Connection.{Loader}
use forkspacer.Migration.{Store, Kind, Transfer, Place, step, connected}

-- The clients are those of the cluster of the source and of that of the destination.
abbrev pub Connected : {W K : Type 0} → Loader W K → Place → Place → K → K → Type 0
Connected {W} loader source dest ks kd =
    ((w w' : W) × (loader.client_config source.config w ≡ (ok ks, w')))
    × ((w w' : W) × (loader.client_config dest.config w ≡ (ok kd, w')))

-- A call of the loader that connects to one of the clusters has failed, and was the last call.
abbrev pub Unconnected : {W K : Type 0} → Loader W K → Place → Place → W → Type 0
Unconnected {W} {K} loader source dest last =
    (w : W) × (e : Error) × ((loader.client_config source.config w ≡ (err e, last))
      ⊎ ((loader.client_config dest.config w ≡ (err e, last))
          ⊎ ((k : K) × (loader.clientset k w ≡ (err e, last)))))

module _ {W K O : Type 0} (loader : Loader W K) (store : Store W K O) (kind : Kind O)
    (source dest : Place) where
  abbrev Quiet : {A : Type 0} → Exec (Transfer W O) A → Type 0
  Quiet m = Keeps (λ (s : Transfer W O). s.trace) m

  quiet :
      {A B : Type 0} (m : Exec (Transfer W O) A) (f : A → Exec (Transfer W O) B)
      → Quiet m
      → ((a : A) → Quiet (f a))
      → Quiet (m >>= f)
  quiet m f = bind-Keeps (λ (s : Transfer W O). s.trace) m f

  pub connected-Quiet : Quiet (connected loader store kind source dest)
  connected-Quiet =
      quiet {A = K} {B = K × K}
        (step loader store kind "failed to create source REST config"
          (loader.client_config source.config))
        _ (λ s. refl)
        (λ a.
          quiet {A = K} {B = K × K}
            (step loader store kind "failed to create destination REST config"
              (loader.client_config dest.config))
            _ (λ s. refl)
            (λ b.
              quiet {A = Unit {0}} {B = K × K}
                (step loader store kind "failed to create source clientset" (loader.clientset a)) _
                (λ s. refl)
                (λ _.
                  quiet {A = Unit {0}} {B = K × K}
                    (step loader store kind "failed to create destination clientset"
                      (loader.clientset b))
                    _ (λ s. refl) (λ _ s. refl))))

  -- A step that succeeds is a call that does.
  step_ok :
      {A : Type 0} (message : String) (f : W → Result A × W) (s t : Transfer W O) (a : A)
      → step loader store kind message f s ≡ (ok a, t)
      → f s.world ≡ (ok a, t.world)
  step_ok {A} message f s t a h = split (f s.world).0 (f s.world).1 refl h
    where
      split :
          (r : Result A) (w : W)
          → f s.world ≡ (r, w)
          → ◌≡◌ {A = Result A × Transfer W O}
              (
                elim r [ ok b ↦ ok b | err e ↦ err (wrap_w message e) ],
                record { world = w; trace = s.trace },
              )
              (ok a, t)
          → f s.world ≡ (ok a, t.world)
      split (ok b) w p q = cc
      split (err e) w p q = cc

  -- A step that fails is a call that does.
  step_err :
      {A : Type 0} (message : String) (f : W → Result A × W) (s t : Transfer W O) (e : Error)
      → step loader store kind message f s ≡ (err e, t)
      → (x : Error) × (f s.world ≡ (err x, t.world))
  step_err {A} message f s t e h = split (f s.world).0 (f s.world).1 refl h
    where
      split :
          (r : Result A) (w : W)
          → f s.world ≡ (r, w)
          → ◌≡◌ {A = Result A × Transfer W O}
              (
                elim r [ ok b ↦ ok b | err x ↦ err (wrap_w message x) ],
                record { world = w; trace = s.trace },
              )
              (err e, t)
          → (x : Error) × (f s.world ≡ (err x, t.world))
      split (ok b) w p q = cc
      split (err x) w p q = (x, p ∙ ap (λ (y : Result A × Transfer W O). (err x, y.1.world)) q)

  abbrev configured : String → Place → Exec (Transfer W O) K
  configured message place = step loader store kind message (loader.client_config place.config)

  abbrev client : String → K → Exec (Transfer W O) (Unit {0})
  client message k = step loader store kind message (loader.clientset k)

  abbrev last : K → K → Exec (Transfer W O) (K × K)
  last a b = client "failed to create destination clientset" b >>= λ _ z. (ok (a, b), z)

  abbrev with_both : K → K → Exec (Transfer W O) (K × K)
  with_both a b = client "failed to create source clientset" a >>= λ _. last a b

  abbrev with_source : K → Exec (Transfer W O) (K × K)
  with_source a = configured "failed to create destination REST config" dest >>= with_both a

  last-Unconnected :
      (a b : K) (s t : Transfer W O) (e : Error)
      → last a b s ≡ (err e, t)
      → Unconnected loader source dest t.world
  last-Unconnected a b s t e h = elim (bind-err (client _ b) (λ _ z. (ok (a, b), z)) s e t h) [
    | inl p ↦ let (x, q) = step_err _ (loader.clientset b) s t e p in (s.world, x, inr (inr (b, q)))
    | inr (_, u, _, q) ↦ cc
  ]

  both-Unconnected :
      (a b : K) (s t : Transfer W O) (e : Error)
      → with_both a b s ≡ (err e, t)
      → Unconnected loader source dest t.world
  both-Unconnected a b s t e h = elim (bind-err (client _ a) (λ _. last a b) s e t h) [
    | inl p ↦ let (x, q) = step_err _ (loader.clientset a) s t e p in (s.world, x, inr (inr (a, q)))
    | inr (_, u, _, q) ↦ last-Unconnected a b u t e q
  ]

  source-Unconnected :
      (a : K) (s t : Transfer W O) (e : Error)
      → with_source a s ≡ (err e, t)
      → Unconnected loader source dest t.world
  source-Unconnected a s t e h = elim (bind-err (configured _ dest) (with_both a) s e t h) [
    | inl p ↦
        let (x, q) = step_err _ (loader.client_config dest.config) s t e p in
        (s.world, x, inr (inl q))
    | inr (b, u, _, q) ↦ both-Unconnected a b u t e q
  ]

  pub connected-Unconnected :
      (s t : Transfer W O) (e : Error)
      → connected loader store kind source dest s ≡ (err e, t)
      → Unconnected loader source dest t.world
  connected-Unconnected s t e h =
      elim (bind-err (configured "failed to create source REST config" source) with_source s e t
        h) [
          | inl p ↦
              let (x, q) = step_err _ (loader.client_config source.config) s t e p in
              (s.world, x, inl q)
          | inr (a, u, _, q) ↦ source-Unconnected a u t e q
        ]

  pub connected-Connected :
      (ks : K × K) (s t : Transfer W O)
      → connected loader store kind source dest s ≡ (ok ks, t)
      → Connected loader source dest ks.0 ks.1
  connected-Connected ks s t h =
      let (a, u, first, more) =
        bind-ok (configured "failed to create source REST config" source) with_source s ks t h in
      let (b, v, second, rest) =
        bind-ok (configured "failed to create destination REST config" dest) (with_both a) u ks t
          more in
      let (_, x, third, others) =
        bind-ok (client "failed to create source clientset" a) (λ _. last a b) v ks t rest in
      let (_, y, fourth, same) =
        bind-ok (client "failed to create destination clientset" b) (λ _ z. (ok (a, b), z)) x ks t
          others in
      let both : (a, b) ≡ ks = ok_value (a, b) ks y t same in
      let p : a ≡ ks.0 = ap (λ (x : K × K). x.0) both in
      let q : b ≡ ks.1 = ap (λ (x : K × K). x.1) both in
      (
        (
          s.world,
          u.world,
          step_ok "failed to create source REST config" (loader.client_config source.config) s u a
                first
              ∙ ap (λ k. (ok k, u.world)) p,
        ),
        (
          u.world,
          v.world,
          step_ok "failed to create destination REST config" (loader.client_config dest.config) u v
                b second
              ∙ ap (λ k. (ok k, v.world)) q,
        ),
      )
