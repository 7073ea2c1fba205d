-- ===== src/Helm/Service/Sources.antt =====
-- Where the tables that are merged into the values of a chart come from, and in which order.
use forkspacer.Base.{
  String, ◌≡◌, ◌⊎◌, inl, inr, refl, sym, ap, ◌∙◌, Bool, true, false, Option, none, some, List, [],
  ◌∷◌, ◌++◌, Assoc, lookup, ◌==◌, if◌then◌else◌, eq_iff,
}
use forkspacer.Go.{Result, ok, err, wrap_w}
use forkspacer.Exec.{Exec, ◌>>=◌, pure, lift, map_err, bind-ok, ok_value, map_err_ok}
use forkspacer.Api.Module.{ModuleSpecHelmValues, ModuleSpecHelmValuesConfigMap, RawExtension}
use forkspacer.Helm.Service.{
  HelmRun, Sdk, nonempty, calling, step, file_values, parsed, config_map_values, raw_bytes,
  raw_values, entry_values, collect,
}

module _ {W C V : Type 0} (sdk : Sdk W C V) where
  -- the table of a values file, or none
  abbrev pub FromFile : Option String → List V → Type 0
  FromFile none ts = ts ≡ []
  FromFile (some path) ts =
      (table : V) × (w w' : W) × (sdk.read_file path w ≡ (ok table, w')) × (ts ≡ table ∷ [])

  abbrev pub FromText : Option String → List V → Type 0
  FromText none ts = ts ≡ []
  FromText (some text) ts = (table : V) × (sdk.read_values text ≡ ok table) × (ts ≡ table ∷ [])

  -- the table at the key of a config map that has a name, or none
  abbrev pub FromConfigMap : Option ModuleSpecHelmValuesConfigMap → List V → Type 0
  FromConfigMap none ts = ts ≡ []
  FromConfigMap (some r) ts =
      ((r.name ≡ "") × (ts ≡ []))
      ⊎ ((pairs : Assoc String) × (w w' : W) × (sdk.get_config_map r.namespace r.name w
            ≡ (ok pairs, w'))
          × FromText (nonempty (lookup r.key pairs)) ts)

  -- the table of raw bytes, or none
  abbrev pub FromBytes : Option String → List V → Type 0
  FromBytes none ts = ts ≡ []
  FromBytes (some bytes) ts = (table : V) × (sdk.unmarshal bytes ≡ ok table) × (ts ≡ table ∷ [])

  abbrev pub FromRaw : Option RawExtension → List V → Type 0
  FromRaw none ts = ts ≡ []
  FromRaw (some r) ts = FromBytes (nonempty r.raw) ts

  -- The tables of the entries in their order; those of an entry are that of its file, that of its
  -- config map and that of its raw bytes, in this order.
  pub FromEntries : List ModuleSpecHelmValues → List V → Type 0
  FromEntries [] ts = ts ≡ []
  FromEntries (v ∷ vs) ts =
      (file config_map raw rest : List V) × FromFile (nonempty v.file) file
      × FromConfigMap v.config_map config_map
      × FromRaw v.raw raw
      × FromEntries vs rest
      × (ts ≡ (file ++ config_map ++ raw) ++ rest)

  calling_ok :
      {A : Type 0} (f : W → Result A × W) (s t : HelmRun W) (a : A)
      → calling sdk f s ≡ (ok a, t)
      → f s.world ≡ (ok a, t.world)
  calling_ok {A} f s t a = ap (λ (x : Result A × HelmRun W). (x.0, x.1.world))

  step_ok :
      {A : Type 0} (message : String) (f : W → Result A × W) (s t : HelmRun W) (a : A)
      → step sdk message f s ≡ (ok a, t)
      → f s.world ≡ (ok a, t.world)
  step_ok message f s t a h =
      calling_ok f s t a (map_err_ok (wrap_w message) (calling sdk f) s t a h)

  -- A text that is parsed gives one table.
  single :
      (message : String) (r : Result V) (s t : HelmRun W) (ts : List V)
      → (map_err (wrap_w message) (lift r) >>= λ v. pure (v ∷ [])) s ≡ (ok ts, t)
      → (table : V) × (r ≡ ok table) × (ts ≡ table ∷ [])
  single message (ok table) s t ts h = (table, refl, sym (ok_value (table ∷ []) ts s t h))
  single message (err e) s t ts h = cc

  file_lem :
      (o : Option String) (s t : HelmRun W) (ts : List V)
      → file_values sdk o s ≡ (ok ts, t)
      → FromFile o ts
  file_lem none s t ts h = sym (ok_value [] ts s t h)
  file_lem (some path) s t ts h =
      let (table, u, read, rest) =
        bind-ok (step sdk "failed to read values file" (sdk.read_file path)) (λ v. pure (v ∷ [])) s
          ts t h in
      (
        table,
        s.world,
        u.world,
        step_ok "failed to read values file" (sdk.read_file path) s u table read,
        sym (ok_value (table ∷ []) ts u t rest),
      )

  parsed_lem :
      (o : Option String) (s t : HelmRun W) (ts : List V)
      → parsed sdk o s ≡ (ok ts, t)
      → FromText o ts
  parsed_lem none s t ts h = sym (ok_value [] ts s t h)
  parsed_lem (some text) s t ts h =
      single "failed to read values from ConfigMap" (sdk.read_values text) s t ts h

  bytes_lem :
      (o : Option String) (s t : HelmRun W) (ts : List V)
      → raw_bytes sdk o s ≡ (ok ts, t)
      → FromBytes o ts
  bytes_lem none s t ts h = sym (ok_value [] ts s t h)
  bytes_lem (some bytes) s t ts h =
      single "failed to unmarshal raw helm values" (sdk.unmarshal bytes) s t ts h

  raw_lem :
      (o : Option RawExtension) (s t : HelmRun W) (ts : List V)
      → raw_values sdk o s ≡ (ok ts, t)
      → FromRaw o ts
  raw_lem none s t ts h = sym (ok_value [] ts s t h)
  raw_lem (some r) s t ts h = bytes_lem (nonempty r.raw) s t ts h

  config_map_lem :
      (o : Option ModuleSpecHelmValuesConfigMap) (s t : HelmRun W) (ts : List V)
      → config_map_values sdk o s ≡ (ok ts, t)
      → FromConfigMap o ts
  config_map_lem none s t ts h = sym (ok_value [] ts s t h)
  config_map_lem (some r) s t ts h = split (r.name == "") refl h
    where
      get : Exec (HelmRun W) (Assoc String)
      get = step sdk "failed to get ConfigMap" (sdk.get_config_map r.namespace r.name)

      next : Assoc String → Exec (HelmRun W) (List V)
      next pairs = parsed sdk (nonempty (lookup r.key pairs))

      split :
          (b : Bool)
          → (r.name == "") ≡ b
          → (if b then pure [] else (get >>= next)) s ≡ (ok ts, t)
          → FromConfigMap (some r) ts
      split true e p = inl ((eq_iff r.name "").0 e, sym (ok_value [] ts s t p))
      split false e p =
          let (pairs, u, got, rest) = bind-ok get next s ts t p in
          inr (
            pairs,
            s.world,
            u.world,
            step_ok "failed to get ConfigMap" (sdk.get_config_map r.namespace r.name) s u pairs got,
            parsed_lem (nonempty (lookup r.key pairs)) u t ts rest,
          )

  pub collect-FromEntries :
      (vs : List ModuleSpecHelmValues) (s t : HelmRun W) (ts : List V)
      → collect sdk vs s ≡ (ok ts, t)
      → FromEntries vs ts
  unfolding collect FromEntries
  collect-FromEntries [] s t ts h = sym (ok_value [] ts s t h)
  collect-FromEntries (v ∷ vs) s t ts h =
      let (here, u, entry, more) =
        bind-ok (entry_values sdk v) (λ here. collect sdk vs >>= λ rest. pure (here ++ rest)) s ts t
          h in
      let (rest, z, others, last) =
        bind-ok (collect sdk vs) (λ rest. pure (here ++ rest)) u ts t more in
      let (a, s₁, file, e₁) =
        bind-ok (file_values sdk (nonempty v.file)) with_file s here u entry in
      let (b, s₂, config_map, e₂) =
        bind-ok (config_map_values sdk v.config_map) (with_map a) s₁ here u e₁ in
      let (c, s₃, raw, e₃) =
        bind-ok (raw_values sdk v.raw) (λ c. pure (a ++ b ++ c)) s₂ here u e₂ in
      (
        a,
        b,
        c,
        rest,
        file_lem (nonempty v.file) s s₁ a file,
        config_map_lem v.config_map s₁ s₂ b config_map,
        raw_lem v.raw s₂ s₃ c raw,
        collect-FromEntries vs u z rest others,
        sym (ok_value (here ++ rest) ts z t last)
            ∙ ap (λ (x : List V). x ++ rest) (sym (ok_value (a ++ b ++ c) here s₃ u e₃)),
      )
    where
      with_map : List V → List V → Exec (HelmRun W) (List V)
      with_map a b = raw_values sdk v.raw >>= λ c. pure (a ++ b ++ c)

      with_file : List V → Exec (HelmRun W) (List V)
      with_file a = config_map_values sdk v.config_map >>= with_map a
