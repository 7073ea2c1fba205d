-- ===== src/Helm/Service/Quiet.antt =====
-- Merging values asks nothing of the cluster.
use forkspacer.Base.{
  String, refl, Bool, Option, none, some, List, [], ◌∷◌, ◌==◌, lookup, if◌then◌else◌,
}
use forkspacer.Exec.{Exec, ◌>>=◌}
use forkspacer.Exec.Keeps.{Keeps, bind-Keeps, if-Keeps}
use forkspacer.Api.Module.{ModuleSpecHelmValues, ModuleSpecHelmValuesConfigMap, RawExtension}
use forkspacer.Helm.Service.{
  HelmRun, Sdk, file_values, config_map_values, parsed, raw_values, raw_bytes, entry_values,
  collect, merge_helm_values, nonempty,
}

module _ {W : Type 0} where
  abbrev pub Quiet : {A : Type 0} → Exec (HelmRun W) A → Type 0
  Quiet m = Keeps (λ (s : HelmRun W). s.trace) m

  pub bind-Quiet :
      {A B : Type 0} (m : Exec (HelmRun W) A) (f : A → Exec (HelmRun W) B)
      → Quiet m
      → ((a : A) → Quiet (f a))
      → Quiet (m >>= f)
  bind-Quiet m f = bind-Keeps (λ (s : HelmRun W). s.trace) m f

  pub if-Quiet :
      {A : Type 0} (b : Bool) (m k : Exec (HelmRun W) A)
      → Quiet m
      → Quiet k
      → Quiet (if b then m else k)
  if-Quiet b m k = if-Keeps (λ (s : HelmRun W). s.trace) b m k

module _ {W C V : Type 0} (sdk : Sdk W C V) where
  file_values-Quiet : (o : Option String) → Quiet (file_values sdk o)
  file_values-Quiet none = λ s. refl
  file_values-Quiet (some path) = bind-Quiet _ _ (λ s. refl) (λ a s. refl)

  parsed-Quiet : (o : Option String) → Quiet (parsed sdk o)
  parsed-Quiet none = λ s. refl
  parsed-Quiet (some text) = bind-Quiet _ _ (λ s. refl) (λ a s. refl)

  raw_bytes-Quiet : (o : Option String) → Quiet (raw_bytes sdk o)
  raw_bytes-Quiet none = λ s. refl
  raw_bytes-Quiet (some bytes) = bind-Quiet _ _ (λ s. refl) (λ a s. refl)

  raw_values-Quiet : (o : Option RawExtension) → Quiet (raw_values sdk o)
  raw_values-Quiet none = λ s. refl
  raw_values-Quiet (some r) = raw_bytes-Quiet (nonempty r.raw)

  config_map_values-Quiet :
      (o : Option ModuleSpecHelmValuesConfigMap) → Quiet (config_map_values sdk o)
  config_map_values-Quiet none = λ s. refl
  config_map_values-Quiet (some r) =
      if-Quiet (r.name == "") _ _ (λ s. refl)
        (bind-Quiet _ _ (λ s. refl) (λ pairs. parsed-Quiet (nonempty (lookup r.key pairs))))

  entry_values-Quiet : (v : ModuleSpecHelmValues) → Quiet (entry_values sdk v)
  entry_values-Quiet v =
      bind-Quiet {A = List V} {B = List V} (file_values sdk (nonempty v.file)) _
        (file_values-Quiet (nonempty v.file))
        (λ a.
          bind-Quiet {A = List V} {B = List V} (config_map_values sdk v.config_map) _
            (config_map_values-Quiet v.config_map)
            (λ b.
              bind-Quiet {A = List V} {B = List V} (raw_values sdk v.raw) _ (raw_values-Quiet v.raw)
                (λ c s. refl)))

  collect-Quiet : (vs : List ModuleSpecHelmValues) → Quiet (collect sdk vs)
  unfolding collect
  collect-Quiet [] = λ s. refl
  collect-Quiet (v ∷ vs) =
      bind-Quiet {A = List V} {B = List V} (entry_values sdk v) _ (entry_values-Quiet v) (λ here.
        bind-Quiet {A = List V} {B = List V} (collect sdk vs) _ (collect-Quiet vs) (λ more s. refl))

  pub merge_helm_values-Quiet : (vs : List ModuleSpecHelmValues) → Quiet (merge_helm_values sdk vs)
  unfolding merge_helm_values
  merge_helm_values-Quiet vs =
      bind-Quiet {A = List V} {B = V} (collect sdk vs) _ (collect-Quiet vs) (λ tables s. refl)
