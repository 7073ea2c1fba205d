-- ===== src/Migration/Laws.antt =====
-- What the copy of a secret or a config map leaves in the destination.
use forkspacer.Base.{String, ◌≡◌, ◌⊎◌, refl, none, some, Assoc, lookup}
use forkspacer.Go.{ok}
use forkspacer.Controller.Connection.{Loader}
use forkspacer.Migration.{
  Secret, ConfigMap, Store, Transfer, Place, release_annotation, config_map_kind,
  migrate_config_map,
}
use forkspacer.Migration.Steps.{Migrated, transfer-Migrated}

-- The annotation with the name of the release, if there is one and a name is given, has this name.
abbrev pub Renamed : String → Assoc String → Type 0
Renamed release annotations =
    (release ≡ "")
    ⊎ ((lookup release_annotation annotations ≡ none)
        ⊎ (lookup release_annotation annotations ≡ some release))

-- the name and the namespace of an object, and what it carries over from the source
abbrev pub SecretCarried : String → Place → Secret → Secret → Type 0
SecretCarried release dest source new =
    (new.name ≡ dest.name)
    × (new.namespace ≡ dest.namespace)
    × (new.contents ≡ source.contents)
    × (new.string_data ≡ source.string_data)
    × (new.type ≡ source.type)
    × Renamed release new.annotations

abbrev pub ConfigMapCarried : Place → ConfigMap → ConfigMap → Type 0
ConfigMapCarried dest source new =
    (new.name ≡ dest.name)
    × (new.namespace ≡ dest.namespace)
    × (new.contents ≡ source.contents)
    × (new.binary_data ≡ source.binary_data)

-- What is relied on: an object that is read has the name and the namespace that it is read by.
pub record StoreLaws {W K O : Type 0} (store : Store W K O) (name_of namespace_of : O → String)
    : Type 0 where
  pub named :
      (k : K) (namespace name : String) (w w' : W) (o : O)
      → store.get k namespace name w ≡ (ok o, w')
      → (name_of o ≡ name) × (namespace_of o ≡ namespace)

module _ {W K : Type 0} (loader : Loader W K) (source dest : Place) where
  -- The same for a config map, with its data and its binary data.
  pub migrate_config_map-Migrated :
      (store : Store W K ConfigMap)
      → StoreLaws store (λ (o : ConfigMap). o.name) (λ (o : ConfigMap). o.namespace)
      → (s : Transfer W ConfigMap)
      → Migrated store
          (ConfigMapCarried dest)
          loader
          source
          dest
          s.trace
          (migrate_config_map loader store source dest s)
  unfolding migrate_config_map config_map_kind
  migrate_config_map-Migrated store laws s =
      transfer-Migrated loader store (config_map_kind dest) (ConfigMapCarried dest)
        (λ o. (refl, refl, refl, refl)) (λ o old. (refl, refl, refl, refl)) source dest
        (λ o old k w w' got.
          let at = laws.named k dest.namespace dest.name w w' old got in (at.0, at.1, refl, refl))
        s
