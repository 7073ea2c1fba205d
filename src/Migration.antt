-- ===== src/Migration.antt =====
-- pkg/services/secret_migration.go and configmap_migration.go: the copy of a secret or a config map
-- from one cluster to another.
-- The two have the same steps, in `transfer`, and differ in what they write. The clusters are
-- a parameter; the trace holds what was changed in the destination, the newest first. Log lines are
-- left out.
pub mod Volumes
pub mod Connect
pub mod Steps
pub mod Laws
use forkspacer.Base.{
  String, Bool, true, false, Option, none, some, List, [], ◌∷◌, Assoc, lookup, insert, ◌==◌,
  if◌then◌else◌,
}
use forkspacer.Go.{Error, Result, ok, err, wrap_w, is_not_found}
use forkspacer.Exec.{Exec, ◌>>=◌, ◌>>◌, pure, raise, attempt, map_err}
use forkspacer.Controller.Connection.{ApiConfig, Loader}

pub record Secret : Type 0 where
  pub name : String
  pub namespace : String
  pub labels : Assoc String
  pub annotations : Assoc String
  pub type : String
  pub contents : Assoc String
  pub string_data : Assoc String
  pub immutable : Option Bool

pub record ConfigMap : Type 0 where
  pub name : String
  pub namespace : String
  pub labels : Assoc String
  pub annotations : Assoc String
  pub contents : Assoc String
  pub binary_data : Assoc String
  pub immutable : Option Bool

-- The objects of one kind in the clusters; K is the type of clientsets.
pub record Store (W K O : Type 0) : Type 0 where
  pub get : K → String → String → W → Result O × W
  pub create : K → O → W → Result (Unit {0}) × W
  pub update : K → O → W → Result (Unit {0}) × W
  pub delete : K → String → String → W → Result (Unit {0}) × W

-- what is written: a new object, one in the place of an immutable one, a change of one
pub record Kind (O : Type 0) : Type 0 where
  pub is_immutable : O → Bool
  pub fresh : O → O
  pub recreated : O → O → O
  pub changed : O → O → O

pub data Change (O : Type 0) : Type 0 where
  created updated : O → Change O
  deleted : Change O

pub record Transfer (W O : Type 0) : Type 0 where
  pub world : W
  pub trace : List (Change O)

-- where an object is: the config of its cluster, its namespace and its name
pub record Place : Type 0 where
  pub config : ApiConfig
  pub namespace : String
  pub name : String

abbrev is_true : Option Bool → Bool
is_true none = false
is_true (some b) = b

module _ {W K O : Type 0} (loader : Loader W K) (store : Store W K O) (kind : Kind O) where
  abbrev pub step : {A : Type 0} → String → (W → Result A × W) → Exec (Transfer W O) A
  step message f s =
      let (r, w) = f s.world in
      (elim r [ ok a ↦ ok a | err e ↦ err (wrap_w message e) ], record s { world = w })

  -- a change of the destination
  abbrev logged :
      String → Change O → Result (Unit {0}) → W → List (Change O) → Result (Unit {0}) × Transfer W O
  logged message change (ok _) w es = (ok tt, record { world = w; trace = change ∷ es })
  logged message change (err e) w es = (err (wrap_w message e), record { world = w; trace = es })

  abbrev changing : String → Change O → (W → Result (Unit {0}) × W) → Exec (Transfer W O) (Unit {0})
  changing message change f s = let (r, w) = f s.world in logged message change r w s.trace

  -- both clusters
  abbrev connected : Place → Place → Exec (Transfer W O) (K × K)
  connected source dest =
      step "failed to create source REST config" (loader.client_config source.config) >>= λ a.
      step "failed to create destination REST config" (loader.client_config dest.config) >>= λ b.
      step "failed to create source clientset" (loader.clientset a) >>= λ _.
      step "failed to create destination clientset" (loader.clientset b) >>= λ _. pure (a, b)

  abbrev recreate : K → Place → O → O → Exec (Transfer W O) (Unit {0})
  recreate k dest source old =
      changing "failed to delete immutable destination object" deleted
        (store.delete k dest.namespace dest.name)
      >> changing "failed to recreate immutable destination object"
          (created (kind.recreated source old)) (store.create k (kind.recreated source old))

  -- what follows the reading of the destination
  abbrev write_to : K → Place → O → Result O → Exec (Transfer W O) (Unit {0})
  write_to k dest source (err e) =
      if is_not_found e
      then changing "failed to create destination object" (created (kind.fresh source))
          (store.create k (kind.fresh source))
      else raise (wrap_w "failed to get destination object" e)
  write_to k dest source (ok old) =
      if kind.is_immutable old
      then recreate k dest source old
      else changing "failed to update destination object" (updated (kind.changed source old))
          (store.update k (kind.changed source old))

  abbrev found : Place → K → O → Exec (Transfer W O) (Unit {0})
  found dest k source s =
      let (r, w) = store.get k dest.namespace dest.name s.world in
      write_to k dest source r (record s { world = w })

  abbrev copied : Place → Place → K × K → Exec (Transfer W O) (Unit {0})
  copied source dest clusters =
      step "failed to get source object" (store.get clusters.0 source.namespace source.name)
      >>= found dest clusters.1

  pub transfer : Place → Place → Exec (Transfer W O) (Unit {0})
  transfer source dest = connected source dest >>= copied source dest

abbrev pub release_annotation : String
release_annotation = "meta.helm.sh/release-name"

abbrev renamed : String → Option String → Assoc String → Assoc String
renamed release none annotations = annotations
renamed release (some _) annotations = insert release_annotation release annotations

-- the helper updateHelmAnnotations of MigrateSecret
pub update_helm_annotations : String → Assoc String → Assoc String
unfolding lookup insert
update_helm_annotations release annotations =
    if release == ""
    then annotations
    else renamed release (lookup release_annotation annotations) annotations

pub secret_kind : String → Place → Kind Secret
unfolding update_helm_annotations
secret_kind release dest = record {
  is_immutable = λ old. is_true old.immutable;
  fresh = λ source. record {
    name = dest.name;
    namespace = dest.namespace;
    labels = source.labels;
    annotations = update_helm_annotations release source.annotations;
    type = source.type;
    contents = source.contents;
    string_data = source.string_data;
    immutable = none;
  };
  recreated = λ source old. record {
    name = dest.name;
    namespace = dest.namespace;
    labels = old.labels;
    annotations = update_helm_annotations release old.annotations;
    type = source.type;
    contents = source.contents;
    string_data = source.string_data;
    immutable = old.immutable;
  };
  changed = λ source old. record old {
    contents = source.contents;
    string_data = source.string_data;
    type = source.type;
    annotations = update_helm_annotations release old.annotations;
  };
}

pub config_map_kind : Place → Kind ConfigMap
config_map_kind dest = record {
  is_immutable = λ old. is_true old.immutable;
  fresh = λ source. record {
    name = dest.name;
    namespace = dest.namespace;
    labels = source.labels;
    annotations = source.annotations;
    contents = source.contents;
    binary_data = source.binary_data;
    immutable = none;
  };
  recreated = λ source old. record {
    name = dest.name;
    namespace = dest.namespace;
    labels = old.labels;
    annotations = old.annotations;
    contents = source.contents;
    binary_data = source.binary_data;
    immutable = old.immutable;
  };
  changed =
      λ source old. record old { contents = source.contents; binary_data = source.binary_data };
}

module _ {W K : Type 0} (loader : Loader W K) where
  pub migrate_secret :
      Store W K Secret → Place → Place → String → Exec (Transfer W Secret) (Unit {0})
  unfolding transfer secret_kind
  migrate_secret store source dest release =
      transfer loader store (secret_kind release dest) source dest

  pub migrate_config_map :
      Store W K ConfigMap → Place → Place → Exec (Transfer W ConfigMap) (Unit {0})
  unfolding transfer config_map_kind
  migrate_config_map store source dest = transfer loader store (config_map_kind dest) source dest
