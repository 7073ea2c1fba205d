-- ===== src/Api/Meta.antt =====
-- What the program reads and writes of Kubernetes' object metadata, and object keys.
use forkspacer.Base.{
  ℕ, String, Bool, Option, List, [], ◌∷◌, ◌++◌, ◌==◌, Assoc, contains, if◌then◌else◌,
}

pub record ObjectMeta : Type 0 where
  pub name : String
  pub namespace : String
  pub generate_name : String
  pub uid : String
  pub finalizers : List String
  pub annotations : Assoc String
  pub deletion_timestamp : Option ℕ

-- client.ObjectKey
pub record ObjectKey : Type 0 where
  pub key_namespace : String
  pub key_name : String

abbrev pub object_key : ObjectMeta → ObjectKey
object_key m = record { key_namespace = m.namespace; key_name = m.name }

-- controllerutil.ContainsFinalizer, AddFinalizer and RemoveFinalizer, on the list of finalizers
abbrev pub contains_finalizer : ObjectMeta → String → Bool
contains_finalizer m f = contains m.finalizers f

abbrev pub without : String → List String → List String
without f [] = []
without f (g ∷ gs) = let rest = without f gs in if g == f then rest else g ∷ rest

abbrev pub add_finalizer : ObjectMeta → String → ObjectMeta
add_finalizer m f =
    if contains_finalizer m f then m else record m { finalizers = m.finalizers ++ f ∷ [] }

abbrev pub remove_finalizer : ObjectMeta → String → ObjectMeta
remove_finalizer m f = record m { finalizers = without f m.finalizers }
