-- ===== src/Helm/Service/Values.antt =====
-- The merge of the values of a chart: which source wins.
use forkspacer.Base.{
  String, ◌≡◌, refl, sym, ap, ◌∙◌, Bool, true, Option, none, some, List, [], ◌∷◌, All,
}
use forkspacer.Go.{ok}
use forkspacer.Exec.{bind-ok, ok_value}
use forkspacer.Api.Module.{ModuleSpecHelmValues}
use forkspacer.Helm.Service.Sources.{FromEntries, collect-FromEntries}
use forkspacer.Helm.Service.{HelmRun, Sdk, collect, merge_onto, merge_tables, merge_helm_values}

abbrev pub or_else {ℓ} : {A : Type ℓ} → Option A → Option A → Option A
or_else (some a) other = some a
or_else none other = other

-- `chartutil.CoalesceTables(dst, src)` as documented, at a key of both tables that is plain: at
-- which neither a table, which is merged in turn, nor a null, which removes the key, stands.
pub record ValuesLaws {W C V : Type 0} (sdk : Sdk W C V) (X : Type 0) : Type 0 where
  pub get : String → V → Option X
  pub is_plain : String → V → Bool
  pub coalesced :
      (key : String) (dst src : V)
      → is_plain key dst ≡ true
      → is_plain key src ≡ true
      → (get key (sdk.coalesce_tables dst src) ≡ or_else (get key dst) (get key src))
        × (is_plain key (sdk.coalesce_tables dst src) ≡ true)
  pub without_values : (key : String) → get key sdk.no_values ≡ none

module _ {W C V X : Type 0} (sdk : Sdk W C V) (laws : ValuesLaws sdk X) (key : String) where
  -- the value of the last table that has one
  abbrev pub last_of : Option X → List V → Option X
  last_of found [] = found
  last_of found (v ∷ vs) = last_of (or_else (laws.get key v) found) vs

  merge_onto-last :
      (merged : V) (vs : List V)
      → laws.is_plain key merged ≡ true
      → All (λ v. laws.is_plain key v ≡ true) vs
      → laws.get key (merge_onto sdk merged vs) ≡ last_of (laws.get key merged) vs
  unfolding merge_onto
  merge_onto-last merged [] plain all = refl
  merge_onto-last merged (v ∷ vs) plain (here, all) =
      let c = laws.coalesced key v merged here plain in
      merge_onto-last (sdk.coalesce_tables v merged) vs c.1 all ∙ ap (λ o. last_of o vs) c.0

  or_else-none : (o : Option X) → or_else o none ≡ o
  or_else-none none = refl
  or_else-none (some x) = refl

  merge_tables-last :
      (vs : List V)
      → All (λ v. laws.is_plain key v ≡ true) vs
      → laws.get key (merge_tables sdk vs) ≡ last_of none vs
  unfolding merge_onto
  merge_tables-last [] all = laws.without_values key
  merge_tables-last (v ∷ vs) (here, all) =
      merge_onto-last v vs here all ∙ sym (ap (λ o. last_of o vs) (or_else-none (laws.get key v)))

  -- Under ValuesLaws: when the values of a chart are merged, there is a list of tables, namely for
  -- the entries in their order the table of the file, then that of the config map, then that of the
  -- raw bytes, as far as the entry has them. At every key that is plain in all of these tables the
  -- merged table has the value of the last of them that has one.
  pub merge_helm_values-last :
      (vs : List ModuleSpecHelmValues) (s t : HelmRun W) (v : V)
      → merge_helm_values sdk vs s ≡ (ok v, t)
      → (tables : List V) × FromEntries sdk vs tables
        × (All (λ x. laws.is_plain key x ≡ true) tables → laws.get key v ≡ last_of none tables)
  unfolding merge_helm_values
  merge_helm_values-last vs s t v h =
      let (tables, u, collected, rest) =
        bind-ok (collect sdk vs) (λ tables u. (ok (merge_tables sdk tables), u)) s v t h in
      (
        tables,
        collect-FromEntries sdk vs s u tables collected,
        λ all.
            sym (ap (laws.get key) (ok_value (merge_tables sdk tables) v u t rest))
            ∙ merge_tables-last tables all,
      )
