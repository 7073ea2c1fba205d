-- ===== src/Api/Render.antt =====
-- The rendering of specs in api/v1/module_types.go. The template engine and the JSON encoding of
-- the two spec types are parameters.
pub mod Laws
use forkspacer.Base.{
  String, Bool, true, false, ◌&&◌, find?, Option, none, some, List, [], ◌∷◌, Assoc, if◌then◌else◌,
}
use forkspacer.Go.{Result, ok, err, errorf, wrap_w, map_error, ◌>>=◌}
use forkspacer.Api.Any.{
  Any, null, bool, int, float64, text, texts, array, object, Items, nil, cons, Fields, end, field,
}
use forkspacer.Api.Module.{
  Module, ModuleSpecHelm, ModuleSpecCustom, get_namespace, get_release_name,
}
use forkspacer.Api.Config.{Codec, get_validated_config}

-- The data that a template reads.
pub record TemplateData (F : Type 0) : Type 0 where
  pub config : Assoc (Any F)
  pub release_name : Option String
  pub namespace : Option String

-- `template.Parse` with `Execute`, `json.Unmarshal` of a text into an `any`, and `json.Marshal`
-- with `json.Unmarshal` for the two spec types.
pub record Engine (F : Type 0) : Type 0 where
  pub execute : String → TemplateData F → Result String
  pub decode : String → Option (Any F)
  pub encode_helm : ModuleSpecHelm → Result (Any F)
  pub decode_helm : Any F → Result ModuleSpecHelm
  pub encode_custom : ModuleSpecCustom → Result (Any F)
  pub decode_custom : Any F → Result ModuleSpecCustom

abbrev is_some {ℓ} : {A : Type ℓ} → Option A → Bool
is_some none = false
is_some (some _) = true

-- `bytes.Contains` of both brackets
abbrev has_template : String → Bool
has_template s = is_some (find? s "{{") && is_some (find? s "}}")

module _ {F : Type 0} (e : Engine F) (d : TemplateData F) where
  abbrev decoded_or : Option (Any F) → String → Any F
  decoded_or none s = text s
  decoded_or (some v) s = v

  -- the case `string`: the result of a template is read as JSON if it is JSON
  unfoldable pub render_text : String → Result (Any F)
  render_text s =
      if has_template s
      then (e.execute s d >>= λ rendered. ok (decoded_or (e.decode rendered) rendered))
      else ok (text s)

  unfoldable mutual
    pub render_interface : Any F → Result (Any F)
    render_interface (object fs) = render_fields fs >>= λ gs. ok (object gs)
    render_interface (array xs) = render_items xs >>= λ ys. ok (array ys)
    render_interface (text s) = render_text s
    render_interface null = ok null
    render_interface (bool b) = ok (bool b)
    render_interface (int n) = ok (int n)
    render_interface (float64 f) = ok (float64 f)
    render_interface (texts ss) = ok (texts ss)

    pub render_items : Items F → Result (Items F)
    render_items nil = ok nil
    render_items (cons x xs) = render_interface x >>= λ y. render_items xs >>= λ ys. ok (cons y ys)

    pub render_fields : Fields F → Result (Fields F)
    render_fields end = ok end
    render_fields (field k x fs) =
        render_interface x >>= λ y. render_fields fs >>= λ gs. ok (field k y gs)

module _ {F : Type 0} (c : Codec F) (e : Engine F) where
  -- `renderSpecWithTypePreservation` at `string`: the result must decode to a text again
  as_text : Any F → Result String
  as_text (text s) = ok s
  as_text null = ok ""
  as_text _ = err (errorf "cannot unmarshal into a string")

  render_namespace : TemplateData F → String → Result String
  unfolding as_text
  render_namespace d ns = render_interface e d (text ns) >>= as_text

  render_with : Assoc (Any F) → String → ModuleSpecHelm → Result ModuleSpecHelm
  unfolding render_namespace
  render_with config release helm =
      let d : TemplateData F = record {
        config = config;
        release_name = some release;
        namespace = none;
      } in
      map_error (wrap_w "failed to render Helm namespace") (render_namespace d (get_namespace helm))
      >>= λ ns. map_error (wrap_w "failed to render Helm spec") (
          e.encode_helm helm >>= λ v.
          render_interface e (record d { namespace = some ns }) v >>= e.decode_helm)

  -- `none` is the panic of `GetReleaseName` on a spec with no release name
  render_released : Option String → Assoc (Any F) → ModuleSpecHelm → Option (Result ModuleSpecHelm)
  unfolding render_with
  render_released none config helm = none
  render_released (some release) config helm = some (render_with config release helm)

  render_configured : Result (Assoc (Any F)) → ModuleSpecHelm → Option (Result ModuleSpecHelm)
  unfolding render_released
  render_configured (err x) helm = some (err x)
  render_configured (ok config) helm = render_released (get_release_name helm) config helm

  pub render_helm_spec : Module → Option (Result ModuleSpecHelm)
  unfolding render_configured
  render_helm_spec m = elim m.spec.helm [
    | none ↦ some (err (errorf "module does not have a Helm spec"))
    | some helm ↦ render_configured (get_validated_config c m) helm
  ]

  pub render_custom_spec : Module → Result ModuleSpecCustom
  render_custom_spec m = elim m.spec.custom [
    | none ↦ err (errorf "module does not have a Custom spec")
    | some custom ↦ get_validated_config c m >>= λ config.
        map_error (wrap_w "failed to render Custom spec") (
          e.encode_custom custom >>= λ v.
          render_interface e (record { config = config; release_name = none; namespace = none }) v
          >>= e.decode_custom)
  ]
