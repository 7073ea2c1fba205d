-- ===== src/Tests/Render.antt =====
-- Rendering concrete values with an engine that knows one template.
use forkspacer.Base.{◌≡◌, refl, none, some, [], ◌==◌, if◌then◌else◌}
use forkspacer.Go.{ok, err, errorf}
use forkspacer.Go.Int.{ℤ, pos}
use forkspacer.Api.Any.{Any, float64, text, object, field, end, array, cons, nil}
use forkspacer.Api.Render.{Engine, TemplateData, render_text, render_interface}
use forkspacer.Api.Render.Laws.{render_interface-SameShape, SameShape}

abbrev pub engine : Engine ℤ
engine = record {
  execute = λ s d. if s == "{{.config.port}}" then ok "6379" else err (errorf "no template");
  decode = λ s. if s == "6379" then some (float64 (pos 6379)) else none;
  encode_helm = λ h. err (errorf "unused");
  decode_helm = λ v. err (errorf "unused");
  encode_custom = λ h. err (errorf "unused");
  decode_custom = λ v. err (errorf "unused");
}

abbrev no_data : TemplateData ℤ
no_data = record { config = []; release_name = none; namespace = none }

abbrev plain : Any ℤ
plain = object (field "port" (float64 (pos 80)) (field "hosts" (array (cons (text "a") nil)) end))

abbrev template : Any ℤ
template = object (field "port" (text "{{.config.port}}") end)

abbrev rendered : Any ℤ
rendered = object (field "port" (float64 (pos 6379)) end)

render_interface-template : render_interface engine no_data template ≡ ok rendered
unfolding render_interface render_text
render_interface-template = refl

render_interface-SameShape_example : SameShape template rendered
render_interface-SameShape_example =
    render_interface-SameShape engine no_data template rendered render_interface-template
