-- ===== src/Tests/Config.antt =====
-- Config values at concrete items and inputs.
use forkspacer.Base.{◌≡◌, ◌↔◌, refl, false, none, some, [], ◌∷◌, Assoc, lookup}
use forkspacer.Go.{ok, is_ok}
use forkspacer.Go.Int.{ℤ, pos}
use forkspacer.Api.Any.{Any, int, float64, text}
use forkspacer.Api.Module
use forkspacer.Api.Module.{Module}
use forkspacer.Api.Config.{validate_integer, validate_item, get_validated_config, input_config}
use forkspacer.Api.Config.Items.{ItemSpec, validate_item_iff}
use forkspacer.Api.Config.Output.{
  Valid, get_validated_config_iff, get_validated_config-last, get_validated_config-multiple_options,
}
use forkspacer.Tests.Data.{codec, replicas, zones, zones_spec, redis_with}

validate_item_iff_example :
    (validate_item codec replicas (some (float64 (pos 3))) ≡ ok (int (pos 3)))
    ↔ ItemSpec codec replicas (some (float64 (pos 3))) (int (pos 3))
validate_item_iff_example = validate_item_iff codec replicas (some (float64 (pos 3))) (int (pos 3))

abbrev redis : Module
redis = redis_with (replicas ∷ []) "{replicas: 3}" Module.unset none

get_validated_config_iff_example :
    ((out : Assoc (Any ℤ)) × (get_validated_config codec redis ≡ ok out)) ↔ (
      (input : Assoc (Any ℤ)) × (input_config codec redis.spec.config ≡ ok input)
      × Valid codec redis input)
get_validated_config_iff_example = get_validated_config_iff codec redis

redis_input : input_config codec redis.spec.config ≡ ok (("replicas", float64 (pos 3)) ∷ [])
unfolding input_config
redis_input = refl

redis_output : get_validated_config codec redis ≡ ok (("replicas", int (pos 3)) ∷ [])
unfolding get_validated_config validate_integer
redis_output = refl

get_validated_config-last_example :
    (v : Any ℤ) × ItemSpec codec replicas (some (float64 (pos 3))) v
    × (lookup "replicas" (("replicas", int (pos 3)) ∷ []) ≡ some v)
unfolding lookup
get_validated_config-last_example =
    get_validated_config-last codec redis [] replicas [] (("replicas", float64 (pos 3)) ∷ [])
      (("replicas", int (pos 3)) ∷ []) refl tt redis_input redis_output

abbrev zoned : Module
zoned = redis_with (zones ∷ []) "{zones: a}" Module.unset none

get_validated_config-multiple_options_example : is_ok (get_validated_config codec zoned) ≡ false
unfolding input_config lookup
get_validated_config-multiple_options_example =
    get_validated_config-multiple_options codec zoned [] zones [] zones_spec
      (("zones", text "a") ∷ []) (text "a") refl refl refl refl refl refl refl refl tt
