-- ===== src/Client/Typed.antt =====
-- pkg/client.go: the getters of `ContextBoundClient`, one for each type.
use prefab_cloud_go.Prelude.{ℤ, GoString, Outcome, Bool, false, List}
use prefab_cloud_go.Proto.{Float64}
use prefab_cloud_go.GoValue.{Any}
use prefab_cloud_go.Contexts.{ContextSet}
use prefab_cloud_go.Client.{
  Client, Answer, int_reader, bool_reader, string_reader, float_reader, string_slice_reader,
  duration_reader, json_reader, get_value, get_value_with_default,
}

unfoldable pub get_int_value :
    Client → ContextSet → Bool → GoString → ContextSet → Outcome (Client × Answer ℤ)
get_int_value c bound in_time key set = get_value c bound int_reader in_time key set

unfoldable pub get_int_value_with_default :
    Client → ContextSet → Bool → GoString → ContextSet → ℤ → Outcome (Client × (ℤ × Bool))
get_int_value_with_default c bound in_time key set default_value =
    get_value_with_default c bound int_reader in_time key set default_value

unfoldable pub get_bool_value :
    Client → ContextSet → Bool → GoString → ContextSet → Outcome (Client × Answer Bool)
get_bool_value c bound in_time key set = get_value c bound bool_reader in_time key set

unfoldable pub get_bool_value_with_default :
    Client → ContextSet → Bool → GoString → ContextSet → Bool → Outcome (Client × (Bool × Bool))
get_bool_value_with_default c bound in_time key set default_value =
    get_value_with_default c bound bool_reader in_time key set default_value

unfoldable pub get_string_value :
    Client → ContextSet → Bool → GoString → ContextSet → Outcome (Client × Answer GoString)
get_string_value c bound in_time key set = get_value c bound string_reader in_time key set

unfoldable pub get_string_value_with_default :
    Client
    → ContextSet
    → Bool
    → GoString
    → ContextSet
    → GoString
    → Outcome (Client × (GoString × Bool))
get_string_value_with_default c bound in_time key set default_value =
    get_value_with_default c bound string_reader in_time key set default_value

unfoldable pub get_float_value :
    Client → ContextSet → Bool → GoString → ContextSet → Outcome (Client × Answer Float64)
get_float_value c bound in_time key set = get_value c bound float_reader in_time key set

unfoldable pub get_float_value_with_default :
    Client
    → ContextSet
    → Bool
    → GoString
    → ContextSet
    → Float64
    → Outcome (Client × (Float64 × Bool))
get_float_value_with_default c bound in_time key set default_value =
    get_value_with_default c bound float_reader in_time key set default_value

unfoldable pub get_string_slice_value :
    Client → ContextSet → Bool → GoString → ContextSet → Outcome (Client × Answer (List GoString))
get_string_slice_value c bound in_time key set =
    get_value c bound string_slice_reader in_time key set

unfoldable pub get_string_slice_value_with_default :
    Client
    → ContextSet
    → Bool
    → GoString
    → ContextSet
    → (List GoString)
    → Outcome (Client × ((List GoString) × Bool))
get_string_slice_value_with_default c bound in_time key set default_value =
    get_value_with_default c bound string_slice_reader in_time key set default_value

unfoldable pub get_duration_value :
    Client → ContextSet → Bool → GoString → ContextSet → Outcome (Client × Answer ℤ)
get_duration_value c bound in_time key set =
    get_value c bound (duration_reader c.config_resolver.host) in_time key set

unfoldable pub get_duration_with_default :
    Client → ContextSet → Bool → GoString → ContextSet → ℤ → Outcome (Client × (ℤ × Bool))
get_duration_with_default c bound in_time key set default_value =
    get_value_with_default c bound (duration_reader c.config_resolver.host) in_time key set
      default_value

unfoldable pub get_json_value :
    Client → ContextSet → Bool → GoString → ContextSet → Outcome (Client × Answer Any)
get_json_value c bound in_time key set =
    get_value c bound (json_reader c.config_resolver.host) in_time key set

unfoldable pub get_json_value_with_default :
    Client → ContextSet → Bool → GoString → ContextSet → Any → Outcome (Client × (Any × Bool))
get_json_value_with_default c bound in_time key set default_value =
    get_value_with_default c bound (json_reader c.config_resolver.host) in_time key set
      default_value

unfoldable pub feature_is_on :
    Client → ContextSet → Bool → GoString → ContextSet → Outcome (Client × (Bool × Bool))
feature_is_on c bound in_time key set = get_bool_value_with_default c bound in_time key set false
