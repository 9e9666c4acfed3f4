-- ===== src/Client/Unbound.antt =====
-- pkg/client.go: the methods of `Client`, which ask its bound client: that is bound to the global context.
use prefab_cloud_go.Prelude.{
  if◌then◌else◌, [], ℤ, GoString, Outcome, ret, ◌>>=◌, Bool, true, false, Option, none, some, List,
}
use prefab_cloud_go.Proto.{Float64, LogLevel, Config}
use prefab_cloud_go.GoValue.{Any}
use prefab_cloud_go.ConfigValues.{extract_log_level_value}
use prefab_cloud_go.Contexts.{ContextSet}
use prefab_cloud_go.Client.{Client, Answer, Reader, get_value}
use prefab_cloud_go.Client.Typed

unfoldable pub get_int_value : Client → Bool → GoString → ContextSet → Outcome (Client × Answer ℤ)
get_int_value c in_time key set = Typed.get_int_value c c.global_context in_time key set

unfoldable pub get_int_value_with_default :
    Client → Bool → GoString → ContextSet → ℤ → Outcome (Client × (ℤ × Bool))
get_int_value_with_default c in_time key set default_value =
    Typed.get_int_value_with_default c c.global_context in_time key set default_value

unfoldable pub get_bool_value :
    Client → Bool → GoString → ContextSet → Outcome (Client × Answer Bool)
get_bool_value c in_time key set = Typed.get_bool_value c c.global_context in_time key set

unfoldable pub get_bool_value_with_default :
    Client → Bool → GoString → ContextSet → Bool → Outcome (Client × (Bool × Bool))
get_bool_value_with_default c in_time key set default_value =
    Typed.get_bool_value_with_default c c.global_context in_time key set default_value

unfoldable pub get_string_value :
    Client → Bool → GoString → ContextSet → Outcome (Client × Answer GoString)
get_string_value c in_time key set = Typed.get_string_value c c.global_context in_time key set

unfoldable pub get_string_value_with_default :
    Client → Bool → GoString → ContextSet → GoString → Outcome (Client × (GoString × Bool))
get_string_value_with_default c in_time key set default_value =
    Typed.get_string_value_with_default c c.global_context in_time key set default_value

unfoldable pub get_float_value :
    Client → Bool → GoString → ContextSet → Outcome (Client × Answer Float64)
get_float_value c in_time key set = Typed.get_float_value c c.global_context in_time key set

unfoldable pub get_float_value_with_default :
    Client → Bool → GoString → ContextSet → Float64 → Outcome (Client × (Float64 × Bool))
get_float_value_with_default c in_time key set default_value =
    Typed.get_float_value_with_default c c.global_context in_time key set default_value

unfoldable pub get_string_slice_value :
    Client → Bool → GoString → ContextSet → Outcome (Client × Answer (List GoString))
get_string_slice_value c in_time key set =
    Typed.get_string_slice_value c c.global_context in_time key set

unfoldable pub get_string_slice_value_with_default :
    Client
    → Bool
    → GoString
    → ContextSet
    → (List GoString)
    → Outcome (Client × ((List GoString) × Bool))
get_string_slice_value_with_default c in_time key set default_value =
    Typed.get_string_slice_value_with_default c c.global_context in_time key set default_value

unfoldable pub get_duration_value :
    Client → Bool → GoString → ContextSet → Outcome (Client × Answer ℤ)
get_duration_value c in_time key set = Typed.get_duration_value c c.global_context in_time key set

unfoldable pub get_duration_with_default :
    Client → Bool → GoString → ContextSet → ℤ → Outcome (Client × (ℤ × Bool))
get_duration_with_default c in_time key set default_value =
    Typed.get_duration_with_default c c.global_context in_time key set default_value

unfoldable pub get_json_value :
    Client → Bool → GoString → ContextSet → Outcome (Client × Answer Any)
get_json_value c in_time key set = Typed.get_json_value c c.global_context in_time key set

unfoldable pub get_json_value_with_default :
    Client → Bool → GoString → ContextSet → Any → Outcome (Client × (Any × Bool))
get_json_value_with_default c in_time key set default_value =
    Typed.get_json_value_with_default c c.global_context in_time key set default_value

unfoldable pub feature_is_on :
    Client → Bool → GoString → ContextSet → Outcome (Client × (Bool × Bool))
feature_is_on c in_time key set = Typed.feature_is_on c c.global_context in_time key set

level_reader : Reader LogLevel
level_reader = record {
  zero_value = LogLevel.not_set_log_level;
  parse = extract_log_level_value;
  is_nil = λ level. false;
}

level_answer : (LogLevel → GoString) → Answer LogLevel → Answer GoString
level_answer level_text answer = elim answer.error [
  | some e ↦ record { value = []; ok = false; error = some e }
  | none ↦
      if answer.ok
      then record { value = level_text answer.value; ok = true; error = none }
      else record { value = []; ok = false; error = none }
]

-- `ContextBoundClient.GetLogLevelStringValue`; `level_text` is the `String` of the generated enum.
unfoldable pub get_bound_log_level_string_value :
    (LogLevel → GoString)
    → Client
    → ContextSet
    → Bool
    → GoString
    → ContextSet
    → Outcome (Client × Answer GoString)
unfolding level_reader level_answer
get_bound_log_level_string_value level_text c bound in_time key set =
    get_value c bound level_reader in_time key set >>= λ r. ret (r.0, level_answer level_text r.1)

unfoldable pub get_log_level_string_value :
    (LogLevel → GoString)
    → Client
    → Bool
    → GoString
    → ContextSet
    → Outcome (Client × Answer GoString)
get_log_level_string_value level_text c in_time key set =
    get_bound_log_level_string_value level_text c c.global_context in_time key set

unfoldable pub get_config : Client → GoString → Option Config
get_config c key = c.config_store.get_config key
