-- ===== src/ConfigValues.antt =====
-- pkg/internal/utils/config_value_utils.go: ConfigValues made of Go values, and read back.
pub mod Durations
pub mod RoundTrip
use prefab_cloud_go.Prelude.{
  ℕ, zero, suc, ◌+◌, ◌-◌, ◌*◌, ◌/◌, ◌%◌, ◌^◌, ◌≤◌, ◌<◌, ltb, leb, ◌==◌, bool_eq, if◌then◌else◌,
  ltb→lt, lt→ltb, leb→le, ==_iff, Bool-cases, Option-cases, length, get_elem?, length-append, All,
  any_of, ℤ, pos, negsuc, pos_part, neg_part, ◌≤ℤ◌, ◌<ℤ◌, ltb_ℤ, leb_ℤ, eq_ℤ, eq_ℤ_iff, GoString,
  codes, str_eq, str_eq_iff, str_eq_refl, str_lt, has_prefix, has_suffix, contains, join, split,
  cons_first, upper_byte, lower_byte, has_prefix_iff, Outcome, ret, panics, unfinished, ◌>>=◌,
  >>=-eq-ret, ◌≡◌, refl, sym, ap, ◌∙◌, ◌≢◌, ◌↔◌, ◌⊎◌, inl, inr, Bool, true, false, not, ◌&&◌, ◌||◌,
  Option, none, some, List, [], ◌∷◌, ◌++◌, arith,
}
use prefab_cloud_go.Proto.{
  ConfigValue, nil_value, config_value, ConfigValueType, Provided, ProvidedSource, LogLevel,
  Float64, ValueType, get_type, get_source, not_set_log_level,
}
use prefab_cloud_go.GoValue.{Any, IntKind, Host}
use prefab_cloud_go.AnyHelpers.{detect_and_return_string_list_if_present}
use prefab_cloud_go.ConfigValues.Durations.{duration_to_iso8601}

-- A new message with its oneof set, and nothing else.
abbrev pub value_of : ConfigValueType → ConfigValue
value_of t = config_value t none none

-- `case []any`: the type stays unset where the elements are not all strings.
type_of_slice : Option (List GoString) → ConfigValueType
type_of_slice (some l) = ConfigValueType.string_list l
type_of_slice none = ConfigValueType.not_set

-- `string(jsonValue)`: nil after an error.
json_text : Option GoString → GoString
json_text (some s) = s
json_text none = []

unfoldable pub create : Host → Any → Outcome (ConfigValue × Bool)
unfolding type_of_slice json_text
create host (Any.config_value_pointer cv) = ret (cv, true)
create host (Any.int k n) = ret (value_of (ConfigValueType.int n), true)
create host (Any.string s) = ret (value_of (ConfigValueType.string s), true)
create host (Any.string_slice l) = ret (value_of (ConfigValueType.string_list l), true)
create host (Any.slice l) = do
  found ← detect_and_return_string_list_if_present (Any.slice l)
  ret (value_of (type_of_slice found), true)
create host (Any.bytes b) = ret (value_of (ConfigValueType.bytes b), true)
create host (Any.bool b) = ret (value_of (ConfigValueType.bool b), true)
create host (Any.float64 x) = ret (value_of (ConfigValueType.double x), true)
create host (Any.float32 x) = ret (value_of (ConfigValueType.double x), true)
create host (Any.log_level_value l) = ret (value_of (ConfigValueType.log_level l), true)
create host (Any.duration d) =
    ret (value_of (ConfigValueType.duration (duration_to_iso8601 d)), true)
create host (Any.map m) =
    ret (value_of (ConfigValueType.json (json_text (host.marshal_json m))), true)
create host (Any.pointer v) = create host v
create host _ = ret (nil_value, false)

-- What `ExtractValue` returns: the value, whether it is of a simple type, and whether there is an
-- error.
pub record Extracted : Type 0 where
  pub value : Any
  pub ok : Bool
  pub failed : Bool

abbrev pub extracted : Any → Extracted
extracted v = record { value = v; ok = true; failed = false }

abbrev not_simple : Any → Extracted
not_simple v = record { value = v; ok = false; failed = false }

look_up : Host → Option GoString → Extracted
look_up host none = not_simple (Any.string [])
look_up host (some key) = elim (host.lookup_env key) [
  | some v ↦ extracted (Any.string v)
  | none ↦ not_simple (Any.string [])
]

-- `handleProvided`, with its result as `ExtractValue` passes it on; a nil Provided has no source.
extract_provided : Host → Option Provided → Extracted
unfolding look_up get_source
extract_provided host none = not_simple (Any.string [])
extract_provided host (some p) = elim (get_source p) [
  | ProvidedSource.env_var ↦ look_up host p.lookup
  | _ ↦ not_simple (Any.string [])
]

extract_json : Option Any → Extracted
extract_json (some v) = extracted v
extract_json none = record { value = Any.string []; ok = false; failed = true }

extract_duration : Option ℤ → Extracted
extract_duration (some d) = extracted (Any.duration d)
extract_duration none = not_simple Any.nil

extract_type : Host → ConfigValueType → Extracted
unfolding extract_provided extract_json extract_duration
extract_type host (ConfigValueType.int n) = extracted (Any.int IntKind.bits64 n)
extract_type host (ConfigValueType.string s) = extracted (Any.string s)
extract_type host (ConfigValueType.bytes b) = extracted (Any.bytes b)
extract_type host (ConfigValueType.double x) = extracted (Any.float64 x)
extract_type host (ConfigValueType.bool b) = extracted (Any.bool b)
extract_type host (ConfigValueType.log_level l) = extracted (Any.log_level l)
extract_type host (ConfigValueType.string_list l) = extracted (Any.string_slice l)
extract_type host (ConfigValueType.json s) = extract_json (host.unmarshal_json s)
extract_type host (ConfigValueType.duration s) = extract_duration (host.parse_duration s)
extract_type host (ConfigValueType.provided p) = extract_provided host p
extract_type host ConfigValueType.not_set = not_simple Any.nil
extract_type host t = not_simple (Any.oneof t)

unfoldable pub extract_value : Host → ConfigValue → Extracted
unfolding extract_type
extract_value host nil_value = not_simple Any.nil
extract_value host (config_value t confidential decrypt_with) = extract_type host t

unfoldable pub get_value_type : ConfigValue → ValueType
get_value_type nil_value = ValueType.not_set_value_type
get_value_type (config_value (ConfigValueType.int n) c d) = ValueType.int_type
get_value_type (config_value (ConfigValueType.string s) c d) = ValueType.string_type
get_value_type (config_value (ConfigValueType.bytes b) c d) = ValueType.bytes_type
get_value_type (config_value (ConfigValueType.double x) c d) = ValueType.double_type
get_value_type (config_value (ConfigValueType.bool b) c d) = ValueType.bool_type
get_value_type (config_value (ConfigValueType.string_list l) c d) = ValueType.string_list_type
get_value_type (config_value (ConfigValueType.log_level l) c d) = ValueType.log_level_value_type
get_value_type (config_value (ConfigValueType.duration s) c d) = ValueType.duration_type
get_value_type (config_value (ConfigValueType.json s) c d) = ValueType.json_type
get_value_type _ = ValueType.not_set_value_type

int_of : ConfigValueType → ℤ × Bool
int_of (ConfigValueType.int n) = (n, true)
int_of _ = (pos 0, false)

unfoldable pub extract_int_value : ConfigValue → ℤ × Bool
unfolding int_of get_type
extract_int_value cv = int_of (get_type cv)

string_of : ConfigValueType → GoString × Bool
string_of (ConfigValueType.string s) = (s, true)
string_of _ = ([], false)

unfoldable pub extract_string_value : ConfigValue → GoString × Bool
unfolding string_of get_type
extract_string_value cv = string_of (get_type cv)

log_level_of : ConfigValueType → LogLevel × Bool
log_level_of (ConfigValueType.log_level l) = (l, true)
log_level_of _ = (not_set_log_level, false)

unfoldable pub extract_log_level_value : ConfigValue → LogLevel × Bool
unfolding log_level_of get_type
extract_log_level_value cv = log_level_of (get_type cv)

-- The float64 zero has the bit pattern 0.
float_of : ConfigValueType → Float64 × Bool
float_of (ConfigValueType.double x) = (x, true)
float_of _ = (Float64.float_bits 0, false)

unfoldable pub extract_float_value : ConfigValue → Float64 × Bool
unfolding float_of get_type
extract_float_value cv = float_of (get_type cv)

bool_of : ConfigValueType → Bool × Bool
bool_of (ConfigValueType.bool b) = (b, true)
bool_of _ = (false, false)

unfoldable pub extract_bool_value : ConfigValue → Bool × Bool
unfolding bool_of get_type
extract_bool_value cv = bool_of (get_type cv)

string_list_of : ConfigValueType → List GoString × Bool
string_list_of (ConfigValueType.string_list l) = (l, true)
string_list_of _ = ([], false)

unfoldable pub extract_string_list_value : ConfigValue → List GoString × Bool
unfolding string_list_of get_type
extract_string_list_value cv = string_list_of (get_type cv)

parsed_duration : Option ℤ → ℤ × Bool
parsed_duration (some d) = (d, true)
parsed_duration none = (pos 0, false)

duration_of : Host → ConfigValueType → ℤ × Bool
duration_of host (ConfigValueType.duration s) = parsed_duration (host.parse_duration s)
duration_of host _ = (pos 0, false)

unfoldable pub extract_duration_value : Host → ConfigValue → ℤ × Bool
unfolding duration_of parsed_duration get_type
extract_duration_value host cv = duration_of host (get_type cv)

parsed_json : Option Any → Any × Bool
parsed_json (some v) = (v, true)
parsed_json none = (Any.string [], false)

json_of : Host → ConfigValueType → Any × Bool
json_of host (ConfigValueType.json s) = parsed_json (host.unmarshal_json s)
json_of host _ = (Any.string [], false)

unfoldable pub extract_json_value_without_error : Host → ConfigValue → Any × Bool
unfolding json_of parsed_json get_type
extract_json_value_without_error host cv = json_of host (get_type cv)
