-- ===== src/GoValue/Hosts.antt =====
-- What the program calls and does not implement: float64 arithmetic, regular expressions, dates,
-- JSON, ISO durations, the hash, the environment and the clock.
use prefab_cloud_go.Prelude.{ℕ, ℤ, GoString, Bool, Option}
use prefab_cloud_go.Proto.{Float64}
use prefab_cloud_go.GoValue.Values.{Any, AnyMap}

pub record Host : Type 0 where
  pub float_of_int : ℤ → Float64
  pub int_of_float : Float64 → ℤ
  pub float_lt : Float64 → Float64 → Bool
  pub float_le : Float64 → Float64 → Bool
  pub float_mul : Float64 → Float64 → Float64
  pub float_div : Float64 → Float64 → Float64
  -- fmt.Sprintf("%v", value) of a value that is neither text, bool nor an integer.
  pub format_value : Any → GoString
  -- regexp.Compile and MatchString: none where the pattern does not compile.
  pub match_regexp : GoString → GoString → Option Bool
  -- time.Parse(time.RFC3339, value), in milliseconds since the epoch.
  pub parse_rfc3339 : GoString → Option ℤ
  pub unmarshal_json : GoString → Option Any
  pub marshal_json : AnyMap → Option GoString
  -- Parse of sosodev/duration, in nanoseconds.
  pub parse_duration : GoString → Option ℤ
  -- strconv.ParseFloat(value, 64).
  pub parse_float : GoString → Option Float64
  -- murmur3.New32 over the bytes.
  pub murmur3_sum32 : GoString → ℕ
  pub lookup_env : GoString → Option GoString
  -- time.Now().UTC().UnixMilli(), taken to stand still during one evaluation.
  pub now_millis : ℤ
