-- ===== src/Criteria/Numbers.antt =====
-- The numeric comparisons, ranges and dates of pkg/internal/config_rule_evaluator.go.
use prefab_cloud_go.Prelude.{
  ◌-◌, ◌^◌, if◌then◌else◌, ℤ, pos, negsuc, ltb_ℤ, leb_ℤ, Bool, false, not, ◌&&◌, ◌||◌, Option, none,
  some,
}
use prefab_cloud_go.Proto.{Operator, LogLevel, IntRange, Float64}
use prefab_cloud_go.GoValue.{Any, Host}
use prefab_cloud_go.ConfigValues.{Extracted}
use prefab_cloud_go.AnyHelpers.{is_number, is_string, to_float64, to_int64}

-- The number of a LogLevel.
level_number : LogLevel → ℤ
level_number LogLevel.not_set_log_level = pos 0
level_number LogLevel.trace = pos 1
level_number LogLevel.debug = pos 2
level_number LogLevel.info = pos 3
level_number LogLevel.warn = pos 5
level_number LogLevel.error = pos 6
level_number LogLevel.fatal = pos 9
level_number (LogLevel.unnamed_level n) = n

-- `reflectedContextValue.Int()`, where CanInt.
reflected_int : Any → Option ℤ
reflected_int (Any.int k n) = some n
reflected_int (Any.duration d) = some d
reflected_int (Any.log_level l) = some (level_number l)
reflected_int _ = none

-- `reflectedContextValue.Float()`, where CanFloat.
reflected_float : Any → Option Float64
reflected_float (Any.float32 x) = some x
reflected_float (Any.float64 x) = some x
reflected_float _ = none

default_int : Option ℤ → ℤ → ℤ
default_int (some n) value = n
default_int none value = value

abbrev min_int64 : ℤ
min_int64 = negsuc (2 ^ 63 - 1)

abbrev max_int64 : ℤ
max_int64 = pos (2 ^ 63 - 1)

int_in_range : IntRange → ℤ → Bool
unfolding default_int
int_in_range r n = leb_ℤ (default_int r.start min_int64) n && ltb_ℤ n (default_int r.end_ max_int64)

float_in_range : Host → IntRange → Float64 → Bool
unfolding default_int
float_in_range host r x =
    host.float_le (host.float_of_int (default_int r.start min_int64)) x
    && host.float_lt x (host.float_of_int (default_int r.end_ max_int64))

number_in_range : Host → IntRange → Option ℤ → Option Float64 → Bool
number_in_range host r (some n) x = int_in_range r n
number_in_range host r none (some x) = float_in_range host r x
number_in_range host r none none = false

-- The case IN_INT_RANGE, for a value to match with no error.
unfoldable pub in_int_range : Host → Option IntRange → Option Any → Bool
unfolding number_in_range int_in_range float_in_range reflected_int reflected_float level_number
in_int_range host (some r) (some v) = number_in_range host r (reflected_int v) (reflected_float v)
in_int_range host _ _ = false

compared : Host → Option Float64 → Option Float64 → Option ℤ
compared host (some a) (some b) =
    if host.float_lt a b
    then some (negsuc 0)
    else if host.float_lt b a
    then some (pos 1)
    else some (pos 0)
compared host _ _ = none

-- `none` is the error.
unfoldable pub compare_numbers : Host → Any → Any → Option ℤ
unfolding compared
compare_numbers host a b = compared host (to_float64 host a) (to_float64 host b)

-- `numericCriterionHandlers`.
unfoldable pub numeric_handler : Operator → ℤ → Bool
numeric_handler Operator.prop_greater_than result = ltb_ℤ (pos 0) result
numeric_handler Operator.prop_greater_than_or_equal result = leb_ℤ (pos 0) result
numeric_handler Operator.prop_less_than result = ltb_ℤ result (pos 0)
numeric_handler Operator.prop_less_than_or_equal result = leb_ℤ result (pos 0)
numeric_handler _ result = false

handled : Operator → Option ℤ → Bool
handled op (some result) = numeric_handler op result
handled op none = false

-- The four comparisons with a number.
unfoldable pub numeric_criterion : Host → Operator → Extracted → Option Any → Bool
unfolding handled
numeric_criterion host op m none = false
numeric_criterion host op m (some v) =
    if not m.failed && is_number v && is_number m.value
    then handled op (compare_numbers host v m.value)
    else false

parsed_date : Host → Any → Option ℤ
parsed_date host (Any.string s) = host.parse_rfc3339 s
parsed_date host _ = none

-- `none` is the error.
unfoldable pub date_to_millis : Host → Any → Option ℤ
unfolding parsed_date
date_to_millis host val = if is_number val then to_int64 host val else parsed_date host val

ordered : Operator → Option ℤ → Option ℤ → Bool
ordered Operator.prop_after (some context) (some match) = ltb_ℤ match context
ordered Operator.prop_before (some context) (some match) = ltb_ℤ context match
ordered _ _ _ = false

abbrev is_date : Any → Bool
is_date v = is_number v || is_string v

-- The cases BEFORE and AFTER.
unfoldable pub date_criterion : Host → Operator → Extracted → Option Any → Bool
unfolding ordered
date_criterion host op m none = false
date_criterion host op m (some v) =
    if not m.failed && is_date v && is_date m.value
    then ordered op (date_to_millis host v) (date_to_millis host m.value)
    else false
