-- ===== src/Criteria.antt =====
-- The operators of `EvaluateCriterion` in pkg/internal/config_rule_evaluator.go, but for the segment
-- look-up, which is passed in. `m` is what `ExtractValue` gave for the value to match, and `c` the
-- context value, `none` where it does not exist.
pub mod Texts
pub mod Numbers
pub mod Complement
use prefab_cloud_go.Prelude.{
  ℕ, zero, suc, ◌+◌, ◌-◌, ◌*◌, ◌/◌, ◌%◌, ◌^◌, ◌≤◌, ◌<◌, ltb, leb, ◌==◌, bool_eq, if◌then◌else◌,
  ltb→lt, lt→ltb, leb→le, ==_iff, Bool-cases, Option-cases, length, get_elem?, length-append, All,
  any_of, ℤ, pos, negsuc, pos_part, neg_part, ◌≤ℤ◌, ◌<ℤ◌, ltb_ℤ, leb_ℤ, eq_ℤ, eq_ℤ_iff, GoString,
  codes, str_eq, str_eq_iff, str_eq_refl, str_lt, has_prefix, has_suffix, contains, join, split,
  cons_first, upper_byte, lower_byte, has_prefix_iff, Outcome, ret, panics, unfinished, ◌>>=◌,
  >>=-eq-ret, ◌≡◌, refl, sym, ap, ◌∙◌, ◌≢◌, ◌↔◌, ◌⊎◌, inl, inr, Bool, true, false, not, ◌&&◌, ◌||◌,
  Option, none, some, List, [], ◌∷◌, ◌++◌, arith,
}
use prefab_cloud_go.Proto.{Operator, LogLevel, ConfigValue, IntRange, get_type, get_int_range}
use prefab_cloud_go.GoValue.{Any, Host}
use prefab_cloud_go.ConfigValues.{Extracted}
use prefab_cloud_go.AnyHelpers.{is_string}
use prefab_cloud_go.Semver
use prefab_cloud_go.Criteria.Texts.{
  context_value_to_string, context_value_to_string_slice, ends_with_any, starts_with_any,
  contains_any, string_in_slice,
}
use prefab_cloud_go.Criteria.Numbers.{in_int_range, numeric_criterion, date_criterion}

-- `matchValue.([]string)`, and the comparison of the test's result with what the operator wants.
on_string_list : Host → (List GoString → GoString → Bool) → Bool → Any → Any → Bool
on_string_list host test wanted (Any.string_slice l) v =
    bool_eq (test l (context_value_to_string host v)) wanted
on_string_list host test wanted _ v = not wanted

-- The cases ENDS_WITH, STARTS_WITH and CONTAINS; `wanted` is false for the DOES_NOT operators.
string_criterion : Host → (List GoString → GoString → Bool) → Bool → Extracted → Option Any → Bool
unfolding on_string_list
string_criterion host test wanted m none = not wanted
string_criterion host test wanted m (some v) =
    if m.failed then not wanted else on_string_list host test wanted m.value v

-- The loop over the context's strings.
any_in_slice : List GoString → List GoString → Bool
any_in_slice values list = any_of (λ s. string_in_slice s list) values

one_of : Bool → Any → List GoString → Bool
unfolding any_in_slice
one_of wanted (Any.string_slice l) values = bool_eq (any_in_slice values l) wanted
one_of wanted _ values = not wanted

-- The cases IS_ONE_OF and IS_NOT_ONE_OF.
unfoldable pub one_of_criterion : Host → Bool → Extracted → Option Any → Outcome Bool
unfolding one_of
one_of_criterion host wanted m none = ret (not wanted)
one_of_criterion host wanted m (some v) =
    if m.failed
    then ret (not wanted)
    else do values ← context_value_to_string_slice host v; ret (one_of wanted m.value values)

is_prefix_of : Host → Any → Any → Bool
is_prefix_of host (Any.string prefix) v = has_prefix (context_value_to_string host v) prefix
is_prefix_of host _ v = false

hierarchical_criterion : Host → Extracted → Option Any → Bool
unfolding is_prefix_of
hierarchical_criterion host m none = false
hierarchical_criterion host m (some v) = not m.failed && is_prefix_of host m.value v

regexp_result : Bool → Option Bool → Bool
regexp_result wanted (some matched) = bool_eq matched wanted
regexp_result wanted none = false

on_two_strings : (GoString → GoString → Bool) → Any → Any → Bool
on_two_strings test (Any.string context) (Any.string value) = test context value
on_two_strings test _ _ = false

-- The guard of the cases that want two strings.
text_criterion : (GoString → GoString → Bool) → Extracted → Option Any → Bool
unfolding on_two_strings
text_criterion test m none = false
text_criterion test m (some v) = not m.failed && on_two_strings test v m.value

regexp_test : Host → Bool → GoString → GoString → Bool
unfolding regexp_result
regexp_test host wanted context value = regexp_result wanted (host.match_regexp value context)

semver_handler : Operator → ℤ → Bool
semver_handler Operator.prop_semver_greater_than result = ltb_ℤ (pos 0) result
semver_handler Operator.prop_semver_equal result = eq_ℤ result (pos 0)
semver_handler Operator.prop_semver_less_than result = ltb_ℤ result (pos 0)
semver_handler _ result = false

semver_result : Operator → Option Semver.SemanticVersion → Option Semver.SemanticVersion → Bool
semver_result op (some match) (some context) = semver_handler op (Semver.compare context match)
semver_result op _ _ = false

semver_test : Operator → GoString → GoString → Bool
unfolding semver_handler semver_result
semver_test op context value = semver_result op (Semver.parse value) (Semver.parse context)

-- The switch; `in_segment wanted` is the case IN_SEG or NOT_IN_SEG.
unfoldable pub evaluate_operator :
    Host
    → (Bool → Outcome Bool)
    → Operator
    → Option IntRange
    → Extracted
    → Option Any
    → Outcome Bool
unfolding string_criterion one_of_criterion hierarchical_criterion text_criterion regexp_test
    semver_test
evaluate_operator host in_segment Operator.always_true range m c = ret true
evaluate_operator host in_segment Operator.prop_ends_with_one_of range m c =
    ret (string_criterion host ends_with_any true m c)
evaluate_operator host in_segment Operator.prop_does_not_end_with_one_of range m c =
    ret (string_criterion host ends_with_any false m c)
evaluate_operator host in_segment Operator.prop_starts_with_one_of range m c =
    ret (string_criterion host starts_with_any true m c)
evaluate_operator host in_segment Operator.prop_does_not_start_with_one_of range m c =
    ret (string_criterion host starts_with_any false m c)
evaluate_operator host in_segment Operator.prop_contains_one_of range m c =
    ret (string_criterion host contains_any true m c)
evaluate_operator host in_segment Operator.prop_does_not_contain_one_of range m c =
    ret (string_criterion host contains_any false m c)
evaluate_operator host in_segment Operator.prop_is_one_of range m c = one_of_criterion host true m c
evaluate_operator host in_segment Operator.prop_is_not_one_of range m c =
    one_of_criterion host false m c
evaluate_operator host in_segment Operator.hierarchical_match range m c =
    ret (hierarchical_criterion host m c)
evaluate_operator host in_segment Operator.in_int_range range m c =
    ret (not m.failed && in_int_range host range c)
evaluate_operator host in_segment Operator.in_seg range m c = in_segment true
evaluate_operator host in_segment Operator.not_in_seg range m c = in_segment false
evaluate_operator host in_segment Operator.prop_greater_than range m c =
    ret (numeric_criterion host Operator.prop_greater_than m c)
evaluate_operator host in_segment Operator.prop_greater_than_or_equal range m c =
    ret (numeric_criterion host Operator.prop_greater_than_or_equal m c)
evaluate_operator host in_segment Operator.prop_less_than range m c =
    ret (numeric_criterion host Operator.prop_less_than m c)
evaluate_operator host in_segment Operator.prop_less_than_or_equal range m c =
    ret (numeric_criterion host Operator.prop_less_than_or_equal m c)
evaluate_operator host in_segment Operator.prop_before range m c =
    ret (date_criterion host Operator.prop_before m c)
evaluate_operator host in_segment Operator.prop_after range m c =
    ret (date_criterion host Operator.prop_after m c)
evaluate_operator host in_segment Operator.prop_matches range m c =
    ret (text_criterion (regexp_test host true) m c)
evaluate_operator host in_segment Operator.prop_does_not_match range m c =
    ret (text_criterion (regexp_test host false) m c)
evaluate_operator host in_segment Operator.prop_semver_less_than range m c =
    ret (text_criterion (semver_test Operator.prop_semver_less_than) m c)
evaluate_operator host in_segment Operator.prop_semver_equal range m c =
    ret (text_criterion (semver_test Operator.prop_semver_equal) m c)
evaluate_operator host in_segment Operator.prop_semver_greater_than range m c =
    ret (text_criterion (semver_test Operator.prop_semver_greater_than) m c)
evaluate_operator host in_segment _ range m c = ret false
