-- ===== src/Telemetry/Summaries.antt =====
-- pkg/internal/telemetry/evaluation_summary_aggregator.go: `Record` and `Clear`. The text of a config
-- value that generated code prints is an argument.
pub mod Counting
pub mod Totals
pub mod Conservation
pub mod Reporting
use prefab_cloud_go.Prelude.{
  ℕ, zero, suc, ◌+◌, ◌-◌, ◌*◌, ◌/◌, ◌%◌, ◌^◌, ◌≤◌, ◌<◌, ltb, leb, ◌==◌, bool_eq, if◌then◌else◌,
  ltb→lt, lt→ltb, leb→le, ==_iff, Bool-cases, Option-cases, length, get_elem?, length-append, All,
  any_of, ℤ, pos, negsuc, pos_part, neg_part, ◌≤ℤ◌, ◌<ℤ◌, ltb_ℤ, leb_ℤ, eq_ℤ, eq_ℤ_iff, GoString,
  codes, str_eq, str_eq_iff, str_eq_refl, str_lt, has_prefix, has_suffix, contains, join, split,
  cons_first, upper_byte, lower_byte, has_prefix_iff, Outcome, ret, panics, unfinished, ◌>>=◌,
  >>=-eq-ret, ◌≡◌, refl, sym, ap, ◌∙◌, ◌≢◌, ◌↔◌, ◌⊎◌, inl, inr, Bool, true, false, not, ◌&&◌, ◌||◌,
  Option, none, some, List, [], ◌∷◌, ◌++◌, map, arith,
}
use prefab_cloud_go.Prelude.Dict
use prefab_cloud_go.Prelude.Dict.{Dict}
use prefab_cloud_go.Prelude.Decimal.{show_int}
use prefab_cloud_go.Proto.{ConfigValue}
use prefab_cloud_go.Resolver.{ConfigMatch}

pub record EvaluationSummaryAggregator : Type 0 where
  pub evaluations : Dict ConfigMatch
  pub counts : Dict ℤ
  pub data_start : ℤ

abbrev pub new_evaluation_summary_aggregator : EvaluationSummaryAggregator
new_evaluation_summary_aggregator = record { evaluations = []; counts = []; data_start = pos 0 }

int_unless_nil : Option ℕ → ℤ
int_unless_nil none = pos 0
int_unless_nil (some n) = pos n

-- `fmt.Sprintf("%d-%d-%d-%d-%s", …)`.
unfoldable pub grouping_key : (ConfigValue → GoString) → ConfigMatch → GoString
unfolding int_unless_nil
grouping_key text m = join (codes "-") (
    show_int m.config_id
    ∷ show_int (int_unless_nil m.row_index)
    ∷ show_int (int_unless_nil m.conditional_value_index)
    ∷ show_int (int_unless_nil m.weighted_value_index)
    ∷ text m.match
    ∷ [])

-- `counts[key]++` on an int64.
unfoldable pub increment : ℤ → ℤ
increment (pos n) = if n == 2 ^ 63 - 1 then negsuc (2 ^ 63 - 1) else pos (suc n)
increment (negsuc zero) = pos 0
increment (negsuc (suc n)) = negsuc n

-- The value of a map at a key, 0 where the key is missing.
unfoldable pub or_zero : Option ℤ → ℤ
or_zero none = pos 0
or_zero (some n) = n

with_key :
    GoString
    → ConfigMatch
    → Option ConfigMatch
    → EvaluationSummaryAggregator
    → EvaluationSummaryAggregator
unfolding or_zero
with_key key m none esa = record esa {
  evaluations = Dict.put key m esa.evaluations;
  counts = Dict.put key (pos 1) esa.counts;
}
with_key key m (some seen) esa = record esa {
  counts = Dict.put key (increment (or_zero (Dict.get key esa.counts))) esa.counts;
}

-- `Record`, at a time of the clock.
unfoldable pub record_evaluation :
    (ConfigValue → GoString)
    → ℤ
    → EvaluationSummaryAggregator
    → ConfigMatch
    → EvaluationSummaryAggregator
unfolding with_key
record_evaluation text now esa m =
    let key = grouping_key text m in
    with_key key m (Dict.get key esa.evaluations)
      (record esa { data_start = if eq_ℤ esa.data_start (pos 0) then now else esa.data_start })

unfoldable pub clear : EvaluationSummaryAggregator → EvaluationSummaryAggregator
clear esa = new_evaluation_summary_aggregator
