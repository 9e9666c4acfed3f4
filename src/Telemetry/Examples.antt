-- ===== src/Telemetry/Examples.antt =====
-- pkg/internal/telemetry/example_context_aggregator.go: `Record`.
pub mod Keeping
use prefab_cloud_go.Prelude.{
  ℕ, zero, suc, ◌+◌, ◌-◌, ◌*◌, ◌/◌, ◌%◌, ◌^◌, ◌≤◌, ◌<◌, ltb, leb, ◌==◌, bool_eq, if◌then◌else◌,
  ltb→lt, lt→ltb, leb→le, ==_iff, Bool-cases, Option-cases, length, get_elem?, length-append, All,
  any_of, ℤ, pos, negsuc, pos_part, neg_part, ◌≤ℤ◌, ◌<ℤ◌, ltb_ℤ, leb_ℤ, eq_ℤ, eq_ℤ_iff, GoString,
  codes, str_eq, str_eq_iff, str_eq_refl, str_lt, has_prefix, has_suffix, contains, join, split,
  cons_first, upper_byte, lower_byte, has_prefix_iff, Outcome, ret, panics, unfinished, ◌>>=◌,
  >>=-eq-ret, ◌≡◌, refl, sym, ap, ◌∙◌, ◌≢◌, ◌↔◌, ◌⊎◌, inl, inr, Bool, true, false, not, ◌&&◌, ◌||◌,
  Option, none, some, List, [], ◌∷◌, ◌++◌, map, arith,
}
use prefab_cloud_go.Prelude.Dict
use prefab_cloud_go.Prelude.Dict.{Dict}
use prefab_cloud_go.Proto.{Context}
use prefab_cloud_go.GoValue.{Host}
use prefab_cloud_go.Contexts.{ContextSet, grouped_key, to_proto}

pub record ExampleContext : Type 0 where
  pub timestamp : ℤ
  pub contexts : List Context

-- `ExampleContextAggregator`: its `Data`.
abbrev pub ExampleContextAggregator : Type 0
ExampleContextAggregator = Dict ExampleContext

abbrev pub new_example_context_aggregator : ExampleContextAggregator
new_example_context_aggregator = []

-- The example of a key that is not there yet.
add_example :
    Host
    → ℤ
    → ExampleContextAggregator
    → GoString
    → ContextSet
    → Option ExampleContext
    → Outcome ExampleContextAggregator
add_example host now eca key set (some example) = ret eca
add_example host now eca key set none = do
  contexts ← to_proto host set.data_
  ret (Dict.put key (record { timestamp = now; contexts = contexts }) eca)

with_grouped_key :
    Host → ℤ → ExampleContextAggregator → ContextSet → GoString → Outcome ExampleContextAggregator
unfolding add_example
with_grouped_key host now eca set key =
    if str_eq key [] then ret eca else add_example host now eca key set (Dict.get key eca)

-- `Record`, at a time of the clock.
unfoldable pub record_context :
    Host → ℤ → ExampleContextAggregator → ContextSet → Outcome ExampleContextAggregator
unfolding with_grouped_key
record_context host now eca set = grouped_key set >>= with_grouped_key host now eca set
