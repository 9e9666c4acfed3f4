-- ===== src/Tests/Values.antt =====
-- The theorems on values, contexts and versions at one input each.
use prefab_cloud_go.Prelude.{
  join, ℕ, ◌+◌, ◌%◌, any_of, pos, GoString, codes, str_eq, ret, panics, ◌≡◌, refl, ◌↔◌, true, [],
  ◌∷◌, ◌++◌,
}
use prefab_cloud_go.Prelude.Dict
use prefab_cloud_go.Prelude.Dict.{or_else, IsMap}
use prefab_cloud_go.Proto.{ConfigValue}
use prefab_cloud_go.GoValue.{Any, IntKind}
use prefab_cloud_go.ConfigValues.{create, extract_value, extracted}
use prefab_cloud_go.ConfigValues.Durations.{iso_parts, total, total-iso_parts-year, year, month}
use prefab_cloud_go.ConfigValues.RoundTrip.{IsSimple, extract-create}
use prefab_cloud_go.Contexts.{
  NamedContext, ContextSet, collect_ids, id_of, sort_strings, insert_string, grouped_key,
}
use prefab_cloud_go.Contexts.Grouping.{grouped_key-perm, grouped_key_panics_iff, odd_key}
use prefab_cloud_go.Semver.{SemanticVersion, compare, less}
use prefab_cloud_go.Semver.Order.{compare-chain}
use prefab_cloud_go.Telemetry.Examples.{ExampleContextAggregator, record_context}
use prefab_cloud_go.Telemetry.Examples.Keeping.{Kept, record_context-Kept}
use prefab_cloud_go.Tests.Data.{whole_number_host, user_context, odd_context}
use mathlib.Core.List.{perm_append_comm}

extract-create_example :
    (cv : ConfigValue) × (create whole_number_host (Any.int IntKind.plain (pos 42))
      ≡ ret (cv, true))
    × (extract_value whole_number_host cv ≡ extracted (Any.int IntKind.bits64 (pos 42)))
extract-create_example = extract-create whole_number_host (IsSimple.of_int IntKind.plain (pos 42))

abbrev ninety_minutes : ℕ
ninety_minutes = 5400000000000

total-iso_parts-year_example : total (iso_parts year) + (year % year) % month ≡ year + year % month
total-iso_parts-year_example = total-iso_parts-year year

abbrev device_context : ContextSet
device_context = record {
  data_ = (codes "device", record { data_ = []; name = codes "device" }) ∷ [];
}

abbrev user_then_device : ContextSet
user_then_device = record { data_ = user_context.data_ ++ device_context.data_ }

abbrev device_then_user : ContextSet
device_then_user = record { data_ = device_context.data_ ++ user_context.data_ }

grouped_key-perm_example : grouped_key user_then_device ≡ grouped_key device_then_user
grouped_key-perm_example =
    grouped_key-perm user_then_device device_then_user
      (perm_append_comm user_context.data_ device_context.data_)

grouped_key_panics_iff_example : (grouped_key odd_context ≡ panics) ↔ (
    any_of
      (λ (c : GoString × NamedContext). odd_key (Dict.get (codes "key") c.1.data_))
      odd_context.data_
    ≡ true)
grouped_key_panics_iff_example = grouped_key_panics_iff odd_context

abbrev version : ℕ → GoString → SemanticVersion
version n prerelease = record {
  major = pos 1;
  minor = pos n;
  patch = pos 0;
  prerelease = prerelease;
  build_metadata = [];
}

compare-chain_example : compare (version 1 []) (version 3 []) ≡ less
compare-chain_example =
    compare-chain (version 1 []) (version 2 []) (version 3 []) (unfold compare in refl)

abbrev user_example : ExampleContextAggregator
user_example = (codes "user:u1", record { timestamp = pos 3; contexts = [] }) ∷ []

record_context-Kept_example : Kept (codes "user:u1") user_example user_example
record_context-Kept_example =
    record_context-Kept whole_number_host (pos 5) user_example user_context (codes "user:u1")
      {behind = user_example}
      (unfold grouped_key collect_ids id_of Dict.get str_eq sort_strings insert_string join in refl)
      (unfold record_context grouped_key collect_ids id_of Dict.get str_eq sort_strings
          insert_string join in
        refl)
