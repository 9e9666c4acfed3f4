-- ===== src/Criteria/Complement.antt =====
-- The operators that come in pairs.
use prefab_cloud_go.Prelude.{Outcome, ret, ◌>>=◌, ◌≡◌, Bool, true, false, not, Option, arith}
use prefab_cloud_go.Proto.{Operator, IntRange}
use prefab_cloud_go.GoValue.{Any, Host}
use prefab_cloud_go.ConfigValues.{Extracted}
use prefab_cloud_go.Criteria.{evaluate_operator}

abbrev pub not_outcome : Outcome Bool → Outcome Bool
not_outcome m = m >>= λ b. ret (not b)

-- An operator that wants a match, and its DOES_NOT form.
pub data IsPair : Operator → Operator → Type 0 where
  ends : IsPair Operator.prop_ends_with_one_of Operator.prop_does_not_end_with_one_of
  starts : IsPair Operator.prop_starts_with_one_of Operator.prop_does_not_start_with_one_of
  containing : IsPair Operator.prop_contains_one_of Operator.prop_does_not_contain_one_of
  one_of : IsPair Operator.prop_is_one_of Operator.prop_is_not_one_of
  segment : IsPair Operator.in_seg Operator.not_in_seg

pub evaluate_operator-IsPair :
    (host : Host) (in_segment : Bool → Outcome Bool) {op op' : Operator} (range : Option IntRange)
    (m : Extracted) (c : Option Any)
    → in_segment false ≡ not_outcome (in_segment true)
    → IsPair op op'
    → evaluate_operator host in_segment op' range m c
      ≡ not_outcome (evaluate_operator host in_segment op range m c)
unfolding evaluate_operator
evaluate_operator-IsPair host in_segment range m c h ends = ground arith
evaluate_operator-IsPair host in_segment range m c h starts = ground arith
evaluate_operator-IsPair host in_segment range m c h containing = ground arith
evaluate_operator-IsPair host in_segment range m c h one_of = ground arith
evaluate_operator-IsPair host in_segment range m c h segment = h
