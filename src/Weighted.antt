-- ===== src/Weighted.antt =====
-- pkg/internal/weighted_values.go and pkg/internal/hashing.go. `draw` stands for what
-- `Rand.Float64()` returns.
pub mod Choice
use prefab_cloud_go.Prelude.{
  ℕ, zero, suc, ◌+◌, ◌-◌, ◌*◌, ◌/◌, ◌%◌, ◌^◌, ◌≤◌, ◌<◌, ltb, leb, ◌==◌, bool_eq, if◌then◌else◌,
  ltb→lt, lt→ltb, leb→le, ==_iff, Bool-cases, Option-cases, length, get_elem?, length-append, All,
  any_of, ℤ, pos, negsuc, pos_part, neg_part, ◌≤ℤ◌, ◌<ℤ◌, ltb_ℤ, leb_ℤ, eq_ℤ, eq_ℤ_iff, GoString,
  codes, str_eq, str_eq_iff, str_eq_refl, str_lt, has_prefix, has_suffix, contains, join, split,
  cons_first, upper_byte, lower_byte, has_prefix_iff, Outcome, ret, panics, unfinished, ◌>>=◌,
  >>=-eq-ret, ◌≡◌, refl, sym, ap, ◌∙◌, ◌≢◌, ◌↔◌, ◌⊎◌, inl, inr, Bool, true, false, not, ◌&&◌, ◌||◌,
  Option, none, some, List, [], ◌∷◌, ◌++◌, arith,
}
use prefab_cloud_go.Prelude.Decimal.{show_int}
use prefab_cloud_go.Proto.{ConfigValue, WeightedValues, no_more, weighted, Float64}
use prefab_cloud_go.GoValue.{Any, Host}
use prefab_cloud_go.Interfaces.{ContextValueGetter}
use prefab_cloud_go.Criteria.Texts.{context_value_to_string}

-- The bits of an int32, as a number below 2^32.
bits : ℤ → ℕ
bits (pos n) = n % 2 ^ 32
bits (negsuc n) = 2 ^ 32 - 1 - n % 2 ^ 32

of_bits : ℕ → ℤ
of_bits n = if ltb n (2 ^ 31) then pos n else negsuc (2 ^ 32 - 1 - n)

-- `a + b` on int32, with its wrap-around.
unfoldable pub add_int32 : ℤ → ℤ → ℤ
unfolding bits of_bits
add_int32 a b = of_bits ((bits a + bits b) % 2 ^ 32)

-- `HashZeroToOne`: writing to the hash does not fail.
unfoldable pub hash_zero_to_one : Host → GoString → Float64
hash_zero_to_one host value =
    host.float_div (host.float_of_int (pos (host.murmur3_sum32 value)))
      (host.float_of_int (pos (2 ^ 32 - 1)))

-- "%v" of a context value; nil is written out here.
text_of : Host → Any → GoString
text_of host Any.nil = codes "<nil>"
text_of host v = context_value_to_string host v

fraction_of : Host → Float64 → GoString → Option Any → Float64
fraction_of host draw property_name none = draw
fraction_of host draw property_name (some value) =
    hash_zero_to_one host (property_name ++ text_of host value)

unfoldable pub get_user_fraction :
    Host → Float64 → Option GoString → GoString → ContextValueGetter → Float64
unfolding fraction_of hash_zero_to_one text_of context_value_to_string
get_user_fraction host draw none property_name context = draw
get_user_fraction host draw (some hash_by) property_name context =
    fraction_of host draw property_name (context hash_by)

-- The first loop of `Resolve`.
unfoldable pub sum_weights : ℤ → WeightedValues → ℤ
sum_weights sum no_more = sum
sum_weights sum (weighted w v rest) = sum_weights (add_int32 sum w) rest

-- The second loop, from the index `i`; `none` where no sum reaches the threshold.
unfoldable pub pick : Host → Float64 → ℤ → ℕ → WeightedValues → Option (ConfigValue × ℕ)
pick host threshold running i no_more = none
pick host threshold running i (weighted w v rest) =
    let total = add_int32 running w in
    let later = pick host threshold total (suc i) rest in
    if host.float_le threshold (host.float_of_int total) then some (v, i) else later

-- What is returned behind the loop: the first value, whose index is out of range if there is none.
or_first : Option (ConfigValue × ℕ) → WeightedValues → Outcome (ConfigValue × ℕ)
or_first (some r) values = ret r
or_first none no_more = panics
or_first none (weighted w v rest) = ret (v, 0)

-- `weightThreshold`.
unfoldable pub threshold_of : Host → Float64 → WeightedValues → Float64
threshold_of host fraction values =
    host.float_mul fraction (host.float_of_int (sum_weights (pos 0) values))

unfoldable pub resolve :
    Host
    → Float64
    → WeightedValues
    → Option GoString
    → GoString
    → ContextValueGetter
    → Outcome (ConfigValue × ℕ)
unfolding or_first
resolve host draw values hash_by property_name context =
    let fraction = get_user_fraction host draw hash_by property_name context in
    or_first (pick host (threshold_of host fraction values) (pos 0) 0 values) values
