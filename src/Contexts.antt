-- ===== src/Contexts.antt =====
-- pkg/internal/contexts/context.go. A context holds a map from keys to values, and a context set a
-- map from names to contexts. A map is walked in the order of its list, which stands for the order
-- that Go's `range` happens to take.
pub mod Dots
pub mod Lookup
pub mod Grouping
use prefab_cloud_go.Prelude.{
  ℕ, zero, suc, ◌+◌, ◌-◌, ◌*◌, ◌/◌, ◌%◌, ◌^◌, ◌≤◌, ◌<◌, ltb, leb, ◌==◌, bool_eq, if◌then◌else◌,
  ltb→lt, lt→ltb, leb→le, ==_iff, Bool-cases, Option-cases, length, get_elem?, length-append, All,
  any_of, ℤ, pos, negsuc, pos_part, neg_part, ◌≤ℤ◌, ◌<ℤ◌, ltb_ℤ, leb_ℤ, eq_ℤ, eq_ℤ_iff, GoString,
  codes, str_eq, str_eq_iff, str_eq_refl, str_lt, has_prefix, has_suffix, contains, join, split,
  cons_first, upper_byte, lower_byte, has_prefix_iff, Outcome, ret, panics, unfinished, ◌>>=◌,
  >>=-eq-ret, ◌≡◌, refl, sym, ap, ◌∙◌, ◌≢◌, ◌↔◌, ◌⊎◌, inl, inr, Bool, true, false, not, ◌&&◌, ◌||◌,
  Option, none, some, List, [], ◌∷◌, ◌++◌, arith,
}
use prefab_cloud_go.Prelude.Dict.{Dict, get, put, put_all}
use prefab_cloud_go.Proto.{ConfigValue, Context}
use prefab_cloud_go.GoValue.{Any, Host}
use prefab_cloud_go.ConfigValues.{create, extract_value}
use prefab_cloud_go.Contexts.Dots.{split_at_first_dot}

pub record NamedContext : Type 0 where
  pub data_ : Dict Any
  pub name : GoString

pub record ContextSet : Type 0 where
  pub data_ : Dict NamedContext

-- The loop of `NamedContext.ToProto`: what `Create` refuses is left out.
proto_values : Host → Dict ConfigValue → Dict Any → Outcome (Dict ConfigValue)
proto_values host values [] = ret values
proto_values host values ((key, value) ∷ rest) = create host value >>= λ made.
    proto_values host (if made.1 then put key made.0 values else values) rest

-- `NamedContext.ToProto`.
pub named_to_proto : Host → NamedContext → Outcome Context
unfolding proto_values
named_to_proto host nc = do
  values ← proto_values host [] nc.data_
  ret (record { type = some nc.name; values = values })

abbrev pub new_named_context_with_values : GoString → Dict Any → NamedContext
new_named_context_with_values name values = record { data_ = values; name = name }

abbrev pub new_named_context : NamedContext
new_named_context = record { data_ = []; name = [] }

-- A nil value is left out.
add_native : GoString → Any → Dict Any → Dict Any
add_native key Any.nil values = values
add_native key v values = put key v values

native_values : Host → Dict Any → Dict ConfigValue → Dict Any
unfolding add_native
native_values host values [] = values
native_values host values ((key, cv) ∷ rest) =
    native_values host (add_native key (extract_value host cv).value values) rest

-- `ctx.GetType()`.
unfoldable pub context_type : Context → GoString
context_type ctx = elim ctx.type [ some t ↦ t | none ↦ [] ]

unfoldable pub new_named_context_from_proto : Host → Context → NamedContext
unfolding native_values context_type
new_named_context_from_proto host ctx =
    new_named_context_with_values (context_type ctx) (native_values host [] ctx.values)

-- The loop of `GroupedKey` for one context: whether it has a key, and its id. A key that is no
-- string is a failed type assertion.
context_id : NamedContext → Option Any → Outcome (Bool × GoString)
context_id nc none = ret (false, nc.name ++ b':' ∷ [])
context_id nc (some Any.nil) = ret (false, nc.name ++ b':' ∷ [])
context_id nc (some (Any.string s)) = ret (true, nc.name ++ (b':' ∷ s))
context_id nc (some v) = panics

unfoldable pub id_of : NamedContext → Outcome (Bool × GoString)
unfolding context_id
id_of nc = context_id nc (get (codes "key") nc.data_)

unfoldable pub collect_ids : Dict NamedContext → Outcome (Bool × List GoString)
collect_ids [] = ret (false, [])
collect_ids ((name, nc) ∷ rest) = do
  first ← id_of nc
  others ← collect_ids rest
  ret (first.0 || others.0, first.1 ∷ others.1)

-- `sort.Strings`.
unfoldable pub insert_string : GoString → List GoString → List GoString
insert_string s [] = s ∷ []
insert_string s (t ∷ l) = if str_lt t s then t ∷ insert_string s l else s ∷ t ∷ l

unfoldable pub sort_strings : List GoString → List GoString
unfolding insert_string
sort_strings [] = []
sort_strings (s ∷ l) = insert_string s (sort_strings l)

joined_key : Bool × List GoString → GoString
joined_key (any_keys, ids) = if any_keys then join (b'|' ∷ []) (sort_strings ids) else []

unfoldable pub grouped_key : ContextSet → Outcome GoString
unfolding joined_key
grouped_key cs = do ids ← collect_ids cs.data_; ret (joined_key ids)

-- `ContextSet.ToProto`.
unfoldable pub to_proto : Host → Dict NamedContext → Outcome (List Context)
to_proto host [] = ret []
to_proto host ((name, nc) ∷ rest) = do
  first ← named_to_proto host nc
  others ← to_proto host rest
  ret (first ∷ others)

abbrev pub new_context_set : ContextSet
new_context_set = record { data_ = [] }

add_contexts : Host → Dict NamedContext → List Context → Dict NamedContext
add_contexts host onto [] = onto
add_contexts host onto (ctx ∷ rest) =
    add_contexts host (put (context_type ctx) (new_named_context_from_proto host ctx) onto) rest

-- A nil message gives the empty set.
unfoldable pub new_context_set_from_proto : Host → Option (List Context) → ContextSet
unfolding add_contexts
new_context_set_from_proto host none = new_context_set
new_context_set_from_proto host (some ctxs) = record { data_ = add_contexts host [] ctxs }

value_in : Option NamedContext → GoString → Option Any
value_in (some nc) key = get key nc.data_
value_in none key = none

-- The value, or `none` where the second result is false.
unfoldable pub get_context_value : ContextSet → GoString → Option Any
unfolding value_in
get_context_value cs property_name =
    let parts = split_at_first_dot property_name in value_in (get parts.0 cs.data_) parts.1

-- `SetNamedContext`, and `WithNamedContext`, which returns the same set.
unfoldable pub set_named_context : ContextSet → NamedContext → ContextSet
set_named_context cs nc = record { data_ = put nc.name nc cs.data_ }

unfoldable pub with_named_context_values : ContextSet → GoString → Dict Any → ContextSet
with_named_context_values cs name values = record {
  data_ = put name (new_named_context_with_values name values) cs.data_;
}

merge_onto : Dict NamedContext → List ContextSet → Dict NamedContext
merge_onto onto [] = onto
merge_onto onto (cs ∷ rest) = merge_onto (put_all onto cs.data_) rest

unfoldable pub merge : List ContextSet → ContextSet
unfolding merge_onto
merge sets = record { data_ = merge_onto [] sets }
