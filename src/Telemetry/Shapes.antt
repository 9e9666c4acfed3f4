-- ===== src/Telemetry/Shapes.antt =====
-- pkg/internal/telemetry/context_shape_aggregator.go.
pub mod Keeping
use prefab_cloud_go.Prelude.{
  ℕ, zero, suc, ◌+◌, ◌-◌, ◌*◌, ◌/◌, ◌%◌, ◌^◌, ◌≤◌, ◌<◌, ltb, leb, ◌==◌, bool_eq, if◌then◌else◌,
  ltb→lt, lt→ltb, leb→le, ==_iff, Bool-cases, Option-cases, length, get_elem?, length-append, All,
  any_of, ℤ, pos, negsuc, pos_part, neg_part, ◌≤ℤ◌, ◌<ℤ◌, ltb_ℤ, leb_ℤ, eq_ℤ, eq_ℤ_iff, GoString,
  codes, str_eq, str_eq_iff, str_eq_refl, str_lt, has_prefix, has_suffix, contains, join, split,
  cons_first, upper_byte, lower_byte, has_prefix_iff, Outcome, ret, panics, unfinished, ◌>>=◌,
  >>=-eq-ret, ◌≡◌, refl, sym, ap, ◌∙◌, ◌≢◌, ◌↔◌, ◌⊎◌, inl, inr, Bool, true, false, not, ◌&&◌, ◌||◌,
  Option, none, some, List, [], ◌∷◌, ◌++◌, map, arith,
}
use prefab_cloud_go.Prelude.Dict
use prefab_cloud_go.Prelude.Dict.{Dict}
use prefab_cloud_go.GoValue.{Any, IntKind}
use prefab_cloud_go.Contexts.{NamedContext, ContextSet}
use prefab_cloud_go.Telemetry.Events.{ContextShape, TelemetryEvent}

-- `ContextShapeAggregator`: its `data`, the field types by context name and key.
abbrev pub ContextShapeAggregator : Type 0
ContextShapeAggregator = Dict (Dict ℕ)

abbrev pub new_context_shape_aggregator : ContextShapeAggregator
new_context_shape_aggregator = []

unfoldable pub field_type_for_value : Any → ℕ
field_type_for_value (Any.int IntKind.plain n) = 1
field_type_for_value (Any.int IntKind.bits32 n) = 1
field_type_for_value (Any.int IntKind.bits64 n) = 1
field_type_for_value (Any.string s) = 2
field_type_for_value (Any.float64 x) = 4
field_type_for_value (Any.float32 x) = 4
field_type_for_value (Any.bool b) = 5
field_type_for_value (Any.string_slice l) = 10
field_type_for_value (Any.slice l) = 10
field_type_for_value _ = 2

-- The types of a name, an empty map where the name is missing.
abbrev pub types_of : Option (Dict ℕ) → Dict ℕ
types_of none = []
types_of (some types) = types

if_absent : GoString → ℕ → Option ℕ → Dict ℕ → Dict ℕ
if_absent key field_type (some known) types = types
if_absent key field_type none types = Dict.put key field_type types

-- One key of a context: it keeps the type that it has.
unfoldable pub record_field :
    ContextShapeAggregator → GoString → GoString → Any → ContextShapeAggregator
unfolding if_absent
record_field eca name key value =
    let types = types_of (Dict.get name eca) in
    Dict.put name (if_absent key (field_type_for_value value) (Dict.get key types) types) eca

unfoldable pub record_fields : ContextShapeAggregator → GoString → Dict Any → ContextShapeAggregator
record_fields eca name [] = eca
record_fields eca name ((key, value) ∷ fields) =
    record_fields (record_field eca name key value) name fields

unfoldable pub record_contexts : ContextShapeAggregator → Dict NamedContext → ContextShapeAggregator
record_contexts eca [] = eca
record_contexts eca ((name, context) ∷ contexts) =
    record_contexts (record_fields eca context.name context.data_) contexts

-- `Record`.
unfoldable pub record_shapes : ContextShapeAggregator → ContextSet → ContextShapeAggregator
record_shapes eca context_set = record_contexts eca context_set.data_

unfoldable pub clear : ContextShapeAggregator → ContextShapeAggregator
clear eca = new_context_shape_aggregator

shapes_of : ContextShapeAggregator → List ContextShape
shapes_of [] = []
shapes_of ((name, types) ∷ eca) =
    record { name = name; field_types = Dict.put_all [] types } ∷ shapes_of eca

-- `GetData`.
unfoldable pub get_data : ContextShapeAggregator → TelemetryEvent
unfolding shapes_of
get_data eca = TelemetryEvent.context_shapes (shapes_of eca)
