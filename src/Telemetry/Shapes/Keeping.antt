-- ===== src/Telemetry/Shapes/Keeping.antt =====
-- The type of a key is that of its first value.
use prefab_cloud_go.Prelude.{
  ℕ, if◌then◌else◌, GoString, str_eq, str_eq_iff, ◌≡◌, refl, sym, ap, ◌∙◌, ◌&&◌, Option, none, some,
  [], ◌∷◌, arith,
}
use prefab_cloud_go.Prelude.Dict
use prefab_cloud_go.Prelude.Dict.{Dict, get-put}
use prefab_cloud_go.GoValue.{Any}
use prefab_cloud_go.Contexts.{NamedContext, ContextSet}
use prefab_cloud_go.Telemetry.Shapes.{
  ContextShapeAggregator, types_of, field_type_for_value, if_absent, record_field, record_fields,
  record_contexts, record_shapes,
}

-- The type under a context's name and a key.
abbrev pub field_type : ContextShapeAggregator → GoString → GoString → Option ℕ
field_type eca name key = Dict.get key (types_of (Dict.get name eca))

abbrev pub type_of_value : Option Any → Option ℕ
type_of_value none = none
type_of_value (some value) = some (field_type_for_value value)

-- The type that the first of the contexts with the name and the key gives.
pub first_type : GoString → GoString → Dict NamedContext → Option ℕ
first_type name key [] = none
first_type name key ((n, context) ∷ contexts) =
    Dict.or_else
      (if str_eq context.name name then type_of_value (Dict.get key context.data_) else none)
      (first_type name key contexts)

field_type-record_field :
    (eca : ContextShapeAggregator) (n k : GoString) (value : Any) (name key : GoString)
    → field_type (record_field eca n k value) name key
      ≡ Dict.or_else
          (field_type eca name key)
          (if str_eq n name && str_eq k key then some (field_type_for_value value) else none)
unfolding record_field if_absent Dict.get
field_type-record_field eca n k value name key = ground (
  arith,
  get-put n name
      (if_absent k (field_type_for_value value) (Dict.get k (types_of (Dict.get n eca)))
        (types_of (Dict.get n eca)))
      eca,
  get-put k key (field_type_for_value value) (types_of (Dict.get n eca)),
  str_eq_iff n name,
  str_eq_iff k key,
)

or_else_assoc {ℓ} :
    {A : Type ℓ} (a b c : Option A)
    → Dict.or_else (Dict.or_else a b) c ≡ Dict.or_else a (Dict.or_else b c)
or_else_assoc none b c = refl
or_else_assoc (some x) b c = refl

or_else-none {ℓ} : {A : Type ℓ} (a : Option A) → Dict.or_else a none ≡ a
or_else-none none = refl
or_else-none (some x) = refl

field_type-record_fields :
    (eca : ContextShapeAggregator) (n : GoString) (fields : Dict Any) (name key : GoString)
    → field_type (record_fields eca n fields) name key
      ≡ Dict.or_else
          (field_type eca name key)
          (if str_eq n name then type_of_value (Dict.get key fields) else none)
unfolding record_fields Dict.get
field_type-record_fields eca n [] name key = ground (arith, or_else-none (field_type eca name key))
field_type-record_fields eca n ((k, value) ∷ fields) name key = ground (
  arith,
  field_type-record_fields (record_field eca n k value) n fields name key,
  field_type-record_field eca n k value name key,
)

field_type-record_contexts :
    (eca : ContextShapeAggregator) (contexts : Dict NamedContext) (name key : GoString)
    → field_type (record_contexts eca contexts) name key
      ≡ Dict.or_else (field_type eca name key) (first_type name key contexts)
unfolding record_contexts first_type
field_type-record_contexts eca [] name key = sym (or_else-none (field_type eca name key))
field_type-record_contexts eca ((n, context) ∷ contexts) name key =
    field_type-record_contexts (record_fields eca context.name context.data_) contexts name key
    ∙ ap (λ o. Dict.or_else o (first_type name key contexts))
        (field_type-record_fields eca context.name context.data_ name key)
    ∙ or_else_assoc (field_type eca name key)
        (if str_eq context.name name then type_of_value (Dict.get key context.data_) else none)
        (first_type name key contexts)

-- A key of a context keeps the type that is recorded for it; a key without one gets the type of its value in the
-- first of the contexts that has it; and no other key gets one.
pub record_shapes-first :
    (eca : ContextShapeAggregator) (set : ContextSet) (name key : GoString)
    → field_type (record_shapes eca set) name key
      ≡ Dict.or_else (field_type eca name key) (first_type name key set.data_)
unfolding record_shapes
record_shapes-first eca set name key = field_type-record_contexts eca set.data_ name key
