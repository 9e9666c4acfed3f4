-- ===== src/GoValue/Values.antt =====
-- A value of `any`, with one constructor for each dynamic type that the program tells apart.
use prefab_cloud_go.Prelude.{ℕ, ℤ, GoString, codes, str_eq, Bool, true, false, List, ◌∷◌}
use prefab_cloud_go.Proto.{Float64, LogLevel, ConfigValue, ConfigValueType}

-- The sizes of Go's integer types; `plain` is that of `int` and `uint`.
pub data IntKind : Type 0 where
  plain bits8 bits16 bits32 bits64 : IntKind

-- `slice` is an `[]interface{}`; `typed_slice` a slice of an element type that is neither string
-- nor byte nor interface, with the element type's spelling; `pointer` an `*any`; `oneof` the wrapper that
-- `cv.GetType()` returns; `other` a value of any other type: the type's name and its text under %v.
mutual
  pub data Any : Type 0 where
    nil : Any
    int : IntKind → ℤ → Any
    uint : IntKind → ℕ → Any
    float32 : Float64 → Any
    float64 : Float64 → Any
    string : GoString → Any
    bool : Bool → Any
    bytes : List ℕ → Any
    string_slice : List GoString → Any
    slice : AnyList → Any
    typed_slice : GoString → AnyList → Any
    map : AnyMap → Any
    log_level : LogLevel → Any
    log_level_value : LogLevel → Any
    duration : ℤ → Any
    config_value_pointer : ConfigValue → Any
    pointer : Any → Any
    nil_pointer : Any
    oneof : ConfigValueType → Any
    other : GoString → GoString → Any

  pub data AnyList : Type 0 where
    end : AnyList
    item : Any → AnyList → AnyList

  pub data AnyMap : Type 0 where
    empty : AnyMap
    field : GoString → Any → AnyMap → AnyMap

int_type_name : IntKind → GoString
int_type_name plain = codes "int"
int_type_name bits8 = codes "int8"
int_type_name bits16 = codes "int16"
int_type_name bits32 = codes "int32"
int_type_name bits64 = codes "int64"

-- A reflect.Type: nil for a nil interface, a predeclared or unnamed type by its spelling, a slice
-- type by its element's spelling, and any further type by its name.
pub data GoType : Type 0 where
  no_type : GoType
  builtin : GoString → GoType
  slice_of : GoString → GoType
  named : GoString → GoType

-- `a == b` on types.
unfoldable pub same_type : GoType → GoType → Bool
same_type no_type no_type = true
same_type (builtin a) (builtin b) = str_eq a b
same_type (slice_of a) (slice_of b) = str_eq a b
same_type (named a) (named b) = str_eq a b
same_type _ _ = false

-- `reflect.TypeOf(value)`.
unfoldable pub type_of : Any → GoType
unfolding int_type_name
type_of nil = no_type
type_of (int k n) = builtin (int_type_name k)
type_of (uint k n) = builtin (b'u' ∷ int_type_name k)
type_of (float32 x) = builtin (codes "float32")
type_of (float64 x) = builtin (codes "float64")
type_of (string s) = builtin (codes "string")
type_of (bool b) = builtin (codes "bool")
type_of (bytes b) = builtin (codes "[]uint8")
type_of (string_slice l) = builtin (codes "[]string")
type_of (slice l) = builtin (codes "[]interface {}")
type_of (typed_slice t l) = slice_of t
type_of (map m) = builtin (codes "map[string]interface {}")
type_of (log_level l) = builtin (codes "prefab.LogLevel")
type_of (log_level_value l) = builtin (codes "*prefab.ConfigValue_LogLevel")
type_of (duration d) = builtin (codes "time.Duration")
type_of (config_value_pointer cv) = builtin (codes "*prefab.ConfigValue")
type_of (pointer v) = builtin (codes "*interface {}")
type_of nil_pointer = builtin (codes "*interface {}")
type_of (oneof t) = builtin (codes "prefab.isConfigValue_Type")
type_of (other t text) = named t
