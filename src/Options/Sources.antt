-- ===== src/Options/Sources.antt =====
-- pkg/internal/options/config_sources.go: where the configs come from.
pub mod Parsing
use prefab_cloud_go.Prelude.{
  ℕ, zero, suc, ◌+◌, ◌-◌, ◌*◌, ◌/◌, ◌%◌, ◌^◌, ◌≤◌, ◌<◌, ltb, leb, ◌==◌, bool_eq, if◌then◌else◌,
  ltb→lt, lt→ltb, leb→le, ==_iff, Bool-cases, Option-cases, length, get_elem?, length-append, All,
  any_of, ℤ, pos, negsuc, pos_part, neg_part, ◌≤ℤ◌, ◌<ℤ◌, ltb_ℤ, leb_ℤ, eq_ℤ, eq_ℤ_iff, GoString,
  codes, str_eq, str_eq_iff, str_eq_refl, str_lt, has_prefix, has_suffix, contains, join, split,
  cons_first, upper_byte, lower_byte, has_prefix_iff, Outcome, ret, panics, unfinished, ◌>>=◌,
  >>=-eq-ret, ◌≡◌, refl, sym, ap, ◌∙◌, ◌≢◌, ◌↔◌, ◌⊎◌, inl, inr, Bool, true, false, not, ◌&&◌, ◌||◌,
  Option, none, some, List, [], ◌∷◌, ◌++◌, map, arith,
}
use prefab_cloud_go.Errors.{Error, Result, ok, err}

abbrev pub StoreType : Type 0
StoreType = GoString

abbrev pub api_store : StoreType
api_store = codes "API"

abbrev pub data_file : StoreType
data_file = codes "DataFile"

abbrev pub config_dump : StoreType
config_dump = codes "ConfigDump"

abbrev pub memory : StoreType
memory = codes "Memory"

abbrev pub memory_store_key : GoString
memory_store_key = codes "memory://configs"

pub record ConfigSource : Type 0 where
  pub store : StoreType
  pub raw : GoString
  pub path : GoString
  pub is_default : Bool

abbrev pub default_config_sources : List ConfigSource
default_config_sources =
    record { store = api_store; raw = codes "api:prefab"; path = []; is_default = true } ∷ []

-- `strings.Split(s, sep)`; `skip` counts the bytes of a separator that are still to be passed over.
unfoldable pub split_from : GoString → ℕ → GoString → List GoString
split_from sep skip [] = [] ∷ []
split_from sep (suc skip) (c ∷ s) = split_from sep skip s
split_from sep zero (c ∷ s) = elim (has_prefix (c ∷ s) sep) [
  | true ↦ [] ∷ split_from sep (length sep - 1) s
  | false ↦ cons_first c (split_from sep 0 s)
]

abbrev pub protocol_mark : GoString
protocol_mark = codes "://"

source_of : GoString → GoString → GoString → Result ConfigSource
source_of raw_source protocol path =
    if str_eq protocol (codes "datafile")
    then ok (record { store = data_file; raw = raw_source; path = path; is_default = false })
    else if str_eq protocol (codes "dump")
    then ok (record { store = config_dump; raw = raw_source; path = path; is_default = false })
    else if str_eq protocol (codes "memory")
    then ok (record { store = memory; raw = raw_source; path = path; is_default = false })
    else err (Error.unknown_protocol protocol)

-- The first two parts, where there are two.
source_of_parts : GoString → List GoString → Result ConfigSource
unfolding source_of
source_of_parts raw_source (protocol ∷ path ∷ more) = source_of raw_source protocol path
source_of_parts raw_source _ = err (Error.protocol_missing raw_source)

unfoldable pub parse_config_source : GoString → Result ConfigSource
unfolding source_of_parts
parse_config_source raw_source = source_of_parts raw_source (split_from protocol_mark 0 raw_source)
