-- ===== src/Options/Sources/Parsing.antt =====
-- Which texts are sources, and of which stores.
use prefab_cloud_go.Prelude.{
  GoString, codes, str_eq, str_eq_iff, has_prefix, contains, ◌≡◌, refl, ◌≢◌, ◌↔◌, ◌⊎◌, false, List,
  [], ◌∷◌, ◌++◌, arith,
}
use prefab_cloud_go.Prelude.Cuts.{Without}
use prefab_cloud_go.Errors.{ok}
use prefab_cloud_go.Options.Sources.{
  StoreType, api_store, data_file, config_dump, memory, memory_store_key, ConfigSource, split_from,
  protocol_mark, source_of, source_of_parts, parse_config_source,
}

-- A text without the separator is the one part.
split_from-alone :
    (s : GoString) → contains s protocol_mark ≡ false → split_from protocol_mark 0 s ≡ s ∷ []
unfolding split_from contains
split_from-alone [] h = refl
split_from-alone (c ∷ s) h = ground (arith, split_from-alone s)

-- The first separator ends the first part.
split_from-append :
    (a b : GoString)
    → Without b':' a
    → split_from protocol_mark 0 (a ++ (protocol_mark ++ b)) ≡ a ∷ split_from protocol_mark 0 b
unfolding split_from has_prefix
split_from-append [] b h = refl
split_from-append (c ∷ a) b h = ground (arith, h.0, split_from-append a b h.1)

-- The stores that the protocols stand for.
abbrev pub IsProtocol : GoString → StoreType → Type 0
IsProtocol protocol store =
    ((protocol ≡ codes "datafile") × (store ≡ data_file))
    ⊎ (((protocol ≡ codes "dump") × (store ≡ config_dump))
        ⊎ ((protocol ≡ codes "memory") × (store ≡ memory)))

abbrev pub IsSourceOf : GoString → GoString → GoString → ConfigSource → Type 0
IsSourceOf raw protocol path source =
    (source.raw ≡ raw)
    × (source.path ≡ path)
    × (source.is_default ≡ false)
    × IsProtocol protocol source.store

source_of_iff :
    (raw protocol path : GoString) (source : ConfigSource)
    → (source_of raw protocol path ≡ ok source) ↔ IsSourceOf raw protocol path source
unfolding source_of
source_of_iff raw protocol path source = ground (
  arith,
  str_eq_iff protocol (codes "datafile"),
  str_eq_iff protocol (codes "dump"),
  str_eq_iff protocol (codes "memory"),
)

-- A protocol without a colon, "://", and a path in which "://" does not stand: this is a source exactly
-- where the protocol is datafile, dump or memory, namely of the protocol's store, with the path, with
-- the whole text as its raw text, and not a default.
pub parse_config_source_iff :
    (protocol path : GoString) (source : ConfigSource)
    → Without b':' protocol
    → contains path protocol_mark ≡ false
    → (parse_config_source (protocol ++ (protocol_mark ++ path)) ≡ ok source)
      ↔ IsSourceOf (protocol ++ (protocol_mark ++ path)) protocol path source
unfolding parse_config_source source_of_parts
parse_config_source_iff protocol path source h k =
    rw (split_from-append protocol path h, split_from-alone path k)
      (source_of_iff (protocol ++ (protocol_mark ++ path)) protocol path source)

of_parts-offline :
    (raw : GoString) (parts : List GoString) {source : ConfigSource}
    → source_of_parts raw parts ≡ ok source
    → source.store ≢ api_store
unfolding source_of_parts
of_parts-offline raw [] h = absurd (cc h)
of_parts-offline raw (protocol ∷ []) h = absurd (cc h)
of_parts-offline raw (protocol ∷ path ∷ more) {source} h =
    ground (arith, (source_of_iff raw protocol path source).0 h)

-- No text is a source of the API.
pub parse_config_source-offline :
    (raw : GoString) {source : ConfigSource}
    → parse_config_source raw ≡ ok source
    → source.store ≢ api_store
unfolding parse_config_source
parse_config_source-offline raw h = of_parts-offline raw (split_from protocol_mark 0 raw) h

-- The one source that `WithConfigs` leaves.
abbrev pub memory_source : ConfigSource
memory_source = record {
  store = memory;
  raw = memory_store_key;
  path = codes "configs";
  is_default = false;
}

pub parse_config_source-memory : parse_config_source memory_store_key ≡ ok memory_source
unfolding parse_config_source source_of_parts source_of split_from has_prefix str_eq
parse_config_source-memory = refl
