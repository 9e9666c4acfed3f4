-- ===== src/AnyHelpers.antt =====
-- pkg/internal/anyhelpers/helpers.go.
pub mod StringLists
use prefab_cloud_go.Prelude.{
  ℕ, ◌^◌, ◌-◌, ltb, ℤ, pos, GoString, codes, Bool, true, false, List, [], ◌∷◌, Option, none, some,
  Outcome, ret, panics, ◌>>=◌, if◌then◌else◌, ◌&&◌,
}
use prefab_cloud_go.Proto.{Float64}
use prefab_cloud_go.GoValue.{Any, AnyList, Host, type_of, same_type, GoType, IntKind}

unfoldable pub is_number : Any → Bool
is_number (Any.int k n) = true
is_number (Any.uint k n) = true
is_number (Any.float32 x) = true
is_number (Any.float64 x) = true
is_number _ = false

unfoldable pub is_string : Any → Bool
is_string (Any.string s) = true
is_string _ = false

-- `none` is the error.
unfoldable pub to_float64 : Host → Any → Option Float64
to_float64 host (Any.int k n) = some (host.float_of_int n)
to_float64 host (Any.uint k n) = some (host.float_of_int (pos n))
to_float64 host (Any.float32 x) = some x
to_float64 host (Any.float64 x) = some x
to_float64 host _ = none

abbrev max_int64 : ℕ
max_int64 = 2 ^ 63 - 1

unfoldable pub to_int64 : Host → Any → Option ℤ
to_int64 host (Any.int k n) = some n
to_int64 host (Any.uint k n) = if ltb max_int64 n then none else some (pos n)
to_int64 host (Any.float32 x) = some (host.int_of_float x)
to_int64 host (Any.float64 x) = some (host.int_of_float x)
to_int64 host _ = none

-- The loop over the elements behind the first: all have the type `t`.
all_of_type : GoType → AnyList → Bool
all_of_type t AnyList.end = true
all_of_type t (AnyList.item v rest) = same_type (type_of v) t && all_of_type t rest

-- The elements of a slice of strings; `Convert` is the identity on them.
strings_of : AnyList → List GoString
strings_of AnyList.end = []
strings_of (AnyList.item (Any.string s) rest) = s ∷ strings_of rest
strings_of (AnyList.item _ rest) = strings_of rest

bytes_of : AnyList → List ℕ
bytes_of AnyList.end = []
bytes_of (AnyList.item (Any.uint k n) rest) = n ∷ bytes_of rest
bytes_of (AnyList.item _ rest) = bytes_of rest

spelling : GoType → GoString
spelling GoType.no_type = codes "nil"
spelling (GoType.builtin s) = s
spelling (GoType.slice_of s) = s
spelling (GoType.named s) = s

-- The slice that is made of elements with the type of the first. `reflect.SliceOf` panics on the
-- type of nil.
converted : Any → AnyList → Outcome Any
converted Any.nil l = panics
converted (Any.string s) l = ret (Any.string_slice (strings_of l))
converted (Any.uint IntKind.bits8 n) l = ret (Any.bytes (bytes_of l))
converted v l = ret (Any.typed_slice (spelling (type_of v)) l)

unfoldable pub canonicalize_slice : Any → Outcome (Any × Bool)
unfolding all_of_type converted strings_of bytes_of spelling same_type type_of
canonicalize_slice (Any.slice AnyList.end) = ret (Any.slice AnyList.end, false)
canonicalize_slice (Any.slice (AnyList.item v rest)) =
    if all_of_type (type_of v) rest
    then (do result ← converted v (AnyList.item v rest); ret (result, true))
    else ret (Any.slice (AnyList.item v rest), false)
canonicalize_slice (Any.string_slice []) = ret (Any.string_slice [], false)
canonicalize_slice (Any.string_slice (s ∷ l)) = ret (Any.string_slice (s ∷ l), true)
canonicalize_slice (Any.bytes []) = ret (Any.bytes [], false)
canonicalize_slice (Any.bytes (b ∷ l)) = ret (Any.bytes (b ∷ l), true)
canonicalize_slice (Any.typed_slice t AnyList.end) = ret (Any.typed_slice t AnyList.end, false)
canonicalize_slice (Any.typed_slice t (AnyList.item v l)) =
    ret (Any.typed_slice t (AnyList.item v l), true)
canonicalize_slice v = ret (v, false)

string_list_of : Any × Bool → Option (List GoString)
string_list_of (Any.string_slice l, true) = some l
string_list_of (v, ok) = none

unfoldable pub detect_and_return_string_list_if_present : Any → Outcome (Option (List GoString))
unfolding canonicalize_slice string_list_of
detect_and_return_string_list_if_present input = do
  canonical ← canonicalize_slice input
  ret (string_list_of canonical)
